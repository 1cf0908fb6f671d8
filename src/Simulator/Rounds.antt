-- ===== src/Simulator/Rounds.antt =====
-- The loop of main, round by round: what one round does, and the fuel of the model.
use computer_enhance.Shared.{
  ℕ, zero, suc, ◌+◌, ◌<◌, ◌≡◌, refl, sym, ◌∙◌, subst, true, false, ltb, Option, none, some, Outcome,
  ok, exit_error, out_of_bounds, Bool-cases, inl, inr, arith,
}
use computer_enhance.Simulator.Machine.{Machine}
use computer_enhance.Simulator.Run.{step, continue, run}

pub run-more :
    (fuel available : ℕ) (m : Machine)
    → ltb m.ip available ≡ true
    → run (suc fuel) available m ≡ continue (λ m'. run fuel available m') (step m)
unfolding run
run-more fuel available m more = ground (arith, more)

pub run-stop :
    (fuel available : ℕ) (m : Machine)
    → ltb m.ip available ≡ false
    → run (suc fuel) available m ≡ some (ok m)
unfolding run
run-stop fuel available m stop = ground (arith, stop)

-- A round that ends well is followed by the rest of the loop.
pub run-ok :
    (fuel available : ℕ) (m m' : Machine)
    → m.ip < available
    → step m ≡ ok m'
    → run (suc fuel) available m ≡ run fuel available m'
unfolding continue
run-ok fuel available m m' more e = run-more fuel available m (ground arith) ∙ rw e

run-zero : (available : ℕ) (m : Machine) → run zero available m ≡ none
unfolding run
run-zero available m = refl

continue_mono :
    (rest rest' : Machine → Option (Outcome Machine)) (o r : Outcome Machine)
    → ((m : Machine) → rest m ≡ some r → rest' m ≡ some r)
    → continue rest o ≡ some r
    → continue rest' o ≡ some r
unfolding continue
continue_mono rest rest' (ok m) r h e = h m e
continue_mono rest rest' exit_error r h e = e
continue_mono rest rest' out_of_bounds r h e = e

run-suc :
    (fuel more available : ℕ) (m : Machine) (r : Outcome Machine)
    → ((m' : Machine) → run fuel available m' ≡ some r → run more available m' ≡ some r)
    → run (suc fuel) available m ≡ some r
    → run (suc more) available m ≡ some r
run-suc fuel more available m r h e = elim (Bool-cases (ltb m.ip available)) [
  | inr stop ↦ run-stop more available m stop ∙ sym (run-stop fuel available m stop) ∙ e
  | inl go ↦
      run-more more available m go
      ∙ continue_mono (λ m'. run fuel available m') (λ m'. run more available m') (step m) r h
          (sym (run-more fuel available m go) ∙ e)
]

-- A run that ends on some fuel ends in the same way on any more of it.
pub run_mono :
    (fuel more available : ℕ) (m : Machine) (r : Outcome Machine)
    → run fuel available m ≡ some r
    → run (fuel + more) available m ≡ some r
run_mono zero more available m r e = ground (arith, run-zero available m, e)
run_mono (suc fuel) more available m r e =
    let shape : suc (fuel + more) ≡ suc fuel + more = omega arith in
    subst (λ n. run n available m ≡ some r) shape
      (run-suc fuel (fuel + more) available m r (λ m'. run_mono fuel more available m' r) e)
