-- ===== src/Simulator/Countdown.antt =====
-- The loop of main in simulator_8086/simulator.c on a LOOP that jumps to itself.
use computer_enhance.Shared.{ℕ, zero, suc, ◌+◌, ◌^◌, ◌<◌, ◌≡◌, refl, ◌∙◌, subst, some, ok, arith}
use computer_enhance.Decoder.Types.{reg_cx}
use computer_enhance.Decoder.Encoding.Jumps.{loop}
use computer_enhance.Simulator.Machine.{Machine}
use computer_enhance.Simulator.Run.{step, run}
use computer_enhance.Simulator.Rounds.{run-stop, run-ok}
use computer_enhance.Simulator.Invariant.{IsMachine, IsValid}
use computer_enhance.Simulator.Invariant.Loop.{step-IsValid}
use computer_enhance.Simulator.Jumping.{AtJump, step-Looped}

-- A machine whose last instruction is a LOOP to itself, with cx still to count.
record Counts (count available : ℕ) (m : Machine) : Type 0 where
  valid : IsMachine m
  at : AtJump loop 0xfe m
  last : m.ip + 2 ≡ available
  inside : available < 2 ^ 16
  cx : m.registers reg_cx ≡ count

Counts-round :
    (count available : ℕ) (m : Machine)
    → Counts (suc (suc count)) available m
    → (m' : Machine) × (step m ≡ ok m') × Counts (suc count) available m' × (m'.memory ≡ m.memory)
Counts-round count available m c =
    let (m', e, looped) = step-Looped 0xfe m c.valid c.at in
    let same : m'.ip ≡ m.ip =
      ground (arith, looped.landed, c.cx, c.last, c.inside, c.valid.words reg_cx) in
    (
      m',
      e,
      record {
        valid = subst IsValid e (step-IsValid m c.valid);
        at = rw (same, looped.same_memory) c.at;
        last = omega (arith, same, c.last);
        inside = c.inside;
        cx = ground (arith, looped.counted, c.cx, c.valid.words reg_cx);
      },
      looped.same_memory,
    )

-- The run from such a machine.
abbrev EndsAt : ℕ → ℕ → Machine → Type 0
EndsAt fuel available m =
    (m' : Machine) × (run fuel available m ≡ some (ok m'))
    × (m'.registers reg_cx ≡ 0)
    × (m'.ip ≡ available)
    × (m'.memory ≡ m.memory)

last_round : (available : ℕ) (m : Machine) → Counts 1 available m → EndsAt 2 available m
last_round available m c =
    let (m', e, looped) = step-Looped 0xfe m c.valid c.at in
    let there : m'.ip ≡ available = ground (arith, looped.landed, c.cx, c.last, c.inside) in
    (
      m',
      run-ok 1 available m m' (omega (arith, c.last)) e
          ∙ run-stop 0 available m' (ground (arith, there)),
      ground (arith, looped.counted, c.cx),
      there,
      looped.same_memory,
    )

counts :
    (count available : ℕ) (m : Machine)
    → Counts (suc count) available m
    → EndsAt (suc (suc count)) available m
counts zero available m c = last_round available m c
counts (suc count) available m c =
    let (m', e, next, kept) = Counts-round count available m c in
    let (m'', e', done, there, same) = counts count available m' next in
    (
      m'',
      run-ok (suc (suc count)) available m m' (omega (arith, c.last)) e ∙ e',
      done,
      there,
      same ∙ kept,
    )

-- The program that ends in `LOOP` to itself counts cx down to 0: from any valid machine at the LOOP
-- whose cx is not 0, the loop of main ends after cx rounds, with cx 0, ip at the end of the program
-- and memory as it was, if the program ends below 2^16.
pub run-counts_down :
    (count : ℕ) (m : Machine)
    → IsMachine m
    → AtJump loop 0xfe m
    → m.ip + 2 < 2 ^ 16
    → m.registers reg_cx ≡ suc count
    → (m' : Machine) × (run (suc (suc count)) (m.ip + 2) m ≡ some (ok m'))
      × (m'.registers reg_cx ≡ 0)
      × (m'.ip ≡ m.ip + 2)
      × (m'.memory ≡ m.memory)
run-counts_down count m valid at inside cx =
    counts count (m.ip + 2) m
      (record { valid = valid; at = at; last = refl; inside = inside; cx = cx })
