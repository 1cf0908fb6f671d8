-- ===== src/RepTester.antt =====
-- rep_tester/reptester.c: rep_tester and rep_tester_run. The test's callbacks are functions on its
-- context, and the readings of the CPU's clock are parameters.
pub mod Ending
pub mod FileTest
pub mod Ranges
pub mod FileTimes
use computer_enhance.Shared.{
  ℕ, zero, suc, ◌+◌, ◌/◌, ◌%◌, ◌^◌, Bool, true, false, ltb, List, [], ◌∷◌, Option, none, some,
  Outcome, ok, exit_error, out_of_bounds, ◌>>=◌,
}
use computer_enhance.Profiler.Blocks.{elapsed}
use computer_enhance.Profiler.Frequency.{get_ms_from_cpu_ticks}

-- struct rep_tester_config: a callback may be NULL.
pub record RepTesterConfig (Context : Type 0) : Type 0 where
  pub env_setup : Option (Context → Context)
  pub test_setup : Option (Context → Context)
  pub test_main : Option (Context → Context)
  pub test_teardown : Option (Context → Context)
  pub end_of_test_eval : Option (Context → Bool × Context)
  pub env_teardown : Option (Context → Context)
  pub print_stats : Option (Context → Context)
  pub test_runtime_seconds : ℕ

-- The context, rep_counter and calculated_cpu_freq.
pub record Progress (Context : Type 0) : Type 0 where
  pub context : Context
  pub rep_counter : ℕ
  pub calculated_cpu_freq : ℕ

module _ {Context : Type 0} where
  abbrev pub callback : Option (Context → Context) → Context → Context
  callback none context = context
  callback (some f) context = f context

  -- The calls of a round up to the reading of the clock.
  unfoldable pub run_test : RepTesterConfig Context → Context → Context
  run_test test_info context =
      callback test_info.test_teardown
        (callback test_info.test_main (callback test_info.test_setup context))

  -- Whether the test is done: by end_of_test_eval if there is one, else by the time.
  unfoldable pub test_done :
      RepTesterConfig Context → Option (Context → Bool × Context) → ℕ → Context → Bool × Context
  test_done test_info none elapsed_seconds context =
      (ltb test_info.test_runtime_seconds elapsed_seconds, context)
  test_done test_info (some eval) elapsed_seconds context = eval context

  unfoldable pub test_round :
      RepTesterConfig Context → ℕ → ℕ → ℕ → Progress Context → Outcome (Bool × Progress Context)
  unfolding run_test test_done
  test_round test_info guessed test_start_ticks ticks s = do
    (ms, freq) ←
        get_ms_from_cpu_ticks guessed s.calculated_cpu_freq (elapsed ticks test_start_ticks)
    let (is_done, context) =
        test_done test_info test_info.end_of_test_eval (ms / 1000 % 2 ^ 32)
          (run_test test_info s.context)
    ok (
      is_done,
      record { context = context; rep_counter = s.rep_counter; calculated_cpu_freq = freq },
    )

  -- What follows a round: the end of the loop, or the next round.
  unfoldable pub next_round :
      (Progress Context → Option (Outcome (Progress Context)))
      → Outcome (Bool × Progress Context)
      → Option (Outcome (Progress Context))
  next_round rest (ok (true, s)) = some (ok s)
  next_round rest (ok (false, s)) = rest (record s { rep_counter = (s.rep_counter + 1) % 2 ^ 32 })
  next_round rest exit_error = some exit_error
  next_round rest out_of_bounds = some out_of_bounds

  -- `for (;;)`, with fuel. The k-th reading of the clock in the loop is `ticks k`.
  unfoldable pub rep_loop :
      ℕ
      → RepTesterConfig Context
      → ℕ
      → ℕ
      → (ℕ → ℕ)
      → ℕ
      → Progress Context
      → Option (Outcome (Progress Context))
  unfolding next_round
  rep_loop zero test_info guessed test_start_ticks ticks k s = none
  rep_loop (suc fuel) test_info guessed test_start_ticks ticks k s =
      next_round (λ s'. rep_loop fuel test_info guessed test_start_ticks ticks (k + 1) s')
        (test_round test_info guessed test_start_ticks (ticks k) s)

  unfoldable pub end_test :
      RepTesterConfig Context
      → Option (Outcome (Progress Context))
      → Option (Outcome (Progress Context))
  end_test test_info (some (ok s)) = some (
      ok (record s {
        context = callback test_info.print_stats (callback test_info.env_teardown s.context);
      }))
  end_test test_info other = other

  -- rep_tester: the context at the end, the number of the last round, and calculated_cpu_freq.
  unfoldable pub rep_tester :
      ℕ
      → RepTesterConfig Context
      → ℕ
      → ℕ
      → ℕ
      → (ℕ → ℕ)
      → Context
      → Option (Outcome (Progress Context))
  unfolding rep_loop end_test
  rep_tester fuel test_info guessed calculated_cpu_freq test_start_ticks ticks context =
      end_test test_info (
        rep_loop fuel test_info guessed test_start_ticks ticks 0 (record {
          context = callback test_info.env_setup context;
          rep_counter = 1;
          calculated_cpu_freq = calculated_cpu_freq;
        }))

  -- What follows a test of an array of tests.
  unfoldable pub next_test :
      (Progress Context → Option (Outcome (List (Progress Context))))
      → Option (Outcome (Progress Context))
      → Option (Outcome (List (Progress Context)))
  next_test rest none = none
  next_test rest (some exit_error) = some exit_error
  next_test rest (some out_of_bounds) = some out_of_bounds
  next_test rest (some (ok s)) = elim (rest s) [
    | none ↦ none
    | some exit_error ↦ some exit_error
    | some out_of_bounds ↦ some out_of_bounds
    | some (ok more) ↦ some (ok (s ∷ more))
  ]

  -- rep_tester_run: the tests one after the other, each with its context and the readings of the clock.
  unfoldable pub rep_tester_run :
      ℕ
      → List (RepTesterConfig Context × Context × ℕ × (ℕ → ℕ))
      → ℕ
      → ℕ
      → Option (Outcome (List (Progress Context)))
  unfolding next_test
  rep_tester_run fuel [] guessed calculated_cpu_freq = some (ok [])
  rep_tester_run fuel ((test_info, context, test_start_ticks, ticks) ∷ tests) guessed
        calculated_cpu_freq =
      next_test (λ s. rep_tester_run fuel tests guessed s.calculated_cpu_freq)
        (rep_tester fuel test_info guessed calculated_cpu_freq test_start_ticks ticks context)
