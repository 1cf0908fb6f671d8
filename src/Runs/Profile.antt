-- ===== src/Runs/Profile.antt =====
-- The profiler and the repetition tester on small runs.
use computer_enhance.Shared.{
  ℕ, zero, suc, ◌+◌, ◌*◌, ◌%◌, ◌^◌, ◌≤◌, ◌<◌, ◌≡◌, refl, ◌==◌, true, false, if◌then◌else◌, [], ◌∷◌,
  none, some, ok, arith,
}
use computer_enhance.Profiler.Blocks.{empty_profile, block_start, block_end, leave_block}
use computer_enhance.Profiler.Nesting.{Calls, done, call, run_calls, spent, times, IsReady}
use computer_enhance.Profiler.Totals.{run_calls-totals}
use computer_enhance.Profiler.Frequency.{get_ms_from_cpu_ticks, guess_cpu_freq}
use computer_enhance.RepTester.{
  RepTesterConfig, callback, run_test, test_done, test_round, next_round, rep_loop, end_test,
  next_test, rep_tester_run, rep_tester,
}
use computer_enhance.RepTester.FileTest.{System, TestContext, elapsed_ticks, rep_test1}
use computer_enhance.RepTester.FileTimes.{IsReadable, IsReport, rep_test1-IsReport}
use computer_enhance.RepTester.Ending.{ended_at, context_at, rep_tester-ends}

-- Block 0 from 10 to 100: in it block 1 twice, for 10 and for 20 ticks, the second time with a call of itself.
abbrev two_children : Calls
two_children =
    call 0 [] 0 10 (call 1 [] 0 20 done 30 (call 1 [] 0 40 (call 1 [] 0 45 done 50 done) 60 done))
      100 done

run_calls-totals_example :
    let p = run_calls two_children empty_profile in
    (p.profile_index ≡ none)
    × ((i : ℕ) → (p.profile_data i).total_ticks % 2 ^ 64 ≡ spent i none two_children % 2 ^ 64)
    × ((i : ℕ) → (p.profile_data i).count % 2 ^ 64 ≡ times i none two_children % 2 ^ 64)
run_calls-totals_example =
    run_calls-totals two_children (refl, (refl, tt, (refl, (refl, tt, tt), tt)), tt)

empty_profile-IsReady : IsReady [] empty_profile
unfolding empty_profile
empty_profile-IsReady = record { index = refl; recursive = λ i h. refl }

two_children-spent : spent 1 none two_children ≡ 30
unfolding spent
two_children-spent = refl

-- The parent's children_ticks counts the first child twice: 10 and then 10 + 20.
children_twice : ((run_calls two_children empty_profile).profile_data 0).children_ticks ≡ 40
unfolding run_calls block_start block_end leave_block empty_profile
children_twice = refl

-- A timer that a reading advances by 400 microseconds, and a clock of 3 GHz: three readings for a
-- millisecond, and the frequency is kept.
guessed_3_ghz : guess_cpu_freq 4 (λ k. 400 * k) 0 500 3600500 1 ≡ some (3000000000, 3000000000)
unfolding guess_cpu_freq computer_enhance.Profiler.Blocks.elapsed
guessed_3_ghz = refl

-- A test that counts its runs, and is done after three.
abbrev counting : RepTesterConfig ℕ
counting = record {
  env_setup = some (λ n. 0);
  test_setup = none;
  test_main = some (λ n. n + 1);
  test_teardown = none;
  end_of_test_eval = some (λ n. (n == 3, n));
  env_teardown = none;
  print_stats = none;
  test_runtime_seconds = 0;
}

counting_on :
    (i : ℕ)
    → i < 2
    → (ended_at counting 1000 0 (λ k. k) i (context_at counting 1000 0 (λ k. k) i 0)).0 ≡ false
unfolding ended_at context_at test_done run_test
counting_on zero h = refl
counting_on (suc zero) h = refl
counting_on (suc (suc i)) h = absurd (omega arith)

rep_tester-ends_example :
    rep_tester 5 counting 1000 0 0 (λ k. k) 7
    ≡ some (
        ok (record {
          context = callback counting.print_stats (
              callback counting.env_teardown
                (context_at counting 1000 0 (λ k. k) 3 (callback counting.env_setup 7)));
          rep_counter = 2 + 1;
          calculated_cpu_freq = 1000;
        }))
unfolding ended_at context_at test_done run_test
rep_tester-ends_example =
    rep_tester-ends counting 1000 0 (λ k. k) 1000 0 2 5 7 refl (λ e. absurd (omega arith))
      (omega arith) (omega arith) counting_on refl

-- Two tests in a row: the second takes over the frequency.
two_tests :
    rep_tester_run 5 ((counting, 7, 0, λ k. k) ∷ (counting, 8, 0, λ k. k) ∷ []) 1000 0
    ≡ some (
        ok (
          record { context = 3; rep_counter = 3; calculated_cpu_freq = 1000 }
          ∷ record { context = 3; rep_counter = 3; calculated_cpu_freq = 1000 }
          ∷ []))
unfolding rep_tester_run next_test rep_tester rep_loop test_round next_round end_test test_done
    run_test get_ms_from_cpu_ticks
two_tests = refl

-- A file of 100 bytes whose second reading is the fastest, and a clock that shows k seconds in round k.
abbrev steady_system : System
steady_system = record {
  stat = some 100;
  malloc = λ size. true;
  fopen = true;
  fseek = true;
  starts = λ k. 1000 * k;
  stops = λ k. 1000 * k + (if k == 1 then 5 else 9);
}

steady_system-IsReadable : IsReadable steady_system 100
steady_system-IsReadable = record {
  has_size = refl;
  not_empty = omega arith;
  allocates = refl;
  opens = refl;
  seeks = refl;
}

steady_positive : (j : ℕ) → 1 ≤ elapsed_ticks steady_system j
unfolding elapsed_ticks
steady_positive j = ground arith

rep_test1-IsReport_example :
    (ctx : TestContext) × (rep_test1 steady_system 5 2 1000 0 (λ k. 1000 * k)
      ≡ some (ok (record { context = ok ctx; rep_counter = 3 + 1; calculated_cpu_freq = 1000 })))
    × IsReport steady_system (3 + 1) ctx
rep_test1-IsReport_example =
    rep_test1-IsReport steady_system 100 steady_system-IsReadable steady_positive 2 1000 0
      (λ k. 1000 * k) 3 5 (λ e. absurd (omega (arith, e))) (omega arith) (omega arith)
      (λ i h. ground arith) (ground arith)
