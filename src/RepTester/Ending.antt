-- ===== src/RepTester/Ending.antt =====
-- rep_tester/reptester.c: the round at which the loop of rep_tester ends, and what has been called by then.
use computer_enhance.Shared.{
  ℕ, zero, suc, ◌+◌, ◌*◌, ◌/◌, ◌%◌, ◌^◌, ◌<◌, ◌≡◌, ◌≢◌, refl, ap, ◌==◌, Bool, true, false,
  if◌then◌else◌, ltb, Option, none, some, ok, arith,
}
use computer_enhance.Profiler.Blocks.{elapsed}
use computer_enhance.Profiler.Frequency.{get_ms_from_cpu_ticks}
use computer_enhance.RepTester.{
  RepTesterConfig, Progress, callback, run_test, test_done, test_round, next_round, rep_loop,
  end_test, rep_tester,
}

-- The frequency that get_ms_from_cpu_ticks divides by.
abbrev pub known_freq : ℕ → ℕ → ℕ
known_freq guessed calculated_cpu_freq =
    if calculated_cpu_freq == 0 then guessed else calculated_cpu_freq

get_ms_from_cpu_ticks-known_freq :
    (guessed calculated freq ticks : ℕ)
    → known_freq guessed calculated ≡ freq
    → freq ≢ 0
    → get_ms_from_cpu_ticks guessed calculated ticks ≡ ok (ticks * 1000 % 2 ^ 64 / freq, freq)
unfolding get_ms_from_cpu_ticks
get_ms_from_cpu_ticks-known_freq guessed calculated freq ticks e known =
    let some_freq : (freq == 0) ≡ false = ground (arith, known) in rw (e, some_freq) refl

-- A callback of the test, which may be missing.
abbrev pub called : {Context : Type 0} → Option (Context → Context) → Context → Context
called none context = context
called (some f) context = f context

-- Whether the test is done: what the test says, or else whether its time is over.
abbrev pub answer :
    {Context : Type 0} → Option (Context → Bool × Context) → Bool → Context → Bool × Context
answer none is_over context = (is_over, context)
answer (some eval) is_over context = eval context

answer_lem :
    {Context : Type 0} (test_info : RepTesterConfig Context)
    (eval : Option (Context → Bool × Context)) (seconds : ℕ) (context : Context)
    → test_done test_info eval seconds context
      ≡ answer eval (ltb test_info.test_runtime_seconds seconds) context
unfolding test_done
answer_lem test_info none seconds context = refl
answer_lem test_info (some eval) seconds context = refl

called_lem :
    {Context : Type 0} (f : Option (Context → Context)) (context : Context)
    → callback f context ≡ called f context
called_lem none context = refl
called_lem (some f) context = refl

run_test_lem :
    {Context : Type 0} (test_info : RepTesterConfig Context) (context : Context)
    → run_test test_info context
      ≡ called test_info.test_teardown
          (called test_info.test_main (called test_info.test_setup context))
unfolding run_test
run_test_lem test_info context = simp called_lem

module _ {Context : Type 0} (test_info : RepTesterConfig Context) (freq test_start_ticks : ℕ)
    (ticks : ℕ → ℕ) where
  -- elapsed_seconds at the end of the k-th round
  abbrev pub seconds_at : ℕ → ℕ
  seconds_at k = elapsed (ticks k) test_start_ticks * 1000 % 2 ^ 64 / freq / 1000 % 2 ^ 32

  -- The k-th round's answer and context.
  unfoldable pub ended_at : ℕ → Context → Bool × Context
  ended_at k context =
      let after =
        called test_info.test_teardown
          (called test_info.test_main (called test_info.test_setup context)) in
      answer test_info.end_of_test_eval (ltb test_info.test_runtime_seconds (seconds_at k)) after

  -- The context before the k-th round.
  unfoldable pub context_at : ℕ → Context → Context
  context_at zero context = context
  context_at (suc k) context = (ended_at k (context_at k context)).1

  test_round-ended_at :
      (guessed k : ℕ) (s : Progress Context)
      → known_freq guessed s.calculated_cpu_freq ≡ freq
      → freq ≢ 0
      → test_round test_info guessed test_start_ticks (ticks k) s
        ≡ ok (
          (ended_at k s.context).0,
          record {
            context = (ended_at k s.context).1;
            rep_counter = s.rep_counter;
            calculated_cpu_freq = freq;
          },
        )
  unfolding test_round ended_at
  test_round-ended_at guessed k s e known =
      rw
        (
          get_ms_from_cpu_ticks-known_freq guessed s.calculated_cpu_freq freq
              (elapsed (ticks k) test_start_ticks) e known,
          answer_lem test_info test_info.end_of_test_eval (seconds_at k)
              (run_test test_info s.context),
          run_test_lem test_info s.context,
        )
        refl

  rep_loop-ends :
      (guessed left fuel k : ℕ) (context : Context) (calculated : ℕ)
      → known_freq guessed calculated ≡ freq
      → freq ≢ 0
      → left < fuel
      → k + left + 1 < 2 ^ 32
      → ((i : ℕ) → i < k + left → (ended_at i (context_at i context)).0 ≡ false)
      → (ended_at (k + left) (context_at (k + left) context)).0 ≡ true
      → rep_loop fuel test_info guessed test_start_ticks ticks k (record {
        context = context_at k context;
        rep_counter = k + 1;
        calculated_cpu_freq = calculated;
      })
        ≡ some (
            ok (record {
              context = context_at (suc (k + left)) context;
              rep_counter = k + left + 1;
              calculated_cpu_freq = freq;
            }))
  unfolding rep_loop next_round context_at
  rep_loop-ends guessed left zero k context calculated e known enough fits on last =
      absurd (omega arith)
  rep_loop-ends guessed zero (suc fuel) k context calculated e known enough fits on last =
      let same : k + 0 ≡ k = omega arith in
      let stop : (ended_at k (context_at k context)).0 ≡ true = rw (← same) last in
      rw
        (
          same,
          test_round-ended_at guessed k
              (record {
                context = context_at k context;
                rep_counter = k + 1;
                calculated_cpu_freq = calculated;
              })
              e known,
          stop,
        )
        refl
  rep_loop-ends guessed (suc left) (suc fuel) k context calculated e known enough fits on last =
      let go : (ended_at k (context_at k context)).0 ≡ false = on k (omega arith) in
      let moved : k + 1 + left ≡ k + suc left = omega arith in
      let counter : (k + 1 + 1) % 2 ^ 32 ≡ k + 1 + 1 = omega (arith, fits) in
      let after : (ended_at k (context_at k context)).1 ≡ context_at (k + 1) context =
        let next : k + 1 ≡ suc k = omega arith in rw next refl in
      let some_freq : known_freq guessed freq ≡ freq = ground (arith, known) in
      let rest =
        rep_loop-ends guessed left fuel (k + 1) context freq some_freq known (omega (arith, enough))
          (omega (arith, fits)) (rw moved on) (rw moved last) in
      rw
        (
          test_round-ended_at guessed k
              (record {
                context = context_at k context;
                rep_counter = k + 1;
                calculated_cpu_freq = calculated;
              })
              e known,
          go,
          counter,
          after,
          ← moved,
        )
        rest

  -- The loop ends with the first round whose answer is that the test is done. By then every round has run
  -- the test once, and rep_counter is the number of rounds; env_setup was called before the first round,
  -- env_teardown and print_stats are called after the last. There must be a frequency to divide by, and the
  -- counter does not wrap.
  pub rep_tester-ends :
      (guessed calculated n fuel : ℕ) (context : Context)
      → known_freq guessed calculated ≡ freq
      → freq ≢ 0
      → n < fuel
      → n + 1 < 2 ^ 32
      → ((i : ℕ)
          → i < n
          → (ended_at i (context_at i (called test_info.env_setup context))).0 ≡ false)
      → (ended_at n (context_at n (called test_info.env_setup context))).0 ≡ true
      → rep_tester fuel test_info guessed calculated test_start_ticks ticks context
        ≡ some (
            ok (record {
              context = called test_info.print_stats (
                  called test_info.env_teardown
                    (context_at (suc n) (called test_info.env_setup context)));
              rep_counter = n + 1;
              calculated_cpu_freq = freq;
            }))
  unfolding rep_tester end_test context_at
  rep_tester-ends guessed calculated n fuel context e known enough fits on last =
      let same : 0 + n ≡ n = omega arith in
      let ended =
        rep_loop-ends guessed n fuel 0 (called test_info.env_setup context) calculated e known
          enough (omega (arith, fits)) (rw same on) (rw same last) in
      ap (end_test test_info) (rw same at ended)
