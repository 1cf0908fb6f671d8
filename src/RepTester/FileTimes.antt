-- ===== src/RepTester/FileTimes.antt =====
-- rep_tester/rep_test1.c under rep_tester: the times that are kept over the rounds.
use computer_enhance.Shared.{
  ℕ, zero, suc, ◌+◌, ◌^◌, ◌≤◌, ◌<◌, ◌≡◌, ◌≢◌, refl, ◌∙◌, ◌⊎◌, inl, inr, true, false, ◌||◌, ltb,
  ◌==◌, Bool-cases, some, Outcome, ok, arith,
}
use computer_enhance.RepTester.{callback, run_test, test_done}
use computer_enhance.RepTester.FileTest.{
  System, TestContext, my_context, set_up, env_setup, env_teardown, test_setup, items_read,
  note_min, note_max, elapsed_ticks, test_main, test_config, rep_test1,
}
use computer_enhance.RepTester.Ranges.{IsRange, lower, higher, next-IsRange}
use computer_enhance.RepTester.Ending.{
  known_freq, seconds_at, ended_at, context_at, rep_tester-ends,
}

-- The file can be read into a buffer of its size.
pub record IsReadable (system : System) (size : ℕ) : Type 0 where
  pub has_size : system.stat ≡ some size
  pub not_empty : 1 ≤ size
  pub allocates : system.malloc size ≡ true
  pub opens : system.fopen ≡ true
  pub seeks : system.fseek ≡ true

-- What rep_test1 leaves behind when it ends after a number of rounds.
pub record IsReport (system : System) (rounds : ℕ) (ctx : TestContext) : Type 0 where
  pub measured : ctx.measurements ≡ rounds
  pub times : IsRange (elapsed_ticks system) rounds ctx.min_cpu_ticks ctx.max_cpu_ticks
  pub freed : ctx.has_buffer ≡ false
  pub closed : ctx.is_open ≡ false

module _ (system : System) (size : ℕ) (readable : IsReadable system size)
    (positive : (j : ℕ) → 1 ≤ elapsed_ticks system j) where
  -- The context after k measurements.
  record IsMeasured (k : ℕ) (ctx : TestContext) : Type 0 where
    same_size : ctx.filesize ≡ size
    counted : ctx.measurements ≡ k
    times :
        ((k ≡ 0) × (ctx.min_cpu_ticks ≡ 0) × (ctx.max_cpu_ticks ≡ 0))
        ⊎ IsRange (elapsed_ticks system) k ctx.min_cpu_ticks ctx.max_cpu_ticks

  -- The context behind test_main, field by field.
  record IsNoted (ctx noted : TestContext) (low high : ℕ) : Type 0 where
    low_noted : noted.min_cpu_ticks ≡ low
    high_noted : noted.max_cpu_ticks ≡ high
    same_size : noted.filesize ≡ ctx.filesize
    same_count : noted.measurements ≡ ctx.measurements

  note_min-IsNoted :
      (x : ℕ) (ctx : TestContext)
      → IsNoted ctx (note_min x ctx) (lower ctx.min_cpu_ticks x) ctx.max_cpu_ticks
  unfolding note_min
  note_min-IsNoted x ctx = elim (Bool-cases (ctx.min_cpu_ticks == 0 || ltb x ctx.min_cpu_ticks)) [
    | inl new ↦
        rw new (record { low_noted = refl; high_noted = refl; same_size = refl; same_count = refl })
    | inr old ↦
        rw old (record { low_noted = refl; high_noted = refl; same_size = refl; same_count = refl })
  ]

  note_max-IsNoted :
      (x : ℕ) (ctx : TestContext)
      → IsNoted ctx (note_max x ctx) ctx.min_cpu_ticks (higher ctx.max_cpu_ticks x)
  unfolding note_max
  note_max-IsNoted x ctx = elim (Bool-cases (ltb ctx.max_cpu_ticks x)) [
    | inl new ↦
        rw new (record { low_noted = refl; high_noted = refl; same_size = refl; same_count = refl })
    | inr old ↦
        rw old (record { low_noted = refl; high_noted = refl; same_size = refl; same_count = refl })
  ]

  -- The k-th round reads the file and takes its time into account.
  run_test-IsMeasured :
      (runtime k : ℕ) (ctx : TestContext)
      → IsMeasured k ctx
      → (ctx' : TestContext) × (run_test (test_config system runtime) (ok ctx) ≡ ok ctx')
        × IsMeasured (suc k) ctx'
  unfolding run_test test_config test_setup test_main items_read
  run_test-IsMeasured runtime k ctx so_far =
      let x = elapsed_ticks system ctx.measurements in
      let read : TestContext = record ctx {
        position = ctx.filesize;
        measurements = ctx.measurements + 1;
      } in
      let first = note_min-IsNoted x read in
      let then_ = note_max-IsNoted x (note_min x read) in
      let not_empty : (ctx.filesize == 0) ≡ false =
        ground (arith, so_far.same_size, readable.not_empty) in
      (
        note_max x (note_min x read),
        rw (readable.seeks, not_empty) refl,
        record {
          same_size = then_.same_size ∙ first.same_size ∙ so_far.same_size;
          counted = omega (arith, then_.same_count, first.same_count, so_far.counted);
          times = inr (
              rw
                (
                  then_.low_noted, then_.high_noted, first.low_noted, first.high_noted,
                  so_far.counted,
                )
                (next-IsRange (elapsed_ticks system) positive k ctx.min_cpu_ticks ctx.max_cpu_ticks
                  so_far.times));
        },
      )

  module _ (runtime guessed test_start_ticks : ℕ) (ticks : ℕ → ℕ) where
    context_at-IsMeasured :
        (k : ℕ) (ctx : TestContext)
        → IsMeasured 0 ctx
        → (ctx' : TestContext) × (context_at
              (test_config system runtime)
              guessed
              test_start_ticks
              ticks
              k
              (ok ctx)
            ≡ ok ctx')
          × IsMeasured k ctx'
    unfolding context_at ended_at test_done test_config test_setup run_test
    context_at-IsMeasured zero ctx first = (ctx, refl, first)
    context_at-IsMeasured (suc k) ctx first =
        let (before, e, so_far) = context_at-IsMeasured k ctx first in
        let (after, e', measured) = run_test-IsMeasured runtime k before so_far in
        (after, rw e e', measured)

    ended_at-time :
        (k : ℕ) (context : Outcome TestContext)
        → (ended_at (test_config system runtime) guessed test_start_ticks ticks k context).0
          ≡ ltb runtime (seconds_at (test_config system runtime) guessed test_start_ticks ticks k)
    unfolding ended_at test_done test_config
    ended_at-time k context = refl

    -- my_context behind env_setup
    abbrev opened : TestContext
    opened = record my_context { filesize = size; has_buffer = true; is_open = true; position = 0 }

    env_setup-opened : callback (test_config system runtime).env_setup (ok my_context) ≡ ok opened
    unfolding test_config env_setup set_up
    env_setup-opened = rw (readable.has_size, readable.allocates, readable.opens) refl

    opened-IsMeasured : IsMeasured 0 opened
    opened-IsMeasured = record { same_size = refl; counted = refl; times = inl (refl, refl, refl) }

    torn_down :
        (ctx : TestContext)
        → (ctx' : TestContext) × (callback
              (test_config system runtime).print_stats
              (callback (test_config system runtime).env_teardown (ok ctx))
            ≡ ok ctx')
          × (ctx'.min_cpu_ticks ≡ ctx.min_cpu_ticks)
          × (ctx'.max_cpu_ticks ≡ ctx.max_cpu_ticks)
          × (ctx'.measurements ≡ ctx.measurements)
          × (ctx'.has_buffer ≡ false)
          × (ctx'.is_open ≡ false)
    unfolding test_config env_teardown
    torn_down ctx = (_, refl, refl, refl, refl, refl, refl)

    -- On a file that can be read and is not empty, rep_test1.c ends with the first round after which
    -- more than its runtime in seconds has passed. It has measured once in each round, min_cpu_ticks
    -- and max_cpu_ticks are the shortest and the longest of these times, and the file is closed and the
    -- buffer freed. No time may be 0, which stands for no time yet, the guessed frequency is not 0, and
    -- the round counter does not wrap.
    pub rep_test1-IsReport :
        (n fuel : ℕ)
        → guessed ≢ 0
        → n < fuel
        → n + 1 < 2 ^ 32
        → ((i : ℕ)
            → i < n
            → seconds_at (test_config system runtime) guessed test_start_ticks ticks i ≤ runtime)
        → runtime < seconds_at (test_config system runtime) guessed test_start_ticks ticks n
        → (ctx : TestContext) × (rep_test1 system fuel runtime guessed test_start_ticks ticks
            ≡ some (
                ok (record {
                  context = ok ctx;
                  rep_counter = n + 1;
                  calculated_cpu_freq = guessed;
                })))
          × IsReport system (n + 1) ctx
    unfolding rep_test1
    rep_test1-IsReport n fuel known enough fits before after =
        let config = test_config system runtime in
        let (ctx, e, measured) = context_at-IsMeasured (suc n) opened opened-IsMeasured in
        let (ctx', ended, low, high, count, freed, closed) = torn_down ctx in
        let next : n + 1 ≡ suc n = omega arith in
        let no_freq : known_freq guessed 0 ≡ guessed = refl in
        (
          ctx',
          rw
              (
                rep_tester-ends config guessed test_start_ticks ticks guessed 0 n fuel
                    (ok my_context) no_freq known enough fits
                    (λ i h. rw (ended_at-time i _) (ground (arith, before i h)))
                    (rw (ended_at-time n _) (ground (arith, after))),
                env_setup-opened,
                e,
                ended,
              )
              refl,
          record {
            measured = rw next (count ∙ measured.counted);
            times =
                rw (next, low, high)
                  (elim measured.times [
                    | inl (none_yet, _, _) ↦ absurd (omega (arith, none_yet))
                    | inr range ↦ range
                  ]);
            freed = freed;
            closed = closed;
          },
        )
