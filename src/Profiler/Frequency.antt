-- ===== src/Profiler/Frequency.antt =====
-- rdtsc/rdtsc_utils.c: guess_cpu_freq and get_ms_from_cpu_ticks. The readings of the two clocks are
-- parameters.
use computer_enhance.Shared.{
  ℕ, zero, suc, ◌+◌, ◌*◌, ◌/◌, ◌%◌, ◌^◌, ◌<◌, ◌≤◌, ◌≡◌, refl, ◌∙◌, ◌==◌, true, ltb, if◌then◌else◌,
  Option, none, some, Outcome, ok, exit_error, arith, Bool-cases, inl, inr,
}
use computer_enhance.Profiler.Blocks.{elapsed}

-- GetOSTimerFreq: microseconds
abbrev pub os_timer_freq : ℕ
os_timer_freq = 1000000

-- `while(OSElapsed < WaitTimerTicks)`, with fuel: the k-th reading of the timer is `os k`.
unfoldable pub wait_os : ℕ → (ℕ → ℕ) → ℕ → ℕ → ℕ → ℕ → Option ℕ
wait_os zero os wait_timer_ticks os_start os_elapsed k =
    if ltb os_elapsed wait_timer_ticks then none else some os_elapsed
wait_os (suc fuel) os wait_timer_ticks os_start os_elapsed k =
    let rest = wait_os fuel os wait_timer_ticks os_start (elapsed (os k) os_start) (k + 1) in
    if ltb os_elapsed wait_timer_ticks then rest else some os_elapsed

-- CPUFreq, from the two elapsed times.
unfoldable pub cpu_freq : ℕ → ℕ → ℕ
cpu_freq cpu_elapsed os_elapsed =
    if os_elapsed == 0 then 0 else os_timer_freq * cpu_elapsed % 2 ^ 64 / os_elapsed

-- Behind the wait, with the two readings of the CPU's clock: CPUFreq, and calculated_cpu_freq, which
-- takes it over if it was 0.
unfoldable pub freq_after : ℕ → ℕ → ℕ → Option ℕ → Option (ℕ × ℕ)
unfolding cpu_freq
freq_after calculated_cpu_freq cpu_start cpu_end none = none
freq_after calculated_cpu_freq cpu_start cpu_end (some os_elapsed) =
    let freq = cpu_freq (elapsed cpu_end cpu_start) os_elapsed in
    some (freq, if calculated_cpu_freq == 0 then freq else calculated_cpu_freq)

unfoldable pub guess_cpu_freq : ℕ → (ℕ → ℕ) → ℕ → ℕ → ℕ → ℕ → Option (ℕ × ℕ)
unfolding wait_os freq_after
guess_cpu_freq fuel os calculated_cpu_freq cpu_start cpu_end wait_ms =
    freq_after calculated_cpu_freq cpu_start cpu_end
      (wait_os fuel os (wait_ms * (os_timer_freq / 1000)) (os 0) 0 1)

-- get_ms_from_cpu_ticks: the milliseconds and calculated_cpu_freq. A frequency that is not calculated
-- yet becomes what guess_cpu_freq finds.
unfoldable pub get_ms_from_cpu_ticks : ℕ → ℕ → ℕ → Outcome (ℕ × ℕ)
get_ms_from_cpu_ticks guessed calculated_cpu_freq elapsed_cpu_ticks =
    let freq = if calculated_cpu_freq == 0 then guessed else calculated_cpu_freq in
    if freq == 0 then exit_error else ok (elapsed_cpu_ticks * 1000 % 2 ^ 64 / freq, freq)

module _ (os : ℕ → ℕ) (wait_timer_ticks os_start : ℕ) where
  wait_os_over :
      (fuel os_elapsed k : ℕ)
      → wait_timer_ticks ≤ os_elapsed
      → wait_os fuel os wait_timer_ticks os_start os_elapsed k ≡ some os_elapsed
  unfolding wait_os
  wait_os_over zero os_elapsed k h = ground arith
  wait_os_over (suc fuel) os_elapsed k h = ground arith

  wait_os_short :
      (fuel os_elapsed k : ℕ)
      → os_elapsed < wait_timer_ticks
      → wait_os (suc fuel) os wait_timer_ticks os_start os_elapsed k
        ≡ wait_os fuel os wait_timer_ticks os_start (elapsed (os k) os_start) (k + 1)
  unfolding wait_os
  wait_os_short fuel os_elapsed k h =
      let short : ltb os_elapsed wait_timer_ticks ≡ true = ground arith in rw short refl

  -- The wait ends when the timer has advanced far enough, in as many readings as that takes, and what it
  -- waited is one of these readings less the first.
  wait_os-ends :
      (left fuel k : ℕ)
      → left ≤ fuel
      → wait_timer_ticks ≤ elapsed (os (k + left)) os_start
      → (j : ℕ) × (j ≤ k + left)
        × (wait_os fuel os wait_timer_ticks os_start (elapsed (os k) os_start) (k + 1)
            ≡ some (elapsed (os j) os_start))
        × (wait_timer_ticks ≤ elapsed (os j) os_start)
  wait_os-ends zero fuel k h reached =
      let same : k + 0 ≡ k = omega arith in
      let enough : wait_timer_ticks ≤ elapsed (os k) os_start = rw (← same) reached in
      (k, omega arith, wait_os_over fuel _ (k + 1) enough, enough)
  wait_os-ends (suc left) zero k h reached = absurd (omega arith)
  wait_os-ends (suc left) (suc fuel) k h reached =
      elim (Bool-cases (ltb (elapsed (os k) os_start) wait_timer_ticks)) [
        | inr over ↦
            let enough : wait_timer_ticks ≤ elapsed (os k) os_start = ground (arith, over) in
            (k, omega arith, wait_os_over (suc fuel) _ (k + 1) enough, enough)
        | inl short ↦
            let same : k + 1 + left ≡ k + suc left = omega arith in
            let (j, before, e, enough) =
              wait_os-ends left fuel (k + 1) (omega (arith, h)) (rw same reached) in
            (
              j,
              omega (arith, before),
              wait_os_short fuel _ (k + 1) (ground (arith, short)) ∙ e,
              enough,
            )
      ]
