-- ===== src/RepTester/FileTest.antt =====
-- rep_tester/rep_test1.c: a test that reads a file into a buffer, with its shortest and longest time.
-- What the operating system answers and what the clock shows are parameters.
use computer_enhance.Shared.{
  ℕ, ◌+◌, Bool, true, false, ◌||◌, ltb, ◌==◌, if◌then◌else◌, Option, none, some, Outcome, ok,
  exit_error, ◌>>=◌,
}
use computer_enhance.Profiler.Blocks.{elapsed}
use computer_enhance.RepTester.{RepTesterConfig, Progress, rep_tester}

-- The answers of stat (the size of the file), malloc, fopen and fseek, and the two readings of the
-- clock in the k-th run of test_main.
pub record System : Type 0 where
  pub stat : Option ℕ
  pub malloc : ℕ → Bool
  pub fopen : Bool
  pub fseek : Bool
  pub starts : ℕ → ℕ
  pub stops : ℕ → ℕ

-- struct test_context, with the position in the file and the number of measurements so far.
pub record TestContext : Type 0 where
  pub filesize : ℕ
  pub has_buffer : Bool
  pub is_open : Bool
  pub position : ℕ
  pub min_cpu_ticks : ℕ
  pub max_cpu_ticks : ℕ
  pub measurements : ℕ

-- my_context
abbrev pub my_context : TestContext
my_context = record {
  filesize = 0;
  has_buffer = false;
  is_open = false;
  position = 0;
  min_cpu_ticks = 0;
  max_cpu_ticks = 0;
  measurements = 0;
}

unfoldable pub env_teardown : TestContext → Outcome TestContext
env_teardown ctx = ok (record ctx { has_buffer = false; is_open = false })

-- fread of one item of filesize bytes from a file of as many: nothing is read when the item is empty
-- or when fewer bytes are left.
unfoldable pub items_read : TestContext → ℕ
items_read ctx = if ctx.filesize == 0 then 0 else if ctx.position == 0 then 1 else 0

unfoldable pub note_min : ℕ → TestContext → TestContext
note_min elapsed_ticks ctx =
    if ctx.min_cpu_ticks == 0 || ltb elapsed_ticks ctx.min_cpu_ticks
    then record ctx { min_cpu_ticks = elapsed_ticks }
    else ctx

unfoldable pub note_max : ℕ → TestContext → TestContext
note_max elapsed_ticks ctx =
    if ltb ctx.max_cpu_ticks elapsed_ticks
    then record ctx { max_cpu_ticks = elapsed_ticks }
    else ctx

module _ (system : System) where
  unfoldable pub set_up : TestContext → Option ℕ → Outcome TestContext
  set_up ctx none = exit_error
  set_up ctx (some size) =
      if system.malloc size
      then (if system.fopen
          then ok (record ctx { filesize = size; has_buffer = true; is_open = true; position = 0 })
          else exit_error)
      else exit_error

  unfoldable pub env_setup : TestContext → Outcome TestContext
  unfolding set_up
  env_setup ctx = set_up ctx system.stat

  unfoldable pub test_setup : TestContext → Outcome TestContext
  test_setup ctx = if system.fseek then ok (record ctx { position = 0 }) else exit_error

  -- elapsed_ticks of the k-th run
  unfoldable pub elapsed_ticks : ℕ → ℕ
  elapsed_ticks k = elapsed (system.stops k) (system.starts k)

  unfoldable pub test_main : TestContext → Outcome TestContext
  unfolding items_read note_min note_max
  test_main ctx =
      if items_read ctx == 1
      then ok (
          note_max (elapsed_ticks ctx.measurements) (
            note_min (elapsed_ticks ctx.measurements)
              (record ctx { position = ctx.filesize; measurements = ctx.measurements + 1 })))
      else exit_error

  -- foo: a callback that has ended the program leaves nothing for the others to do.
  unfoldable pub test_config : ℕ → RepTesterConfig (Outcome TestContext)
  test_config runtime = record {
    env_setup = some (λ o. o >>= env_setup);
    test_setup = some (λ o. o >>= test_setup);
    test_main = some (λ o. o >>= test_main);
    test_teardown = some (λ o. o);
    end_of_test_eval = none;
    env_teardown = some (λ o. o >>= env_teardown);
    print_stats = some (λ o. o);
    test_runtime_seconds = runtime;
  }

  -- main behind its options: the k-th reading of the clock in rep_tester's loop is `ticks k`.
  unfoldable pub rep_test1 :
      ℕ → ℕ → ℕ → ℕ → (ℕ → ℕ) → Option (Outcome (Progress (Outcome TestContext)))
  rep_test1 fuel runtime guessed test_start_ticks ticks =
      rep_tester fuel (test_config runtime) guessed 0 test_start_ticks ticks (ok my_context)
