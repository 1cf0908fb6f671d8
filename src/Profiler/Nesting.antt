-- ===== src/Profiler/Nesting.antt =====
-- rdtsc/rdtsc_utils.h: code in which the tagged blocks are properly nested.
use computer_enhance.Shared.{
  ℕ, ◌+◌, ◌%◌, ◌^◌, ◌==◌, ◌≡◌, refl, ◌∙◌, Bool, true, false, not, ◌&&◌, ◌||◌, if◌then◌else◌, List,
  [], ◌∷◌, Option, none, some, arith, Bool-cases, inl, inr,
}
use computer_enhance.Profiler.Blocks.{
  ProfileBlock, Profile, elapsed, is_index, block_start, leave_block, block_end,
}

-- Runs of tagged code: a block with its index, its arguments and the ticks at its two ends, the calls
-- inside it, and those that come after.
pub data Calls : Type 0 where
  done : Calls
  call : ℕ → List ℕ → ℕ → ℕ → Calls → ℕ → Calls → Calls

unfoldable pub run_calls : Calls → Profile → Profile
run_calls done p = p
run_calls (call index block_name byte_count begun inside ended after) p =
    let p1 = run_calls inside (block_start index block_name byte_count begun p) in
    run_calls after (block_end index ended p1)

abbrev pub current : List ℕ → Option ℕ
current [] = none
current (index ∷ active) = some index

abbrev pub is_active : ℕ → List ℕ → Bool
is_active index [] = false
is_active index (i ∷ active) = index == i || is_active index active

-- The active blocks inside a block: a recursive call of the current block adds none.
abbrev pub entered : ℕ → List ℕ → List ℕ
entered index active = if is_index index (current active) then active else index ∷ active

-- A block calls itself only directly.
abbrev pub IsNested : List ℕ → Calls → Type 0
IsNested active done = Unit
IsNested active (call index block_name byte_count begun inside ended after) =
    ((is_index index (current active) || not (is_active index active)) ≡ true)
    × IsNested (entered index active) inside
    × IsNested active after

-- The ticks and the number of the calls of block i that are not recursive.
unfoldable pub spent : ℕ → Option ℕ → Calls → ℕ
spent i outer done = 0
spent i outer (call index block_name byte_count begun inside ended after) =
    (if not (is_index index outer) && index == i then elapsed ended begun else 0)
    + spent i (some index) inside
    + spent i outer after

unfoldable pub times : ℕ → Option ℕ → Calls → ℕ
times i outer done = 0
times i outer (call index block_name byte_count begun inside ended after) =
    (if not (is_index index outer) && index == i then 1 else 0)
    + times i (some index) inside
    + times i outer after

-- The current block is the innermost active one, and no other block waits for the end of a recursive call.
pub record IsReady (active : List ℕ) (p : Profile) : Type 0 where
  pub index : p.profile_index ≡ current active
  pub recursive : (i : ℕ) → is_active i active ≡ false → (p.profile_data i).recursive_count ≡ 0

-- What a piece of nested code does to the profile: it adds ticks and calls to the blocks (as 64-bit
-- numbers) and leaves the current block and the active ones as they are.
pub record Adds (active : List ℕ) (ticks calls : ℕ → ℕ) (p p' : Profile) : Type 0 where
  pub index : p'.profile_index ≡ p.profile_index
  pub recursive : (i : ℕ) → (p'.profile_data i).recursive_count ≡ (p.profile_data i).recursive_count
  pub start :
      (i : ℕ)
      → is_active i active ≡ true
      → (p'.profile_data i).start_rdtsc ≡ (p.profile_data i).start_rdtsc
  pub parent :
      (i : ℕ)
      → is_active i active ≡ true
      → (p'.profile_data i).parent_index ≡ (p.profile_data i).parent_index
  pub total :
      (i : ℕ)
      → (p'.profile_data i).total_ticks % 2 ^ 64
        ≡ ((p.profile_data i).total_ticks + ticks i) % 2 ^ 64
  pub counted :
      (i : ℕ) → (p'.profile_data i).count % 2 ^ 64 ≡ ((p.profile_data i).count + calls i) % 2 ^ 64

module _ (active : List ℕ) where
  pub Adds-none : (p : Profile) → Adds active (λ i. 0) (λ i. 0) p p
  Adds-none p = record {
    index = refl;
    recursive = λ i. refl;
    start = λ i h. refl;
    parent = λ i h. refl;
    total = λ i. omega arith;
    counted = λ i. omega arith;
  }

  pub Adds-trans :
      (ticks calls ticks' calls' : ℕ → ℕ) (p q r : Profile)
      → Adds active ticks calls p q
      → Adds active ticks' calls' q r
      → Adds active (λ i. ticks i + ticks' i) (λ i. calls i + calls' i) p r
  Adds-trans ticks calls ticks' calls' p q r first second = record {
    index = second.index ∙ first.index;
    recursive = λ i. second.recursive i ∙ first.recursive i;
    start = λ i h. second.start i h ∙ first.start i h;
    parent = λ i h. second.parent i h ∙ first.parent i h;
    total = λ i. omega (arith, first.total i, second.total i);
    counted = λ i. omega (arith, first.counted i, second.counted i);
  }

-- The end of a block, in the fields that matter outside it.
pub leave_block-fields :
    (parent : Option ℕ) (total : ℕ) (blocks : ℕ → ProfileBlock) (i : ℕ)
    → let p = leave_block parent total blocks in
      (p.profile_index ≡ parent)
      × ((p.profile_data i).recursive_count ≡ (blocks i).recursive_count)
      × ((p.profile_data i).start_rdtsc ≡ (blocks i).start_rdtsc)
      × ((p.profile_data i).parent_index ≡ (blocks i).parent_index)
      × ((p.profile_data i).total_ticks ≡ (blocks i).total_ticks)
      × ((p.profile_data i).count ≡ (blocks i).count)
unfolding leave_block
leave_block-fields none total blocks i = (refl, refl, refl, refl, refl, refl)
leave_block-fields (some parent) total blocks i = elim (Bool-cases (parent == i)) [
  | inl here ↦
      let same : parent ≡ i = ground (arith, here) in
      rw (here, same) (refl, refl, refl, refl, refl, refl)
  | inr other ↦ rw other (refl, refl, refl, refl, refl, refl)
]
