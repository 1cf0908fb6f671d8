-- ===== src/Profiler/Totals.antt =====
-- rdtsc/rdtsc_utils.h: the whole run of properly nested code.
use computer_enhance.Shared.{
  ℕ, ◌+◌, ◌%◌, ◌^◌, ◌==◌, ◌≡◌, refl, ◌∙◌, true, false, not, ◌&&◌, if◌then◌else◌, List, [], ◌∷◌,
  none, some, arith, Bool-cases, inl, inr,
}
use computer_enhance.Profiler.Blocks.{
  Profile, elapsed, is_index, block_start, block_end, empty_profile,
}
use computer_enhance.Profiler.Nesting.{
  Calls, done, call, run_calls, current, is_active, IsNested, spent, times, IsReady, Adds,
  Adds-none, Adds-trans,
}
use computer_enhance.Profiler.Accounting.{
  recursive_start, block_start-recursive, recursive-Adds, nested_start, block_start-nested,
  active_other, own_ticks, own_call, nested-Adds,
}

Adds-same :
    (active : List ℕ) (ticks calls ticks' calls' : ℕ → ℕ) (p q : Profile)
    → ((i : ℕ) → ticks i ≡ ticks' i)
    → ((i : ℕ) → calls i ≡ calls' i)
    → Adds active ticks calls p q
    → Adds active ticks' calls' p q
Adds-same active ticks calls ticks' calls' p q same_ticks same_calls adds = record {
  index = adds.index;
  recursive = adds.recursive;
  start = adds.start;
  parent = adds.parent;
  total = λ i. omega (arith, adds.total i, same_ticks i);
  counted = λ i. omega (arith, adds.counted i, same_calls i);
}

Adds-IsReady :
    (active : List ℕ) (ticks calls : ℕ → ℕ) (p q : Profile)
    → IsReady active p
    → Adds active ticks calls p q
    → IsReady active q
Adds-IsReady active ticks calls p q ready adds = record {
  index = adds.index ∙ ready.index;
  recursive = λ i h. adds.recursive i ∙ ready.recursive i h;
}

is_index-is_active :
    (index : ℕ) (active : List ℕ)
    → is_index index (current active) ≡ true
    → (is_active index active ≡ true) × (current active ≡ some index)
is_index-is_active index [] h = absurd (cc h)
is_index-is_active index (a ∷ active) h = (ground (arith, h), ground (arith, h))

-- A run of calls adds what these spend, as far as they are not recursive.
unfoldable pub RunAdds : List ℕ → Calls → Profile → Type 0
RunAdds active calls p =
    Adds active (λ i. spent i (current active) calls) (λ i. times i (current active) calls) p
      (run_calls calls p)

module _ (index : ℕ) (block_name : List ℕ) (byte_count begun ended : ℕ) where
  recursive_start-IsReady :
      (active : List ℕ) (p : Profile)
      → is_active index active ≡ true
      → IsReady active p
      → IsReady active (recursive_start index block_name byte_count begun ended p)
  unfolding recursive_start
  recursive_start-IsReady active p h ready = record {
    index = ready.index;
    recursive = λ i out.
        let other = active_other i block_name byte_count begun ended active index h out in
        ground (arith, other, ready.recursive i out);
  }

  nested_start-IsReady :
      (active : List ℕ) (p : Profile)
      → IsReady active p
      → IsReady (index ∷ active) (nested_start index block_name byte_count begun ended p)
  unfolding nested_start
  nested_start-IsReady active p ready = record {
    index = refl;
    recursive = λ i out. ground (arith, out, ready.recursive i);
  }

  -- A call, given what the calls inside it add.
  CallAdds : List ℕ → Calls → Profile → Type 0
  CallAdds active inside p =
      Adds active
        (λ i.
          (if not (is_index index (current active)) && index == i then elapsed ended begun else 0)
          + spent i (some index) inside)
        (λ i.
          (if not (is_index index (current active)) && index == i then 1 else 0)
          + times i (some index) inside)
        p
        (block_end index ended (run_calls inside (block_start index block_name byte_count begun p)))

  recursive-CallAdds :
      (active : List ℕ) (inside : Calls) (p : Profile)
      → is_index index (current active) ≡ true
      → IsReady active p
      → ((p1 : Profile) → IsReady active p1 → RunAdds active inside p1)
      → CallAdds active inside p
  unfolding CallAdds RunAdds
  recursive-CallAdds active inside p h ready further =
      let (on, same) = is_index-is_active index active h in
      let p1 = recursive_start index block_name byte_count begun ended p in
      let is_current : is_index index p.profile_index ≡ true = rw ready.index h in
      let started = block_start-recursive index block_name byte_count begun ended p is_current in
      let added = further p1 (recursive_start-IsReady active p on ready) in
      rw started (
        Adds-same active _ _ _ _ p _ (λ i. rw (h, same) (omega arith))
          (λ i. rw (h, same) (omega arith))
          (recursive-Adds index block_name byte_count begun ended active _ _ p (run_calls inside p1)
            added))

  nested-CallAdds :
      (active : List ℕ) (inside : Calls) (p : Profile)
      → is_index index (current active) ≡ false
      → is_active index active ≡ false
      → IsReady active p
      → ((p1 : Profile) → IsReady (index ∷ active) p1 → RunAdds (index ∷ active) inside p1)
      → CallAdds active inside p
  unfolding CallAdds RunAdds own_ticks own_call
  nested-CallAdds active inside p h out ready further =
      let p1 = nested_start index block_name byte_count begun ended p in
      let is_current : is_index index p.profile_index ≡ false = rw ready.index h in
      let started = block_start-nested index block_name byte_count begun ended p is_current in
      let added = further p1 (nested_start-IsReady active p ready) in
      rw (started, h)
        (nested-Adds index block_name byte_count begun ended active _ _ p (run_calls inside p1) out
          (ready.recursive index out) added)

-- Properly nested code leaves the current block, the recursion counts and the active blocks as they were,
-- and adds to each block, as 64-bit numbers, the ticks and the number of its calls that are not
-- recursive.
pub run_calls-Adds :
    (calls : Calls) (active : List ℕ) (p : Profile)
    → IsNested active calls
    → IsReady active p
    → Adds active
        (λ i. spent i (current active) calls)
        (λ i. times i (current active) calls)
        p
        (run_calls calls p)
unfolding RunAdds CallAdds run_calls spent times
run_calls-Adds done active p nested ready = Adds-none active p
run_calls-Adds (call index block_name byte_count begun inside ended after) active p
      (allowed, inner, behind) ready =
    let here : CallAdds index block_name byte_count begun ended active inside p =
      elim (Bool-cases (is_index index (current active))) [
        | inl h ↦
            recursive-CallAdds index block_name byte_count begun ended active inside p h ready
              λ p1 ready1. run_calls-Adds inside active p1 (rw h at inner) ready1
        | inr h ↦
            nested-CallAdds index block_name byte_count begun ended active inside p h
              (ground (arith, h, allowed)) ready
              λ p1 ready1. run_calls-Adds inside (index ∷ active) p1 (rw h at inner) ready1
      ] in
    let p2 =
      block_end index ended (run_calls inside (block_start index block_name byte_count begun p)) in
    let rest = run_calls-Adds after active p2 behind (Adds-IsReady active _ _ p p2 ready here) in
    Adds-trans active _ _ _ _ p p2 (run_calls after p2) here rest

-- A program of properly nested blocks, where a block calls itself only directly and never from within
-- another block, ends with no current block. As 64-bit numbers, total_ticks of each block is the ticks of
-- its outermost calls, and count is their number: a recursive call is counted in neither.
pub run_calls-totals :
    (calls : Calls)
    → IsNested [] calls
    → let p = run_calls calls empty_profile in
      (p.profile_index ≡ none)
      × ((i : ℕ) → (p.profile_data i).total_ticks % 2 ^ 64 ≡ spent i none calls % 2 ^ 64)
      × ((i : ℕ) → (p.profile_data i).count % 2 ^ 64 ≡ times i none calls % 2 ^ 64)
unfolding empty_profile
run_calls-totals calls nested =
    let adds =
      run_calls-Adds calls [] empty_profile nested
        (record { index = refl; recursive = λ i h. refl }) in
    (adds.index, λ i. omega (arith, adds.total i), λ i. omega (arith, adds.counted i))
