-- ===== src/Profiler/Accounting.antt =====
-- rdtsc/rdtsc_utils.h: the ticks and calls that properly nested code adds to the blocks.
use computer_enhance.Shared.{
  ℕ, ◌+◌, ◌%◌, ◌^◌, ◌==◌, ◌≡◌, refl, sym, ap, subst, ◌∙◌, true, false, if◌then◌else◌, List, [], ◌∷◌,
  some, arith, Bool-cases, inl, inr,
}
use computer_enhance.Profiler.Blocks.{
  ProfileBlock, Profile, add_ticks, elapsed, set_block, is_index, block_start, leave_block,
  block_end,
}
use computer_enhance.Profiler.Nesting.{is_active, Adds, leave_block-fields}

module _ (index : ℕ) (block_name : List ℕ) (byte_count begun ended : ℕ) where
  unfoldable pub recursive_start : Profile → Profile
  recursive_start p =
      let block = p.profile_data index in
      record p {
        profile_data =
            set_block p.profile_data index
              (record block { recursive_count = block.recursive_count + 1 });
      }

  pub block_start-recursive :
      (p : Profile)
      → is_index index p.profile_index ≡ true
      → block_start index block_name byte_count begun p ≡ recursive_start p
  unfolding block_start recursive_start
  block_start-recursive p h = rw h refl

  -- A recursive call: its start and its end count up and down.
  pub recursive-Adds :
      (active : List ℕ) (ticks calls : ℕ → ℕ) (p q : Profile)
      → Adds active ticks calls (recursive_start p) q
      → Adds active ticks calls p (block_end index ended q)
  unfolding recursive_start block_end
  recursive-Adds active ticks calls p q inside =
      let open_call : ((q.profile_data index).recursive_count == 0) ≡ false =
        ground (arith, inside.recursive index) in
      rw open_call (record {
        index = inside.index;
        recursive = λ i. ground (arith, inside.recursive i);
        start = λ i h. ground (arith, inside.start i h);
        parent = λ i h. ground (arith, inside.parent i h);
        total = λ i. ground (arith, inside.total i);
        counted = λ i. ground (arith, inside.counted i);
      })

  unfoldable pub nested_start : Profile → Profile
  nested_start p =
      let block = p.profile_data index in
      record {
        profile_data = set_block p.profile_data index (record block {
          name = some block_name;
          start_rdtsc = begun;
          processed_byte_count = byte_count;
          parent_index = p.profile_index;
        });
        profile_index = some index;
      }

  pub block_start-nested :
      (p : Profile)
      → is_index index p.profile_index ≡ false
      → block_start index block_name byte_count begun p ≡ nested_start p
  unfolding block_start nested_start
  block_start-nested p h = rw h refl

  pub active_other :
      (active : List ℕ) (i : ℕ)
      → is_active i active ≡ true
      → is_active index active ≡ false
      → (index == i) ≡ false
  active_other [] i h out = absurd (cc h)
  active_other (a ∷ active) i h out = elim (Bool-cases (index == i)) [
    | inl here ↦
        let same : index ≡ i = ground (arith, here) in
        let out' : is_active i (a ∷ active) ≡ false =
          subst (λ z. is_active z (a ∷ active) ≡ false) same out in
        absurd (cc (sym h ∙ out'))
    | inr other ↦ other
  ]

  -- The block with the ticks since its start added.
  ended_block : ProfileBlock → ProfileBlock
  ended_block block = record block {
    total_ticks = add_ticks block.total_ticks (elapsed ended block.start_rdtsc);
    count = add_ticks block.count 1;
    start_rdtsc = 0;
  }

  block_end-nested :
      (q : Profile)
      → (q.profile_data index).recursive_count ≡ 0
      → block_end index ended q
        ≡ leave_block
            (q.profile_data index).parent_index
            (ended_block (q.profile_data index)).total_ticks
            (set_block q.profile_data index (ended_block (q.profile_data index)))
  unfolding block_end ended_block
  block_end-nested q h = rw h refl

  unfoldable pub own_ticks : ℕ → ℕ
  own_ticks i = if index == i then elapsed ended begun else 0

  unfoldable pub own_call : ℕ → ℕ
  own_call i = if index == i then 1 else 0

  -- A call that is not recursive.
  pub nested-Adds :
      (active : List ℕ) (ticks calls : ℕ → ℕ) (p q : Profile)
      → is_active index active ≡ false
      → (p.profile_data index).recursive_count ≡ 0
      → Adds (index ∷ active) ticks calls (nested_start p) q
      → Adds active
          (λ i. own_ticks i + ticks i)
          (λ i. own_call i + calls i)
          p
          (block_end index ended q)
  unfolding nested_start ended_block own_ticks own_call
  nested-Adds active ticks calls p q out idle inside =
      let self : is_active index (index ∷ active) ≡ true = ground arith in
      let is_idle : (q.profile_data index).recursive_count ≡ 0 =
        ground (arith, inside.recursive index, idle) in
      let is_start : (q.profile_data index).start_rdtsc ≡ begun =
        ground (arith, inside.start index self) in
      let is_parent : (q.profile_data index).parent_index ≡ p.profile_index =
        ground (arith, inside.parent index self) in
      let blocks = set_block q.profile_data index (ended_block (q.profile_data index)) in
      let left =
        leave_block-fields (q.profile_data index).parent_index
          (ended_block (q.profile_data index)).total_ticks blocks in
      rw (block_end-nested q is_idle) (record {
        index = (left 0).0 ∙ is_parent;
        recursive = λ i. (left i).1 ∙ ground (arith, inside.recursive i);
        start = λ i h.
            (left i).2
            ∙ ground (arith, active_other active i h out, inside.start i (rw h (ground arith)));
        parent = λ i h.
            (left i).3
            ∙ ground (arith, active_other active i h out, inside.parent i (rw h (ground arith)));
        total = λ i. ap (λ t. t % 2 ^ 64) (left i).4 ∙ ground (arith, is_start, inside.total i);
        counted = λ i. ap (λ t. t % 2 ^ 64) (left i).5 ∙ ground (arith, inside.counted i);
      })
