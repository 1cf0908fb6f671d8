-- ===== src/Profiler/Blocks.antt =====
-- rdtsc/rdtsc_utils.h: struct profile_block, TAG_DATA_BLOCK_START and TAG_BLOCK_END.
use computer_enhance.Shared.{
  ℕ, ◌+◌, ◌-◌, ◌%◌, ◌^◌, ◌==◌, Bool, false, if◌then◌else◌, List, Option, none, some,
}

-- A block's entry. The parent index is `none` for -1.
pub record ProfileBlock : Type 0 where
  pub name : Option (List ℕ)
  pub parent_index : Option ℕ
  pub start_rdtsc : ℕ
  pub total_ticks : ℕ
  pub count : ℕ
  pub children_ticks : ℕ
  pub recursive_count : ℕ
  pub processed_byte_count : ℕ

-- profile_data and profile_index, which is `none` for -1.
pub record Profile : Type 0 where
  pub profile_data : ℕ → ProfileBlock
  pub profile_index : Option ℕ

abbrev pub add_ticks : ℕ → ℕ → ℕ
add_ticks a b = (a + b) % 2 ^ 64

-- GET_CPU_TICKS() - start_rdtsc
abbrev pub elapsed : ℕ → ℕ → ℕ
elapsed ticks start = (ticks + (2 ^ 64 - start)) % 2 ^ 64

abbrev pub set_block : (ℕ → ProfileBlock) → ℕ → ProfileBlock → ℕ → ProfileBlock
set_block blocks index block i = if index == i then block else blocks i

abbrev pub is_index : ℕ → Option ℕ → Bool
is_index index none = false
is_index index (some current) = index == current

-- TAG_DATA_BLOCK_START, with what GET_CPU_TICKS returns.
unfoldable pub block_start : ℕ → List ℕ → ℕ → ℕ → Profile → Profile
block_start index block_name byte_count ticks p =
    let block = p.profile_data index in
    if is_index index p.profile_index
    then record p {
      profile_data =
          set_block p.profile_data index
            (record block { recursive_count = block.recursive_count + 1 });
    }
    else record {
      profile_data = set_block p.profile_data index (record block {
        name = some block_name;
        start_rdtsc = ticks;
        processed_byte_count = byte_count;
        parent_index = p.profile_index;
      });
      profile_index = some index;
    }

-- The end of a block that is not a recursive call: the parent becomes the current block again.
unfoldable pub leave_block : Option ℕ → ℕ → (ℕ → ProfileBlock) → Profile
leave_block none total_ticks blocks = record { profile_data = blocks; profile_index = none }
leave_block (some parent) total_ticks blocks =
    let block = blocks parent in
    record {
      profile_data =
          set_block blocks parent
            (record block { children_ticks = add_ticks block.children_ticks total_ticks });
      profile_index = some parent;
    }

-- TAG_BLOCK_END, with what GET_CPU_TICKS returns.
unfoldable pub block_end : ℕ → ℕ → Profile → Profile
unfolding leave_block
block_end index ticks p =
    let block = p.profile_data index in
    if block.recursive_count == 0
    then (let ended : ProfileBlock = record block {
      total_ticks = add_ticks block.total_ticks (elapsed ticks block.start_rdtsc);
      count = add_ticks block.count 1;
      start_rdtsc = 0;
    } in
        leave_block block.parent_index ended.total_ticks (set_block p.profile_data index ended))
    else record p {
      profile_data =
          set_block p.profile_data index
            (record block { recursive_count = block.recursive_count - 1 });
    }

-- The zeroed profile_data, and -1.
unfoldable pub empty_profile : Profile
empty_profile = record {
  profile_data = λ i. record {
    name = none;
    parent_index = some 0;
    start_rdtsc = 0;
    total_ticks = 0;
    count = 0;
    children_ticks = 0;
    recursive_count = 0;
    processed_byte_count = 0;
  };
  profile_index = none;
}
