-- ===== src/Decoder/Table.antt =====
-- libdecoder_8086/instruction_bitstream.h: the entries of op_cmds against each other.
use computer_enhance.Shared.{
  ℕ, ◌+◌, ◌≤◌, ◌<◌, ◌≡◌, refl, true, ltb, List, [], ◌∷◌, if◌then◌else◌, arith, passes_below,
  passes_below-at, ltb→lt,
}
use computer_enhance.Decoder.Bitstream.Format.{OpcodeBitstream}
use computer_enhance.Decoder.Bitstream.{op_cmds}
use computer_enhance.Decoder.Parse.{matches}

-- How many entries match a first byte.
unfoldable pub matching : List OpcodeBitstream → ℕ → ℕ
matching [] b = 0
matching (cmd ∷ cmds) b = (if matches cmd b then 1 else 0) + matching cmds b

exclusive_table : passes_below (λ b. ltb (matching op_cmds b) 2) 256 ≡ true
unfolding passes_below matching op_cmds matches
exclusive_table = refl

-- At most one entry of op_cmds matches any first byte, so the order of the table does not matter.
pub op_cmds-exclusive : (b : ℕ) → b < 256 → matching op_cmds b ≤ 1
op_cmds-exclusive b h = ground (
  arith,
  ltb→lt (matching op_cmds b) 2
      (passes_below-at (λ x. ltb (matching op_cmds x) 2) 256 exclusive_table b h),
)
