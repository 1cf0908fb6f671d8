-- ===== src/Decoder/Totality.antt =====
-- When decode_bitstream returns: the table, its formats and the stages on a long enough buffer.
pub mod Stages
use Prim.Native.Nat.{min}
use computer_enhance.Shared.{
  ℕ, ◌+◌, ◌/◌, ◌^◌, ◌≤◌, ◌≡◌, refl, ◌∙◌, Bool, true, false, not, ◌&&◌, ◌||◌, ◌⊎◌, inl, inr, ltb,
  ◌==◌, ◌>>◌, List, [], ◌∷◌, if◌then◌else◌, Bool-cases, some, Outcome, ok, ◌>>=◌, bit_and,
  passes_below, agree_below, passes_below-at, ◌<◌, arith,
}
use computer_enhance.Shared.Bits.{bit_and-halves, bit_and-zero}
use computer_enhance.Decoder.Types.{DecodedInstruction}
use computer_enhance.Decoder.Bitstream.Format.{OpcodeBitstream}
use computer_enhance.Decoder.Bitstream.{op_cmds}
use computer_enhance.Decoder.Extract.{Buffer}
use computer_enhance.Decoder.Fields.{Fields, byte1_fields, byte2_fields, force_w}
use computer_enhance.Decoder.Modes.{Cursor}
use computer_enhance.Decoder.Parse.{
  read_fields, operands, start, finish, parse_instruction, matches, find_command, decode_bitstream,
}
use computer_enhance.Decoder.Locality.Stages.{
  operand_room, operands-IsLocal, field_operands-IsLocal, hardcoded_dst-IsLocal,
  hardcoded_src-IsLocal, data_bytes-IsLocal,
}
use computer_enhance.Decoder.Locality.{longest}
use Stages.{
  HasBytes, fields_name_dst, field_operands-total, hardcoded_dst-total, hardcoded_src-total,
  data_bytes-total, short_instruction-total,
}

-- A format whose flags fit together: MOD comes with R/M, and an instruction with data bytes has a W
-- flag and a destination.
abbrev has_mod : OpcodeBitstream → Bool
has_mod cmd = cmd.op_has_register_byte && cmd.byte2_has_mod_field

abbrev has_reg : OpcodeBitstream → Bool
has_reg cmd = cmd.byte1_has_reg_field || cmd.op_has_register_byte && cmd.byte2_has_reg_field

abbrev names_dst : OpcodeBitstream → Bool
names_dst cmd =
    if has_mod cmd
    then cmd.byte2_has_sr_field || cmd.byte1_has_d_flag || not (has_reg cmd)
    else has_reg cmd && cmd.byte1_has_w_flag

record IsConsistent (cmd : OpcodeBitstream) : Type 0 where
  mod_with_rm : has_mod cmd ≡ true → cmd.byte2_has_rm_field ≡ true
  data_with_w : cmd.op_has_data_bytes ≡ true → cmd.byte1_has_w_flag ≡ true
  data_with_dst : cmd.op_has_data_bytes ≡ true → names_dst cmd || cmd.op_has_hardcoded_dst ≡ true
  fits : longest cmd ≤ 6

bit_and-one-le : (x : ℕ) → bit_and x 1 ≤ 1
bit_and-one-le x = omega (arith, bit_and-halves x 1, bit_and-zero (x / 2))

module _ (cmd : OpcodeBitstream) (consistent : IsConsistent cmd) (buf : Buffer)
    (bytes : HasBytes buf) where
  -- What the fields of either length have in common.
  record IsRead (f : Fields) (ptr : ℕ) : Type 0 where
    at : ptr ≡ (if cmd.op_has_register_byte then 1 else 0)
    bits : (f.s_bit ≤ 1) × (f.w_bit ≤ 1)
    same_mod : f.has_mod ≡ has_mod cmd
    same_reg : f.has_reg ≡ has_reg cmd
    same_w : f.has_w_bit ≡ cmd.byte1_has_w_flag
    same_d : f.has_d_bit ≡ cmd.byte1_has_d_flag
    with_rm : f.has_mod ≡ true → f.has_rm ≡ true
    with_sr : f.has_mod ≡ true → f.has_sr ≡ cmd.byte2_has_sr_field

  read_fields-IsRead :
      (b : ℕ) → (p : Fields × ℕ) × (read_fields cmd buf b ≡ ok p) × IsRead (force_w p.0) p.1
  unfolding read_fields byte1_fields byte2_fields force_w
  read_fields-IsRead b = elim (Bool-cases cmd.op_has_register_byte) [
    | inl two ↦
        let (b', at') = bytes 1 (omega arith) in
        simp (two, at')
          (
            _,
            refl,
            record {
              at = ground arith;
              bits =
                  ground (arith, bit_and-one-le (b >> 1), bit_and-one-le (b >> cmd.w_flag_shift));
              same_mod = ground arith;
              same_reg = ground arith;
              same_w = ground arith;
              same_d = ground arith;
              with_rm = λ m. consistent.mod_with_rm (ground arith);
              with_sr = ground arith;
            },
          )
    | inr one ↦ simp one (
      _,
      refl,
      record {
        at = ground arith;
        bits = ground (arith, bit_and-one-le (b >> 1), bit_and-one-le (b >> cmd.w_flag_shift));
        same_mod = ground arith;
        same_reg = ground arith;
        same_w = ground arith;
        same_d = ground arith;
        with_rm = λ m. ground arith;
        with_sr = λ m. ground arith;
      },
    )
  ]

  needs :
      (f : Fields) (ptr : ℕ)
      → IsRead f ptr
      → cmd.op_has_data_bytes ≡ true
      → (f.has_w_bit ≡ true) × (fields_name_dst cmd f || cmd.op_has_hardcoded_dst ≡ true)
  needs f ptr read d = (
    read.same_w ∙ consistent.data_with_w d,
    ground (
      arith,
      read.same_mod,
      read.same_reg,
      read.same_w,
      read.same_d,
      read.with_sr,
      consistent.data_with_dst d,
    ),
  )

  operands-total :
      (b : ℕ) (f : Fields) (ptr : ℕ)
      → IsRead f ptr
      → (c : Cursor) × (operands cmd f b buf (start cmd f ptr) ≡ ok c)
  unfolding operands start
  operands-total b f ptr read =
      let roomy : ptr + operand_room cmd f ≤ 5 =
        ground (arith, read.at, read.same_mod, consistent.fits) in
      let (c1, e1, k1) =
        field_operands-total cmd f buf bytes (start cmd f ptr) read.with_rm
          (omega (arith, roomy)) in
      let (m1, same1) = field_operands-IsLocal cmd f buf (start cmd f ptr) c1 e1 in
      let (c2, e2, k2) =
        hardcoded_dst-total cmd f buf bytes c1 (fields_name_dst cmd f) k1
          (omega (arith, roomy, m1)) in
      let (m2, same2) = hardcoded_dst-IsLocal cmd f buf c1 c2 e2 in
      let (c3, e3, k3) =
        hardcoded_src-total cmd f buf bytes c2 _ k2 (omega (arith, roomy, m1, m2)) in
      let (m3, same3) = hardcoded_src-IsLocal cmd f buf c2 c3 e3 in
      let (c4, e4, k4) =
        data_bytes-total cmd f buf bytes c3 _ k3 read.bits (needs f ptr read)
          (omega (arith, roomy, m1, m2, m3)) in
      let (m4, same4) = data_bytes-IsLocal cmd f buf c3 c4 e4 in
      let (c5, e5, k5) =
        short_instruction-total cmd f buf bytes c4 b (omega (arith, roomy, m1, m2, m3, m4)) in
      rw (e1, e2, e3, e4) (c5, e5)

  parse_instruction-total :
      (b : ℕ)
      → (n : ℕ) × (i : DecodedInstruction) × (parse_instruction cmd b buf ≡ ok (n, i)) × (1 ≤ n)
  unfolding parse_instruction finish
  parse_instruction-total b =
      let (p, e, read) = read_fields-IsRead b in
      let (c, e') = operands-total b (force_w p.0) p.1 read in
      let (moved, alike) = operands-IsLocal cmd (force_w p.0) b buf _ c e' in
      rw (e, e') (_, _, refl, unfold start in omega (arith, moved))

abbrev AllConsistent : List OpcodeBitstream → Type 0
AllConsistent [] = Unit
AllConsistent (cmd ∷ cmds) = IsConsistent cmd × AllConsistent cmds

op_cmds-AllConsistent : AllConsistent op_cmds
unfolding op_cmds
op_cmds-AllConsistent = ground arith

any_matches : List OpcodeBitstream → ℕ → Bool
any_matches [] b = false
any_matches (cmd ∷ cmds) b = matches cmd b || any_matches cmds b

-- The first bytes of MOV, ADD, SUB, CMP, the conditional jumps and the loops, as byte ranges: the
-- 8086 instruction set, without the opcodes that the library leaves out.
abbrev between : ℕ → ℕ → ℕ → Bool
between low high b = ltb b (high + 1) && not (ltb b low)

abbrev pub is_supported : ℕ → Bool
is_supported b =
    between 0x00 0x05 b
    || between 0x28 0x2d b
    || between 0x38 0x3d b
    || between 0x70 0x83 b
    || between 0x88 0x8c b
    || b == 0x8e
    || between 0xa0 0xa3 b
    || between 0xb0 0xbf b
    || between 0xc6 0xc7 b
    || between 0xe0 0xe3 b

abbrev as_number : Bool → ℕ
as_number true = 1
as_number false = 0

supported_table :
    passes_below (λ b. as_number (any_matches op_cmds b) == as_number (is_supported b)) 256 ≡ true
unfolding passes_below any_matches op_cmds matches
supported_table = refl

any_matches-is_supported : (b : ℕ) → b < 256 → any_matches op_cmds b ≡ is_supported b
any_matches-is_supported b h = ground (
  arith,
  agree_below 256 (λ x. as_number (any_matches op_cmds x)) (λ x. as_number (is_supported x))
      supported_table b h,
)

find_command-total :
    (cmds : List OpcodeBitstream) (b : ℕ) (buf : Buffer) (old : DecodedInstruction)
    → AllConsistent cmds
    → HasBytes buf
    → (n : ℕ) × (i : DecodedInstruction) × (find_command cmds b buf old ≡ ok (n, i))
      × (((any_matches cmds b ≡ true) × (1 ≤ n))
          ⊎ ((any_matches cmds b ≡ false) × (n ≡ 0) × (i ≡ old)))
unfolding find_command any_matches
find_command-total [] b buf old sound bytes = (0, old, refl, inr (refl, refl, refl))
find_command-total (cmd ∷ cmds) b buf old sound bytes = elim (Bool-cases (matches cmd b)) [
  | inl hit ↦
      let (n, i, e, pos) = parse_instruction-total cmd sound.0 buf bytes b in
      rw hit (n, i, e, inl (refl, pos))
  | inr miss ↦ rw miss (find_command-total cmds b buf old sound.1 bytes)
]

-- On every buffer of at least six readable bytes decode_bitstream returns: no sanity check of the
-- parser fails and no byte behind the sixth is read. It consumes at least one byte when the first
-- byte is an opcode of the supported set, given as byte ranges, and for any other byte it returns 0
-- with *inst_result left alone.
pub decode_bitstream-total :
    (buf : Buffer) (b : ℕ) (old : DecodedInstruction)
    → HasBytes buf
    → buf 0 ≡ some b
    → b < 256
    → (n : ℕ) × (i : DecodedInstruction) × (decode_bitstream buf old ≡ ok (n, i))
      × (((is_supported b ≡ true) × (1 ≤ n)) ⊎ ((is_supported b ≡ false) × (n ≡ 0) × (i ≡ old)))
unfolding decode_bitstream
decode_bitstream-total buf b old bytes at h =
    rw (at, ← any_matches-is_supported b h)
      (find_command-total op_cmds b buf old op_cmds-AllConsistent bytes)
