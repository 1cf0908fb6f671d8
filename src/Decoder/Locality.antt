-- ===== src/Decoder/Locality.antt =====
-- decode_bitstream of libdecoder_8086/libdecoder.c on any buffer: the bytes that it consumes.
pub mod Extracted
pub mod Stages
use computer_enhance.Shared.{
  ℕ, ◌+◌, ◌-◌, ◌%◌, ◌^◌, ◌≤◌, ◌≡◌, true, false, ◌&&◌, List, [], ◌∷◌, if◌then◌else◌, ltb, ltb→lt,
  Outcome, ok, ◌>>=◌, >>=-inverse, Bool-cases, inl, inr, ◌⊎◌, arith,
}
use computer_enhance.Decoder.Types.{DecodedInstruction}
use computer_enhance.Decoder.Bitstream.Format.{OpcodeBitstream}
use computer_enhance.Decoder.Bitstream.{op_cmds}
use computer_enhance.Decoder.Extract.{Buffer, read_byte}
use computer_enhance.Decoder.Fields.{Fields, byte1_fields, byte2_fields, force_w}
use computer_enhance.Decoder.Modes.{Cursor}
use computer_enhance.Decoder.Parse.{
  read_fields, operands, start, finish, parse_instruction, matches, find_command, decode_bitstream,
}
use Extracted.{SameUpTo}
use Stages.{operands-IsLocal, operand_room}

-- The longest instruction of a format: opcode, register byte, displacement or address, data.
abbrev pub longest : OpcodeBitstream → ℕ
longest cmd =
    1
    + (if cmd.op_has_register_byte then 1 else 0)
    + (if cmd.op_has_register_byte && cmd.byte2_has_mod_field then 2 else 0)
    + (if cmd.op_has_hardcoded_dst then (if cmd.op_has_address_bytes then 2 else 0) else 0)
    + (if cmd.op_has_hardcoded_src && cmd.op_has_address_bytes then 2 else 0)
    + (if cmd.op_has_data_bytes then 2 else 0)
    + (if cmd.is_short_instruction then 2 else 0)

-- What a successful decode promises.
pub record Consumes (run : Buffer → Outcome (ℕ × DecodedInstruction)) (buf : Buffer) (room n : ℕ)
    (i : DecodedInstruction) : Type 0 where
  pub some_bytes : 1 ≤ n
  pub within : n ≤ room
  pub counted : i.inst_num_bytes ≡ n
  pub alike : (buf' : Buffer) → SameUpTo (n - 1) buf buf' → run buf' ≡ ok (n, i)

module _ (cmd : OpcodeBitstream) (b : ℕ) where
  read_fields-alike :
      (buf : Buffer) (f : Fields) (ptr : ℕ)
      → read_fields cmd buf b ≡ ok (f, ptr)
      → (ptr ≡ (if cmd.op_has_register_byte then 1 else 0))
        × (f.has_mod ≡ cmd.op_has_register_byte && cmd.byte2_has_mod_field)
        × ((buf' : Buffer) → SameUpTo ptr buf buf' → read_fields cmd buf' b ≡ ok (f, ptr))
  unfolding read_fields byte1_fields byte2_fields
  read_fields-alike buf f ptr e = (ground arith, ground arith, λ buf' same. ground (arith, same 1))

  parse_instruction-Consumes :
      (buf : Buffer) (n : ℕ) (i : DecodedInstruction)
      → longest cmd ≤ 6
      → parse_instruction cmd b buf ≡ ok (n, i)
      → Consumes (parse_instruction cmd b) buf 6 n i
  unfolding parse_instruction start finish force_w
  parse_instruction-Consumes buf n i fits e =
      let (p, fields, e1) = >>=-inverse (read_fields cmd buf b) _ e in
      let (c, done, e2) =
        >>=-inverse (operands cmd (force_w p.0) b buf (start cmd (force_w p.0) p.1)) _ e1 in
      let (at, moded, alike_fields) = read_fields-alike buf p.0 p.1 fields in
      let (moved, alike_operands) =
        operands-IsLocal cmd (force_w p.0) b buf (start cmd (force_w p.0) p.1) c done in
      let count : c.consumed_bytes ≡ n = ground (arith, e2) in
      let size : i.inst_num_bytes ≡ c.consumed_bytes % 2 ^ 8 = ground (arith, e2) in
      let short : c.consumed_bytes ≤ 6 = ground (arith, at, moded, moved, fits) in
      let last : c.ptr ≡ n - 1 = omega (arith, moved, count) in
      record {
        some_bytes = omega (arith, moved, count);
        within = omega (arith, short, count);
        counted = omega (arith, size, short, count);
        alike = λ buf' same.
            rw
              (
                alike_fields buf' (λ k h. same k (omega (arith, moved, last))),
                alike_operands buf' (λ k h. same k (omega (arith, last))),
              )
              e2;
      }

-- Every entry of the table from the given one on has formats of at most six bytes.
abbrev AllFit : List OpcodeBitstream → Type 0
AllFit [] = Unit
AllFit (cmd ∷ cmds) = (longest cmd ≤ 6) × AllFit cmds

op_cmds-AllFit : AllFit op_cmds
unfolding op_cmds
op_cmds-AllFit = omega arith

find_command-Consumes :
    (cmds : List OpcodeBitstream) (b : ℕ) (buf : Buffer) (old : DecodedInstruction) (n : ℕ)
    (i : DecodedInstruction)
    → AllFit cmds
    → find_command cmds b buf old ≡ ok (n, i)
    → ((n ≡ 0) × (i ≡ old) × ((buf' : Buffer) → find_command cmds b buf' old ≡ ok (n, i)))
      ⊎ Consumes (λ buf'. find_command cmds b buf' old) buf 6 n i
unfolding find_command
find_command-Consumes [] b buf old n i fits e =
    inl (ground (arith, e), ground (arith, e), λ buf'. e)
find_command-Consumes (cmd ∷ cmds) b buf old n i fits e = elim (Bool-cases (matches cmd b)) [
  | inl hit ↦ inr (rw hit (parse_instruction-Consumes cmd b buf n i fits.0 (rw hit at e)))
  | inr miss ↦ rw miss (find_command-Consumes cmds b buf old n i fits.1 (rw miss at e))
]

pub decode_bitstream-Consumes :
    (buf : Buffer) (old : DecodedInstruction) (n : ℕ) (i : DecodedInstruction)
    → decode_bitstream buf old ≡ ok (n, i)
    → (((n ≡ 0) × (i ≡ old)) ⊎ ((1 ≤ n) × (n ≤ 6) × (i.inst_num_bytes ≡ n)))
      × ((buf' : Buffer) → SameUpTo (n - 1) buf buf' → decode_bitstream buf' old ≡ ok (n, i))
unfolding decode_bitstream
decode_bitstream-Consumes buf old n i e =
    let (b, first, e1) = >>=-inverse (read_byte buf 0) _ e in
    elim (find_command-Consumes op_cmds b buf old n i op_cmds-AllFit e1) [
      | inl (none_read, kept, alike) ↦
          (inl (none_read, kept), λ buf' same. rw (← same 0 (omega arith), first) (alike buf'))
      | inr found ↦ (
        inr (found.some_bytes, found.within, found.counted),
        λ buf' same. rw (← same 0 (omega arith), first) (found.alike buf' same),
      )
    ]

-- decode_bitstream, whenever it returns, either matched nothing, with 0 bytes and *inst_result left
-- alone, or consumed 1 to 6 bytes, which inst_num_bytes records; and it returns the same from any
-- buffer that holds the same bytes up to the last one consumed.
pub decode_bitstream-local :
    (buf buf' : Buffer) (old : DecodedInstruction) (n : ℕ) (i : DecodedInstruction)
    → decode_bitstream buf old ≡ ok (n, i)
    → SameUpTo (n - 1) buf buf'
    → (((n ≡ 0) × (i ≡ old)) ⊎ ((1 ≤ n) × (n ≤ 6) × (i.inst_num_bytes ≡ n)))
      × (decode_bitstream buf' old ≡ ok (n, i))
decode_bitstream-local buf buf' old n i e same =
    let (kind, alike) = decode_bitstream-Consumes buf old n i e in (kind, alike buf' same)
