-- ===== src/Decoder/DataWord.antt =====
-- The range of the immediate data that decode_bitstream of libdecoder_8086/libdecoder.c writes.
use computer_enhance.Shared.{
  ℕ, ◌+◌, ◌^◌, ◌<◌, ◌≡◌, Bool, true, false, some, List, [], ◌∷◌, Outcome, ok, >>=-inverse,
  Bool-cases, inl, inr, arith,
}
use computer_enhance.Shared.Bytes.{bit_or_join}
use computer_enhance.Decoder.Types.{DecodedInstruction, reset_instruction}
use computer_enhance.Decoder.Bitstream.Format.{OpcodeBitstream}
use computer_enhance.Decoder.Bitstream.{op_cmds}
use computer_enhance.Decoder.Extract.{
  Buffer, read_byte, sign_extend, join_bytes, extract_displacement, extract_direct_address,
  extract_data,
}
use computer_enhance.Decoder.Fields.{Fields, force_w}
use computer_enhance.Decoder.Modes.{
  Cursor, direct_mode, direct_operands, displaced_mode, mod_operands, field_operands,
  memory_operands, register_mode,
}
use computer_enhance.Decoder.Parse.{
  hardcoded_dst, hardcoded_src, hardcoded_operand, data_bytes, data_value, data_format,
  data_written, short_instruction, short_written, read_fields, operands, start, start_instruction,
  finish, parse_instruction, matches, find_command, decode_bitstream,
}
use computer_enhance.Decoder.Encoding.Bits.{sign_extend-extended}

-- Every byte of the buffer is a byte.
abbrev pub IsBuffer : Buffer → Type 0
IsBuffer buf = (i b : ℕ) → buf i ≡ some b → b < 256

join_bytes-lt : (h l : ℕ) → h < 256 → l < 256 → join_bytes h l < 2 ^ 16
unfolding join_bytes
join_bytes-lt h l hh hl = omega (arith, bit_or_join h l hl)

sign_extend-lt : (b : ℕ) → b < 256 → sign_extend b < 2 ^ 16
sign_extend-lt b h = ground (arith, sign_extend-extended b)

extract_data-lt :
    (buf : Buffer) (ptr : ℕ) (w s : Bool) (n v : ℕ)
    → IsBuffer buf
    → extract_data buf ptr w s ≡ ok (n, v)
    → v < 2 ^ 16
unfolding extract_data
extract_data-lt buf ptr true true n v bytes e =
    let (b, at, done) = >>=-inverse (read_byte buf (ptr + 1)) _ e in
    ground (arith, done, sign_extend-lt b, bytes (ptr + 1) b)
extract_data-lt buf ptr true false n v bytes e =
    let (b, at, done) = >>=-inverse (read_byte buf (ptr + 1)) _ e in
    ground (arith, done, bytes (ptr + 1) b)
extract_data-lt buf ptr false s n v bytes e =
    let (l, at, e') = >>=-inverse (read_byte buf (ptr + 1)) _ e in
    let (h, at', done) = >>=-inverse (read_byte buf (ptr + 2)) _ e' in
    ground (arith, done, join_bytes-lt h l, bytes (ptr + 1) l, bytes (ptr + 2) h)

-- A stage that leaves the data alone.
abbrev Keeps : (Buffer → Cursor → Outcome Cursor) → Type 0
Keeps stage =
    (buf : Buffer) (c c' : Cursor) → stage buf c ≡ ok c' → c'.inst.src_data ≡ c.inst.src_data

module _ (cmd : OpcodeBitstream) (f : Fields) where
  memory_operands-data :
      (d : ℕ) (i : DecodedInstruction) → (memory_operands cmd f d i).src_data ≡ i.src_data
  unfolding memory_operands
  memory_operands-data d i = ground arith

  register_mode-data : (i : DecodedInstruction) → (register_mode cmd f i).src_data ≡ i.src_data
  unfolding register_mode
  register_mode-data i = ground arith

  direct_operands-data :
      (a : ℕ) (i : DecodedInstruction) → (direct_operands cmd f a i).src_data ≡ i.src_data
  unfolding direct_operands
  direct_operands-data a i = ground arith

  displaced_mode-Keeps : (w : Bool) → Keeps (λ buf c. displaced_mode cmd f buf w c)
  unfolding displaced_mode
  displaced_mode-Keeps w buf c c' e =
      let (p, at, done) = >>=-inverse (extract_displacement buf c.ptr w) _ e in
      ground (arith, done, memory_operands-data p.1 c.inst)

  direct_mode-Keeps : Keeps (λ buf c. direct_mode cmd f buf c)
  unfolding direct_mode
  direct_mode-Keeps buf c c' e =
      let (p, at, done) = >>=-inverse (extract_direct_address buf c.ptr) _ e in
      ground (arith, done, direct_operands-data p.1 c.inst)

  mod_operands-Keeps : Keeps (λ buf c. mod_operands cmd f buf c)
  unfolding mod_operands
  mod_operands-Keeps buf c c' e = ground (
    arith,
    e,
    direct_mode-Keeps buf c c',
    displaced_mode-Keeps true buf c c',
    displaced_mode-Keeps false buf c c',
    memory_operands-data 0 c.inst,
    register_mode-data c.inst,
  )

  field_operands-Keeps : Keeps (λ buf c. field_operands cmd f buf c)
  unfolding field_operands
  field_operands-Keeps buf c c' e = ground (arith, e, mod_operands-Keeps buf c c')

  hardcoded_dst-Keeps : Keeps (λ buf c. hardcoded_dst cmd f buf c)
  unfolding hardcoded_dst hardcoded_operand extract_direct_address
  hardcoded_dst-Keeps buf c c' e = ground (arith, e)

  hardcoded_src-Keeps : Keeps (λ buf c. hardcoded_src cmd buf c)
  unfolding hardcoded_src extract_direct_address
  hardcoded_src-Keeps buf c c' e = ground (arith, e)

  data_bytes-lt :
      (buf : Buffer) (c c' : Cursor)
      → IsBuffer buf
      → data_bytes cmd f buf c ≡ ok c'
      → c.inst.src_data < 2 ^ 16
      → c'.inst.src_data < 2 ^ 16
  unfolding data_bytes data_value data_written
  data_bytes-lt buf c c' bytes e h = elim (Bool-cases cmd.op_has_data_bytes) [
    | inr none' ↦ ground (arith, e)
    | inl data' ↦ elim (Bool-cases f.has_w_bit) [
      | inr narrow ↦ absurd (cc (e))
      | inl wide ↦
          let (format, at, e1) = >>=-inverse (data_format f c.inst) _ (simp (data', wide) at e) in
          let (p, at', done) =
            >>=-inverse (extract_data buf c.ptr format.is_8bit format.is_signed_extended) _ e1 in
          ground (arith, done, extract_data-lt buf c.ptr _ _ p.0 p.1 bytes at')
    ]
  ]

  short_instruction-lt :
      (b : ℕ) (buf : Buffer) (c c' : Cursor)
      → IsBuffer buf
      → short_instruction cmd b buf c ≡ ok c'
      → c.inst.src_data < 2 ^ 16
      → c'.inst.src_data < 2 ^ 16
  unfolding short_instruction short_written
  short_instruction-lt b buf c c' bytes e h = elim (Bool-cases cmd.is_short_instruction) [
    | inr long ↦ ground (arith, e)
    | inl short ↦
        let (p, at', done) = >>=-inverse (extract_data buf c.ptr true true) _ (simp short at e) in
        ground (arith, done, extract_data-lt buf c.ptr true true p.0 p.1 bytes at')
  ]

  operands-lt :
      (b : ℕ) (buf : Buffer) (c c' : Cursor)
      → IsBuffer buf
      → operands cmd f b buf c ≡ ok c'
      → c.inst.src_data < 2 ^ 16
      → c'.inst.src_data < 2 ^ 16
  unfolding operands
  operands-lt b buf c c' bytes e h =
      let (c1, e1, r1) = >>=-inverse (field_operands cmd f buf c) _ e in
      let (c2, e2, r2) = >>=-inverse (hardcoded_dst cmd f buf c1) _ r1 in
      let (c3, e3, r3) = >>=-inverse (hardcoded_src cmd buf c2) _ r2 in
      let (c4, e4, r4) = >>=-inverse (data_bytes cmd f buf c3) _ r3 in
      short_instruction-lt b buf c4 c' bytes r4 (
        data_bytes-lt buf c3 c4 bytes e4 (
          omega (
            arith,
            field_operands-Keeps buf c c1 e1,
            hardcoded_dst-Keeps buf c1 c2 e2,
            hardcoded_src-Keeps buf c2 c3 e3,
          )))

parse_instruction-lt :
    (cmd : OpcodeBitstream) (b : ℕ) (buf : Buffer) (n : ℕ) (i : DecodedInstruction)
    → IsBuffer buf
    → parse_instruction cmd b buf ≡ ok (n, i)
    → i.src_data < 2 ^ 16
unfolding parse_instruction finish
parse_instruction-lt cmd b buf n i bytes e =
    let (p, e1, r1) = >>=-inverse (read_fields cmd buf b) _ e in
    let (c, e2, r2) = >>=-inverse (operands cmd (force_w p.0) b buf _) _ r1 in
    ground (
      arith,
      r2,
      operands-lt cmd (force_w p.0) b buf _ c bytes e2
          (unfold start start_instruction reset_instruction in omega arith),
    )

find_command-lt :
    (cmds : List OpcodeBitstream) (b : ℕ) (buf : Buffer) (old : DecodedInstruction) (n : ℕ)
    (i : DecodedInstruction)
    → IsBuffer buf
    → old.src_data < 2 ^ 16
    → find_command cmds b buf old ≡ ok (n, i)
    → i.src_data < 2 ^ 16
unfolding find_command
find_command-lt [] b buf old n i bytes h e = ground (arith, e)
find_command-lt (cmd ∷ cmds) b buf old n i bytes h e = elim (Bool-cases (matches cmd b)) [
  | inl hit ↦ parse_instruction-lt cmd b buf n i bytes (simp hit at e)
  | inr miss ↦ find_command-lt cmds b buf old n i bytes h (simp miss at e)
]

-- Over a buffer of bytes, the data of the instruction that decode_bitstream returns is a 16-bit word
-- if that of the instruction it was given is.
pub decode_bitstream-data :
    (buf : Buffer) (old : DecodedInstruction) (n : ℕ) (i : DecodedInstruction)
    → IsBuffer buf
    → old.src_data < 2 ^ 16
    → decode_bitstream buf old ≡ ok (n, i)
    → i.src_data < 2 ^ 16
unfolding decode_bitstream
decode_bitstream-data buf old n i bytes h e =
    let (b, at, found) = >>=-inverse (read_byte buf 0) _ e in
    find_command-lt op_cmds b buf old n i bytes h found
