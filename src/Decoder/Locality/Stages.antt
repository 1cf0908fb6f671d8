-- ===== src/Decoder/Locality/Stages.antt =====
-- The stages of parse_instruction in libdecoder_8086/libdecoder.c: the bytes that each reads.
use computer_enhance.Shared.{
  ℕ, ◌+◌, ◌≤◌, ◌≡◌, Bool, true, false, ◌&&◌, ◌==◌, if◌then◌else◌, Outcome, ok, exit_error, ◌>>=◌,
  >>=-inverse, arith,
}
use computer_enhance.Decoder.Bitstream.Format.{OpcodeBitstream}
use computer_enhance.Decoder.Extract.{
  Buffer, extract_displacement, extract_direct_address, extract_data,
}
use computer_enhance.Decoder.Types.{DecodedInstruction}
use computer_enhance.Decoder.Maps.{register_map}
use computer_enhance.Decoder.Fields.{Fields}
use computer_enhance.Decoder.Modes.{
  Cursor, direct_mode, displaced_mode, mod_operands, memory_operands, direct_operands, advance,
  register_mode, dst_is_register, src_is_register, dst_is_direct, src_is_direct, src_is_data,
  field_operands,
}
use computer_enhance.Decoder.Parse.{
  hardcoded_dst, hardcoded_src, data_bytes, short_instruction, short_written, hardcoded_operand,
  operands, data_format, data_value, data_written,
}
use computer_enhance.Decoder.Locality.Extracted.{
  SameUpTo, ReadsUpTo, TakesAtMostTwo, extract_displacement-ReadsUpTo,
  extract_direct_address-ReadsUpTo, extract_data-ReadsUpTo, extract_displacement-TakesAtMostTwo,
  extract_direct_address-TakesAtMostTwo, extract_data-TakesAtMostTwo,
}

-- The cursor moves by at most `room` bytes, `ptr` and `consumed_bytes` together.
abbrev pub MovesBy : ℕ → Cursor → Cursor → Type 0
MovesBy room c c' =
    (c.ptr ≤ c'.ptr)
    × (c'.ptr ≤ c.ptr + room)
    × (c'.consumed_bytes + c.ptr ≡ c.consumed_bytes + c'.ptr)

-- A stage that returned returns the same from any buffer with the same bytes up to the new cursor.
abbrev pub IsLocal : ℕ → (Buffer → Cursor → Outcome Cursor) → Type 0
IsLocal room stage =
    (buf : Buffer) (c c' : Cursor)
    → stage buf c ≡ ok c'
    → MovesBy room c c' × ((buf' : Buffer) → SameUpTo c'.ptr buf buf' → stage buf' c ≡ ok c')

-- A stage that extracts one value and writes it into the instruction.
extract-IsLocal :
    (extract : Buffer → ℕ → Outcome (ℕ × ℕ))
    → ReadsUpTo extract
    → TakesAtMostTwo extract
    → (write : Cursor → ℕ → DecodedInstruction)
    → IsLocal 2 (λ buf c. extract buf c.ptr >>= λ p. ok (advance c p.0 (write c p.1)))
extract-IsLocal extract reads takes write buf c c' e =
    let (p, read, done) = >>=-inverse (extract buf c.ptr) _ e in
    let moved : c'.ptr ≡ c.ptr + p.0 = ground (arith, done) in
    let counted : c'.consumed_bytes ≡ c.consumed_bytes + p.0 = ground (arith, done) in
    (
      omega (arith, moved, counted, takes buf c.ptr p.0 p.1 read),
      λ buf' same.
          rw (reads buf buf' c.ptr p.0 p.1 read (λ i h. same i (omega (arith, moved)))) done,
    )

-- A stage that reads nothing.
stay-IsLocal :
    (room : ℕ) (write : Cursor → DecodedInstruction)
    → IsLocal room (λ buf c. ok (record c { inst = write c }))
stay-IsLocal room write buf c c' e = (ground arith, λ buf' same. e)

exit-IsLocal : (room : ℕ) → IsLocal room (λ buf c. exit_error)
exit-IsLocal room buf c c' e = absurd (cc)

if-IsLocal :
    (b : Bool) (m n : ℕ) (s t : Buffer → Cursor → Outcome Cursor)
    → IsLocal m s
    → IsLocal n t
    → IsLocal (if b then m else n) (λ buf c. if b then s buf c else t buf c)
if-IsLocal true m n s t hs ht = hs
if-IsLocal false m n s t hs ht = ht

-- Both branches in the same room.
either-IsLocal :
    (b : Bool) (room : ℕ) (s t : Buffer → Cursor → Outcome Cursor)
    → IsLocal room s
    → IsLocal room t
    → IsLocal room (λ buf c. if b then s buf c else t buf c)
either-IsLocal true room s t hs ht = hs
either-IsLocal false room s t hs ht = ht

-- A stage that first computes something from the cursor, without the buffer.
prepared-IsLocal :
    {X : Type 0} (room : ℕ) (prepare : Cursor → Outcome X)
    (t : X → Buffer → Cursor → Outcome Cursor)
    → ((x : X) → IsLocal room (t x))
    → IsLocal room (λ buf c. prepare c >>= λ x. t x buf c)
prepared-IsLocal room prepare t ht buf c c' e =
    let (x, first, second) = >>=-inverse (prepare c) (λ x. t x buf c) e in
    let (moved, alike) = ht x buf c c' second in (moved, λ buf' same. rw first (alike buf' same))

-- One stage after the other.
pub seq-IsLocal :
    (m n : ℕ) (s t : Buffer → Cursor → Outcome Cursor)
    → IsLocal m s
    → IsLocal n t
    → IsLocal (m + n) (λ buf c. s buf c >>= t buf)
seq-IsLocal m n s t hs ht buf c c' e =
    let (mid, first, second) = >>=-inverse (s buf c) (t buf) e in
    let (moved, alike) = hs buf c mid first in
    let (moved', alike') = ht buf mid c' second in
    (
      omega (arith, moved, moved'),
      λ buf' same. rw (alike buf' (λ i h. same i (omega (arith, moved')))) (alike' buf' same),
    )

module _ (cmd : OpcodeBitstream) (f : Fields) where
  displaced_mode-IsLocal : (w : Bool) → IsLocal 2 (λ buf c. displaced_mode cmd f buf w c)
  unfolding displaced_mode
  displaced_mode-IsLocal w =
      extract-IsLocal (λ buf ptr. extract_displacement buf ptr w) (extract_displacement-ReadsUpTo w)
        (extract_displacement-TakesAtMostTwo w) (λ c d. memory_operands cmd f d c.inst)

  direct_mode-IsLocal : IsLocal 2 (λ buf c. direct_mode cmd f buf c)
  unfolding direct_mode
  direct_mode-IsLocal =
      extract-IsLocal extract_direct_address extract_direct_address-ReadsUpTo
        extract_direct_address-TakesAtMostTwo (λ c address. direct_operands cmd f address c.inst)

  mod_operands-IsLocal : IsLocal 2 (λ buf c. mod_operands cmd f buf c)
  unfolding mod_operands
  mod_operands-IsLocal =
      either-IsLocal (f.mod_field == 0) 2 _ _
        (either-IsLocal (f.rm_field == 6) 2 _ _ direct_mode-IsLocal
          (stay-IsLocal 2 (λ c. memory_operands cmd f 0 c.inst)))
        (either-IsLocal (f.mod_field == 1) 2 _ _ (displaced_mode-IsLocal false) (
          either-IsLocal (f.mod_field == 2) 2 _ _ (displaced_mode-IsLocal true)
            (stay-IsLocal 2 (λ c. register_mode cmd f c.inst))))

  pub field_operands-IsLocal :
      IsLocal (if f.has_mod then 2 else 0) (λ buf c. field_operands cmd f buf c)
  unfolding field_operands
  field_operands-IsLocal =
      if-IsLocal f.has_mod 2 0 _ _
        (either-IsLocal f.has_rm 2 _ _ mod_operands-IsLocal (exit-IsLocal 2))
        (either-IsLocal (f.has_reg && f.has_w_bit) 0 _ _
          (stay-IsLocal 0
            (λ c. src_is_data (dst_is_register (register_map f.reg_field f.w_bit) c.inst)))
          (stay-IsLocal 0 (λ c. c.inst)))

  pub hardcoded_dst-IsLocal :
      IsLocal
        (if cmd.op_has_hardcoded_dst then (if cmd.op_has_address_bytes then 2 else 0) else 0)
        (λ buf c. hardcoded_dst cmd f buf c)
  unfolding hardcoded_dst
  hardcoded_dst-IsLocal =
      if-IsLocal cmd.op_has_hardcoded_dst _ 0 _ _
        (if-IsLocal cmd.op_has_address_bytes 2 0 _ _
          (extract-IsLocal extract_direct_address extract_direct_address-ReadsUpTo
            extract_direct_address-TakesAtMostTwo
            (λ c address. src_is_direct address (hardcoded_operand cmd f c.inst)))
          (stay-IsLocal 0 (λ c.
            if cmd.op_has_data_bytes
            then src_is_data (hardcoded_operand cmd f c.inst)
            else hardcoded_operand cmd f c.inst)))
        (stay-IsLocal 0 (λ c. c.inst))

  pub hardcoded_src-IsLocal :
      IsLocal
        (if cmd.op_has_hardcoded_src && cmd.op_has_address_bytes then 2 else 0)
        (λ buf c. hardcoded_src cmd buf c)
  unfolding hardcoded_src
  hardcoded_src-IsLocal =
      if-IsLocal (cmd.op_has_hardcoded_src && cmd.op_has_address_bytes) 2 0 _ _
        (extract-IsLocal extract_direct_address extract_direct_address-ReadsUpTo
          extract_direct_address-TakesAtMostTwo
          (λ c address. dst_is_direct address (src_is_register cmd.hard_src_reg c.inst)))
        (stay-IsLocal 0 (λ c. c.inst))

  pub data_bytes-IsLocal :
      IsLocal (if cmd.op_has_data_bytes then 2 else 0) (λ buf c. data_bytes cmd f buf c)
  unfolding data_bytes data_value
  data_bytes-IsLocal =
      if-IsLocal cmd.op_has_data_bytes 2 0 _ _
        (either-IsLocal f.has_w_bit 2 _ _
          (prepared-IsLocal 2 (λ c. data_format f c.inst) (data_value)
            (λ format.
              extract-IsLocal
                (λ buf ptr. extract_data buf ptr format.is_8bit format.is_signed_extended)
                (extract_data-ReadsUpTo format.is_8bit format.is_signed_extended)
                (extract_data-TakesAtMostTwo format.is_8bit format.is_signed_extended)
                (λ c value. data_written value format.inst)))
          (exit-IsLocal 2))
        (stay-IsLocal 0 (λ c. c.inst))

  pub short_instruction-IsLocal :
      (first_byte : ℕ)
      → IsLocal
          (if cmd.is_short_instruction then 2 else 0)
          (λ buf c. short_instruction cmd first_byte buf c)
  unfolding short_instruction
  short_instruction-IsLocal first_byte =
      if-IsLocal cmd.is_short_instruction 2 0 _ _
        (extract-IsLocal (λ buf ptr. extract_data buf ptr true true)
          (extract_data-ReadsUpTo true true) (extract_data-TakesAtMostTwo true true)
          (λ c value. short_written first_byte value c.inst))
        (stay-IsLocal 0 (λ c. c.inst))

  -- The bytes that the operands may take, by the format of the instruction.
  abbrev pub operand_room : ℕ
  operand_room =
      (if f.has_mod then 2 else 0)
      + ((if cmd.op_has_hardcoded_dst then (if cmd.op_has_address_bytes then 2 else 0) else 0)
          + ((if cmd.op_has_hardcoded_src && cmd.op_has_address_bytes then 2 else 0)
              + ((if cmd.op_has_data_bytes then 2 else 0)
                  + (if cmd.is_short_instruction then 2 else 0))))

  pub operands-IsLocal :
      (first_byte : ℕ) → IsLocal operand_room (λ buf c. operands cmd f first_byte buf c)
  unfolding operands
  operands-IsLocal first_byte = seq-IsLocal _ _ _ _ field_operands-IsLocal (
      seq-IsLocal _ _ _ _ hardcoded_dst-IsLocal (
        seq-IsLocal _ _ _ _ hardcoded_src-IsLocal
          (seq-IsLocal _ _ _ _ data_bytes-IsLocal (short_instruction-IsLocal first_byte))))
