-- ===== src/Decoder/Totality/Stages.antt =====
-- The stages of parse_instruction in libdecoder_8086/libdecoder.c on a buffer with six readable bytes,
-- for the formats of the table.
use computer_enhance.Shared.{
  ℕ, zero, suc, ◌+◌, ◌≤◌, ◌≡◌, refl, Bool, true, false, not, ◌&&◌, ◌||◌, ◌==◌, if◌then◌else◌, some,
  Bool-cases, inl, inr, Outcome, ok, bit_or, ◌<<◌, arith,
}
use computer_enhance.Decoder.Types.{
  OperandType, type_register, type_segment_register, type_direct_address, type_effective_address,
  type_data, max_type, DecodedInstruction,
}
use computer_enhance.Decoder.Bitstream.Format.{OpcodeBitstream}
use computer_enhance.Decoder.Extract.{
  Buffer, extract_displacement, extract_direct_address, extract_data,
}
use computer_enhance.Decoder.Fields.{Fields}
use computer_enhance.Decoder.Modes.{
  Cursor, direct_mode, direct_operands, displaced_mode, mod_operands, field_operands,
  memory_operands, register_mode,
}
use computer_enhance.Decoder.Parse.{
  is_dst_16bit, hardcoded_operand, hardcoded_dst, hardcoded_src, DataFormat, signed_format,
  width_format, data_format, data_value, data_bytes, short_instruction,
}

-- The first six bytes can be read.
abbrev pub HasBytes : Buffer → Type 0
HasBytes buf = (i : ℕ) → i ≤ 5 → (b : ℕ) × (buf i ≡ some b)

-- is_dst_16bit accepts the destination.
abbrev pub has_dst : OperandType → Bool
has_dst type_register = true
has_dst type_segment_register = true
has_dst type_direct_address = true
has_dst type_effective_address = true
has_dst type_data = false
has_dst max_type = false

-- A destination is set if the flag says so.
abbrev pub Known : Bool → Cursor → Type 0
Known b c = b ≡ true → has_dst c.inst.dst_type ≡ true

abbrev pub Returns : Bool → Outcome Cursor → Type 0
Returns known o = (c : Cursor) × (o ≡ ok c) × Known known c

extract_displacement-total :
    (buf : Buffer) (ptr : ℕ) (w : Bool)
    → HasBytes buf
    → ptr + 2 ≤ 5
    → (p : ℕ × ℕ) × (extract_displacement buf ptr w ≡ ok p)
unfolding extract_displacement
extract_displacement-total buf ptr false bytes room =
    let (b, at) = bytes (ptr + 1) (omega arith) in rw at (_, refl)
extract_displacement-total buf ptr true bytes room =
    let (b, at) = bytes (ptr + 1) (omega arith) in
    let (b', at') = bytes (ptr + 2) (omega arith) in rw (at, at') (_, refl)

extract_direct_address-total :
    (buf : Buffer) (ptr : ℕ)
    → HasBytes buf
    → ptr + 2 ≤ 5
    → (p : ℕ × ℕ) × (extract_direct_address buf ptr ≡ ok p)
unfolding extract_direct_address
extract_direct_address-total buf ptr bytes room =
    let (b, at) = bytes (ptr + 1) (omega arith) in
    let (b', at') = bytes (ptr + 2) (omega arith) in rw (at, at') (_, refl)

extract_data-total :
    (buf : Buffer) (ptr : ℕ) (is_8bit is_signed : Bool)
    → HasBytes buf
    → ptr + 2 ≤ 5
    → (p : ℕ × ℕ) × (extract_data buf ptr is_8bit is_signed ≡ ok p)
unfolding extract_data
extract_data-total buf ptr true s bytes room =
    let (b, at) = bytes (ptr + 1) (omega arith) in rw at (_, refl)
extract_data-total buf ptr false s bytes room =
    let (b, at) = bytes (ptr + 1) (omega arith) in
    let (b', at') = bytes (ptr + 2) (omega arith) in rw (at, at') (_, refl)

is_dst_16bit-total :
    (i : DecodedInstruction)
    → has_dst i.dst_type ≡ true
    → (wide : Bool) × (is_dst_16bit i.dst_type i.dst_register ≡ ok wide)
unfolding is_dst_16bit
is_dst_16bit-total i h = go i.dst_type h
  where
    go :
        (t : OperandType)
        → has_dst t ≡ true
        → (wide : Bool) × (is_dst_16bit t i.dst_register ≡ ok wide)
    go type_register h = (_, refl)
    go type_segment_register h = (_, refl)
    go type_direct_address h = (_, refl)
    go type_effective_address h = (_, refl)
    go type_data h = absurd (cc)
    go max_type h = absurd (cc)

sw_bits : (s w : ℕ) → s ≤ 1 → w ≤ 1 → bit_or (s << 1) w ≤ 3
sw_bits zero zero hs hw = omega arith
sw_bits zero (suc zero) hs hw = omega arith
sw_bits (suc zero) zero hs hw = omega arith
sw_bits (suc zero) (suc zero) hs hw = omega arith
sw_bits zero (suc (suc w)) hs hw = absurd (omega arith)
sw_bits (suc zero) (suc (suc w)) hs hw = absurd (omega arith)
sw_bits (suc (suc s)) w hs hw = absurd (omega arith)

signed_format-total :
    (sw : ℕ) (i : DecodedInstruction)
    → sw ≤ 3
    → has_dst i.dst_type ≡ true
    → (format : DataFormat) × (signed_format sw i ≡ ok format)
unfolding signed_format
signed_format-total zero i hs h = let (wide, e) = is_dst_16bit-total i h in rw e (_, refl)
signed_format-total (suc zero) i hs h = (_, refl)
signed_format-total (suc (suc zero)) i hs h = (_, refl)
signed_format-total (suc (suc (suc zero))) i hs h =
    let (wide, e) = is_dst_16bit-total i h in rw e (_, refl)
signed_format-total (suc (suc (suc (suc sw)))) i hs h = absurd (omega arith)

width_format-total :
    (w : ℕ) (i : DecodedInstruction)
    → has_dst i.dst_type ≡ true
    → (format : DataFormat) × (width_format w i ≡ ok format)
unfolding width_format
width_format-total w i h = elim (Bool-cases (w == 1)) [
  | inl wide ↦ rw wide (_, refl)
  | inr narrow ↦ let (wide, e) = is_dst_16bit-total i h in rw (narrow, e) (_, refl)
]

data_format-total :
    (f : Fields) (i : DecodedInstruction)
    → (f.s_bit ≤ 1) × (f.w_bit ≤ 1)
    → has_dst i.dst_type ≡ true
    → (format : DataFormat) × (data_format f i ≡ ok format)
unfolding data_format
data_format-total f i bits h = elim (Bool-cases f.has_s_bit) [
  | inl s ↦ simp s (signed_format-total _ i (sw_bits f.s_bit f.w_bit bits.0 bits.1) h)
  | inr s ↦ simp s (width_format-total f.w_bit i h)
]

module _ (cmd : OpcodeBitstream) (f : Fields) where
  -- The fields name a destination for the data.
  abbrev pub fields_name_dst : Bool
  fields_name_dst =
      cmd.op_has_data_bytes
      && (if f.has_mod then f.has_sr || f.has_d_bit || not f.has_reg else f.has_reg && f.has_w_bit)

  memory_operands-has_dst :
      (d : ℕ) (i : DecodedInstruction)
      → f.has_mod ≡ true
      → fields_name_dst ≡ true
      → has_dst (memory_operands cmd f d i).dst_type ≡ true
  unfolding memory_operands
  memory_operands-has_dst d i m h = ground arith

  register_mode-has_dst : (i : DecodedInstruction) → has_dst (register_mode cmd f i).dst_type ≡ true
  unfolding register_mode
  register_mode-has_dst i = ground arith

  direct_operands-has_dst :
      (a : ℕ) (i : DecodedInstruction) → has_dst (direct_operands cmd f a i).dst_type ≡ true
  unfolding direct_operands
  direct_operands-has_dst a i = ground arith

  module _ (buf : Buffer) (bytes : HasBytes buf) (c : Cursor) where
    displaced_mode-total :
        (w : Bool)
        → f.has_mod ≡ true
        → c.ptr + 2 ≤ 5
        → Returns fields_name_dst (displaced_mode cmd f buf w c)
    unfolding displaced_mode
    displaced_mode-total w m room =
        let (p, e) = extract_displacement-total buf c.ptr w bytes room in
        rw e (_, refl, λ h. memory_operands-has_dst p.1 c.inst m h)

    direct_mode-total : c.ptr + 2 ≤ 5 → Returns fields_name_dst (direct_mode cmd f buf c)
    unfolding direct_mode
    direct_mode-total room =
        let (p, e) = extract_direct_address-total buf c.ptr bytes room in
        rw e (_, refl, λ h. direct_operands-has_dst p.1 c.inst)

    if-Returns :
        (b known : Bool) {s t : Outcome Cursor}
        → Returns known s
        → Returns known t
        → Returns known (if b then s else t)
    if-Returns true known hs ht = hs
    if-Returns false known hs ht = ht

    mod_operands-total :
        f.has_mod ≡ true → c.ptr + 2 ≤ 5 → Returns fields_name_dst (mod_operands cmd f buf c)
    unfolding mod_operands
    mod_operands-total m room =
        if-Returns (f.mod_field == 0) _
          (if-Returns (f.rm_field == 6) _ (direct_mode-total room)
            (_, refl, λ h. memory_operands-has_dst 0 c.inst m h))
          (if-Returns (f.mod_field == 1) _ (displaced_mode-total false m room) (
            if-Returns (f.mod_field == 2) _ (displaced_mode-total true m room)
              (_, refl, λ h. register_mode-has_dst c.inst)))

    pub field_operands-total :
        (f.has_mod ≡ true → f.has_rm ≡ true)
        → c.ptr + (if f.has_mod then 2 else 0) ≤ 5
        → Returns fields_name_dst (field_operands cmd f buf c)
    unfolding field_operands
    field_operands-total rm room = elim (Bool-cases f.has_mod) [
      | inl m ↦ let t = mod_operands-total m (rw m at room) in simp (m, rm m) (simp m at t)
      | inr m ↦ elim (Bool-cases (f.has_reg && f.has_w_bit)) [
        | inl r ↦ rw (m, r) (_, refl, λ h. refl)
        | inr r ↦ rw (m, r) (c, refl, λ h. ground arith)
      ]
    ]

    pub hardcoded_dst-total :
        (known : Bool)
        → Known known c
        → c.ptr
            + (if cmd.op_has_hardcoded_dst then (if cmd.op_has_address_bytes then 2 else 0) else 0)
          ≤ 5
        → Returns (known || cmd.op_has_hardcoded_dst) (hardcoded_dst cmd f buf c)
    unfolding hardcoded_dst hardcoded_operand
    hardcoded_dst-total known k room = elim (Bool-cases cmd.op_has_hardcoded_dst) [
      | inl hard ↦ elim (Bool-cases cmd.op_has_address_bytes) [
        | inl wide ↦
            let (p, e) = extract_direct_address-total buf c.ptr bytes (rw (hard, wide) at room) in
            rw (hard, wide, e) (_, refl, λ h. refl)
        | inr short ↦ rw (hard, short) (_, refl, λ h. ground arith)
      ]
      | inr soft ↦ rw soft (c, refl, λ h. k (ground arith))
    ]

    pub hardcoded_src-total :
        (known : Bool)
        → Known known c
        → c.ptr + (if cmd.op_has_hardcoded_src && cmd.op_has_address_bytes then 2 else 0) ≤ 5
        → Returns known (hardcoded_src cmd buf c)
    unfolding hardcoded_src
    hardcoded_src-total known k room =
        elim (Bool-cases (cmd.op_has_hardcoded_src && cmd.op_has_address_bytes)) [
          | inl hard ↦
              let (p, e) = extract_direct_address-total buf c.ptr bytes (rw hard at room) in
              rw (hard, e) (_, refl, λ h. refl)
          | inr soft ↦ rw soft (c, refl, k)
        ]

    pub data_bytes-total :
        (known : Bool)
        → Known known c
        → (f.s_bit ≤ 1) × (f.w_bit ≤ 1)
        → (cmd.op_has_data_bytes ≡ true → (f.has_w_bit ≡ true) × (known ≡ true))
        → c.ptr + (if cmd.op_has_data_bytes then 2 else 0) ≤ 5
        → Returns false (data_bytes cmd f buf c)
    unfolding data_bytes data_value
    data_bytes-total known k bits needs room = elim (Bool-cases cmd.op_has_data_bytes) [
      | inl data' ↦
          let (w, known') = needs data' in
          let (format, e) = data_format-total f c.inst bits (k known') in
          let (p, e') =
            extract_data-total buf c.ptr format.is_8bit format.is_signed_extended bytes
              (rw data' at room) in
          simp (data', w, e, e') (_, refl, λ h. cc)
      | inr none' ↦ rw none' (c, refl, λ h. cc)
    ]

    pub short_instruction-total :
        (first_byte : ℕ)
        → c.ptr + (if cmd.is_short_instruction then 2 else 0) ≤ 5
        → Returns false (short_instruction cmd first_byte buf c)
    unfolding short_instruction
    short_instruction-total b room = elim (Bool-cases cmd.is_short_instruction) [
      | inl short ↦
          let (p, e) = extract_data-total buf c.ptr true true bytes (rw short at room) in
          rw (short, e) (_, refl, λ h. cc)
      | inr long ↦ rw long (c, refl, λ h. cc)
    ]
