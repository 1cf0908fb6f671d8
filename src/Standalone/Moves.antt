-- ===== src/Standalone/Moves.antt =====
-- decoder_8086/decoder.c: process_mov_accumulator_inst, process_mov_immediate_to_register_memory and
-- process_mov_immediate_to_register. Each returns the bytes consumed with the line that OUTPUT writes.
use Prim.Native.String.{String}
use computer_enhance.Shared.{
  ℕ, ◌+◌, [], ◌∷◌, ◌++◌, Outcome, ok, ◌>>=◌, ◌==◌, if◌then◌else◌, bit_and, ◌>>◌,
}
use computer_enhance.Decoder.Extract.{Buffer, read_byte, join_bytes}
use computer_enhance.Decoder.Print.{text, number}
use computer_enhance.Standalone.Extract.{
  Line, register_map, mov_source_effective_address, extract_displacement, extract_data,
  address_text,
}

-- MOV_MEMORY_TO_ACCUMULATOR and MOV_ACCUMULATOR_TO_MEMORY
abbrev pub mov_memory_to_accumulator : ℕ
mov_memory_to_accumulator = 0x50

abbrev pub mov_accumulator_to_memory : ℕ
mov_accumulator_to_memory = 0x51

unfoldable pub accumulator_line : ℕ → ℕ → Line
accumulator_line op_type address =
    if op_type == mov_memory_to_accumulator
    then text "mov ax, [ " ∷ number address ∷ text " ]" ∷ []
    else text "mov [ " ∷ number address ∷ text " ], ax" ∷ []

unfoldable pub process_mov_accumulator_inst : Buffer → ℕ → Outcome (ℕ × Line)
unfolding accumulator_line
process_mov_accumulator_inst buf op_type = do
  first ← read_byte buf 0
  address_low ← read_byte buf 1
  if bit_and first 1 == 1
      then (do
        address_high ← read_byte buf 2
        ok (3, accumulator_line op_type (join_bytes address_high address_low)))
      else ok (2, accumulator_line op_type (join_bytes 0 address_low))

-- "mov %s, %s %d", where the destination stands in brackets
unfoldable pub mov_immediate_line : Line → String → ℕ → Line
mov_immediate_line destination data_type value =
    (text "mov" ∷ text " " ∷ destination)
    ++ (text ", " ∷ text data_type ∷ text " " ∷ number value ∷ [])

-- The displacement of the switch over MOD, with the bytes consumed before the data. Its width is
-- that of the data.
unfoldable pub mov_displacement : Buffer → ℕ → ℕ → ℕ → Outcome (ℕ × ℕ)
mov_displacement buf mode r_m bit_w =
    if mode == 0
    then (if r_m == 6 then extract_displacement buf 1 bit_w else ok (0, 0))
    else if mode == 3
    then ok (0, 0)
    else extract_displacement buf 1 bit_w

unfoldable pub mov_destination : ℕ → ℕ → ℕ → String
mov_destination mode r_m bit_w =
    if mode == 3 then register_map r_m bit_w else mov_source_effective_address r_m

-- "word" is set with MOD 10 and 11 only.
unfoldable pub mov_data_type : ℕ → ℕ → String
mov_data_type mode bit_w =
    if mode == 2
    then (if bit_w == 1 then "word" else "byte")
    else if mode == 3
    then (if bit_w == 1 then "word" else "byte")
    else "byte"

unfoldable pub process_mov_immediate_to_register_memory : Buffer → Outcome (ℕ × Line)
unfolding mov_displacement mov_destination mov_data_type mov_immediate_line
process_mov_immediate_to_register_memory buf = do
  first ← read_byte buf 0
  let bit_w = bit_and first 1
  second ← read_byte buf 1
  let mode = bit_and (second >> 6) 3
  let r_m = bit_and (second >> 0) 7
  (consumed, displacement) ← mov_displacement buf mode r_m bit_w
  (consumed', value) ← extract_data buf (1 + consumed) bit_w
  let destination = address_text (mov_destination mode r_m bit_w) displacement
  ok (2 + consumed + consumed', mov_immediate_line destination (mov_data_type mode bit_w) value)

unfoldable pub process_mov_immediate_to_register : Buffer → Outcome (ℕ × Line)
process_mov_immediate_to_register buf = do
  first ← read_byte buf 0
  let bit_w = bit_and (first >> 3) 1
  let reg_str = register_map (bit_and first 7) bit_w
  (consumed, value) ← extract_data buf 0 bit_w
  ok (1 + consumed, text "mov" ∷ text " " ∷ text reg_str ∷ text "," ∷ number value ∷ [])
