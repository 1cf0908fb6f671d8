-- ===== src/Standalone/Operations.antt =====
-- decoder_8086/decoder.c: process_immediate_to_regmem_op_inst, process_immediate_accumulator_op_inst
-- and process_jump_op_inst.
use Prim.Native.String.{String}
use computer_enhance.Shared.{
  ℕ, ◌+◌, List, [], ◌∷◌, ◌++◌, Outcome, ok, exit_error, ◌>>=◌, ◌==◌, if◌then◌else◌, bit_and, ◌>>◌,
}
use computer_enhance.Decoder.Extract.{Buffer, read_byte}
use computer_enhance.Decoder.Print.{text, number}
use computer_enhance.Standalone.Extract.{
  Line, register_map, mov_source_effective_address, extract_displacement, extract_data,
  explicit_extract_data, address_text,
}

-- The operation in the middle field of the second byte.
unfoldable pub selected_op : ℕ → Outcome String
selected_op op_sel =
    if op_sel == 0
    then ok "add"
    else if op_sel == 5
    then ok "sub"
    else if op_sel == 7
    then ok "cmp"
    else exit_error

-- The displacement of the switch over MOD, with the bytes consumed before the data. Its width is
-- that of the data.
unfoldable pub immediate_displacement : Buffer → ℕ → ℕ → ℕ → Outcome (ℕ × ℕ)
immediate_displacement buf mode r_m bit_w =
    if mode == 0
    then (if r_m == 6 then extract_displacement buf 1 bit_w else ok (0, 0))
    else if mode == 3
    then ok (0, 0)
    else extract_displacement buf 1 bit_w

-- "%s [%d]", "%s [%s]" and "%s [%s + %d]" behind the operation, or the register alone with MOD 11
unfoldable pub immediate_destination : ℕ → ℕ → ℕ → ℕ → Line
immediate_destination mode r_m bit_w displacement =
    let data_type = if bit_w == 1 then "word" else "byte" in
    if mode == 3
    then text (register_map r_m bit_w) ∷ []
    else (text data_type
        ∷ text " "
        ∷ (if mode == 0
            then (if r_m == 6
                then text "[" ∷ number displacement ∷ text "]" ∷ []
                else address_text (mov_source_effective_address r_m) 0)
            else address_text (mov_source_effective_address r_m) displacement))

unfoldable pub process_immediate_to_regmem_op_inst : Buffer → Outcome (ℕ × Line)
unfolding immediate_displacement immediate_destination
process_immediate_to_regmem_op_inst buf = do
  first ← read_byte buf 0
  let bit_s = bit_and (first >> 1) 1
  let bit_w = bit_and first 1
  second ← read_byte buf 1
  let mode = bit_and (second >> 6) 3
  let r_m = bit_and (second >> 0) 7
  op ← selected_op (bit_and (second >> 3) 7)
  (consumed, displacement) ← immediate_displacement buf mode r_m bit_w
  (consumed', value) ← explicit_extract_data buf (1 + consumed) bit_s bit_w
  ok (
    2 + consumed + consumed',
    (text op ∷ text " " ∷ immediate_destination mode r_m bit_w displacement)
        ++ (text ", " ∷ number value ∷ []),
  )

abbrev pub add_immediate_to_accumulator : ℕ
add_immediate_to_accumulator = 0x02

abbrev pub sub_immediate_from_accumulator : ℕ
sub_immediate_from_accumulator = 0x16

abbrev pub cmp_immediate_with_accumulator : ℕ
cmp_immediate_with_accumulator = 0x1e

unfoldable pub accumulator_op : ℕ → Outcome String
accumulator_op op_type =
    if op_type == add_immediate_to_accumulator
    then ok "add"
    else if op_type == sub_immediate_from_accumulator
    then ok "sub"
    else if op_type == cmp_immediate_with_accumulator
    then ok "cmp"
    else exit_error

unfoldable pub process_immediate_accumulator_op_inst : Buffer → ℕ → Outcome (ℕ × Line)
unfolding accumulator_op
process_immediate_accumulator_op_inst buf op_type = do
  first ← read_byte buf 0
  let bit_w = bit_and first 1
  op ← accumulator_op op_type
  (consumed, value) ← extract_data buf 0 bit_w
  let reg = if bit_w == 0 then "AL" else "AX"
  ok (1 + consumed, text op ∷ text " " ∷ text reg ∷ text ", " ∷ number value ∷ [])

-- The cases of the switch of process_jump_op_inst, in its order and in that of main.
abbrev pub jump_ops : List (ℕ × String)
jump_ops =
    (0x75, "jnz")
    ∷ (0x74, "je")
    ∷ (0x7c, "jl")
    ∷ (0x7e, "jle")
    ∷ (0x72, "jb")
    ∷ (0x76, "jbe")
    ∷ (0x7a, "jp")
    ∷ (0x70, "jo")
    ∷ (0x78, "js")
    ∷ (0x7d, "jnl")
    ∷ (0x7f, "jg")
    ∷ (0x73, "jnb")
    ∷ (0x77, "ja")
    ∷ (0x7b, "jnp")
    ∷ (0x71, "jno")
    ∷ (0x79, "jns")
    ∷ (0xe2, "loop")
    ∷ (0xe1, "loopz")
    ∷ (0xe0, "loopnz")
    ∷ (0xe3, "jcxz")
    ∷ []

unfoldable pub named_op : List (ℕ × String) → ℕ → Outcome String
named_op [] op_type = exit_error
named_op ((op, name) ∷ ops) op_type = if op_type == op then ok name else named_op ops op_type

unfoldable pub process_jump_op_inst : Buffer → ℕ → Outcome (ℕ × Line)
unfolding named_op
process_jump_op_inst buf op_type = do
  op ← named_op jump_ops op_type
  (consumed, value) ← extract_data buf 0 0
  ok (1 + consumed, text op ∷ text " " ∷ number value ∷ [])
