-- ===== src/Standalone/Regmem.antt =====
-- decoder_8086/decoder.c: process_regmem_tpo_reg_op_inst, MOV, ADD, SUB and CMP between a register and
-- a register or memory, and MOV of a segment register.
use Prim.Native.String.{String}
use computer_enhance.Shared.{
  ℕ, ◌+◌, Bool, true, false, [], ◌∷◌, ◌++◌, Outcome, ok, exit_error, ◌>>=◌, ◌==◌, if◌then◌else◌,
  bit_and, ◌>>◌,
}
use computer_enhance.Decoder.Extract.{Buffer, read_byte}
use computer_enhance.Decoder.Print.{text, number}
use computer_enhance.Standalone.Extract.{
  Line, register_map, segment_register_map, mov_source_effective_address, extract_displacement,
  address_text,
}

abbrev pub mov_regmem_reg_instruction : ℕ
mov_regmem_reg_instruction = 0x22

abbrev pub mov_regmem_to_segment_instruction : ℕ
mov_regmem_to_segment_instruction = 0x8e

abbrev pub mov_segment_to_regmem_instruction : ℕ
mov_segment_to_regmem_instruction = 0x8c

abbrev pub add_regmem_with_reg : ℕ
add_regmem_with_reg = 0x00

abbrev pub sub_regmem_with_reg : ℕ
sub_regmem_with_reg = 0x0a

abbrev pub cmp_regmem_with_reg : ℕ
cmp_regmem_with_reg = 0x0e

-- op and is_segment_op
unfoldable pub regmem_op : ℕ → Outcome (String × Bool)
regmem_op op_type =
    if op_type == mov_regmem_reg_instruction
    then ok ("mov", false)
    else if op_type == mov_regmem_to_segment_instruction
    then ok ("mov", true)
    else if op_type == mov_segment_to_regmem_instruction
    then ok ("mov", true)
    else if op_type == add_regmem_with_reg
    then ok ("add", false)
    else if op_type == sub_regmem_with_reg
    then ok ("sub", false)
    else if op_type == cmp_regmem_with_reg
    then ok ("cmp", false)
    else exit_error

-- The variables that the two bytes set.
pub record Regmem : Type 0 where
  pub op : String
  pub op_type : ℕ
  pub is_segment_op : Bool
  pub bit_d : ℕ
  pub bit_w : ℕ
  pub reg : ℕ
  pub sr : ℕ
  pub r_m : ℕ

-- REG is the destination.
unfoldable pub reg_is_destination : Regmem → Bool
reg_is_destination f =
    if f.is_segment_op then f.op_type == mov_regmem_to_segment_instruction else f.bit_d == 1

-- The operand in REG, or in SR.
unfoldable pub reg_operand : Regmem → String
reg_operand f = if f.is_segment_op then segment_register_map f.sr else register_map f.reg f.bit_w

-- "%s %s, [..]" or "%s [..], %s"
unfoldable pub memory_line : Regmem → Line → Line
memory_line f address =
    if reg_is_destination f
    then (text f.op ∷ text " " ∷ text (reg_operand f) ∷ text ", " ∷ []) ++ address
    else (text f.op ∷ text " " ∷ address) ++ (text ", " ∷ text (reg_operand f) ∷ [])

-- MOD 00. With R/M 110 the address is the source, in a width that follows W.
unfoldable pub no_displacement : Regmem → Buffer → Outcome (ℕ × Line)
unfolding memory_line reg_operand reg_is_destination
no_displacement f buf =
    if f.r_m == 6
    then (do
      (consumed, displacement) ← extract_displacement buf 1 f.bit_w
      ok (
        2 + consumed,
        (text f.op ∷ text " " ∷ text (reg_operand f) ∷ text ", " ∷ [])
            ++ (text "[" ∷ number displacement ∷ text "]" ∷ []),
      ))
    else ok (2, memory_line f (address_text (mov_source_effective_address f.r_m) 0))

-- MOD 01 and 10. A segment operation looks the base up among the registers.
unfoldable pub with_displacement : Regmem → Buffer → ℕ → Outcome (ℕ × Line)
unfolding memory_line reg_operand reg_is_destination
with_displacement f buf is_wide = do
  (consumed, displacement) ← extract_displacement buf 1 is_wide
  let base = if f.is_segment_op then register_map f.r_m 1 else mov_source_effective_address f.r_m
  ok (2 + consumed, memory_line f (address_text base displacement))

-- MOD 11: "%s %s,%s"
unfoldable pub register_line : Regmem → Line
unfolding reg_operand reg_is_destination
register_line f =
    let other = register_map f.r_m (if f.is_segment_op then 1 else f.bit_w) in
    if reg_is_destination f
    then text f.op ∷ text " " ∷ text (reg_operand f) ∷ text "," ∷ text other ∷ []
    else text f.op ∷ text " " ∷ text other ∷ text "," ∷ text (reg_operand f) ∷ []

unfoldable pub regmem_mod : Regmem → Buffer → ℕ → Outcome (ℕ × Line)
unfolding no_displacement with_displacement register_line
regmem_mod f buf mode =
    if mode == 0
    then no_displacement f buf
    else if mode == 1
    then with_displacement f buf 0
    else if mode == 2
    then with_displacement f buf 1
    else ok (2, register_line f)

unfoldable pub regmem_fields : ℕ → String → Bool → ℕ → ℕ → Regmem
regmem_fields op_type op is_segment_op first second = record {
  op = op;
  op_type = op_type;
  is_segment_op = is_segment_op;
  bit_d = if is_segment_op then 0 else bit_and first 2 >> 1;
  bit_w = if is_segment_op then 0 else bit_and first 1;
  reg = if is_segment_op then 0 else bit_and (second >> 3) 7;
  sr = if is_segment_op then bit_and (second >> 3) 3 else 0;
  r_m = bit_and (second >> 0) 7;
}

unfoldable pub process_regmem_tpo_reg_op_inst : Buffer → ℕ → Outcome (ℕ × Line)
unfolding regmem_op regmem_mod regmem_fields
process_regmem_tpo_reg_op_inst buf op_type = do
  (op, is_segment_op) ← regmem_op op_type
  first ← read_byte buf 0
  second ← read_byte buf 1
  regmem_mod (regmem_fields op_type op is_segment_op first second) buf (bit_and (second >> 6) 3)
