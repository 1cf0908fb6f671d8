-- ===== src/Decoder/Print.antt =====
-- libdecoder_8086/libdecoder.c: print_decoded_instruction. A line is the pieces that its formats put
-- together: strings, and 16-bit patterns that %d shows as the number of their type in C: `number` is an
-- int16_t, shown as signed, `unsigned` a uint16_t.
use computer_enhance.Shared.{
  ℕ, Bool, ◌==◌, ltb, if◌then◌else◌, List, [], ◌∷◌, ◌++◌, get_elem?, Outcome, ok, exit_error,
  access, ◌>>=◌,
}
use computer_enhance.Decoder.Types.{
  Register, max_reg, eq_register, register_index, OperandType, type_register, type_segment_register,
  type_direct_address, type_effective_address, type_data, max_type, DecodedInstruction,
}
use computer_enhance.Decoder.Maps.{instruction_name, register_name, get_segment_register_name}
use Prim.Native.String.{String}

pub data Piece : Type 0 where
  text : String → Piece
  number : ℕ → Piece
  unsigned : ℕ → Piece

-- register_name[reg]
unfoldable pub register_label : Register → Outcome String
register_label r = access (get_elem? register_name (register_index r))

-- The sign before a displacement: "+", or what stands for a negative one.
unfoldable pub sign : String → ℕ → String
sign negative displacement = if ltb displacement 0x8000 then "+" else negative

-- "[ %s + %s %s %d ]" and its shorter forms.
unfoldable pub effective_pieces : String → Register → Register → ℕ → Outcome (List Piece)
effective_pieces negative reg1 reg2 displacement = do
  name1 ← register_label reg1
  name2 ← register_label reg2
  let base =
      if eq_register reg2 max_reg
      then text "[ " ∷ text name1 ∷ []
      else text "[ " ∷ text name1 ∷ text " + " ∷ text name2 ∷ []
  let offset =
      if displacement == 0
      then []
      else text " " ∷ text (sign negative displacement) ∷ text " " ∷ number displacement ∷ []
  ok (base ++ offset ++ text " ]" ∷ [])

-- dst_buffer. A negative displacement behind two registers gets a minus sign of its own.
unfoldable pub dst_pieces : OperandType → DecodedInstruction → Outcome (List Piece)
dst_pieces type_register i = do name ← register_label i.dst_register; ok (text name ∷ [])
dst_pieces type_segment_register i = ok (text (get_segment_register_name i.dst_seg_register) ∷ [])
dst_pieces type_direct_address i = ok (text "[ " ∷ unsigned i.dst_direct_address ∷ text " ]" ∷ [])
dst_pieces type_effective_address i =
    effective_pieces (if eq_register i.dst_effective_reg2 max_reg then "" else "-")
      i.dst_effective_reg1 i.dst_effective_reg2 i.dst_effective_displacement
dst_pieces _ i = exit_error

-- src_buffer
unfoldable pub src_pieces : OperandType → DecodedInstruction → Outcome (List Piece)
src_pieces type_register i = do name ← register_label i.src_register; ok (text name ∷ [])
src_pieces type_segment_register i = ok (text (get_segment_register_name i.src_seg_register) ∷ [])
src_pieces type_direct_address i = ok (text "[ " ∷ unsigned i.src_direct_address ∷ text " ]" ∷ [])
src_pieces type_effective_address i =
    effective_pieces "" i.src_effective_reg1 i.src_effective_reg2 i.src_effective_displacement
src_pieces type_data i = ok (number i.src_data ∷ [])
src_pieces max_type i = exit_error

-- src_decorator and dst_decorator
unfoldable pub decorator : Bool → Bool → String
decorator needs_byte needs_word = if needs_byte then "byte " else if needs_word then "word " else ""

unfoldable pub print_decoded_instruction : DecodedInstruction → Outcome (List Piece)
print_decoded_instruction i =
    if i.inst_is_short_w_data
    then (do
      name ← access (instruction_name i.op)
      ok (text name ∷ text " " ∷ number i.src_data ∷ []))
    else (do
      dst ← dst_pieces i.dst_type i
      src ← src_pieces i.src_type i
      name ← access (instruction_name i.op)
      let dst_decorator = decorator i.dst_needs_byte_decorator i.dst_needs_word_decorator
      let src_decorator = decorator i.src_needs_byte_decorator i.src_needs_word_decorator
      ok (
          (text name ∷ text " " ∷ text dst_decorator ∷ dst)
          ++ (text ", " ∷ text src_decorator ∷ src)))
