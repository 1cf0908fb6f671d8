-- ===== src/Runs/Print.antt =====
-- print_decoded_instruction of libdecoder_8086/libdecoder.c on concrete instructions.
use computer_enhance.Shared.{◌≡◌, refl, [], ◌∷◌, ok}
use computer_enhance.Decoder.Types.{
  DecodedInstruction, reset_instruction, mov_inst, type_register, type_effective_address, reg_bp,
  reg_si, reg_cx, eq_register, register_index,
}
use computer_enhance.Decoder.Maps.{instruction_name, register_name}
use computer_enhance.Decoder.Print.{
  text, number, register_label, sign, effective_pieces, dst_pieces, src_pieces, decorator,
  print_decoded_instruction,
}

-- mov [bp + si - 5], cx
abbrev storing : DecodedInstruction
unfolding reset_instruction
storing = record reset_instruction {
  op = mov_inst;
  dst_type = type_effective_address;
  dst_effective_reg1 = reg_bp;
  dst_effective_reg2 = reg_si;
  dst_effective_displacement = 0xfffb;
  src_type = type_register;
  src_register = reg_cx;
}

-- The number, which is shown as -5, stands behind a minus sign.
two_signs :
    print_decoded_instruction storing
    ≡ ok (
        text "mov"
        ∷ text " "
        ∷ text ""
        ∷ text "[ "
        ∷ text "bp"
        ∷ text " + "
        ∷ text "si"
        ∷ text " "
        ∷ text "-"
        ∷ text " "
        ∷ number 0xfffb
        ∷ text " ]"
        ∷ text ", "
        ∷ text ""
        ∷ text "cx"
        ∷ [])
unfolding print_decoded_instruction storing reset_instruction dst_pieces src_pieces effective_pieces
    register_label register_name register_index eq_register sign decorator instruction_name
two_signs = refl
