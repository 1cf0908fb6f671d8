-- ===== src/Runs/Encode.antt =====
-- Encodings of single instructions, as the decoder of libdecoder_8086/libdecoder.c reads them.
use computer_enhance.Shared.{◌≡◌, refl, true, false, List, [], ◌∷◌, get_elem?, some, ok, arith}
use computer_enhance.Decoder.Encoding.Forms.{
  Form, register_memory, immediate, jump, program_bytes, form_bytes, form_line, form_size,
  operation_text,
}
use computer_enhance.Decoder.Disassemble.{disassemble_file}
use computer_enhance.Decoder.Disassemble.Programs.{AllEncoded, program_text, disassemble-program}
use computer_enhance.Decoder.Print.{text, number}
use computer_enhance.Decoder.Printing.{line_text}
use computer_enhance.Decoder.Types.{reset_instruction, mov_inst, reg_al, reg_ax}
use computer_enhance.Decoder.Encoding.Manual.{
  b000, b010, b011, b110, displaced8, absolute, Operand, direct, register, two_operand, short,
  extended, instruction, based, word_register,
}
use computer_enhance.Decoder.Encoding.RegisterMemory
use computer_enhance.Decoder.Encoding.Decodes.{Decodes, DecodesSized, size_words}
use computer_enhance.Decoder.Encoding.RegisterMemory.{
  to_register, mov_r16_rm16, mov_rm16_r16, add_rm16_r16, register_memory_bytes,
  register_memory_line, register_memory-Decodes, absolute_store-swapped,
}
use computer_enhance.Decoder.Encoding.Immediate.{
  cmp_rm16_imm8, width, immediate_bytes, immediate_line, size_of, immediate-Decodes,
}
use computer_enhance.Decoder.Encoding.Accumulator.{
  load_immediate, store_accumulator, short_bytes, short_line, short-Decodes, store_byte-widened,
}
use computer_enhance.Decoder.Encoding.Jumps.{loop, opcode, operation, jump-Decodes}
use computer_enhance.Decoder.Encoding.Segment.{
  mov_ds_rm16, to_segment, segment_bytes, segment_line, segment-Decodes,
}

-- mov dx, [bp - 3]
register_memory-Decodes_example :
    Decodes
      (register_memory_bytes mov_r16_rm16 b010 (displaced8 b110 0xfd))
      (0x90 ∷ [])
      reset_instruction
      (register_memory_line mov_r16_rm16 b010 (displaced8 b110 0xfd))
register_memory-Decodes_example =
    register_memory-Decodes mov_r16_rm16 b010 (displaced8 b110 0xfd) (0x90 ∷ []) reset_instruction
      (omega arith) tt

-- mov [1000], ax through the long form
absolute_store-swapped_example :
    (dst src : Operand) × (register_memory_line mov_rm16_r16 b000 (absolute 1000)
      ≡ two_operand (instruction (RegisterMemory.operation mov_rm16_r16)) dst src)
    × Decodes
        (register_memory_bytes mov_rm16_r16 b000 (absolute 1000))
        []
        reset_instruction
        (two_operand (instruction (RegisterMemory.operation mov_rm16_r16)) src dst)
absolute_store-swapped_example =
    absolute_store-swapped mov_rm16_r16 b000 1000 [] reset_instruction (unfold to_register in refl)
      (omega arith)

-- cmp word [1000], -1
immediate-Decodes_example :
    DecodesSized
      (immediate_bytes cmp_rm16_imm8 (absolute 1000) 0xff)
      []
      reset_instruction
      (immediate_line cmp_rm16_imm8 (absolute 1000) 0xff)
      (size_of cmp_rm16_imm8 (absolute 1000))
immediate-Decodes_example =
    immediate-Decodes cmp_rm16_imm8 (absolute 1000) 0xff [] reset_instruction (omega arith)
      (unfold width in omega arith)

-- mov bx, 1000
short-Decodes_example :
    Decodes
      (short_bytes (load_immediate true b011 1000))
      []
      reset_instruction
      (short_line (load_immediate true b011 1000))
short-Decodes_example =
    short-Decodes (load_immediate true b011 1000) [] reset_instruction (omega arith)

-- mov [1000], al
store_byte-widened_example :
    (short_line (store_accumulator false 1000)
      ≡ two_operand mov_inst (direct 1000) (register reg_al))
    × Decodes
        (short_bytes (store_accumulator false 1000))
        []
        reset_instruction
        (two_operand mov_inst (direct 1000) (register reg_ax))
store_byte-widened_example = store_byte-widened 1000 [] reset_instruction (omega arith)

-- loop -2
jump-Decodes_example :
    Decodes (opcode loop ∷ 0xfe ∷ []) [] reset_instruction (short (operation loop) (extended 0xfe))
jump-Decodes_example = jump-Decodes loop 0xfe [] reset_instruction (omega arith)

-- mov ds, [1000]
segment-Decodes_example :
    Decodes
      (segment_bytes mov_ds_rm16 (absolute 1000))
      []
      reset_instruction
      (segment_line mov_ds_rm16 (absolute 1000))
segment-Decodes_example =
    segment-Decodes mov_ds_rm16 (absolute 1000) [] reset_instruction (omega arith)
      (unfold to_segment in refl)

-- mov [bp + di], dx, then cmp word [bp + 2], 5, then loop -4.
abbrev three_forms : List Form
three_forms =
    register_memory mov_rm16_r16 b010 (displaced8 b011 0)
    ∷ immediate cmp_rm16_imm8 (displaced8 b110 2) 5
    ∷ jump loop 0xfc
    ∷ []

three_forms-AllEncoded : AllEncoded three_forms
unfolding width
three_forms-AllEncoded = ((omega arith, tt), ((omega arith, omega arith), (omega arith, tt)))

disassemble-program_example :
    disassemble_file (get_elem? []) reset_instruction (program_bytes three_forms)
    ≡ some (ok (program_text three_forms))
unfolding form_bytes register_memory_bytes immediate_bytes
disassemble-program_example =
    disassemble-program three_forms (get_elem? []) reset_instruction three_forms-AllEncoded
      (omega arith)

three_lines :
    program_text three_forms
    ≡ (text "mov"
        ∷ text " "
        ∷ text ""
        ∷ text "[ "
        ∷ text "bp"
        ∷ text " + "
        ∷ text "di"
        ∷ text " ]"
        ∷ text ", "
        ∷ text ""
        ∷ text "dx"
        ∷ [])
      ∷ (text "cmp"
          ∷ text " "
          ∷ text "word "
          ∷ text "[ "
          ∷ text "bp"
          ∷ text " "
          ∷ text "+"
          ∷ text " "
          ∷ number 2
          ∷ text " ]"
          ∷ text ", "
          ∷ text ""
          ∷ number 5
          ∷ [])
      ∷ (text "loop" ∷ text " " ∷ number 0xfffc ∷ [])
      ∷ []
unfolding operation_text form_line form_size line_text register_memory_line immediate_line operation
    size_words based word_register
three_lines = refl
