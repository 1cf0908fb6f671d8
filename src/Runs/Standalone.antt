-- ===== src/Runs/Standalone.antt =====
-- Runs of decoder_8086/decoder.c on concrete bytes, and its theorems at concrete inputs.
use computer_enhance.Shared.{
  ℕ, zero, suc, ◌*◌, ◌≤◌, ◌≡◌, refl, ◌⊎◌, true, false, List, [], ◌∷◌, ◌++◌, length, get_elem?, none,
  some, Outcome, ok, exit_error, out_of_bounds, arith,
}
use computer_enhance.Decoder.Types.{reset_instruction}
use computer_enhance.Decoder.Extract.{Buffer, sign_extend, join_bytes}
use computer_enhance.Decoder.Print.{text, number}
use computer_enhance.Decoder.Encoding.Manual.{b001, b011, b110, in_register, displaced8}
use computer_enhance.Decoder.Totality.Stages.{HasBytes}
use computer_enhance.Decoder.Encoding.Decodes.{Decodes}
use computer_enhance.Decoder.Encoding.RegisterMemory.{mov_rm16_r16, register_memory_bytes}
use computer_enhance.Decoder.Encoding.Immediate.{
  add_rm16_imm8, width, is_word, immediate_bytes, immediate_line,
}
use computer_enhance.Decoder.Encoding.Jumps.{jnz}
use computer_enhance.Standalone.Extract.{
  Line, register_map, segment_register_map, mov_source_effective_address, extract_displacement,
  extract_data, explicit_extract_data, address_text,
}
use computer_enhance.Standalone.Operations.{selected_op}
use computer_enhance.Standalone.Main.{process_instruction, decode_file, buffer_size}
use computer_enhance.Standalone.Accepts.{accepts, process_instruction-accepts}
use computer_enhance.Standalone.Agreement.Text.{printed, Agrees}
use computer_enhance.Decoder.Encoding.Forms.{
  program_bytes, Form, register_memory, jump, form_bytes, form_line,
}
use computer_enhance.Standalone.Agreement.Forms.{form_text, IsCommon, form-Agrees}
use computer_enhance.Standalone.Agreement.Missized.{other_width, missized, immediate-Missized}
use computer_enhance.Standalone.Programs.{AllCommon, file_bytes, file_text, decode_file-program}
use computer_enhance.Standalone.Cut.{cut_file, decode_file-cut}
use computer_enhance.Shared.Sequences.{length-++}

unfoldable run : List ℕ → Outcome (ℕ × Line)
unfolding process_instruction register_map segment_register_map mov_source_effective_address
    extract_displacement extract_data explicit_extract_data address_text selected_op sign_extend
    join_bytes
run bytes = process_instruction (get_elem? bytes)

-- mov dx, [bp - 3]
mov_dx_runs :
    run (0x8b ∷ 0x56 ∷ 0xfd ∷ [])
    ≡ ok (
      3,
      text "mov"
          ∷ text " "
          ∷ text "dx"
          ∷ text ", "
          ∷ text "["
          ∷ text "bp"
          ∷ text " + "
          ∷ number 0xfffd
          ∷ text "]"
          ∷ [],
    )
unfolding run
mov_dx_runs = refl

-- mov al, [0x1000] is printed for ax, and its last byte is left over.
mov_al_runs : run (0xa0 ∷ 0x00 ∷ 0x10 ∷ []) ≡ ok (2, text "mov ax, [ " ∷ number 0 ∷ text " ]" ∷ [])
unfolding run
mov_al_runs = refl

-- mov es, [bp - 2] is printed with the third register for its base.
mov_es_runs :
    run (0x8e ∷ 0x46 ∷ 0xfe ∷ [])
    ≡ ok (
      3,
      text "mov"
          ∷ text " "
          ∷ text "es"
          ∷ text ", "
          ∷ text "["
          ∷ text "si"
          ∷ text " + "
          ∷ number 0xfffe
          ∷ text "]"
          ∷ [],
    )
unfolding run
mov_es_runs = refl

-- mov word [0x1000], 5 is printed as an address behind bp.
mov_word_runs :
    run (0xc7 ∷ 0x06 ∷ 0x00 ∷ 0x10 ∷ 5 ∷ 0 ∷ [])
    ≡ ok (
      6,
      text "mov"
          ∷ text " "
          ∷ text "["
          ∷ text "bp"
          ∷ text " + "
          ∷ number 0x1000
          ∷ text "]"
          ∷ text ", "
          ∷ text "byte"
          ∷ text " "
          ∷ number 5
          ∷ [],
    )
unfolding run
mov_word_runs = refl

-- or [0x20fe], 1 is none of the three operations.
or_fails : run (0x80 ∷ 0x0e ∷ 0xfe ∷ 0x20 ∷ 1 ∷ []) ≡ exit_error
unfolding run
or_fails = refl

-- mov [bx + di], cx
abbrev store : Form
store = register_memory mov_rm16_r16 b001 (displaced8 b001 0xfe)

abbrev copy : Form
copy = register_memory mov_rm16_r16 b011 (in_register b001)

abbrev back : Form
back = jump jnz 0xfc

form-Agrees_example :
    Agrees (form_bytes store) (0x90 ∷ []) reset_instruction (form_line store) (form_text store)
form-Agrees_example = form-Agrees store (0x90 ∷ []) reset_instruction (omega arith)

-- A buffer with nothing in it.
abbrev empty : Buffer
empty i = none

abbrev program : List (List Form)
program = (copy ∷ store ∷ back ∷ []) ∷ []

program_fits : length (program_bytes (copy ∷ store ∷ back ∷ [])) ≤ buffer_size
unfolding form_bytes register_memory_bytes
program_fits = omega arith

decode_file-program_example :
    decode_file 1 empty (file_bytes program) ≡ some (ok (file_text program))
decode_file-program_example =
    decode_file-program 1 empty program ((tt, (omega arith, (omega arith, tt))), program_fits)
      (omega arith)

-- add word [bp + 2], 5
immediate-Missized_example :
    Decodes
      (immediate_bytes add_rm16_imm8 (other_width (is_word add_rm16_imm8) b110 2) 5)
      (0x90 ∷ [])
      reset_instruction
      (immediate_line add_rm16_imm8 (other_width (is_word add_rm16_imm8) b110 2) 5)
    × ((line : Line) × (printed (
            immediate_bytes add_rm16_imm8 (other_width (is_word add_rm16_imm8) b110 2) 5
            ++ 0x90 ∷ [])
          ≡ ok (
            missized (is_word add_rm16_imm8) (
                length
                  (immediate_bytes add_rm16_imm8 (other_width (is_word add_rm16_imm8) b110 2) 5)),
            line,
          )))
unfolding is_word other_width width
immediate-Missized_example =
    immediate-Missized add_rm16_imm8 b110 2 5 0x90 [] reset_instruction (omega arith) (omega arith)

-- add word [bp + 2], 5, and what main makes of six bytes that begin with it.
abbrev six_bytes : Buffer
six_bytes = get_elem? (0x83 ∷ 0x46 ∷ 2 ∷ 5 ∷ 0x90 ∷ 0x90 ∷ [])

six_bytes-HasBytes : HasBytes six_bytes
six_bytes-HasBytes zero h = (_, refl)
six_bytes-HasBytes (suc zero) h = (_, refl)
six_bytes-HasBytes (suc (suc zero)) h = (_, refl)
six_bytes-HasBytes (suc (suc (suc zero))) h = (_, refl)
six_bytes-HasBytes (suc (suc (suc (suc zero)))) h = (_, refl)
six_bytes-HasBytes (suc (suc (suc (suc (suc zero))))) h = (_, refl)
six_bytes-HasBytes (suc (suc (suc (suc (suc (suc i)))))) h = absurd (omega arith)

process_instruction-accepts_example :
    ((accepts 0x83 0x46 ≡ true)
      × ((n : ℕ) × (line : Line) × (process_instruction six_bytes ≡ ok (n, line))
          × (1 ≤ n)
          × (n ≤ 6)))
    ⊎ ((accepts 0x83 0x46 ≡ false) × (process_instruction six_bytes ≡ exit_error))
process_instruction-accepts_example =
    process_instruction-accepts six_bytes 0x83 0x46 six_bytes-HasBytes refl refl (omega arith)
      (omega arith)

-- The same instruction again and again.
unfoldable repeated : ℕ → Form → List Form
repeated zero form = []
repeated (suc n) form = form ∷ repeated n form

repeated-AllCommon : (n : ℕ) (form : Form) → IsCommon form → AllCommon (repeated n form)
unfolding repeated
repeated-AllCommon zero form h = tt
repeated-AllCommon (suc n) form h = (h, repeated-AllCommon n form h)

length-repeated :
    (n : ℕ) (form : Form) → length (program_bytes (repeated n form)) ≡ n * length (form_bytes form)
unfolding repeated
length-repeated zero form = omega arith
length-repeated (suc n) form =
    ground
      (arith, length-++ (form_bytes form) (program_bytes (repeated n form)), length-repeated n form)

-- 1365 times three bytes, then two that straddle the end of the chunk.
length-store : length (form_bytes store) ≡ 3
unfolding form_bytes register_memory_bytes
length-store = refl

length-copy : length (form_bytes copy) ≡ 2
unfolding form_bytes register_memory_bytes
length-copy = refl

length-before : length (program_bytes (repeated 1365 store)) ≡ 4095
length-before = omega (arith, length-repeated 1365 store, length-store)

decode_file-cut_example :
    (decode_file 5000 empty (cut_file (repeated 1365 store) copy []) ≡ some exit_error)
    ⊎ (decode_file 5000 empty (cut_file (repeated 1365 store) copy []) ≡ some out_of_bounds)
decode_file-cut_example =
    decode_file-cut 5000 empty (repeated 1365 store) copy [] (λ i b e. absurd (cc e))
      (repeated-AllCommon 1365 store (omega arith)) tt (omega (arith, length-before))
      (omega (arith, length-before, length-copy))
      (omega (
        arith,
        length-++ (program_bytes (repeated 1365 store)) (form_bytes copy ++ []),
        length-++ (form_bytes copy) [],
        length-before,
        length-copy,
      ))
