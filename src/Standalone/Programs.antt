-- ===== src/Standalone/Programs.antt =====
-- decoder_8086/decoder.c on whole files: programs in the encodings of Agreement/Forms.
use computer_enhance.Shared.{
  ℕ, zero, suc, ◌+◌, ◌-◌, ◌≤◌, ◌≡◌, refl, List, [], ◌∷◌, ◌++◌, length, get_elem?, some, ok, arith,
}
use computer_enhance.Decoder.Types.{reset_instruction}
use computer_enhance.Decoder.Extract.{Buffer}
use computer_enhance.Decoder.Disassemble.{from}
use computer_enhance.Standalone.Extract.{Line}
use computer_enhance.Standalone.Main.{
  process_instruction, filled, and_lines, decode_chunk, decode_file, buffer_size,
}
use computer_enhance.Standalone.Kept.{Extends, process_instruction-Kept}
use computer_enhance.Standalone.Reach.{process_instruction-Reaches}
use computer_enhance.Shared.Sequences.{++-nil, length-++, get_elem?-++}
use computer_enhance.Standalone.Sequences.{fread-++, fread-whole, filled-Extends}
use computer_enhance.Standalone.Chunk.{Tiles, Tiles-length, Tiles-decode_chunk}
use computer_enhance.Standalone.File.{decode_file-round}
use computer_enhance.Standalone.Agreement.Text.{printed}
use computer_enhance.Decoder.Encoding.Forms.{Form, form_bytes, program_bytes}
use computer_enhance.Standalone.Agreement.Forms.{form_text, IsCommon, form-Agrees}

abbrev pub program_text : List Form → List Line
program_text [] = []
program_text (form ∷ forms) = form_text form ∷ program_text forms

abbrev pub AllCommon : List Form → Type 0
AllCommon [] = Unit {0}
AllCommon (form ∷ forms) = IsCommon form × AllCommon forms

pub process_instruction-form :
    (form : Form) (rest : List ℕ)
    → IsCommon form
    → process_instruction (get_elem? (form_bytes form ++ rest))
      ≡ ok (length (form_bytes form), form_text form)
unfolding printed
process_instruction-form form rest h = (form-Agrees form rest reset_instruction h).1

-- What stands behind the first bytes.
Extends-behind :
    (xs ys : List ℕ) (buf : Buffer) (ptr : ℕ)
    → Extends (get_elem? (xs ++ ys)) (from ptr buf)
    → Extends (get_elem? ys) (from (ptr + length xs) buf)
Extends-behind xs ys buf ptr more i b e =
    let same : ptr + length xs + i ≡ ptr + (length xs + i) = omega arith in
    rw same (more (length xs + i) b (rw (get_elem?-++ xs ys i) e))

program-Tiles :
    (forms : List Form) (buf : Buffer) (ptr : ℕ)
    → AllCommon forms
    → Extends (get_elem? (program_bytes forms)) (from ptr buf)
    → Tiles buf ptr (length (program_bytes forms)) (program_text forms)
program-Tiles [] buf ptr common more = refl
program-Tiles (form ∷ forms) buf ptr (h, common) more =
    let bytes = form_bytes form in
    let rest = program_bytes forms in
    let total = length-++ bytes rest in
    let left : length (bytes ++ rest) - length bytes ≡ length rest = omega (arith, total) in
    (
      length bytes,
      process_instruction-Kept (get_elem? (bytes ++ rest)) (from ptr buf) more _ _
          (process_instruction-form form rest h),
      omega (arith, total),
      rw left (
          program-Tiles forms buf (ptr + length bytes) common
            (Extends-behind bytes rest buf ptr more)),
    )

-- A chunk that is a program.
decode_chunk-program :
    (forms : List Form) (buf : Buffer)
    → AllCommon forms
    → length (program_bytes forms) ≤ buffer_size
    → decode_chunk
        (buffer_size + 1)
        (filled (program_bytes forms) buf)
        0
        (length (program_bytes forms))
      ≡ some (ok (program_text forms))
decode_chunk-program forms buf common small =
    let bytes = program_bytes forms in
    let tiles =
      program-Tiles forms (filled bytes buf) 0 common
        (λ i b e. let same : 0 + i ≡ i = omega arith in rw same (filled-Extends bytes buf i b e)) in
    Tiles-decode_chunk (buffer_size + 1) (filled bytes buf) 0 (length bytes) (program_text forms)
      (omega (arith, small))
      (omega
        (arith, Tiles-length (filled bytes buf) 0 (length bytes) (program_text forms) tiles, small))
      tiles

form_bytes-length : (form : Form) → IsCommon form → 1 ≤ length (form_bytes form)
form_bytes-length form h =
    (process_instruction-Reaches (get_elem? (form_bytes form ++ [])) _ _
      (process_instruction-form form [] h)).some_bytes

-- A file in parts, one for each chunk.
abbrev pub file_bytes : List (List Form) → List ℕ
file_bytes [] = []
file_bytes (forms ∷ parts) = program_bytes forms ++ file_bytes parts

abbrev pub file_text : List (List Form) → List Line
file_text [] = []
file_text (forms ∷ parts) = program_text forms ++ file_text parts

-- Each part but the last fills the buffer.
abbrev pub FillsBuffers : List (List Form) → Type 0
FillsBuffers [] = Unit {0}
FillsBuffers (forms ∷ []) = AllCommon forms × (length (program_bytes forms) ≤ buffer_size)
FillsBuffers (forms ∷ part ∷ parts) =
    AllCommon forms × (length (program_bytes forms) ≡ buffer_size) × FillsBuffers (part ∷ parts)

-- A file of common encodings is printed whole, line by line, if its instructions break at each multiple
-- of 4096 bytes, whatever the buffer held before, with one round of the outer loop for each chunk.
pub decode_file-program :
    (fuel : ℕ) (buf : Buffer) (parts : List (List Form))
    → FillsBuffers parts
    → length parts ≤ fuel
    → decode_file fuel buf (file_bytes parts) ≡ some (ok (file_text parts))
decode_file-program fuel buf [] fills enough = unfold decode_file in refl
decode_file-program zero buf (forms ∷ parts) fills enough = absurd (omega arith)
decode_file-program (suc fuel) buf ([] ∷ []) fills enough = unfold decode_file in refl
decode_file-program (suc fuel) buf ((form ∷ forms) ∷ []) (common, small) enough =
    let bytes = program_bytes (form ∷ forms) in
    rw
      (
        ++-nil bytes,
        decode_file-round fuel buf bytes bytes []
            (omega (
              arith,
              length-++ (form_bytes form) (program_bytes forms),
              form_bytes-length form common.0,
            ))
            (fread-whole bytes buffer_size small),
        decode_chunk-program (form ∷ forms) buf common small,
      )
      (unfold decode_file and_lines in refl)
decode_file-program (suc fuel) buf (forms ∷ part ∷ parts) (common, full, fills) enough =
    let bytes = program_bytes forms in
    let rest = file_bytes (part ∷ parts) in
    rw
      (
        decode_file-round fuel buf (bytes ++ rest) bytes rest
            (omega (arith, length-++ bytes rest, full)) (fread-++ bytes rest buffer_size full),
        decode_chunk-program forms buf common (omega (arith, full)),
        decode_file-program fuel (filled bytes buf) (part ∷ parts) fills (omega (arith, enough)),
      )
      (unfold and_lines in refl)
