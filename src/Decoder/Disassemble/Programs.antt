-- ===== src/Decoder/Disassemble/Programs.antt =====
-- libdecoder_8086/decoder.c on whole programs in the encodings of the 8086 manual.
use computer_enhance.Shared.{
  ℕ, zero, suc, ◌+◌, ◌-◌, ◌^◌, ◌≤◌, ◌<◌, ◌≡◌, refl, ◌==◌, true, false, ltb, List, [], ◌∷◌, ◌++◌,
  length, get_elem?, some, ok, arith,
}
use computer_enhance.Shared.Sequences.{length-++, get_elem?-++}
use computer_enhance.Decoder.Types.{DecodedInstruction}
use computer_enhance.Decoder.Maps.{instruction_name}
use computer_enhance.Decoder.Extract.{Buffer}
use computer_enhance.Decoder.Parse.{decode_bitstream}
use computer_enhance.Decoder.Print.{print_decoded_instruction}
use computer_enhance.Decoder.Printing.{line_text, print_decoded_instruction-text}
use computer_enhance.Decoder.Locality.{decode_bitstream-local}
use computer_enhance.Decoder.Encoding.Decodes.{decoded, size_words}
use computer_enhance.Decoder.Encoding.Forms.{
  Form, form_bytes, form_line, form_size, program_bytes, IsEncoded, form-Decodes, form-Named, op_of,
  operation_text, view-op_of, form_bytes-some,
}
use computer_enhance.Decoder.Disassemble.{
  Line, from, fitting_line, print_line, decode_line, disassemble, buffer_size, bytes_read, loaded,
  disassemble_file,
}
use computer_enhance.Decoder.Disassemble.Prefix.{next_lines-ok}

abbrev pub AllEncoded : List Form → Type 0
AllEncoded [] = Unit {0}
AllEncoded (form ∷ forms) = IsEncoded form × AllEncoded forms

-- The line that an encoding is printed as.
abbrev pub form_text : Form → Line
form_text form =
    line_text (operation_text (op_of (form_line form))) (size_words (form_size form))
      (form_line form)

abbrev pub program_text : List Form → List Line
program_text [] = []
program_text (form ∷ forms) = form_text form ∷ program_text forms

-- The bytes stand in the buffer from `ptr` on.
abbrev pub Holds : List ℕ → Buffer → ℕ → Type 0
Holds bytes buf ptr = (i : ℕ) → i < length bytes → get_elem? bytes i ≡ buf (ptr + i)

form-decoded :
    (form : Form) (rest : List ℕ) (old : DecodedInstruction)
    → IsEncoded form
    → (i : DecodedInstruction) × (decode_bitstream (get_elem? (form_bytes form ++ rest)) old
        ≡ ok (length (form_bytes form), i))
      × (print_decoded_instruction i ≡ ok (form_text form))
unfolding decoded
form-decoded form rest old h =
    let (i, e, stands, words) = form-Decodes form rest old h in
    let named : instruction_name i.op ≡ some (operation_text (op_of (form_line form))) =
      rw (view-op_of i (form_line form) stands) (form-Named form) in
    (i, e, rw (← words) (print_decoded_instruction-text i (form_line form) _ stands named))

decode_line-form :
    (form : Form) (rest : List ℕ) (buf : Buffer) (ptr available : ℕ) (old : DecodedInstruction)
    → IsEncoded form
    → Holds (form_bytes form ++ rest) buf ptr
    → length (form_bytes form) ≤ available
    → (i : DecodedInstruction) × (decode_line buf ptr available old
        ≡ ok (length (form_bytes form), i, form_text form))
unfolding decode_line print_line fitting_line
decode_line-form form rest buf ptr available old h holds room =
    let n = length (form_bytes form) in
    let (i, e, printed) = form-decoded form rest old h in
    let some_bytes = form_bytes-some form in
    let (_, e') =
      decode_bitstream-local (get_elem? (form_bytes form ++ rest)) (from ptr buf) old n i e
        (λ k low. holds k (omega (arith, low, some_bytes, length-++ (form_bytes form) rest))) in
    let not_zero : (n == 0) ≡ false = ground (arith, some_bytes) in
    let fits : ltb available n ≡ false = ground (arith, room) in
    (i, rw (e', not_zero, printed, fits) refl)

disassemble-round :
    (fuel : ℕ) (buf : Buffer) (ptr available n : ℕ) (old i : DecodedInstruction) (line : Line)
    (lines : List Line)
    → 1 ≤ available
    → decode_line buf ptr available old ≡ ok (n, i, line)
    → disassemble fuel buf (ptr + n) (available - n) i ≡ some (ok lines)
    → disassemble (suc fuel) buf ptr available old ≡ some (ok (line ∷ lines))
unfolding disassemble
disassemble-round fuel buf ptr zero n old i line lines h e rest = absurd (omega arith)
disassemble-round fuel buf ptr (suc more) n old i line lines h e rest =
    next_lines-ok _ (decode_line buf ptr (suc more) old) n i line lines e rest

disassemble-forms :
    (forms : List Form) (fuel : ℕ) (buf : Buffer) (ptr : ℕ) (old : DecodedInstruction)
    → AllEncoded forms
    → length (program_bytes forms) ≤ fuel
    → Holds (program_bytes forms) buf ptr
    → disassemble fuel buf ptr (length (program_bytes forms)) old ≡ some (ok (program_text forms))
disassemble-forms [] fuel buf ptr old encoded enough holds = unfold disassemble in refl
disassemble-forms (form ∷ forms) zero buf ptr old encoded enough holds =
    absurd (
      omega
        (arith, enough, length-++ (form_bytes form) (program_bytes forms), form_bytes-some form))
disassemble-forms (form ∷ forms) (suc fuel) buf ptr old (h, encoded) enough holds =
    let bytes = form_bytes form in
    let rest = program_bytes forms in
    let total = length-++ bytes rest in
    let some_bytes = form_bytes-some form in
    let (i, e) =
      decode_line-form form rest buf ptr (length (bytes ++ rest)) old h holds
        (omega (arith, total)) in
    let e' =
      disassemble-forms forms fuel buf (ptr + length bytes) i encoded
        (omega (arith, enough, total, some_bytes))
        (λ k low.
          let same : ptr + length bytes + k ≡ ptr + (length bytes + k) = omega arith in
          rw (same, ← get_elem?-++ bytes rest k)
            (holds (length bytes + k) (omega (arith, total, low)))) in
    let left : length (bytes ++ rest) - length bytes ≡ length rest = omega (arith, total) in
    disassemble-round fuel buf ptr (length (bytes ++ rest)) (length bytes) old i (form_text form)
      (program_text forms) (omega (arith, total, some_bytes)) e (rw left e')

bytes_read-all : (n : ℕ) (file : List ℕ) → length file ≤ n → bytes_read n file ≡ file
unfolding bytes_read
bytes_read-all zero [] small = refl
bytes_read-all zero (b ∷ file) small = absurd (omega arith)
bytes_read-all (suc n) [] small = refl
bytes_read-all (suc n) (b ∷ file) small = rw (bytes_read-all n file (omega arith)) refl

loaded-Holds : (bytes : List ℕ) (stale : Buffer) → Holds bytes (loaded bytes stale) 0
unfolding loaded
loaded-Holds bytes stale i low =
    let same : 0 + i ≡ i = omega arith in
    let inside : ltb i (length bytes) ≡ true = ground (arith, low) in rw (same, inside) refl

-- libdecoder_8086/decoder.c disassembles a file whole, whatever its buffer and *instruction held: if the
-- file has at most 2^20 bytes and its instructions are the encodings that decode to their lines, main
-- prints exactly the text of each instruction in order. The encodings are those of MOV, ADD, SUB and CMP
-- with registers, memory, immediates and the accumulator, of MOV of a segment register, and of the jumps
-- and loops, with operands in range, but no store of a register or segment register to an absolute address,
-- and of the stores of the accumulator only that of ax.
pub disassemble-program :
    (forms : List Form) (stale : Buffer) (old : DecodedInstruction)
    → AllEncoded forms
    → length (program_bytes forms) ≤ 2 ^ 20
    → disassemble_file stale old (program_bytes forms) ≡ some (ok (program_text forms))
unfolding disassemble_file bytes_read
disassemble-program forms stale old encoded small =
    let bytes = program_bytes forms in
    let whole : bytes_read buffer_size bytes ≡ bytes = bytes_read-all buffer_size bytes small in
    rw whole (
      disassemble-forms forms (length bytes) (loaded bytes stale) 0 old encoded (omega arith)
        (loaded-Holds bytes stale))
