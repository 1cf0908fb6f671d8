-- ===== src/Standalone/Cut.antt =====
-- decoder_8086/decoder.c on a file with an instruction that goes on behind the first chunk.
use computer_enhance.Shared.{
  ℕ, zero, suc, ◌+◌, ◌-◌, ◌≤◌, ◌<◌, ◌≡◌, refl, ◌⊎◌, inl, inr, ltb, Bool-cases, List, [], ◌∷◌, ◌++◌,
  length, get_elem?, some, Outcome, ok, exit_error, out_of_bounds, arith,
}
use computer_enhance.Decoder.Extract.{Buffer}
use computer_enhance.Decoder.Disassemble.{from}
use computer_enhance.Standalone.Extract.{Line}
use computer_enhance.Standalone.Main.{process_instruction, fread, filled, decode_file, buffer_size}
use computer_enhance.Standalone.Kept.{Extends, process_instruction-Kept}
use computer_enhance.Shared.Sequences.{++-assoc, length-++, get_elem?-++}
use computer_enhance.Standalone.Sequences.{fread-full, fread-prefix}
use computer_enhance.Standalone.Chunk.{IsSized, Tiles, decode_chunk-Tiles}
use computer_enhance.Standalone.File.{
  filled-IsSized, decode_file-round, decode_file-ends, and_lines-inverse,
}
use computer_enhance.Decoder.Encoding.Forms.{program_bytes, Form, form_bytes}
use computer_enhance.Standalone.Agreement.Forms.{IsCommon}
use computer_enhance.Standalone.Programs.{AllCommon, process_instruction-form}

-- The buffer holds the first bytes of the file and nothing else.
filled-within :
    (file : List ℕ) (buf : Buffer)
    → IsSized buf
    → buffer_size ≤ length file
    → Extends (filled (fread buffer_size file).0 buf) (get_elem? file)
unfolding filled
filled-within file buf sized long i b e =
    let full = fread-full buffer_size file long in
    elim (Bool-cases (ltb i (length (fread buffer_size file).0))) [
      | inl inside ↦ fread-prefix buffer_size file i b (rw inside at e)
      | inr outside ↦ absurd (ground (arith, outside, full, sized i b (rw outside at e)))
    ]

-- The first instruction of a tiled part, once more bytes are known.
first_consumed :
    (form : Form) (rest : List ℕ) (buf : Buffer) (n : ℕ) (line : Line)
    → IsCommon form
    → Extends buf (get_elem? (form_bytes form ++ rest))
    → process_instruction buf ≡ ok (n, line)
    → n ≡ length (form_bytes form)
first_consumed form rest buf n line h more e =
    let known = process_instruction-form form rest h in
    let kept = process_instruction-Kept buf (get_elem? (form_bytes form ++ rest)) more n line e in
    cc (known, kept)

Extends-onward :
    (xs ys : List ℕ) (buf : Buffer) (ptr : ℕ)
    → Extends (from ptr buf) (get_elem? (xs ++ ys))
    → Extends (from (ptr + length xs) buf) (get_elem? ys)
Extends-onward xs ys buf ptr more i b e =
    let same : ptr + length xs + i ≡ ptr + (length xs + i) = omega arith in
    rw (get_elem?-++ xs ys i) at (more (length xs + i) b (rw same at e))

cut-not-Tiles :
    (before : List Form) (form : Form) (after : List ℕ) (buf : Buffer) (ptr available : ℕ)
    (lines : List Line)
    → AllCommon before
    → IsCommon form
    → Extends (from ptr buf) (get_elem? (program_bytes before ++ (form_bytes form ++ after)))
    → length (program_bytes before) < available
    → available < length (program_bytes before) + length (form_bytes form)
    → ¬ Tiles buf ptr available lines
cut-not-Tiles before form after buf ptr available [] commons h more low high tiles =
    omega (arith, low, tiles)
cut-not-Tiles [] form after buf ptr available (line ∷ lines) commons h more low high
      (n, e, less, tiles) =
    omega (arith, first_consumed form after (from ptr buf) n line h more e, less, high)
cut-not-Tiles (first ∷ before) form after buf ptr available (line ∷ lines) (h1, commons) h more low
      high (n, e, less, tiles) =
    let bytes = form_bytes first in
    let rest = program_bytes before ++ (form_bytes form ++ after) in
    let assoc = ++-assoc bytes (program_bytes before) (form_bytes form ++ after) in
    let more' : Extends (from ptr buf) (get_elem? (bytes ++ rest)) = rw assoc at more in
    let consumed = first_consumed first rest (from ptr buf) n line h1 more' e in
    let total = length-++ bytes (program_bytes before) in
    cut-not-Tiles before form after buf (ptr + n) (available - n) lines commons h
      (rw consumed (Extends-onward bytes rest buf ptr more'))
      (omega (arith, consumed, total, low, less)) (omega (arith, consumed, total, high, less)) tiles

-- The whole file, with the instruction in it.
abbrev pub cut_file : List Form → Form → List ℕ → List ℕ
cut_file before form after = program_bytes before ++ (form_bytes form ++ after)

-- A file of common encodings with one that begins in the first 4096 bytes and goes on behind them is
-- not printed to its end, whatever follows and whatever the buffer held: bytes_available wraps around,
-- and main ends in an error or reads behind its buffer.
pub decode_file-cut :
    (fuel : ℕ) (buf : Buffer) (before : List Form) (form : Form) (after : List ℕ)
    → IsSized buf
    → AllCommon before
    → IsCommon form
    → length (program_bytes before) < buffer_size
    → buffer_size < length (program_bytes before) + length (form_bytes form)
    → length (cut_file before form after) ≤ fuel
    → (decode_file fuel buf (cut_file before form after) ≡ some exit_error)
      ⊎ (decode_file fuel buf (cut_file before form after) ≡ some out_of_bounds)
decode_file-cut zero buf before form after sized commons h low high enough = absurd (
    omega (
      arith,
      enough,
      length-++ (program_bytes before) (form_bytes form ++ after),
      length-++ (form_bytes form) after,
      low,
      high,
    ))
decode_file-cut (suc fuel) buf before form after sized commons h low high enough =
    let file = cut_file before form after in
    let (r, e) = decode_file-ends (suc fuel) buf file sized enough in ends r e
  where
    long : buffer_size ≤ length (cut_file before form after)
    long = omega (
      arith,
      length-++ (program_bytes before) (form_bytes form ++ after),
      length-++ (form_bytes form) after,
      high,
    )

    not_ok :
        (lines : List Line)
        → ¬ (decode_file (suc fuel) buf (cut_file before form after) ≡ some (ok lines))
    not_ok lines e =
        let file = cut_file before form after in
        let (chunk, rest) = fread buffer_size file in
        let full : length chunk ≡ buffer_size = fread-full buffer_size file long in
        let round = decode_file-round fuel buf file chunk rest (omega (arith, long)) refl in
        let (lines', e') = and_lines-inverse _ _ lines (rw round at e) in
        let (_, tiles) =
          decode_chunk-Tiles (buffer_size + 1) (filled chunk buf) 0 (length chunk) lines'
            (filled-IsSized chunk buf (omega (arith, full)) sized) (omega (arith, full)) e' in
        cut-not-Tiles before form after (filled chunk buf) 0 (length chunk) lines' commons h
          (λ i b e.
            let same : 0 + i ≡ i = omega arith in
            filled-within file buf sized long i b (rw same at e))
          (omega (arith, full, low)) (omega (arith, full, high)) tiles

    ends :
        (r : Outcome (List Line))
        → decode_file (suc fuel) buf (cut_file before form after) ≡ some r
        → (decode_file (suc fuel) buf (cut_file before form after) ≡ some exit_error)
          ⊎ (decode_file (suc fuel) buf (cut_file before form after) ≡ some out_of_bounds)
    ends (ok lines) e = absurd (not_ok lines e)
    ends exit_error e = inl e
    ends out_of_bounds e = inr e
