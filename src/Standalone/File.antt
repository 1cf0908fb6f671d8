-- ===== src/Standalone/File.antt =====
-- decoder_8086/decoder.c: the outer loop of main, over the chunks of the file.
use computer_enhance.Shared.{
  ℕ, zero, suc, ◌+◌, ◌≤◌, ◌≡◌, refl, ltb, ltb→lt, Bool-cases, inl, inr, List, [], ◌∷◌, ◌++◌, length,
  Option, none, some, Outcome, ok, exit_error, out_of_bounds, arith,
}
use computer_enhance.Decoder.Extract.{Buffer}
use computer_enhance.Standalone.Extract.{Line}
use computer_enhance.Standalone.Main.{
  fread, filled, and_lines, decode_chunk, decode_file, buffer_size,
}
use computer_enhance.Standalone.Sequences.{fread-length, fread-rest}
use computer_enhance.Standalone.Chunk.{IsSized, decode_chunk-ends}

pub filled-IsSized :
    (chunk : List ℕ) (buf : Buffer)
    → length chunk ≤ buffer_size
    → IsSized buf
    → IsSized (filled chunk buf)
unfolding filled
filled-IsSized chunk buf small sized i b e = elim (Bool-cases (ltb i (length chunk))) [
  | inl inside ↦ omega (arith, ltb→lt i (length chunk) inside, small)
  | inr outside ↦ sized i b (rw outside at e)
]

and_lines-ends :
    (r : Outcome (List Line)) (o : Option (Outcome (List Line)))
    → ((r' : Outcome (List Line)) × (o ≡ some r'))
    → (r'' : Outcome (List Line)) × (and_lines (some r) o ≡ some r'')
unfolding and_lines
and_lines-ends (ok lines) (some (ok lines')) h = (ok (lines ++ lines'), refl)
and_lines-ends (ok lines) (some exit_error) h = (exit_error, refl)
and_lines-ends (ok lines) (some out_of_bounds) h = (out_of_bounds, refl)
and_lines-ends (ok lines) none (r', e) = absurd (cc e)
and_lines-ends exit_error o h = (exit_error, refl)
and_lines-ends out_of_bounds o h = (out_of_bounds, refl)

-- A round of the outer loop.
pub decode_file-round :
    (fuel : ℕ) (buf : Buffer) (file chunk rest : List ℕ)
    → 1 ≤ length file
    → fread buffer_size file ≡ (chunk, rest)
    → decode_file (suc fuel) buf file
      ≡ and_lines
          (decode_chunk (buffer_size + 1) (filled chunk buf) 0 (length chunk))
          (decode_file fuel (filled chunk buf) rest)
unfolding decode_file
decode_file-round fuel buf [] chunk rest some_bytes e = absurd (omega arith)
decode_file-round fuel buf (b ∷ file) chunk rest some_bytes e = rw e refl

-- The model of main ends on every file, within as many chunks as the file has bytes: the lines are
-- printed, or a byte is not recognized, or a read leaves the buffer, which ends the model and not the C.
pub decode_file-ends :
    (fuel : ℕ) (buf : Buffer) (file : List ℕ)
    → IsSized buf
    → length file ≤ fuel
    → (r : Outcome (List Line)) × (decode_file fuel buf file ≡ some r)
unfolding decode_file
decode_file-ends fuel buf [] sized enough = (ok [], refl)
decode_file-ends zero buf (b ∷ file) sized enough = absurd (omega arith)
decode_file-ends (suc fuel) buf (b ∷ file) sized enough =
    let (chunk, rest) = fread buffer_size (b ∷ file) in
    let sized' = filled-IsSized chunk buf (fread-length buffer_size (b ∷ file)) sized in
    let (r, e) =
      decode_chunk-ends (buffer_size + 1) (filled chunk buf) 0 (length chunk) sized' (omega arith)
        (omega arith) in
    let further =
      decode_file-ends fuel (filled chunk buf) rest sized'
        (omega (arith, fread-rest buffer_size (b ∷ file), enough)) in
    rw e (and_lines-ends r _ further)

pub and_lines-inverse :
    (first rest : Option (Outcome (List Line))) (lines : List Line)
    → and_lines first rest ≡ some (ok lines)
    → (lines' : List Line) × (first ≡ some (ok lines'))
unfolding and_lines
and_lines-inverse (some (ok lines')) rest lines e = (lines', refl)
and_lines-inverse (some exit_error) rest lines e = absurd (cc e)
and_lines-inverse (some out_of_bounds) rest lines e = absurd (cc e)
and_lines-inverse none rest lines e = absurd (cc e)
