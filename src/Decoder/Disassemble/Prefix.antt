-- ===== src/Decoder/Disassemble/Prefix.antt =====
-- libdecoder_8086/decoder.c: the rounds of the loop, and the part of the buffer that they read.
use computer_enhance.Shared.{
  ℕ, zero, suc, ◌+◌, ◌-◌, ◌≤◌, ◌<◌, ◌≡◌, refl, ◌∙◌, ◌==◌, ltb, List, [], ◌∷◌, Option, none, some,
  Outcome, ok, exit_error, out_of_bounds, >>=-inverse, arith, Bool-cases, inl, inr,
}
use computer_enhance.Decoder.Types.{DecodedInstruction}
use computer_enhance.Decoder.Extract.{Buffer}
use computer_enhance.Decoder.Parse.{decode_bitstream}
use computer_enhance.Decoder.Print.{print_decoded_instruction}
use computer_enhance.Decoder.Locality.{decode_bitstream-local}
use computer_enhance.Decoder.Disassemble.{
  Line, from, fitting_line, print_line, decode_line, add_line, next_lines, disassemble,
}

print_line-inverse :
    (available consumed n : ℕ) (inst i : DecodedInstruction) (line : Line)
    → print_line available (consumed, inst) ≡ ok (n, i, line)
    → (consumed ≡ n) × (1 ≤ n) × (n ≤ available)
unfolding print_line fitting_line
print_line-inverse available consumed n inst i line e = elim (Bool-cases (consumed == 0)) [
  | inl nothing ↦ absurd (cc (rw nothing at e))
  | inr some_bytes ↦
      let (printed, _, e1) = >>=-inverse (print_decoded_instruction inst) _ (rw some_bytes at e) in
      elim (Bool-cases (ltb available consumed)) [
        | inl over ↦ absurd (cc (rw over at e1))
        | inr within ↦
            let same : consumed ≡ n = cc (rw within at e1) in
            (same, ground (arith, some_bytes, same), ground (arith, within, same))
      ]
]

-- A round that goes on has consumed something, within the file, and is the same on a buffer with the same file.
decode_line-local :
    (buf buf' : Buffer) (ptr available n : ℕ) (old i : DecodedInstruction) (line : Line)
    → decode_line buf ptr available old ≡ ok (n, i, line)
    → ((k : ℕ) → k < ptr + available → buf k ≡ buf' k)
    → (1 ≤ n) × (n ≤ available) × (decode_line buf' ptr available old ≡ ok (n, i, line))
unfolding decode_line
decode_line-local buf buf' ptr available n old i line e same =
    let ((consumed, inst), decoded, e1) = >>=-inverse (decode_bitstream (from ptr buf) old) _ e in
    let (is_n, some_bytes, within) = print_line-inverse available consumed n inst i line e1 in
    let (_, decoded') =
      decode_bitstream-local (from ptr buf) (from ptr buf') old consumed inst decoded
        (λ k h. same (ptr + k) (omega (arith, is_n, some_bytes, within, h))) in
    (some_bytes, within, rw decoded' e1)

add_line-ends :
    (line : Line) (r : Outcome (List Line))
    → (r' : Outcome (List Line)) × (add_line line (some r) ≡ some r')
unfolding add_line
add_line-ends line (ok lines) = (ok (line ∷ lines), refl)
add_line-ends line exit_error = (exit_error, refl)
add_line-ends line out_of_bounds = (out_of_bounds, refl)

add_line-inverse :
    (line : Line) (o : Option (Outcome (List Line))) (lines : List Line)
    → add_line line o ≡ some (ok lines)
    → (more : List Line) × (o ≡ some (ok more)) × (lines ≡ line ∷ more)
unfolding add_line
add_line-inverse line (some (ok more)) lines e = (more, refl, cc e)
add_line-inverse line (some exit_error) lines e = absurd (cc e)
add_line-inverse line (some out_of_bounds) lines e = absurd (cc e)
add_line-inverse line none lines e = absurd (cc e)

pub next_lines-ok :
    (rest : ℕ → DecodedInstruction → Option (Outcome (List Line)))
    (o : Outcome (ℕ × DecodedInstruction × Line)) (n : ℕ) (i : DecodedInstruction) (line : Line)
    (more : List Line)
    → o ≡ ok (n, i, line)
    → rest n i ≡ some (ok more)
    → next_lines rest o ≡ some (ok (line ∷ more))
unfolding next_lines add_line
next_lines-ok rest o n i line more e e1 = rw (e, e1) refl

next_lines-ends :
    (rest : ℕ → DecodedInstruction → Option (Outcome (List Line)))
    (o : Outcome (ℕ × DecodedInstruction × Line))
    → ((n : ℕ) (i : DecodedInstruction) (line : Line)
        → o ≡ ok (n, i, line)
        → (r : Outcome (List Line)) × (rest n i ≡ some r))
    → (r : Outcome (List Line)) × (next_lines rest o ≡ some r)
unfolding next_lines add_line
next_lines-ends rest (ok (n, i, line)) further =
    let (r, e) = further n i line refl in rw e (add_line-ends line r)
next_lines-ends rest exit_error further = (exit_error, refl)
next_lines-ends rest out_of_bounds further = (out_of_bounds, refl)

-- The loop ends within one round for each byte of the file, whatever the bytes are.
pub disassemble-ends :
    (fuel : ℕ) (buf : Buffer) (ptr available : ℕ) (instruction : DecodedInstruction)
    → available ≤ fuel
    → (r : Outcome (List Line)) × (disassemble fuel buf ptr available instruction ≡ some r)
unfolding disassemble
disassemble-ends fuel buf ptr zero instruction h = (ok [], refl)
disassemble-ends zero buf ptr (suc more) instruction h = absurd (omega arith)
disassemble-ends (suc fuel) buf ptr (suc more) instruction h =
    next_lines-ends _ (decode_line buf ptr (suc more) instruction) λ n i line e.
      let (some_bytes, _, _) =
        decode_line-local buf buf ptr (suc more) n instruction i line e (λ k _. refl) in
      disassemble-ends fuel buf (ptr + n) (suc more - n) i (omega (arith, h, some_bytes))

next_lines-inverse :
    (rest : ℕ → DecodedInstruction → Option (Outcome (List Line)))
    (o : Outcome (ℕ × DecodedInstruction × Line)) (lines : List Line)
    → next_lines rest o ≡ some (ok lines)
    → (n : ℕ) × (i : DecodedInstruction) × (line : Line) × (o ≡ ok (n, i, line))
      × (more : List Line) × (rest n i ≡ some (ok more))
      × (lines ≡ line ∷ more)
unfolding next_lines
next_lines-inverse rest (ok (n, i, line)) lines e =
    let (more, e1, same) = add_line-inverse line (rest n i) lines e in
    (n, i, line, refl, more, e1, same)
next_lines-inverse rest exit_error lines e = absurd (cc e)
next_lines-inverse rest out_of_bounds lines e = absurd (cc e)

-- A file that is disassembled to its end gives the same lines whatever stands behind it in the buffer.
pub disassemble-local :
    (fuel : ℕ) (buf buf' : Buffer) (ptr available : ℕ) (instruction : DecodedInstruction)
    (lines : List Line)
    → disassemble fuel buf ptr available instruction ≡ some (ok lines)
    → ((k : ℕ) → k < ptr + available → buf k ≡ buf' k)
    → disassemble fuel buf' ptr available instruction ≡ some (ok lines)
unfolding disassemble
disassemble-local fuel buf buf' ptr zero instruction lines e same = e
disassemble-local zero buf buf' ptr (suc more) instruction lines e same = e
disassemble-local (suc fuel) buf buf' ptr (suc more) instruction lines e same =
    let (n, i, line, decoded, after, e1, is_lines) =
      next_lines-inverse _ (decode_line buf ptr (suc more) instruction) lines e in
    let (some_bytes, within, decoded') =
      decode_line-local buf buf' ptr (suc more) n instruction i line decoded same in
    let rest =
      disassemble-local fuel buf buf' (ptr + n) (suc more - n) i after e1
        (λ k h. same k (omega (arith, h, within))) in
    next_lines-ok _ (decode_line buf' ptr (suc more) instruction) n i line after decoded' rest
    ∙ rw is_lines refl
