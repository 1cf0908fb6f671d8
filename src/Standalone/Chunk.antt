-- ===== src/Standalone/Chunk.antt =====
-- decoder_8086/decoder.c: the inner loop of main, over the bytes of a chunk.
use computer_enhance.Shared.{
  ℕ, zero, suc, ◌+◌, ◌-◌, ◌^◌, ◌≤◌, ◌<◌, ◌≡◌, refl, ◌⊎◌, inl, inr, ltb, Bool-cases, List, [], ◌∷◌,
  length, Option, none, some, Outcome, ok, exit_error, out_of_bounds, arith,
}
use computer_enhance.Decoder.Extract.{Buffer}
use computer_enhance.Decoder.Disassemble.{from}
use computer_enhance.Standalone.Extract.{Line}
use computer_enhance.Standalone.Main.{
  process_instruction, bytes_left, with_line, after_round, decode_chunk, buffer_size,
}
use computer_enhance.Standalone.Reach.{process_instruction-Reaches}

-- Nothing can be read behind the buffer that main allocates.
abbrev pub IsSized : Buffer → Type 0
IsSized buf = (i b : ℕ) → buf i ≡ some b → i < buffer_size

-- The lines are those of instructions that lie end to end in the bytes from `ptr` on.
abbrev pub Tiles : Buffer → ℕ → ℕ → List Line → Type 0
Tiles buf ptr available [] = available ≡ 0
Tiles buf ptr available (line ∷ lines) =
    (n : ℕ) × (process_instruction (from ptr buf) ≡ ok (n, line))
    × (n ≤ available)
    × Tiles buf (ptr + n) (available - n) lines

-- A round moves on, and stays in the buffer.
round_moves :
    (buf : Buffer) (ptr n : ℕ) (line : Line)
    → IsSized buf
    → process_instruction (from ptr buf) ≡ ok (n, line)
    → (1 ≤ n) × (n ≤ 6) × (ptr + n ≤ buffer_size)
round_moves buf ptr n line sized e =
    let reached = process_instruction-Reaches (from ptr buf) n line e in
    let (b, at) = reached.readable in
    (
      reached.some_bytes,
      reached.at_most_six,
      omega (arith, sized (ptr + (n - 1)) b at, reached.some_bytes),
    )

with_line-ends :
    (line : Line) (r : Outcome (List Line))
    → (r' : Outcome (List Line)) × (with_line line (some r) ≡ some r')
unfolding with_line
with_line-ends line (ok lines) = (ok (line ∷ lines), refl)
with_line-ends line exit_error = (exit_error, refl)
with_line-ends line out_of_bounds = (out_of_bounds, refl)

after_round-ends :
    (rest : ℕ → Option (Outcome (List Line))) (o : Outcome (ℕ × Line))
    → ((n : ℕ) (line : Line) → o ≡ ok (n, line) → (r : Outcome (List Line)) × (rest n ≡ some r))
    → (r : Outcome (List Line)) × (after_round rest o ≡ some r)
unfolding after_round
after_round-ends rest (ok (n, line)) further =
    let (r, e) = further n line refl in rw e (with_line-ends line r)
after_round-ends rest exit_error further = (exit_error, refl)
after_round-ends rest out_of_bounds further = (out_of_bounds, refl)

-- The inner loop ends within one round for each byte of the buffer that is left and one more, whatever
-- the bytes and their number are, even where bytes_available wraps around.
pub decode_chunk-ends :
    (fuel : ℕ) (buf : Buffer) (ptr available : ℕ)
    → IsSized buf
    → ptr ≤ buffer_size
    → buffer_size < fuel + ptr
    → (r : Outcome (List Line)) × (decode_chunk fuel buf ptr available ≡ some r)
unfolding decode_chunk
decode_chunk-ends fuel buf ptr zero sized room enough = (ok [], refl)
decode_chunk-ends zero buf ptr (suc more) sized room enough = absurd (omega arith)
decode_chunk-ends (suc fuel) buf ptr (suc more) sized room enough =
    after_round-ends _ (process_instruction (from ptr buf)) λ n line e.
      let (moved, _, within) = round_moves buf ptr n line sized e in
      decode_chunk-ends fuel buf (ptr + n) (bytes_left (suc more) n) sized within
        (omega (arith, enough, moved))

with_line-inverse :
    (line : Line) (o : Option (Outcome (List Line))) (lines : List Line)
    → with_line line o ≡ some (ok lines)
    → (further : List Line) × (o ≡ some (ok further)) × (lines ≡ line ∷ further)
unfolding with_line
with_line-inverse line (some (ok further)) lines e = (further, refl, cc e)
with_line-inverse line (some exit_error) lines e = absurd (cc e)
with_line-inverse line (some out_of_bounds) lines e = absurd (cc e)
with_line-inverse line none lines e = absurd (cc e)

after_round-inverse :
    (rest : ℕ → Option (Outcome (List Line))) (o : Outcome (ℕ × Line)) (lines : List Line)
    → after_round rest o ≡ some (ok lines)
    → (n : ℕ) × (line : Line) × (o ≡ ok (n, line))
      × (further : List Line) × (rest n ≡ some (ok further))
      × (lines ≡ line ∷ further)
unfolding after_round
after_round-inverse rest (ok (n, line)) lines e =
    let (further, e1, same) = with_line-inverse line (rest n) lines e in
    (n, line, refl, further, e1, same)
after_round-inverse rest exit_error lines e = absurd (cc e)
after_round-inverse rest out_of_bounds lines e = absurd (cc e)

bytes_left-fits :
    (available n : ℕ) → n ≤ available → available < 2 ^ 64 → bytes_left available n ≡ available - n
unfolding bytes_left
bytes_left-fits available n fits small = omega (arith, fits, small)

bytes_left-wraps : (available n : ℕ) → available < n → n ≤ 6 → 2 ^ 64 - 6 ≤ bytes_left available n
unfolding bytes_left
bytes_left-wraps available n over small = omega (arith, over, small)

-- The inner loop prints all of a chunk only if instructions lie end to end in exactly its bytes and the
-- lines are theirs; in particular the chunk is not longer than what is left of the buffer, and an
-- instruction that goes on behind the chunk keeps the loop from ending normally.
pub decode_chunk-Tiles :
    (fuel : ℕ) (buf : Buffer) (ptr available : ℕ) (lines : List Line)
    → IsSized buf
    → available < 2 ^ 64
    → decode_chunk fuel buf ptr available ≡ some (ok lines)
    → ((available ≡ 0) ⊎ (ptr + available ≤ buffer_size)) × Tiles buf ptr available lines
unfolding decode_chunk
decode_chunk-Tiles fuel buf ptr zero lines sized small e =
    let none_left : [] ≡ lines = cc e in (inl refl, rw (← none_left) refl)
decode_chunk-Tiles zero buf ptr (suc more) lines sized small e = absurd (cc e)
decode_chunk-Tiles (suc fuel) buf ptr (suc more) lines sized small e =
    let (n, line, e1, further, e2, same) = after_round-inverse _ _ lines e in
    let (moved, short, within) = round_moves buf ptr n line sized e1 in
    let left = bytes_left (suc more) n in
    let (room, tiles) =
      decode_chunk-Tiles fuel buf (ptr + n) left further sized (unfold bytes_left in omega arith)
        e2 in
    elim (Bool-cases (ltb (suc more) n)) [
      | inl over ↦ absurd (elim room [
        | inl nothing ↦
            omega (arith, bytes_left-wraps (suc more) n (ground (arith, over)) short, nothing)
        | inr fits ↦ omega (arith, bytes_left-wraps (suc more) n (ground (arith, over)) short, fits)
      ])
      | inr fits ↦
          let less : n ≤ suc more = ground (arith, fits) in
          let left_over = bytes_left-fits (suc more) n less small in
          (
            inr (elim room [
              | inl nothing ↦ omega (arith, left_over, nothing, within, less)
              | inr further_room ↦ omega (arith, left_over, further_room, less)
            ]),
            rw same (n, e1, less, rw left_over at tiles),
          )
    ]

-- Conversely, instructions that lie end to end are printed, with one round for each.
pub Tiles-decode_chunk :
    (fuel : ℕ) (buf : Buffer) (ptr available : ℕ) (lines : List Line)
    → available < 2 ^ 64
    → length lines ≤ fuel
    → Tiles buf ptr available lines
    → decode_chunk fuel buf ptr available ≡ some (ok lines)
unfolding decode_chunk after_round with_line
Tiles-decode_chunk fuel buf ptr available [] small enough tiles = rw tiles refl
Tiles-decode_chunk zero buf ptr available (line ∷ lines) small enough tiles = absurd (omega arith)
Tiles-decode_chunk (suc fuel) buf ptr zero (line ∷ lines) small enough (n, e, less, tiles) =
    absurd (omega (arith, less, (process_instruction-Reaches (from ptr buf) n line e).some_bytes))
Tiles-decode_chunk (suc fuel) buf ptr (suc more) (line ∷ lines) small enough (n, e, less, tiles) =
    rw (e, bytes_left-fits (suc more) n less small)
      (rw
        (Tiles-decode_chunk fuel buf (ptr + n) (suc more - n) lines (omega (arith, small))
          (omega (arith, enough)) tiles)
        refl)

-- No more lines than bytes.
pub Tiles-length :
    (buf : Buffer) (ptr available : ℕ) (lines : List Line)
    → Tiles buf ptr available lines
    → length lines ≤ available
Tiles-length buf ptr available [] tiles = omega arith
Tiles-length buf ptr available (line ∷ lines) (n, e, less, tiles) = omega (
  arith,
  Tiles-length buf (ptr + n) (available - n) lines tiles,
  less,
  (process_instruction-Reaches (from ptr buf) n line e).some_bytes,
)
