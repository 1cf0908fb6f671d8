-- ===== src/Standalone/Reach/Extraction.antt =====
-- decoder_8086/decoder.c: the bytes that the extract functions read and consume, on any buffer.
use computer_enhance.Shared.{
  ℕ, ◌+◌, ◌-◌, ◌≤◌, ◌≡◌, Bool, true, false, Option, none, some, Outcome, ok, access, ◌>>=◌,
  >>=-inverse, ◌==◌, if◌then◌else◌, Bool-cases, inl, inr, bit_or, ◌<<◌, arith,
}
use computer_enhance.Decoder.Extract.{Buffer, read_byte}
use computer_enhance.Standalone.Extract.{
  Line, extract_displacement, extract_data, explicit_extract_data,
}

-- One to six bytes, up to a readable one.
pub record ReachesTo (buf : Buffer) (n : ℕ) : Type 0 where
  pub some_bytes : 1 ≤ n
  pub at_most_six : n ≤ 6
  pub readable : (b : ℕ) × (buf (n - 1) ≡ some b)

abbrev pub Reaches : Buffer → Outcome (ℕ × Line) → Type 0
Reaches buf o = (n : ℕ) (line : Line) → o ≡ ok (n, line) → ReachesTo buf n

pub access-inverse : (o : Option ℕ) (b : ℕ) → access o ≡ ok b → o ≡ some b
access-inverse none b e = absurd (cc e)
access-inverse (some a) b e = cc e

module _ (buf : Buffer) where
  pub if-Reaches :
      (test : Bool) (x y : Outcome (ℕ × Line))
      → Reaches buf x
      → Reaches buf y
      → Reaches buf (if test then x else y)
  if-Reaches true x y hx hy = hx
  if-Reaches false x y hx hy = hy

  pub >>=-Reaches :
      {A : Type 0} (o : Outcome A) (next : A → Outcome (ℕ × Line))
      → ((a : A) → o ≡ ok a → Reaches buf (next a))
      → Reaches buf (o >>= next)
  >>=-Reaches o next further n line e =
      let (a, e1, e2) = >>=-inverse o next e in further a e1 n line e2

  pub ok-Reaches :
      (n b : ℕ) (line : Line) → 1 ≤ n → n ≤ 6 → buf (n - 1) ≡ some b → Reaches buf (ok (n, line))
  ok-Reaches n b line low high at n' line' e =
      let same : n ≡ n' = cc e in
      record {
        some_bytes = omega (arith, same, low);
        at_most_six = omega (arith, same, high);
        readable = (b, rw (← same) at);
      }

  -- What an extract function returns: one or two bytes, the last of them readable.
  abbrev pub Extracts : ℕ → Outcome (ℕ × ℕ) → Type 0
  Extracts ptr o =
      (k v : ℕ) → o ≡ ok (k, v) → (1 ≤ k) × (k ≤ 2) × ((b : ℕ) × (buf (ptr + k) ≡ some b))

  pub extract_displacement-Extracts :
      (ptr bit_w : ℕ) → Extracts ptr (extract_displacement buf ptr bit_w)
  unfolding extract_displacement
  extract_displacement-Extracts ptr bit_w k v e =
      let (low, e1, e2) = >>=-inverse (read_byte buf (ptr + 1)) _ e in
      elim (Bool-cases (bit_w == 0)) [
        | inl narrow ↦
            let one : 1 ≡ k = cc (rw narrow at e2) in
            (omega (arith, one), omega (arith, one), (low, rw (← one) (access-inverse _ low e1)))
        | inr wide ↦
            let (high, e3, e4) = >>=-inverse (read_byte buf (ptr + 2)) _ (rw wide at e2) in
            let two : 2 ≡ k = cc e4 in
            (omega (arith, two), omega (arith, two), (high, rw (← two) (access-inverse _ high e3)))
      ]

  pub extract_data-Extracts : (ptr bit_w : ℕ) → Extracts ptr (extract_data buf ptr bit_w)
  unfolding extract_data extract_displacement
  extract_data-Extracts = extract_displacement-Extracts

  pub explicit_extract_data-Extracts :
      (ptr bit_s bit_w : ℕ) → Extracts ptr (explicit_extract_data buf ptr bit_s bit_w)
  unfolding explicit_extract_data
  explicit_extract_data-Extracts ptr bit_s bit_w k v e =
      let (low, e1, e2) = >>=-inverse (read_byte buf (ptr + 1)) _ e in
      elim (Bool-cases (bit_or (bit_s << 1) bit_w == 0)) [
        | inl as_it_is ↦
            let one : 1 ≡ k = cc (rw as_it_is at e2) in
            (omega (arith, one), omega (arith, one), (low, rw (← one) (access-inverse _ low e1)))
        | inr other ↦ elim (Bool-cases (bit_or (bit_s << 1) bit_w == 1)) [
          | inl wide ↦
              let (high, e3, e4) =
                >>=-inverse (read_byte buf (ptr + 2)) _ (rw (other, wide) at e2) in
              let two : 2 ≡ k = cc e4 in
              (
                omega (arith, two),
                omega (arith, two),
                (high, rw (← two) (access-inverse _ high e3)),
              )
          | inr extended ↦
              let one : 1 ≡ k = cc (rw (other, extended) at e2) in
              (omega (arith, one), omega (arith, one), (low, rw (← one) (access-inverse _ low e1)))
        ]
      ]

  -- A line behind an extraction at `ptr`.
  pub extracted-Reaches :
      (before ptr : ℕ) (o : Outcome (ℕ × ℕ)) (line : ℕ → Line)
      → before ≡ 1 + ptr
      → ptr ≤ 3
      → Extracts ptr o
      → Reaches buf (o >>= λ p. ok (before + p.0, line p.1))
  extracted-Reaches before ptr o line from room h = >>=-Reaches o _ λ p e.
      let (low, high, (b, at)) = h p.0 p.1 e in
      let same : before + p.0 - 1 ≡ ptr + p.0 = omega (arith, from) in
      ok-Reaches (before + p.0) b (line p.1) (omega (arith, low)) (omega (arith, from, room, high))
        (rw same at)

  pub two-Reaches : (b : ℕ) (line : Line) → read_byte buf 1 ≡ ok b → Reaches buf (ok (2, line))
  two-Reaches b line e = ok-Reaches 2 b line (omega arith) (omega arith) (access-inverse _ b e)
