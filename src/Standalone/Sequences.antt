-- ===== src/Standalone/Sequences.antt =====
-- decoder_8086/decoder.c: the chunks that fread takes, and the buffer with a chunk in it.
use computer_enhance.Shared.{
  ℕ, zero, suc, ◌-◌, ◌≤◌, ◌≡◌, refl, ap, ltb, Bool-cases, inl, inr, List, [], ◌∷◌, ◌++◌, length,
  get_elem?, some, arith,
}
use computer_enhance.Shared.Sequences.{get_elem?-lt}
use computer_enhance.Decoder.Extract.{Buffer}
use computer_enhance.Standalone.Main.{fread, filled}
use computer_enhance.Standalone.Kept.{Extends}

-- fread takes the next chunk.
pub fread-++ : (xs ys : List ℕ) (n : ℕ) → length xs ≡ n → fread n (xs ++ ys) ≡ (xs, ys)
unfolding fread
fread-++ [] ys zero e = refl
fread-++ [] ys (suc n) e = absurd (omega (arith, e))
fread-++ (x ∷ xs) ys zero e = absurd (omega (arith, e))
fread-++ (x ∷ xs) ys (suc n) e = rw (fread-++ xs ys n (omega (arith, e))) refl

pub fread-whole : (xs : List ℕ) (n : ℕ) → length xs ≤ n → fread n xs ≡ (xs, [])
unfolding fread
fread-whole [] zero e = refl
fread-whole [] (suc n) e = refl
fread-whole (x ∷ xs) zero e = absurd (omega (arith, e))
fread-whole (x ∷ xs) (suc n) e = rw (fread-whole xs n (omega (arith, e))) refl

pub fread-length : (n : ℕ) (file : List ℕ) → length (fread n file).0 ≤ n
unfolding fread
fread-length zero file = omega arith
fread-length (suc n) [] = omega arith
fread-length (suc n) (b ∷ file) = omega (arith, fread-length n file)

pub fread-rest : (n : ℕ) (file : List ℕ) → length (fread n file).1 ≡ length file - n
unfolding fread
fread-rest zero file = omega arith
fread-rest (suc n) [] = omega arith
fread-rest (suc n) (b ∷ file) = omega (arith, fread-rest n file)

-- The buffer holds the chunk, and nothing more than it did before.
pub filled-Extends : (chunk : List ℕ) (buf : Buffer) → Extends (get_elem? chunk) (filled chunk buf)
unfolding filled
filled-Extends chunk buf i b e = elim (Bool-cases (ltb i (length chunk))) [
  | inl inside ↦ rw inside e
  | inr outside ↦ absurd (ground (arith, get_elem?-lt chunk i b e, outside))
]

pub fread-full : (n : ℕ) (file : List ℕ) → n ≤ length file → length (fread n file).0 ≡ n
unfolding fread
fread-full zero file h = refl
fread-full (suc n) [] h = absurd (omega arith)
fread-full (suc n) (b ∷ file) h = ap suc (fread-full n file (omega arith))

pub fread-prefix :
    (n : ℕ) (file : List ℕ) (i b : ℕ)
    → get_elem? (fread n file).0 i ≡ some b
    → get_elem? file i ≡ some b
unfolding fread
fread-prefix zero file i b e = absurd (cc e)
fread-prefix (suc n) [] i b e = absurd (cc e)
fread-prefix (suc n) (a ∷ file) zero b e = e
fread-prefix (suc n) (a ∷ file) (suc i) b e = fread-prefix n file i b e
