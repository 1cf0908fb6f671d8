-- ===== src/DataGen/RoundTrip/Scans.antt =====
-- data_gen/json_data_parser.c: advance_until and extract_until on text in which the target is known.
use computer_enhance.Shared.{
  ℕ, zero, suc, ◌≤◌, ◌<◌, ◌≡◌, refl, ◌==◌, true, false, ltb, List, [], ◌∷◌, ◌++◌, length, ok, arith,
}
use computer_enhance.DataGen.Scan.{advance_until, extract_until, c_string, terminated}

-- The target is not in the text.
abbrev pub Avoids : ℕ → List ℕ → Type 0
Avoids target [] = Unit
Avoids target (b ∷ text) = ((b == target) ≡ false) × Avoids target text

pub advance_until-Avoids :
    (target : ℕ) (text rest : List ℕ)
    → Avoids target text
    → advance_until target (text ++ target ∷ rest) ≡ (true, rest)
unfolding advance_until
advance_until-Avoids target [] rest avoids = ground arith
advance_until-Avoids target (b ∷ text) rest (other, avoids) =
    rw other (advance_until-Avoids target text rest avoids)

pub advance_until_missing :
    (target : ℕ) (text : List ℕ) → Avoids target text → advance_until target text ≡ (false, [])
unfolding advance_until
advance_until_missing target [] avoids = refl
advance_until_missing target (b ∷ text) (other, avoids) =
    rw other (advance_until_missing target text avoids)

pub append-Avoids :
    (target : ℕ) (text more : List ℕ)
    → Avoids target text
    → Avoids target more
    → Avoids target (text ++ more)
append-Avoids target [] more avoids h = h
append-Avoids target (b ∷ text) more (other, avoids) h =
    (other, append-Avoids target text more avoids h)

pub extract_until-Avoids :
    (room target : ℕ) (text rest : List ℕ)
    → Avoids target text
    → length text ≤ room
    → extract_until room target (text ++ target ∷ rest) ≡ ok (text, rest)
unfolding extract_until
extract_until-Avoids room target [] rest avoids h = ground arith
extract_until-Avoids zero target (b ∷ text) rest avoids h = absurd (omega arith)
extract_until-Avoids (suc room) target (b ∷ text) rest (other, avoids) h =
    rw (other, extract_until-Avoids room target text rest avoids (omega arith)) refl

c_string-Avoids : (text : List ℕ) → Avoids 0 text → c_string text ≡ text
unfolding c_string
c_string-Avoids [] avoids = refl
c_string-Avoids (b ∷ text) (other, avoids) = rw (other, c_string-Avoids text avoids) refl

pub terminated-Avoids :
    (size : ℕ) (text : List ℕ) → Avoids 0 text → length text < size → terminated size text ≡ ok text
unfolding terminated
terminated-Avoids size text avoids h =
    let short : ltb (length text) size ≡ true = ground arith in
    rw (c_string-Avoids text avoids, short) refl
