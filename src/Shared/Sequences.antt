-- ===== src/Shared/Sequences.antt =====
-- Two lists joined, and their elements by position.
use Prim.Native.Nat.{ℕ, zero, suc, ◌+◌, ◌<◌}
use mathlib.Core.Path.{◌≡◌, refl, ap}
use mathlib.Core.Option.{some}
use mathlib.Core.List.{List, [], ◌∷◌, ◌++◌}
use native.Mathlib.Omega.{arith}
use computer_enhance.Shared.Lists.{length, get_elem?}

module _ {ℓ} {A : Type ℓ} where
  pub ++-nil : (xs : List A) → xs ++ [] ≡ xs
  ++-nil [] = refl
  ++-nil (x ∷ xs) = ap (λ l. x ∷ l) (++-nil xs)

  pub ++-assoc : (xs ys zs : List A) → (xs ++ ys) ++ zs ≡ xs ++ (ys ++ zs)
  ++-assoc [] ys zs = refl
  ++-assoc (x ∷ xs) ys zs = ap (λ l. x ∷ l) (++-assoc xs ys zs)

  pub length-++ : (xs ys : List A) → length (xs ++ ys) ≡ length xs + length ys
  length-++ [] ys = omega arith
  length-++ (x ∷ xs) ys = omega (arith, length-++ xs ys)

  pub get_elem?-++ :
      (xs ys : List A) (i : ℕ) → get_elem? (xs ++ ys) (length xs + i) ≡ get_elem? ys i
  get_elem?-++ [] ys i = let same : 0 + i ≡ i = omega arith in rw same refl
  get_elem?-++ (x ∷ xs) ys i =
      let same : suc (length xs) + i ≡ suc (length xs + i) = omega arith in
      rw same (get_elem?-++ xs ys i)

  pub get_elem?-prefix :
      (xs ys : List A) (i : ℕ) (a : A) → get_elem? xs i ≡ some a → get_elem? (xs ++ ys) i ≡ some a
  get_elem?-prefix [] ys i a e = absurd (cc e)
  get_elem?-prefix (x ∷ xs) ys zero a e = e
  get_elem?-prefix (x ∷ xs) ys (suc i) a e = get_elem?-prefix xs ys i a e

  pub get_elem?-lt : (xs : List A) (i : ℕ) (a : A) → get_elem? xs i ≡ some a → i < length xs
  get_elem?-lt [] i a e = absurd (cc e)
  get_elem?-lt (x ∷ xs) zero a e = omega arith
  get_elem?-lt (x ∷ xs) (suc i) a e = omega (arith, get_elem?-lt xs i a e)
