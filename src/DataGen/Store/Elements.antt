-- ===== src/DataGen/Store/Elements.antt =====
-- Lists by position: their elements, and a list with one more at its end.
use computer_enhance.Shared.{
  ℕ, zero, suc, ◌<◌, ◌≡◌, refl, ap, ◌==◌, ltb, if◌then◌else◌, List, [], ◌∷◌, ◌++◌, length,
  get_elem?, none, some, arith,
}

module _ {A : Type 0} where
  pub get_elem?-snoc :
      (xs : List A) (x : A) (k : ℕ)
      → get_elem? (xs ++ x ∷ []) k
        ≡ (if ltb k (length xs) then get_elem? xs k else if k == length xs then some x else none)
  get_elem?-snoc [] x zero = refl
  get_elem?-snoc [] x (suc k) = ground arith
  get_elem?-snoc (y ∷ xs) x zero = ground arith
  get_elem?-snoc (y ∷ xs) x (suc k) = ground (arith, get_elem?-snoc xs x k)

  pub get_elem?-lt : (xs : List A) (k : ℕ) → k < length xs → (a : A) × (get_elem? xs k ≡ some a)
  get_elem?-lt [] k h = absurd (omega arith)
  get_elem?-lt (x ∷ xs) zero h = (x, refl)
  get_elem?-lt (x ∷ xs) (suc k) h = get_elem?-lt xs k (omega arith)

  pub first_elem : (x : A) (k : ℕ) (a : A) → get_elem? (x ∷ []) k ≡ some a → (k ≡ 0) × (a ≡ x)
  first_elem x zero a e = (refl, cc (e))
  first_elem x (suc k) a e = absurd (cc e)

  pub length-snoc : (xs : List A) (x : A) → length (xs ++ x ∷ []) ≡ suc (length xs)
  length-snoc [] x = refl
  length-snoc (y ∷ xs) x = ap suc (length-snoc xs x)
