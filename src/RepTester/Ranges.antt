-- ===== src/RepTester/Ranges.antt =====
-- rep_tester/rep_test1.c: the shortest and the longest of the first times, one time after the other.
use computer_enhance.Shared.{
  ℕ, zero, suc, ◌≤◌, ◌<◌, ◌≡◌, ◌⊎◌, inl, inr, ◌||◌, ltb, ◌==◌, if◌then◌else◌, Bool-cases, arith,
}

-- The extremes of the first k values, which both occur.
pub record IsRange (f : ℕ → ℕ) (k low high : ℕ) : Type 0 where
  pub within : (j : ℕ) → j < k → (low ≤ f j) × (f j ≤ high)
  pub least_occurs : (j : ℕ) × (j < k) × (low ≡ f j)
  pub greatest_occurs : (j : ℕ) × (j < k) × (high ≡ f j)

-- As test_main keeps them: a least time of 0 stands for none.
abbrev pub lower : ℕ → ℕ → ℕ
lower low x = if low == 0 || ltb x low then x else low

abbrev pub higher : ℕ → ℕ → ℕ
higher high x = if ltb high x then x else high

module _ (f : ℕ → ℕ) (positive : (j : ℕ) → 1 ≤ f j) where
  one-IsRange : (k low high : ℕ) → k ≡ 0 → low ≡ f k → high ≡ f k → IsRange f (suc k) low high
  one-IsRange zero low high e el eh = record {
    within = λ j h.
        let only : j ≡ 0 = omega (arith, h) in rw only (omega (arith, el), omega (arith, eh));
    least_occurs = (0, omega arith, el);
    greatest_occurs = (0, omega arith, eh);
  }
  one-IsRange (suc k) low high e el eh = absurd (omega (arith, e))

  lower_bounds : (low x : ℕ) → 1 ≤ low → (lower low x ≤ low) × (lower low x ≤ x)
  lower_bounds low x h = ground arith

  higher_bounds : (high x : ℕ) → (high ≤ higher high x) × (x ≤ higher high x)
  higher_bounds high x = ground arith

  lower-cases : (low x : ℕ) → 1 ≤ low → (lower low x ≡ x) ⊎ (lower low x ≡ low)
  lower-cases low x h = ground arith

  higher-cases : (high x : ℕ) → (higher high x ≡ x) ⊎ (higher high x ≡ high)
  higher-cases high x = ground arith

  more-IsRange :
      (k low high : ℕ)
      → IsRange f k low high
      → IsRange f (suc k) (lower low (f k)) (higher high (f k))
  more-IsRange k low high range =
      let x = f k in
      let (j0, before0, e0) = range.least_occurs in
      let (j1, before1, e1) = range.greatest_occurs in
      let some_low : 1 ≤ low = omega (arith, e0, positive j0) in
      let (low_old, low_new) = lower_bounds low x some_low in
      let (high_old, high_new) = higher_bounds high x in
      record {
        within = λ j h. elim (Bool-cases (ltb j k)) [
          | inl old ↦
              let (above, below) = range.within j (ground (arith, old)) in
              (omega (arith, above, low_old), omega (arith, below, high_old))
          | inr new ↦ let last : j ≡ k = ground (arith, new, h) in rw last (low_new, high_new)
        ];
        least_occurs = elim (lower-cases low x some_low) [
          | inl new ↦ (k, omega arith, new)
          | inr old ↦ (j0, omega (arith, before0), omega (arith, old, e0))
        ];
        greatest_occurs = elim (higher-cases high x) [
          | inl new ↦ (k, omega arith, new)
          | inr old ↦ (j1, omega (arith, before1), omega (arith, old, e1))
        ];
      }

  pub next-IsRange :
      (k low high : ℕ)
      → (((k ≡ 0) × (low ≡ 0) × (high ≡ 0)) ⊎ IsRange f k low high)
      → IsRange f (suc k) (lower low (f k)) (higher high (f k))
  next-IsRange k low high (inl (first, no_low, no_high)) =
      one-IsRange k _ _ first (ground (arith, no_low)) (ground (arith, no_high, positive k))
  next-IsRange k low high (inr range) = more-IsRange k low high range
