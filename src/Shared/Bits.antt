-- ===== src/Shared/Bits.antt =====
-- The C operators `&`, `|`, `~`, `<<` and `>>` on words, and their meaning as arithmetic.
use Prim.Native.Nat.{ℕ, zero, suc, ◌+◌, ◌-◌, ◌*◌, ◌/◌, ◌%◌, ◌^◌, ◌≤◌, ◌<◌, min, max}
use Prim.Native.Nat.{bit_and, bit_or, digits, bit_and-bitwise, bit_or-bitwise}
use mathlib.Core.Path.{◌≡◌, refl, ◌∙◌}
use mathlib.Core.Bool.{Bool, true, false}
use mathlib.Core.Logic.{inl, inr}
use native.Mathlib.Omega.{arith}
use computer_enhance.Shared.Tests.{◌==◌, ==_iff, if◌then◌else◌, Bool-cases}

abbrev pub u8 : ℕ → ℕ
u8 n = n % 2 ^ 8

abbrev pub u16 : ℕ → ℕ
u16 n = n % 2 ^ 16

-- a - b in uint16_t; `-` on ℕ stops at 0, so the modulus is added first.
abbrev pub sub16 : ℕ → ℕ → ℕ
sub16 a b = (a + 2 ^ 16 - b) % 2 ^ 16

infixl 75 ◌<<◌ ◌>>◌
abbrev pub ◌<<◌ : ℕ → ℕ → ℕ
x << k = x * 2 ^ k

abbrev pub ◌>>◌ : ℕ → ℕ → ℕ
x >> k = x / 2 ^ k

-- ~mask, cut to 16 bits.
abbrev pub not16 : ℕ → ℕ
not16 mask = 2 ^ 16 - 1 - mask

-- A test that passes for each number under a bound, run from the bound downwards.
unfoldable pub passes_below : (ℕ → Bool) → ℕ → Bool
passes_below test zero = true
passes_below test (suc last) = if test last then passes_below test last else false

pub passes_below-at :
    (test : ℕ → Bool) (bound : ℕ)
    → passes_below test bound ≡ true
    → (i : ℕ) → i < bound
    → test i ≡ true
unfolding passes_below
passes_below-at test zero passed i inside = absurd (omega arith)
passes_below-at test (suc last) passed i inside = elim (Bool-cases (i == last)) [
  | inl here ↦ ground (arith, passed, here)
  | inr below ↦ passes_below-at test last (ground (arith, passed)) i (ground (arith, below))
]

-- Two functions into ℕ that agree below a bound.
pub agree_below :
    (bound : ℕ) (f g : ℕ → ℕ)
    → passes_below (λ x. f x == g x) bound ≡ true
    → (i : ℕ) → i < bound
    → f i ≡ g i
agree_below bound f g table i inside =
    (==_iff (f i) (g i)).0 (passes_below-at (λ y. f y == g y) bound table i inside)

-- Induction by halving.
module _ {ℓ} (P : ℕ → Type ℓ) (base : P 0) (double : (a : ℕ) → P (suc a / 2) → P (suc a)) where
  halving_under : (bound a : ℕ) → a < bound → P a
  halving_under zero a inside = absurd (omega arith)
  halving_under (suc bound) zero inside = base
  halving_under (suc bound) (suc a) inside =
      double a (halving_under bound (suc a / 2) (omega arith))

  halving : (a : ℕ) → P a
  halving a = halving_under (suc a) a (omega arith)

-- A bitwise operation on digits, and what it does to the halves and the last bits. One digit of fuel
-- more than the first number has changes nothing.
module _ (z : ℕ → ℕ) (f : ℕ → ℕ → ℕ) where
  one_more : (fuel x y : ℕ) → x ≤ fuel → digits z f (suc fuel) x y ≡ digits z f fuel x y
  one_more zero zero y enough = refl
  one_more (suc fuel) zero y enough = refl
  one_more zero (suc x) y enough = absurd (omega arith)
  one_more (suc fuel) (suc x) y enough =
      omega (arith, one_more fuel (suc x / 2) (y / 2) (omega arith))

  least : (fuel x y : ℕ) → x ≤ fuel → digits z f fuel x y ≡ digits z f x x y
  least zero x y enough = ground arith
  least (suc fuel) x y enough = elim (Bool-cases (x == suc fuel)) [
    | inl same ↦ ground (arith, same)
    | inr less ↦ one_more fuel x y (ground (arith, less)) ∙ least fuel x y (ground (arith, less))
  ]

  module _ (op : ℕ → ℕ → ℕ) (op_digits : (x y : ℕ) → op x y ≡ digits z f x x y)
      (z_halves : (y : ℕ) → z y ≡ 2 * z (y / 2) + f 0 (y % 2)) where
    op-halves : (x y : ℕ) → op x y ≡ 2 * op (x / 2) (y / 2) + f (x % 2) (y % 2)
    op-halves zero y = omega (arith, op_digits 0 y, op_digits 0 (y / 2), z_halves y)
    op-halves (suc x) y = omega (
      arith,
      op_digits (suc x) y,
      op_digits (suc x / 2) (y / 2),
      least x (suc x / 2) (y / 2) (omega arith),
    )

pub bit_and-halves : (x y : ℕ) → bit_and x y ≡ 2 * bit_and (x / 2) (y / 2) + min (x % 2) (y % 2)
bit_and-halves = op-halves (λ y. 0) min bit_and (λ x y. bit_and-bitwise x y) (λ y. omega arith)

pub bit_or-halves : (x y : ℕ) → bit_or x y ≡ 2 * bit_or (x / 2) (y / 2) + max (x % 2) (y % 2)
bit_or-halves = op-halves (λ y. y) max bit_or (λ x y. bit_or-bitwise x y) (λ y. omega arith)

pub bit_or-zero : (a : ℕ) → bit_or a 0 ≡ a
bit_or-zero =
    halving (λ a. bit_or a 0 ≡ a) refl (λ a half. omega (arith, bit_or-halves (suc a) 0, half))

pub bit_and-zero : (a : ℕ) → bit_and a 0 ≡ 0
bit_and-zero =
    halving (λ a. bit_and a 0 ≡ 0) refl (λ a half. omega (arith, bit_and-halves (suc a) 0, half))
