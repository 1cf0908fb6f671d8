-- ===== src/Shared/Words.antt =====
-- What `|` and `&` do to the high and the low part of a word, at every width.
use Prim.Native.Nat.{ℕ, zero, suc, ◌+◌, ◌*◌, ◌/◌, ◌^◌, ◌<◌, bit_and, bit_or}
use mathlib.Core.Path.{◌≡◌, ap}
use native.Mathlib.Omega.{arith}
use native.Mathlib.Nat.{pow-suc}
use computer_enhance.Shared.Bits.{bit_and-halves, bit_or-halves, bit_or-zero, bit_and-zero}

mul-pow-suc : (q k : ℕ) → q * 2 ^ suc k ≡ 2 * (q * 2 ^ k)
mul-pow-suc q k = omega (arith, ap (λ (t : ℕ). q * t) (pow-suc 2 k))

-- `&` acts on the parts separately.
pub bit_and_parts :
    (k q m r s : ℕ)
    → r < 2 ^ k
    → s < 2 ^ k
    → bit_and (q * 2 ^ k + r) (m * 2 ^ k + s) ≡ bit_and q m * 2 ^ k + bit_and r s
bit_and_parts zero q m zero zero hr hs = rw (bit_and-zero 0) (ground arith)
bit_and_parts zero q m (suc r) s hr hs = absurd (omega arith)
bit_and_parts zero q m zero (suc s) hr hs = absurd (omega arith)
bit_and_parts (suc k) q m r s hr hs = ground (
  arith,
  bit_and-halves (q * 2 ^ suc k + r) (m * 2 ^ suc k + s),
  bit_and-halves r s,
  mul-pow-suc q k,
  mul-pow-suc m k,
  mul-pow-suc (bit_and q m) k,
  pow-suc 2 k,
  bit_and_parts k q m (r / 2) (s / 2) (omega arith) (omega arith),
)

-- So does `|`.
pub bit_or_parts :
    (k q m r s : ℕ)
    → r < 2 ^ k
    → s < 2 ^ k
    → bit_or (q * 2 ^ k + r) (m * 2 ^ k + s) ≡ bit_or q m * 2 ^ k + bit_or r s
bit_or_parts zero q m zero zero hr hs = rw (bit_or-zero 0) (ground arith)
bit_or_parts zero q m (suc r) s hr hs = absurd (omega arith)
bit_or_parts zero q m zero (suc s) hr hs = absurd (omega arith)
bit_or_parts (suc k) q m r s hr hs = ground (
  arith,
  bit_or-halves (q * 2 ^ suc k + r) (m * 2 ^ suc k + s),
  bit_or-halves r s,
  mul-pow-suc q k,
  mul-pow-suc m k,
  mul-pow-suc (bit_or q m) k,
  pow-suc 2 k,
  bit_or_parts k q m (r / 2) (s / 2) (omega arith) (omega arith),
)
