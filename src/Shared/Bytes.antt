-- ===== src/Shared/Bytes.antt =====
-- Masks and joins on bytes and 16-bit words, as arithmetic.
use Prim.Native.Nat.{
  ℕ, ◌+◌, ◌*◌, ◌/◌, ◌%◌, ◌^◌, ◌<◌, bit_and, bit_or, bit_or-bitwise, bit_and-bitwise,
}
use mathlib.Core.Path.{◌≡◌, refl}
use native.Mathlib.Omega.{arith}
use computer_enhance.Shared.Bits.{passes_below, agree_below, bit_or-zero, bit_and-zero}
use computer_enhance.Shared.Words.{bit_and_parts, bit_or_parts}

pub zero-bit_or : (b : ℕ) → bit_or 0 b ≡ b
zero-bit_or b = bit_or-bitwise 0 b

zero-bit_and : (b : ℕ) → bit_and 0 b ≡ 0
zero-bit_and b = bit_and-bitwise 0 b

pub bit_and_ones : (b : ℕ) → b < 256 → bit_and b 0xff ≡ b
unfolding passes_below
bit_and_ones = agree_below 256 (λ b. bit_and b 0xff) (λ b. b) refl

-- (high << 8) | low
pub bit_or_join : (high low : ℕ) → low < 256 → bit_or (high * 256) low ≡ high * 256 + low
bit_or_join high low h =
    ground (arith, bit_or_parts 8 high 0 0 low, bit_or-zero high, zero-bit_or low)

pub bit_and_low_byte : (x : ℕ) → bit_and x 0xff ≡ x % 256
bit_and_low_byte x = ground (
  arith,
  bit_and_parts 8 (x / 256) 0 (x % 256) 0xff,
  bit_and-zero (x / 256),
  bit_and_ones (x % 256) (omega arith),
)

pub bit_and_high_byte : (x : ℕ) → x < 2 ^ 16 → bit_and x 0xff00 ≡ x / 256 * 256
bit_and_high_byte x h = ground (
  arith,
  bit_and_parts 8 (x / 256) 0xff (x % 256) 0,
  bit_and_ones (x / 256) (omega arith),
  bit_and-zero (x % 256),
)

pub bit_and_word : (x : ℕ) → x < 2 ^ 16 → bit_and x 0xffff ≡ x
bit_and_word x h = ground (
  arith,
  bit_and_parts 8 (x / 256) 0xff (x % 256) 0xff,
  bit_and_ones (x / 256) (omega arith),
  bit_and_ones (x % 256) (omega arith),
)

-- (x << 8) & 0xff00
pub bit_and_shifted : (x : ℕ) → bit_and (x * 256) 0xff00 ≡ x % 256 * 256
bit_and_shifted x = ground (arith, bit_and_parts 8 x 0xff 0 0, bit_and_low_byte x, zero-bit_and 0)

-- low | (high << 8)
pub bit_or_join_flipped : (high low : ℕ) → low < 256 → bit_or low (high * 256) ≡ high * 256 + low
bit_or_join_flipped high low h =
    ground (arith, bit_or_parts 8 0 high low 0, bit_or-zero low, zero-bit_or high)
