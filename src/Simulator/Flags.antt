-- ===== src/Simulator/Flags.antt =====
-- eval_flags: which bits of the flags word it sets.
use computer_enhance.Shared.{
  ℕ, ◌+◌, ◌-◌, ◌*◌, ◌/◌, ◌%◌, ◌^◌, ◌<◌, ◌≡◌, refl, not, ◌==◌, ltb, if◌then◌else◌, bit_and, bit_or,
  passes_below, agree_below, arith,
}
use computer_enhance.Shared.Words.{bit_and_parts, bit_or_parts}
use computer_enhance.Shared.Bits.{bit_or-zero, bit_and-zero}
use computer_enhance.Shared.Bytes.{bit_and_ones}
use computer_enhance.Simulator.Machine.{eval_zero, eval_sign, eval_flags, is_z_set, is_s_set}

-- A bit of a byte that is set or cleared, as arithmetic; the masks of bits 6 and 7.
set_6 : (b : ℕ) → b < 256 → bit_or b 0x40 ≡ b + (1 - b / 64 % 2) * 64
unfolding passes_below
set_6 = agree_below 256 (λ b. bit_or b 0x40) (λ b. b + (1 - b / 64 % 2) * 64) refl

clear_6 : (b : ℕ) → b < 256 → bit_and b 0xbf ≡ b - b / 64 % 2 * 64
unfolding passes_below
clear_6 = agree_below 256 (λ b. bit_and b 0xbf) (λ b. b - b / 64 % 2 * 64) refl

set_7 : (b : ℕ) → b < 256 → bit_or b 0x80 ≡ b + (1 - b / 128) * 128
unfolding passes_below
set_7 = agree_below 256 (λ b. bit_or b 0x80) (λ b. b + (1 - b / 128) * 128) refl

clear_7 : (b : ℕ) → b < 256 → bit_and b 0x7f ≡ b - b / 128 * 128
unfolding passes_below
clear_7 = agree_below 256 (λ b. bit_and b 0x7f) (λ b. b - b / 128 * 128) refl

bit_6 : (b : ℕ) → b < 256 → bit_and b 0x40 ≡ b / 64 % 2 * 64
unfolding passes_below
bit_6 = agree_below 256 (λ b. bit_and b 0x40) (λ b. b / 64 % 2 * 64) refl

bit_7 : (b : ℕ) → b < 256 → bit_and b 0x80 ≡ b / 128 * 128
unfolding passes_below
bit_7 = agree_below 256 (λ b. bit_and b 0x80) (λ b. b / 128 * 128) refl

-- The same on a 16-bit word: the high byte is kept by `|` and by a mask that has it.
module _ (f : ℕ) (h : f < 2 ^ 16) where
  word_set_6 : bit_or f 0x40 ≡ f / 256 * 256 + (f % 256 + (1 - f / 64 % 2) * 64)
  word_set_6 =
      ground
        (arith, bit_or_parts 8 (f / 256) 0 (f % 256) 0x40, bit_or-zero (f / 256), set_6 (f % 256))

  word_set_7 : bit_or f 0x80 ≡ f / 256 * 256 + (f % 256 + (1 - f % 256 / 128) * 128)
  word_set_7 =
      ground
        (arith, bit_or_parts 8 (f / 256) 0 (f % 256) 0x80, bit_or-zero (f / 256), set_7 (f % 256))

  word_clear_6 : bit_and f 0xffbf ≡ f / 256 * 256 + (f % 256 - f / 64 % 2 * 64)
  word_clear_6 = ground (
    arith,
    bit_and_parts 8 (f / 256) 0xff (f % 256) 0xbf,
    bit_and_ones (f / 256),
    clear_6 (f % 256),
  )

  word_clear_7 : bit_and f 0xff7f ≡ f / 256 * 256 + (f % 256 - f % 256 / 128 * 128)
  word_clear_7 = ground (
    arith,
    bit_and_parts 8 (f / 256) 0xff (f % 256) 0x7f,
    bit_and_ones (f / 256),
    clear_7 (f % 256),
  )

  word_bit_6 : bit_and f 0x40 ≡ f / 64 % 2 * 64
  word_bit_6 =
      ground
        (arith, bit_and_parts 8 (f / 256) 0 (f % 256) 0x40, bit_and-zero (f / 256), bit_6 (f % 256))

  word_bit_7 : bit_and f 0x80 ≡ f % 256 / 128 * 128
  word_bit_7 =
      ground
        (arith, bit_and_parts 8 (f / 256) 0 (f % 256) 0x80, bit_and-zero (f / 256), bit_7 (f % 256))

-- REGISTER_SIGNED_MASK
word_sign : (v : ℕ) → v < 2 ^ 16 → bit_and v 0x8000 ≡ v / 32768 * 32768
word_sign v h =
    ground
      (arith, bit_and_parts 8 (v / 256) 0x80 (v % 256) 0, bit_and-zero (v % 256), bit_7 (v / 256))

eval_zero_lem :
    (f v : ℕ) → f < 2 ^ 16 → eval_zero f v ≡ f - f / 64 % 2 * 64 + (if v == 0 then 64 else 0)
unfolding eval_zero
eval_zero_lem f v h = ground (arith, word_set_6 f h, word_clear_6 f h)

eval_sign_lem :
    (f v : ℕ) → f < 2 ^ 16 → v < 2 ^ 16 → eval_sign f v ≡ f - f / 128 % 2 * 128 + v / 32768 * 128
unfolding eval_sign
eval_sign_lem f v h hv = ground (arith, word_set_7 f h, word_clear_7 f h, word_sign v hv)

-- What the flags word is afterwards: bits 6 and 7 replaced, all others as they were.
pub eval_flags_lem :
    (f v : ℕ)
    → f < 2 ^ 16
    → v < 2 ^ 16
    → eval_flags f v ≡ f - f / 64 % 4 * 64 + (if v == 0 then 64 else 0) + v / 32768 * 128
unfolding eval_flags
eval_flags_lem f v h hv =
    let z = eval_zero_lem f v h in ground (arith, z, eval_sign_lem (eval_zero f v) v)

pub eval_flags-lt : (f v : ℕ) → f < 2 ^ 16 → v < 2 ^ 16 → eval_flags f v < 2 ^ 16
eval_flags-lt f v h hv = ground (arith, eval_flags_lem f v h hv)

-- After eval_flags the zero flag says that the value is 0, the sign flag that its bit 15 is set, and
-- every other bit of the flags word is as it was.
pub eval_flags-bits :
    (f v : ℕ)
    → f < 2 ^ 16
    → v < 2 ^ 16
    → (is_z_set (eval_flags f v) ≡ (v == 0))
      × (is_s_set (eval_flags f v) ≡ not (ltb v 32768))
      × (eval_flags f v % 64 ≡ f % 64)
      × (eval_flags f v / 256 ≡ f / 256)
unfolding is_z_set is_s_set
eval_flags-bits f v h hv = (
  ground (arith, eval_flags_lem f v h hv, word_bit_6 (eval_flags f v)),
  ground (arith, eval_flags_lem f v h hv, word_bit_7 (eval_flags f v)),
  ground (arith, eval_flags_lem f v h hv),
  ground (arith, eval_flags_lem f v h hv),
)
