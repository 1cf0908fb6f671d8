-- ===== src/Decoder/Encoding/Bits.antt =====
-- The fields of the second byte, and the values that the extract functions join.
use computer_enhance.Shared.{
  ℕ, ◌/◌, ◌%◌, ◌<◌, ◌≡◌, refl, false, ◌≢◌, ◌==◌, ltb, ltb→lt, Bool-cases, inl, inr, bit_and, ◌>>◌,
  passes_below, agree_below, arith,
}
use computer_enhance.Shared.Bytes.{bit_or_join}
use computer_enhance.Decoder.Extract.{sign_extend, join_bytes}
use computer_enhance.Decoder.Maps.{register_map, effective_reg1, effective_reg2}
use computer_enhance.Decoder.Encoding.Manual.{
  Code, b000, b110, code, modrm, word_register, byte_register, extended, memory, based,
}

mod_bits : (b : ℕ) → b < 256 → bit_and (b >> 6) 3 ≡ b / 64
unfolding passes_below
mod_bits = agree_below 256 (λ b. bit_and (b >> 6) 3) (λ b. b / 64) refl

reg_bits : (b : ℕ) → b < 256 → bit_and (b >> 3) 7 ≡ b / 8 % 8
unfolding passes_below
reg_bits = agree_below 256 (λ b. bit_and (b >> 3) 7) (λ b. b / 8 % 8) refl

rm_bits : (b : ℕ) → b < 256 → bit_and (b >> 0) 7 ≡ b % 8
unfolding passes_below
rm_bits = agree_below 256 (λ b. bit_and (b >> 0) 7) (λ b. b % 8) refl

sr_bits : (b : ℕ) → b < 256 → bit_and (b >> 3) 3 ≡ b / 8 % 4
unfolding passes_below
sr_bits = agree_below 256 (λ b. bit_and (b >> 3) 3) (λ b. b / 8 % 4) refl

code-lt : (c : Code) → code c < 8
unfolding code
code-lt b000 = omega arith
code-lt _ = omega arith

-- The three fields of a second byte, at each MOD.
module _ (r c : Code) where
  pub mod-modrm0 : bit_and (modrm 0 (code r) (code c) >> 6) 3 ≡ 0
  mod-modrm0 = omega (arith, mod_bits (modrm 0 (code r) (code c)), code-lt r, code-lt c)

  pub reg-modrm0 : bit_and (modrm 0 (code r) (code c) >> 3) 7 ≡ code r
  reg-modrm0 = omega (arith, reg_bits (modrm 0 (code r) (code c)), code-lt r, code-lt c)

  pub rm-modrm0 : bit_and (modrm 0 (code r) (code c) >> 0) 7 ≡ code c
  rm-modrm0 = omega (arith, rm_bits (modrm 0 (code r) (code c)), code-lt r, code-lt c)

  pub sr-modrm0 : bit_and (modrm 0 (code r) (code c) >> 3) 3 ≡ code r % 4
  sr-modrm0 = omega (arith, sr_bits (modrm 0 (code r) (code c)), code-lt r, code-lt c)

  pub mod-modrm1 : bit_and (modrm 1 (code r) (code c) >> 6) 3 ≡ 1
  mod-modrm1 = omega (arith, mod_bits (modrm 1 (code r) (code c)), code-lt r, code-lt c)

  pub reg-modrm1 : bit_and (modrm 1 (code r) (code c) >> 3) 7 ≡ code r
  reg-modrm1 = omega (arith, reg_bits (modrm 1 (code r) (code c)), code-lt r, code-lt c)

  pub rm-modrm1 : bit_and (modrm 1 (code r) (code c) >> 0) 7 ≡ code c
  rm-modrm1 = omega (arith, rm_bits (modrm 1 (code r) (code c)), code-lt r, code-lt c)

  pub sr-modrm1 : bit_and (modrm 1 (code r) (code c) >> 3) 3 ≡ code r % 4
  sr-modrm1 = omega (arith, sr_bits (modrm 1 (code r) (code c)), code-lt r, code-lt c)

  pub mod-modrm2 : bit_and (modrm 2 (code r) (code c) >> 6) 3 ≡ 2
  mod-modrm2 = omega (arith, mod_bits (modrm 2 (code r) (code c)), code-lt r, code-lt c)

  pub reg-modrm2 : bit_and (modrm 2 (code r) (code c) >> 3) 7 ≡ code r
  reg-modrm2 = omega (arith, reg_bits (modrm 2 (code r) (code c)), code-lt r, code-lt c)

  pub rm-modrm2 : bit_and (modrm 2 (code r) (code c) >> 0) 7 ≡ code c
  rm-modrm2 = omega (arith, rm_bits (modrm 2 (code r) (code c)), code-lt r, code-lt c)

  pub sr-modrm2 : bit_and (modrm 2 (code r) (code c) >> 3) 3 ≡ code r % 4
  sr-modrm2 = omega (arith, sr_bits (modrm 2 (code r) (code c)), code-lt r, code-lt c)

  pub mod-modrm3 : bit_and (modrm 3 (code r) (code c) >> 6) 3 ≡ 3
  mod-modrm3 = omega (arith, mod_bits (modrm 3 (code r) (code c)), code-lt r, code-lt c)

  pub reg-modrm3 : bit_and (modrm 3 (code r) (code c) >> 3) 7 ≡ code r
  reg-modrm3 = omega (arith, reg_bits (modrm 3 (code r) (code c)), code-lt r, code-lt c)

  pub rm-modrm3 : bit_and (modrm 3 (code r) (code c) >> 0) 7 ≡ code c
  rm-modrm3 = omega (arith, rm_bits (modrm 3 (code r) (code c)), code-lt r, code-lt c)

  pub sr-modrm3 : bit_and (modrm 3 (code r) (code c) >> 3) 3 ≡ code r % 4
  sr-modrm3 = omega (arith, sr_bits (modrm 3 (code r) (code c)), code-lt r, code-lt c)

-- MOD 00 with R/M 110.
module _ (r : Code) where
  pub mod-absolute : bit_and (modrm 0 (code r) 6 >> 6) 3 ≡ 0
  mod-absolute = omega (arith, mod_bits (modrm 0 (code r) 6), code-lt r)

  pub reg-absolute : bit_and (modrm 0 (code r) 6 >> 3) 7 ≡ code r
  reg-absolute = omega (arith, reg_bits (modrm 0 (code r) 6), code-lt r)

  pub rm-absolute : bit_and (modrm 0 (code r) 6 >> 0) 7 ≡ 6
  rm-absolute = omega (arith, rm_bits (modrm 0 (code r) 6), code-lt r)

  pub sr-absolute : bit_and (modrm 0 (code r) 6 >> 3) 3 ≡ code r % 4
  sr-absolute = omega (arith, sr_bits (modrm 0 (code r) 6), code-lt r)

pub code-not-six : (c : Code) → c ≢ b110 → (code c == 6) ≡ false
unfolding code
code-not-six b110 h = absurd (h refl)
code-not-six b000 h = refl
code-not-six _ h = refl

sign_extend-byte : (b : ℕ) → b < 256 → sign_extend b ≡ extended b
unfolding passes_below sign_extend
sign_extend-byte = agree_below 256 (λ b. sign_extend b) (λ b. extended b) refl

pub sign_extend-extended : (b : ℕ) → sign_extend b ≡ extended b
sign_extend-extended b = elim (Bool-cases (ltb b 256)) [
  | inl small ↦ sign_extend-byte b (ltb→lt b 256 small)
  | inr large ↦ unfold sign_extend in ground arith
]

pub join_bytes-word : (v : ℕ) → join_bytes (v / 256) (v % 256) ≡ v
unfolding join_bytes
join_bytes-word v = omega (arith, bit_or_join (v / 256) (v % 256) (omega arith))

-- The tables of the library are those of the manual.
pub register_map-word : (c : Code) → register_map (code c) 1 ≡ word_register c
unfolding register_map code word_register
register_map-word b000 = refl
register_map-word _ = refl

pub register_map-byte : (c : Code) → register_map (code c) 0 ≡ byte_register c
unfolding register_map code byte_register
register_map-byte b000 = refl
register_map-byte _ = refl

pub effective-based :
    (c : Code) (d : ℕ) → memory (effective_reg1 (code c)) (effective_reg2 (code c)) d ≡ based c d
unfolding effective_reg1 effective_reg2 code based
effective-based b000 d = refl
effective-based _ d = refl

pub ruleset fields = (
  mod-modrm0,
  reg-modrm0,
  rm-modrm0,
  sr-modrm0,
  mod-modrm1,
  reg-modrm1,
  rm-modrm1,
  sr-modrm1,
  mod-modrm2,
  reg-modrm2,
  rm-modrm2,
  sr-modrm2,
  mod-modrm3,
  reg-modrm3,
  rm-modrm3,
  sr-modrm3,
  mod-absolute,
  reg-absolute,
  rm-absolute,
  sr-absolute,
  ← register_map-word,
  ← register_map-byte,
  ← effective-based,
  join_bytes-word,
  sign_extend-extended,
)
