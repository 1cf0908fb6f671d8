-- ===== src/Standalone/Agreement/Missized.antt =====
-- Immediate operands with a displacement whose width is not that of the operands, in
-- decoder_8086/decoder.c: process_mov_immediate_to_register_memory and
-- process_immediate_to_regmem_op_inst pass the W flag to extract_displacement.
use computer_enhance.Shared.{
  ℕ, ◌+◌, ◌-◌, ◌≡◌, refl, Bool, List, ◌∷◌, ◌++◌, length, ok, if◌then◌else◌,
}
use computer_enhance.Decoder.Types.{DecodedInstruction}
use computer_enhance.Decoder.Encoding.Manual.{Code, Rm, displaced8, displaced16, IsRm}
use computer_enhance.Decoder.Encoding.Decodes.{Decodes}
use computer_enhance.Decoder.Encoding.Immediate.{
  Immediate, mov_rm8_imm8, mov_rm16_imm16, add_rm8_imm8, add_rm8_imm8_extended, add_rm16_imm16,
  add_rm16_imm8, sub_rm8_imm8, sub_rm8_imm8_extended, sub_rm16_imm16, sub_rm16_imm8, cmp_rm8_imm8,
  cmp_rm8_imm8_extended, cmp_rm16_imm16, cmp_rm16_imm8, is_word, width, Fits, immediate_bytes,
  immediate_line, immediate-line,
}
use computer_enhance.Standalone.Extract.{Line}
use computer_enhance.Standalone.Agreement.Text.{printed}
use computer_enhance.Standalone.Agreement.Immediate.{rules}

-- An 8-bit displacement for a word, and a 16-bit one for a byte.
unfoldable pub other_width : Bool → Code → ℕ → Rm
other_width w c d = if w then displaced8 c d else displaced16 c d

-- One byte too many, or one too few.
abbrev pub missized : Bool → ℕ → ℕ
missized w n = if w then n + 1 else n - 1

abbrev Missized : Immediate → Code → ℕ → ℕ → List ℕ → Type 0
Missized form c d v rest =
    let bytes = immediate_bytes form (other_width (is_word form) c d) v in
    (line : Line) × (printed (bytes ++ rest) ≡ ok (missized (is_word form) (length bytes), line))

missized_lem :
    (form : Immediate) (c : Code) (d v next : ℕ) (rest : List ℕ) → Missized form c d v (next ∷ rest)
unfolding printed immediate_bytes is_word other_width
missized_lem mov_rm8_imm8 c d v next rest = simp rules (_, refl)
missized_lem mov_rm16_imm16 c d v next rest = simp rules (_, refl)
missized_lem add_rm8_imm8 c d v next rest = simp rules (_, refl)
missized_lem add_rm8_imm8_extended c d v next rest = simp rules (_, refl)
missized_lem add_rm16_imm16 c d v next rest = simp rules (_, refl)
missized_lem add_rm16_imm8 c d v next rest = simp rules (_, refl)
missized_lem sub_rm8_imm8 c d v next rest = simp rules (_, refl)
missized_lem sub_rm8_imm8_extended c d v next rest = simp rules (_, refl)
missized_lem sub_rm16_imm16 c d v next rest = simp rules (_, refl)
missized_lem sub_rm16_imm8 c d v next rest = simp rules (_, refl)
missized_lem cmp_rm8_imm8 c d v next rest = simp rules (_, refl)
missized_lem cmp_rm8_imm8_extended c d v next rest = simp rules (_, refl)
missized_lem cmp_rm16_imm16 c d v next rest = simp rules (_, refl)
missized_lem cmp_rm16_imm8 c d v next rest = simp rules (_, refl)

-- An instruction with an immediate and a displacement of the other width than its operands: the library
-- decodes the encoding, the stand-alone decoder goes on one byte behind its end for a word with an
-- 8-bit displacement, and one byte before it for a byte with a 16-bit one, if another byte follows.
pub immediate-Missized :
    (form : Immediate) (c : Code) (d v next : ℕ) (rest : List ℕ) (old : DecodedInstruction)
    → IsRm (other_width (is_word form) c d)
    → Fits (width form) v
    → Decodes
        (immediate_bytes form (other_width (is_word form) c d) v)
        (next ∷ rest)
        old
        (immediate_line form (other_width (is_word form) c d) v)
      × Missized form c d v (next ∷ rest)
immediate-Missized form c d v next rest old h f = (
  immediate-line form (other_width (is_word form) c d) v (next ∷ rest) old h f,
  missized_lem form c d v next rest,
)
