-- ===== src/Standalone/Agreement/Immediate.antt =====
-- Immediate operands, in both decoders.
use Prim.Native.String.{String}
use computer_enhance.Shared.{
  ℕ, ◌≡◌, ◌≢◌, ◌⊎◌, inl, inr, refl, Bool, true, false, List, [], ◌∷◌, ◌++◌, length, ok,
  if◌then◌else◌,
}
use computer_enhance.Decoder.Types.{DecodedInstruction}
use computer_enhance.Decoder.Print.{text, number}
use computer_enhance.Decoder.Encoding.Manual.{
  Code, b000, b101, b110, b111, code, Rm, in_register, plain, displaced8, displaced16, absolute,
  IsRm, mov, add, sub, cmp, Operation,
}
use computer_enhance.Decoder.Encoding.Immediate.{
  Immediate, mov_rm8_imm8, mov_rm16_imm16, add_rm8_imm8, add_rm8_imm8_extended, add_rm16_imm16,
  add_rm16_imm8, sub_rm8_imm8, sub_rm8_imm8_extended, sub_rm16_imm16, sub_rm16_imm8, cmp_rm8_imm8,
  cmp_rm8_imm8_extended, cmp_rm16_imm16, cmp_rm16_imm8, is_word, operation, width, value_of, Fits,
  immediate_bytes, immediate_line, immediate-line,
}
use computer_enhance.Decoder.Encoding.Bits.{code-not-six}
use computer_enhance.Standalone.Extract.{Line}
use computer_enhance.Standalone.Operations.{selected_op}
use computer_enhance.Standalone.Agreement.Text.{
  rm_text, operation_text, joined, printed, Agrees, texts,
}

unfoldable pub is_mov : Operation → Bool
is_mov mov = true
is_mov add = false
is_mov sub = false
is_mov cmp = false

abbrev size_text : Bool → String
size_text w = if w then "word" else "byte"

-- MOV names the size behind the comma, the others in front of an address.
abbrev sized_line : Operation → Bool → Rm → Line → Line
sized_line mov w rm value = joined "mov" ", " (rm_text w rm) (text (size_text w) ∷ text " " ∷ value)
sized_line op w (in_register c) value =
    joined (operation_text op) ", " (rm_text w (in_register c)) value
sized_line op w rm value =
    joined (operation_text op) ", " (text (size_text w) ∷ text " " ∷ rm_text w rm) value

unfoldable pub immediate_text : Immediate → Rm → ℕ → Line
unfolding operation is_word value_of width rm_text operation_text
immediate_text form rm v =
    sized_line (operation form) (is_word form) rm (number (value_of (width form) v) ∷ [])

-- The displacement has the width of the operands, and for MOV the form is not a register or an
-- address alone, nor a word without displacement.
abbrev pub SameWidths : Immediate → Rm → Type 0
SameWidths form (in_register c) = is_mov (operation form) ≡ false
SameWidths form (plain c) = (is_mov (operation form) ≡ false) ⊎ (is_word form ≡ false)
SameWidths form (displaced8 c d) = is_word form ≡ false
SameWidths form (displaced16 c d) = is_word form ≡ true
SameWidths form (absolute a) = (is_word form ≡ true) × (is_mov (operation form) ≡ false)

pub selected_op-add : selected_op (code b000) ≡ ok "add"
unfolding selected_op code
selected_op-add = refl

pub selected_op-sub : selected_op (code b101) ≡ ok "sub"
unfolding selected_op code
selected_op-sub = refl

pub selected_op-cmp : selected_op (code b111) ≡ ok "cmp"
unfolding selected_op code
selected_op-cmp = refl

pub ruleset rules = (texts, selected_op-add, selected_op-sub, selected_op-cmp)

module _ (form : Immediate) (v : ℕ) (rest : List ℕ) where
  abbrev PrintsRm : Rm → Type 0
  PrintsRm rm =
      let bytes = immediate_bytes form rm v in
      printed (bytes ++ rest) ≡ ok (length bytes, immediate_text form rm v)

module _ (c : Code) (v : ℕ) (rest : List ℕ) where
  pub in_register-Prints :
      (form : Immediate) → is_mov (operation form) ≡ false → PrintsRm form v rest (in_register c)
  unfolding printed immediate_bytes immediate_text operation is_mov
  in_register-Prints mov_rm8_imm8 h = absurd (cc h)
  in_register-Prints mov_rm16_imm16 h = absurd (cc h)
  in_register-Prints add_rm8_imm8 h = simp rules
  in_register-Prints add_rm8_imm8_extended h = simp rules
  in_register-Prints add_rm16_imm16 h = simp rules
  in_register-Prints add_rm16_imm8 h = simp rules
  in_register-Prints sub_rm8_imm8 h = simp rules
  in_register-Prints sub_rm8_imm8_extended h = simp rules
  in_register-Prints sub_rm16_imm16 h = simp rules
  in_register-Prints sub_rm16_imm8 h = simp rules
  in_register-Prints cmp_rm8_imm8 h = simp rules
  in_register-Prints cmp_rm8_imm8_extended h = simp rules
  in_register-Prints cmp_rm16_imm16 h = simp rules
  in_register-Prints cmp_rm16_imm8 h = simp rules

  pub plain-Prints :
      (form : Immediate) → c ≢ b110 → SameWidths form (plain c) → PrintsRm form v rest (plain c)
  unfolding printed immediate_bytes immediate_text operation is_mov is_word
  plain-Prints mov_rm8_imm8 h w = simp (rules, code-not-six c h)
  plain-Prints mov_rm16_imm16 h (inl not_mov) = absurd (cc not_mov)
  plain-Prints mov_rm16_imm16 h (inr narrow) = absurd (cc narrow)
  plain-Prints add_rm8_imm8 h w = simp (rules, code-not-six c h)
  plain-Prints add_rm8_imm8_extended h w = simp (rules, code-not-six c h)
  plain-Prints add_rm16_imm16 h w = simp (rules, code-not-six c h)
  plain-Prints add_rm16_imm8 h w = simp (rules, code-not-six c h)
  plain-Prints sub_rm8_imm8 h w = simp (rules, code-not-six c h)
  plain-Prints sub_rm8_imm8_extended h w = simp (rules, code-not-six c h)
  plain-Prints sub_rm16_imm16 h w = simp (rules, code-not-six c h)
  plain-Prints sub_rm16_imm8 h w = simp (rules, code-not-six c h)
  plain-Prints cmp_rm8_imm8 h w = simp (rules, code-not-six c h)
  plain-Prints cmp_rm8_imm8_extended h w = simp (rules, code-not-six c h)
  plain-Prints cmp_rm16_imm16 h w = simp (rules, code-not-six c h)
  plain-Prints cmp_rm16_imm8 h w = simp (rules, code-not-six c h)

  pub displaced8-Prints :
      (form : Immediate) (d : ℕ) → is_word form ≡ false → PrintsRm form v rest (displaced8 c d)
  unfolding printed immediate_bytes immediate_text is_word
  displaced8-Prints mov_rm8_imm8 d narrow = simp rules
  displaced8-Prints mov_rm16_imm16 d narrow = absurd (cc narrow)
  displaced8-Prints add_rm8_imm8 d narrow = simp rules
  displaced8-Prints add_rm8_imm8_extended d narrow = simp rules
  displaced8-Prints add_rm16_imm16 d narrow = absurd (cc narrow)
  displaced8-Prints add_rm16_imm8 d narrow = absurd (cc narrow)
  displaced8-Prints sub_rm8_imm8 d narrow = simp rules
  displaced8-Prints sub_rm8_imm8_extended d narrow = simp rules
  displaced8-Prints sub_rm16_imm16 d narrow = absurd (cc narrow)
  displaced8-Prints sub_rm16_imm8 d narrow = absurd (cc narrow)
  displaced8-Prints cmp_rm8_imm8 d narrow = simp rules
  displaced8-Prints cmp_rm8_imm8_extended d narrow = simp rules
  displaced8-Prints cmp_rm16_imm16 d narrow = absurd (cc narrow)
  displaced8-Prints cmp_rm16_imm8 d narrow = absurd (cc narrow)

  pub displaced16-Prints :
      (form : Immediate) (d : ℕ) → is_word form ≡ true → PrintsRm form v rest (displaced16 c d)
  unfolding printed immediate_bytes immediate_text is_word
  displaced16-Prints mov_rm8_imm8 d wide = absurd (cc wide)
  displaced16-Prints mov_rm16_imm16 d wide = simp rules
  displaced16-Prints add_rm8_imm8 d wide = absurd (cc wide)
  displaced16-Prints add_rm8_imm8_extended d wide = absurd (cc wide)
  displaced16-Prints add_rm16_imm16 d wide = simp rules
  displaced16-Prints add_rm16_imm8 d wide = simp rules
  displaced16-Prints sub_rm8_imm8 d wide = absurd (cc wide)
  displaced16-Prints sub_rm8_imm8_extended d wide = absurd (cc wide)
  displaced16-Prints sub_rm16_imm16 d wide = simp rules
  displaced16-Prints sub_rm16_imm8 d wide = simp rules
  displaced16-Prints cmp_rm8_imm8 d wide = absurd (cc wide)
  displaced16-Prints cmp_rm8_imm8_extended d wide = absurd (cc wide)
  displaced16-Prints cmp_rm16_imm16 d wide = simp rules
  displaced16-Prints cmp_rm16_imm8 d wide = simp rules

absolute-Prints :
    (v : ℕ) (rest : List ℕ) (form : Immediate) (a : ℕ)
    → SameWidths form (absolute a)
    → PrintsRm form v rest (absolute a)
unfolding printed immediate_bytes immediate_text operation is_mov is_word
absolute-Prints v rest mov_rm8_imm8 a (wide, not_mov) = absurd (cc not_mov)
absolute-Prints v rest mov_rm16_imm16 a (wide, not_mov) = absurd (cc not_mov)
absolute-Prints v rest add_rm8_imm8 a (wide, not_mov) = absurd (cc wide)
absolute-Prints v rest add_rm8_imm8_extended a (wide, not_mov) = absurd (cc wide)
absolute-Prints v rest add_rm16_imm16 a (wide, not_mov) = simp rules
absolute-Prints v rest add_rm16_imm8 a (wide, not_mov) = simp rules
absolute-Prints v rest sub_rm8_imm8 a (wide, not_mov) = absurd (cc wide)
absolute-Prints v rest sub_rm8_imm8_extended a (wide, not_mov) = absurd (cc wide)
absolute-Prints v rest sub_rm16_imm16 a (wide, not_mov) = simp rules
absolute-Prints v rest sub_rm16_imm8 a (wide, not_mov) = simp rules
absolute-Prints v rest cmp_rm8_imm8 a (wide, not_mov) = absurd (cc wide)
absolute-Prints v rest cmp_rm8_imm8_extended a (wide, not_mov) = absurd (cc wide)
absolute-Prints v rest cmp_rm16_imm16 a (wide, not_mov) = simp rules
absolute-Prints v rest cmp_rm16_imm8 a (wide, not_mov) = simp rules

pub immediate-Agrees :
    (form : Immediate) (rm : Rm) (v : ℕ) (rest : List ℕ) (old : DecodedInstruction)
    → IsRm rm
    → Fits (width form) v
    → SameWidths form rm
    → Agrees
        (immediate_bytes form rm v)
        rest
        old
        (immediate_line form rm v)
        (immediate_text form rm v)
immediate-Agrees form rm v rest old h f same =
    (immediate-line form rm v rest old h f, prints form rm v rest h same)
  where
    prints :
        (form : Immediate) (rm : Rm) (v : ℕ) (rest : List ℕ)
        → IsRm rm
        → SameWidths form rm
        → PrintsRm form v rest rm
    prints form (in_register c) v rest h same = in_register-Prints c v rest form same
    prints form (plain c) v rest h same = plain-Prints c v rest form h same
    prints form (displaced8 c d) v rest h same = displaced8-Prints c v rest form d same
    prints form (displaced16 c d) v rest h same = displaced16-Prints c v rest form d same
    prints form (absolute a) v rest h same = absolute-Prints v rest form a same
