-- ===== src/Standalone/Agreement/RegisterMemory.antt =====
-- "Register/memory with register to either", in both decoders.
use computer_enhance.Shared.{
  ℕ, ◌^◌, ◌≡◌, ◌≢◌, ◌<◌, true, List, [], ◌∷◌, ◌++◌, length, ok, if◌then◌else◌,
}
use computer_enhance.Decoder.Types.{DecodedInstruction}
use computer_enhance.Decoder.Print.{text}
use computer_enhance.Decoder.Encoding.Manual.{
  Code, b110, Rm, in_register, plain, displaced8, displaced16, absolute, IsRm, any_register,
}
use computer_enhance.Decoder.Encoding.RegisterMemory.{
  RegisterMemory, mov_rm8_r8, mov_rm16_r16, mov_r8_rm8, mov_r16_rm16, add_rm8_r8, add_rm16_r16,
  add_r8_rm8, add_r16_rm16, sub_rm8_r8, sub_rm16_r16, sub_r8_rm8, sub_r16_rm16, cmp_rm8_r8,
  cmp_rm16_r16, cmp_r8_rm8, cmp_r16_rm16, to_register, is_word, operation, register_memory_bytes,
  register_memory_line, register_memory-Decodes,
}
use computer_enhance.Decoder.Encoding.Bits.{code-not-six}
use computer_enhance.Standalone.Extract.{Line}
use computer_enhance.Standalone.Agreement.Text.{
  separator, name_of, rm_text, operation_text, joined, printed, Agrees, texts,
}

unfoldable pub register_memory_text : RegisterMemory → Code → Rm → Line
unfolding operation_text operation to_register is_word rm_text
register_memory_text form r rm =
    let reg = text (name_of (any_register (is_word form) r)) ∷ [] in
    let other = rm_text (is_word form) rm in
    if to_register form
    then joined (operation_text (operation form)) (separator rm) reg other
    else joined (operation_text (operation form)) (separator rm) other reg

module _ (form : RegisterMemory) (r : Code) (rest : List ℕ) where
  abbrev PrintsRm : Rm → Type 0
  PrintsRm rm =
      let bytes = register_memory_bytes form r rm in
      printed (bytes ++ rest) ≡ ok (length bytes, register_memory_text form r rm)

module _ (r c : Code) (rest : List ℕ) where
  in_register-Prints : (form : RegisterMemory) → PrintsRm form r rest (in_register c)
  unfolding printed register_memory_bytes register_memory_text
  in_register-Prints mov_rm8_r8 = simp texts
  in_register-Prints _ = simp texts

  plain-Prints : (form : RegisterMemory) → c ≢ b110 → PrintsRm form r rest (plain c)
  unfolding printed register_memory_bytes register_memory_text
  plain-Prints mov_rm8_r8 h = simp (texts, code-not-six c h)
  plain-Prints _ h = simp (texts, code-not-six c h)

  displaced8-Prints : (form : RegisterMemory) (d : ℕ) → PrintsRm form r rest (displaced8 c d)
  unfolding printed register_memory_bytes register_memory_text
  displaced8-Prints mov_rm8_r8 d = simp texts
  displaced8-Prints _ d = simp texts

  displaced16-Prints : (form : RegisterMemory) (d : ℕ) → PrintsRm form r rest (displaced16 c d)
  unfolding printed register_memory_bytes register_memory_text
  displaced16-Prints mov_rm8_r8 d = simp texts
  displaced16-Prints _ d = simp texts

absolute-Prints :
    (r : Code) (rest : List ℕ) (form : RegisterMemory) (a : ℕ)
    → to_register form ≡ true
    → is_word form ≡ true
    → PrintsRm form r rest (absolute a)
unfolding printed register_memory_bytes register_memory_text to_register is_word
absolute-Prints r rest mov_r16_rm16 a to wide = simp texts
absolute-Prints r rest add_r16_rm16 a to wide = simp texts
absolute-Prints r rest sub_r16_rm16 a to wide = simp texts
absolute-Prints r rest cmp_r16_rm16 a to wide = simp texts
absolute-Prints r rest mov_rm8_r8 a to wide = absurd (cc to)
absolute-Prints r rest add_rm8_r8 a to wide = absurd (cc to)
absolute-Prints r rest sub_rm8_r8 a to wide = absurd (cc to)
absolute-Prints r rest cmp_rm8_r8 a to wide = absurd (cc to)
absolute-Prints r rest mov_r8_rm8 a to wide = absurd (cc wide)
absolute-Prints r rest add_r8_rm8 a to wide = absurd (cc wide)
absolute-Prints r rest sub_r8_rm8 a to wide = absurd (cc wide)
absolute-Prints r rest cmp_r8_rm8 a to wide = absurd (cc wide)
absolute-Prints r rest mov_rm16_r16 a to wide = absurd (cc to)
absolute-Prints r rest add_rm16_r16 a to wide = absurd (cc to)
absolute-Prints r rest sub_rm16_r16 a to wide = absurd (cc to)
absolute-Prints r rest cmp_rm16_r16 a to wide = absurd (cc to)

-- The operand is in range, and an absolute address is the source of a word operation.
abbrev pub IsCommonRm : RegisterMemory → Rm → Type 0
IsCommonRm form (absolute a) = (a < 2 ^ 16) × (to_register form ≡ true) × (is_word form ≡ true)
IsCommonRm form rm = IsRm rm

pub register_memory-Agrees :
    (form : RegisterMemory) (r : Code) (rm : Rm) (rest : List ℕ) (old : DecodedInstruction)
    → IsCommonRm form rm
    → Agrees
        (register_memory_bytes form r rm)
        rest
        old
        (register_memory_line form r rm)
        (register_memory_text form r rm)
register_memory-Agrees form r (in_register c) rest old h =
    (register_memory-Decodes form r (in_register c) rest old h tt, in_register-Prints r c rest form)
register_memory-Agrees form r (plain c) rest old h =
    (register_memory-Decodes form r (plain c) rest old h tt, plain-Prints r c rest form h)
register_memory-Agrees form r (displaced8 c d) rest old h = (
  register_memory-Decodes form r (displaced8 c d) rest old h tt,
  displaced8-Prints r c rest form d,
)
register_memory-Agrees form r (displaced16 c d) rest old h = (
  register_memory-Decodes form r (displaced16 c d) rest old h tt,
  displaced16-Prints r c rest form d,
)
register_memory-Agrees form r (absolute a) rest old (h, to, wide) = (
  register_memory-Decodes form r (absolute a) rest old h to,
  absolute-Prints r rest form a to wide,
)
