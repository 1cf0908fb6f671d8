-- ===== src/Decoder/Encoding/RegisterMemory.antt =====
-- "Register/memory with register to either": MOV, ADD, SUB and CMP with a D and a W flag.
use computer_enhance.Shared.{
  ℕ, ◌^◌, ◌≡◌, ◌≢◌, ◌<◌, refl, Bool, true, false, List, ◌∷◌, if◌then◌else◌,
}
use computer_enhance.Decoder.Types.{DecodedInstruction}
use computer_enhance.Decoder.Encoding.Manual.{
  Code, b110, code, Rm, in_register, plain, displaced8, displaced16, absolute, IsRm, rm_bytes,
  rm_operand, Operation, mov, add, sub, cmp, instruction, Assembly, two_operand, register, direct,
  Operand, any_register,
}
use computer_enhance.Decoder.Encoding.Decodes.{decoded, Decodes, unsized, size_words, DecodesSized}
use computer_enhance.Decoder.Encoding.Bits.{fields, code-not-six}

-- The sixteen opcodes of the form, named by destination and source as in the manual.
pub data RegisterMemory : Type 0 where
  mov_rm8_r8 mov_rm16_r16 mov_r8_rm8 mov_r16_rm16 : RegisterMemory
  add_rm8_r8 add_rm16_r16 add_r8_rm8 add_r16_rm16 : RegisterMemory
  sub_rm8_r8 sub_rm16_r16 sub_r8_rm8 sub_r16_rm16 : RegisterMemory
  cmp_rm8_r8 cmp_rm16_r16 cmp_r8_rm8 cmp_r16_rm16 : RegisterMemory

unfoldable pub opcode : RegisterMemory → ℕ
opcode mov_rm8_r8 = 0x88
opcode mov_rm16_r16 = 0x89
opcode mov_r8_rm8 = 0x8a
opcode mov_r16_rm16 = 0x8b
opcode add_rm8_r8 = 0x00
opcode add_rm16_r16 = 0x01
opcode add_r8_rm8 = 0x02
opcode add_r16_rm16 = 0x03
opcode sub_rm8_r8 = 0x28
opcode sub_rm16_r16 = 0x29
opcode sub_r8_rm8 = 0x2a
opcode sub_r16_rm16 = 0x2b
opcode cmp_rm8_r8 = 0x38
opcode cmp_rm16_r16 = 0x39
opcode cmp_r8_rm8 = 0x3a
opcode cmp_r16_rm16 = 0x3b

unfoldable pub operation : RegisterMemory → Operation
operation mov_rm8_r8 = mov
operation mov_rm16_r16 = mov
operation mov_r8_rm8 = mov
operation mov_r16_rm16 = mov
operation add_rm8_r8 = add
operation add_rm16_r16 = add
operation add_r8_rm8 = add
operation add_r16_rm16 = add
operation sub_rm8_r8 = sub
operation sub_rm16_r16 = sub
operation sub_r8_rm8 = sub
operation sub_r16_rm16 = sub
operation cmp_rm8_r8 = cmp
operation cmp_rm16_r16 = cmp
operation cmp_r8_rm8 = cmp
operation cmp_r16_rm16 = cmp

-- The register is the destination, and the operands are words.
unfoldable pub to_register : RegisterMemory → Bool
to_register mov_rm8_r8 = false
to_register mov_rm16_r16 = false
to_register mov_r8_rm8 = true
to_register mov_r16_rm16 = true
to_register add_rm8_r8 = false
to_register add_rm16_r16 = false
to_register add_r8_rm8 = true
to_register add_r16_rm16 = true
to_register sub_rm8_r8 = false
to_register sub_rm16_r16 = false
to_register sub_r8_rm8 = true
to_register sub_r16_rm16 = true
to_register cmp_rm8_r8 = false
to_register cmp_rm16_r16 = false
to_register cmp_r8_rm8 = true
to_register cmp_r16_rm16 = true

unfoldable pub is_word : RegisterMemory → Bool
is_word mov_rm8_r8 = false
is_word mov_rm16_r16 = true
is_word mov_r8_rm8 = false
is_word mov_r16_rm16 = true
is_word add_rm8_r8 = false
is_word add_rm16_r16 = true
is_word add_r8_rm8 = false
is_word add_r16_rm16 = true
is_word sub_rm8_r8 = false
is_word sub_rm16_r16 = true
is_word sub_r8_rm8 = false
is_word sub_r16_rm16 = true
is_word cmp_rm8_r8 = false
is_word cmp_rm16_r16 = true
is_word cmp_r8_rm8 = false
is_word cmp_r16_rm16 = true

unfoldable pub register_memory_bytes : RegisterMemory → Code → Rm → List ℕ
unfolding opcode rm_bytes
register_memory_bytes form r rm = opcode form ∷ rm_bytes (code r) rm

unfoldable pub register_memory_line : RegisterMemory → Code → Rm → Assembly
unfolding instruction rm_operand operation to_register is_word
register_memory_line form r rm =
    let reg = register (any_register (is_word form) r) in
    let other = rm_operand (is_word form) rm in
    if to_register form
    then two_operand (instruction (operation form)) reg other
    else two_operand (instruction (operation form)) other reg

module _ (form : RegisterMemory) (r : Code) (rest : List ℕ) (old : DecodedInstruction) where
  abbrev DecodesRm : Rm → Type 0
  DecodesRm rm =
      DecodesSized (register_memory_bytes form r rm) rest old (register_memory_line form r rm)
        unsized

module _ (r c : Code) (rest : List ℕ) (old : DecodedInstruction) where
  in_register-Decodes : (form : RegisterMemory) → DecodesRm form r rest old (in_register c)
  unfolding decoded size_words register_memory_bytes register_memory_line
  in_register-Decodes mov_rm8_r8 = simp fields (_, refl, refl, refl)
  in_register-Decodes _ = simp fields (_, refl, refl, refl)

  plain-Decodes : (form : RegisterMemory) → c ≢ b110 → DecodesRm form r rest old (plain c)
  unfolding decoded size_words register_memory_bytes register_memory_line
  plain-Decodes mov_rm8_r8 h = simp (fields, code-not-six c h) (_, refl, refl, refl)
  plain-Decodes _ h = simp (fields, code-not-six c h) (_, refl, refl, refl)

  displaced8-Decodes : (form : RegisterMemory) (d : ℕ) → DecodesRm form r rest old (displaced8 c d)
  unfolding decoded size_words register_memory_bytes register_memory_line
  displaced8-Decodes mov_rm8_r8 d = simp fields (_, refl, refl, refl)
  displaced8-Decodes _ d = simp fields (_, refl, refl, refl)

  displaced16-Decodes :
      (form : RegisterMemory) (d : ℕ) → DecodesRm form r rest old (displaced16 c d)
  unfolding decoded size_words register_memory_bytes register_memory_line
  displaced16-Decodes mov_rm8_r8 d = simp fields (_, refl, refl, refl)
  displaced16-Decodes _ d = simp fields (_, refl, refl, refl)

  -- Whatever the D flag says, the absolute address is taken for the source.
  absolute-Decodes :
      (form : RegisterMemory) (a : ℕ)
      → DecodesSized
          (register_memory_bytes form r (absolute a))
          rest
          old
          (two_operand
            (instruction (operation form))
            (register (any_register (is_word form) r))
            (direct a))
          unsized
  unfolding decoded size_words register_memory_bytes operation is_word
  absolute-Decodes mov_rm8_r8 a = simp fields (_, refl, refl, refl)
  absolute-Decodes _ a = simp fields (_, refl, refl, refl)

-- An absolute address is not the destination.
abbrev pub IsLoad : RegisterMemory → Rm → Type 0
IsLoad form (absolute a) = to_register form ≡ true
IsLoad form _ = Unit {0}

-- No word for the size is printed.
pub register_memory-Sized :
    (form : RegisterMemory) (r : Code) (rm : Rm) (rest : List ℕ) (old : DecodedInstruction)
    → IsRm rm
    → IsLoad form rm
    → DecodesSized
        (register_memory_bytes form r rm)
        rest
        old
        (register_memory_line form r rm)
        unsized
register_memory-Sized form r (in_register c) rest old h l = in_register-Decodes r c rest old form
register_memory-Sized form r (plain c) rest old h l = plain-Decodes r c rest old form h
register_memory-Sized form r (displaced8 c d) rest old h l = displaced8-Decodes r c rest old form d
register_memory-Sized form r (displaced16 c d) rest old h l =
    displaced16-Decodes r c rest old form d
register_memory-Sized form r (absolute a) rest old h l =
    unfold register_memory_line in simp l (absolute-Decodes r b110 rest old form a)

-- MOV, ADD, SUB and CMP between a register and a register or memory operand: each encoding of the
-- manual decodes to its line, for every REG, R/M, displacement and direction, except that an absolute
-- address must be the source. Exactly the encoding is consumed, whatever follows.
pub register_memory-Decodes :
    (form : RegisterMemory) (r : Code) (rm : Rm) (rest : List ℕ) (old : DecodedInstruction)
    → IsRm rm
    → IsLoad form rm
    → Decodes (register_memory_bytes form r rm) rest old (register_memory_line form r rm)
register_memory-Decodes form r rm rest old h l =
    let (i, e, stands, words) = register_memory-Sized form r rm rest old h l in (i, e, stands)

-- A store to an absolute address, MOD 00 with R/M 110 and D clear, decodes with its operands swapped:
-- the register becomes the destination and the address the source, for all four operations.
pub absolute_store-swapped :
    (form : RegisterMemory) (r : Code) (a : ℕ) (rest : List ℕ) (old : DecodedInstruction)
    → to_register form ≡ false
    → a < 2 ^ 16
    → (dst src : Operand) × (register_memory_line form r (absolute a)
        ≡ two_operand (instruction (operation form)) dst src)
      × Decodes
          (register_memory_bytes form r (absolute a))
          rest
          old
          (two_operand (instruction (operation form)) src dst)
unfolding register_memory_line
absolute_store-swapped form r a rest old store h = (
  direct a,
  register (any_register (is_word form) r),
  simp store,
  let (i, e, stands, words) = absolute-Decodes r b110 rest old form a in (i, e, stands),
)
