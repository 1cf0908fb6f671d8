-- ===== src/Decoder/Encoding/Immediate.antt =====
-- Immediate operands: MOV, ADD, SUB and CMP of an immediate to a register or memory.
use computer_enhance.Shared.{
  ℕ, ◌^◌, ◌≡◌, ◌≢◌, ◌<◌, refl, Bool, true, false, List, [], ◌∷◌, ◌++◌, if◌then◌else◌,
}
use computer_enhance.Decoder.Types.{DecodedInstruction, add_inst, sub_inst, cmp_inst}
use computer_enhance.Decoder.Maps.{op_encoding, register_map}
use computer_enhance.Decoder.Parse.{is_16bit_register}
use computer_enhance.Decoder.Encoding.Manual.{
  Code, b000, b101, b110, b111, code, Rm, in_register, plain, displaced8, displaced16, absolute,
  IsRm, rm_bytes, rm_operand, Operation, mov, add, sub, cmp, instruction, Assembly, two_operand,
  immediate, word_bytes, extended,
}
use computer_enhance.Decoder.Encoding.Decodes.{
  decoded, Decodes, Size, unsized, byte_before_dst, word_before_dst, byte_before_src,
  word_before_src, size_words, DecodesSized,
}
use computer_enhance.Decoder.Encoding.Bits.{fields, code-not-six}

-- The opcodes 100000sw and 1100011w, with the operation in REG.
pub data Immediate : Type 0 where
  mov_rm8_imm8 mov_rm16_imm16 : Immediate
  add_rm8_imm8 add_rm16_imm16 add_rm8_imm8_extended add_rm16_imm8 : Immediate
  sub_rm8_imm8 sub_rm16_imm16 sub_rm8_imm8_extended sub_rm16_imm8 : Immediate
  cmp_rm8_imm8 cmp_rm16_imm16 cmp_rm8_imm8_extended cmp_rm16_imm8 : Immediate

unfoldable pub opcode : Immediate → ℕ
opcode mov_rm8_imm8 = 0xc6
opcode mov_rm16_imm16 = 0xc7
opcode add_rm8_imm8 = 0x80
opcode add_rm16_imm16 = 0x81
opcode add_rm8_imm8_extended = 0x82
opcode add_rm16_imm8 = 0x83
opcode sub_rm8_imm8 = 0x80
opcode sub_rm16_imm16 = 0x81
opcode sub_rm8_imm8_extended = 0x82
opcode sub_rm16_imm8 = 0x83
opcode cmp_rm8_imm8 = 0x80
opcode cmp_rm16_imm16 = 0x81
opcode cmp_rm8_imm8_extended = 0x82
opcode cmp_rm16_imm8 = 0x83

unfoldable pub operation : Immediate → Operation
operation mov_rm8_imm8 = mov
operation mov_rm16_imm16 = mov
operation add_rm8_imm8 = add
operation add_rm16_imm16 = add
operation add_rm8_imm8_extended = add
operation add_rm16_imm8 = add
operation sub_rm8_imm8 = sub
operation sub_rm16_imm16 = sub
operation sub_rm8_imm8_extended = sub
operation sub_rm16_imm8 = sub
operation cmp_rm8_imm8 = cmp
operation cmp_rm16_imm16 = cmp
operation cmp_rm8_imm8_extended = cmp
operation cmp_rm16_imm8 = cmp

-- The operation in the REG field.
unfoldable pub selector : Operation → Code
selector mov = b000
selector add = b000
selector sub = b101
selector cmp = b111

-- How the data is encoded: as it is, in one byte or two, or as one byte that is extended.
pub data Width : Type 0 where
  byte word extended_byte : Width

unfoldable pub width : Immediate → Width
width mov_rm8_imm8 = extended_byte
width mov_rm16_imm16 = word
width add_rm8_imm8 = byte
width add_rm16_imm16 = word
width add_rm8_imm8_extended = extended_byte
width add_rm16_imm8 = extended_byte
width sub_rm8_imm8 = byte
width sub_rm16_imm16 = word
width sub_rm8_imm8_extended = extended_byte
width sub_rm16_imm8 = extended_byte
width cmp_rm8_imm8 = byte
width cmp_rm16_imm16 = word
width cmp_rm8_imm8_extended = extended_byte
width cmp_rm16_imm8 = extended_byte

unfoldable pub is_word : Immediate → Bool
is_word mov_rm8_imm8 = false
is_word mov_rm16_imm16 = true
is_word add_rm8_imm8 = false
is_word add_rm16_imm16 = true
is_word add_rm8_imm8_extended = false
is_word add_rm16_imm8 = true
is_word sub_rm8_imm8 = false
is_word sub_rm16_imm16 = true
is_word sub_rm8_imm8_extended = false
is_word sub_rm16_imm8 = true
is_word cmp_rm8_imm8 = false
is_word cmp_rm16_imm16 = true
is_word cmp_rm8_imm8_extended = false
is_word cmp_rm16_imm8 = true

-- The data bytes of a value, and what they stand for.
unfoldable pub data_of : Width → ℕ → List ℕ
data_of byte v = v ∷ []
data_of word v = word_bytes v
data_of extended_byte v = v ∷ []

unfoldable pub value_of : Width → ℕ → ℕ
value_of byte v = v
value_of word v = v
value_of extended_byte v = extended v

abbrev pub Fits : Width → ℕ → Type 0
Fits byte v = v < 256
Fits word v = v < 2 ^ 16
Fits extended_byte v = v < 256

unfoldable pub immediate_bytes : Immediate → Rm → ℕ → List ℕ
unfolding opcode rm_bytes data_of selector operation width
immediate_bytes form rm v =
    opcode form ∷ (rm_bytes (code (selector (operation form))) rm ++ data_of (width form) v)

unfoldable pub immediate_line : Immediate → Rm → ℕ → Assembly
unfolding instruction rm_operand operation is_word value_of width
immediate_line form rm v =
    two_operand (instruction (operation form)) (rm_operand (is_word form) rm)
      (immediate (value_of (width form) v))

abbrev pub is_memory : Rm → Bool
is_memory (in_register c) = false
is_memory rm = true

-- A line names the size where its operands leave it open; a one-byte immediate of a word names it also
-- before a register, and MOV before the data. The words of 0x81 and the bytes of 0x82 go without.
unfoldable pub size_of : Immediate → Rm → Size
size_of mov_rm8_imm8 rm = if is_memory rm then byte_before_src else unsized
size_of mov_rm16_imm16 rm = word_before_src
size_of add_rm8_imm8 rm = if is_memory rm then byte_before_dst else unsized
size_of add_rm16_imm16 rm = unsized
size_of add_rm8_imm8_extended rm = unsized
size_of add_rm16_imm8 rm = word_before_dst
size_of sub_rm8_imm8 rm = if is_memory rm then byte_before_dst else unsized
size_of sub_rm16_imm16 rm = unsized
size_of sub_rm8_imm8_extended rm = unsized
size_of sub_rm16_imm8 rm = word_before_dst
size_of cmp_rm8_imm8 rm = if is_memory rm then byte_before_dst else unsized
size_of cmp_rm16_imm16 rm = unsized
size_of cmp_rm8_imm8_extended rm = unsized
size_of cmp_rm16_imm8 rm = word_before_dst

module _ (form : Immediate) (v : ℕ) (rest : List ℕ) (old : DecodedInstruction) where
  abbrev DecodesRm : Rm → Type 0
  DecodesRm rm =
      DecodesSized (immediate_bytes form rm v) rest old (immediate_line form rm v) (size_of form rm)

op_encoding-add : op_encoding (code b000) ≡ add_inst
unfolding op_encoding code
op_encoding-add = refl

op_encoding-sub : op_encoding (code b101) ≡ sub_inst
unfolding op_encoding code
op_encoding-sub = refl

op_encoding-cmp : op_encoding (code b111) ≡ cmp_inst
unfolding op_encoding code
op_encoding-cmp = refl

word-is_16bit : (c : Code) → is_16bit_register (register_map (code c) 1) ≡ true
unfolding register_map code is_16bit_register
word-is_16bit b000 = refl
word-is_16bit _ = refl

byte-is_16bit : (c : Code) → is_16bit_register (register_map (code c) 0) ≡ false
unfolding register_map code is_16bit_register
byte-is_16bit b000 = refl
byte-is_16bit _ = refl

ruleset rules =
    (fields, op_encoding-add, op_encoding-sub, op_encoding-cmp, word-is_16bit, byte-is_16bit)

module _ (c : Code) (v : ℕ) (rest : List ℕ) (old : DecodedInstruction) where
  in_register-Decodes : (form : Immediate) → DecodesRm form v rest old (in_register c)
  unfolding decoded immediate_bytes immediate_line size_of size_words
  in_register-Decodes mov_rm8_imm8 = simp rules (_, refl, refl, refl)
  in_register-Decodes _ = simp rules (_, refl, refl, refl)

  plain-Decodes : (form : Immediate) → c ≢ b110 → DecodesRm form v rest old (plain c)
  unfolding decoded immediate_bytes immediate_line size_of size_words
  plain-Decodes mov_rm8_imm8 h = simp (rules, code-not-six c h) (_, refl, refl, refl)
  plain-Decodes _ h = simp (rules, code-not-six c h) (_, refl, refl, refl)

  displaced8-Decodes : (form : Immediate) (d : ℕ) → DecodesRm form v rest old (displaced8 c d)
  unfolding decoded immediate_bytes immediate_line size_of size_words
  displaced8-Decodes mov_rm8_imm8 d = simp rules (_, refl, refl, refl)
  displaced8-Decodes _ d = simp rules (_, refl, refl, refl)

  displaced16-Decodes : (form : Immediate) (d : ℕ) → DecodesRm form v rest old (displaced16 c d)
  unfolding decoded immediate_bytes immediate_line size_of size_words
  displaced16-Decodes mov_rm8_imm8 d = simp rules (_, refl, refl, refl)
  displaced16-Decodes _ d = simp rules (_, refl, refl, refl)

absolute-Decodes :
    (v : ℕ) (rest : List ℕ) (old : DecodedInstruction) (form : Immediate) (a : ℕ)
    → DecodesRm form v rest old (absolute a)
unfolding decoded immediate_bytes immediate_line size_of size_words
absolute-Decodes v rest old mov_rm8_imm8 a = simp rules (_, refl, refl, refl)
absolute-Decodes v rest old _ a = simp rules (_, refl, refl, refl)

-- MOV, ADD, SUB and CMP of an immediate to a register or memory operand: each encoding of the manual
-- decodes to its line and its words for the size, for every opcode, every R/M with its displacement or
-- address and every value that fits; the one-byte immediate of 0x82 and 0x83 is sign-extended. Exactly
-- the encoding is consumed.
pub immediate-Decodes :
    (form : Immediate) (rm : Rm) (v : ℕ) (rest : List ℕ) (old : DecodedInstruction)
    → IsRm rm
    → Fits (width form) v
    → DecodesSized (immediate_bytes form rm v) rest old (immediate_line form rm v) (size_of form rm)
immediate-Decodes form (in_register c) v rest old h f = in_register-Decodes c v rest old form
immediate-Decodes form (plain c) v rest old h f = plain-Decodes c v rest old form h
immediate-Decodes form (displaced8 c d) v rest old h f = displaced8-Decodes c v rest old form d
immediate-Decodes form (displaced16 c d) v rest old h f = displaced16-Decodes c v rest old form d
immediate-Decodes form (absolute a) v rest old h f = absolute-Decodes v rest old form a

-- Without the words for the size.
pub immediate-line :
    (form : Immediate) (rm : Rm) (v : ℕ) (rest : List ℕ) (old : DecodedInstruction)
    → IsRm rm
    → Fits (width form) v
    → Decodes (immediate_bytes form rm v) rest old (immediate_line form rm v)
immediate-line form rm v rest old h f =
    let (i, e, stands, words) = immediate-Decodes form rm v rest old h f in (i, e, stands)
