-- ===== src/Decoder/Encoding/Accumulator.antt =====
-- The short forms: MOV of an immediate to a register, MOV between the accumulator and an absolute
-- address, and ADD, SUB and CMP of an immediate with the accumulator.
use computer_enhance.Shared.{
  ℕ, ◌^◌, ◌+◌, ◌≡◌, ◌<◌, refl, Bool, true, false, List, [], ◌∷◌, if◌then◌else◌,
}
use computer_enhance.Decoder.Encoding.Decodes.{
  decoded, Decodes, Size, unsized, word_before_src, size_words, DecodesSized,
}
use computer_enhance.Decoder.Encoding.Bits.{sign_extend-extended, join_bytes-word}
use computer_enhance.Decoder.Types.{
  DecodedInstruction, Instruction, Register, reg_ax, reg_al, mov_inst, add_inst, sub_inst, cmp_inst,
  next_register, register_index,
}
use computer_enhance.Decoder.Maps.{register_map}
use computer_enhance.Decoder.Encoding.Manual.{
  Code, b000, code, Assembly, two_operand, register, direct, immediate, extended, word_bytes,
  any_register, byte_register, word_register,
}

pub data Arithmetic : Type 0 where
  add sub cmp : Arithmetic

-- al or ax.
abbrev accumulator : Bool → Register
accumulator w = if w then reg_ax else reg_al

abbrev data_of : Bool → ℕ → List ℕ
data_of w v = if w then word_bytes v else v ∷ []

abbrev value_of : Bool → ℕ → ℕ
value_of w v = if w then v else extended v

-- The forms, each with its W flag.
pub data Short : Type 0 where
  load_immediate : Bool → Code → ℕ → Short
  load_accumulator : Bool → ℕ → Short
  store_accumulator : Bool → ℕ → Short
  with_accumulator : Arithmetic → Bool → ℕ → Short

unfoldable pub accumulator_opcode : Arithmetic → ℕ
accumulator_opcode add = 0x04
accumulator_opcode sub = 0x2c
accumulator_opcode cmp = 0x3c

unfoldable pub accumulator_inst : Arithmetic → Instruction
accumulator_inst add = add_inst
accumulator_inst sub = sub_inst
accumulator_inst cmp = cmp_inst

unfoldable pub short_bytes : Short → List ℕ
unfolding accumulator_opcode code
short_bytes (load_immediate w r v) = ((if w then 0xb8 else 0xb0) + code r) ∷ data_of w v
short_bytes (load_accumulator w a) = (if w then 0xa1 else 0xa0) ∷ word_bytes a
short_bytes (store_accumulator w a) = (if w then 0xa3 else 0xa2) ∷ word_bytes a
short_bytes (with_accumulator op w v) = (accumulator_opcode op + (if w then 1 else 0)) ∷ data_of w v

unfoldable pub short_line : Short → Assembly
unfolding accumulator_inst word_register byte_register
short_line (load_immediate w r v) =
    two_operand mov_inst (register (any_register w r)) (immediate (value_of w v))
short_line (load_accumulator w a) = two_operand mov_inst (register (accumulator w)) (direct a)
short_line (store_accumulator w a) = two_operand mov_inst (direct a) (register (accumulator w))
short_line (with_accumulator op w v) =
    two_operand (accumulator_inst op) (register (accumulator w)) (immediate (value_of w v))

-- A word is named before the data.
unfoldable pub short_size : Short → Size
short_size (load_immediate w r v) = if w then word_before_src else unsized
short_size (load_accumulator w a) = unsized
short_size (store_accumulator w a) = unsized
short_size (with_accumulator op w v) = if w then word_before_src else unsized

-- The values fit, and the accumulator is stored as a word.
abbrev pub IsShort : Short → Type 0
IsShort (load_immediate w r v) = v < (if w then 2 ^ 16 else 256)
IsShort (load_accumulator w a) = a < 2 ^ 16
IsShort (store_accumulator w a) = (a < 2 ^ 16) × (w ≡ true)
IsShort (with_accumulator op w v) = v < (if w then 2 ^ 16 else 256)

ruleset rules = (sign_extend-extended, join_bytes-word)

module _ (rest : List ℕ) (old : DecodedInstruction) where
  abbrev DecodesShort : Short → Type 0
  DecodesShort form = DecodesSized (short_bytes form) rest old (short_line form) (short_size form)

  load_byte-Decodes : (r : Code) (v : ℕ) → DecodesShort (load_immediate false r v)
  unfolding decoded size_words short_size short_bytes short_line register_map
  load_byte-Decodes b000 v = simp rules (_, refl, refl, refl)
  load_byte-Decodes _ v = simp rules (_, refl, refl, refl)

  load_word-Decodes : (r : Code) (v : ℕ) → DecodesShort (load_immediate true r v)
  unfolding decoded size_words short_size short_bytes short_line register_map
  load_word-Decodes b000 v = simp rules (_, refl, refl, refl)
  load_word-Decodes _ v = simp rules (_, refl, refl, refl)

  load_accumulator-Decodes : (w : Bool) (a : ℕ) → DecodesShort (load_accumulator w a)
  unfolding decoded size_words short_size short_bytes short_line register_index next_register
  load_accumulator-Decodes true a = simp rules (_, refl, refl, refl)
  load_accumulator-Decodes false a = simp rules (_, refl, refl, refl)

  store_word-Decodes : (a : ℕ) → DecodesShort (store_accumulator true a)
  unfolding decoded size_words short_size short_bytes short_line
  store_word-Decodes a = simp rules (_, refl, refl, refl)

  with_byte-Decodes : (op : Arithmetic) (v : ℕ) → DecodesShort (with_accumulator op false v)
  unfolding decoded size_words short_size short_bytes short_line register_index next_register
  with_byte-Decodes add v = simp rules (_, refl, refl, refl)
  with_byte-Decodes _ v = simp rules (_, refl, refl, refl)

  with_word-Decodes : (op : Arithmetic) (v : ℕ) → DecodesShort (with_accumulator op true v)
  unfolding decoded size_words short_size short_bytes short_line register_index next_register
  with_word-Decodes add v = simp rules (_, refl, refl, refl)
  with_word-Decodes _ v = simp rules (_, refl, refl, refl)

pub short-Sized :
    (form : Short) (rest : List ℕ) (old : DecodedInstruction)
    → IsShort form
    → DecodesSized (short_bytes form) rest old (short_line form) (short_size form)
short-Sized (load_immediate true r v) rest old h = load_word-Decodes rest old r v
short-Sized (load_immediate false r v) rest old h = load_byte-Decodes rest old r v
short-Sized (load_accumulator w a) rest old h = load_accumulator-Decodes rest old w a
short-Sized (store_accumulator true a) rest old h = store_word-Decodes rest old a
short-Sized (store_accumulator false a) rest old h = absurd (cc (h.1))
short-Sized (with_accumulator op true v) rest old h = with_word-Decodes rest old op v
short-Sized (with_accumulator op false v) rest old h = with_byte-Decodes rest old op v

-- The short forms decode to their lines: an immediate loaded into any of the sixteen registers, the
-- accumulator loaded from an absolute address, ax stored to one, and ADD, SUB and CMP of an immediate
-- with al or ax, for values and addresses that fit. A one-byte immediate is sign-extended. Exactly the
-- encoding is consumed.
pub short-Decodes :
    (form : Short) (rest : List ℕ) (old : DecodedInstruction)
    → IsShort form
    → Decodes (short_bytes form) rest old (short_line form)
short-Decodes form rest old h =
    let (i, e, stands, words) = short-Sized form rest old h in (i, e, stands)

-- The byte form of the store, `mov [a], al`, decodes with the whole of ax as its source.
pub store_byte-widened :
    (a : ℕ) (rest : List ℕ) (old : DecodedInstruction)
    → a < 2 ^ 16
    → (short_line (store_accumulator false a) ≡ two_operand mov_inst (direct a) (register reg_al))
      × Decodes
          (short_bytes (store_accumulator false a))
          rest
          old
          (two_operand mov_inst (direct a) (register reg_ax))
unfolding decoded short_bytes short_line
store_byte-widened a rest old h = (refl, simp rules (_, refl, refl))
