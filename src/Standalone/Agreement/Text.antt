-- ===== src/Standalone/Agreement/Text.antt =====
-- Operands as text, with the names of libdecoder_8086/libdecoder.c, and the fields of the encodings in
-- the hands of decoder_8086/decoder.c.
use Prim.Native.String.{String}
use computer_enhance.Shared.{
  ℕ, ◌≡◌, refl, Bool, List, [], ◌∷◌, ◌++◌, get_or, get_elem?, length, Outcome, ok,
}
use computer_enhance.Decoder.Types.{Register, register_index, DecodedInstruction}
use computer_enhance.Decoder.Maps.{register_name}
use computer_enhance.Decoder.Print.{text, number}
use computer_enhance.Decoder.Encoding.Manual.{
  Code, b000, b001, b010, b011, b100, b101, b110, b111, code, Rm, in_register, plain, displaced8,
  displaced16, absolute, any_register, word_register, byte_register, extended, Operation, mov, add,
  sub, cmp, Assembly,
}
use computer_enhance.Decoder.Encoding.Decodes.{Decodes}
use computer_enhance.Decoder.Encoding.Bits.{
  mod-modrm0, reg-modrm0, rm-modrm0, sr-modrm0, mod-modrm1, reg-modrm1, rm-modrm1, mod-modrm2,
  reg-modrm2, rm-modrm2, mod-modrm3, reg-modrm3, rm-modrm3, sr-modrm3, mod-absolute, reg-absolute,
  rm-absolute, join_bytes-word, sign_extend-extended,
}
use computer_enhance.Standalone.Extract.{
  Line, register_map, mov_source_effective_address, extract_displacement, extract_data,
  explicit_extract_data, address_text,
}
use computer_enhance.Standalone.Main.{process_instruction}

abbrev pub name_of : Register → String
name_of r = get_or register_name (register_index r) ""

abbrev pub base_text : Code → String
base_text b000 = "bx + si"
base_text b001 = "bx + di"
base_text b010 = "bp + si"
base_text b011 = "bp + di"
base_text b100 = "si"
base_text b101 = "di"
base_text b110 = "bp"
base_text b111 = "bx"

unfoldable pub rm_text : Bool → Rm → Line
unfolding register_name register_index
rm_text w (in_register c) = text (name_of (any_register w c)) ∷ []
rm_text w (plain c) = text "[" ∷ text (base_text c) ∷ text "]" ∷ []
rm_text w (displaced8 c d) = address_text (base_text c) (extended d)
rm_text w (displaced16 c d) = address_text (base_text c) d
rm_text w (absolute a) = text "[" ∷ number a ∷ text "]" ∷ []

unfoldable pub operation_text : Operation → String
operation_text mov = "mov"
operation_text add = "add"
operation_text sub = "sub"
operation_text cmp = "cmp"

abbrev pub joined : String → String → Line → Line → Line
joined op separator dst src = text op ∷ text " " ∷ (dst ++ (text separator ∷ src))

-- Two registers are joined without a space.
abbrev pub separator : Rm → String
separator (in_register c) = ","
separator _ = ", "

-- The stand-alone decoder at the head of a buffer that holds the bytes.
unfoldable pub printed : List ℕ → Outcome (ℕ × Line)
unfolding process_instruction extract_displacement extract_data explicit_extract_data address_text
printed bytes = process_instruction (get_elem? bytes)

-- The library decodes the bytes as the assembly line, and the stand-alone decoder prints the text for
-- them. Both consume exactly the bytes, whatever follows.
abbrev pub Agrees : List ℕ → List ℕ → DecodedInstruction → Assembly → Line → Type 0
Agrees bytes rest old line written =
    Decodes bytes rest old line × (printed (bytes ++ rest) ≡ ok (length bytes, written))

pub register_map-word : (c : Code) → register_map (code c) 1 ≡ name_of (word_register c)
unfolding register_map code word_register register_index register_name
register_map-word b000 = refl
register_map-word _ = refl

pub register_map-byte : (c : Code) → register_map (code c) 0 ≡ name_of (byte_register c)
unfolding register_map code byte_register register_index register_name
register_map-byte b000 = refl
register_map-byte _ = refl

pub effective-base_text : (c : Code) → mov_source_effective_address (code c) ≡ base_text c
unfolding mov_source_effective_address code
effective-base_text b000 = refl
effective-base_text _ = refl

pub ruleset texts = (
  mod-modrm0, reg-modrm0, rm-modrm0, sr-modrm0, mod-modrm1, reg-modrm1, rm-modrm1, mod-modrm2,
  reg-modrm2, rm-modrm2, mod-modrm3, reg-modrm3, rm-modrm3, sr-modrm3, mod-absolute, reg-absolute,
  rm-absolute, register_map-word, register_map-byte, effective-base_text, join_bytes-word,
  sign_extend-extended,
)
