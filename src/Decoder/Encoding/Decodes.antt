-- ===== src/Decoder/Encoding/Decodes.antt =====
-- What it means that the library decodes a byte sequence as an assembly line.
use computer_enhance.Shared.{ℕ, ◌≡◌, List, ◌++◌, some, length, get_elem?, Outcome, ok}
use computer_enhance.Decoder.Types.{DecodedInstruction, reset_instruction}
use computer_enhance.Decoder.Bitstream.{op_cmds}
use computer_enhance.Decoder.Extract.{extract_displacement, extract_direct_address, extract_data}
use computer_enhance.Decoder.Fields.{byte1_fields, byte2_fields, force_w}
use computer_enhance.Decoder.Modes.{
  direct_mode, direct_operands, register_mode, memory_operands, displaced_mode, mod_operands,
  field_operands,
}
use computer_enhance.Decoder.Parse.{
  is_dst_16bit, is_16bit_register, hardcoded_register, hardcoded_operand, hardcoded_dst,
  hardcoded_src, signed_format, width_format, data_format, data_written, data_value, data_bytes,
  short_op, short_written, short_instruction, read_fields, start_instruction, operands, start,
  finish, parse_instruction, matches, find_command, decode_bitstream,
}
use Prim.Native.String.{String}
use computer_enhance.Decoder.Print.{decorator}
use computer_enhance.Decoder.Maps.{op_encoding}
use computer_enhance.Decoder.Encoding.Manual.{Assembly, view, instruction}

-- The decoder at the head of a buffer that holds the bytes; `unfolding decoded` opens the parser.
unfoldable pub decoded : List ℕ → DecodedInstruction → Outcome (ℕ × DecodedInstruction)
unfolding decode_bitstream find_command matches op_cmds parse_instruction read_fields byte1_fields
    byte2_fields force_w operands start start_instruction finish field_operands mod_operands
    displaced_mode direct_mode direct_operands memory_operands register_mode hardcoded_dst
    hardcoded_src hardcoded_operand hardcoded_register data_bytes data_value data_format
    data_written signed_format width_format is_dst_16bit is_16bit_register short_instruction
    short_written short_op extract_displacement extract_direct_address extract_data
    reset_instruction op_encoding view instruction decorator
decoded bytes old = decode_bitstream (get_elem? bytes) old

-- Exactly the bytes are consumed, whatever follows them and whatever *inst_result held, and the
-- result stands for the assembly line.
abbrev pub Decodes : List ℕ → List ℕ → DecodedInstruction → Assembly → Type 0
Decodes bytes rest old line =
    (i : DecodedInstruction) × (decoded (bytes ++ rest) old ≡ ok (length bytes, i))
    × (view i ≡ some line)

-- The word that names the size of the operands: none, or one before an operand.
pub data Size : Type 0 where
  unsized byte_before_dst word_before_dst byte_before_src word_before_src : Size

-- What print_decoded_instruction puts before the destination and the source.
unfoldable pub size_words : Size → String × String
size_words unsized = ("", "")
size_words byte_before_dst = ("byte ", "")
size_words word_before_dst = ("word ", "")
size_words byte_before_src = ("", "byte ")
size_words word_before_src = ("", "word ")

abbrev pub words_of : DecodedInstruction → String × String
words_of i = (
  decorator i.dst_needs_byte_decorator i.dst_needs_word_decorator,
  decorator i.src_needs_byte_decorator i.src_needs_word_decorator,
)

-- The bytes decode to the line, with the words for the size.
abbrev pub DecodesSized : List ℕ → List ℕ → DecodedInstruction → Assembly → Size → Type 0
DecodesSized bytes rest old line size =
    (i : DecodedInstruction) × (decoded (bytes ++ rest) old ≡ ok (length bytes, i))
    × (view i ≡ some line)
    × (words_of i ≡ size_words size)
