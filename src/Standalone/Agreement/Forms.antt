-- ===== src/Standalone/Agreement/Forms.antt =====
-- The encodings that both decoders read alike: decoder_8086/decoder.c and libdecoder_8086/libdecoder.c.
use computer_enhance.Shared.{ℕ, ◌<◌, List, [], ◌∷◌}
use computer_enhance.Decoder.Types.{DecodedInstruction}
use computer_enhance.Decoder.Print.{text, number}
use computer_enhance.Decoder.Encoding.Manual.{IsRm, extended}
use computer_enhance.Decoder.Encoding.Immediate.{width, Fits}
use computer_enhance.Decoder.Encoding.Forms.{
  Form, register_memory, immediate, segment_move, jump, short_form, form_bytes, form_line,
}
use computer_enhance.Standalone.Extract.{Line}
use computer_enhance.Standalone.Agreement.Text.{Agrees}
use computer_enhance.Standalone.Agreement.RegisterMemory.{
  register_memory_text, IsCommonRm, register_memory-Agrees,
}
use computer_enhance.Standalone.Agreement.Immediate.{immediate_text, SameWidths, immediate-Agrees}
use computer_enhance.Standalone.Agreement.Segment.{segment_text, IsCommonSegment, segment-Agrees}
use computer_enhance.Standalone.Agreement.Short.{
  jump_text, jump-Agrees, short_text, IsCommonShort, short-Agrees,
}

unfoldable pub form_text : Form → Line
form_text (register_memory form r rm) = register_memory_text form r rm
form_text (immediate form rm v) = immediate_text form rm v
form_text (segment_move form rm) = segment_text form rm
form_text (jump j offset) = text (jump_text j) ∷ text " " ∷ number (extended offset) ∷ []
form_text (short_form form) = short_text form

-- Operands in range, in the forms that both decoders read alike.
abbrev pub IsCommon : Form → Type 0
IsCommon (register_memory form r rm) = IsCommonRm form rm
IsCommon (immediate form rm v) = IsRm rm × Fits (width form) v × SameWidths form rm
IsCommon (segment_move form rm) = IsCommonSegment rm
IsCommon (jump j offset) = offset < 256
IsCommon (short_form form) = IsCommonShort form

-- Both decoders consume the whole of an encoding of the manual and name the same instruction with the
-- same operands, whatever follows, if its operands are in range and it is one of these: register with
-- register or memory, where an absolute address is the source of a word operation; an immediate to a
-- register or memory, where a displacement has the width of the operands and MOV is not to a
-- register, to an absolute address, or of a word to memory without displacement; MOV of a segment
-- register and a register or memory without displacement; a jump or loop; MOV of an immediate to a
-- register; MOV of ax and an absolute address; ADD, SUB and CMP of an immediate with the accumulator.
pub form-Agrees :
    (form : Form) (rest : List ℕ) (old : DecodedInstruction)
    → IsCommon form
    → Agrees (form_bytes form) rest old (form_line form) (form_text form)
unfolding form_bytes form_line form_text
form-Agrees (register_memory form r rm) rest old h = register_memory-Agrees form r rm rest old h
form-Agrees (immediate form rm v) rest old (h, f, same) =
    immediate-Agrees form rm v rest old h f same
form-Agrees (segment_move form rm) rest old h = segment-Agrees form rm rest old h
form-Agrees (jump j offset) rest old h = jump-Agrees j offset rest old h
form-Agrees (short_form form) rest old h = short-Agrees form rest old h
