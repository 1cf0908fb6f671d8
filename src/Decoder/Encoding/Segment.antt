-- ===== src/Decoder/Encoding/Segment.antt =====
-- MOV between a segment register and a register or memory operand.
use computer_enhance.Shared.{ℕ, ◌%◌, ◌≡◌, ◌≢◌, refl, Bool, true, false, List, ◌∷◌, if◌then◌else◌}
use computer_enhance.Decoder.Encoding.Decodes.{decoded, Decodes, unsized, size_words, DecodesSized}
use computer_enhance.Decoder.Encoding.Bits.{fields, code-not-six}
use computer_enhance.Decoder.Types.{
  DecodedInstruction, SegmentRegister, seg_reg_es, seg_reg_cs, seg_reg_ss, seg_reg_ds, mov_inst,
}
use computer_enhance.Decoder.Maps.{segment_register_map}
use computer_enhance.Decoder.Encoding.Manual.{
  Code, b000, b001, b010, b011, b110, code, Rm, in_register, plain, displaced8, displaced16,
  absolute, IsRm, rm_bytes, rm_operand, Assembly, two_operand, segment,
}

-- MOV to each segment register, and from each.
pub data SegmentMove : Type 0 where
  mov_es_rm16 mov_cs_rm16 mov_ss_rm16 mov_ds_rm16 : SegmentMove
  mov_rm16_es mov_rm16_cs mov_rm16_ss mov_rm16_ds : SegmentMove

unfoldable pub to_segment : SegmentMove → Bool
to_segment mov_es_rm16 = true
to_segment mov_cs_rm16 = true
to_segment mov_ss_rm16 = true
to_segment mov_ds_rm16 = true
to_segment mov_rm16_es = false
to_segment mov_rm16_cs = false
to_segment mov_rm16_ss = false
to_segment mov_rm16_ds = false

unfoldable pub segment_register : SegmentMove → SegmentRegister
segment_register mov_es_rm16 = seg_reg_es
segment_register mov_cs_rm16 = seg_reg_cs
segment_register mov_ss_rm16 = seg_reg_ss
segment_register mov_ds_rm16 = seg_reg_ds
segment_register mov_rm16_es = seg_reg_es
segment_register mov_rm16_cs = seg_reg_cs
segment_register mov_rm16_ss = seg_reg_ss
segment_register mov_rm16_ds = seg_reg_ds

-- The SR field.
unfoldable pub selector : SegmentMove → Code
selector mov_es_rm16 = b000
selector mov_cs_rm16 = b001
selector mov_ss_rm16 = b010
selector mov_ds_rm16 = b011
selector mov_rm16_es = b000
selector mov_rm16_cs = b001
selector mov_rm16_ss = b010
selector mov_rm16_ds = b011

-- 10001110 with the segment register as destination, 10001100 with it as source.
unfoldable pub segment_bytes : SegmentMove → Rm → List ℕ
unfolding rm_bytes selector to_segment
segment_bytes form rm =
    (if to_segment form then 0x8e else 0x8c) ∷ rm_bytes (code (selector form)) rm

unfoldable pub segment_line : SegmentMove → Rm → Assembly
unfolding rm_operand to_segment segment_register
segment_line form rm =
    if to_segment form
    then two_operand mov_inst (segment (segment_register form)) (rm_operand true rm)
    else two_operand mov_inst (rm_operand true rm) (segment (segment_register form))

segment-es : segment_register_map (code b000 % 4) ≡ seg_reg_es
unfolding segment_register_map code
segment-es = refl

segment-cs : segment_register_map (code b001 % 4) ≡ seg_reg_cs
unfolding segment_register_map code
segment-cs = refl

segment-ss : segment_register_map (code b010 % 4) ≡ seg_reg_ss
unfolding segment_register_map code
segment-ss = refl

segment-ds : segment_register_map (code b011 % 4) ≡ seg_reg_ds
unfolding segment_register_map code
segment-ds = refl

ruleset rules = (fields, segment-es, segment-cs, segment-ss, segment-ds)

-- No absolute address is the destination.
abbrev pub IsSegmentLoad : SegmentMove → Rm → Type 0
IsSegmentLoad form (absolute a) = to_segment form ≡ true
IsSegmentLoad form _ = Unit {0}

module _ (rest : List ℕ) (old : DecodedInstruction) where
  abbrev DecodesSegment : SegmentMove → Rm → Type 0
  DecodesSegment form rm =
      DecodesSized (segment_bytes form rm) rest old (segment_line form rm) unsized

  absolute-Decodes :
      (form : SegmentMove) (a : ℕ) → to_segment form ≡ true → DecodesSegment form (absolute a)
  unfolding decoded size_words segment_bytes segment_line
  absolute-Decodes mov_es_rm16 a h = simp rules (_, refl, refl, refl)
  absolute-Decodes mov_cs_rm16 a h = simp rules (_, refl, refl, refl)
  absolute-Decodes mov_ss_rm16 a h = simp rules (_, refl, refl, refl)
  absolute-Decodes mov_ds_rm16 a h = simp rules (_, refl, refl, refl)
  absolute-Decodes _ a h = absurd (cc h)

  module _ (c : Code) where
    in_register-Decodes : (form : SegmentMove) → DecodesSegment form (in_register c)
    unfolding decoded size_words segment_bytes segment_line
    in_register-Decodes mov_es_rm16 = simp rules (_, refl, refl, refl)
    in_register-Decodes _ = simp rules (_, refl, refl, refl)

    plain-Decodes : (form : SegmentMove) → c ≢ b110 → DecodesSegment form (plain c)
    unfolding decoded size_words segment_bytes segment_line
    plain-Decodes mov_es_rm16 h = simp (rules, code-not-six c h) (_, refl, refl, refl)
    plain-Decodes _ h = simp (rules, code-not-six c h) (_, refl, refl, refl)

    displaced8-Decodes : (form : SegmentMove) (d : ℕ) → DecodesSegment form (displaced8 c d)
    unfolding decoded size_words segment_bytes segment_line
    displaced8-Decodes mov_es_rm16 d = simp rules (_, refl, refl, refl)
    displaced8-Decodes _ d = simp rules (_, refl, refl, refl)

    displaced16-Decodes : (form : SegmentMove) (d : ℕ) → DecodesSegment form (displaced16 c d)
    unfolding decoded size_words segment_bytes segment_line
    displaced16-Decodes mov_es_rm16 d = simp rules (_, refl, refl, refl)
    displaced16-Decodes _ d = simp rules (_, refl, refl, refl)

-- No word for the size is printed.
pub segment-Sized :
    (form : SegmentMove) (rm : Rm) (rest : List ℕ) (old : DecodedInstruction)
    → IsRm rm
    → IsSegmentLoad form rm
    → DecodesSized (segment_bytes form rm) rest old (segment_line form rm) unsized
segment-Sized form (in_register c) rest old h l = in_register-Decodes rest old c form
segment-Sized form (plain c) rest old h l = plain-Decodes rest old c form h
segment-Sized form (displaced8 c d) rest old h l = displaced8-Decodes rest old c form d
segment-Sized form (displaced16 c d) rest old h l = displaced16-Decodes rest old c form d
segment-Sized form (absolute a) rest old h l = absolute-Decodes rest old form a l

-- MOV to and from a segment register: each encoding of the manual decodes to its line, for every R/M
-- with its displacement or address, except that an absolute address must be the source.
pub segment-Decodes :
    (form : SegmentMove) (rm : Rm) (rest : List ℕ) (old : DecodedInstruction)
    → IsRm rm
    → IsSegmentLoad form rm
    → Decodes (segment_bytes form rm) rest old (segment_line form rm)
segment-Decodes form rm rest old h l =
    let (i, e, stands, words) = segment-Sized form rm rest old h l in (i, e, stands)
