-- ===== src/Standalone/Agreement/Segment.antt =====
-- MOV between a segment register and a register, or memory without a displacement, in both decoders.
use computer_enhance.Shared.{
  ℕ, ◌%◌, ◌≡◌, ◌≢◌, refl, true, List, [], ◌∷◌, ◌++◌, length, ok, if◌then◌else◌,
}
use computer_enhance.Decoder.Types.{DecodedInstruction}
use computer_enhance.Decoder.Print.{text}
use computer_enhance.Decoder.Encoding.Manual.{
  Code, b000, b001, b010, b011, b110, code, Rm, in_register, plain, displaced8, displaced16,
  absolute,
}
use computer_enhance.Decoder.Encoding.Segment.{
  SegmentMove, mov_es_rm16, to_segment, segment_register, segment_bytes, segment_line,
  segment-Decodes,
}
use computer_enhance.Decoder.Maps.{get_segment_register_name}
use computer_enhance.Decoder.Encoding.Bits.{code-not-six}
use computer_enhance.Standalone.Extract.{Line, segment_register_map}
use computer_enhance.Standalone.Agreement.Text.{separator, rm_text, joined, printed, Agrees, texts}

unfoldable pub segment_text : SegmentMove → Rm → Line
unfolding to_segment segment_register rm_text get_segment_register_name
segment_text form rm =
    let sr = text (get_segment_register_name (segment_register form)) ∷ [] in
    let other = rm_text true rm in
    if to_segment form
    then joined "mov" (separator rm) sr other
    else joined "mov" (separator rm) other sr

segment-es : segment_register_map (code b000 % 4) ≡ "es"
unfolding segment_register_map code
segment-es = refl

segment-cs : segment_register_map (code b001 % 4) ≡ "cs"
unfolding segment_register_map code
segment-cs = refl

segment-ss : segment_register_map (code b010 % 4) ≡ "ss"
unfolding segment_register_map code
segment-ss = refl

segment-ds : segment_register_map (code b011 % 4) ≡ "ds"
unfolding segment_register_map code
segment-ds = refl

ruleset rules = (texts, segment-es, segment-cs, segment-ss, segment-ds)

-- A register, or an address without displacement.
abbrev pub IsCommonSegment : Rm → Type 0
IsCommonSegment (in_register c) = Unit {0}
IsCommonSegment (plain c) = c ≢ b110
IsCommonSegment _ = ⊥

module _ (rest : List ℕ) (c : Code) where
  abbrev Prints : SegmentMove → Rm → Type 0
  Prints form rm =
      printed (segment_bytes form rm ++ rest)
      ≡ ok (length (segment_bytes form rm), segment_text form rm)

  in_register-Prints : (form : SegmentMove) → Prints form (in_register c)
  unfolding printed segment_bytes segment_text
  in_register-Prints mov_es_rm16 = simp rules
  in_register-Prints _ = simp rules

  plain-Prints : (form : SegmentMove) → c ≢ b110 → Prints form (plain c)
  unfolding printed segment_bytes segment_text
  plain-Prints mov_es_rm16 h = simp (rules, code-not-six c h)
  plain-Prints _ h = simp (rules, code-not-six c h)

pub segment-Agrees :
    (form : SegmentMove) (rm : Rm) (rest : List ℕ) (old : DecodedInstruction)
    → IsCommonSegment rm
    → Agrees (segment_bytes form rm) rest old (segment_line form rm) (segment_text form rm)
segment-Agrees form (in_register c) rest old h =
    (segment-Decodes form (in_register c) rest old h tt, in_register-Prints rest c form)
segment-Agrees form (plain c) rest old h =
    (segment-Decodes form (plain c) rest old h tt, plain-Prints rest c form h)
segment-Agrees form (displaced8 c d) rest old h = absurd h
segment-Agrees form (displaced16 c d) rest old h = absurd h
segment-Agrees form (absolute a) rest old h = absurd h
