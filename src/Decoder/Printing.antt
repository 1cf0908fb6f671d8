-- ===== src/Decoder/Printing.antt =====
-- The text of an assembly line, and print_decoded_instruction of libdecoder_8086/libdecoder.c on the
-- instructions that stand for one.
use computer_enhance.Shared.{
  ℕ, ◌≡◌, refl, ◌==◌, Option, none, some, List, [], ◌∷◌, ◌++◌, ok, Bool-cases, inl, inr, ltb,
  if◌then◌else◌, ◌^◌,
}
use computer_enhance.Decoder.Types.{
  Register, reg_ax, reg_al, reg_ah, reg_bx, reg_bl, reg_bh, reg_cx, reg_cl, reg_ch, reg_dx, reg_dl,
  reg_dh, reg_sp, reg_bp, reg_si, reg_di, max_reg, register_index, eq_register, SegmentRegister,
  seg_reg_es, seg_reg_cs, seg_reg_ss, seg_reg_ds, max_seg_reg, OperandType, type_register,
  type_segment_register, type_direct_address, type_effective_address, type_data, max_type,
  DecodedInstruction,
}
use computer_enhance.Decoder.Maps.{instruction_name, register_name, get_segment_register_name}
use computer_enhance.Decoder.Print.{
  Piece, text, number, unsigned, sign, register_label, effective_pieces, dst_pieces, src_pieces,
  print_decoded_instruction,
}
use computer_enhance.Decoder.Encoding.Manual.{
  Assembly, two_operand, short, Operand, register, segment, memory, direct, immediate, both,
  dst_operand, src_operand, view,
}
use computer_enhance.Decoder.Encoding.Decodes.{words_of}
use Prim.Native.String.{String}

unfoldable pub register_text : Register → String
register_text reg_ax = "ax"
register_text reg_al = "al"
register_text reg_ah = "ah"
register_text reg_bx = "bx"
register_text reg_bl = "bl"
register_text reg_bh = "bh"
register_text reg_cx = "cx"
register_text reg_cl = "cl"
register_text reg_ch = "ch"
register_text reg_dx = "dx"
register_text reg_dl = "dl"
register_text reg_dh = "dh"
register_text reg_sp = "sp"
register_text reg_bp = "bp"
register_text reg_si = "si"
register_text reg_di = "di"
register_text max_reg = "INVALID"

unfoldable pub segment_register_text : SegmentRegister → String
segment_register_text seg_reg_es = "es"
segment_register_text seg_reg_cs = "cs"
segment_register_text seg_reg_ss = "ss"
segment_register_text seg_reg_ds = "ds"
segment_register_text max_seg_reg = "INVALID"

-- The displacement behind its sign, and nothing for 0.
unfoldable pub displacement_text : String → ℕ → List Piece
displacement_text minus d =
    if d == 0
    then []
    else text " " ∷ text (if ltb d (2 ^ 15) then "+" else minus) ∷ text " " ∷ number d ∷ []

-- An index behind the base.
unfoldable pub index_text : Register → List Piece
unfolding register_text
index_text max_reg = []
index_text r = text " + " ∷ text (register_text r) ∷ []

-- What precedes a negative number: nothing, or a minus sign in a destination with an index.
unfoldable pub minus_sign : Register → String
minus_sign max_reg = ""
minus_sign _ = "-"

abbrev pub memory_text : String → Register → Register → ℕ → List Piece
memory_text minus base index d =
    (text "[ " ∷ text (register_text base) ∷ index_text index)
    ++ displacement_text minus d
    ++ text " ]" ∷ []

unfoldable pub dst_text : Operand → List Piece
unfolding register_text segment_register_text index_text displacement_text minus_sign
dst_text (register r) = text (register_text r) ∷ []
dst_text (segment s) = text (segment_register_text s) ∷ []
dst_text (memory base index d) = memory_text (minus_sign index) base index d
dst_text (direct a) = text "[ " ∷ unsigned a ∷ text " ]" ∷ []
dst_text (immediate v) = number v ∷ []

unfoldable pub src_text : Operand → List Piece
unfolding register_text segment_register_text index_text displacement_text
src_text (register r) = text (register_text r) ∷ []
src_text (segment s) = text (segment_register_text s) ∷ []
src_text (memory base index d) = memory_text "" base index d
src_text (direct a) = text "[ " ∷ unsigned a ∷ text " ]" ∷ []
src_text (immediate v) = number v ∷ []

-- The line of an operation with this name, with the words before its operands.
unfoldable pub line_text : String → String × String → Assembly → List Piece
unfolding dst_text src_text
line_text name (dst_word, src_word) (two_operand op dst src) =
    text name
    ∷ text " "
    ∷ text dst_word
    ∷ (dst_text dst ++ text ", " ∷ text src_word ∷ src_text src)
line_text name words (short op v) = text name ∷ text " " ∷ number v ∷ []

register_label-text : (r : Register) → register_label r ≡ ok (register_text r)
unfolding register_label register_name register_index register_text
register_label-text reg_ax = refl
register_label-text _ = refl

get_segment_register_name-text :
    (s : SegmentRegister) → get_segment_register_name s ≡ segment_register_text s
unfolding get_segment_register_name segment_register_text
get_segment_register_name-text seg_reg_es = refl
get_segment_register_name-text _ = refl

effective_pieces-text :
    (negative : String) (base index : Register) (d : ℕ)
    → effective_pieces negative base index d ≡ ok (memory_text negative base index d)
unfolding effective_pieces index_text displacement_text sign eq_register register_index
effective_pieces-text negative base reg_ax d =
    rw (register_label-text base, register_label-text reg_ax) refl
effective_pieces-text negative base max_reg d =
    rw (register_label-text base, register_label-text max_reg) refl
effective_pieces-text negative base index d =
    rw (register_label-text base, register_label-text index) refl

dst_memory-text :
    (base index : Register) (d : ℕ)
    → effective_pieces (if eq_register index max_reg then "" else "-") base index d
      ≡ ok (memory_text (minus_sign index) base index d)
unfolding minus_sign eq_register register_index
dst_memory-text base reg_ax d = effective_pieces-text "-" base reg_ax d
dst_memory-text base max_reg d = effective_pieces-text "" base max_reg d
dst_memory-text base index d = effective_pieces-text "-" base index d

dst_pieces-text :
    (t : OperandType) (i : DecodedInstruction) (o : Operand)
    → dst_operand t i ≡ some o
    → dst_pieces t i ≡ ok (dst_text o)
unfolding dst_pieces dst_operand dst_text
dst_pieces-text type_register i o h =
    let same : register i.dst_register ≡ o = cc h in
    rw (← same, register_label-text i.dst_register) refl
dst_pieces-text type_segment_register i o h =
    let same : segment i.dst_seg_register ≡ o = cc h in
    rw (← same, get_segment_register_name-text i.dst_seg_register) refl
dst_pieces-text type_direct_address i o h =
    let same : direct i.dst_direct_address ≡ o = cc h in rw (← same) refl
dst_pieces-text type_effective_address i o h =
    let same : memory i.dst_effective_reg1 i.dst_effective_reg2 i.dst_effective_displacement ≡ o =
      cc h in
    rw (← same)
      (dst_memory-text i.dst_effective_reg1 i.dst_effective_reg2 i.dst_effective_displacement)
dst_pieces-text type_data i o h = absurd (cc h)
dst_pieces-text max_type i o h = absurd (cc h)

src_pieces-text :
    (t : OperandType) (i : DecodedInstruction) (o : Operand)
    → src_operand t i ≡ some o
    → src_pieces t i ≡ ok (src_text o)
unfolding src_pieces src_operand src_text
src_pieces-text type_register i o h =
    let same : register i.src_register ≡ o = cc h in
    rw (← same, register_label-text i.src_register) refl
src_pieces-text type_segment_register i o h =
    let same : segment i.src_seg_register ≡ o = cc h in
    rw (← same, get_segment_register_name-text i.src_seg_register) refl
src_pieces-text type_direct_address i o h =
    let same : direct i.src_direct_address ≡ o = cc h in rw (← same) refl
src_pieces-text type_effective_address i o h =
    let same : memory i.src_effective_reg1 i.src_effective_reg2 i.src_effective_displacement ≡ o =
      cc h in
    rw (← same) (
      effective_pieces-text "" i.src_effective_reg1 i.src_effective_reg2
        i.src_effective_displacement)
src_pieces-text type_data i o h = let same : immediate i.src_data ≡ o = cc h in rw (← same) refl
src_pieces-text max_type i o h = absurd (cc h)

both-some :
    (i : DecodedInstruction) (dst src : Option Operand) (line : Assembly)
    → both i.op dst src ≡ some line
    → (o : Operand) × (o' : Operand) × (dst ≡ some o)
      × (src ≡ some o')
      × (two_operand i.op o o' ≡ line)
unfolding both
both-some i none src line h = absurd (cc h)
both-some i (some o) none line h = absurd (cc h)
both-some i (some o) (some o') line h = (o, o', refl, refl, cc h)

-- print_decoded_instruction prints the text of the line that an instruction stands for, if its
-- operation has a name: it reaches no ERROR and no table is read out of range.
pub print_decoded_instruction-text :
    (i : DecodedInstruction) (line : Assembly) (name : String)
    → view i ≡ some line
    → instruction_name i.op ≡ some name
    → print_decoded_instruction i ≡ ok (line_text name (words_of i) line)
unfolding print_decoded_instruction view line_text
print_decoded_instruction-text i line name h named = elim (Bool-cases i.inst_is_short_w_data) [
  | inl is_short ↦
      let same : short i.op i.src_data ≡ line = cc (simp is_short at h) in
      rw (is_short, named, ← same) refl
  | inr long ↦
      let (o, o', is_dst, is_src, same) =
        both-some i (dst_operand i.dst_type i) (src_operand i.src_type i) line (simp long at h) in
      let e = dst_pieces-text i.dst_type i o is_dst in
      let e' = src_pieces-text i.src_type i o' is_src in rw (← same) (simp (long, e, e', named))
]
