-- ===== src/Decoder/Encoding/Forms.antt =====
-- The encodings of the other files together: an instruction in its bytes and as an assembly line.
use computer_enhance.Shared.{
  ℕ, ◌≡◌, ◌<◌, refl, List, [], ◌∷◌, ◌++◌, Option, none, some, ap, length, Bool-cases, inl, inr, ◌≤◌,
  arith,
}
use Prim.Native.String.{String}
use computer_enhance.Decoder.Types.{
  DecodedInstruction, Instruction, mov_inst, add_inst, sub_inst, cmp_inst, jo_inst, jno_inst,
  jb_inst, jnb_inst, je_inst, jnz_inst, jbe_inst, ja_inst, js_inst, jns_inst, jp_inst, jnp_inst,
  jl_inst, jnl_inst, jle_inst, jg_inst, loopnz_inst, loopz_inst, loop_inst, jcxz_inst, max_inst,
}
use computer_enhance.Decoder.Maps.{instruction_name}
use computer_enhance.Decoder.Encoding.Manual.{
  Code, Rm, IsRm, Assembly, Operand, view, both, dst_operand, src_operand, two_operand, short,
  extended,
}
use computer_enhance.Decoder.Encoding.Decodes.{Size, unsized, DecodesSized}
use computer_enhance.Decoder.Encoding.RegisterMemory.{
  RegisterMemory, register_memory_bytes, register_memory_line, register_memory-Sized, IsLoad,
  mov_rm8_r8,
}
use computer_enhance.Decoder.Encoding.Immediate.{
  Immediate, width, Fits, immediate_bytes, immediate_line, immediate-Decodes, size_of, mov_rm8_imm8,
}
use computer_enhance.Decoder.Encoding.Segment.{
  SegmentMove, segment_bytes, segment_line, segment-Sized, IsSegmentLoad, mov_es_rm16,
}
use computer_enhance.Decoder.Encoding.Accumulator.{
  Short, load_immediate, load_accumulator, store_accumulator, with_accumulator, short_bytes,
  short_line, short-Sized, short_size, IsShort, Arithmetic,
}
use computer_enhance.Decoder.Encoding.Jumps.{Jump, jo, opcode, operation, jump-Sized}

pub data Form : Type 0 where
  register_memory : RegisterMemory → Code → Rm → Form
  immediate : Immediate → Rm → ℕ → Form
  segment_move : SegmentMove → Rm → Form
  jump : Jump → ℕ → Form
  short_form : Short → Form

unfoldable pub form_bytes : Form → List ℕ
form_bytes (register_memory form r rm) = register_memory_bytes form r rm
form_bytes (immediate form rm v) = immediate_bytes form rm v
form_bytes (segment_move form rm) = segment_bytes form rm
form_bytes (jump j offset) = opcode j ∷ offset ∷ []
form_bytes (short_form form) = short_bytes form

unfoldable pub form_line : Form → Assembly
form_line (register_memory form r rm) = register_memory_line form r rm
form_line (immediate form rm v) = immediate_line form rm v
form_line (segment_move form rm) = segment_line form rm
form_line (jump j offset) = short (operation j) (extended offset)
form_line (short_form form) = short_line form

-- The instructions one after the other.
abbrev pub program_bytes : List Form → List ℕ
program_bytes [] = []
program_bytes (form ∷ forms) = form_bytes form ++ program_bytes forms

-- Operands in range, in the forms that decode to their lines.
abbrev pub IsEncoded : Form → Type 0
IsEncoded (register_memory form r rm) = IsRm rm × IsLoad form rm
IsEncoded (immediate form rm v) = IsRm rm × Fits (width form) v
IsEncoded (segment_move form rm) = IsRm rm × IsSegmentLoad form rm
IsEncoded (jump j offset) = offset < 256
IsEncoded (short_form form) = IsShort form

unfoldable pub form_size : Form → Size
unfolding size_of short_size
form_size (register_memory form r rm) = unsized
form_size (immediate form rm v) = size_of form rm
form_size (segment_move form rm) = unsized
form_size (jump j offset) = unsized
form_size (short_form form) = short_size form

pub form-Decodes :
    (form : Form) (rest : List ℕ) (old : DecodedInstruction)
    → IsEncoded form
    → DecodesSized (form_bytes form) rest old (form_line form) (form_size form)
unfolding form_bytes form_line form_size
form-Decodes (register_memory form r rm) rest old (h, l) =
    register_memory-Sized form r rm rest old h l
form-Decodes (immediate form rm v) rest old (h, f) = immediate-Decodes form rm v rest old h f
form-Decodes (segment_move form rm) rest old (h, l) = segment-Sized form rm rest old h l
form-Decodes (jump j offset) rest old h = jump-Sized j offset rest old h
form-Decodes (short_form form) rest old h = short-Sized form rest old h

-- The operation of a line.
abbrev pub op_of : Assembly → Instruction
op_of (two_operand op dst src) = op
op_of (short op v) = op

-- The names of the operations.
unfoldable pub operation_text : Instruction → String
operation_text mov_inst = "mov"
operation_text add_inst = "add"
operation_text sub_inst = "sub"
operation_text cmp_inst = "cmp"
operation_text jo_inst = "jo"
operation_text jno_inst = "jno"
operation_text jb_inst = "jb"
operation_text jnb_inst = "jnb"
operation_text je_inst = "je"
operation_text jnz_inst = "jnz"
operation_text jbe_inst = "jbe"
operation_text ja_inst = "ja"
operation_text js_inst = "js"
operation_text jns_inst = "jns"
operation_text jp_inst = "jp"
operation_text jnp_inst = "jnp"
operation_text jl_inst = "jl"
operation_text jnl_inst = "jnl"
operation_text jle_inst = "jle"
operation_text jg_inst = "jg"
operation_text loopnz_inst = "loopnz"
operation_text loopz_inst = "loopz"
operation_text loop_inst = "loop"
operation_text jcxz_inst = "jcxz"
operation_text max_inst = ""

abbrev pub Named : Assembly → Type 0
Named line = instruction_name (op_of line) ≡ some (operation_text (op_of line))

register_memory-Named :
    (form : RegisterMemory) (r : Code) (rm : Rm) → Named (register_memory_line form r rm)
unfolding register_memory_line instruction_name operation_text
register_memory-Named mov_rm8_r8 r rm = refl
register_memory-Named _ r rm = refl

immediate-Named : (form : Immediate) (rm : Rm) (v : ℕ) → Named (immediate_line form rm v)
unfolding immediate_line instruction_name operation_text
immediate-Named mov_rm8_imm8 rm v = refl
immediate-Named _ rm v = refl

segment-Named : (form : SegmentMove) (rm : Rm) → Named (segment_line form rm)
unfolding segment_line instruction_name operation_text
segment-Named mov_es_rm16 rm = refl
segment-Named _ rm = refl

jump-Named : (j : Jump) (v : ℕ) → Named (short (operation j) v)
unfolding operation instruction_name operation_text
jump-Named jo v = refl
jump-Named _ v = refl

short-Named : (form : Short) → Named (short_line form)
unfolding short_line instruction_name operation_text
short-Named (load_immediate w r v) = refl
short-Named (load_accumulator w a) = refl
short-Named (store_accumulator w a) = refl
short-Named (with_accumulator Arithmetic.add w v) = refl
short-Named (with_accumulator Arithmetic.sub w v) = refl
short-Named (with_accumulator Arithmetic.cmp w v) = refl

pub form-Named : (form : Form) → Named (form_line form)
unfolding form_line
form-Named (register_memory form r rm) = register_memory-Named form r rm
form-Named (immediate form rm v) = immediate-Named form rm v
form-Named (segment_move form rm) = segment-Named form rm
form-Named (jump j offset) = jump-Named j (extended offset)
form-Named (short_form form) = short-Named form

-- An instruction that stands for a line has its operation.
pub view-op_of : (i : DecodedInstruction) (line : Assembly) → view i ≡ some line → i.op ≡ op_of line
unfolding view
view-op_of i line e = elim (Bool-cases i.inst_is_short_w_data) [
  | inl is_short ↦ short_case (simp is_short at e)
  | inr is_long ↦
      long_case (dst_operand i.dst_type i) (src_operand i.src_type i) (simp is_long at e)
]
  where
    short_case :
        ◌≡◌ {A = Option Assembly} (some (short i.op i.src_data)) (some line) → i.op ≡ op_of line
    short_case e = let same : short i.op i.src_data ≡ line = cc e in ap op_of same

    long_case : (dst src : Option Operand) → both i.op dst src ≡ some line → i.op ≡ op_of line
    long_case none src e = absurd (cc e)
    long_case (some o) none e = absurd (cc e)
    long_case (some o) (some o') e = let same : two_operand i.op o o' ≡ line = cc e in ap op_of same

pub form_bytes-some : (form : Form) → 1 ≤ length (form_bytes form)
unfolding form_bytes register_memory_bytes immediate_bytes segment_bytes short_bytes
form_bytes-some (register_memory form r rm) = omega arith
form_bytes-some (immediate form rm v) = omega arith
form_bytes-some (segment_move form rm) = omega arith
form_bytes-some (jump j offset) = omega arith
form_bytes-some (short_form (load_immediate w r v)) = omega arith
form_bytes-some (short_form (load_accumulator w a)) = omega arith
form_bytes-some (short_form (store_accumulator w a)) = omega arith
form_bytes-some (short_form (with_accumulator op w v)) = omega arith
