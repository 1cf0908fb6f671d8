-- ===== src/Decoder/Types.antt =====
-- libdecoder_8086/libdecoder.h: the enums and struct decoded_instruction_s, with reset_instruction
-- of libdecoder.c. An int16_t field is kept as its bit pattern, a number below 2 ^ 16.
use Prim.Native.String.{String}
use computer_enhance.Shared.{ℕ, Bool, false, Option, some, ◌==◌}

-- enum register_e.
pub data Register : Type 0 where
  reg_ax reg_al reg_ah reg_bx reg_bl reg_bh reg_cx reg_cl reg_ch reg_dx reg_dl reg_dh : Register
  reg_sp reg_bp reg_si reg_di max_reg : Register

-- enum segment_register_e.
pub data SegmentRegister : Type 0 where
  seg_reg_es seg_reg_cs seg_reg_ss seg_reg_ds max_seg_reg : SegmentRegister

-- enum instructions_e.
pub data Instruction : Type 0 where
  mov_inst add_inst sub_inst cmp_inst : Instruction
  jo_inst jno_inst jb_inst jnb_inst je_inst jnz_inst jbe_inst ja_inst : Instruction
  js_inst jns_inst jp_inst jnp_inst jl_inst jnl_inst jle_inst jg_inst : Instruction
  loopnz_inst loopz_inst loop_inst jcxz_inst max_inst : Instruction

-- enum operand_type_e.
pub data OperandType : Type 0 where
  type_register type_segment_register type_direct_address : OperandType
  type_effective_address type_data max_type : OperandType

-- The value of an enum register_e constant.
unfoldable pub register_index : Register → ℕ
register_index reg_ax = 0
register_index reg_al = 1
register_index reg_ah = 2
register_index reg_bx = 3
register_index reg_bl = 4
register_index reg_bh = 5
register_index reg_cx = 6
register_index reg_cl = 7
register_index reg_ch = 8
register_index reg_dx = 9
register_index reg_dl = 10
register_index reg_dh = 11
register_index reg_sp = 12
register_index reg_bp = 13
register_index reg_si = 14
register_index reg_di = 15
register_index max_reg = 16

-- `reg + 1` in enum register_e; the last constant stays, it is never incremented.
unfoldable pub next_register : Register → Register
next_register reg_ax = reg_al
next_register reg_al = reg_ah
next_register reg_ah = reg_bx
next_register reg_bx = reg_bl
next_register reg_bl = reg_bh
next_register reg_bh = reg_cx
next_register reg_cx = reg_cl
next_register reg_cl = reg_ch
next_register reg_ch = reg_dx
next_register reg_dx = reg_dl
next_register reg_dl = reg_dh
next_register reg_dh = reg_sp
next_register reg_sp = reg_bp
next_register reg_bp = reg_si
next_register reg_si = reg_di
next_register reg_di = max_reg
next_register max_reg = max_reg

-- struct decoded_instruction_s. `op_name` is `none` where the pointer was read past the end of
-- instruction_name.
pub record DecodedInstruction : Type 0 where
  pub op : Instruction
  pub op_name : Option String
  pub name : String
  pub inst_num_bytes : ℕ
  pub src_type : OperandType
  pub src_register : Register
  pub src_seg_register : SegmentRegister
  pub src_direct_address : ℕ
  pub src_effective_reg1 : Register
  pub src_effective_reg2 : Register
  pub src_effective_displacement : ℕ
  pub src_data : ℕ
  pub src_needs_byte_decorator : Bool
  pub src_needs_word_decorator : Bool
  pub dst_type : OperandType
  pub dst_register : Register
  pub dst_seg_register : SegmentRegister
  pub dst_direct_address : ℕ
  pub dst_effective_reg1 : Register
  pub dst_effective_reg2 : Register
  pub dst_effective_displacement : ℕ
  pub dst_needs_byte_decorator : Bool
  pub dst_needs_word_decorator : Bool
  pub inst_is_short_w_data : Bool

-- reset_instruction: it writes every field, so the result does not depend on the old contents.
unfoldable pub reset_instruction : DecodedInstruction
reset_instruction = record {
  op = max_inst;
  op_name = some "";
  name = "";
  inst_num_bytes = 0;
  src_type = max_type;
  src_register = max_reg;
  src_seg_register = max_seg_reg;
  src_direct_address = 0;
  src_effective_reg1 = max_reg;
  src_effective_reg2 = max_reg;
  src_effective_displacement = 0;
  src_data = 0;
  src_needs_byte_decorator = false;
  src_needs_word_decorator = false;
  dst_type = max_type;
  dst_register = max_reg;
  dst_seg_register = max_seg_reg;
  dst_direct_address = 0;
  dst_effective_reg1 = max_reg;
  dst_effective_reg2 = max_reg;
  dst_effective_displacement = 0;
  dst_needs_byte_decorator = false;
  dst_needs_word_decorator = false;
  inst_is_short_w_data = false;
}

-- a == b for enum register_e.
unfoldable pub eq_register : Register → Register → Bool
unfolding register_index
eq_register a b = register_index a == register_index b
