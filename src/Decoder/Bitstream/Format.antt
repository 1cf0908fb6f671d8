-- ===== src/Decoder/Bitstream/Format.antt =====
-- libdecoder_8086/instruction_bitstream.h: struct opcode_bitstream_s.
use Prim.Native.String.{String}
use computer_enhance.Shared.{ℕ, Bool}
use computer_enhance.Decoder.Types.{Register, Instruction}

-- struct opcode_bitstream_s: which bits of an instruction mean what.
pub record OpcodeBitstream : Type 0 where
  pub op : Instruction
  pub name : String
  pub opcode : ℕ
  pub opcode_bitmask : ℕ
  pub op_has_register_byte : Bool
  pub op_has_opt_disp_bytes : Bool
  pub op_has_data_bytes : Bool
  pub op_has_address_bytes : Bool
  pub byte1_has_d_flag : Bool
  pub byte1_has_s_flag : Bool
  pub byte1_has_w_flag : Bool
  pub w_flag_shift : ℕ
  pub byte1_has_reg_field : Bool
  pub byte2_has_reg_field : Bool
  pub reg_field_shift : ℕ
  pub byte2_has_mod_field : Bool
  pub byte2_has_rm_field : Bool
  pub byte2_has_sr_field : Bool
  pub byte2_has_op_encode_field : Bool
  pub sr_is_target : Bool
  pub op_has_hardcoded_dst : Bool
  pub hard_dst_reg : Register
  pub op_has_hardcoded_src : Bool
  pub hard_src_reg : Register
  pub is_short_instruction : Bool
