-- ===== src/Decoder/Bitstream/Jumps.antt =====
-- libdecoder_8086/instruction_bitstream.h: the short jumps and loops.
use computer_enhance.Shared.{true, false}
use computer_enhance.Decoder.Types.{max_inst, max_reg}
use computer_enhance.Decoder.Bitstream.Format.{OpcodeBitstream}

-- struct opcode_bitstream_s jump_op.
unfoldable pub jump_op : OpcodeBitstream
jump_op = record {
  op = max_inst;
  name = "MultiInstruction JUMP";
  opcode = 0x70;
  opcode_bitmask = 0xf0;
  op_has_register_byte = false;
  op_has_opt_disp_bytes = false;
  op_has_data_bytes = false;
  op_has_address_bytes = false;
  byte1_has_d_flag = false;
  byte1_has_s_flag = false;
  byte1_has_w_flag = false;
  w_flag_shift = 0;
  byte1_has_reg_field = false;
  byte2_has_reg_field = false;
  reg_field_shift = 3;
  byte2_has_mod_field = false;
  byte2_has_rm_field = false;
  byte2_has_sr_field = false;
  byte2_has_op_encode_field = false;
  sr_is_target = false;
  op_has_hardcoded_dst = false;
  hard_dst_reg = max_reg;
  op_has_hardcoded_src = false;
  hard_src_reg = max_reg;
  is_short_instruction = true;
}

-- struct opcode_bitstream_s loop_op.
unfoldable pub loop_op : OpcodeBitstream
loop_op = record {
  op = max_inst;
  name = "MultiInstruction LOOP";
  opcode = 0xe0;
  opcode_bitmask = 0xfc;
  op_has_register_byte = false;
  op_has_opt_disp_bytes = false;
  op_has_data_bytes = false;
  op_has_address_bytes = false;
  byte1_has_d_flag = false;
  byte1_has_s_flag = false;
  byte1_has_w_flag = false;
  w_flag_shift = 0;
  byte1_has_reg_field = false;
  byte2_has_reg_field = false;
  reg_field_shift = 3;
  byte2_has_mod_field = false;
  byte2_has_rm_field = false;
  byte2_has_sr_field = false;
  byte2_has_op_encode_field = false;
  sr_is_target = false;
  op_has_hardcoded_dst = false;
  hard_dst_reg = max_reg;
  op_has_hardcoded_src = false;
  hard_src_reg = max_reg;
  is_short_instruction = true;
}
