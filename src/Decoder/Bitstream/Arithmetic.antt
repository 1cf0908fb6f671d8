-- ===== src/Decoder/Bitstream/Arithmetic.antt =====
-- libdecoder_8086/instruction_bitstream.h: the forms of ADD, SUB and CMP.
use computer_enhance.Shared.{true, false}
use computer_enhance.Decoder.Types.{add_inst, cmp_inst, max_inst, max_reg, reg_ax, sub_inst}
use computer_enhance.Decoder.Bitstream.Format.{OpcodeBitstream}

-- struct opcode_bitstream_s add1_op.
unfoldable pub add1_op : OpcodeBitstream
add1_op = record {
  op = add_inst;
  name = "Reg/Memory with register to either ADD";
  opcode = 0x00;
  opcode_bitmask = 0xfc;
  op_has_register_byte = true;
  op_has_opt_disp_bytes = true;
  op_has_data_bytes = false;
  op_has_address_bytes = false;
  byte1_has_d_flag = true;
  byte1_has_s_flag = false;
  byte1_has_w_flag = true;
  w_flag_shift = 0;
  byte1_has_reg_field = false;
  byte2_has_reg_field = true;
  reg_field_shift = 3;
  byte2_has_mod_field = true;
  byte2_has_rm_field = true;
  byte2_has_sr_field = false;
  byte2_has_op_encode_field = false;
  sr_is_target = false;
  op_has_hardcoded_dst = false;
  hard_dst_reg = max_reg;
  op_has_hardcoded_src = false;
  hard_src_reg = max_reg;
  is_short_instruction = false;
}

-- struct opcode_bitstream_s multi1_op.
unfoldable pub multi1_op : OpcodeBitstream
multi1_op = record {
  op = max_inst;
  name = "Immediate to register/memory MultiInstruction ADD/SUB/CMP";
  opcode = 0x80;
  opcode_bitmask = 0xfc;
  op_has_register_byte = true;
  op_has_opt_disp_bytes = true;
  op_has_data_bytes = true;
  op_has_address_bytes = false;
  byte1_has_d_flag = false;
  byte1_has_s_flag = true;
  byte1_has_w_flag = true;
  w_flag_shift = 0;
  byte1_has_reg_field = false;
  byte2_has_reg_field = false;
  reg_field_shift = 3;
  byte2_has_mod_field = true;
  byte2_has_rm_field = true;
  byte2_has_sr_field = false;
  byte2_has_op_encode_field = true;
  sr_is_target = false;
  op_has_hardcoded_dst = false;
  hard_dst_reg = max_reg;
  op_has_hardcoded_src = false;
  hard_src_reg = max_reg;
  is_short_instruction = false;
}

-- struct opcode_bitstream_s add2_op.
unfoldable pub add2_op : OpcodeBitstream
add2_op = record {
  op = add_inst;
  name = "Immediate to Accumulator ADD";
  opcode = 0x04;
  opcode_bitmask = 0xfe;
  op_has_register_byte = false;
  op_has_opt_disp_bytes = false;
  op_has_data_bytes = true;
  op_has_address_bytes = false;
  byte1_has_d_flag = false;
  byte1_has_s_flag = false;
  byte1_has_w_flag = true;
  w_flag_shift = 0;
  byte1_has_reg_field = false;
  byte2_has_reg_field = false;
  reg_field_shift = 0;
  byte2_has_mod_field = false;
  byte2_has_rm_field = false;
  byte2_has_sr_field = false;
  byte2_has_op_encode_field = false;
  sr_is_target = false;
  op_has_hardcoded_dst = true;
  hard_dst_reg = reg_ax;
  op_has_hardcoded_src = false;
  hard_src_reg = max_reg;
  is_short_instruction = false;
}

-- struct opcode_bitstream_s sub1_op.
unfoldable pub sub1_op : OpcodeBitstream
sub1_op = record {
  op = sub_inst;
  name = "Reg/Memory with register to either SUB";
  opcode = 0x28;
  opcode_bitmask = 0xfc;
  op_has_register_byte = true;
  op_has_opt_disp_bytes = true;
  op_has_data_bytes = false;
  op_has_address_bytes = false;
  byte1_has_d_flag = true;
  byte1_has_s_flag = false;
  byte1_has_w_flag = true;
  w_flag_shift = 0;
  byte1_has_reg_field = false;
  byte2_has_reg_field = true;
  reg_field_shift = 3;
  byte2_has_mod_field = true;
  byte2_has_rm_field = true;
  byte2_has_sr_field = false;
  byte2_has_op_encode_field = false;
  sr_is_target = false;
  op_has_hardcoded_dst = false;
  hard_dst_reg = max_reg;
  op_has_hardcoded_src = false;
  hard_src_reg = max_reg;
  is_short_instruction = false;
}

-- struct opcode_bitstream_s sub2_op.
unfoldable pub sub2_op : OpcodeBitstream
sub2_op = record {
  op = sub_inst;
  name = "Immediate to Accumulator SUB";
  opcode = 0x2c;
  opcode_bitmask = 0xfe;
  op_has_register_byte = false;
  op_has_opt_disp_bytes = false;
  op_has_data_bytes = true;
  op_has_address_bytes = false;
  byte1_has_d_flag = false;
  byte1_has_s_flag = false;
  byte1_has_w_flag = true;
  w_flag_shift = 0;
  byte1_has_reg_field = false;
  byte2_has_reg_field = false;
  reg_field_shift = 0;
  byte2_has_mod_field = false;
  byte2_has_rm_field = false;
  byte2_has_sr_field = false;
  byte2_has_op_encode_field = false;
  sr_is_target = false;
  op_has_hardcoded_dst = true;
  hard_dst_reg = reg_ax;
  op_has_hardcoded_src = false;
  hard_src_reg = max_reg;
  is_short_instruction = false;
}

-- struct opcode_bitstream_s cmp1_op.
unfoldable pub cmp1_op : OpcodeBitstream
cmp1_op = record {
  op = cmp_inst;
  name = "Reg/Memory with register to either CMP";
  opcode = 0x38;
  opcode_bitmask = 0xfc;
  op_has_register_byte = true;
  op_has_opt_disp_bytes = true;
  op_has_data_bytes = false;
  op_has_address_bytes = false;
  byte1_has_d_flag = true;
  byte1_has_s_flag = false;
  byte1_has_w_flag = true;
  w_flag_shift = 0;
  byte1_has_reg_field = false;
  byte2_has_reg_field = true;
  reg_field_shift = 3;
  byte2_has_mod_field = true;
  byte2_has_rm_field = true;
  byte2_has_sr_field = false;
  byte2_has_op_encode_field = false;
  sr_is_target = false;
  op_has_hardcoded_dst = false;
  hard_dst_reg = max_reg;
  op_has_hardcoded_src = false;
  hard_src_reg = max_reg;
  is_short_instruction = false;
}

-- struct opcode_bitstream_s cmp2_op.
unfoldable pub cmp2_op : OpcodeBitstream
cmp2_op = record {
  op = cmp_inst;
  name = "Immediate to Accumulator SUB";
  opcode = 0x3c;
  opcode_bitmask = 0xfe;
  op_has_register_byte = false;
  op_has_opt_disp_bytes = false;
  op_has_data_bytes = true;
  op_has_address_bytes = false;
  byte1_has_d_flag = false;
  byte1_has_s_flag = false;
  byte1_has_w_flag = true;
  w_flag_shift = 0;
  byte1_has_reg_field = false;
  byte2_has_reg_field = false;
  reg_field_shift = 0;
  byte2_has_mod_field = false;
  byte2_has_rm_field = false;
  byte2_has_sr_field = false;
  byte2_has_op_encode_field = false;
  sr_is_target = false;
  op_has_hardcoded_dst = true;
  hard_dst_reg = reg_ax;
  op_has_hardcoded_src = false;
  hard_src_reg = max_reg;
  is_short_instruction = false;
}
