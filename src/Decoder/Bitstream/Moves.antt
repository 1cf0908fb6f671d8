-- ===== src/Decoder/Bitstream/Moves.antt =====
-- libdecoder_8086/instruction_bitstream.h: the seven forms of MOV.
use computer_enhance.Shared.{true, false}
use computer_enhance.Decoder.Types.{max_reg, mov_inst, reg_ax}
use computer_enhance.Decoder.Bitstream.Format.{OpcodeBitstream}

-- struct opcode_bitstream_s mov1_op.
unfoldable pub mov1_op : OpcodeBitstream
mov1_op = record {
  op = mov_inst;
  name = "Register/Memory to/from Register MOV";
  opcode = 0x88;
  opcode_bitmask = 0xfc;
  op_has_register_byte = true;
  op_has_opt_disp_bytes = true;
  op_has_data_bytes = false;
  op_has_address_bytes = false;
  byte1_has_d_flag = true;
  byte1_has_s_flag = false;
  byte1_has_w_flag = true;
  w_flag_shift = 0;
  byte1_has_reg_field = false;
  byte2_has_reg_field = true;
  reg_field_shift = 3;
  byte2_has_mod_field = true;
  byte2_has_rm_field = true;
  byte2_has_sr_field = false;
  byte2_has_op_encode_field = false;
  sr_is_target = false;
  op_has_hardcoded_dst = false;
  hard_dst_reg = max_reg;
  op_has_hardcoded_src = false;
  hard_src_reg = max_reg;
  is_short_instruction = false;
}

-- struct opcode_bitstream_s mov2_op.
unfoldable pub mov2_op : OpcodeBitstream
mov2_op = record {
  op = mov_inst;
  name = "Immediate to Register/Memory MOV";
  opcode = 0xc6;
  opcode_bitmask = 0xfe;
  op_has_register_byte = true;
  op_has_opt_disp_bytes = true;
  op_has_data_bytes = true;
  op_has_address_bytes = false;
  byte1_has_d_flag = false;
  byte1_has_s_flag = false;
  byte1_has_w_flag = true;
  w_flag_shift = 0;
  byte1_has_reg_field = false;
  byte2_has_reg_field = false;
  reg_field_shift = 0;
  byte2_has_mod_field = true;
  byte2_has_rm_field = true;
  byte2_has_sr_field = false;
  byte2_has_op_encode_field = false;
  sr_is_target = false;
  op_has_hardcoded_dst = false;
  hard_dst_reg = max_reg;
  op_has_hardcoded_src = false;
  hard_src_reg = max_reg;
  is_short_instruction = false;
}

-- struct opcode_bitstream_s mov3_op.
unfoldable pub mov3_op : OpcodeBitstream
mov3_op = record {
  op = mov_inst;
  name = "Immediate to Register MOV";
  opcode = 0xb0;
  opcode_bitmask = 0xf0;
  op_has_register_byte = false;
  op_has_opt_disp_bytes = false;
  op_has_data_bytes = true;
  op_has_address_bytes = false;
  byte1_has_d_flag = false;
  byte1_has_s_flag = false;
  byte1_has_w_flag = true;
  w_flag_shift = 3;
  byte1_has_reg_field = true;
  byte2_has_reg_field = false;
  reg_field_shift = 0;
  byte2_has_mod_field = false;
  byte2_has_rm_field = false;
  byte2_has_sr_field = false;
  byte2_has_op_encode_field = false;
  sr_is_target = false;
  op_has_hardcoded_dst = false;
  hard_dst_reg = max_reg;
  op_has_hardcoded_src = false;
  hard_src_reg = max_reg;
  is_short_instruction = false;
}

-- struct opcode_bitstream_s mov4_op.
unfoldable pub mov4_op : OpcodeBitstream
mov4_op = record {
  op = mov_inst;
  name = "Memory to Accumulator MOV";
  opcode = 0xa0;
  opcode_bitmask = 0xfe;
  op_has_register_byte = false;
  op_has_opt_disp_bytes = false;
  op_has_data_bytes = false;
  op_has_address_bytes = true;
  byte1_has_d_flag = false;
  byte1_has_s_flag = false;
  byte1_has_w_flag = true;
  w_flag_shift = 0;
  byte1_has_reg_field = false;
  byte2_has_reg_field = false;
  reg_field_shift = 0;
  byte2_has_mod_field = false;
  byte2_has_rm_field = false;
  byte2_has_sr_field = false;
  byte2_has_op_encode_field = false;
  sr_is_target = false;
  op_has_hardcoded_dst = true;
  hard_dst_reg = reg_ax;
  op_has_hardcoded_src = false;
  hard_src_reg = max_reg;
  is_short_instruction = false;
}

-- struct opcode_bitstream_s mov5_op.
unfoldable pub mov5_op : OpcodeBitstream
mov5_op = record {
  op = mov_inst;
  name = "Accumulator to Memory MOV";
  opcode = 0xa2;
  opcode_bitmask = 0xfe;
  op_has_register_byte = false;
  op_has_opt_disp_bytes = false;
  op_has_data_bytes = false;
  op_has_address_bytes = true;
  byte1_has_d_flag = false;
  byte1_has_s_flag = false;
  byte1_has_w_flag = true;
  w_flag_shift = 0;
  byte1_has_reg_field = false;
  byte2_has_reg_field = false;
  reg_field_shift = 0;
  byte2_has_mod_field = false;
  byte2_has_rm_field = false;
  byte2_has_sr_field = false;
  byte2_has_op_encode_field = false;
  sr_is_target = false;
  op_has_hardcoded_dst = false;
  hard_dst_reg = max_reg;
  op_has_hardcoded_src = true;
  hard_src_reg = reg_ax;
  is_short_instruction = false;
}

-- struct opcode_bitstream_s mov6_op.
unfoldable pub mov6_op : OpcodeBitstream
mov6_op = record {
  op = mov_inst;
  name = "Register/Memory to Segment Register MOV";
  opcode = 0x8e;
  opcode_bitmask = 0xff;
  op_has_register_byte = true;
  op_has_opt_disp_bytes = true;
  op_has_data_bytes = false;
  op_has_address_bytes = false;
  byte1_has_d_flag = false;
  byte1_has_s_flag = false;
  byte1_has_w_flag = false;
  w_flag_shift = 0;
  byte1_has_reg_field = false;
  byte2_has_reg_field = false;
  reg_field_shift = 3;
  byte2_has_mod_field = true;
  byte2_has_rm_field = true;
  byte2_has_sr_field = true;
  byte2_has_op_encode_field = false;
  sr_is_target = true;
  op_has_hardcoded_dst = false;
  hard_dst_reg = max_reg;
  op_has_hardcoded_src = false;
  hard_src_reg = max_reg;
  is_short_instruction = false;
}

-- struct opcode_bitstream_s mov7_op.
unfoldable pub mov7_op : OpcodeBitstream
mov7_op = record {
  op = mov_inst;
  name = "Segment Register to Register/Memory MOV";
  opcode = 0x8c;
  opcode_bitmask = 0xff;
  op_has_register_byte = true;
  op_has_opt_disp_bytes = true;
  op_has_data_bytes = false;
  op_has_address_bytes = false;
  byte1_has_d_flag = false;
  byte1_has_s_flag = false;
  byte1_has_w_flag = false;
  w_flag_shift = 0;
  byte1_has_reg_field = false;
  byte2_has_reg_field = false;
  reg_field_shift = 3;
  byte2_has_mod_field = true;
  byte2_has_rm_field = true;
  byte2_has_sr_field = true;
  byte2_has_op_encode_field = false;
  sr_is_target = false;
  op_has_hardcoded_dst = false;
  hard_dst_reg = max_reg;
  op_has_hardcoded_src = false;
  hard_src_reg = max_reg;
  is_short_instruction = false;
}
