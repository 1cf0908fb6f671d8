-- ===== src/Decoder/Fields.antt =====
-- libdecoder_8086/libdecoder.c, parse_instruction: the flags and fields of the first two bytes.
use computer_enhance.Shared.{ℕ, Bool, true, false, bit_and, ◌>>◌, if◌then◌else◌}
use computer_enhance.Decoder.Types.{Instruction}
use computer_enhance.Decoder.Maps.{op_encoding}
use computer_enhance.Decoder.Bitstream.Format.{OpcodeBitstream}

-- The local variables that the two bytes set. `op` is what inst_result->op holds behind them.
pub record Fields : Type 0 where
  pub op : Instruction
  pub d_bit : ℕ
  pub s_bit : ℕ
  pub w_bit : ℕ
  pub reg_field : ℕ
  pub mod_field : ℕ
  pub rm_field : ℕ
  pub sr_field : ℕ
  pub has_d_bit : Bool
  pub has_s_bit : Bool
  pub has_w_bit : Bool
  pub has_mod : Bool
  pub has_reg : Bool
  pub has_rm : Bool
  pub has_sr : Bool

-- The part on the 1st byte. The S flag is read with the shift of the D flag, which is the same.
unfoldable pub byte1_fields : OpcodeBitstream → ℕ → Fields
byte1_fields cmd b = record {
  op = cmd.op;
  d_bit = if cmd.byte1_has_d_flag then bit_and (b >> 1) 1 else 0;
  s_bit = if cmd.byte1_has_s_flag then bit_and (b >> 1) 1 else 0;
  w_bit = if cmd.byte1_has_w_flag then bit_and (b >> cmd.w_flag_shift) 1 else 0;
  reg_field = if cmd.byte1_has_reg_field then bit_and (b >> cmd.reg_field_shift) 7 else 0;
  mod_field = 0;
  rm_field = 0;
  sr_field = 0;
  has_d_bit = cmd.byte1_has_d_flag;
  has_s_bit = cmd.byte1_has_s_flag;
  has_w_bit = cmd.byte1_has_w_flag;
  has_mod = false;
  has_reg = cmd.byte1_has_reg_field;
  has_rm = false;
  has_sr = false;
}

-- The part on the 2nd byte.
unfoldable pub byte2_fields : OpcodeBitstream → Fields → ℕ → Fields
byte2_fields cmd f b = record f {
  op = if cmd.byte2_has_op_encode_field then op_encoding (bit_and (b >> 3) 7) else f.op;
  reg_field = if cmd.byte2_has_reg_field then bit_and (b >> cmd.reg_field_shift) 7 else f.reg_field;
  mod_field = if cmd.byte2_has_mod_field then bit_and (b >> 6) 3 else f.mod_field;
  rm_field = if cmd.byte2_has_rm_field then bit_and (b >> 0) 7 else f.rm_field;
  sr_field = if cmd.byte2_has_sr_field then bit_and (b >> 3) 3 else f.sr_field;
  has_mod = cmd.byte2_has_mod_field;
  has_reg = if cmd.byte2_has_reg_field then true else f.has_reg;
  has_rm = cmd.byte2_has_rm_field;
  has_sr = cmd.byte2_has_sr_field;
}

-- `if (has_sr) w_bit = 0x1;`
unfoldable pub force_w : Fields → Fields
force_w f = record f { w_bit = if f.has_sr then 1 else f.w_bit }
