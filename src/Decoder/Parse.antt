-- ===== src/Decoder/Parse.antt =====
-- libdecoder_8086/libdecoder.c: is_dst_16bit, the rest of parse_instruction, and decode_bitstream.
-- The verbose log is left out, and so is bytes_available, which decode_bitstream only logs.
use computer_enhance.Shared.{
  ℕ, ◌+◌, Bool, true, false, ◌&&◌, ◌==◌, ltb, if◌then◌else◌, bit_and, bit_or, ◌<<◌, u8, List, [],
  ◌∷◌, Outcome, ok, exit_error, ◌>>=◌,
}
use computer_enhance.Decoder.Types.{
  Register, reg_ax, reg_bx, reg_cx, reg_dx, reg_sp, reg_bp, reg_si, reg_di, Instruction,
  OperandType, type_register, type_segment_register, type_direct_address, type_effective_address,
  type_data, max_type, DecodedInstruction, reset_instruction, register_index, next_register,
}
use computer_enhance.Decoder.Maps.{instruction_name, jmp_inst_map, loop_inst_map}
use computer_enhance.Decoder.Bitstream.Format.{OpcodeBitstream}
use computer_enhance.Decoder.Bitstream.{op_cmds}
use computer_enhance.Decoder.Extract.{Buffer, read_byte, extract_direct_address, extract_data}
use computer_enhance.Decoder.Fields.{Fields, byte1_fields, byte2_fields, force_w}
use computer_enhance.Decoder.Modes.{
  Cursor, advance, field_operands, dst_is_register, src_is_register, dst_is_direct, src_is_direct,
  src_is_data,
}

-- The inner switch of is_dst_16bit.
unfoldable pub is_16bit_register : Register → Bool
is_16bit_register reg_ax = true
is_16bit_register reg_bx = true
is_16bit_register reg_cx = true
is_16bit_register reg_dx = true
is_16bit_register reg_sp = true
is_16bit_register reg_bp = true
is_16bit_register reg_si = true
is_16bit_register reg_di = true
is_16bit_register _ = false

unfoldable pub is_dst_16bit : OperandType → Register → Outcome Bool
is_dst_16bit type_register r = ok (is_16bit_register r)
is_dst_16bit type_segment_register r = ok true
is_dst_16bit type_direct_address r = ok true
is_dst_16bit type_effective_address r = ok true
is_dst_16bit type_data r = exit_error
is_dst_16bit max_type r = exit_error

-- The register that a hardcoded destination stands for: its low byte when the W flag is clear.
unfoldable pub hardcoded_register : OpcodeBitstream → Fields → Register
hardcoded_register cmd f =
    if f.has_w_bit && f.w_bit == 0 && ltb (register_index cmd.hard_dst_reg) (register_index reg_sp)
    then next_register cmd.hard_dst_reg
    else cmd.hard_dst_reg

-- The hardcoded destination, written.
unfoldable pub hardcoded_operand :
    OpcodeBitstream → Fields → DecodedInstruction → DecodedInstruction
hardcoded_operand cmd f i = dst_is_register (hardcoded_register cmd f) i

unfoldable pub hardcoded_dst : OpcodeBitstream → Fields → Buffer → Cursor → Outcome Cursor
hardcoded_dst cmd f buf c =
    if cmd.op_has_hardcoded_dst
    then (if cmd.op_has_address_bytes
        then (do
          (consumed, address) ← extract_direct_address buf c.ptr
          ok (advance c consumed (src_is_direct address (hardcoded_operand cmd f c.inst))))
        else ok (record c {
          inst =
              if cmd.op_has_data_bytes
              then src_is_data (hardcoded_operand cmd f c.inst)
              else hardcoded_operand cmd f c.inst;
        }))
    else ok c

unfoldable pub hardcoded_src : OpcodeBitstream → Buffer → Cursor → Outcome Cursor
hardcoded_src cmd buf c =
    if cmd.op_has_hardcoded_src && cmd.op_has_address_bytes
    then (do
      (consumed, address) ← extract_direct_address buf c.ptr
      ok (advance c consumed (dst_is_direct address (src_is_register cmd.hard_src_reg c.inst))))
    else ok c

-- How the data bytes are read: is_8bit, is_signed_extended, and the decorators.
pub record DataFormat : Type 0 where
  pub is_8bit : Bool
  pub is_signed_extended : Bool
  pub inst : DecodedInstruction

-- The switch on (s_bit << 1) | w_bit.
unfoldable pub signed_format : ℕ → DecodedInstruction → Outcome DataFormat
signed_format sw_field i =
    if sw_field == 0
    then (do
      wide ← is_dst_16bit i.dst_type i.dst_register
      ok (record {
        is_8bit = true;
        is_signed_extended = false;
        inst = if wide then record i { dst_needs_byte_decorator = true } else i;
      }))
    else if sw_field == 1
    then ok (record { is_8bit = false; is_signed_extended = false; inst = i })
    else if sw_field == 2
    then ok (record { is_8bit = true; is_signed_extended = true; inst = i })
    else if sw_field == 3
    then (do
      wide ← is_dst_16bit i.dst_type i.dst_register
      ok (record {
        is_8bit = true;
        is_signed_extended = true;
        inst = if wide then record i { dst_needs_word_decorator = true } else i;
      }))
    else exit_error

-- Without an S flag the W flag decides.
unfoldable pub width_format : ℕ → DecodedInstruction → Outcome DataFormat
width_format w_bit i =
    if w_bit == 1
    then ok (record {
      is_8bit = false;
      is_signed_extended = false;
      inst = record i { src_needs_word_decorator = true };
    })
    else (do
      wide ← is_dst_16bit i.dst_type i.dst_register
      ok (record {
        is_8bit = true;
        is_signed_extended = true;
        inst = if wide then record i { src_needs_byte_decorator = true } else i;
      }))

-- The choice between the two.
unfoldable pub data_format : Fields → DecodedInstruction → Outcome DataFormat
data_format f i =
    if f.has_s_bit then signed_format (bit_or (f.s_bit << 1) f.w_bit) i else width_format f.w_bit i

unfoldable pub data_written : ℕ → DecodedInstruction → DecodedInstruction
data_written value i = record i { src_data = value }

-- `consumed = extract_data(…); consumed_bytes += consumed; ptr += consumed;`
unfoldable pub data_value : DataFormat → Buffer → Cursor → Outcome Cursor
data_value format buf c = do
  (consumed, value) ← extract_data buf c.ptr format.is_8bit format.is_signed_extended
  ok (advance c consumed (data_written value format.inst))

-- The data bytes come last, since their format depends on the destination.
unfoldable pub data_bytes : OpcodeBitstream → Fields → Buffer → Cursor → Outcome Cursor
data_bytes cmd f buf c =
    if cmd.op_has_data_bytes
    then (if f.has_w_bit
        then (do format ← data_format f c.inst; data_value format buf c)
        else exit_error)
    else ok c

-- The operation that the first byte of a short instruction encodes.
unfoldable pub short_op : ℕ → Instruction → Instruction
short_op first_byte op =
    if bit_and first_byte 0xf0 == 0x70
    then jmp_inst_map (bit_and first_byte 0xf)
    else if bit_and first_byte 0xfc == 0xe0
    then loop_inst_map (bit_and first_byte 3)
    else op

-- What a short instruction writes.
unfoldable pub short_written : ℕ → ℕ → DecodedInstruction → DecodedInstruction
short_written first_byte value i = record i {
  op = short_op first_byte i.op;
  op_name = instruction_name (short_op first_byte i.op);
  src_data = value;
  inst_is_short_w_data = true;
}

unfoldable pub short_instruction : OpcodeBitstream → ℕ → Buffer → Cursor → Outcome Cursor
short_instruction cmd first_byte buf c =
    if cmd.is_short_instruction
    then (do
      (consumed, value) ← extract_data buf c.ptr true true
      ok (advance c consumed (short_written first_byte value c.inst)))
    else ok c

-- The fields of one or two bytes, and the offset of `ptr` behind them.
unfoldable pub read_fields : OpcodeBitstream → Buffer → ℕ → Outcome (Fields × ℕ)
read_fields cmd buf first_byte =
    if cmd.op_has_register_byte
    then (do
      second_byte ← read_byte buf 1
      ok (byte2_fields cmd (byte1_fields cmd first_byte) second_byte, 1))
    else ok (byte1_fields cmd first_byte, 0)

-- The instruction before any operand is known.
unfoldable pub start_instruction : OpcodeBitstream → Fields → DecodedInstruction
start_instruction cmd f = record reset_instruction {
  op = f.op;
  op_name = instruction_name f.op;
  name = cmd.name;
}

-- From the operands of the fields to the data bytes and the offset of a short instruction.
unfoldable pub operands : OpcodeBitstream → Fields → ℕ → Buffer → Cursor → Outcome Cursor
operands cmd f first_byte buf c = do
  c1 ← field_operands cmd f buf c
  c2 ← hardcoded_dst cmd f buf c1
  c3 ← hardcoded_src cmd buf c2
  c4 ← data_bytes cmd f buf c3
  short_instruction cmd first_byte buf c4

-- The cursor behind the bytes with the fields.
unfoldable pub start : OpcodeBitstream → Fields → ℕ → Cursor
start cmd f ptr = record { inst = start_instruction cmd f; ptr = ptr; consumed_bytes = ptr + 1 }

-- `inst_result->inst_num_bytes = consumed_bytes; return consumed_bytes;`
unfoldable pub finish : Cursor → ℕ × DecodedInstruction
finish c = let i = c.inst in (c.consumed_bytes, record i { inst_num_bytes = u8 c.consumed_bytes })

-- parse_instruction: the bytes consumed and the decoded instruction.
unfoldable pub parse_instruction : OpcodeBitstream → ℕ → Buffer → Outcome (ℕ × DecodedInstruction)
parse_instruction cmd first_byte buf = do
  (fields, ptr) ← read_fields cmd buf first_byte
  c ← operands cmd (force_w fields) first_byte buf (start cmd (force_w fields) ptr)
  ok (finish c)

-- (*ptr & opcode_bitmask) == opcode
unfoldable pub matches : OpcodeBitstream → ℕ → Bool
matches cmd b = bit_and b cmd.opcode_bitmask == cmd.opcode

-- The loop over op_cmds: the first entry that matches.
unfoldable pub find_command :
    List OpcodeBitstream → ℕ → Buffer → DecodedInstruction → Outcome (ℕ × DecodedInstruction)
find_command [] b buf inst_result = ok (0, inst_result)
find_command (cmd ∷ cmds) b buf inst_result =
    let rest = find_command cmds b buf inst_result in
    if matches cmd b then parse_instruction cmd b buf else rest

-- decode_bitstream: 0 bytes, and the old contents of *inst_result, where nothing matches.
unfoldable pub decode_bitstream : Buffer → DecodedInstruction → Outcome (ℕ × DecodedInstruction)
decode_bitstream buf inst_result = do b ← read_byte buf 0; find_command op_cmds b buf inst_result
