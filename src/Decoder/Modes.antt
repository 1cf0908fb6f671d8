-- ===== src/Decoder/Modes.antt =====
-- libdecoder_8086/libdecoder.c, parse_instruction: the operands that the MOD, REG, R/M and SR fields
-- name, one function for each addressing mode.
use computer_enhance.Shared.{ℕ, ◌+◌, Bool, true, false, not, ◌&&◌, ◌==◌, if◌then◌else◌}
use computer_enhance.Shared.{Outcome, ok, exit_error, ◌>>=◌}
use computer_enhance.Decoder.Types.{
  Register, SegmentRegister, DecodedInstruction, type_register, type_segment_register,
  type_direct_address, type_effective_address, type_data,
}
use computer_enhance.Decoder.Maps.{
  register_map, segment_register_map, effective_reg1, effective_reg2,
}
use computer_enhance.Decoder.Bitstream.Format.{OpcodeBitstream}
use computer_enhance.Decoder.Extract.{Buffer, extract_displacement, extract_direct_address}
use computer_enhance.Decoder.Fields.{Fields}

-- The instruction under construction, the offset of `ptr` and the count of bytes consumed.
pub record Cursor : Type 0 where
  pub inst : DecodedInstruction
  pub ptr : ℕ
  pub consumed_bytes : ℕ

-- `consumed_bytes += consumed; ptr += consumed;`, with what was written into the instruction.
abbrev pub advance : Cursor → ℕ → DecodedInstruction → Cursor
advance c consumed inst = record {
  inst = inst;
  ptr = c.ptr + consumed;
  consumed_bytes = c.consumed_bytes + consumed;
}

-- The assignments that the modes share.
abbrev pub dst_is_register : Register → DecodedInstruction → DecodedInstruction
dst_is_register r i = record i { dst_type = type_register; dst_register = r }

abbrev pub src_is_register : Register → DecodedInstruction → DecodedInstruction
src_is_register r i = record i { src_type = type_register; src_register = r }

abbrev pub dst_is_segment : SegmentRegister → DecodedInstruction → DecodedInstruction
dst_is_segment s i = record i { dst_type = type_segment_register; dst_seg_register = s }

abbrev pub src_is_segment : SegmentRegister → DecodedInstruction → DecodedInstruction
src_is_segment s i = record i { src_type = type_segment_register; src_seg_register = s }

abbrev pub dst_is_effective : ℕ → ℕ → DecodedInstruction → DecodedInstruction
dst_is_effective rm displacement i = record i {
  dst_type = type_effective_address;
  dst_effective_reg1 = effective_reg1 rm;
  dst_effective_reg2 = effective_reg2 rm;
  dst_effective_displacement = displacement;
}

abbrev pub src_is_effective : ℕ → ℕ → DecodedInstruction → DecodedInstruction
src_is_effective rm displacement i = record i {
  src_type = type_effective_address;
  src_effective_reg1 = effective_reg1 rm;
  src_effective_reg2 = effective_reg2 rm;
  src_effective_displacement = displacement;
}

abbrev pub dst_is_direct : ℕ → DecodedInstruction → DecodedInstruction
dst_is_direct address i = record i { dst_type = type_direct_address; dst_direct_address = address }

abbrev pub src_is_direct : ℕ → DecodedInstruction → DecodedInstruction
src_is_direct address i = record i { src_type = type_direct_address; src_direct_address = address }

abbrev pub src_is_data : DecodedInstruction → DecodedInstruction
src_is_data i = record i { src_type = type_data }

-- The operands of a direct access.
unfoldable pub direct_operands :
    OpcodeBitstream → Fields → ℕ → DecodedInstruction → DecodedInstruction
direct_operands cmd f address i =
    if cmd.op_has_data_bytes
    then dst_is_direct address (src_is_data i)
    else if f.has_sr
    then dst_is_segment (segment_register_map f.sr_field) (src_is_direct address i)
    else dst_is_register (register_map f.reg_field f.w_bit) (src_is_direct address i)

-- is_direct_access: MOD is 00 and R/M is 110.
unfoldable pub direct_mode : OpcodeBitstream → Fields → Buffer → Cursor → Outcome Cursor
direct_mode cmd f buf c = do
  (consumed, address) ← extract_direct_address buf c.ptr
  ok (advance c consumed (direct_operands cmd f address c.inst))

-- is_register_mode: MOD is 11.
unfoldable pub register_mode : OpcodeBitstream → Fields → DecodedInstruction → DecodedInstruction
register_mode cmd f i =
    let reg = register_map f.reg_field f.w_bit in
    let rm = register_map f.rm_field f.w_bit in
    let sr = segment_register_map f.sr_field in
    if f.has_sr
    then (if cmd.sr_is_target
        then src_is_register rm (dst_is_segment sr i)
        else dst_is_register rm (src_is_segment sr i))
    else if f.has_d_bit
    then (if f.d_bit == 1
        then src_is_register rm (dst_is_register reg i)
        else src_is_register reg (dst_is_register rm i))
    else src_is_data (dst_is_register rm i)

-- The operands of memory mode, once the displacement is known. Where no case applies nothing is set.
unfoldable pub memory_operands :
    OpcodeBitstream → Fields → ℕ → DecodedInstruction → DecodedInstruction
memory_operands cmd f displacement i =
    let reg = register_map f.reg_field f.w_bit in
    let sr = segment_register_map f.sr_field in
    if f.has_sr
    then (if cmd.sr_is_target
        then src_is_effective f.rm_field displacement (dst_is_segment sr i)
        else dst_is_effective f.rm_field displacement (src_is_segment sr i))
    else if f.has_d_bit
    then (if f.d_bit == 1
        then src_is_effective f.rm_field displacement (dst_is_register reg i)
        else src_is_register reg (dst_is_effective f.rm_field displacement i))
    else if not f.has_d_bit && not f.has_reg && cmd.op_has_data_bytes
    then src_is_data (dst_is_effective f.rm_field displacement i)
    else i

-- Memory mode with a displacement of 8 or 16 bits.
unfoldable pub displaced_mode : OpcodeBitstream → Fields → Buffer → Bool → Cursor → Outcome Cursor
displaced_mode cmd f buf is_16bit c = do
  (consumed, displacement) ← extract_displacement buf c.ptr is_16bit
  ok (advance c consumed (memory_operands cmd f displacement c.inst))

-- The switch on the MOD field.
unfoldable pub mod_operands : OpcodeBitstream → Fields → Buffer → Cursor → Outcome Cursor
mod_operands cmd f buf c =
    if f.mod_field == 0
    then (if f.rm_field == 6
        then direct_mode cmd f buf c
        else ok (record c { inst = memory_operands cmd f 0 c.inst }))
    else if f.mod_field == 1
    then displaced_mode cmd f buf false c
    else if f.mod_field == 2
    then displaced_mode cmd f buf true c
    else ok (record c { inst = register_mode cmd f c.inst })

-- `if (has_mod) … else if (has_reg && has_w_bit) …`, with the sanity check on R/M.
unfoldable pub field_operands : OpcodeBitstream → Fields → Buffer → Cursor → Outcome Cursor
field_operands cmd f buf c =
    if f.has_mod
    then (if f.has_rm then mod_operands cmd f buf c else exit_error)
    else if f.has_reg && f.has_w_bit
    then ok (record c {
      inst = src_is_data (dst_is_register (register_map f.reg_field f.w_bit) c.inst);
    })
    else ok c
