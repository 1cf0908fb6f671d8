-- ===== src/Simulator/Machine.antt =====
-- simulator_8086/simulator.c: the global state, the registers with their low and high halves, and the
-- flags.
use computer_enhance.Shared.{
  ℕ, Bool, not, ◌==◌, if◌then◌else◌, bit_and, bit_or, ◌<<◌, ◌>>◌, not16, Outcome, ok, out_of_bounds,
}
use computer_enhance.Decoder.Types.{
  Register, reg_ax, reg_al, reg_ah, reg_bx, reg_bl, reg_bh, reg_cx, reg_cl, reg_ch, reg_dx, reg_dl,
  reg_dh, reg_sp, reg_bp, reg_si, reg_di, max_reg, eq_register, SegmentRegister, seg_reg_es,
  seg_reg_cs, seg_reg_ss, seg_reg_ds, max_seg_reg, DecodedInstruction,
}

-- MEMORY_SIZE
abbrev pub memory_size : ℕ
memory_size = 65536

-- The globals, and the variable `instruction` of main. An array is a function of its index.
pub record Machine : Type 0 where
  pub memory : ℕ → ℕ
  pub registers : Register → ℕ
  pub segment_registers : SegmentRegister → ℕ
  pub ip : ℕ
  pub flags : ℕ
  pub total_clocks : ℕ
  pub instruction : DecodedInstruction

-- struct reg_definition_s, without the name for printing.
pub record RegDefinition : Type 0 where
  pub reg : Register
  pub mask : ℕ
  pub shift : ℕ

abbrev whole : Register → RegDefinition
whole r = record { reg = r; mask = 0xffff; shift = 0 }

abbrev low_half : Register → RegDefinition
low_half r = record { reg = r; mask = 0x00ff; shift = 0 }

abbrev high_half : Register → RegDefinition
high_half r = record { reg = r; mask = 0xff00; shift = 8 }

-- reg_item_map[reg]. MAX_REG is past the end of the array.
unfoldable pub reg_item_map : Register → Outcome RegDefinition
reg_item_map reg_ax = ok (whole reg_ax)
reg_item_map reg_al = ok (low_half reg_ax)
reg_item_map reg_ah = ok (high_half reg_ax)
reg_item_map reg_bx = ok (whole reg_bx)
reg_item_map reg_bl = ok (low_half reg_bx)
reg_item_map reg_bh = ok (high_half reg_bx)
reg_item_map reg_cx = ok (whole reg_cx)
reg_item_map reg_cl = ok (low_half reg_cx)
reg_item_map reg_ch = ok (high_half reg_cx)
reg_item_map reg_dx = ok (whole reg_dx)
reg_item_map reg_dl = ok (low_half reg_dx)
reg_item_map reg_dh = ok (high_half reg_dx)
reg_item_map reg_sp = ok (whole reg_sp)
reg_item_map reg_bp = ok (whole reg_bp)
reg_item_map reg_si = ok (whole reg_si)
reg_item_map reg_di = ok (whole reg_di)
reg_item_map max_reg = out_of_bounds

-- `registers[reg] = value`
abbrev pub set_register : (Register → ℕ) → Register → ℕ → Register → ℕ
set_register registers reg value r = if eq_register reg r then value else registers r

unfoldable pub read_register : Machine → RegDefinition → ℕ
read_register m item = bit_and (m.registers item.reg) item.mask >> item.shift

-- The word that write_register stores.
unfoldable pub merged : ℕ → RegDefinition → ℕ → ℕ
merged old item value =
    bit_or (bit_and old (not16 item.mask)) (bit_and (value << item.shift) item.mask)

unfoldable pub write_register : Machine → RegDefinition → ℕ → Machine
write_register m item value = record m {
  registers = set_register m.registers item.reg (merged (m.registers item.reg) item value);
}

-- `memory[address] = value` and `segment_registers[reg] = value`.
abbrev pub set_memory : (ℕ → ℕ) → ℕ → ℕ → ℕ → ℕ
set_memory memory address value a = if address == a then value else memory a

abbrev segment_index : SegmentRegister → ℕ
segment_index seg_reg_es = 0
segment_index seg_reg_cs = 1
segment_index seg_reg_ss = 2
segment_index seg_reg_ds = 3
segment_index max_seg_reg = 4

abbrev pub set_segment : (SegmentRegister → ℕ) → SegmentRegister → ℕ → SegmentRegister → ℕ
set_segment registers reg value r =
    if segment_index reg == segment_index r then value else registers r

-- A constant of enum segment_register_e as an index: MAX_SEG_REG is past the end of the array.
unfoldable pub segment_item : SegmentRegister → Outcome SegmentRegister
segment_item max_seg_reg = out_of_bounds
segment_item s = ok s

-- The zero bit of the flags, then the sign bit.
unfoldable pub eval_zero : ℕ → ℕ → ℕ
eval_zero flags value = if value == 0 then bit_or flags (1 << 6) else bit_and flags (not16 0x40)

unfoldable pub eval_sign : ℕ → ℕ → ℕ
eval_sign flags value =
    if not (bit_and value 0x8000 == 0) then bit_or flags (1 << 7) else bit_and flags (not16 0x80)

unfoldable pub eval_flags : ℕ → ℕ → ℕ
eval_flags flags value = eval_sign (eval_zero flags value) value

-- IS_Z_SET and IS_S_SET
unfoldable pub is_z_set : ℕ → Bool
is_z_set flags = (bit_and flags 0x40 >> 6) == 1

unfoldable pub is_s_set : ℕ → Bool
is_s_set flags = (bit_and flags 0x80 >> 7) == 1
