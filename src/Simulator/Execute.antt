-- ===== src/Simulator/Execute.antt =====
-- simulator_8086/simulator.c: parse_sub_cmp_inst, parse_add_inst, parse_mov_inst and parse_jmp_inst.
-- What they print is left out.
use computer_enhance.Shared.{
  ℕ, ◌+◌, ◌%◌, Bool, not, ◌==◌, if◌then◌else◌, u8, u16, sub16, Outcome, ok, exit_error, ◌>>=◌,
}
use computer_enhance.Decoder.Types.{
  Register, reg_cx, max_reg, eq_register, OperandType, type_register, type_segment_register,
  type_direct_address, type_effective_address, type_data, max_type, Instruction, jnz_inst,
  loop_inst, DecodedInstruction,
}
use computer_enhance.Simulator.Machine.{
  Machine, RegDefinition, reg_item_map, read_register, write_register, set_memory, set_segment,
  segment_item, eval_flags, is_z_set,
}
use computer_enhance.Simulator.Clocks.{get_ea_clocks}

-- `total_clocks += clocks`
abbrev pub add_clocks : ℕ → Machine → Machine
add_clocks clocks m = record m { total_clocks = u16 (m.total_clocks + clocks) }

-- `eval_flags(value)`
abbrev pub set_flags : ℕ → Machine → Machine
set_flags value m = record m { flags = eval_flags m.flags value }

-- `ip += offset`
abbrev pub move_ip : ℕ → Machine → Machine
move_ip offset m = record m { ip = u16 (m.ip + offset) }

-- `memory[address] = value`, cut to a byte.
abbrev pub store_byte : ℕ → ℕ → Machine → Machine
store_byte address value m = record m { memory = set_memory m.memory address (u8 value) }

-- `if (reg != MAX_REG) addr += read_register(reg_item_map[reg]);`
unfoldable pub add_register : Machine → Register → ℕ → Outcome ℕ
add_register m reg address =
    if eq_register reg max_reg
    then ok address
    else (do item ← reg_item_map reg; ok (u16 (address + read_register m item)))

-- The address of an operand: both registers and the displacement, in uint16_t.
unfoldable pub effective_address : Machine → Register → Register → ℕ → Outcome ℕ
effective_address m reg1 reg2 displacement = do
  a1 ← add_register m reg1 0
  a2 ← add_register m reg2 a1
  ok (u16 (a2 + displacement))

-- The same where the displacement is put in first.
unfoldable pub displaced_address : Machine → Register → Register → ℕ → Outcome ℕ
displaced_address m reg1 reg2 displacement = do
  a1 ← add_register m reg1 displacement
  add_register m reg2 a1

-- Clocks for an odd address.
abbrev pub penalty : ℕ → ℕ → ℕ
penalty address clocks = if not (address % 2 == 0) then clocks else 0

-- `value = dst_val - src_val; eval_flags(value);` and the write of a SUB.
unfoldable pub subtract : Machine → RegDefinition → ℕ → Bool → Machine
subtract m dst src_val is_sub =
    let value = sub16 (read_register m dst) src_val in
    let m' = set_flags value m in if is_sub then write_register m' dst value else m'

unfoldable pub sub_cmp_register :
    OperandType → Machine → DecodedInstruction → RegDefinition → Bool → Outcome Machine
sub_cmp_register type_register m inst dst is_sub = do
  src ← reg_item_map inst.src_register
  ok (subtract m dst (read_register m src) is_sub)
sub_cmp_register type_data m inst dst is_sub = ok (subtract m dst inst.src_data is_sub)
sub_cmp_register _ m inst dst is_sub = exit_error

unfoldable pub sub_cmp : OperandType → Machine → DecodedInstruction → Bool → Outcome Machine
sub_cmp type_register m inst is_sub = do
  dst ← reg_item_map inst.dst_register
  sub_cmp_register inst.src_type m inst dst is_sub
sub_cmp _ m inst is_sub = exit_error

unfoldable pub parse_sub_cmp_inst : Machine → DecodedInstruction → Bool → Outcome Machine
parse_sub_cmp_inst m inst is_sub = do
  m' ← sub_cmp inst.dst_type m inst is_sub
  ok (move_ip inst.inst_num_bytes m')

-- `value = dst_val + src_val; eval_flags(value); write_register(dst_reg, value);`
unfoldable pub add_into : Machine → RegDefinition → ℕ → Machine
add_into m dst src_val =
    let value = u16 (read_register m dst + src_val) in write_register (set_flags value m) dst value

-- ADD to a register.
unfoldable pub add_register_from :
    OperandType → Machine → DecodedInstruction → RegDefinition → Outcome Machine
add_register_from type_data m inst dst = ok (add_into (add_clocks 4 m) dst inst.src_data)
add_register_from type_register m inst dst = do
  src ← reg_item_map inst.src_register
  ok (add_into (add_clocks 3 m) dst (read_register m src))
add_register_from type_effective_address m inst dst = do
  ea_clocks ← get_ea_clocks inst
  address ←
      effective_address m inst.src_effective_reg1 inst.src_effective_reg2
        inst.src_effective_displacement
  let value = u16 (read_register m dst + m.memory address)
  ok (add_clocks (9 + ea_clocks + penalty address 4) (write_register m dst value))
add_register_from _ m inst dst = exit_error

-- ADD to memory.
unfoldable pub add_memory_from : OperandType → Machine → DecodedInstruction → ℕ → Outcome Machine
add_memory_from type_register m inst address = do
  src ← reg_item_map inst.src_register
  ea_clocks ← get_ea_clocks inst
  ok (
      add_clocks (16 + ea_clocks + penalty address 8)
        (store_byte address (m.memory address + read_register m src) m))
add_memory_from type_data m inst address = do
  ea_clocks ← get_ea_clocks inst
  ok (
      add_clocks (17 + ea_clocks + penalty address 8)
        (store_byte address (m.memory address + inst.src_data) m))
add_memory_from _ m inst address = exit_error

unfoldable pub add_to : OperandType → Machine → DecodedInstruction → Outcome Machine
add_to type_register m inst = do
  dst ← reg_item_map inst.dst_register
  add_register_from inst.src_type m inst dst
add_to type_effective_address m inst = do
  address ←
      displaced_address m inst.dst_effective_reg1 inst.dst_effective_reg2
        inst.dst_effective_displacement
  add_memory_from inst.src_type m inst address
add_to _ m inst = exit_error

unfoldable pub parse_add_inst : Machine → DecodedInstruction → Outcome Machine
parse_add_inst m inst = do m' ← add_to inst.dst_type m inst; ok (move_ip inst.inst_num_bytes m')

-- MOV to a register. The address of a memory source takes dst_effective_displacement, as written.
unfoldable pub mov_register_from :
    OperandType → Machine → DecodedInstruction → RegDefinition → Outcome Machine
mov_register_from type_register m inst dst = do
  src ← reg_item_map inst.src_register
  ok (add_clocks 2 (write_register m dst (read_register m src)))
mov_register_from type_segment_register m inst dst = do
  src ← segment_item inst.src_seg_register
  ok (write_register m dst (m.segment_registers src))
mov_register_from type_data m inst dst = ok (add_clocks 4 (write_register m dst inst.src_data))
mov_register_from type_direct_address m inst dst = do
  ea_clocks ← get_ea_clocks inst
  ok (add_clocks (8 + ea_clocks) (write_register m dst (m.memory inst.src_direct_address)))
mov_register_from type_effective_address m inst dst = do
  ea_clocks ← get_ea_clocks inst
  address ←
      effective_address m inst.src_effective_reg1 inst.src_effective_reg2
        inst.dst_effective_displacement
  ok (add_clocks (8 + ea_clocks) (write_register m dst (m.memory address)))
mov_register_from max_type m inst dst = exit_error

-- MOV to a segment register.
unfoldable pub mov_segment_from : OperandType → Machine → DecodedInstruction → Outcome Machine
mov_segment_from type_register m inst = do
  src ← reg_item_map inst.src_register
  dst ← segment_item inst.dst_seg_register
  ok (record m { segment_registers = set_segment m.segment_registers dst (read_register m src) })
mov_segment_from type_segment_register m inst = do
  dst ← segment_item inst.dst_seg_register
  src ← segment_item inst.src_seg_register
  ok (record m {
    segment_registers = set_segment m.segment_registers dst (m.segment_registers src);
  })
mov_segment_from type_data m inst = do
  dst ← segment_item inst.dst_seg_register
  ok (record m { segment_registers = set_segment m.segment_registers dst inst.src_data })
mov_segment_from _ m inst = exit_error

-- MOV to memory.
unfoldable pub mov_memory_from : OperandType → Machine → DecodedInstruction → ℕ → Outcome Machine
mov_memory_from type_register m inst address = do
  ea_clocks ← get_ea_clocks inst
  src ← reg_item_map inst.src_register
  ok (add_clocks (9 + ea_clocks) (store_byte address (read_register m src) m))
mov_memory_from type_data m inst address = ok (store_byte address inst.src_data m)
mov_memory_from _ m inst address = exit_error

unfoldable pub mov_direct_from : OperandType → Machine → DecodedInstruction → Outcome Machine
mov_direct_from type_data m inst = ok (store_byte inst.dst_direct_address inst.src_data m)
mov_direct_from _ m inst = exit_error

unfoldable pub mov_to : OperandType → Machine → DecodedInstruction → Outcome Machine
mov_to type_register m inst = do
  dst ← reg_item_map inst.dst_register
  mov_register_from inst.src_type m inst dst
mov_to type_segment_register m inst = mov_segment_from inst.src_type m inst
mov_to type_direct_address m inst = mov_direct_from inst.src_type m inst
mov_to type_effective_address m inst = do
  address ←
      effective_address m inst.dst_effective_reg1 inst.dst_effective_reg2
        inst.dst_effective_displacement
  mov_memory_from inst.src_type m inst address
mov_to _ m inst = exit_error

unfoldable pub parse_mov_inst : Machine → DecodedInstruction → Outcome Machine
parse_mov_inst m inst = do m' ← mov_to inst.dst_type m inst; ok (move_ip inst.inst_num_bytes m')

-- `if (!IS_Z_SET()) ip += inst->src_data;`
unfoldable pub jump_unless_zero : Machine → ℕ → Machine
jump_unless_zero m offset = if not (is_z_set m.flags) then move_ip offset m else m

-- The switch of parse_jmp_inst, behind the advance of ip.
unfoldable pub jump : Instruction → Machine → DecodedInstruction → Outcome Machine
jump jnz_inst m inst = ok (jump_unless_zero m inst.src_data)
jump loop_inst m inst = do
  cx ← reg_item_map reg_cx
  let cx_val = sub16 (read_register m cx) 1
  ok (jump_unless_zero (set_flags cx_val (write_register m cx cx_val)) inst.src_data)
jump _ m inst = exit_error

unfoldable pub parse_jmp_inst : Machine → DecodedInstruction → Outcome Machine
parse_jmp_inst m inst = jump inst.op (move_ip inst.inst_num_bytes m) inst
