-- ===== src/Simulator/Moving.antt =====
-- MOV to a register in simulator_8086/simulator.c, from a register or from immediate data.
use computer_enhance.Shared.{ℕ, ◌+◌, ◌^◌, ◌<◌, ◌≡◌, refl, u16, ok}
use computer_enhance.Decoder.Types.{DecodedInstruction, type_register, type_data}
use computer_enhance.Simulator.Machine.{
  Machine, RegDefinition, reg_item_map, read_register, write_register,
}
use computer_enhance.Simulator.Execute.{
  add_clocks, move_ip, mov_register_from, mov_to, parse_mov_inst,
}
use computer_enhance.Simulator.Registers.{part_of, read_register-lt}
use computer_enhance.Simulator.Invariant.{IsMachine, IsInstruction}
use computer_enhance.Simulator.Arithmetic.{cut, write-read_same}

-- What MOV leaves.
pub record Moved (i : DecodedInstruction) (d : RegDefinition) (value clocks : ℕ) (m m' : Machine)
    : Type 0 where
  pub result : read_register m' d ≡ cut (part_of i.dst_register) value
  pub same_flags : m'.flags ≡ m.flags
  pub same_memory : m'.memory ≡ m.memory
  pub counted : m'.total_clocks ≡ u16 (m.total_clocks + clocks)
  pub moved : m'.ip ≡ u16 (m.ip + i.inst_num_bytes)

write-Moved :
    (i : DecodedInstruction) (m : Machine) (value clocks : ℕ) {d : RegDefinition}
    → IsMachine m
    → reg_item_map i.dst_register ≡ ok d
    → value < 2 ^ 16
    → Moved i d value clocks m
        (move_ip i.inst_num_bytes (add_clocks clocks (write_register m d value)))
unfolding read_register write_register
write-Moved i m value clocks valid hd h = record {
  result = write-read_same i.dst_register m value hd valid.words h;
  same_flags = refl;
  same_memory = refl;
  counted = refl;
  moved = refl;
}

-- MOV of a register to a register, on a valid machine: the destination reads back as the source's value
-- cut to its width; flags and memory are untouched, 2 clocks are counted and ip moves behind the
-- instruction.
pub parse_mov_inst-Moved :
    (i : DecodedInstruction) (m : Machine) {d e : RegDefinition}
    → IsMachine m
    → i.dst_type ≡ type_register
    → i.src_type ≡ type_register
    → reg_item_map i.dst_register ≡ ok d
    → reg_item_map i.src_register ≡ ok e
    → (m' : Machine) × (parse_mov_inst m i ≡ ok m') × Moved i d (read_register m e) 2 m m'
unfolding parse_mov_inst mov_to mov_register_from
parse_mov_inst-Moved i m {d} {e} valid dst src hd he = (
  move_ip i.inst_num_bytes (add_clocks 2 (write_register m d (read_register m e))),
  rw (dst, hd, src, he),
  write-Moved i m (read_register m e) 2 valid hd (read_register-lt i.src_register m he valid.words),
)

-- MOV of immediate data to a register, on a valid machine: the destination reads back as the data cut to
-- its width; flags and memory are untouched, 4 clocks are counted and ip moves behind the instruction.
pub parse_mov_inst-immediate :
    (i : DecodedInstruction) (m : Machine) {d : RegDefinition}
    → IsMachine m
    → IsInstruction i
    → i.dst_type ≡ type_register
    → i.src_type ≡ type_data
    → reg_item_map i.dst_register ≡ ok d
    → (m' : Machine) × (parse_mov_inst m i ≡ ok m') × Moved i d i.src_data 4 m m'
unfolding parse_mov_inst mov_to mov_register_from
parse_mov_inst-immediate i m {d} valid word dst src hd = (
  move_ip i.inst_num_bytes (add_clocks 4 (write_register m d i.src_data)),
  rw (dst, hd, src),
  write-Moved i m i.src_data 4 valid hd word,
)
