-- ===== src/Runs/Simulate.antt =====
-- The simulator of simulator_8086/simulator.c on concrete machines.
use computer_enhance.Shared.{ℕ, ◌≡◌, refl, ◌==◌, not, false, if◌then◌else◌, some, ok, arith}
use computer_enhance.Decoder.Types.{
  DecodedInstruction, reset_instruction, type_register, type_data, reg_ch, Register, reg_cx, reg_al,
  reg_ah, reg_ax, reg_bx, eq_register,
}
use computer_enhance.Decoder.Encoding.Manual.{code, b010}
use computer_enhance.Decoder.Encoding.Jumps.{loop, opcode}
use computer_enhance.Decoder.Modes.{dst_is_effective, src_is_effective, dst_is_register}
use computer_enhance.Simulator.Machine.{
  Machine, RegDefinition, reg_item_map, read_register, write_register,
}
use computer_enhance.Simulator.Execute.{parse_sub_cmp_inst, parse_add_inst, parse_mov_inst}
use computer_enhance.Simulator.Clocks.{get_ea_clocks}
use computer_enhance.Simulator.Run.{step, run}
use computer_enhance.Simulator.Registers.{word_of, part_of, get_part, put_part, write-read}
use computer_enhance.Simulator.Addressing.{manual_clocks, get_ea_clocks-manual}
use computer_enhance.Simulator.Invariant.{IsMachine}
use computer_enhance.Simulator.Jumping.{AtJump, Looped, step-Looped}
use computer_enhance.Simulator.Countdown.{run-counts_down}
use computer_enhance.Simulator.Moving.{Moved, parse_mov_inst-Moved, parse_mov_inst-immediate}
use computer_enhance.Simulator.Arithmetic.{
  Subtracted, parse_sub_cmp_inst-Subtracted, Added, parse_add_inst-Added,
}

-- `loop` to itself at address 0, with every register 3.
abbrev looping : Machine
looping = record {
  memory = λ a. if a == 0 then 0xe2 else if a == 1 then 0xfe else 0;
  registers = λ r. 3;
  segment_registers = λ s. 0;
  ip = 0;
  flags = 0;
  total_clocks = 0;
  instruction = reset_instruction;
}

looping-IsMachine : IsMachine looping
unfolding reset_instruction
looping-IsMachine = record {
  bytes = λ a. ground arith;
  words = λ r. omega arith;
  segments = λ s. omega arith;
  ip_word = omega arith;
  flags_word = omega arith;
  clocks_word = omega arith;
  data_word = omega arith;
}

looping-AtJump : AtJump loop 0xfe looping
unfolding opcode
looping-AtJump = (omega arith, refl, refl, omega arith)

step-Looped_example : (m : Machine) × (step looping ≡ ok m) × Looped 0xfe looping m
step-Looped_example = step-Looped 0xfe looping looping-IsMachine looping-AtJump

run-counts_down_example :
    (m : Machine) × (run 4 2 looping ≡ some (ok m))
    × (m.registers reg_cx ≡ 0)
    × (m.ip ≡ 2)
    × (m.memory ≡ looping.memory)
run-counts_down_example =
    run-counts_down 2 looping looping-IsMachine looping-AtJump (omega arith) refl

-- cmp cx, ax
abbrev comparing : DecodedInstruction
unfolding reset_instruction
comparing = record reset_instruction {
  dst_type = type_register;
  src_type = type_register;
  dst_register = reg_cx;
  src_register = reg_ax;
  inst_num_bytes = 2;
}

abbrev item : Register → ℕ → ℕ → RegDefinition
item r mask shift = record { reg = r; mask = mask; shift = shift }

parse_sub_cmp_inst-Subtracted_example :
    (m : Machine) × (parse_sub_cmp_inst looping comparing false ≡ ok m)
    × Subtracted comparing false
        (item reg_cx 0xffff 0)
        (read_register looping (item reg_cx 0xffff 0))
        (read_register looping (item reg_ax 0xffff 0))
        looping
        m
unfolding reg_item_map comparing
parse_sub_cmp_inst-Subtracted_example =
    parse_sub_cmp_inst-Subtracted comparing false looping looping-IsMachine refl refl refl refl

-- ah, behind a write to al
write-read_example :
    read_register (write_register looping (item reg_ax 0x00ff 0) 0x1234) (item reg_ax 0xff00 8)
    ≡ get_part (part_of reg_ah) (
        if eq_register (word_of reg_al) (word_of reg_ah)
        then put_part (part_of reg_al) (looping.registers (word_of reg_ah)) 0x1234
        else looping.registers (word_of reg_ah))
unfolding reg_item_map
write-read_example =
    write-read reg_al reg_ah looping 0x1234 refl refl (λ r. omega arith) (omega arith)

-- [bp + si + 100]
get_ea_clocks-manual_example :
    (get_ea_clocks (dst_is_effective (code b010) 100 reset_instruction)
      ≡ ok (manual_clocks b010 (not (100 == 0))))
    × (get_ea_clocks (src_is_effective (code b010) 100 (dst_is_register reg_bx reset_instruction))
        ≡ ok (manual_clocks b010 (not (100 == 0))))
get_ea_clocks-manual_example = get_ea_clocks-manual reset_instruction reg_bx b010 100

-- add cx, ax
parse_add_inst-Added_example :
    (m : Machine) × (parse_add_inst looping comparing ≡ ok m)
    × Added comparing
        (item reg_cx 0xffff 0)
        (read_register looping (item reg_cx 0xffff 0))
        (read_register looping (item reg_ax 0xffff 0))
        3
        looping
        m
unfolding reg_item_map comparing
parse_add_inst-Added_example =
    parse_add_inst-Added comparing looping looping-IsMachine refl refl refl refl

-- mov cx, ax
parse_mov_inst-Moved_example :
    (m : Machine) × (parse_mov_inst looping comparing ≡ ok m)
    × Moved comparing
        (item reg_cx 0xffff 0)
        (read_register looping (item reg_ax 0xffff 0))
        2
        looping
        m
unfolding reg_item_map comparing
parse_mov_inst-Moved_example =
    parse_mov_inst-Moved comparing looping looping-IsMachine refl refl refl refl

-- mov ch, 0x12
abbrev loading : DecodedInstruction
unfolding reset_instruction
loading = record reset_instruction {
  dst_type = type_register;
  src_type = type_data;
  dst_register = reg_ch;
  src_data = 0x12;
  inst_num_bytes = 2;
}

parse_mov_inst-immediate_example :
    (m : Machine) × (parse_mov_inst looping loading ≡ ok m)
    × Moved loading (item reg_cx 0xff00 8) 0x12 4 looping m
unfolding reg_item_map loading
parse_mov_inst-immediate_example =
    parse_mov_inst-immediate loading looping looping-IsMachine (omega arith) refl refl refl
