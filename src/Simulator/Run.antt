-- ===== src/Simulator/Run.antt =====
-- simulator_8086/simulator.c: main, from the load of the file to the end of the simulation loop.
use computer_enhance.Shared.{
  ℕ, zero, suc, ◌+◌, true, false, ◌==◌, ltb, if◌then◌else◌, List, Option, none, some, length,
  get_or, Outcome, ok, out_of_bounds, exit_error, ◌>>=◌,
}
use computer_enhance.Decoder.Types.{
  Instruction, mov_inst, add_inst, sub_inst, cmp_inst, jo_inst, max_inst, DecodedInstruction,
}
use computer_enhance.Decoder.Extract.{Buffer}
use computer_enhance.Decoder.Parse.{decode_bitstream}
use computer_enhance.Simulator.Machine.{Machine, memory_size}
use computer_enhance.Simulator.Execute.{
  parse_mov_inst, parse_sub_cmp_inst, parse_add_inst, parse_jmp_inst,
}

-- The switch on instruction.op. JO has no case of its own and ends in the default.
unfoldable pub execute : Instruction → Machine → DecodedInstruction → Outcome Machine
execute mov_inst m inst = parse_mov_inst m inst
execute sub_inst m inst = parse_sub_cmp_inst m inst true
execute cmp_inst m inst = parse_sub_cmp_inst m inst false
execute add_inst m inst = parse_add_inst m inst
execute jo_inst m inst = exit_error
execute max_inst m inst = exit_error
execute _ m inst = parse_jmp_inst m inst

-- The pointer `memory + ip`: bytes past the array cannot be read.
unfoldable pub memory_at : Machine → Buffer
memory_at m i = if ltb (m.ip + i) memory_size then some (m.memory (m.ip + i)) else none

-- One round of the loop.
unfoldable pub step : Machine → Outcome Machine
step m = do
  (consumed, inst) ← decode_bitstream (memory_at m) m.instruction
  if consumed == 0 then exit_error else execute inst.op (record m { instruction = inst }) inst

-- What follows a round: the rest of the loop, unless the program ended.
unfoldable pub continue :
    (Machine → Option (Outcome Machine)) → Outcome Machine → Option (Outcome Machine)
continue rest (ok m) = rest m
continue rest exit_error = some exit_error
continue rest out_of_bounds = some out_of_bounds

-- `while (ip < bytes_available)`, with fuel; `none` means that the fuel ran out.
unfoldable pub run : ℕ → ℕ → Machine → Option (Outcome Machine)
run zero bytes_available m = none
run (suc fuel) bytes_available m = elim (ltb m.ip bytes_available) [
  | true ↦ continue (λ m'. run fuel bytes_available m') (step m)
  | false ↦ some (ok m)
]

-- fread into the zeroed memory, at most MEMORY_SIZE bytes: the bytes read, and the machine.
unfoldable pub load : List ℕ → DecodedInstruction → ℕ × Machine
load file instruction = (
  if ltb memory_size (length file) then memory_size else length file,
  record {
    memory = λ a. if ltb a memory_size then get_or file a 0 else 0;
    registers = λ r. 0;
    segment_registers = λ r. 0;
    ip = 0;
    flags = 0;
    total_clocks = 0;
    instruction = instruction;
  },
)
