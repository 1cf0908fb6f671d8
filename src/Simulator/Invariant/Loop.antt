-- ===== src/Simulator/Invariant/Loop.antt =====
-- The jumps, the switch of main and its loop in simulator_8086/simulator.c, on a valid machine.
use computer_enhance.Shared.{
  sym, ◌∙◌, subst, List, get_or, ℕ, zero, suc, ◌+◌, ◌≤◌, ◌<◌, ◌≡◌, true, false, ◌==◌, ltb, Option,
  some, Outcome, ok, exit_error, out_of_bounds, Bool-cases, inl, inr, arith,
}
use computer_enhance.Decoder.Types.{
  reg_cx, Instruction, jnz_inst, loop_inst, mov_inst, add_inst, sub_inst, cmp_inst, jo_inst,
  max_inst, DecodedInstruction,
}
use computer_enhance.Decoder.Parse.{decode_bitstream}
use computer_enhance.Decoder.DataWord.{IsBuffer, decode_bitstream-data}
use computer_enhance.Simulator.Machine.{Machine, reg_item_map, is_z_set}
use computer_enhance.Simulator.Execute.{jump_unless_zero, jump, parse_jmp_inst}
use computer_enhance.Simulator.Run.{execute, memory_at, step, continue, run, load}
use computer_enhance.Simulator.Rounds.{run-more, run-stop}
use computer_enhance.Simulator.Invariant.{
  IsMachine, IsInstruction, IsValid, bind-IsValid, move_ip-IsMachine, set_flags-IsMachine,
  write-IsMachine,
}
use computer_enhance.Simulator.Invariant.Handlers.{
  parse_sub_cmp_inst-IsValid, parse_add_inst-IsValid, parse_mov_inst-IsValid,
}

jump_unless_zero-IsMachine :
    {m : Machine} → IsMachine m → (offset : ℕ) → IsMachine (jump_unless_zero m offset)
unfolding jump_unless_zero
jump_unless_zero-IsMachine {m} valid offset = elim (Bool-cases (is_z_set m.flags)) [
  | inl z ↦ rw z valid
  | inr nz ↦ rw nz (move_ip-IsMachine valid offset)
]

module _ {m : Machine} (valid : IsMachine m) (i : DecodedInstruction) where
  jump-IsValid : (op : Instruction) → IsValid (jump op m i)
  unfolding jump
  jump-IsValid jnz_inst = jump_unless_zero-IsMachine valid i.src_data
  jump-IsValid loop_inst = bind-IsValid (reg_item_map reg_cx) _ λ cx h.
      jump_unless_zero-IsMachine
        (set_flags-IsMachine (write-IsMachine valid reg_cx _ h (omega arith)) _ (omega arith))
        i.src_data
  jump-IsValid _ = tt

parse_jmp_inst-IsValid :
    {m : Machine} → IsMachine m → (i : DecodedInstruction) → IsValid (parse_jmp_inst m i)
unfolding parse_jmp_inst
parse_jmp_inst-IsValid valid i = jump-IsValid (move_ip-IsMachine valid i.inst_num_bytes) i i.op

module _ {m : Machine} (valid : IsMachine m) (i : DecodedInstruction) (word : IsInstruction i) where
  pub execute-IsValid : (op : Instruction) → IsValid (execute op m i)
  unfolding execute
  execute-IsValid mov_inst = parse_mov_inst-IsValid valid i word
  execute-IsValid sub_inst = parse_sub_cmp_inst-IsValid valid i word true
  execute-IsValid cmp_inst = parse_sub_cmp_inst-IsValid valid i word false
  execute-IsValid add_inst = parse_add_inst-IsValid valid i word
  execute-IsValid jo_inst = tt
  execute-IsValid max_inst = tt
  execute-IsValid _ = parse_jmp_inst-IsValid valid i

  pub instruction-IsMachine : IsMachine (record m { instruction = i })
  instruction-IsMachine = record {
    bytes = valid.bytes;
    words = valid.words;
    segments = valid.segments;
    ip_word = valid.ip_word;
    flags_word = valid.flags_word;
    clocks_word = valid.clocks_word;
    data_word = word;
  }

memory_at-IsBuffer : {m : Machine} → IsMachine m → IsBuffer (memory_at m)
unfolding memory_at
memory_at-IsBuffer {m} valid i b e = ground (arith, e, valid.bytes (m.ip + i))

-- One round of the loop, from a valid machine, ends in a valid machine or stops the program.
pub step-IsValid : (m : Machine) → IsMachine m → IsValid (step m)
unfolding step
step-IsValid m valid = bind-IsValid (decode_bitstream (memory_at m) m.instruction) _ λ p e.
    let word =
      decode_bitstream-data (memory_at m) m.instruction p.0 p.1 (memory_at-IsBuffer valid)
        valid.data_word e in
    elim (Bool-cases (p.0 == 0)) [
      | inl z ↦ rw z tt
      | inr nz ↦ rw nz (execute-IsValid (instruction-IsMachine valid p.1 word) p.1 word p.1.op)
    ]

pub load-IsMachine :
    (file : List ℕ) (i : DecodedInstruction)
    → ((a : ℕ) → get_or file a 0 < 256)
    → IsInstruction i
    → IsMachine (load file i).1
unfolding load
load-IsMachine file i bytes word = record {
  bytes = λ a. ground (arith, bytes a);
  words = λ r. omega arith;
  segments = λ r. omega arith;
  ip_word = omega arith;
  flags_word = omega arith;
  clocks_word = omega arith;
  data_word = word;
}

continue-ok :
    (rest : Machine → Option (Outcome Machine)) (o : Outcome Machine) {m' : Machine}
    → IsValid o
    → continue rest o ≡ some (ok m')
    → (m : Machine) × IsMachine m × (rest m ≡ some (ok m'))
unfolding continue
continue-ok rest (ok m) valid e = (m, valid, e)
continue-ok rest exit_error valid e = ground (arith, e)
continue-ok rest out_of_bounds valid e = ground (arith, e)

-- A machine that a run from a valid machine ends in is valid, and its ip is at or past the end.
pub run-IsValid :
    (fuel available : ℕ) (m m' : Machine)
    → IsMachine m
    → run fuel available m ≡ some (ok m')
    → IsMachine m' × available ≤ m'.ip
unfolding run
run-IsValid zero available m m' valid e = ground (arith, e)
run-IsValid (suc fuel) available m m' valid e = elim (Bool-cases (ltb m.ip available)) [
  | inr stop ↦
      let same : m ≡ m' = cc (run-stop fuel available m stop, e) in
      subst (λ x. IsMachine x × available ≤ x.ip) same (valid, ground (arith, stop))
  | inl more ↦
      let (m1, valid', e') =
        continue-ok (λ m1. run fuel available m1) (step m) (step-IsValid m valid)
          (sym (run-more fuel available m more) ∙ e) in
      run-IsValid fuel available m1 m' valid' e'
]
