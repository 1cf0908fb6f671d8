-- ===== src/Simulator/Jumping.antt =====
-- The jumps in the loop of main: a round at a jump, and the loop that counts cx down.
use computer_enhance.Shared.{
  ℕ, zero, suc, ◌+◌, ◌^◌, ◌≤◌, ◌<◌, ◌≡◌, refl, sym, ◌∙◌, ◌==◌, if◌then◌else◌, List, [], ◌∷◌, some,
  get_elem?, ok, Bool-cases, inl, inr, arith, u16, sub16,
}
use computer_enhance.Decoder.Types.{DecodedInstruction, Instruction, loop_inst, reg_cx, eq_register}
use computer_enhance.Decoder.Parse.{decode_bitstream}
use computer_enhance.Decoder.Encoding.Manual.{view, short, extended}
use computer_enhance.Decoder.Encoding.Jumps.{Jump, opcode, operation, jump-Decodes, loop}
use computer_enhance.Decoder.Encoding.Decodes.{decoded}
use computer_enhance.Decoder.Locality.{decode_bitstream-Consumes}
use computer_enhance.Simulator.Machine.{
  Machine, memory_size, is_z_set, read_register, write_register, set_register, eval_flags,
  reg_item_map, RegDefinition,
}
use computer_enhance.Simulator.Execute.{jump_unless_zero, jump, parse_jmp_inst, move_ip, set_flags}
use computer_enhance.Simulator.Run.{execute, memory_at, step}
use computer_enhance.Simulator.Invariant.{IsMachine, move_ip-IsMachine}
use computer_enhance.Simulator.Invariant.Loop.{instruction-IsMachine}
use computer_enhance.Simulator.Registers.{
  HasWords, part_of, word_of, read_register_lem, write_register_lem,
}
use computer_enhance.Simulator.Flags.{eval_flags-bits}

view-short :
    (i : DecodedInstruction) (op : Instruction) (d : ℕ)
    → view i ≡ some (short op d)
    → (i.op ≡ op) × (i.src_data ≡ d)
unfolding view
view-short i op d e = (ground (arith, e), ground (arith, e))

decoded-decode_bitstream :
    (bytes : List ℕ) (old : DecodedInstruction)
    → decoded bytes old ≡ decode_bitstream (get_elem? bytes) old
unfolding decoded
decoded-decode_bitstream bytes old = refl

-- The two bytes of a jump at ip.
abbrev pub AtJump : Jump → ℕ → Machine → Type 0
AtJump j offset m =
    (m.ip + 1 < memory_size)
    × (m.memory m.ip ≡ opcode j)
    × (m.memory (m.ip + 1) ≡ offset)
    × (offset < 256)

jump_bytes :
    (j : Jump) (offset : ℕ) (m : Machine)
    → AtJump j offset m
    → (i : ℕ) → i ≤ 1
    → get_elem? (opcode j ∷ offset ∷ []) i ≡ memory_at m i
unfolding memory_at
jump_bytes j offset m (room, at0, at1, byte) zero h = ground (arith, room, at0)
jump_bytes j offset m (room, at0, at1, byte) (suc zero) h = ground (arith, room, at1)
jump_bytes j offset m (room, at0, at1, byte) (suc (suc i)) h = absurd (omega (arith, h))

decode-AtJump :
    (j : Jump) (offset : ℕ) (m : Machine)
    → AtJump j offset m
    → (i : DecodedInstruction) × (decode_bitstream (memory_at m) m.instruction ≡ ok (2, i))
      × (i.op ≡ operation j)
      × (i.src_data ≡ extended offset)
      × (i.inst_num_bytes ≡ 2)
decode-AtJump j offset m at =
    let (i, e, line) = jump-Decodes j offset [] m.instruction at.3 in
    let read : decode_bitstream (get_elem? (opcode j ∷ offset ∷ [])) m.instruction ≡ ok (2, i) =
      sym (decoded-decode_bitstream _ m.instruction) ∙ e in
    let (kind, alike) = decode_bitstream-Consumes _ m.instruction 2 i read in
    let (is_op, is_data) = view-short i _ _ line in
    (i, alike (memory_at m) (jump_bytes j offset m at), is_op, is_data, ground (arith, kind))

step-loop_inst :
    (offset : ℕ) (m : Machine)
    → AtJump loop offset m
    → (i : DecodedInstruction) × (step m
        ≡ jump loop_inst (move_ip 2 (record m { instruction = i })) i)
      × (i.src_data ≡ extended offset)
unfolding step execute parse_jmp_inst operation
step-loop_inst offset m at =
    let (i, e, is_op, is_data, size) = decode-AtJump loop offset m at in
    (i, rw (e, is_op, size, is_op), is_data)

-- What a LOOP round leaves.
pub record Looped (offset : ℕ) (m m' : Machine) : Type 0 where
  pub counted : m'.registers reg_cx ≡ sub16 (m.registers reg_cx) 1
  pub landed : m'.ip ≡ (
      if sub16 (m.registers reg_cx) 1 == 0
      then u16 (m.ip + 2)
      else u16 (u16 (m.ip + 2) + extended offset))
  pub same_memory : m'.memory ≡ m.memory

read_cx :
    (m : Machine) {d : RegDefinition}
    → reg_item_map reg_cx ≡ ok d
    → HasWords m
    → read_register m d ≡ m.registers reg_cx
unfolding part_of word_of
read_cx m hd words = read_register_lem reg_cx m hd words

write_cx :
    (m : Machine) (value : ℕ) {d : RegDefinition}
    → reg_item_map reg_cx ≡ ok d
    → HasWords m
    → value < 2 ^ 16
    → write_register m d value ≡ record m { registers = set_register m.registers reg_cx value }
unfolding part_of word_of
write_cx m value hd words h = write_register_lem reg_cx m value hd words h

-- cx and the flags after the count, before the jump.
abbrev counted_down : Machine → Machine
counted_down m =
    let value = sub16 (m.registers reg_cx) 1 in
    set_flags value (record m { registers = set_register m.registers reg_cx value })

jump-counted_down :
    (m : Machine) (i : DecodedInstruction)
    → IsMachine m
    → jump loop_inst m i ≡ ok (jump_unless_zero (counted_down m) i.src_data)
unfolding jump reg_item_map
jump-counted_down m i valid = rw (
  read_cx m refl valid.words,
  write_cx m (sub16 (m.registers reg_cx) 1) refl valid.words (omega arith),
)

jump_unless_zero-Looped :
    (offset : ℕ) (m : Machine) (i : DecodedInstruction)
    → IsMachine m
    → i.src_data ≡ extended offset
    → Looped offset m
        (jump_unless_zero (counted_down (move_ip 2 (record m { instruction = i }))) i.src_data)
unfolding jump_unless_zero eq_register
jump_unless_zero-Looped offset m i valid at =
    let value = sub16 (m.registers reg_cx) 1 in
    let zero_flag : is_z_set (eval_flags m.flags value) ≡ (value == 0) =
      (eval_flags-bits m.flags value valid.flags_word (omega arith)).0 in
    elim (Bool-cases (value == 0)) [
      | inl z ↦
          rw (zero_flag, z)
            (record { counted = ground arith; landed = ground (arith, z); same_memory = refl })
      | inr nz ↦
          rw (zero_flag, nz)
            (record { counted = ground arith; landed = ground (arith, nz, at); same_memory = refl })
    ]

-- A round at a LOOP, on a valid machine: cx is counted down modulo 2 ^ 16, ip lands behind the LOOP
-- when cx has reached 0 and else the signed offset from there, modulo 2 ^ 16, and memory is untouched.
pub step-Looped :
    (offset : ℕ) (m : Machine)
    → IsMachine m
    → AtJump loop offset m
    → (m' : Machine) × (step m ≡ ok m') × Looped offset m m'
step-Looped offset m valid at =
    let (i, e, same) = step-loop_inst offset m at in
    let moved : IsMachine (move_ip 2 (record m { instruction = i })) =
      move_ip-IsMachine (instruction-IsMachine valid i (ground (arith, same, at.3))) 2 in
    (_, e ∙ jump-counted_down _ i moved, jump_unless_zero-Looped offset m i valid same)
