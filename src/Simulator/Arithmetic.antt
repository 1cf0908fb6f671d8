-- ===== src/Simulator/Arithmetic.antt =====
-- SUB and CMP between registers: the value, the flags, and what is left alone.
use computer_enhance.Shared.{
  if◌then◌else◌, not, ltb, ℕ, ◌+◌, ◌/◌, ◌%◌, ◌^◌, ◌<◌, ◌≡◌, refl, ◌∙◌, Bool, true, false, ◌==◌, ok,
  arith, u16, sub16, eq→==,
}
use computer_enhance.Decoder.Types.{
  Register, eq_register, register_index, DecodedInstruction, type_register,
}
use computer_enhance.Simulator.Machine.{
  is_s_set, Machine, RegDefinition, reg_item_map, read_register, write_register, eval_flags,
  is_z_set,
}
use computer_enhance.Simulator.Execute.{
  add_into, add_register_from, add_to, parse_add_inst, add_clocks, subtract, sub_cmp_register,
  sub_cmp, parse_sub_cmp_inst, set_flags, move_ip,
}
use computer_enhance.Simulator.Registers.{
  Part, whole, low, high, get_part, put_part, part_of, word_of, HasWords, write-read,
  read_register-lt,
}
use computer_enhance.Simulator.Flags.{eval_flags-bits}
use computer_enhance.Simulator.Invariant.{IsMachine}

-- A value cut to the width of a register.
abbrev pub cut : Part → ℕ → ℕ
cut whole value = value
cut _ value = value % 256

get-put : (p : Part) (old value : ℕ) → get_part p (put_part p old value) ≡ cut p value
get-put whole old value = refl
get-put low old value = omega arith
get-put high old value = omega arith

eq_register_refl : (r : Register) → eq_register r r ≡ true
unfolding eq_register
eq_register_refl r = eq→== (register_index r) (register_index r) refl

-- A register reads back as the value cut to its width.
pub write-read_same :
    (r : Register) (m : Machine) (value : ℕ) {d : RegDefinition}
    → reg_item_map r ≡ ok d
    → HasWords m
    → value < 2 ^ 16
    → read_register (write_register m d value) d ≡ cut (part_of r) value
write-read_same r m value hd words hv =
    write-read r r m value hd hd words hv
    ∙ rw (eq_register_refl (word_of r)) (get-put (part_of r) _ value)

-- What SUB and CMP leave.
pub record Subtracted (i : DecodedInstruction) (is_sub : Bool) (d : RegDefinition) (a b : ℕ)
    (m m' : Machine) : Type 0 where
  pub zero_flag : is_z_set m'.flags ≡ (a == b)
  pub result :
      read_register m' d
      ≡ (if is_sub then cut (part_of i.dst_register) (sub16 a b) else read_register m d)
  pub changed :
      m'.registers ≡ (if is_sub then (write_register m d (sub16 a b)).registers else m.registers)
  pub sign_flag : is_s_set m'.flags ≡ not (ltb (sub16 a b) 32768)
  pub other_flags : (m'.flags % 64 ≡ m.flags % 64) × (m'.flags / 256 ≡ m.flags / 256)
  pub moved : m'.ip ≡ u16 (m.ip + i.inst_num_bytes)
  pub same_memory : m'.memory ≡ m.memory
  pub same_segments : m'.segment_registers ≡ m.segment_registers
  pub same_clocks : m'.total_clocks ≡ m.total_clocks

same_zero : (a b : ℕ) → a < 2 ^ 16 → b < 2 ^ 16 → (sub16 a b == 0) ≡ (a == b)
same_zero a b ha hb = ground arith

module _ (i : DecodedInstruction) {m : Machine} {d : RegDefinition} (valid : IsMachine m)
    (hd : reg_item_map i.dst_register ≡ ok d) (b : ℕ) (hb : b < 2 ^ 16) where
  flagged : is_z_set (eval_flags m.flags (sub16 (read_register m d) b)) ≡ (read_register m d == b)
  flagged =
      let ha : read_register m d < 2 ^ 16 = read_register-lt i.dst_register m hd valid.words in
      (eval_flags-bits m.flags (sub16 (read_register m d) b) valid.flags_word (omega arith)).0
      ∙ same_zero _ b ha hb

  flag_bits :
      let flags' = eval_flags m.flags (sub16 (read_register m d) b) in
      (is_s_set flags' ≡ not (ltb (sub16 (read_register m d) b) 32768))
      × (flags' % 64 ≡ m.flags % 64)
      × (flags' / 256 ≡ m.flags / 256)
  flag_bits =
      let bits =
        eval_flags-bits m.flags (sub16 (read_register m d) b) valid.flags_word (omega arith) in
      (bits.1, bits.2, bits.3)

  subtract-Subtracted :
      (is_sub : Bool)
      → Subtracted i is_sub d
          (read_register m d)
          b
          m
          (move_ip i.inst_num_bytes (subtract m d b is_sub))
  unfolding subtract read_register write_register
  subtract-Subtracted true = record {
    zero_flag = flagged;
    result =
        write-read_same i.dst_register (set_flags (sub16 (read_register m d) b) m) _ hd valid.words
          (omega arith);
    changed = refl;
    sign_flag = flag_bits.0;
    other_flags = (flag_bits.1, flag_bits.2);
    moved = refl;
    same_memory = refl;
    same_segments = refl;
    same_clocks = refl;
  }
  subtract-Subtracted false = record {
    zero_flag = flagged;
    result = refl;
    changed = refl;
    sign_flag = flag_bits.0;
    other_flags = (flag_bits.1, flag_bits.2);
    moved = refl;
    same_memory = refl;
    same_segments = refl;
    same_clocks = refl;
  }

-- SUB and CMP of two registers, on a valid machine: the zero flag says whether their values are equal;
-- SUB leaves the difference, modulo 2 ^ 16 and cut to the width of the destination, in the
-- destination; CMP changes no register; the sign flag is that of the difference; ip moves behind the
-- instruction; the other flags, the memory, the segment registers and total_clocks stay as they were.
pub parse_sub_cmp_inst-Subtracted :
    (i : DecodedInstruction) (is_sub : Bool) (m : Machine) {d e : RegDefinition}
    → IsMachine m
    → i.dst_type ≡ type_register
    → i.src_type ≡ type_register
    → reg_item_map i.dst_register ≡ ok d
    → reg_item_map i.src_register ≡ ok e
    → (m' : Machine) × (parse_sub_cmp_inst m i is_sub ≡ ok m')
      × Subtracted i is_sub d (read_register m d) (read_register m e) m m'
unfolding parse_sub_cmp_inst sub_cmp sub_cmp_register
parse_sub_cmp_inst-Subtracted i is_sub m {d} {e} valid dst src hd he = (
  move_ip i.inst_num_bytes (subtract m d (read_register m e) is_sub),
  rw (dst, hd, src, he),
  subtract-Subtracted i valid hd (read_register m e)
      (read_register-lt i.src_register m he valid.words) is_sub,
)

-- What ADD leaves.
pub record Added (i : DecodedInstruction) (d : RegDefinition) (a b clocks : ℕ) (m m' : Machine)
    : Type 0 where
  pub zero_flag : is_z_set m'.flags ≡ (u16 (a + b) == 0)
  pub sign_flag : is_s_set m'.flags ≡ not (ltb (u16 (a + b)) 32768)
  pub result : read_register m' d ≡ cut (part_of i.dst_register) (u16 (a + b))
  pub counted : m'.total_clocks ≡ u16 (m.total_clocks + clocks)
  pub moved : m'.ip ≡ u16 (m.ip + i.inst_num_bytes)
  pub same_memory : m'.memory ≡ m.memory

add_into-Added :
    (i : DecodedInstruction) (m : Machine) (b clocks : ℕ) {d : RegDefinition}
    → IsMachine m
    → reg_item_map i.dst_register ≡ ok d
    → Added i d
        (read_register m d)
        b
        clocks
        m
        (move_ip i.inst_num_bytes (add_into (add_clocks clocks m) d b))
unfolding add_into read_register write_register
add_into-Added i m b clocks {d} valid hd =
    let value = u16 (read_register m d + b) in
    let flagged = eval_flags-bits m.flags value valid.flags_word (omega arith) in
    record {
      zero_flag = flagged.0;
      sign_flag = flagged.1;
      result =
          write-read_same i.dst_register (set_flags value (add_clocks clocks m)) value hd
            valid.words (omega arith);
      counted = refl;
      moved = refl;
      same_memory = refl;
    }

-- ADD of two registers, on a valid machine: the destination reads back as the sum modulo 2 ^ 16, cut to
-- its width; the zero and sign flags are those of the 16-bit sum; 3 clocks are counted, ip moves behind
-- the instruction and memory is untouched.
pub parse_add_inst-Added :
    (i : DecodedInstruction) (m : Machine) {d e : RegDefinition}
    → IsMachine m
    → i.dst_type ≡ type_register
    → i.src_type ≡ type_register
    → reg_item_map i.dst_register ≡ ok d
    → reg_item_map i.src_register ≡ ok e
    → (m' : Machine) × (parse_add_inst m i ≡ ok m')
      × Added i d (read_register m d) (read_register m e) 3 m m'
unfolding parse_add_inst add_to add_register_from
parse_add_inst-Added i m {d} {e} valid dst src hd he = (
  move_ip i.inst_num_bytes (add_into (add_clocks 3 m) d (read_register m e)),
  rw (dst, hd, src, he),
  add_into-Added i m (read_register m e) 3 valid hd,
)
