-- ===== src/Simulator/Invariant.antt =====
-- The invariant of the globals of simulator_8086/simulator.c: registers, flags, ip and clocks are
-- 16-bit words, memory cells bytes, and the data of the instruction a word.
use computer_enhance.Shared.{
  ℕ, ◌+◌, ◌-◌, ◌%◌, ◌^◌, ◌≤◌, ◌<◌, ◌≡◌, refl, Bool, true, false, not, ◌==◌, ltb, if◌then◌else◌,
  Outcome, ok, exit_error, out_of_bounds, ◌>>=◌, >>=-inverse, Bool-cases, inl, inr, arith, u16,
  sub16, u8,
}
use computer_enhance.Decoder.Types.{
  Register, SegmentRegister, OperandType, type_register, type_segment_register, type_direct_address,
  type_effective_address, type_data, max_type, DecodedInstruction, Instruction,
}
use computer_enhance.Simulator.Machine.{
  Machine, RegDefinition, reg_item_map, read_register, write_register, eval_flags, segment_item,
  set_segment,
}
use computer_enhance.Simulator.Registers.{write-HasWords, read_register-lt}
use computer_enhance.Simulator.Flags.{eval_flags-lt}
use computer_enhance.Simulator.Execute.{add_clocks, set_flags, move_ip, store_byte}
pub mod Handlers
pub mod Loop

pub record IsMachine (m : Machine) : Type 0 where
  pub bytes : (a : ℕ) → m.memory a < 256
  pub words : (r : Register) → m.registers r < 2 ^ 16
  pub segments : (s : SegmentRegister) → m.segment_registers s < 2 ^ 16
  pub ip_word : m.ip < 2 ^ 16
  pub flags_word : m.flags < 2 ^ 16
  pub clocks_word : m.total_clocks < 2 ^ 16
  pub data_word : m.instruction.src_data < 2 ^ 16

-- What the machine takes from an instruction.
abbrev pub IsInstruction : DecodedInstruction → Type 0
IsInstruction i = i.src_data < 2 ^ 16

module _ {m : Machine} (valid : IsMachine m) where
  pub add_clocks-IsMachine : (n : ℕ) → IsMachine (add_clocks n m)
  add_clocks-IsMachine n = record {
    bytes = valid.bytes;
    words = valid.words;
    segments = valid.segments;
    ip_word = valid.ip_word;
    flags_word = valid.flags_word;
    clocks_word = omega arith;
    data_word = valid.data_word;
  }

  pub move_ip-IsMachine : (n : ℕ) → IsMachine (move_ip n m)
  move_ip-IsMachine n = record {
    bytes = valid.bytes;
    words = valid.words;
    segments = valid.segments;
    ip_word = omega arith;
    flags_word = valid.flags_word;
    clocks_word = valid.clocks_word;
    data_word = valid.data_word;
  }

  pub set_flags-IsMachine : (v : ℕ) → v < 2 ^ 16 → IsMachine (set_flags v m)
  set_flags-IsMachine v h = record {
    bytes = valid.bytes;
    words = valid.words;
    segments = valid.segments;
    ip_word = valid.ip_word;
    flags_word = eval_flags-lt m.flags v valid.flags_word h;
    clocks_word = valid.clocks_word;
    data_word = valid.data_word;
  }

  pub store_byte-IsMachine : (a v : ℕ) → IsMachine (store_byte a v m)
  store_byte-IsMachine a v = record {
    bytes = λ b. ground (arith, valid.bytes b);
    words = valid.words;
    segments = valid.segments;
    ip_word = valid.ip_word;
    flags_word = valid.flags_word;
    clocks_word = valid.clocks_word;
    data_word = valid.data_word;
  }

  pub write-IsMachine :
      (r : Register) (v : ℕ) {d : RegDefinition}
      → reg_item_map r ≡ ok d
      → v < 2 ^ 16
      → IsMachine (write_register m d v)
  write-IsMachine r v {d} hd h = record {
    bytes = unfold write_register in valid.bytes;
    words = write-HasWords r m v hd valid.words h;
    segments = unfold write_register in valid.segments;
    ip_word = unfold write_register in valid.ip_word;
    flags_word = unfold write_register in valid.flags_word;
    clocks_word = unfold write_register in valid.clocks_word;
    data_word = unfold write_register in valid.data_word;
  }

  pub set_segment-IsMachine :
      (s : SegmentRegister) (v : ℕ)
      → v < 2 ^ 16
      → IsMachine (record m { segment_registers = set_segment m.segment_registers s v })
  set_segment-IsMachine s v h = record {
    bytes = valid.bytes;
    words = valid.words;
    segments = λ t. ground (arith, valid.segments t);
    ip_word = valid.ip_word;
    flags_word = valid.flags_word;
    clocks_word = valid.clocks_word;
    data_word = valid.data_word;
  }

-- A run that returned a machine returned a valid one.
abbrev pub IsValid : Outcome Machine → Type 0
IsValid (ok m) = IsMachine m
IsValid exit_error = Unit
IsValid out_of_bounds = Unit

pub bind-IsValid :
    {A : Type 0} (o : Outcome A) (f : A → Outcome Machine)
    → ((a : A) → o ≡ ok a → IsValid (f a))
    → IsValid (o >>= f)
bind-IsValid (ok a) f h = h a refl
bind-IsValid exit_error f h = tt
bind-IsValid out_of_bounds f h = tt

pub then-IsValid :
    (o : Outcome Machine) (f : Machine → Outcome Machine)
    → IsValid o
    → ((m : Machine) → IsMachine m → IsValid (f m))
    → IsValid (o >>= f)
then-IsValid (ok m) f v h = h m v
then-IsValid exit_error f v h = tt
then-IsValid out_of_bounds f v h = tt
