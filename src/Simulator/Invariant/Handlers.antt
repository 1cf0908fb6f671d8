-- ===== src/Simulator/Invariant/Handlers.antt =====
-- The handlers of simulator_8086/simulator.c for SUB, CMP, ADD and MOV, on a valid machine.
use computer_enhance.Shared.{ℕ, ◌≡◌, Bool, true, false, ok, arith}
use computer_enhance.Decoder.Types.{
  Register, OperandType, type_register, type_segment_register, type_direct_address,
  type_effective_address, type_data, max_type, DecodedInstruction,
}
use computer_enhance.Simulator.Machine.{Machine, RegDefinition, reg_item_map, segment_item}
use computer_enhance.Simulator.Registers.{read_register-lt}
use computer_enhance.Simulator.Clocks.{get_ea_clocks}
use computer_enhance.Simulator.Execute.{
  add_clocks, effective_address, displaced_address, subtract, sub_cmp_register, sub_cmp,
  parse_sub_cmp_inst, add_into, add_register_from, add_memory_from, add_to, parse_add_inst,
  mov_register_from, mov_segment_from, mov_memory_from, mov_direct_from, mov_to, parse_mov_inst,
}
use computer_enhance.Simulator.Invariant.{
  IsMachine, IsInstruction, IsValid, bind-IsValid, then-IsValid, add_clocks-IsMachine,
  move_ip-IsMachine, set_flags-IsMachine, store_byte-IsMachine, write-IsMachine,
  set_segment-IsMachine,
}

-- The handlers, on a valid machine and a decoded instruction.
module _ {m : Machine} (valid : IsMachine m) (i : DecodedInstruction) (word : IsInstruction i) where
  subtract-IsMachine :
      (r : Register) (v : ℕ) (is_sub : Bool) {d : RegDefinition}
      → reg_item_map r ≡ ok d
      → IsMachine (subtract m d v is_sub)
  unfolding subtract
  subtract-IsMachine r v true hd =
      write-IsMachine (set_flags-IsMachine valid _ (omega arith)) r _ hd (omega arith)
  subtract-IsMachine r v false hd = set_flags-IsMachine valid _ (omega arith)

  add_into-IsMachine :
      (n : ℕ) (r : Register) (v : ℕ) {d : RegDefinition}
      → reg_item_map r ≡ ok d
      → IsMachine (add_into (add_clocks n m) d v)
  unfolding add_into
  add_into-IsMachine n r v hd =
      write-IsMachine (set_flags-IsMachine (add_clocks-IsMachine valid n) _ (omega arith)) r _ hd
        (omega arith)

  sub_cmp_register-IsValid :
      (t : OperandType) (r : Register) (is_sub : Bool) {d : RegDefinition}
      → reg_item_map r ≡ ok d
      → IsValid (sub_cmp_register t m i d is_sub)
  unfolding sub_cmp_register
  sub_cmp_register-IsValid type_register r is_sub hd =
      bind-IsValid (reg_item_map i.src_register) _ (λ s hs. subtract-IsMachine r _ is_sub hd)
  sub_cmp_register-IsValid type_data r is_sub hd = subtract-IsMachine r _ is_sub hd
  sub_cmp_register-IsValid _ r is_sub hd = tt

  sub_cmp-IsValid : (t : OperandType) (is_sub : Bool) → IsValid (sub_cmp t m i is_sub)
  unfolding sub_cmp
  sub_cmp-IsValid type_register is_sub =
      bind-IsValid (reg_item_map i.dst_register) _
        (λ d hd. sub_cmp_register-IsValid i.src_type i.dst_register is_sub hd)
  sub_cmp-IsValid _ is_sub = tt

  add_register_from-IsValid :
      (t : OperandType) (r : Register) {d : RegDefinition}
      → reg_item_map r ≡ ok d
      → IsValid (add_register_from t m i d)
  unfolding add_register_from
  add_register_from-IsValid type_data r hd = add_into-IsMachine 4 r i.src_data hd
  add_register_from-IsValid type_register r hd =
      bind-IsValid (reg_item_map i.src_register) _ (λ s hs. add_into-IsMachine 3 r _ hd)
  add_register_from-IsValid type_effective_address r hd = bind-IsValid (get_ea_clocks i) _ λ ea he.
      bind-IsValid
        (effective_address m i.src_effective_reg1 i.src_effective_reg2 i.src_effective_displacement)
        _ λ a ha. add_clocks-IsMachine (write-IsMachine valid r _ hd (omega arith)) _
  add_register_from-IsValid _ r hd = tt

  add_memory_from-IsValid : (t : OperandType) (a : ℕ) → IsValid (add_memory_from t m i a)
  unfolding add_memory_from
  add_memory_from-IsValid type_register a = bind-IsValid (reg_item_map i.src_register) _ λ s hs.
      bind-IsValid (get_ea_clocks i) _
        λ ea he. add_clocks-IsMachine (store_byte-IsMachine valid a _) _
  add_memory_from-IsValid type_data a =
      bind-IsValid (get_ea_clocks i) _
        λ ea he. add_clocks-IsMachine (store_byte-IsMachine valid a _) _
  add_memory_from-IsValid _ a = tt

  add_to-IsValid : (t : OperandType) → IsValid (add_to t m i)
  unfolding add_to
  add_to-IsValid type_register =
      bind-IsValid (reg_item_map i.dst_register) _
        (λ d hd. add_register_from-IsValid i.src_type i.dst_register hd)
  add_to-IsValid type_effective_address =
      bind-IsValid
        (displaced_address m i.dst_effective_reg1 i.dst_effective_reg2 i.dst_effective_displacement)
        _ (λ a ha. add_memory_from-IsValid i.src_type a)
  add_to-IsValid _ = tt

  mov_register_from-IsValid :
      (t : OperandType) (r : Register) {d : RegDefinition}
      → reg_item_map r ≡ ok d
      → IsValid (mov_register_from t m i d)
  unfolding mov_register_from
  mov_register_from-IsValid type_register r hd =
      bind-IsValid (reg_item_map i.src_register) _ λ s hs.
        add_clocks-IsMachine
          (write-IsMachine valid r _ hd (read_register-lt i.src_register m hs valid.words)) 2
  mov_register_from-IsValid type_segment_register r hd =
      bind-IsValid (segment_item i.src_seg_register) _
        (λ s hs. write-IsMachine valid r _ hd (valid.segments s))
  mov_register_from-IsValid type_data r hd =
      add_clocks-IsMachine (write-IsMachine valid r _ hd word) 4
  mov_register_from-IsValid type_direct_address r hd = bind-IsValid (get_ea_clocks i) _ λ ea he.
      add_clocks-IsMachine
        (write-IsMachine valid r _ hd (omega (arith, valid.bytes i.src_direct_address))) _
  mov_register_from-IsValid type_effective_address r hd = bind-IsValid (get_ea_clocks i) _ λ ea he.
      bind-IsValid
        (effective_address m i.src_effective_reg1 i.src_effective_reg2 i.dst_effective_displacement)
        _
        λ a ha. add_clocks-IsMachine (write-IsMachine valid r _ hd (omega (arith, valid.bytes a))) _
  mov_register_from-IsValid max_type r hd = tt

  mov_segment_from-IsValid : (t : OperandType) → IsValid (mov_segment_from t m i)
  unfolding mov_segment_from
  mov_segment_from-IsValid type_register = bind-IsValid (reg_item_map i.src_register) _ λ s hs.
      bind-IsValid (segment_item i.dst_seg_register) _
        λ d hd. set_segment-IsMachine valid d _ (read_register-lt i.src_register m hs valid.words)
  mov_segment_from-IsValid type_segment_register =
      bind-IsValid (segment_item i.dst_seg_register) _ λ d hd.
        bind-IsValid (segment_item i.src_seg_register) _
          λ s hs. set_segment-IsMachine valid d _ (valid.segments s)
  mov_segment_from-IsValid type_data =
      bind-IsValid (segment_item i.dst_seg_register) _
        (λ d hd. set_segment-IsMachine valid d _ word)
  mov_segment_from-IsValid _ = tt

  mov_memory_from-IsValid : (t : OperandType) (a : ℕ) → IsValid (mov_memory_from t m i a)
  unfolding mov_memory_from
  mov_memory_from-IsValid type_register a = bind-IsValid (get_ea_clocks i) _ λ ea he.
      bind-IsValid (reg_item_map i.src_register) _
        λ s hs. add_clocks-IsMachine (store_byte-IsMachine valid a _) _
  mov_memory_from-IsValid type_data a = store_byte-IsMachine valid a _
  mov_memory_from-IsValid _ a = tt

  mov_direct_from-IsValid : (t : OperandType) → IsValid (mov_direct_from t m i)
  unfolding mov_direct_from
  mov_direct_from-IsValid type_data = store_byte-IsMachine valid _ _
  mov_direct_from-IsValid _ = tt

  mov_to-IsValid : (t : OperandType) → IsValid (mov_to t m i)
  unfolding mov_to
  mov_to-IsValid type_register =
      bind-IsValid (reg_item_map i.dst_register) _
        (λ d hd. mov_register_from-IsValid i.src_type i.dst_register hd)
  mov_to-IsValid type_segment_register = mov_segment_from-IsValid i.src_type
  mov_to-IsValid type_direct_address = mov_direct_from-IsValid i.src_type
  mov_to-IsValid type_effective_address =
      bind-IsValid
        (effective_address m i.dst_effective_reg1 i.dst_effective_reg2 i.dst_effective_displacement)
        _ (λ a ha. mov_memory_from-IsValid i.src_type a)
  mov_to-IsValid _ = tt

  pub parse_sub_cmp_inst-IsValid : (is_sub : Bool) → IsValid (parse_sub_cmp_inst m i is_sub)
  unfolding parse_sub_cmp_inst
  parse_sub_cmp_inst-IsValid is_sub =
      then-IsValid (sub_cmp i.dst_type m i is_sub) _ (sub_cmp-IsValid i.dst_type is_sub)
        (λ m' h. move_ip-IsMachine h _)

  pub parse_add_inst-IsValid : IsValid (parse_add_inst m i)
  unfolding parse_add_inst
  parse_add_inst-IsValid =
      then-IsValid (add_to i.dst_type m i) _ (add_to-IsValid i.dst_type)
        (λ m' h. move_ip-IsMachine h _)

  pub parse_mov_inst-IsValid : IsValid (parse_mov_inst m i)
  unfolding parse_mov_inst
  parse_mov_inst-IsValid =
      then-IsValid (mov_to i.dst_type m i) _ (mov_to-IsValid i.dst_type)
        (λ m' h. move_ip-IsMachine h _)
