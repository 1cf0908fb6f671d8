-- ===== src/Simulator/Addressing.antt =====
-- get_ea_clocks against the table of the 8086 manual, for every operand that the decoder produces.
use computer_enhance.Shared.{ℕ, ◌+◌, ◌≡◌, Bool, not, ◌==◌, if◌then◌else◌, ok, arith}
use computer_enhance.Decoder.Types.{Register, DecodedInstruction, eq_register}
use computer_enhance.Decoder.Maps.{effective_reg1, effective_reg2}
use computer_enhance.Decoder.Modes.{dst_is_effective, src_is_effective, dst_is_register}
use computer_enhance.Decoder.Encoding.Manual.{Code, b000, b001, b010, b011, code}
use computer_enhance.Simulator.Clocks.{parts_of, combination, clocks_of, get_ea_clocks}

-- Table 2-20: base or index only 5; bp + di and bx + si 7; bp + si and bx + di 8; 4 more with a
-- displacement.
unfoldable pub manual_clocks : Code → Bool → ℕ
manual_clocks c displaced = base c + (if displaced then 4 else 0)
  where
    base : Code → ℕ
    base b000 = 7
    base b001 = 8
    base b010 = 8
    base b011 = 7
    base _ = 5

clocks-manual :
    (c : Code) (d : ℕ)
    → clocks_of (parts_of (effective_reg1 (code c)) (effective_reg2 (code c)) d)
      ≡ ok (manual_clocks c (not (d == 0)))
unfolding clocks_of parts_of combination effective_reg1 effective_reg2 code manual_clocks
    eq_register
clocks-manual b000 d = ground arith
clocks-manual _ d = ground arith

-- For the operands as parse_instruction writes them, R/M code c with displacement d, get_ea_clocks
-- returns the manual's count: for a memory destination, whatever the source is, and for a memory
-- source of an instruction whose destination is a register.
pub get_ea_clocks-manual :
    (i : DecodedInstruction) (r : Register) (c : Code) (d : ℕ)
    → (get_ea_clocks (dst_is_effective (code c) d i) ≡ ok (manual_clocks c (not (d == 0))))
      × (get_ea_clocks (src_is_effective (code c) d (dst_is_register r i))
          ≡ ok (manual_clocks c (not (d == 0))))
unfolding get_ea_clocks
get_ea_clocks-manual i r c d = (clocks-manual c d, clocks-manual c d)
