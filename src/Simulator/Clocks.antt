-- ===== src/Simulator/Clocks.antt =====
-- simulator_8086/simulator.c: get_ea_clocks.
use computer_enhance.Shared.{
  ℕ, Bool, true, false, not, ◌&&◌, ◌||◌, ◌==◌, if◌then◌else◌, bit_or, ◌<<◌, Outcome, ok, exit_error,
}
use computer_enhance.Decoder.Types.{
  Register, reg_bx, reg_bp, reg_si, reg_di, eq_register, OperandType, type_direct_address,
  type_effective_address, DecodedInstruction,
}

-- The five local flags.
pub record Parts : Type 0 where
  pub has_disp : Bool
  pub has_bx : Bool
  pub has_bp : Bool
  pub has_si : Bool
  pub has_di : Bool

unfoldable pub parts_of : Register → Register → ℕ → Parts
parts_of reg1 reg2 displacement = record {
  has_disp = not (displacement == 0);
  has_bx = eq_register reg1 reg_bx || eq_register reg2 reg_bx;
  has_bp = eq_register reg1 reg_bp || eq_register reg2 reg_bp;
  has_si = eq_register reg1 reg_si || eq_register reg2 reg_si;
  has_di = eq_register reg1 reg_di || eq_register reg2 reg_di;
}

-- `comb`: one bit for each register that takes part.
unfoldable pub combination : Parts → ℕ
combination p =
    let c1 : ℕ = if p.has_bx then 1 else 0 in
    let c2 = if p.has_bp then bit_or c1 (1 << 1) else c1 in
    let c3 = if p.has_si then bit_or c2 (1 << 2) else c2 in
    if p.has_di then bit_or c3 (1 << 3) else c3

-- From the flags on.
unfoldable pub clocks_of : Parts → Outcome ℕ
clocks_of p =
    let comb = combination p in
    if p.has_disp && not p.has_bx && not p.has_bp && not p.has_si && not p.has_di
    then ok 6
    else if comb == 1 || comb == 2 || comb == 4 || comb == 8
    then ok (if not p.has_disp then 5 else 9)
    else if p.has_bp && p.has_di || p.has_bx && p.has_si
    then ok (if not p.has_disp then 7 else 11)
    else if p.has_bp && p.has_si || p.has_bx && p.has_di
    then ok (if not p.has_disp then 8 else 12)
    else exit_error

abbrev is_effective : OperandType → Bool
is_effective type_effective_address = true
is_effective _ = false

abbrev is_direct : OperandType → Bool
is_direct type_direct_address = true
is_direct _ = false

abbrev no_parts : Parts
no_parts = record {
  has_disp = false;
  has_bx = false;
  has_bp = false;
  has_si = false;
  has_di = false;
}

unfoldable pub get_ea_clocks : DecodedInstruction → Outcome ℕ
get_ea_clocks i =
    if is_effective i.dst_type
    then clocks_of (parts_of i.dst_effective_reg1 i.dst_effective_reg2 i.dst_effective_displacement)
    else if is_effective i.src_type
    then clocks_of (parts_of i.src_effective_reg1 i.src_effective_reg2 i.src_effective_displacement)
    else if is_direct i.src_type
    then ok 6
    else clocks_of no_parts
