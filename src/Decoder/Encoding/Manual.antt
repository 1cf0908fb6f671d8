-- ===== src/Decoder/Encoding/Manual.antt =====
-- The instruction formats of the 8086 manual, as an abstract syntax with its own encoder and its own
-- naming of registers: what the tables of instruction_bitstream.h and libdecoder.c should agree with.
use computer_enhance.Shared.{
  ℕ, ◌+◌, ◌*◌, ◌/◌, ◌%◌, ◌^◌, ◌<◌, ◌≢◌, Bool, List, [], ◌∷◌, Option, none, some, if◌then◌else◌, ltb,
}
use computer_enhance.Decoder.Types.{
  Register, reg_ax, reg_al, reg_ah, reg_bx, reg_bl, reg_bh, reg_cx, reg_cl, reg_ch, reg_dx, reg_dl,
  reg_dh, reg_sp, reg_bp, reg_si, reg_di, max_reg, SegmentRegister, Instruction, mov_inst, add_inst,
  sub_inst, cmp_inst, OperandType, type_register, type_segment_register, type_direct_address,
  type_effective_address, type_data, max_type, DecodedInstruction,
}

-- What an instruction does to what: the operands of an assembly line.
pub data Operand : Type 0 where
  register : Register → Operand
  segment : SegmentRegister → Operand
  memory : Register → Register → ℕ → Operand
  direct : ℕ → Operand
  immediate : ℕ → Operand

pub data Assembly : Type 0 where
  two_operand : Instruction → Operand → Operand → Assembly
  short : Instruction → ℕ → Assembly

unfoldable pub dst_operand : OperandType → DecodedInstruction → Option Operand
dst_operand type_register i = some (register i.dst_register)
dst_operand type_segment_register i = some (segment i.dst_seg_register)
dst_operand type_direct_address i = some (direct i.dst_direct_address)
dst_operand type_effective_address i =
    some (memory i.dst_effective_reg1 i.dst_effective_reg2 i.dst_effective_displacement)
dst_operand type_data i = none
dst_operand max_type i = none

unfoldable pub src_operand : OperandType → DecodedInstruction → Option Operand
src_operand type_register i = some (register i.src_register)
src_operand type_segment_register i = some (segment i.src_seg_register)
src_operand type_direct_address i = some (direct i.src_direct_address)
src_operand type_effective_address i =
    some (memory i.src_effective_reg1 i.src_effective_reg2 i.src_effective_displacement)
src_operand type_data i = some (immediate i.src_data)
src_operand max_type i = none

unfoldable pub both : Instruction → Option Operand → Option Operand → Option Assembly
both op none src = none
both op (some dst) none = none
both op (some dst) (some src) = some (two_operand op dst src)

-- The assembly line that a decoded instruction stands for.
unfoldable pub view : DecodedInstruction → Option Assembly
unfolding both dst_operand src_operand
view i =
    if i.inst_is_short_w_data
    then some (short i.op i.src_data)
    else both i.op (dst_operand i.dst_type i) (src_operand i.src_type i)

-- A field of three bits.
pub data Code : Type 0 where
  b000 b001 b010 b011 b100 b101 b110 b111 : Code

unfoldable pub code : Code → ℕ
code b000 = 0
code b001 = 1
code b010 = 2
code b011 = 3
code b100 = 4
code b101 = 5
code b110 = 6
code b111 = 7

-- REG and R/M as a register: of a byte, then of a word.
unfoldable pub byte_register : Code → Register
byte_register b000 = reg_al
byte_register b001 = reg_cl
byte_register b010 = reg_dl
byte_register b011 = reg_bl
byte_register b100 = reg_ah
byte_register b101 = reg_ch
byte_register b110 = reg_dh
byte_register b111 = reg_bh

unfoldable pub word_register : Code → Register
word_register b000 = reg_ax
word_register b001 = reg_cx
word_register b010 = reg_dx
word_register b011 = reg_bx
word_register b100 = reg_sp
word_register b101 = reg_bp
word_register b110 = reg_si
word_register b111 = reg_di

abbrev pub any_register : Bool → Code → Register
any_register w c = if w then word_register c else byte_register c

-- R/M as base and index of an effective address.
unfoldable pub based : Code → ℕ → Operand
based b000 = memory reg_bx reg_si
based b001 = memory reg_bx reg_di
based b010 = memory reg_bp reg_si
based b011 = memory reg_bp reg_di
based b100 = memory reg_si max_reg
based b101 = memory reg_di max_reg
based b110 = memory reg_bp max_reg
based b111 = memory reg_bx max_reg

-- A byte read as a signed number, in 16 bits. What is no byte is left alone.
abbrev pub extended : ℕ → ℕ
extended b = if ltb b 128 then b else if ltb b 256 then b + 0xff00 else b

-- MOD and R/M with the displacement.
pub data Rm : Type 0 where
  in_register : Code → Rm
  plain : Code → Rm
  displaced8 : Code → ℕ → Rm
  displaced16 : Code → ℕ → Rm
  absolute : ℕ → Rm

-- A displacement fits its bytes, and MOD 00 with R/M 110 is the absolute address.
abbrev pub IsRm : Rm → Type 0
IsRm (in_register c) = Unit {0}
IsRm (plain c) = c ≢ b110
IsRm (displaced8 c d) = d < 256
IsRm (displaced16 c d) = d < 2 ^ 16
IsRm (absolute a) = a < 2 ^ 16

abbrev pub word_bytes : ℕ → List ℕ
word_bytes v = v % 256 ∷ v / 256 ∷ []

abbrev pub modrm : ℕ → ℕ → ℕ → ℕ
modrm m r k = m * 64 + r * 8 + k

-- The second byte with `r` in its middle field, and the displacement.
unfoldable pub rm_bytes : ℕ → Rm → List ℕ
rm_bytes r (in_register c) = modrm 3 r (code c) ∷ []
rm_bytes r (plain c) = modrm 0 r (code c) ∷ []
rm_bytes r (displaced8 c d) = modrm 1 r (code c) ∷ d ∷ []
rm_bytes r (displaced16 c d) = modrm 2 r (code c) ∷ word_bytes d
rm_bytes r (absolute a) = modrm 0 r 6 ∷ word_bytes a

unfoldable pub rm_operand : Bool → Rm → Operand
rm_operand w (in_register c) = register (any_register w c)
rm_operand w (plain c) = based c 0
rm_operand w (displaced8 c d) = based c (extended d)
rm_operand w (displaced16 c d) = based c d
rm_operand w (absolute a) = direct a

pub data Operation : Type 0 where
  mov add sub cmp : Operation

unfoldable pub instruction : Operation → Instruction
instruction mov = mov_inst
instruction add = add_inst
instruction sub = sub_inst
instruction cmp = cmp_inst
