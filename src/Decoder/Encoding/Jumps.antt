-- ===== src/Decoder/Encoding/Jumps.antt =====
-- The conditional jumps and the loops, with an 8-bit offset.
use computer_enhance.Shared.{ℕ, ◌<◌, refl, List, [], ◌∷◌}
use computer_enhance.Decoder.Encoding.Decodes.{decoded, Decodes, unsized, size_words, DecodesSized}
use computer_enhance.Decoder.Encoding.Bits.{sign_extend-extended}
use computer_enhance.Decoder.Types.{
  DecodedInstruction, Instruction, jo_inst, jno_inst, jb_inst, jnb_inst, je_inst, jnz_inst,
  jbe_inst, ja_inst, js_inst, jns_inst, jp_inst, jnp_inst, jl_inst, jnl_inst, jle_inst, jg_inst,
  loopnz_inst, loopz_inst, loop_inst, jcxz_inst,
}
use computer_enhance.Decoder.Maps.{jmp_inst_map, loop_inst_map}
use computer_enhance.Decoder.Encoding.Manual.{short, extended}

pub data Jump : Type 0 where
  jo jno jb jnb je jnz jbe ja js jns jp jnp jl jnl jle jg : Jump
  loopnz loopz loop jcxz : Jump

unfoldable pub opcode : Jump → ℕ
opcode jo = 0x70
opcode jno = 0x71
opcode jb = 0x72
opcode jnb = 0x73
opcode je = 0x74
opcode jnz = 0x75
opcode jbe = 0x76
opcode ja = 0x77
opcode js = 0x78
opcode jns = 0x79
opcode jp = 0x7a
opcode jnp = 0x7b
opcode jl = 0x7c
opcode jnl = 0x7d
opcode jle = 0x7e
opcode jg = 0x7f
opcode loopnz = 0xe0
opcode loopz = 0xe1
opcode loop = 0xe2
opcode jcxz = 0xe3

unfoldable pub operation : Jump → Instruction
operation jo = jo_inst
operation jno = jno_inst
operation jb = jb_inst
operation jnb = jnb_inst
operation je = je_inst
operation jnz = jnz_inst
operation jbe = jbe_inst
operation ja = ja_inst
operation js = js_inst
operation jns = jns_inst
operation jp = jp_inst
operation jnp = jnp_inst
operation jl = jl_inst
operation jnl = jnl_inst
operation jle = jle_inst
operation jg = jg_inst
operation loopnz = loopnz_inst
operation loopz = loopz_inst
operation loop = loop_inst
operation jcxz = jcxz_inst

pub jump-Sized :
    (j : Jump) (offset : ℕ) (rest : List ℕ) (old : DecodedInstruction)
    → offset < 256
    → DecodesSized (opcode j ∷ offset ∷ []) rest old (short (operation j) (extended offset)) unsized
unfolding decoded size_words opcode operation jmp_inst_map loop_inst_map
jump-Sized jo offset rest old h = simp sign_extend-extended (_, refl, refl, refl)
jump-Sized _ offset rest old h = simp sign_extend-extended (_, refl, refl, refl)

-- Each conditional jump and loop decodes, from its two bytes whatever follows, to its mnemonic with
-- the sign-extended offset.
pub jump-Decodes :
    (j : Jump) (offset : ℕ) (rest : List ℕ) (old : DecodedInstruction)
    → offset < 256
    → Decodes (opcode j ∷ offset ∷ []) rest old (short (operation j) (extended offset))
jump-Decodes j offset rest old h =
    let (i, e, stands, words) = jump-Sized j offset rest old h in (i, e, stands)
