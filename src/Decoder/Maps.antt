-- ===== src/Decoder/Maps.antt =====
-- The constant tables of libdecoder_8086/libdecoder.c, and the two name look-ups.
use Prim.Native.String.{String}
use computer_enhance.Shared.{ℕ, List, [], ◌∷◌, Option, none, some, ltb, if◌then◌else◌}
use computer_enhance.Shared.{get_elem?, get_or, Outcome, ok, access}
use computer_enhance.Decoder.Types.{
  Register, reg_ax, reg_al, reg_ah, reg_bx, reg_bl, reg_bh, reg_cx, reg_cl, reg_ch, reg_dx, reg_dl,
  reg_dh, reg_sp, reg_bp, reg_si, reg_di, max_reg, SegmentRegister, seg_reg_es, seg_reg_cs,
  seg_reg_ss, seg_reg_ds, max_seg_reg, Instruction, mov_inst, add_inst, sub_inst, cmp_inst, jo_inst,
  jno_inst, jb_inst, jnb_inst, je_inst, jnz_inst, jbe_inst, ja_inst, js_inst, jns_inst, jp_inst,
  jnp_inst, jl_inst, jnl_inst, jle_inst, jg_inst, loopnz_inst, loopz_inst, loop_inst, jcxz_inst,
  max_inst, register_index,
}

-- instruction_name[op]. The table has no entry for MAX_INST: that read is past its end.
unfoldable pub instruction_name : Instruction → Option String
instruction_name mov_inst = some "mov"
instruction_name add_inst = some "add"
instruction_name sub_inst = some "sub"
instruction_name cmp_inst = some "cmp"
instruction_name jo_inst = some "jo"
instruction_name jno_inst = some "jno"
instruction_name jb_inst = some "jb"
instruction_name jnb_inst = some "jnb"
instruction_name je_inst = some "je"
instruction_name jnz_inst = some "jnz"
instruction_name jbe_inst = some "jbe"
instruction_name ja_inst = some "ja"
instruction_name js_inst = some "js"
instruction_name jns_inst = some "jns"
instruction_name jp_inst = some "jp"
instruction_name jnp_inst = some "jnp"
instruction_name jl_inst = some "jl"
instruction_name jnl_inst = some "jnl"
instruction_name jle_inst = some "jle"
instruction_name jg_inst = some "jg"
instruction_name loopnz_inst = some "loopnz"
instruction_name loopz_inst = some "loopz"
instruction_name loop_inst = some "loop"
instruction_name jcxz_inst = some "jcxz"
instruction_name max_inst = none

-- op_encoding, indexed by the three bits of the second byte.
unfoldable pub op_encoding : ℕ → Instruction
op_encoding i =
    get_or
      (add_inst ∷ max_inst ∷ max_inst ∷ max_inst ∷ max_inst ∷ sub_inst ∷ max_inst ∷ cmp_inst ∷ []) i
      max_inst

-- register_map[i][w].
unfoldable pub register_map : ℕ → ℕ → Register
register_map i w =
    get_or
      (get_or
        ((reg_al ∷ reg_ax ∷ [])
          ∷ (reg_cl ∷ reg_cx ∷ [])
          ∷ (reg_dl ∷ reg_dx ∷ [])
          ∷ (reg_bl ∷ reg_bx ∷ [])
          ∷ (reg_ah ∷ reg_sp ∷ [])
          ∷ (reg_ch ∷ reg_bp ∷ [])
          ∷ (reg_dh ∷ reg_si ∷ [])
          ∷ (reg_bh ∷ reg_di ∷ [])
          ∷ [])
        i [])
      w max_reg

-- segment_register_map, indexed by the two bits of the SR field.
unfoldable pub segment_register_map : ℕ → SegmentRegister
segment_register_map i =
    get_or (seg_reg_es ∷ seg_reg_cs ∷ seg_reg_ss ∷ seg_reg_ds ∷ []) i max_seg_reg

-- mod_effective_address_map[rm][0] and [rm][1].
unfoldable pub effective_reg1 : ℕ → Register
effective_reg1 rm =
    get_or (reg_bx ∷ reg_bx ∷ reg_bp ∷ reg_bp ∷ reg_si ∷ reg_di ∷ reg_bp ∷ reg_bx ∷ []) rm max_reg

unfoldable pub effective_reg2 : ℕ → Register
effective_reg2 rm =
    get_or (reg_si ∷ reg_di ∷ reg_si ∷ reg_di ∷ max_reg ∷ max_reg ∷ max_reg ∷ max_reg ∷ []) rm
      max_reg

-- jmp_inst_map, indexed by the low four bits of the first byte.
unfoldable pub jmp_inst_map : ℕ → Instruction
jmp_inst_map i =
    get_or
      (jo_inst ∷ jno_inst ∷ jb_inst ∷ jnb_inst ∷ je_inst ∷ jnz_inst ∷ jbe_inst ∷ ja_inst ∷ js_inst
        ∷ jns_inst ∷ jp_inst ∷ jnp_inst ∷ jl_inst ∷ jnl_inst ∷ jle_inst ∷ jg_inst ∷ [])
      i max_inst

-- loop_inst_map, indexed by the low two bits of the first byte.
unfoldable pub loop_inst_map : ℕ → Instruction
loop_inst_map i = get_or (loopnz_inst ∷ loopz_inst ∷ loop_inst ∷ jcxz_inst ∷ []) i max_inst

unfoldable pub register_name : List String
register_name =
    "ax" ∷ "al" ∷ "ah" ∷ "bx" ∷ "bl" ∷ "bh" ∷ "cx" ∷ "cl" ∷ "ch" ∷ "dx" ∷ "dl" ∷ "dh" ∷ "sp" ∷ "bp"
    ∷ "si" ∷ "di" ∷ "INVALID" ∷ []

-- get_register_name, with its guard.
unfoldable pub get_register_name : Register → Outcome String
unfolding register_name register_index
get_register_name reg =
    if ltb 16 (register_index reg)
    then ok "INVALID"
    else access (get_elem? register_name (register_index reg))

-- get_segment_register_name; the guard never holds for a constant of the enum.
unfoldable pub get_segment_register_name : SegmentRegister → String
get_segment_register_name seg_reg_es = "es"
get_segment_register_name seg_reg_cs = "cs"
get_segment_register_name seg_reg_ss = "ss"
get_segment_register_name seg_reg_ds = "ds"
get_segment_register_name max_seg_reg = "INVALID"
