-- ===== src/Decoder/Bitstream.antt =====
-- libdecoder_8086/instruction_bitstream.h: the table op_cmds of the supported encodings.
pub mod Format
pub mod Moves
pub mod Arithmetic
pub mod Jumps
use computer_enhance.Shared.{List, [], ◌∷◌}
use Format.{OpcodeBitstream}
use Moves.{mov1_op, mov2_op, mov3_op, mov4_op, mov5_op, mov6_op, mov7_op}
use Arithmetic.{add1_op, multi1_op, add2_op, sub1_op, sub2_op, cmp1_op, cmp2_op}
use Jumps.{jump_op, loop_op}

-- op_cmds, in the order in which decode_bitstream tries them.
unfoldable pub op_cmds : List OpcodeBitstream
unfolding mov1_op mov2_op mov3_op mov4_op mov5_op mov6_op mov7_op add1_op multi1_op add2_op sub1_op
    sub2_op cmp1_op cmp2_op jump_op loop_op
op_cmds =
    mov1_op ∷ mov2_op ∷ mov3_op ∷ mov4_op ∷ mov5_op ∷ mov6_op ∷ mov7_op ∷ add1_op ∷ multi1_op
    ∷ add2_op ∷ sub1_op ∷ sub2_op ∷ cmp1_op ∷ cmp2_op ∷ jump_op ∷ loop_op ∷ []
