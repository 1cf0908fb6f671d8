-- ===== src/Runs/Decode.antt =====
-- The decoder of libdecoder_8086/libdecoder.c on concrete bytes.
use computer_enhance.Shared.{
  ℕ, ◌-◌, ◌≤◌, ◌≡◌, refl, ◌==◌, true, false, if◌then◌else◌, [], ◌∷◌, some, Outcome, ok, ◌>>=◌, ◌⊎◌,
  arith,
}
use computer_enhance.Decoder.Types.{
  DecodedInstruction, Instruction, Register, mov_inst, sub_inst, reg_cx, reg_bx, reg_si, max_reg,
  reset_instruction, register_index,
}
use computer_enhance.Decoder.Extract.{Buffer, sign_extend}
use computer_enhance.Decoder.Maps.{register_map, register_name, instruction_name}
use computer_enhance.Decoder.Parse.{decode_bitstream}
use computer_enhance.Decoder.Totality.{decode_bitstream-total, is_supported}
use computer_enhance.Decoder.Locality.Extracted.{SameUpTo}
use computer_enhance.Decoder.Locality.{decode_bitstream-local}
use computer_enhance.Decoder.Print.{
  text, print_decoded_instruction, dst_pieces, src_pieces, register_label, decorator,
}
use computer_enhance.Decoder.Disassemble.{
  fitting_line, print_line, decode_line, add_line, next_lines, disassemble,
}
use computer_enhance.Decoder.Disassemble.Prefix.{disassemble-local}
use computer_enhance.Decoder.Encoding.Decodes.{decoded}

-- The bytes of `mov cx, bx`, then zeros.
abbrev moving : Buffer
moving i = some (if i == 0 then 0x89 else if i == 1 then 0xd9 else 0)

brief : Outcome (ℕ × DecodedInstruction) → Outcome (ℕ × Instruction × Register × Register × ℕ)
brief o = o >>= λ p. ok (p.0, p.1.op, p.1.dst_register, p.1.src_register, p.1.src_data)

-- mov cx, bx
decoded-mov :
    brief (decoded (0x89 ∷ 0xd9 ∷ []) reset_instruction) ≡ ok (2, mov_inst, reg_cx, reg_bx, 0)
unfolding decoded brief register_map
decoded-mov = refl

-- sub si, -2
decoded-sub :
    brief (decoded (0x83 ∷ 0xee ∷ 0xfe ∷ []) reset_instruction)
    ≡ ok (3, sub_inst, reg_si, max_reg, 0xfffe)
unfolding decoded brief register_map sign_extend
decoded-sub = refl

moved : (i : DecodedInstruction) × (decode_bitstream moving reset_instruction ≡ ok (2, i))
unfolding decoded
moved = (_, refl)

decode_bitstream-total_example :
    (n : ℕ) × (i : DecodedInstruction) × (decode_bitstream moving reset_instruction ≡ ok (n, i))
    × (((is_supported 0x89 ≡ true) × (1 ≤ n))
        ⊎ ((is_supported 0x89 ≡ false) × (n ≡ 0) × (i ≡ reset_instruction)))
decode_bitstream-total_example =
    decode_bitstream-total moving 0x89 reset_instruction (λ i h. (_, refl)) refl (omega arith)

-- The same two bytes, then others.
abbrev moving_on : Buffer
moving_on i = some (if i == 0 then 0x89 else if i == 1 then 0xd9 else 0x90)

same_bytes : SameUpTo (2 - 1) moving moving_on
same_bytes i h = ground arith

decode_bitstream-local_example :
    ((◌≡◌ {A = ℕ} 2 0 × (moved.0 ≡ reset_instruction))
      ⊎ ((1 ≤ 2) × (2 ≤ 6) × (moved.0.inst_num_bytes ≡ 2)))
    × (decode_bitstream moving_on reset_instruction ≡ ok (2, moved.0))
decode_bitstream-local_example =
    decode_bitstream-local moving moving_on reset_instruction 2 moved.0 moved.1 same_bytes

-- mov cx, bx and the rest of its line
two_bytes :
    disassemble 2 moving 0 2 reset_instruction
    ≡ some (
        ok (
          (text "mov" ∷ text " " ∷ text "" ∷ text "cx" ∷ text ", " ∷ text "" ∷ text "bx" ∷ [])
          ∷ []))
unfolding disassemble decode_line print_line fitting_line next_lines add_line decoded register_map
    print_decoded_instruction dst_pieces src_pieces register_label decorator register_name
    register_index instruction_name
two_bytes = refl

disassemble-local_example :
    disassemble 2 moving_on 0 2 reset_instruction
    ≡ some (
        ok (
          (text "mov" ∷ text " " ∷ text "" ∷ text "cx" ∷ text ", " ∷ text "" ∷ text "bx" ∷ [])
          ∷ []))
disassemble-local_example =
    disassemble-local 2 moving moving_on 0 2 reset_instruction
      ((text "mov" ∷ text " " ∷ text "" ∷ text "cx" ∷ text ", " ∷ text "" ∷ text "bx" ∷ []) ∷ [])
      two_bytes (λ k h. ground arith)
