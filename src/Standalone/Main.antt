-- ===== src/Standalone/Main.antt =====
-- decoder_8086/decoder.c: main, from the choice of the handler to the loops over the chunks of the file.
use computer_enhance.Shared.{
  ℕ, zero, suc, ◌+◌, ◌-◌, ◌%◌, ◌^◌, Bool, false, ◌||◌, List, [], ◌∷◌, ◌++◌, Option, none, some,
  Outcome, ok, exit_error, out_of_bounds, ◌>>=◌, ◌==◌, if◌then◌else◌, ltb, ◌>>◌, get_elem?, length,
}
use Prim.Native.String.{String}
use computer_enhance.Decoder.Extract.{Buffer, read_byte}
use computer_enhance.Decoder.Disassemble.{from}
use computer_enhance.Standalone.Extract.{Line}
use computer_enhance.Standalone.Moves.{
  mov_memory_to_accumulator, mov_accumulator_to_memory, process_mov_accumulator_inst,
  process_mov_immediate_to_register_memory, process_mov_immediate_to_register,
}
use computer_enhance.Standalone.Regmem.{
  mov_regmem_reg_instruction, mov_regmem_to_segment_instruction, mov_segment_to_regmem_instruction,
  add_regmem_with_reg, sub_regmem_with_reg, cmp_regmem_with_reg, process_regmem_tpo_reg_op_inst,
}
use computer_enhance.Standalone.Operations.{
  process_immediate_to_regmem_op_inst, add_immediate_to_accumulator, sub_immediate_from_accumulator,
  cmp_immediate_with_accumulator, process_immediate_accumulator_op_inst, jump_ops,
  process_jump_op_inst,
}

-- A branch of the chain in main: the function that it calls, with op_type.
pub data Handler : Type 0 where
  mov_immediate_to_register_memory mov_immediate_to_register immediate_to_regmem : Handler
  regmem_reg mov_accumulator immediate_accumulator jump_op : ℕ → Handler
  not_recognized : Handler

unfoldable pub is_op : List (ℕ × String) → ℕ → Bool
is_op [] b = false
is_op ((op, name) ∷ ops) b = b == op || is_op ops b

-- The conditions of the chain, in its order.
unfoldable pub handler : ℕ → Handler
unfolding is_op
handler b =
    if (b >> 1) == 0x63
    then mov_immediate_to_register_memory
    else if (b >> 4) == 0x0b
    then mov_immediate_to_register
    else if (b >> 2) == mov_regmem_reg_instruction
    then regmem_reg mov_regmem_reg_instruction
    else if (b >> 1) == mov_memory_to_accumulator
    then mov_accumulator mov_memory_to_accumulator
    else if (b >> 1) == mov_accumulator_to_memory
    then mov_accumulator mov_accumulator_to_memory
    else if b == mov_regmem_to_segment_instruction
    then regmem_reg mov_regmem_to_segment_instruction
    else if b == mov_segment_to_regmem_instruction
    then regmem_reg mov_segment_to_regmem_instruction
    else if (b >> 2) == add_regmem_with_reg
    then regmem_reg add_regmem_with_reg
    else if (b >> 2) == 0x20
    then immediate_to_regmem
    else if (b >> 1) == add_immediate_to_accumulator
    then immediate_accumulator add_immediate_to_accumulator
    else if (b >> 2) == sub_regmem_with_reg
    then regmem_reg sub_regmem_with_reg
    else if (b >> 1) == sub_immediate_from_accumulator
    then immediate_accumulator sub_immediate_from_accumulator
    else if (b >> 2) == cmp_regmem_with_reg
    then regmem_reg cmp_regmem_with_reg
    else if (b >> 1) == cmp_immediate_with_accumulator
    then immediate_accumulator cmp_immediate_with_accumulator
    else if is_op jump_ops b
    then jump_op b
    else not_recognized

unfoldable pub process : Handler → Buffer → Outcome (ℕ × Line)
unfolding process_mov_immediate_to_register_memory process_mov_immediate_to_register
    process_immediate_to_regmem_op_inst process_regmem_tpo_reg_op_inst process_mov_accumulator_inst
    process_immediate_accumulator_op_inst process_jump_op_inst
process mov_immediate_to_register_memory buf = process_mov_immediate_to_register_memory buf
process mov_immediate_to_register buf = process_mov_immediate_to_register buf
process immediate_to_regmem buf = process_immediate_to_regmem_op_inst buf
process (regmem_reg op_type) buf = process_regmem_tpo_reg_op_inst buf op_type
process (mov_accumulator op_type) buf = process_mov_accumulator_inst buf op_type
process (immediate_accumulator op_type) buf = process_immediate_accumulator_op_inst buf op_type
process (jump_op op_type) buf = process_jump_op_inst buf op_type
process not_recognized buf = exit_error

-- The body of the inner loop, up to its two updates.
unfoldable pub process_instruction : Buffer → Outcome (ℕ × Line)
unfolding process handler
process_instruction buf = do b ← read_byte buf 0; process (handler b) buf

-- `bytes_available -= consumed_bytes`, on a size_t
unfoldable pub bytes_left : ℕ → ℕ → ℕ
bytes_left bytes_available consumed_bytes = (bytes_available + 2 ^ 64 - consumed_bytes) % 2 ^ 64

unfoldable pub with_line : Line → Option (Outcome (List Line)) → Option (Outcome (List Line))
with_line line (some (ok lines)) = some (ok (line ∷ lines))
with_line line other = other

unfoldable pub after_round :
    (ℕ → Option (Outcome (List Line))) → Outcome (ℕ × Line) → Option (Outcome (List Line))
after_round rest (ok (consumed_bytes, line)) = with_line line (rest consumed_bytes)
after_round rest exit_error = some exit_error
after_round rest out_of_bounds = some out_of_bounds

-- `while (bytes_available>0)`, with fuel. A read behind the buffer, which C does not define, ends it here.
unfoldable pub decode_chunk : ℕ → Buffer → ℕ → ℕ → Option (Outcome (List Line))
unfolding after_round with_line process_instruction bytes_left
decode_chunk fuel buf ptr zero = some (ok [])
decode_chunk zero buf ptr (suc more) = none
decode_chunk (suc fuel) buf ptr (suc more) =
    after_round
      (λ consumed_bytes.
        decode_chunk fuel buf (ptr + consumed_bytes) (bytes_left (suc more) consumed_bytes))
      (process_instruction (from ptr buf))

-- BUFFER_SIZE
abbrev pub buffer_size : ℕ
buffer_size = 4096

-- fread: the next bytes of the file, at most as many as asked for, and what is left of it.
unfoldable pub fread : ℕ → List ℕ → List ℕ × List ℕ
fread zero file = ([], file)
fread (suc n) [] = ([], [])
fread (suc n) (b ∷ file) = let (chunk, rest) = fread n file in (b ∷ chunk, rest)

-- The buffer once a chunk is read into it: what stands behind the chunk is left alone.
unfoldable pub filled : List ℕ → Buffer → Buffer
filled chunk buf i = if ltb i (length chunk) then get_elem? chunk i else buf i

unfoldable pub and_lines :
    Option (Outcome (List Line)) → Option (Outcome (List Line)) → Option (Outcome (List Line))
and_lines (some (ok lines)) (some (ok lines')) = some (ok (lines ++ lines'))
and_lines (some (ok lines)) other = other
and_lines other rest = other

-- The loop over the chunks, with fuel. A round of the inner loop moves on in the buffer, so that one
-- round for each byte of it and one more are enough.
unfoldable pub decode_file : ℕ → Buffer → List ℕ → Option (Outcome (List Line))
decode_file fuel buf [] = some (ok [])
decode_file zero buf (b ∷ file) = none
decode_file (suc fuel) buf (b ∷ file) =
    let (chunk, rest) = fread buffer_size (b ∷ file) in
    let buf' = filled chunk buf in
    and_lines (decode_chunk (buffer_size + 1) buf' 0 (length chunk)) (decode_file fuel buf' rest)
