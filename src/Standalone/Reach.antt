-- ===== src/Standalone/Reach.antt =====
-- decoder_8086/decoder.c: the bytes that the handlers read and those that they consume, on any buffer.
pub mod Extraction
use computer_enhance.Shared.{
  ℕ, ◌+◌, ◌-◌, ◌≤◌, ◌≡◌, refl, Bool, true, false, Option, none, some, Outcome, ok, exit_error,
  access, ◌>>=◌, >>=-inverse, ◌==◌, if◌then◌else◌, Bool-cases, inl, inr, bit_and, bit_or, ◌<<◌,
  ◌>>◌, arith,
}
use Prim.Native.String.{String}
use computer_enhance.Decoder.Extract.{Buffer, read_byte}
use computer_enhance.Standalone.Extract.{
  Line, extract_displacement, extract_data, explicit_extract_data,
}
use computer_enhance.Standalone.Moves.{
  mov_displacement, process_mov_accumulator_inst, process_mov_immediate_to_register_memory,
  process_mov_immediate_to_register,
}
use computer_enhance.Standalone.Regmem.{
  Regmem, regmem_op, regmem_fields, no_displacement, with_displacement, register_line, regmem_mod,
  process_regmem_tpo_reg_op_inst,
}
use computer_enhance.Standalone.Operations.{
  selected_op, accumulator_op, named_op, jump_ops, immediate_displacement,
  process_immediate_to_regmem_op_inst, process_immediate_accumulator_op_inst, process_jump_op_inst,
}
use computer_enhance.Standalone.Main.{
  Handler, mov_immediate_to_register_memory, mov_immediate_to_register, immediate_to_regmem,
  regmem_reg, mov_accumulator, immediate_accumulator, jump_op, not_recognized, process, handler,
  process_instruction,
}
use Extraction.{
  ReachesTo, Reaches, access-inverse, if-Reaches, >>=-Reaches, ok-Reaches, Extracts,
  extract_displacement-Extracts, extract_data-Extracts, explicit_extract_data-Extracts,
  extracted-Reaches, two-Reaches,
}

module _ (buf : Buffer) where
  process_mov_accumulator_inst-Reaches :
      (op_type : ℕ) → Reaches buf (process_mov_accumulator_inst buf op_type)
  unfolding process_mov_accumulator_inst
  process_mov_accumulator_inst-Reaches op_type = >>=-Reaches buf (read_byte buf 0) _ λ first _.
      >>=-Reaches buf (read_byte buf 1) _ λ low e.
        if-Reaches buf (bit_and first 1 == 1) _ _
          (>>=-Reaches buf (read_byte buf 2) _ λ high e'.
            ok-Reaches buf 3 high _ (omega arith) (omega arith) (access-inverse _ high e'))
          (two-Reaches buf low _ e)

  process_mov_immediate_to_register-Reaches : Reaches buf (process_mov_immediate_to_register buf)
  unfolding process_mov_immediate_to_register
  process_mov_immediate_to_register-Reaches = >>=-Reaches buf (read_byte buf 0) _ λ first _.
      extracted-Reaches buf 1 0 (extract_data buf 0 _) _ (omega arith) (omega arith)
        (extract_data-Extracts buf 0 _)

  process_jump_op_inst-Reaches : (op_type : ℕ) → Reaches buf (process_jump_op_inst buf op_type)
  unfolding process_jump_op_inst
  process_jump_op_inst-Reaches op_type = >>=-Reaches buf (named_op jump_ops op_type) _ λ op _.
      extracted-Reaches buf 1 0 (extract_data buf 0 0) _ (omega arith) (omega arith)
        (extract_data-Extracts buf 0 0)

  process_immediate_accumulator_op_inst-Reaches :
      (op_type : ℕ) → Reaches buf (process_immediate_accumulator_op_inst buf op_type)
  unfolding process_immediate_accumulator_op_inst
  process_immediate_accumulator_op_inst-Reaches op_type =
      >>=-Reaches buf (read_byte buf 0) _ λ first _.
        >>=-Reaches buf (accumulator_op op_type) _ λ op _.
          extracted-Reaches buf 1 0 (extract_data buf 0 _) _ (omega arith) (omega arith)
            (extract_data-Extracts buf 0 _)

  -- No displacement, or one behind the second byte.
  abbrev pub Displaces : Outcome (ℕ × ℕ) → Type 0
  Displaces o = (k v : ℕ) → o ≡ ok (k, v) → k ≤ 2

  extracted-Displaces : (bit_w : ℕ) → Displaces (extract_displacement buf 1 bit_w)
  extracted-Displaces bit_w k v e =
      let (_, high, _) = extract_displacement-Extracts buf 1 bit_w k v e in high

  if-Displaces :
      (test : Bool) (x y : Outcome (ℕ × ℕ))
      → Displaces x
      → Displaces y
      → Displaces (if test then x else y)
  if-Displaces true x y hx hy = hx
  if-Displaces false x y hx hy = hy

  none-Displaces : Displaces (ok (0, 0))
  none-Displaces k v e = let same : 0 ≡ k = cc e in omega (arith, same)

  pub mov_displacement-Displaces :
      (mode r_m bit_w : ℕ) → Displaces (mov_displacement buf mode r_m bit_w)
  unfolding mov_displacement
  mov_displacement-Displaces mode r_m bit_w =
      if-Displaces (mode == 0) _ _
        (if-Displaces (r_m == 6) _ _ (extracted-Displaces bit_w) none-Displaces)
        (if-Displaces (mode == 3) _ _ none-Displaces (extracted-Displaces bit_w))

  pub immediate_displacement-Displaces :
      (mode r_m bit_w : ℕ) → Displaces (immediate_displacement buf mode r_m bit_w)
  unfolding immediate_displacement mov_displacement
  immediate_displacement-Displaces = mov_displacement-Displaces

  process_mov_immediate_to_register_memory-Reaches :
      Reaches buf (process_mov_immediate_to_register_memory buf)
  unfolding process_mov_immediate_to_register_memory
  process_mov_immediate_to_register_memory-Reaches = >>=-Reaches buf (read_byte buf 0) _ λ first _.
      >>=-Reaches buf (read_byte buf 1) _ λ second _.
        let mode = bit_and (second >> 6) 3 in
        let r_m = bit_and (second >> 0) 7 in
        let bit_w = bit_and first 1 in
        >>=-Reaches buf (mov_displacement buf mode r_m bit_w) _ λ p e.
          extracted-Reaches buf (2 + p.0) (1 + p.0) (extract_data buf (1 + p.0) bit_w) _
            (omega arith) (omega (arith, mov_displacement-Displaces mode r_m bit_w p.0 p.1 e))
            (extract_data-Extracts buf (1 + p.0) bit_w)

  process_immediate_to_regmem_op_inst-Reaches :
      Reaches buf (process_immediate_to_regmem_op_inst buf)
  unfolding process_immediate_to_regmem_op_inst
  process_immediate_to_regmem_op_inst-Reaches = >>=-Reaches buf (read_byte buf 0) _ λ first _.
      >>=-Reaches buf (read_byte buf 1) _ λ second _.
        let mode = bit_and (second >> 6) 3 in
        let r_m = bit_and (second >> 0) 7 in
        let bit_s = bit_and (first >> 1) 1 in
        let bit_w = bit_and first 1 in
        >>=-Reaches buf (selected_op (bit_and (second >> 3) 7)) _ λ op _.
          >>=-Reaches buf (immediate_displacement buf mode r_m bit_w) _ λ p e.
            extracted-Reaches buf (2 + p.0) (1 + p.0)
              (explicit_extract_data buf (1 + p.0) bit_s bit_w) _ (omega arith)
              (omega (arith, immediate_displacement-Displaces mode r_m bit_w p.0 p.1 e))
              (explicit_extract_data-Extracts buf (1 + p.0) bit_s bit_w)

  with_displacement-Reaches :
      (f : Regmem) (is_wide : ℕ) → Reaches buf (with_displacement f buf is_wide)
  unfolding with_displacement
  with_displacement-Reaches f is_wide =
      extracted-Reaches buf 2 1 (extract_displacement buf 1 is_wide) _ (omega arith) (omega arith)
        (extract_displacement-Extracts buf 1 is_wide)

  no_displacement-Reaches :
      (f : Regmem) (b : ℕ) → read_byte buf 1 ≡ ok b → Reaches buf (no_displacement f buf)
  unfolding no_displacement
  no_displacement-Reaches f b e =
      if-Reaches buf (f.r_m == 6) _ _
        (extracted-Reaches buf 2 1 (extract_displacement buf 1 f.bit_w) _ (omega arith)
          (omega arith) (extract_displacement-Extracts buf 1 f.bit_w))
        (two-Reaches buf b _ e)

  regmem_mod-Reaches :
      (f : Regmem) (mode b : ℕ) → read_byte buf 1 ≡ ok b → Reaches buf (regmem_mod f buf mode)
  unfolding regmem_mod
  regmem_mod-Reaches f mode b e = if-Reaches buf (mode == 0) _ _ (no_displacement-Reaches f b e) (
      if-Reaches buf (mode == 1) _ _ (with_displacement-Reaches f 0) (
        if-Reaches buf (mode == 2) _ _ (with_displacement-Reaches f 1)
          (two-Reaches buf b (register_line f) e)))

  process_regmem_tpo_reg_op_inst-Reaches :
      (op_type : ℕ) → Reaches buf (process_regmem_tpo_reg_op_inst buf op_type)
  unfolding process_regmem_tpo_reg_op_inst
  process_regmem_tpo_reg_op_inst-Reaches op_type = >>=-Reaches buf (regmem_op op_type) _ λ op _.
      >>=-Reaches buf (read_byte buf 0) _ λ first _. >>=-Reaches buf (read_byte buf 1) _ λ second e.
        regmem_mod-Reaches (regmem_fields op_type op.0 op.1 first second) (bit_and (second >> 6) 3)
          second e

  process-Reaches : (h : Handler) → Reaches buf (process h buf)
  unfolding process
  process-Reaches mov_immediate_to_register_memory =
      process_mov_immediate_to_register_memory-Reaches
  process-Reaches mov_immediate_to_register = process_mov_immediate_to_register-Reaches
  process-Reaches immediate_to_regmem = process_immediate_to_regmem_op_inst-Reaches
  process-Reaches (regmem_reg op_type) = process_regmem_tpo_reg_op_inst-Reaches op_type
  process-Reaches (mov_accumulator op_type) = process_mov_accumulator_inst-Reaches op_type
  process-Reaches (immediate_accumulator op_type) =
      process_immediate_accumulator_op_inst-Reaches op_type
  process-Reaches (jump_op op_type) = process_jump_op_inst-Reaches op_type
  process-Reaches not_recognized = λ n line e. absurd (cc e)

  -- An instruction that is printed consumed one to six bytes, all of them read from the buffer.
  pub process_instruction-Reaches : Reaches buf (process_instruction buf)
  unfolding process_instruction
  process_instruction-Reaches =
      >>=-Reaches buf (read_byte buf 0) _ λ b _. process-Reaches (handler b)
