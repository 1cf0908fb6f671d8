-- ===== src/Standalone/Kept.antt =====
-- decoder_8086/decoder.c: the handlers on a buffer, and on one with more bytes.
use computer_enhance.Shared.{
  ℕ, ◌+◌, ◌≡◌, refl, Bool, true, false, Option, none, some, Outcome, ok, access, ◌>>=◌, >>=-inverse,
  ◌==◌, if◌then◌else◌, bit_and, bit_or, ◌<<◌, ◌>>◌,
}
use computer_enhance.Decoder.Extract.{Buffer, read_byte}
use computer_enhance.Standalone.Extract.{
  Line, extract_displacement, extract_data, explicit_extract_data,
}
use computer_enhance.Standalone.Moves.{
  mov_displacement, process_mov_accumulator_inst, process_mov_immediate_to_register_memory,
  process_mov_immediate_to_register,
}
use computer_enhance.Standalone.Regmem.{
  Regmem, regmem_op, regmem_fields, no_displacement, with_displacement, regmem_mod,
  process_regmem_tpo_reg_op_inst,
}
use computer_enhance.Standalone.Operations.{
  selected_op, accumulator_op, named_op, jump_ops, immediate_displacement,
  process_immediate_to_regmem_op_inst, process_immediate_accumulator_op_inst, process_jump_op_inst,
}
use computer_enhance.Standalone.Main.{
  Handler, mov_immediate_to_register_memory, mov_immediate_to_register, immediate_to_regmem,
  regmem_reg, mov_accumulator, immediate_accumulator, jump_op, not_recognized, process, handler,
  process_instruction,
}

-- Every byte of the first buffer is in the second.
abbrev pub Extends : Buffer → Buffer → Type 0
Extends buf buf' = (i b : ℕ) → buf i ≡ some b → buf' i ≡ some b

-- What the first outcome returns, the second does.
abbrev Kept {ℓ} : {A : Type ℓ} → Outcome A → Outcome A → Type ℓ
Kept {A = A} o o' = (a : A) → o ≡ ok a → o' ≡ ok a

same-Kept {ℓ} : {A : Type ℓ} (o : Outcome A) → Kept o o
same-Kept o a e = e

if-Kept {ℓ} :
    {A : Type ℓ} (test : Bool) (x x' y y' : Outcome A)
    → Kept x x'
    → Kept y y'
    → Kept (if test then x else y) (if test then x' else y')
if-Kept true x x' y y' hx hy = hx
if-Kept false x x' y y' hx hy = hy

>>=-Kept {ℓ κ} :
    {A : Type ℓ} {B : Type κ} (o o' : Outcome A) (next next' : A → Outcome B)
    → Kept o o'
    → ((a : A) → Kept (next a) (next' a))
    → Kept (o >>= next) (o' >>= next')
>>=-Kept o o' next next' first further b e =
    let (a, e1, e2) = >>=-inverse o next e in rw (first a e1) (further a b e2)

access-Kept : (o o' : Option ℕ) → ((b : ℕ) → o ≡ some b → o' ≡ some b) → Kept (access o) (access o')
access-Kept none o' h b e = absurd (cc e)
access-Kept (some x) o' h b e = let same : x ≡ b = cc e in rw (h x refl) e

module _ (buf buf' : Buffer) (more : Extends buf buf') where
  -- A byte, and what is made of it.
  reading-Kept {ℓ} :
      {B : Type ℓ} (i : ℕ) (next next' : ℕ → Outcome B)
      → ((b : ℕ) → Kept (next b) (next' b))
      → Kept (read_byte buf i >>= next) (read_byte buf' i >>= next')
  reading-Kept i next next' = >>=-Kept _ _ next next' (access-Kept (buf i) (buf' i) (more i))

  extract_displacement-Kept :
      (ptr bit_w : ℕ)
      → Kept (extract_displacement buf ptr bit_w) (extract_displacement buf' ptr bit_w)
  unfolding extract_displacement
  extract_displacement-Kept ptr bit_w = reading-Kept (ptr + 1) _ _ λ low.
      if-Kept (bit_w == 0) _ _ _ _ (same-Kept _) (reading-Kept (ptr + 2) _ _ λ high. same-Kept _)

  extract_data-Kept :
      (ptr bit_w : ℕ) → Kept (extract_data buf ptr bit_w) (extract_data buf' ptr bit_w)
  unfolding extract_data extract_displacement
  extract_data-Kept = extract_displacement-Kept

  explicit_extract_data-Kept :
      (ptr bit_s bit_w : ℕ)
      → Kept
          (explicit_extract_data buf ptr bit_s bit_w)
          (explicit_extract_data buf' ptr bit_s bit_w)
  unfolding explicit_extract_data
  explicit_extract_data-Kept ptr bit_s bit_w = reading-Kept (ptr + 1) _ _ λ low.
      if-Kept (bit_or (bit_s << 1) bit_w == 0) _ _ _ _ (same-Kept _) (
        if-Kept (bit_or (bit_s << 1) bit_w == 1) _ _ _ _
          (reading-Kept (ptr + 2) _ _ λ high. same-Kept _) (same-Kept _))

  mov_displacement-Kept :
      (mode r_m bit_w : ℕ)
      → Kept (mov_displacement buf mode r_m bit_w) (mov_displacement buf' mode r_m bit_w)
  unfolding mov_displacement
  mov_displacement-Kept mode r_m bit_w =
      if-Kept (mode == 0) _ _ _ _
        (if-Kept (r_m == 6) _ _ _ _ (extract_displacement-Kept 1 bit_w) (same-Kept _))
        (if-Kept (mode == 3) _ _ _ _ (same-Kept _) (extract_displacement-Kept 1 bit_w))

  immediate_displacement-Kept :
      (mode r_m bit_w : ℕ)
      → Kept
          (immediate_displacement buf mode r_m bit_w)
          (immediate_displacement buf' mode r_m bit_w)
  unfolding immediate_displacement mov_displacement
  immediate_displacement-Kept = mov_displacement-Kept

  process_mov_accumulator_inst-Kept :
      (op_type : ℕ)
      → Kept (process_mov_accumulator_inst buf op_type) (process_mov_accumulator_inst buf' op_type)
  unfolding process_mov_accumulator_inst
  process_mov_accumulator_inst-Kept op_type = reading-Kept 0 _ _ λ first. reading-Kept 1 _ _ λ low.
      if-Kept (bit_and first 1 == 1) _ _ _ _ (reading-Kept 2 _ _ λ high. same-Kept _) (same-Kept _)

  process_mov_immediate_to_register-Kept :
      Kept (process_mov_immediate_to_register buf) (process_mov_immediate_to_register buf')
  unfolding process_mov_immediate_to_register
  process_mov_immediate_to_register-Kept =
      reading-Kept 0 _ _
        λ first. >>=-Kept _ _ _ _ (extract_data-Kept 0 (bit_and (first >> 3) 1)) λ p. same-Kept _

  process_mov_immediate_to_register_memory-Kept :
      Kept
        (process_mov_immediate_to_register_memory buf)
        (process_mov_immediate_to_register_memory buf')
  unfolding process_mov_immediate_to_register_memory
  process_mov_immediate_to_register_memory-Kept = reading-Kept 0 _ _ λ first.
      reading-Kept 1 _ _ λ second.
        let bit_w = bit_and first 1 in
        >>=-Kept _ _ _ _
          (mov_displacement-Kept (bit_and (second >> 6) 3) (bit_and (second >> 0) 7) bit_w)
          λ p. >>=-Kept _ _ _ _ (extract_data-Kept (1 + p.0) bit_w) λ q. same-Kept _

  process_immediate_to_regmem_op_inst-Kept :
      Kept (process_immediate_to_regmem_op_inst buf) (process_immediate_to_regmem_op_inst buf')
  unfolding process_immediate_to_regmem_op_inst
  process_immediate_to_regmem_op_inst-Kept = reading-Kept 0 _ _ λ first.
      reading-Kept 1 _ _ λ second.
        let bit_w = bit_and first 1 in
        >>=-Kept _ _ _ _ (same-Kept (selected_op (bit_and (second >> 3) 7))) λ op.
          >>=-Kept _ _ _ _
            (immediate_displacement-Kept (bit_and (second >> 6) 3) (bit_and (second >> 0) 7) bit_w)
            λ p.
              >>=-Kept _ _ _ _ (explicit_extract_data-Kept (1 + p.0) (bit_and (first >> 1) 1) bit_w)
                λ q. same-Kept _

  process_immediate_accumulator_op_inst-Kept :
      (op_type : ℕ)
      → Kept
          (process_immediate_accumulator_op_inst buf op_type)
          (process_immediate_accumulator_op_inst buf' op_type)
  unfolding process_immediate_accumulator_op_inst
  process_immediate_accumulator_op_inst-Kept op_type = reading-Kept 0 _ _ λ first.
      >>=-Kept _ _ _ _ (same-Kept (accumulator_op op_type))
        λ op. >>=-Kept _ _ _ _ (extract_data-Kept 0 (bit_and first 1)) λ p. same-Kept _

  process_jump_op_inst-Kept :
      (op_type : ℕ) → Kept (process_jump_op_inst buf op_type) (process_jump_op_inst buf' op_type)
  unfolding process_jump_op_inst
  process_jump_op_inst-Kept op_type =
      >>=-Kept _ _ _ _ (same-Kept (named_op jump_ops op_type))
        λ op. >>=-Kept _ _ _ _ (extract_data-Kept 0 0) λ p. same-Kept _

  with_displacement-Kept :
      (f : Regmem) (is_wide : ℕ)
      → Kept (with_displacement f buf is_wide) (with_displacement f buf' is_wide)
  unfolding with_displacement
  with_displacement-Kept f is_wide =
      >>=-Kept _ _ _ _ (extract_displacement-Kept 1 is_wide) λ p. same-Kept _

  regmem_mod-Kept : (f : Regmem) (mode : ℕ) → Kept (regmem_mod f buf mode) (regmem_mod f buf' mode)
  unfolding regmem_mod no_displacement
  regmem_mod-Kept f mode =
      if-Kept (mode == 0) _ _ _ _
        (if-Kept (f.r_m == 6) _ _ _ _
          (>>=-Kept _ _ _ _ (extract_displacement-Kept 1 f.bit_w) λ p. same-Kept _) (same-Kept _))
        (if-Kept (mode == 1) _ _ _ _ (with_displacement-Kept f 0)
          (if-Kept (mode == 2) _ _ _ _ (with_displacement-Kept f 1) (same-Kept _)))

  process_regmem_tpo_reg_op_inst-Kept :
      (op_type : ℕ)
      → Kept
          (process_regmem_tpo_reg_op_inst buf op_type)
          (process_regmem_tpo_reg_op_inst buf' op_type)
  unfolding process_regmem_tpo_reg_op_inst
  process_regmem_tpo_reg_op_inst-Kept op_type =
      >>=-Kept _ _ _ _ (same-Kept (regmem_op op_type)) λ op. reading-Kept 0 _ _ λ first.
        reading-Kept 1 _ _ λ second.
          regmem_mod-Kept (regmem_fields op_type op.0 op.1 first second) (bit_and (second >> 6) 3)

  process-Kept : (h : Handler) → Kept (process h buf) (process h buf')
  unfolding process
  process-Kept mov_immediate_to_register_memory = process_mov_immediate_to_register_memory-Kept
  process-Kept mov_immediate_to_register = process_mov_immediate_to_register-Kept
  process-Kept immediate_to_regmem = process_immediate_to_regmem_op_inst-Kept
  process-Kept (regmem_reg op_type) = process_regmem_tpo_reg_op_inst-Kept op_type
  process-Kept (mov_accumulator op_type) = process_mov_accumulator_inst-Kept op_type
  process-Kept (immediate_accumulator op_type) = process_immediate_accumulator_op_inst-Kept op_type
  process-Kept (jump_op op_type) = process_jump_op_inst-Kept op_type
  process-Kept not_recognized = same-Kept _

  -- An instruction that is printed from a buffer is printed alike from one that has all its bytes.
  pub process_instruction-Kept :
      (n : ℕ) (line : Line)
      → process_instruction buf ≡ ok (n, line)
      → process_instruction buf' ≡ ok (n, line)
  unfolding process_instruction
  process_instruction-Kept n line =
      reading-Kept 0 (λ b. process (handler b) buf) (λ b. process (handler b) buf')
        (λ b. process-Kept (handler b)) (n, line)
