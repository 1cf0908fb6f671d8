-- ===== src/Standalone/Returning.antt =====
-- decoder_8086/decoder.c: the handlers on a buffer of six readable bytes.
use computer_enhance.Shared.{
  ℕ, ◌+◌, ◌≤◌, ◌≡◌, refl, Bool, true, false, ◌==◌, if◌then◌else◌, some, Outcome, ok, exit_error,
  out_of_bounds, ◌>>=◌, bit_and, bit_or, ◌<<◌, ◌>>◌, arith,
}
use computer_enhance.Decoder.Extract.{Buffer, read_byte}
use computer_enhance.Decoder.Totality.Stages.{HasBytes}
use computer_enhance.Standalone.Extract.{extract_displacement, extract_data, explicit_extract_data}
use computer_enhance.Standalone.Moves.{
  mov_displacement, process_mov_accumulator_inst, process_mov_immediate_to_register_memory,
  process_mov_immediate_to_register,
}
use computer_enhance.Standalone.Regmem.{
  Regmem, regmem_op, regmem_fields, no_displacement, with_displacement, regmem_mod,
  process_regmem_tpo_reg_op_inst,
}
use computer_enhance.Standalone.Operations.{
  selected_op, accumulator_op, named_op, jump_ops, immediate_displacement,
  process_immediate_to_regmem_op_inst, process_immediate_accumulator_op_inst, process_jump_op_inst,
}
use computer_enhance.Standalone.Reach.{mov_displacement-Displaces, immediate_displacement-Displaces}

abbrev pub Returns {ℓ} : {A : Type ℓ} → Outcome A → Type ℓ
Returns {A = A} o = (a : A) × (o ≡ ok a)

same-Returns {ℓ} : {A : Type ℓ} (a : A) → Returns (ok a)
same-Returns a = (a, refl)

if-Returns {ℓ} :
    {A : Type ℓ} (test : Bool) (x y : Outcome A)
    → Returns x
    → Returns y
    → Returns (if test then x else y)
if-Returns true x y hx hy = hx
if-Returns false x y hx hy = hy

>>=-Returns {ℓ κ} :
    {A : Type ℓ} {B : Type κ} (o : Outcome A) (next : A → Outcome B)
    → Returns o
    → ((a : A) → o ≡ ok a → Returns (next a))
    → Returns (o >>= next)
>>=-Returns o next (a, e) further = rw e (further a e)

abbrev pub returns {ℓ} : {A : Type ℓ} → Outcome A → Bool
returns (ok a) = true
returns exit_error = false
returns out_of_bounds = false

pub returns-Returns {ℓ} : {A : Type ℓ} (o : Outcome A) → returns o ≡ true → Returns o
returns-Returns (ok a) e = (a, refl)
returns-Returns exit_error e = absurd (cc e)
returns-Returns out_of_bounds e = absurd (cc e)

module _ (buf : Buffer) (bytes : HasBytes buf) where
  reading-Returns {ℓ} :
      {B : Type ℓ} (i : ℕ) (next : ℕ → Outcome B)
      → i ≤ 5
      → ((b : ℕ) → Returns (next b))
      → Returns (read_byte buf i >>= next)
  reading-Returns i next h further = let (b, at) = bytes i h in rw at (further b)

  extract_displacement-Returns :
      (ptr bit_w : ℕ) → ptr ≤ 3 → Returns (extract_displacement buf ptr bit_w)
  unfolding extract_displacement
  extract_displacement-Returns ptr bit_w h = reading-Returns (ptr + 1) _ (omega arith) λ low.
      if-Returns (bit_w == 0) _ _ (same-Returns _)
        (reading-Returns (ptr + 2) _ (omega arith) λ high. same-Returns _)

  extract_data-Returns : (ptr bit_w : ℕ) → ptr ≤ 3 → Returns (extract_data buf ptr bit_w)
  unfolding extract_data extract_displacement
  extract_data-Returns = extract_displacement-Returns

  explicit_extract_data-Returns :
      (ptr bit_s bit_w : ℕ) → ptr ≤ 3 → Returns (explicit_extract_data buf ptr bit_s bit_w)
  unfolding explicit_extract_data
  explicit_extract_data-Returns ptr bit_s bit_w h = reading-Returns (ptr + 1) _ (omega arith) λ low.
      if-Returns (bit_or (bit_s << 1) bit_w == 0) _ _ (same-Returns _) (
        if-Returns (bit_or (bit_s << 1) bit_w == 1) _ _
          (reading-Returns (ptr + 2) _ (omega arith) λ high. same-Returns _) (same-Returns _))

  mov_displacement-Returns : (mode r_m bit_w : ℕ) → Returns (mov_displacement buf mode r_m bit_w)
  unfolding mov_displacement
  mov_displacement-Returns mode r_m bit_w =
      if-Returns (mode == 0) _ _
        (if-Returns (r_m == 6) _ _ (extract_displacement-Returns 1 bit_w (omega arith))
          (same-Returns _))
        (if-Returns (mode == 3) _ _ (same-Returns _)
          (extract_displacement-Returns 1 bit_w (omega arith)))

  immediate_displacement-Returns :
      (mode r_m bit_w : ℕ) → Returns (immediate_displacement buf mode r_m bit_w)
  unfolding immediate_displacement mov_displacement
  immediate_displacement-Returns = mov_displacement-Returns

  pub process_mov_accumulator_inst-Returns :
      (op_type : ℕ) → Returns (process_mov_accumulator_inst buf op_type)
  unfolding process_mov_accumulator_inst
  process_mov_accumulator_inst-Returns op_type = reading-Returns 0 _ (omega arith) λ first.
      reading-Returns 1 _ (omega arith) λ low.
        if-Returns (bit_and first 1 == 1) _ _
          (reading-Returns 2 _ (omega arith) λ high. same-Returns _) (same-Returns _)

  pub process_mov_immediate_to_register-Returns : Returns (process_mov_immediate_to_register buf)
  unfolding process_mov_immediate_to_register
  process_mov_immediate_to_register-Returns = reading-Returns 0 _ (omega arith) λ first.
      >>=-Returns _ _ (extract_data-Returns 0 (bit_and (first >> 3) 1) (omega arith))
        λ p _. same-Returns _

  pub process_mov_immediate_to_register_memory-Returns :
      Returns (process_mov_immediate_to_register_memory buf)
  unfolding process_mov_immediate_to_register_memory
  process_mov_immediate_to_register_memory-Returns = reading-Returns 0 _ (omega arith) λ first.
      reading-Returns 1 _ (omega arith) λ second.
        let mode = bit_and (second >> 6) 3 in
        let r_m = bit_and (second >> 0) 7 in
        let bit_w = bit_and first 1 in
        >>=-Returns _ _ (mov_displacement-Returns mode r_m bit_w) λ p e.
          >>=-Returns _ _
            (extract_data-Returns (1 + p.0) bit_w
              (omega (arith, mov_displacement-Displaces buf mode r_m bit_w p.0 p.1 e)))
            λ q _. same-Returns _

  -- The operation field decides.
  pub process_immediate_to_regmem_op_inst-Returns :
      (second : ℕ)
      → buf 1 ≡ some second
      → Returns (selected_op (bit_and (second >> 3) 7))
      → Returns (process_immediate_to_regmem_op_inst buf)
  unfolding process_immediate_to_regmem_op_inst
  process_immediate_to_regmem_op_inst-Returns second at selected =
      reading-Returns 0 _ (omega arith) λ first.
        let mode = bit_and (second >> 6) 3 in
        let r_m = bit_and (second >> 0) 7 in
        let bit_w = bit_and first 1 in
        rw at (
          >>=-Returns _ _ selected λ op _.
            >>=-Returns _ _ (immediate_displacement-Returns mode r_m bit_w) λ p e.
              >>=-Returns _ _
                (explicit_extract_data-Returns (1 + p.0) (bit_and (first >> 1) 1) bit_w
                  (omega (arith, immediate_displacement-Displaces buf mode r_m bit_w p.0 p.1 e)))
                λ q _. same-Returns _)

  pub process_immediate_to_regmem_op_inst-exit_error :
      (second : ℕ)
      → buf 1 ≡ some second
      → selected_op (bit_and (second >> 3) 7) ≡ exit_error
      → process_immediate_to_regmem_op_inst buf ≡ exit_error
  unfolding process_immediate_to_regmem_op_inst
  process_immediate_to_regmem_op_inst-exit_error second at refused =
      let (first, at0) = bytes 0 (omega arith) in rw (at0, at, refused) refl

  pub process_immediate_accumulator_op_inst-Returns :
      (op_type : ℕ)
      → Returns (accumulator_op op_type)
      → Returns (process_immediate_accumulator_op_inst buf op_type)
  unfolding process_immediate_accumulator_op_inst
  process_immediate_accumulator_op_inst-Returns op_type known =
      reading-Returns 0 _ (omega arith) λ first. >>=-Returns _ _ known λ op _.
        >>=-Returns _ _ (extract_data-Returns 0 (bit_and first 1) (omega arith))
          λ p _. same-Returns _

  pub process_jump_op_inst-Returns :
      (op_type : ℕ)
      → Returns (named_op jump_ops op_type)
      → Returns (process_jump_op_inst buf op_type)
  unfolding process_jump_op_inst
  process_jump_op_inst-Returns op_type known =
      >>=-Returns _ _ known
        λ op _. >>=-Returns _ _ (extract_data-Returns 0 0 (omega arith)) λ p _. same-Returns _

  with_displacement-Returns : (f : Regmem) (is_wide : ℕ) → Returns (with_displacement f buf is_wide)
  unfolding with_displacement
  with_displacement-Returns f is_wide =
      >>=-Returns _ _ (extract_displacement-Returns 1 is_wide (omega arith)) λ p _. same-Returns _

  regmem_mod-Returns : (f : Regmem) (mode : ℕ) → Returns (regmem_mod f buf mode)
  unfolding regmem_mod no_displacement
  regmem_mod-Returns f mode =
      if-Returns (mode == 0) _ _
        (if-Returns (f.r_m == 6) _ _
          (>>=-Returns _ _ (extract_displacement-Returns 1 f.bit_w (omega arith))
            λ p _. same-Returns _)
          (same-Returns _))
        (if-Returns (mode == 1) _ _ (with_displacement-Returns f 0)
          (if-Returns (mode == 2) _ _ (with_displacement-Returns f 1) (same-Returns _)))

  pub process_regmem_tpo_reg_op_inst-Returns :
      (op_type : ℕ)
      → Returns (regmem_op op_type)
      → Returns (process_regmem_tpo_reg_op_inst buf op_type)
  unfolding process_regmem_tpo_reg_op_inst
  process_regmem_tpo_reg_op_inst-Returns op_type known = >>=-Returns _ _ known λ op _.
      reading-Returns 0 _ (omega arith) λ first. reading-Returns 1 _ (omega arith) λ second.
        regmem_mod-Returns (regmem_fields op_type op.0 op.1 first second) (bit_and (second >> 6) 3)
