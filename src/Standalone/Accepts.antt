-- ===== src/Standalone/Accepts.antt =====
-- decoder_8086/decoder.c: which instructions main accepts, against the library's opcodes.
use computer_enhance.Shared.{
  ℕ, ◌/◌, ◌%◌, ◌≤◌, ◌<◌, ◌≡◌, refl, ◌⊎◌, inl, inr, Bool, true, false, not, ◌&&◌, ◌||◌, ◌==◌,
  if◌then◌else◌, Bool-cases, some, Outcome, ok, exit_error, out_of_bounds, ◌∙◌, bit_and, ◌>>◌,
  passes_below, agree_below, arith,
}
use Prim.Native.String.{String}
use computer_enhance.Decoder.Extract.{Buffer}
use computer_enhance.Decoder.Totality.{is_supported}
use computer_enhance.Decoder.Totality.Stages.{HasBytes}
use computer_enhance.Standalone.Extract.{Line}
use computer_enhance.Standalone.Regmem.{regmem_op}
use computer_enhance.Standalone.Operations.{selected_op, accumulator_op, named_op, jump_ops}
use computer_enhance.Standalone.Main.{
  Handler, mov_immediate_to_register_memory, mov_immediate_to_register, immediate_to_regmem,
  regmem_reg, mov_accumulator, immediate_accumulator, jump_op, not_recognized, process, handler,
  process_instruction,
}
use computer_enhance.Standalone.Reach.{process_instruction-Reaches}
use computer_enhance.Standalone.Returning.{
  Returns, returns, returns-Returns, process_mov_accumulator_inst-Returns,
  process_mov_immediate_to_register-Returns, process_mov_immediate_to_register_memory-Returns,
  process_immediate_to_regmem_op_inst-Returns, process_immediate_to_regmem_op_inst-exit_error,
  process_immediate_accumulator_op_inst-Returns, process_jump_op_inst-Returns,
  process_regmem_tpo_reg_op_inst-Returns,
}

-- The opcodes 80 to 83 hold ADD, SUB or CMP in the middle field of the second byte.
abbrev pub is_selected : ℕ → Bool
is_selected second = second / 8 % 8 == 0 || second / 8 % 8 == 5 || second / 8 % 8 == 7

abbrev pub accepts : ℕ → ℕ → Bool
accepts first second = is_supported first && (not (first / 4 == 32) || is_selected second)

-- 0 for an unknown byte, 1 where the second byte decides, 2 for a handler that knows its op_type.
abbrev class : Handler → ℕ
class mov_immediate_to_register_memory = 2
class mov_immediate_to_register = 2
class immediate_to_regmem = 1
class (regmem_reg op_type) = if returns (regmem_op op_type) then 2 else 3
class (mov_accumulator op_type) = 2
class (immediate_accumulator op_type) = if returns (accumulator_op op_type) then 2 else 3
class (jump_op op_type) = if returns (named_op jump_ops op_type) then 2 else 3
class not_recognized = 0

abbrev class_of : ℕ → ℕ
class_of b = if is_supported b then (if b / 4 == 32 then 1 else 2) else 0

handler-class : (b : ℕ) → b < 256 → class (handler b) ≡ class_of b
unfolding passes_below handler regmem_op accumulator_op named_op
handler-class = agree_below 256 (λ b. class (handler b)) (λ b. class_of b) refl

abbrev ending : Outcome String → ℕ
ending (ok op) = 1
ending exit_error = 0
ending out_of_bounds = 2

selected_ending :
    (b : ℕ) → b < 256 → ending (selected_op (bit_and (b >> 3) 7)) ≡ (if is_selected b then 1 else 0)
unfolding passes_below selected_op
selected_ending =
    agree_below 256 (λ b. ending (selected_op (bit_and (b >> 3) 7)))
      (λ b. if is_selected b then 1 else 0) refl

ending-Returns : (o : Outcome String) → ending o ≡ 1 → Returns o
ending-Returns (ok op) e = (op, refl)
ending-Returns exit_error e = absurd (omega (arith, e))
ending-Returns out_of_bounds e = absurd (omega (arith, e))

ending-exit_error : (o : Outcome String) → ending o ≡ 0 → o ≡ exit_error
ending-exit_error (ok op) e = absurd (omega (arith, e))
ending-exit_error exit_error e = refl
ending-exit_error out_of_bounds e = absurd (omega (arith, e))

module _ (buf : Buffer) (bytes : HasBytes buf) where
  process-Returns : (h : Handler) → class h ≡ 2 → Returns (process h buf)
  unfolding process
  process-Returns mov_immediate_to_register_memory known =
      process_mov_immediate_to_register_memory-Returns buf bytes
  process-Returns mov_immediate_to_register known =
      process_mov_immediate_to_register-Returns buf bytes
  process-Returns immediate_to_regmem known = absurd (omega (arith, known))
  process-Returns (regmem_reg op_type) known =
      process_regmem_tpo_reg_op_inst-Returns buf bytes op_type
        (returns-Returns (regmem_op op_type) (ground (arith, known)))
  process-Returns (mov_accumulator op_type) known =
      process_mov_accumulator_inst-Returns buf bytes op_type
  process-Returns (immediate_accumulator op_type) known =
      process_immediate_accumulator_op_inst-Returns buf bytes op_type
        (returns-Returns (accumulator_op op_type) (ground (arith, known)))
  process-Returns (jump_op op_type) known =
      process_jump_op_inst-Returns buf bytes op_type
        (returns-Returns (named_op jump_ops op_type) (ground (arith, known)))
  process-Returns not_recognized known = absurd (omega (arith, known))

  process-unknown : (h : Handler) → class h ≡ 0 → process h buf ≡ exit_error
  unfolding process
  process-unknown mov_immediate_to_register_memory e = absurd (omega (arith, e))
  process-unknown mov_immediate_to_register e = absurd (omega (arith, e))
  process-unknown immediate_to_regmem e = absurd (omega (arith, e))
  process-unknown (regmem_reg op_type) e = absurd (ground (arith, e))
  process-unknown (mov_accumulator op_type) e = absurd (omega (arith, e))
  process-unknown (immediate_accumulator op_type) e = absurd (ground (arith, e))
  process-unknown (jump_op op_type) e = absurd (ground (arith, e))
  process-unknown not_recognized e = refl

  process-selecting : (h : Handler) → class h ≡ 1 → h ≡ immediate_to_regmem
  process-selecting mov_immediate_to_register_memory e = absurd (omega (arith, e))
  process-selecting mov_immediate_to_register e = absurd (omega (arith, e))
  process-selecting immediate_to_regmem e = refl
  process-selecting (regmem_reg op_type) e = absurd (ground (arith, e))
  process-selecting (mov_accumulator op_type) e = absurd (omega (arith, e))
  process-selecting (immediate_accumulator op_type) e = absurd (ground (arith, e))
  process-selecting (jump_op op_type) e = absurd (ground (arith, e))
  process-selecting not_recognized e = absurd (omega (arith, e))

  -- What is known of a handler of `first` in front of `second`.
  abbrev Decided : Bool → Handler → Type 0
  Decided accepted h =
      ((accepted ≡ true) × Returns (process h buf))
      ⊎ ((accepted ≡ false) × (process h buf ≡ exit_error))

  process-Decided :
      (first second : ℕ)
      → buf 1 ≡ some second
      → first < 256
      → second < 256
      → Decided (accepts first second) (handler first)
  unfolding process
  process-Decided first second at h1 h2 = elim (Bool-cases (is_supported first)) [
    | inr unknown ↦ inr (
      ground (arith, unknown),
      process-unknown (handler first) (ground (arith, handler-class first h1, unknown)),
    )
    | inl known ↦ elim (Bool-cases (first / 4 == 32)) [
      | inr plain ↦ inl (
        ground (arith, known, plain),
        process-Returns (handler first) (ground (arith, handler-class first h1, known, plain)),
      )
      | inl selecting ↦
          let is_immediate =
            process-selecting (handler first)
              (ground (arith, handler-class first h1, known, selecting)) in
          elim (Bool-cases (is_selected second)) [
            | inl chosen ↦ rw is_immediate (
                inl (
                  ground (arith, known, chosen),
                  process_immediate_to_regmem_op_inst-Returns buf bytes second at
                      (ending-Returns _ (ground (arith, selected_ending second h2, chosen))),
                ))
            | inr other ↦ rw is_immediate (
                inr (
                  ground (arith, selecting, other),
                  process_immediate_to_regmem_op_inst-exit_error buf bytes second at
                      (ending-exit_error _ (ground (arith, selected_ending second h2, other))),
                ))
          ]
    ]
  ]

-- On six readable bytes main either prints a line, having consumed one to six of them, or ends in its
-- error. It prints exactly where the first byte is an opcode that the library supports and, for the
-- opcodes 80 to 83, the second byte selects ADD, SUB or CMP.
pub process_instruction-accepts :
    (buf : Buffer) (first second : ℕ)
    → HasBytes buf
    → buf 0 ≡ some first
    → buf 1 ≡ some second
    → first < 256
    → second < 256
    → ((accepts first second ≡ true)
        × ((n : ℕ) × (line : Line) × (process_instruction buf ≡ ok (n, line)) × (1 ≤ n) × (n ≤ 6)))
      ⊎ ((accepts first second ≡ false) × (process_instruction buf ≡ exit_error))
process_instruction-accepts buf first second bytes at0 at1 h1 h2 =
    let chosen : process_instruction buf ≡ process (handler first) buf =
      unfold process_instruction in rw at0 refl in
    elim (process-Decided buf bytes first second at1 h1 h2) [
      | inl (accepted, ((n, line), e)) ↦
          let reached = process_instruction-Reaches buf n line (chosen ∙ e) in
          inl (accepted, (n, line, chosen ∙ e, reached.some_bytes, reached.at_most_six))
      | inr (refused, e) ↦ inr (refused, chosen ∙ e)
    ]
