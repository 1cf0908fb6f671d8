-- ===== src/Standalone/Agreement/Short.antt =====
-- The forms without a register byte, in both decoders: jumps, loops, and the accumulator.
use Prim.Native.String.{String}
use computer_enhance.Shared.{
  ℕ, ◌^◌, ◌≡◌, ◌<◌, Bool, true, false, List, [], ◌∷◌, ◌++◌, length, ok, if◌then◌else◌,
}
use computer_enhance.Decoder.Types.{DecodedInstruction, register_index}
use computer_enhance.Decoder.Maps.{register_name}
use computer_enhance.Decoder.Print.{text, number}
use computer_enhance.Decoder.Encoding.Manual.{
  Code, b000, any_register, word_register, byte_register, extended, short,
}
use computer_enhance.Decoder.Encoding.Jumps.{
  Jump, jo, jno, jb, jnb, je, jnz, jbe, ja, js, jns, jp, jnp, jl, jnl, jle, jg, loopnz, loopz, loop,
  jcxz, opcode, operation, jump-Decodes,
}
use computer_enhance.Decoder.Encoding.Accumulator.{
  Short, load_immediate, load_accumulator, store_accumulator, with_accumulator, Arithmetic, add,
  sub, cmp, IsShort, short_bytes, short_line, short-Decodes,
}
use computer_enhance.Decoder.Encoding.Bits.{sign_extend-extended, join_bytes-word}
use computer_enhance.Standalone.Extract.{Line, register_map}
use computer_enhance.Standalone.Agreement.Text.{name_of, joined, printed, Agrees}

unfoldable pub jump_text : Jump → String
jump_text jo = "jo"
jump_text jno = "jno"
jump_text jb = "jb"
jump_text jnb = "jnb"
jump_text je = "je"
jump_text jnz = "jnz"
jump_text jbe = "jbe"
jump_text ja = "ja"
jump_text js = "js"
jump_text jns = "jns"
jump_text jp = "jp"
jump_text jnp = "jnp"
jump_text jl = "jl"
jump_text jnl = "jnl"
jump_text jle = "jle"
jump_text jg = "jg"
jump_text loopnz = "loopnz"
jump_text loopz = "loopz"
jump_text loop = "loop"
jump_text jcxz = "jcxz"

jump-Prints :
    (j : Jump) (offset : ℕ) (rest : List ℕ)
    → printed (opcode j ∷ offset ∷ rest)
      ≡ ok (2, text (jump_text j) ∷ text " " ∷ number (extended offset) ∷ [])
unfolding printed opcode jump_text
jump-Prints jo offset rest = simp sign_extend-extended
jump-Prints _ offset rest = simp sign_extend-extended

pub jump-Agrees :
    (j : Jump) (offset : ℕ) (rest : List ℕ) (old : DecodedInstruction)
    → offset < 256
    → Agrees
        (opcode j ∷ offset ∷ [])
        rest
        old
        (short (operation j) (extended offset))
        (text (jump_text j) ∷ text " " ∷ number (extended offset) ∷ [])
jump-Agrees j offset rest old h = (jump-Decodes j offset rest old h, jump-Prints j offset rest)

unfoldable pub arithmetic_text : Arithmetic → String
arithmetic_text add = "add"
arithmetic_text sub = "sub"
arithmetic_text cmp = "cmp"

abbrev value_of : Bool → ℕ → ℕ
value_of w v = if w then v else extended v

-- The accumulator is in capitals behind ADD, SUB and CMP, and a word for MOV.
unfoldable pub short_text : Short → Line
unfolding arithmetic_text word_register byte_register register_name register_index
short_text (load_immediate w r v) =
    joined "mov" "," (text (name_of (any_register w r)) ∷ []) (number (value_of w v) ∷ [])
short_text (load_accumulator w a) = text "mov ax, [ " ∷ number a ∷ text " ]" ∷ []
short_text (store_accumulator w a) = text "mov [ " ∷ number a ∷ text " ], ax" ∷ []
short_text (with_accumulator op w v) =
    joined (arithmetic_text op) ", " (text (if w then "AX" else "AL") ∷ [])
      (number (value_of w v) ∷ [])

-- The accumulator moves as a word.
abbrev pub IsCommonShort : Short → Type 0
IsCommonShort (load_accumulator w a) = (a < 2 ^ 16) × (w ≡ true)
IsCommonShort form = IsShort form

ruleset rules = (sign_extend-extended, join_bytes-word)

module _ (rest : List ℕ) where
  abbrev Prints : Short → Type 0
  Prints form = printed (short_bytes form ++ rest) ≡ ok (length (short_bytes form), short_text form)

  load-Prints : (w : Bool) (r : Code) (v : ℕ) → Prints (load_immediate w r v)
  unfolding printed short_bytes short_text register_map
  load-Prints true b000 v = simp rules
  load-Prints false b000 v = simp rules
  load-Prints true _ v = simp rules
  load-Prints false _ v = simp rules

  with-Prints : (op : Arithmetic) (w : Bool) (v : ℕ) → Prints (with_accumulator op w v)
  unfolding printed short_bytes short_text
  with-Prints add true v = simp rules
  with-Prints add false v = simp rules
  with-Prints _ true v = simp rules
  with-Prints _ false v = simp rules

  accumulator-Prints :
      (a : ℕ) → Prints (load_accumulator true a) × Prints (store_accumulator true a)
  unfolding printed short_bytes short_text
  accumulator-Prints a = (simp rules, simp rules)

pub short-Agrees :
    (form : Short) (rest : List ℕ) (old : DecodedInstruction)
    → IsCommonShort form
    → Agrees (short_bytes form) rest old (short_line form) (short_text form)
short-Agrees (load_immediate w r v) rest old h =
    (short-Decodes (load_immediate w r v) rest old h, load-Prints rest w r v)
short-Agrees (load_accumulator true a) rest old h =
    (short-Decodes (load_accumulator true a) rest old h.0, (accumulator-Prints rest a).0)
short-Agrees (load_accumulator false a) rest old h = absurd (cc (h.1))
short-Agrees (store_accumulator true a) rest old h =
    (short-Decodes (store_accumulator true a) rest old h, (accumulator-Prints rest a).1)
short-Agrees (store_accumulator false a) rest old h = absurd (cc (h.1))
short-Agrees (with_accumulator op w v) rest old h =
    (short-Decodes (with_accumulator op w v) rest old h, with-Prints rest op w v)
