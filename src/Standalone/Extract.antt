-- ===== src/Standalone/Extract.antt =====
-- decoder_8086/decoder.c: the tables of names and the three extract functions. The buffer of a handler
-- begins at its `ptr`; a position is the offset from there.
use Prim.Native.String.{String}
use computer_enhance.Shared.{
  ℕ, ◌+◌, List, [], ◌∷◌, Outcome, ok, ◌>>=◌, get_or, ◌==◌, if◌then◌else◌, bit_or, ◌<<◌,
}
use computer_enhance.Decoder.Extract.{Buffer, read_byte, sign_extend, join_bytes}
use computer_enhance.Decoder.Print.{Piece, text, number}

-- A line of the output, as the strings and numbers that its format joins.
abbrev pub Line : Type 0
Line = List Piece

-- register_map[i][w]
unfoldable pub register_map : ℕ → ℕ → String
register_map i w =
    get_or
      (get_or
        (("al" ∷ "ax" ∷ [])
          ∷ ("cl" ∷ "cx" ∷ [])
          ∷ ("dl" ∷ "dx" ∷ [])
          ∷ ("bl" ∷ "bx" ∷ [])
          ∷ ("ah" ∷ "sp" ∷ [])
          ∷ ("ch" ∷ "bp" ∷ [])
          ∷ ("dh" ∷ "si" ∷ [])
          ∷ ("bh" ∷ "di" ∷ [])
          ∷ [])
        i [])
      w ""

unfoldable pub mov_source_effective_address : ℕ → String
mov_source_effective_address i =
    get_or ("bx + si" ∷ "bx + di" ∷ "bp + si" ∷ "bp + di" ∷ "si" ∷ "di" ∷ "bp" ∷ "bx" ∷ []) i ""

unfoldable pub segment_register_map : ℕ → String
segment_register_map i = get_or ("es" ∷ "cs" ∷ "ss" ∷ "ds" ∷ []) i ""

-- The bytes consumed, with the displacement.
unfoldable pub extract_displacement : Buffer → ℕ → ℕ → Outcome (ℕ × ℕ)
extract_displacement buf ptr bit_w = do
  displacement_low ← read_byte buf (ptr + 1)
  if bit_w == 0 then ok (1, sign_extend displacement_low) else (do
    displacement_high ← read_byte buf (ptr + 2)
    ok (2, join_bytes displacement_high displacement_low))

unfoldable pub extract_data : Buffer → ℕ → ℕ → Outcome (ℕ × ℕ)
extract_data buf ptr bit_w = do
  data_low ← read_byte buf (ptr + 1)
  if bit_w == 0
      then ok (1, sign_extend data_low)
      else (do data_high ← read_byte buf (ptr + 2); ok (2, join_bytes data_high data_low))

-- The switch over (bit_s << 1) | bit_w, which has no default: 2 and 3 are what is left of it.
unfoldable pub explicit_extract_data : Buffer → ℕ → ℕ → ℕ → Outcome (ℕ × ℕ)
explicit_extract_data buf ptr bit_s bit_w = do
  data_low ← read_byte buf (ptr + 1)
  let op = bit_or (bit_s << 1) bit_w
  if op == 0
      then ok (1, data_low)
      else if op == 1
      then (do data_high ← read_byte buf (ptr + 2); ok (2, join_bytes data_high data_low))
      else ok (1, sign_extend data_low)

-- "[%s]", or "[%s + %d]" unless the displacement is 0.
unfoldable pub address_text : String → ℕ → Line
address_text base displacement =
    if displacement == 0
    then text "[" ∷ text base ∷ text "]" ∷ []
    else text "[" ∷ text base ∷ text " + " ∷ number displacement ∷ text "]" ∷ []
