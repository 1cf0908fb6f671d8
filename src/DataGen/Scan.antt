-- ===== src/DataGen/Scan.antt =====
-- data_gen/json_data_parser.c: advance_until, find_string and extract_until, on the bytes that are left
-- (file_data_ptr with file_data_remaining).
use computer_enhance.Shared.{
  ℕ, zero, suc, ◌==◌, Bool, true, false, if◌then◌else◌, List, [], ◌∷◌, length, ltb, Outcome, ok,
  exit_error, out_of_bounds, ◌>>=◌,
}

-- Whether the target was found, and the bytes behind it.
unfoldable pub advance_until : ℕ → List ℕ → Bool × List ℕ
advance_until target [] = (false, [])
advance_until target (b ∷ input) = if b == target then (true, input) else advance_until target input

-- The characters of the string one after the other, with anything between them.
unfoldable pub find_string : List ℕ → List ℕ → Bool × List ℕ
find_string [] input = (true, input)
find_string (c ∷ string) input =
    let (found, rest) = advance_until c input in
    let further = find_string string rest in if found then further else (false, rest)

-- The characters before the target and the bytes behind it, with room for so many characters. At the
-- end of the input what was read stays in the buffer.
unfoldable pub extract_until : ℕ → ℕ → List ℕ → Outcome (List ℕ × List ℕ)
extract_until room target [] = ok ([], [])
extract_until room target (b ∷ input) = if b == target then ok ([], input) else (elim room [
  | zero ↦ exit_error
  | suc less ↦ (do (buffer, rest) ← extract_until less target input; ok (b ∷ buffer, rest))
])

-- A buffer as a C string: up to its first NUL.
unfoldable pub c_string : List ℕ → List ℕ
c_string [] = []
c_string (b ∷ buffer) = let rest = c_string buffer in if b == 0 then [] else b ∷ rest

-- A C string in a buffer of a size: the bytes behind the buffer would be read if no NUL ends it.
unfoldable pub terminated : ℕ → List ℕ → Outcome (List ℕ)
unfolding c_string
terminated size buffer =
    if ltb (length (c_string buffer)) size then ok (c_string buffer) else out_of_bounds
