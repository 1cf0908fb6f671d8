-- ===== src/Decoder/Extract.antt =====
-- libdecoder_8086/libdecoder.c: extract_displacement, extract_direct_address and extract_data.
-- `buf i` is the byte at offset i of the buffer, `none` past its end. A position is the offset of
-- `ptr`; each function reads from the byte behind it and returns the value with the bytes consumed.
use computer_enhance.Shared.{ℕ, ◌+◌, Bool, true, false, Option, Outcome, ok, access, ◌>>=◌}
use computer_enhance.Shared.{◌==◌, if◌then◌else◌, bit_or, ◌<<◌, ◌>>◌}

abbrev pub Buffer : Type 0
Buffer = ℕ → Option ℕ

-- *ptr
abbrev pub read_byte : Buffer → ℕ → Outcome ℕ
read_byte buf i = access (buf i)

-- An 8-bit value as an int16_t: the upper byte is set when the sign bit is.
unfoldable pub sign_extend : ℕ → ℕ
sign_extend b = if (b >> 7) == 1 then bit_or (0xff << 8) b else b

-- (high << 8) | low
unfoldable pub join_bytes : ℕ → ℕ → ℕ
join_bytes high low = bit_or (high << 8) low

unfoldable pub extract_displacement : Buffer → ℕ → Bool → Outcome (ℕ × ℕ)
extract_displacement buf ptr false = do low ← read_byte buf (ptr + 1); ok (1, sign_extend low)
extract_displacement buf ptr true = do
  low ← read_byte buf (ptr + 1)
  high ← read_byte buf (ptr + 2)
  ok (2, join_bytes high low)

unfoldable pub extract_direct_address : Buffer → ℕ → Outcome (ℕ × ℕ)
extract_direct_address buf ptr = do
  low ← read_byte buf (ptr + 1)
  high ← read_byte buf (ptr + 2)
  ok (2, join_bytes high low)

unfoldable pub extract_data : Buffer → ℕ → Bool → Bool → Outcome (ℕ × ℕ)
extract_data buf ptr true is_signed_extended = do
  low ← read_byte buf (ptr + 1)
  ok (1, if is_signed_extended then sign_extend low else low)
extract_data buf ptr false is_signed_extended = do
  low ← read_byte buf (ptr + 1)
  high ← read_byte buf (ptr + 2)
  ok (2, join_bytes high low)
