-- ===== src/Decoder/Locality/Extracted.antt =====
-- The extract functions of libdecoder_8086/libdecoder.c: the bytes that they read.
use computer_enhance.Shared.{ℕ, ◌+◌, ◌≤◌, ◌≡◌, Bool, true, false, Outcome, ok, arith}
use computer_enhance.Decoder.Extract.{
  Buffer, extract_displacement, extract_direct_address, extract_data,
}

-- The buffers agree up to the offset `last`.
abbrev pub SameUpTo : ℕ → Buffer → Buffer → Type 0
SameUpTo last buf buf' = (i : ℕ) → i ≤ last → buf i ≡ buf' i

-- What is read at `ptr` and consumes `n` bytes is read alike from any buffer with the same bytes.
abbrev pub ReadsUpTo : (Buffer → ℕ → Outcome (ℕ × ℕ)) → Type 0
ReadsUpTo extract =
    (buf buf' : Buffer) (ptr n v : ℕ)
    → extract buf ptr ≡ ok (n, v)
    → SameUpTo (ptr + n) buf buf'
    → extract buf' ptr ≡ ok (n, v)

pub extract_displacement-ReadsUpTo :
    (w : Bool) → ReadsUpTo (λ buf ptr. extract_displacement buf ptr w)
unfolding extract_displacement
extract_displacement-ReadsUpTo false buf buf' ptr n v e same = ground (arith, same (ptr + 1))
extract_displacement-ReadsUpTo true buf buf' ptr n v e same =
    ground (arith, same (ptr + 1), same (ptr + 2))

pub extract_direct_address-ReadsUpTo : ReadsUpTo extract_direct_address
unfolding extract_direct_address
extract_direct_address-ReadsUpTo buf buf' ptr n v e same =
    ground (arith, same (ptr + 1), same (ptr + 2))

pub extract_data-ReadsUpTo : (b s : Bool) → ReadsUpTo (λ buf ptr. extract_data buf ptr b s)
unfolding extract_data
extract_data-ReadsUpTo true s buf buf' ptr n v e same = ground (arith, same (ptr + 1))
extract_data-ReadsUpTo false s buf buf' ptr n v e same =
    ground (arith, same (ptr + 1), same (ptr + 2))

-- One or two bytes are consumed.
abbrev pub TakesAtMostTwo : (Buffer → ℕ → Outcome (ℕ × ℕ)) → Type 0
TakesAtMostTwo extract =
    (buf : Buffer) (ptr n v : ℕ) → extract buf ptr ≡ ok (n, v) → (1 ≤ n) × (n ≤ 2)

pub extract_displacement-TakesAtMostTwo :
    (w : Bool) → TakesAtMostTwo (λ buf ptr. extract_displacement buf ptr w)
unfolding extract_displacement
extract_displacement-TakesAtMostTwo false buf ptr n v e = ground arith
extract_displacement-TakesAtMostTwo true buf ptr n v e = ground arith

pub extract_direct_address-TakesAtMostTwo : TakesAtMostTwo extract_direct_address
unfolding extract_direct_address
extract_direct_address-TakesAtMostTwo buf ptr n v e = ground arith

pub extract_data-TakesAtMostTwo :
    (b s : Bool) → TakesAtMostTwo (λ buf ptr. extract_data buf ptr b s)
unfolding extract_data
extract_data-TakesAtMostTwo true s buf ptr n v e = ground arith
extract_data-TakesAtMostTwo false s buf ptr n v e = ground arith
