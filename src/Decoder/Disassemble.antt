-- ===== src/Decoder/Disassemble.antt =====
-- libdecoder_8086/decoder.c: main from the fread of the file on.
pub mod Prefix
pub mod Programs
use computer_enhance.Shared.{
  ℕ, zero, suc, ◌+◌, ◌*◌, ◌-◌, length, get_elem?, ◌==◌, true, false, ltb, if◌then◌else◌, List, [],
  ◌∷◌, Option, none, some, Outcome, ok, exit_error, out_of_bounds, ◌>>=◌,
}
use computer_enhance.Decoder.Types.{DecodedInstruction}
use computer_enhance.Decoder.Extract.{Buffer}
use computer_enhance.Decoder.Parse.{decode_bitstream}
use computer_enhance.Decoder.Print.{Piece, print_decoded_instruction}

-- The buffer from a pointer on.
abbrev pub from : ℕ → Buffer → Buffer
from ptr buf i = buf (ptr + i)

-- A line of the output.
abbrev pub Line : Type 0
Line = List Piece

-- A line within the file. It is printed before an overrun is noticed.
unfoldable pub fitting_line :
    ℕ → ℕ → DecodedInstruction → Line → Outcome (ℕ × DecodedInstruction × Line)
fitting_line bytes_available consumed inst line =
    if ltb bytes_available consumed then exit_error else ok (consumed, inst, line)

unfoldable pub print_line : ℕ → ℕ × DecodedInstruction → Outcome (ℕ × DecodedInstruction × Line)
unfolding fitting_line
print_line bytes_available (consumed, inst) =
    if consumed == 0
    then exit_error
    else print_decoded_instruction inst >>= fitting_line bytes_available consumed inst

-- A round: the bytes consumed, the instruction and its line.
unfoldable pub decode_line :
    Buffer → ℕ → ℕ → DecodedInstruction → Outcome (ℕ × DecodedInstruction × Line)
unfolding print_line
decode_line buf ptr bytes_available instruction =
    decode_bitstream (from ptr buf) instruction >>= print_line bytes_available

unfoldable pub add_line : Line → Option (Outcome (List Line)) → Option (Outcome (List Line))
add_line line (some (ok lines)) = some (ok (line ∷ lines))
add_line line other = other

-- What follows a round.
unfoldable pub next_lines :
    (ℕ → DecodedInstruction → Option (Outcome (List Line)))
    → Outcome (ℕ × DecodedInstruction × Line)
    → Option (Outcome (List Line))
next_lines rest (ok (consumed, inst, line)) = add_line line (rest consumed inst)
next_lines rest exit_error = some exit_error
next_lines rest out_of_bounds = some out_of_bounds

-- `while (bytes_available > 0)`, with fuel.
unfoldable pub disassemble : ℕ → Buffer → ℕ → ℕ → DecodedInstruction → Option (Outcome (List Line))
unfolding next_lines add_line decode_line
disassemble fuel buf ptr zero instruction = some (ok [])
disassemble zero buf ptr (suc more) instruction = none
disassemble (suc fuel) buf ptr (suc more) instruction =
    next_lines (λ consumed inst. disassemble fuel buf (ptr + consumed) (suc more - consumed) inst)
      (decode_line buf ptr (suc more) instruction)

-- BUFFER_SIZE
abbrev pub buffer_size : ℕ
buffer_size = 1024 * 1024

-- `fread(buffer, 1, BUFFER_SIZE, in_fp)`: the bytes that it reads, and the buffer behind it.
unfoldable pub bytes_read : ℕ → List ℕ → List ℕ
bytes_read zero file = []
bytes_read (suc n) [] = []
bytes_read (suc n) (b ∷ file) = b ∷ bytes_read n file

unfoldable pub loaded : List ℕ → Buffer → Buffer
loaded bytes stale i = if ltb i (length bytes) then get_elem? bytes i else stale i

-- main on the bytes of a file. A round takes at least a byte, so the bytes are enough fuel.
unfoldable pub disassemble_file :
    Buffer → DecodedInstruction → List ℕ → Option (Outcome (List Line))
unfolding bytes_read loaded
disassemble_file stale instruction file =
    let bytes = bytes_read buffer_size file in
    disassemble (length bytes) (loaded bytes stale) 0 (length bytes) instruction
