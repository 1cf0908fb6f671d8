-- ===== src/Simulator/Registers.antt =====
-- The registers as the 8086 has them: eight words, four of them with a name for each half.
use computer_enhance.Shared.{
  ℕ, ◌+◌, ◌*◌, ◌/◌, ◌%◌, ◌^◌, ◌<◌, ◌≡◌, refl, true, if◌then◌else◌, ok, arith, get_or, [], ◌∷◌, sym,
  ap, ◌∙◌, ==_iff, Bool-cases, inl, inr,
}
use computer_enhance.Shared.Bytes.{
  bit_or_join, bit_and_low_byte, bit_and_high_byte, bit_and_word, bit_and_shifted,
  bit_or_join_flipped, zero-bit_or,
}
use computer_enhance.Shared.Bits.{bit_and-zero}
use computer_enhance.Decoder.Types.{
  Register, reg_ax, reg_al, reg_ah, reg_bx, reg_bl, reg_bh, reg_cx, reg_cl, reg_ch, reg_dx, reg_dl,
  reg_dh, reg_sp, reg_bp, reg_si, reg_di, max_reg, eq_register, register_index,
}
use computer_enhance.Simulator.Machine.{
  Machine, RegDefinition, reg_item_map, read_register, merged, write_register, set_register,
}

pub data Part : Type 0 where
  whole low high : Part

-- Which word a name belongs to, and which part of it.
unfoldable pub word_of : Register → Register
word_of reg_al = reg_ax
word_of reg_ah = reg_ax
word_of reg_bl = reg_bx
word_of reg_bh = reg_bx
word_of reg_cl = reg_cx
word_of reg_ch = reg_cx
word_of reg_dl = reg_dx
word_of reg_dh = reg_dx
word_of r = r

unfoldable pub part_of : Register → Part
part_of reg_al = low
part_of reg_bl = low
part_of reg_cl = low
part_of reg_dl = low
part_of reg_ah = high
part_of reg_bh = high
part_of reg_ch = high
part_of reg_dh = high
part_of _ = whole

-- The value of a part, and the word after a part is replaced.
abbrev pub get_part : Part → ℕ → ℕ
get_part whole word = word
get_part low word = word % 256
get_part high word = word / 256

abbrev pub put_part : Part → ℕ → ℕ → ℕ
put_part whole word value = value
put_part low word value = word / 256 * 256 + value % 256
put_part high word value = value % 256 * 256 + word % 256

abbrev pub HasWords : Machine → Type 0
HasWords m = (r : Register) → m.registers r < 2 ^ 16

item_of : Part → Register → RegDefinition
item_of whole r = record { reg = r; mask = 0xffff; shift = 0 }
item_of low r = record { reg = r; mask = 0x00ff; shift = 0 }
item_of high r = record { reg = r; mask = 0xff00; shift = 8 }

reg_item_map-item_of :
    (r : Register) {d : RegDefinition} → reg_item_map r ≡ ok d → d ≡ item_of (part_of r) (word_of r)
unfolding reg_item_map item_of part_of word_of
reg_item_map-item_of max_reg e = absurd (cc)
reg_item_map-item_of _ e = cc

read-item_of :
    (p : Part) (r : Register) (m : Machine)
    → m.registers r < 2 ^ 16
    → read_register m (item_of p r) ≡ get_part p (m.registers r)
unfolding read_register item_of
read-item_of whole r m h = omega (arith, bit_and_word (m.registers r) h)
read-item_of low r m h = omega (arith, bit_and_low_byte (m.registers r))
read-item_of high r m h = omega (arith, bit_and_high_byte (m.registers r) h)

-- A register read is its part of the word that holds it.
pub read_register_lem :
    (r : Register) (m : Machine) {d : RegDefinition}
    → reg_item_map r ≡ ok d
    → HasWords m
    → read_register m d ≡ get_part (part_of r) (m.registers (word_of r))
read_register_lem r m hd words =
    rw (reg_item_map-item_of r hd) (read-item_of (part_of r) (word_of r) m (words (word_of r)))

get_part-lt : (p : Part) (word : ℕ) → word < 2 ^ 16 → get_part p word < 2 ^ 16
get_part-lt whole word h = h
get_part-lt low word h = omega arith
get_part-lt high word h = omega arith

pub read_register-lt :
    (r : Register) (m : Machine) {d : RegDefinition}
    → reg_item_map r ≡ ok d
    → HasWords m
    → read_register m d < 2 ^ 16
read_register-lt r m hd words =
    rw (read_register_lem r m hd words) (get_part-lt (part_of r) _ (words (word_of r)))

merged-item_of :
    (p : Part) (r : Register) (old value : ℕ)
    → old < 2 ^ 16
    → value < 2 ^ 16
    → merged old (item_of p r) value ≡ put_part p old value
unfolding merged item_of
merged-item_of whole r old value ho hv =
    ground (arith, bit_and-zero old, bit_and_word value hv, zero-bit_or value)
merged-item_of low r old value ho hv =
    ground (
      arith,
      bit_and_high_byte old ho,
      bit_and_low_byte value,
      bit_or_join (old / 256) (value % 256),
    )
merged-item_of high r old value ho hv = ground (
  arith,
  bit_and_low_byte old,
  bit_and_shifted value,
  bit_or_join_flipped (value % 256) (old % 256),
)

constant : ℕ → Register
constant i =
    get_or
      (reg_ax ∷ reg_al ∷ reg_ah ∷ reg_bx ∷ reg_bl ∷ reg_bh ∷ reg_cx ∷ reg_cl ∷ reg_ch ∷ reg_dx
        ∷ reg_dl ∷ reg_dh ∷ reg_sp ∷ reg_bp ∷ reg_si ∷ reg_di ∷ [])
      i max_reg

constant-register_index : (r : Register) → constant (register_index r) ≡ r
unfolding constant register_index
constant-register_index reg_ax = refl
constant-register_index _ = refl

pub eq_register→eq : (r s : Register) → eq_register r s ≡ true → r ≡ s
unfolding eq_register
eq_register→eq r s h =
    sym (constant-register_index r)
    ∙ ap constant ((==_iff (register_index r) (register_index s)).0 h)
    ∙ constant-register_index s

put_part-lt :
    (p : Part) (old value : ℕ) → old < 2 ^ 16 → value < 2 ^ 16 → put_part p old value < 2 ^ 16
put_part-lt whole old value ho hv = hv
put_part-lt low old value ho hv = omega arith
put_part-lt high old value ho hv = omega arith

item_of-reg : (p : Part) (r : Register) → (item_of p r).reg ≡ r
unfolding item_of
item_of-reg whole r = refl
item_of-reg low r = refl
item_of-reg high r = refl

written :
    (r : Register) (p : Part) (m : Machine) (value : ℕ)
    → HasWords m
    → value < 2 ^ 16
    → (write_register m (item_of p r) value)
      ≡ record m { registers = set_register m.registers r (put_part p (m.registers r) value) }
unfolding write_register
written r p m value words hv =
    simp (item_of-reg p r, merged-item_of p r (m.registers r) value (words r) hv)

-- What a write makes of the machine.
pub write_register_lem :
    (r : Register) (m : Machine) (value : ℕ) {d : RegDefinition}
    → reg_item_map r ≡ ok d
    → HasWords m
    → value < 2 ^ 16
    → write_register m d value ≡ record m {
      registers =
          set_register m.registers
            (word_of r)
            (put_part (part_of r) (m.registers (word_of r)) value);
    }
write_register_lem r m value hd words hv =
    rw (reg_item_map-item_of r hd) (written (word_of r) (part_of r) m value words hv)

-- The words stay words.
pub write-HasWords :
    (r : Register) (m : Machine) (value : ℕ) {d : RegDefinition}
    → reg_item_map r ≡ ok d
    → HasWords m
    → value < 2 ^ 16
    → HasWords (write_register m d value)
write-HasWords r m value hd words hv s =
    rw (reg_item_map-item_of r hd, written (word_of r) (part_of r) m value words hv)
      (ground (
        arith,
        words s,
        words (word_of r),
        put_part-lt (part_of r) (m.registers (word_of r)) value,
      ))

-- Writing a register of either width and reading one back: the word that holds both names is changed
-- in the part written and nowhere else, and every other word is unchanged.
pub write-read :
    (r s : Register) (m : Machine) (value : ℕ) {d e : RegDefinition}
    → reg_item_map r ≡ ok d
    → reg_item_map s ≡ ok e
    → HasWords m
    → value < 2 ^ 16
    → read_register (write_register m d value) e
      ≡ get_part (part_of s) (
          if eq_register (word_of r) (word_of s)
          then put_part (part_of r) (m.registers (word_of s)) value
          else m.registers (word_of s))
write-read r s m value hd he words hv =
    let m' : Machine = record m {
      registers =
          set_register m.registers (word_of r)
            (put_part (part_of r) (m.registers (word_of r)) value);
    } in
    let bound : m'.registers (word_of s) < 2 ^ 16 = ground (
      arith,
      words (word_of s),
      words (word_of r),
      put_part-lt (part_of r) (m.registers (word_of r)) value,
    ) in
    rw
      (
        reg_item_map-item_of r hd,
        reg_item_map-item_of s he,
        written (word_of r) (part_of r) m value words hv,
        read-item_of (part_of s) (word_of s) m' bound,
      )
      (elim (Bool-cases (eq_register (word_of r) (word_of s))) [
        | inl same ↦ rw (same, eq_register→eq (word_of r) (word_of s) same)
        | inr other ↦ rw other
      ])
