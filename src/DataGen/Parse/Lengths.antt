-- ===== src/DataGen/Parse/Lengths.antt =====
-- data_gen/json_data_parser.c: how much of the input the parser's functions leave.
use computer_enhance.Shared.{
  ℕ, zero, suc, ◌≤◌, ◌<◌, ◌≡◌, ◌==◌, Bool, true, false, if◌then◌else◌, List, [], ◌∷◌, length,
  Outcome, ok, ◌>>=◌, >>=-inverse, arith, Bool-cases, inl, inr,
}
use computer_enhance.DataGen.Doubles.{Doubles}
use computer_enhance.DataGen.Items.{DataItem}
use computer_enhance.DataGen.Scan.{advance_until, extract_until, terminated, c_string}
use computer_enhance.DataGen.Parse.{
  FoundItem, identify, Flags, Row, read_number, parse_value, parse_item, next_items, parse_items,
  parse_row,
}

pub advance_until-true :
    (target : ℕ) (input rest : List ℕ)
    → advance_until target input ≡ (true, rest)
    → length rest < length input
unfolding advance_until
advance_until-true target [] rest e = absurd (cc e)
advance_until-true target (b ∷ input) rest e = elim (Bool-cases (b == target)) [
  | inl here ↦ ground (arith, here, e)
  | inr other ↦ omega (arith, advance_until-true target input rest (ground (arith, other, e)))
]

pub advance_until-le :
    (target : ℕ) (input : List ℕ) → length ((advance_until target input).1) ≤ length input
unfolding advance_until
advance_until-le target [] = omega arith
advance_until-le target (b ∷ input) = ground (arith, advance_until-le target input)

extract_until-le :
    (room target : ℕ) (input buffer rest : List ℕ)
    → extract_until room target input ≡ ok (buffer, rest)
    → length rest ≤ length input
unfolding extract_until
extract_until-le room target [] buffer rest e = ground (arith, e)
extract_until-le zero target (b ∷ input) buffer rest e = ground (arith, e)
extract_until-le (suc room) target (b ∷ input) buffer rest e = elim (Bool-cases (b == target)) [
  | inl here ↦ ground (arith, here, e)
  | inr other ↦
      let next : List ℕ × List ℕ → Outcome (List ℕ × List ℕ) = λ p. ok (b ∷ p.0, p.1) in
      let e' : extract_until room target input >>= next ≡ ok (buffer, rest) =
        ground (arith, other, e) in
      let ((before, behind), read, same) = >>=-inverse (extract_until room target input) next e' in
      let left : behind ≡ rest = ground (arith, same) in
      rw (← left) (omega (arith, extract_until-le room target input before behind read))
]

module _ (D : Doubles) where
  open D use {Double, scan}

  parse_value-le :
      (last : Bool) (item : FoundItem) (row row' : Row D) (p : Bool × List ℕ) (more : Bool)
      (rest : List ℕ)
      → parse_value D last item row p ≡ ok (more, row', rest)
      → length rest ≤ length (p.1)
  unfolding parse_value
  parse_value-le last item row row' (false, input) more rest e = ground (arith, e)
  parse_value-le last item row row' (true, input) more rest e =
      let ((buffer, behind), read, e1) =
        >>=-inverse (extract_until 64 (if last then b'}' else b',') input) _ e in
      let (text, _, e2) = >>=-inverse (terminated 64 buffer) _ e1 in
      let (value, _, e3) = >>=-inverse (read_number D (scan text)) _ e2 in
      ground (arith, extract_until-le _ _ input buffer behind read, e3)

  parse_item-le :
      (last : Bool) (row row' : Row D) (p : Bool × List ℕ) (more : Bool) (rest : List ℕ)
      → parse_item D last row p ≡ ok (more, row', rest)
      → length rest ≤ length (p.1)
  unfolding parse_item
  parse_item-le last row row' (false, input) more rest e = ground (arith, e)
  parse_item-le last row row' (true, input) more rest e =
      let ((buffer, behind), read, e1) = >>=-inverse (extract_until 8 b'"' input) _ e in
      let (item, _, e2) = >>=-inverse (identify (c_string buffer)) _ e1 in
      omega (
        arith,
        extract_until-le _ _ input buffer behind read,
        advance_until-le b':' behind,
        parse_value-le last item row row' _ more rest e2,
      )

  next_items-le :
      (left : ℕ) (more : Bool) (row row' : Row D) (input rest : List ℕ)
      → next_items D (parse_items D left) (more, row, input) ≡ ok (row', rest)
      → (parse_items D left row input ≡ ok (row', rest) → length rest ≤ length input)
      → length rest ≤ length input
  unfolding next_items
  next_items-le left true row row' input rest e further = further e
  next_items-le left false row row' input rest e further = ground (arith, e)

  parse_items-le :
      (left : ℕ) (row row' : Row D) (input rest : List ℕ)
      → parse_items D left row input ≡ ok (row', rest)
      → length rest ≤ length input
  unfolding parse_items
  parse_items-le zero row row' input rest e = ground (arith, e)
  parse_items-le (suc left) row row' input rest e =
      let ((more, row1, behind), read, e1) =
        >>=-inverse (parse_item D (left == 0) row (advance_until b'"' input)) _ e in
      let first : length behind ≤ length input = omega (
        arith,
        advance_until-le b'"' input,
        parse_item-le (left == 0) row row1 _ more behind read,
      ) in
      omega (
        arith,
        first,
        next_items-le left more row1 row' behind rest e1
            (parse_items-le left row1 row' behind rest),
      )

  pub parse_row-le :
      (stale : Flags) (values item : DataItem Double) (input rest : List ℕ)
      → parse_row D stale values input ≡ ok (item, rest)
      → length rest ≤ length input
  unfolding parse_row
  parse_row-le stale values item input rest e =
      let ((row, behind), read, e1) = >>=-inverse (parse_items D 4 _ input) _ e in
      ground (arith, parse_items-le 4 _ row input behind read, e1)
