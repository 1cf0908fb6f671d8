-- ===== src/DataGen/RoundTrip/Estimate.antt =====
-- data_gen/json_data_parser.c: estimate_total_entries on the size of a JSON file of data_gen.c.
use computer_enhance.Shared.{
  ℕ, ◌+◌, ◌*◌, ◌-◌, ◌%◌, ◌^◌, ◌<◌, ◌≤◌, ◌≡◌, ◌∙◌, ap, Bool, true, false, List, [], ◌∷◌, ◌++◌,
  length, arith,
}
use computer_enhance.DataGen.Doubles.{Doubles}
use computer_enhance.DataGen.Items.{DataItem}
use computer_enhance.DataGen.Average.{estimate_total_entries}
use computer_enhance.DataGen.Generate.{item_text, start_text, end_text, data_gen, first_generator}
use computer_enhance.DataGen.RoundTrip.Texts.{rest_text, generated, length-drawn, data_gen-json}

length-append : (xs ys : List ℕ) → length (xs ++ ys) ≡ length xs + length ys
length-append [] ys = omega arith
length-append (x ∷ xs) ys = omega (arith, length-append xs ys)

enough_rows :
    (filesize count : ℕ) (ceil_quotient : ℕ → ℕ → ℕ)
    → ((n d : ℕ) → 1 ≤ d → 999 * n ≤ 1000 * (d * ceil_quotient n d))
    → 13 + 102 * count ≤ filesize
    → filesize < 2 ^ 64
    → 0 < count
    → count ≤ estimate_total_entries ceil_quotient filesize
unfolding estimate_total_entries
enough_rows filesize count ceil_quotient precise size fits some_row =
    let data_bytes : (filesize + (2 ^ 64 - 14)) % 2 ^ 64 ≡ filesize - 14 = omega arith in
    rw data_bytes (omega (arith, precise (filesize - 14) 101 (omega arith)))

module _ (D : Doubles) where
  open D use {Double, print}

  -- A printed number has at least a digit, a point and sixteen digits.
  abbrev pub IsLong : Double → Type 0
  IsLong x = 18 ≤ length (print x)

  abbrev pub AreLong : List (DataItem Double) → Type 0
  AreLong [] = Unit
  AreLong (item ∷ items) =
      (IsLong item.x0 × IsLong item.y0 × IsLong item.x1 × IsLong item.y1) × AreLong items

  length-item_text :
      (item : DataItem Double)
      → IsLong item.x0
      → IsLong item.y0
      → IsLong item.x1
      → IsLong item.y1
      → 100 ≤ length (item_text D item)
  unfolding item_text
  length-item_text item h0 h1 h2 h3 = simp (length-append) (omega (arith, h0, h1, h2, h3))

  length-rest_text :
      (items : List (DataItem Double))
      → AreLong items
      → 4 + 102 * length items ≤ length (rest_text D false items)
  unfolding rest_text end_text
  length-rest_text [] long = omega arith
  length-rest_text (item ∷ items) ((h0, h1, h2, h3), long) = omega (
    arith,
    length-item_text item h0 h1 h2 h3,
    length-rest_text items long,
    length-append (item_text D item) (rest_text D false items),
  )

  length-start_text : (text : List ℕ) → length (start_text D ++ text) ≡ 11 + length text
  unfolding start_text
  length-start_text text = omega arith

  length_first_rows :
      (items : List (DataItem Double))
      → AreLong items
      → 0 < length items
      → 2 + 102 * length items ≤ length (rest_text D true items)
  unfolding rest_text
  length_first_rows [] long some_row = absurd (omega arith)
  length_first_rows (item ∷ items) ((h0, h1, h2, h3), long) some_row = omega (
    arith,
    length-item_text item h0 h1 h2 h3,
    length-rest_text items long,
    length-append (item_text D item) (rest_text D false items),
  )

  length-generated :
      (rand : ℕ → ℕ) (clustered : Bool) (count : ℕ)
      → AreLong (generated D rand clustered count)
      → 0 < count
      → 2 + 102 * count ≤ length (rest_text D true (generated D rand clustered count))
  unfolding generated
  length-generated rand clustered count long some_row =
      let size = length-drawn D rand count clustered count 0 (first_generator D rand count) in
      omega (
        arith,
        size,
        length_first_rows (generated D rand clustered count) long (omega (arith, size, some_row)),
      )

  -- The estimate, which is the size of data_array, covers the rows of data_gen's JSON file, if a division
  -- of two floats loses less than a thousandth before it is rounded up, each printed number has at least
  -- 18 characters, there is a row, and the file is shorter than 2^64.
  pub estimate_total_entries-data_gen :
      (rand : ℕ → ℕ) (clustered : Bool) (count : ℕ) (ceil_quotient : ℕ → ℕ → ℕ)
      → ((n d : ℕ) → 1 ≤ d → 999 * n ≤ 1000 * (d * ceil_quotient n d))
      → AreLong (generated D rand clustered count)
      → 0 < count
      → length ((data_gen D rand clustered count).1.json) < 2 ^ 64
      → count
        ≤ estimate_total_entries ceil_quotient (length ((data_gen D rand clustered count).1.json))
  estimate_total_entries-data_gen rand clustered count ceil_quotient precise long some_row fits =
      let text = rest_text D true (generated D rand clustered count) in
      let size : length ((data_gen D rand clustered count).1.json) ≡ 11 + length text =
        ap length (data_gen-json D rand clustered count) ∙ length-start_text text in
      let bound : 2 + 102 * count ≤ length text =
        length-generated rand clustered count long some_row in
      enough_rows (length ((data_gen D rand clustered count).1.json)) count ceil_quotient precise
        (omega (arith, size, bound)) fits some_row
