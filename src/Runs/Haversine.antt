-- ===== src/Runs/Haversine.antt =====
-- data_gen on small files, with digits for doubles.
use computer_enhance.Shared.{
  ℕ, zero, suc, ◌+◌, ◌*◌, ◌/◌, ◌%◌, ◌^◌, ◌≤◌, ◌≡◌, refl, true, false, List, [], ◌∷◌, ◌++◌, length,
  some, Outcome, ok, arith,
}
use native.Mathlib.Nat.{div-add-mod, mod-lt}
use computer_enhance.DataGen.Items.{DataItem}
use computer_enhance.DataGen.Store.Arrays.{array_store, array_from}
use computer_enhance.DataGen.Store.Linked.{ItemList, empty_list, list_append, list_visited}
use computer_enhance.DataGen.Store.Chain.{ListHolds, empty_list-Holds}
use computer_enhance.DataGen.Store.Room.{list_store, ListHasRoom, list_append-ListHolds}
use computer_enhance.DataGen.Scan.{advance_until, find_string, extract_until, c_string, terminated}
use computer_enhance.DataGen.Parse.{
  Rows, same_text, identify, set_value, read_number, parse_value, parse_item, next_items,
  parse_items, parse_row, expect, parse_header, add_row, next_rows, row_round, parse_rows,
  parse_file,
}
use computer_enhance.DataGen.Parse.Total.{parse_file-ends}
use computer_enhance.DataGen.Average.{
  calculate_haversine_average, estimate_total_entries, item_distance,
}
use computer_enhance.DataGen.Generate.{
  data_gen, start_text, end_text, item_text, get_random_data, draw_item, new_cluster, next_item,
  first_generator, first_output, write_rows, write_item,
}
use computer_enhance.DataGen.Reader.{read_rows}
use computer_enhance.DataGen.Refine.{plain_store, Plain, Refines}
use computer_enhance.DataGen.Refine.Loop.{parse_file-Refines}
use computer_enhance.DataGen.RoundTrip.Texts.{generated}
use computer_enhance.DataGen.RoundTrip.Files.{Parsed, parse_file-data_gen}
use computer_enhance.DataGen.RoundTrip.Pipeline.{
  reported, calculate_haversine_average-data_gen, calculate_haversine_average-agree,
}
use computer_enhance.DataGen.RoundTrip.Binary.{AreFinite, read_rows-data_gen}
use computer_enhance.DataGen.RoundTrip.Estimate.{AreLong, estimate_total_entries-data_gen}
use computer_enhance.Runs.Digits.{
  zeros, last_digit, digits, rand, two_items, two_items-generated, length-zeros, zero_item, unset,
  three_places, bump, bump-IsFresh, two_items-AreRead,
}

parse_file-data_gen_example :
    (rows : Rows digits (array_store (DataItem ℕ))) × (parse_file digits
        (array_store (DataItem ℕ))
        unset
        zero_item
        three_places
        (data_gen digits rand false 2).1.json
      ≡ some (ok rows))
    × Parsed digits (array_store (DataItem ℕ)) [] two_items 0 rows
unfolding array_from
parse_file-data_gen_example =
    parse_file-data_gen digits (array_store (DataItem ℕ)) rand false 2 two_items unset zero_item
      three_places (two_items-AreRead (array_store (DataItem ℕ))) refl (omega arith)

calculate_haversine_average-data_gen_example :
    (rows : Rows digits (list_store (DataItem ℕ) bump bump-IsFresh)) × (parse_file digits
        (list_store (DataItem ℕ) bump bump-IsFresh)
        unset
        zero_item
        (empty_list (DataItem ℕ))
        (data_gen digits rand false 2).1.json
      ≡ some (ok rows))
    × (calculate_haversine_average digits
          (list_store (DataItem ℕ) bump bump-IsFresh)
          false
          rows.items
        ≡ some (ok (reported digits two_items)))
calculate_haversine_average-data_gen_example =
    calculate_haversine_average-data_gen digits (list_store (DataItem ℕ) bump bump-IsFresh) false
      rand false 2 two_items unset zero_item (empty_list (DataItem ℕ))
      (two_items-AreRead (list_store (DataItem ℕ) bump bump-IsFresh))
      (empty_list-Holds bump-IsFresh)
      (λ k h. (32 * ((empty_list (DataItem ℕ)).allocated + k) + 64, refl)) (omega arith)

-- {"pairs":[{"x0":1,"y0":2,"x1":3,"y1":4}]}
abbrev short_file : List ℕ
short_file =
    b'{' ∷ b'"' ∷ b'p' ∷ b'a' ∷ b'i' ∷ b'r' ∷ b's' ∷ b'"' ∷ b':' ∷ b'[' ∷ b'{' ∷ b'"' ∷ b'x' ∷ b'0'
    ∷ b'"' ∷ b':' ∷ b'1' ∷ b',' ∷ b'"' ∷ b'y' ∷ b'0' ∷ b'"' ∷ b':' ∷ b'2' ∷ b',' ∷ b'"' ∷ b'x'
    ∷ b'1' ∷ b'"' ∷ b':' ∷ b'3' ∷ b',' ∷ b'"' ∷ b'y' ∷ b'1' ∷ b'"' ∷ b':' ∷ b'4' ∷ b'}' ∷ b']'
    ∷ b'}' ∷ []

abbrev short_item : DataItem ℕ
short_item = record { x0 = 1; y0 = 2; x1 = 3; y1 = 4 }

abbrev short_rows : Plain digits
short_rows = record {
  values = short_item;
  items = short_item ∷ [];
  data_item_count = 1;
  input = [];
}

short_file-parsed :
    parse_file digits (plain_store (DataItem ℕ)) unset zero_item [] short_file
    ≡ some (ok short_rows)
unfolding parse_file parse_rows row_round next_rows add_row parse_header expect parse_row
    parse_items next_items parse_item parse_value read_number set_value identify same_text
    terminated c_string extract_until find_string advance_until last_digit
short_file-parsed = refl

parse_file-Refines_example :
    (rows : Rows digits (array_store (DataItem ℕ))) × (parse_file digits
        (array_store (DataItem ℕ))
        unset
        zero_item
        three_places
        short_file
      ≡ some (ok rows))
    × Refines digits (array_store (DataItem ℕ)) short_rows rows
unfolding array_from
parse_file-Refines_example =
    parse_file-Refines digits (array_store (DataItem ℕ)) unset zero_item three_places short_file
      short_rows refl short_file-parsed (omega arith)

calculate_haversine_average-agree_example :
    (rows : Rows digits (array_store (DataItem ℕ))) × (rows' : Rows digits
      (list_store (DataItem ℕ) bump bump-IsFresh))
    × (parse_file digits (array_store (DataItem ℕ)) unset zero_item three_places short_file
        ≡ some (ok rows))
    × (parse_file digits
          (list_store (DataItem ℕ) bump bump-IsFresh)
          unset
          zero_item
          (empty_list (DataItem ℕ))
          short_file
        ≡ some (ok rows'))
    × (rows.data_item_count ≡ rows'.data_item_count)
    × (calculate_haversine_average digits (array_store (DataItem ℕ)) true rows.items
        ≡ calculate_haversine_average digits
            (list_store (DataItem ℕ) bump bump-IsFresh)
            false
            rows'.items)
unfolding array_from
calculate_haversine_average-agree_example =
    calculate_haversine_average-agree digits (array_store (DataItem ℕ))
      (list_store (DataItem ℕ) bump bump-IsFresh) unset zero_item three_places
      (empty_list (DataItem ℕ)) short_file short_rows short_item [] refl
      (empty_list-Holds bump-IsFresh) short_file-parsed refl (omega arith)
      (λ k h. (32 * ((empty_list (DataItem ℕ)).allocated + k) + 64, refl))

parse_file-ends_example :
    (r : Outcome (Rows digits (plain_store (DataItem ℕ)))) × (parse_file digits
        (plain_store (DataItem ℕ))
        unset
        zero_item
        []
        short_file
      ≡ some r)
parse_file-ends_example =
    parse_file-ends digits (plain_store (DataItem ℕ)) unset zero_item [] short_file

two_items-AreFinite : AreFinite digits (generated digits rand false 2)
unfolding item_distance
two_items-AreFinite = rw two_items-generated (refl, (refl, tt))

read_rows-data_gen_example :
    let out = (data_gen digits rand false 2).1 in
    read_rows digits (record { sum = 0; binary_write_count = 0; count = 0 }) out.binary
    ≡ ok (record { sum = out.sum; binary_write_count = out.binary_write_count; count = 2 % 2 ^ 32 })
read_rows-data_gen_example = read_rows-data_gen digits rand false 2 two_items-AreFinite

-- A quotient that is rounded up a little too far, and is defined for 0 too.
abbrev ceil_quotient : ℕ → ℕ → ℕ
ceil_quotient n zero = 0
ceil_quotient n (suc d) = n / suc d + 1

quotient-below : (n m : ℕ) → 1 ≤ m → 999 * n ≤ 1000 * (m * (n / m + 1))
quotient-below n m positive =
    let whole : n ≤ m * (n / m + 1) = grind (arith, div-add-mod n m, mod-lt n positive) in
    omega (arith, whole)

ceil_quotient-precise : (n d : ℕ) → 1 ≤ d → 999 * n ≤ 1000 * (d * ceil_quotient n d)
ceil_quotient-precise n zero positive = absurd (omega arith)
ceil_quotient-precise n (suc d) positive = quotient-below n (suc d) positive

digit_long : (x : ℕ) → 18 ≤ length (zeros 17 (b'0' + x))
digit_long x = omega (arith, length-zeros 17 (b'0' + x))

two_items-AreLong : AreLong digits (generated digits rand false 2)
two_items-AreLong = rw two_items-generated (
  (digit_long 3, digit_long 6, digit_long 9, digit_long 2),
  ((digit_long 5, digit_long 8, digit_long 1, digit_long 4), tt),
)

json_length : length ((data_gen digits rand false 2).1.json) ≡ 217
unfolding data_gen write_rows write_item item_text next_item draw_item get_random_data
    first_generator first_output start_text end_text zeros
json_length = refl

estimate_total_entries-data_gen_example :
    2 ≤ estimate_total_entries ceil_quotient (length ((data_gen digits rand false 2).1.json))
estimate_total_entries-data_gen_example =
    estimate_total_entries-data_gen digits rand false 2 ceil_quotient ceil_quotient-precise
      two_items-AreLong (omega arith) (omega (arith, json_length))

-- With seven pairs there are seven clusters, not four.
seven_clusters : (data_gen digits rand true 7).0.num_clusters ≡ 7
unfolding data_gen write_rows write_item next_item new_cluster draw_item get_random_data
    first_generator first_output
seven_clusters = refl

list_append-ListHolds_example :
    (s' : ItemList (DataItem ℕ)) × (list_append bump short_item (empty_list (DataItem ℕ)) ≡ ok s')
    × ListHolds bump s' ([] ++ short_item ∷ [])
    × ListHasRoom bump s' 0
    × (list_visited s' ≡ some (ok ([] ++ short_item ∷ [])))
list_append-ListHolds_example =
    list_append-ListHolds bump-IsFresh short_item (empty_list (DataItem ℕ)) [] 0
      (empty_list-Holds bump-IsFresh)
      (λ k h. (32 * ((empty_list (DataItem ℕ)).allocated + k) + 64, refl))
