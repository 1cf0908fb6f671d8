-- ===== src/DataGen/Average.antt =====
-- data_gen/json_data_parser.c: calculate_haversine_average and estimate_total_entries.
use computer_enhance.Shared.{
  ℕ, ◌+◌, ◌-◌, ◌%◌, ◌^◌, Bool, if◌then◌else◌, List, [], ◌∷◌, Option, none, some, Outcome, ok, ◌>>=◌,
}
use computer_enhance.DataGen.Doubles.{Doubles}
use computer_enhance.DataGen.Items.{DataItem, ItemStore}

-- JSON_OVERHEAD_SIZE and JSON_MIN_ROW_SIZE
abbrev pub json_overhead_size : ℕ
json_overhead_size = 14

abbrev pub json_min_row_size : ℕ
json_min_row_size = 101

-- The machine's `ceil((float)n / (float)d)` is a parameter; the subtraction is that of a size_t.
unfoldable pub estimate_total_entries : (ℕ → ℕ → ℕ) → ℕ → ℕ
estimate_total_entries ceil_quotient filesize =
    let data_bytes = (filesize + (2 ^ 64 - json_overhead_size)) % 2 ^ 64 in
    ceil_quotient data_bytes json_min_row_size

module _ (D : Doubles) where
  open D use {Double, zero_value, plus, over, reference_haversine}

  -- count_values, sum and average
  pub record Averages : Type 0 where
    pub count_values : ℕ
    pub sum : Double
    pub average : Double

  unfoldable pub item_distance : DataItem Double → Double
  item_distance item = reference_haversine item.x0 item.y0 item.x1 item.y1

  -- The loop over data_array: its items in order.
  unfoldable pub add_array_distances : ℕ → Double → List (DataItem Double) → ℕ × Double
  unfolding item_distance
  add_array_distances count_values sum [] = (count_values, sum)
  add_array_distances count_values sum (item ∷ items) =
      add_array_distances ((count_values + 1) % 2 ^ 32) (plus sum (item_distance item)) items

  -- The loop over the linked list: the items of its nodes from list_head on.
  unfoldable pub add_list_distances : ℕ → Double → List (DataItem Double) → ℕ × Double
  unfolding item_distance
  add_list_distances count_values sum [] = (count_values, sum)
  add_list_distances count_values sum (item ∷ items) =
      add_list_distances ((count_values + 1) % 2 ^ 32) (plus sum (item_distance item)) items

  -- The choice by preallocate_entries, and the average behind it.
  unfoldable pub average_of : Bool → List (DataItem Double) → Averages
  unfolding add_array_distances add_list_distances
  average_of preallocate_entries items =
      let (count_values, sum) =
        if preallocate_entries
        then add_array_distances 0 zero_value items
        else add_list_distances 0 zero_value items in
      record { count_values = count_values; sum = sum; average = over sum count_values }

  unfoldable pub averages : Bool → Outcome (List (DataItem Double)) → Outcome Averages
  averages preallocate_entries visited = do
    items ← visited
    ok (average_of preallocate_entries items)

  module _ (store : ItemStore (DataItem Double)) where
    open store use {State, visited}

    -- What is printed of the items in a store.
    unfoldable pub average_at :
        Bool → Option (Outcome (List (DataItem Double))) → Option (Outcome Averages)
    average_at preallocate_entries none = none
    average_at preallocate_entries (some items) = some (averages preallocate_entries items)

    unfoldable pub calculate_haversine_average : Bool → State → Option (Outcome Averages)
    unfolding average_at
    calculate_haversine_average preallocate_entries s = average_at preallocate_entries (visited s)
