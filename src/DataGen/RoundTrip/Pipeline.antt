-- ===== src/DataGen/RoundTrip/Pipeline.antt =====
-- data_gen: data_gen.c, then json_data_parser.c from parse_file to calculate_haversine_average.
use computer_enhance.Shared.{
  ℕ, suc, ◌+◌, ◌%◌, ◌^◌, ◌<◌, ◌≡◌, refl, sym, ◌∙◌, ap, Bool, true, false, List, [], ◌∷◌, length,
  some, ok, arith,
}
use computer_enhance.DataGen.Doubles.{Doubles}
use computer_enhance.DataGen.Items.{DataItem, ItemStore}
use computer_enhance.DataGen.Parse.{Flags, Rows, parse_file}
use computer_enhance.DataGen.Average.{
  Averages, add_array_distances, add_list_distances, average_of, averages, average_at,
  calculate_haversine_average,
}
use computer_enhance.DataGen.Generate.{data_gen, first_generator}
use computer_enhance.DataGen.Refine.{plain_store, Plain}
use computer_enhance.DataGen.Refine.Loop.{parse_file-Refines}
use computer_enhance.DataGen.RoundTrip.Texts.{generated, length-drawn}
use computer_enhance.DataGen.RoundTrip.Files.{AreRead, parse_file-data_gen}

module _ (D : Doubles) where
  open D use {Double, zero_value, plus, over, reference_haversine}

  -- What is to be reported of some items: how many there are, as a uint32_t, the sum of their distances
  -- from the first on, and its quotient by their number.
  abbrev pub summed : Double → List (DataItem Double) → Double
  summed sum [] = sum
  summed sum (item ∷ items) =
      summed (plus sum (reference_haversine item.x0 item.y0 item.x1 item.y1)) items

  abbrev pub reported : List (DataItem Double) → Averages D
  reported items =
      let count = length items % 2 ^ 32 in
      let sum = summed zero_value items in
      record { count_values = count; sum = sum; average = over sum count }

  counted : (c : ℕ) (n : ℕ) → ((c + 1) % 2 ^ 32 + n) % 2 ^ 32 ≡ (c + suc n) % 2 ^ 32
  counted c n = omega arith

  add_array_distances-summed :
      (c : ℕ) (sum : Double) (items : List (DataItem Double))
      → c < 2 ^ 32
      → add_array_distances D c sum items ≡ ((c + length items) % 2 ^ 32, summed sum items)
  unfolding add_array_distances
  add_array_distances-summed c sum [] h =
      let same : (c + 0) % 2 ^ 32 ≡ c = omega arith in rw same refl
  add_array_distances-summed c sum (item ∷ items) h =
      rw (← counted c (length items))
        (add_array_distances-summed ((c + 1) % 2 ^ 32) _ items (omega arith))

  add_list_distances-summed :
      (c : ℕ) (sum : Double) (items : List (DataItem Double))
      → c < 2 ^ 32
      → add_list_distances D c sum items ≡ ((c + length items) % 2 ^ 32, summed sum items)
  unfolding add_list_distances
  add_list_distances-summed c sum [] h =
      let same : (c + 0) % 2 ^ 32 ≡ c = omega arith in rw same refl
  add_list_distances-summed c sum (item ∷ items) h =
      rw (← counted c (length items))
        (add_list_distances-summed ((c + 1) % 2 ^ 32) _ items (omega arith))

  average_of-reported :
      (preallocate_entries : Bool) (items : List (DataItem Double))
      → average_of D preallocate_entries items ≡ reported items
  unfolding average_of
  average_of-reported true items =
      let none_before : 0 + length items ≡ length items = omega arith in
      rw (add_array_distances-summed 0 zero_value items (omega arith), none_before) refl
  average_of-reported false items =
      let none_before : 0 + length items ≡ length items = omega arith in
      rw (add_list_distances-summed 0 zero_value items (omega arith), none_before) refl

  module _ (store : ItemStore (DataItem Double)) where
    open store use {State, Holds, visited-Holds, HasRoom}

    calculate_haversine_average-Holds :
        (preallocate_entries : Bool) (s : State) (item : DataItem Double)
        (items : List (DataItem Double))
        → Holds s (item ∷ items)
        → calculate_haversine_average D store preallocate_entries s
          ≡ some (ok (reported (item ∷ items)))
    unfolding calculate_haversine_average average_at averages
    calculate_haversine_average-Holds preallocate_entries s item items holds =
        rw
          (visited-Holds s item items holds, average_of-reported preallocate_entries (item ∷ items))
          refl

    length-AreRead :
        (items items' : List (DataItem Double))
        → AreRead D store items items'
        → length items' ≡ length items
    length-AreRead [] [] read = refl
    length-AreRead [] (item' ∷ items') read = absurd read
    length-AreRead (item ∷ items) [] read = absurd read
    length-AreRead (item ∷ items) (item' ∷ items') (_, read) =
        ap suc (length-AreRead items items' read)

    -- In either mode the parser reports of data_gen's JSON file the number of its rows, the sum of the
    -- distances of the points that they are read as, added up in their order, and this sum over their
    -- number. The number is a uint32_t, the store of items has room for them, and there is at least one.
    pub calculate_haversine_average-data_gen :
        (preallocate_entries : Bool) (rand : ℕ → ℕ) (clustered : Bool) (count : ℕ)
        (items' : List (DataItem Double)) (stale : ℕ → Flags) (values : DataItem Double)
        (items : State)
        → AreRead D store (generated D rand clustered count) items'
        → Holds items []
        → HasRoom items count
        → 0 < count
        → (rows : Rows D store) × (parse_file D store stale values items
              (data_gen D rand clustered count).1.json
            ≡ some (ok rows))
          × (calculate_haversine_average D store preallocate_entries rows.items
              ≡ some (ok (reported items')))
    unfolding generated
    calculate_haversine_average-data_gen preallocate_entries rand clustered count [] stale values
          items read holds room some_row =
        let size = length-AreRead (generated D rand clustered count) [] read in
        absurd (
          omega (
            arith,
            size,
            length-drawn D rand count clustered count 0 (first_generator D rand count),
          ))
    calculate_haversine_average-data_gen preallocate_entries rand clustered count (item ∷ items')
          stale values items read holds room some_row =
        let (rows, parsed, done) =
          parse_file-data_gen D store rand clustered count (item ∷ items') stale values items read
            holds room in
        (
          rows,
          parsed,
          calculate_haversine_average-Holds preallocate_entries rows.items item items' done.stored,
        )

  module _ (first second : ItemStore (DataItem Double)) where
    open first use {State, Holds, HasRoom}
    open second use {State as State', Holds as Holds', HasRoom as HasRoom'}

    -- The option -p does not matter: on an input that parse_file accepts, with the same stale flags and
    -- values, two stores that have room for its rows, of which there is at least one, end with the same
    -- count of items, and the loop over the array reports of the first what the loop over the list
    -- reports of the second.
    pub calculate_haversine_average-agree :
        (stale : ℕ → Flags) (values : DataItem Double) (items : State) (items' : State')
        (input : List ℕ) (plain : Plain D) (item : DataItem Double) (more : List (DataItem Double))
        → Holds items []
        → Holds' items' []
        → parse_file D (plain_store (DataItem Double)) stale values [] input ≡ some (ok plain)
        → plain.items ≡ item ∷ more
        → HasRoom items plain.data_item_count
        → HasRoom' items' plain.data_item_count
        → (rows : Rows D first) × (rows' : Rows D second) × (parse_file D first stale values items
              input
            ≡ some (ok rows))
          × (parse_file D second stale values items' input ≡ some (ok rows'))
          × (rows.data_item_count ≡ rows'.data_item_count)
          × (calculate_haversine_average D first true rows.items
              ≡ calculate_haversine_average D second false rows'.items)
    calculate_haversine_average-agree stale values items items' input plain item more holds holds' e
          some_row room room' =
        let (rows, parsed, refined) =
          parse_file-Refines D first stale values items input plain holds e room in
        let (rows', parsed', refined') =
          parse_file-Refines D second stale values items' input plain holds' e room' in
        (
          rows,
          rows',
          parsed,
          parsed',
          refined.data_item_count ∙ sym refined'.data_item_count,
          calculate_haversine_average-Holds first true rows.items item more
                (rw some_row at refined.items)
              ∙ sym (
                  calculate_haversine_average-Holds second false rows'.items item more
                    (rw some_row at refined'.items)),
        )
