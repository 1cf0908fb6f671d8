-- ===== src/DataGen/Store/Arrays.antt =====
-- data_gen/json_data_parser.c: the preallocated data_array.
use computer_enhance.Shared.{
  ℕ, zero, suc, ◌+◌, ◌≤◌, ◌≡◌, refl, ap, ◌∙◌, ◌==◌, ltb, if◌then◌else◌, List, [], ◌∷◌, ◌++◌, Option,
  some, Outcome, ok, out_of_bounds, arith,
}
use computer_enhance.DataGen.Items.{ItemStore}

-- data_array, with the number of items that it was allocated for, and data_item_count.
pub record ItemArray (A : Type 0) : Type 0 where
  pub data_array : ℕ → A
  pub item_estimate : ℕ
  pub data_item_count : ℕ

module _ {A : Type 0} where
  abbrev set_item : (ℕ → A) → ℕ → A → ℕ → A
  set_item items at item i = if at == i then item else items i

  -- The end of a row: `data_array[data_item_count]` is written and the count goes up.
  unfoldable pub array_append : A → ItemArray A → Outcome (ItemArray A)
  array_append item s =
      if ltb s.data_item_count s.item_estimate
      then ok (record s {
        data_array = set_item s.data_array s.data_item_count item;
        data_item_count = s.data_item_count + 1;
      })
      else out_of_bounds

  -- `for (size_t i = start; ...; i++)` over so many items.
  unfoldable pub array_from : (ℕ → A) → ℕ → ℕ → List A
  array_from items start zero = []
  array_from items start (suc left) = items start ∷ array_from items (start + 1) left

  unfoldable pub array_visited : ItemArray A → Option (Outcome (List A))
  array_visited s = some (ok (array_from s.data_array 0 s.data_item_count))

  array_from-last :
      (items : ℕ → A) (start left : ℕ)
      → array_from items start (suc left) ≡ array_from items start left ++ items (start + left) ∷ []
  unfolding array_from
  array_from-last items start zero = ground arith
  array_from-last items start (suc left) =
      let moved : start + 1 + left ≡ start + suc left = omega arith in
      ap (λ rest. items start ∷ rest) (rw (← moved) (array_from-last items (start + 1) left))

  array_from-set_item :
      (items : ℕ → A) (start left at : ℕ) (item : A)
      → start + left ≤ at
      → array_from (set_item items at item) start left ≡ array_from items start left
  unfolding array_from
  array_from-set_item items start zero at item h = refl
  array_from-set_item items start (suc left) at item h =
      ground (arith, array_from-set_item items (start + 1) left at item)

  abbrev pub ArrayHolds : ItemArray A → List A → Type 0
  ArrayHolds s items = array_from s.data_array 0 s.data_item_count ≡ items

  pub array_append-Holds :
      (item : A) (s s' : ItemArray A) (items : List A)
      → ArrayHolds s items
      → array_append item s ≡ ok s'
      → ArrayHolds s' (items ++ item ∷ [])
  unfolding array_append
  array_append-Holds item s s' items held e =
      let n = s.data_item_count in
      let stored : s'
          ≡ record s { data_array = set_item s.data_array n item; data_item_count = n + 1 } =
        ground (arith, e) in
      let after = set_item s.data_array n item in
      let size : n + 1 ≡ suc n = omega arith in
      rw (stored, size)
        (array_from-last after 0 n
          ∙ ground (arith, array_from-set_item s.data_array 0 n n item, held))

  pub array_visited-Holds :
      (s : ItemArray A) (item : A) (items : List A)
      → ArrayHolds s (item ∷ items)
      → array_visited s ≡ some (ok (item ∷ items))
  unfolding array_visited
  array_visited-Holds s item items held = rw held

  abbrev pub ArrayHasRoom : ItemArray A → ℕ → Type 0
  ArrayHasRoom s n = s.data_item_count + n ≤ s.item_estimate

  pub array_append-HasRoom :
      (item : A) (s : ItemArray A) (n : ℕ)
      → ArrayHasRoom s (suc n)
      → (s' : ItemArray A) × (array_append item s ≡ ok s') × ArrayHasRoom s' n
  unfolding array_append
  array_append-HasRoom item s n room =
      let s' : ItemArray A = record s {
        data_array = set_item s.data_array s.data_item_count item;
        data_item_count = s.data_item_count + 1;
      } in
      (s', ground arith, omega arith)

-- The array as a store of items.
abbrev pub array_store : (A : Type 0) → ItemStore A
array_store A = record {
  State = ItemArray A;
  append = array_append;
  visited = array_visited;
  Holds = ArrayHolds;
  append-Holds = array_append-Holds;
  visited-Holds = array_visited-Holds;
  HasRoom = ArrayHasRoom;
  append-HasRoom = λ item s items n _ room. array_append-HasRoom item s n room;
}
