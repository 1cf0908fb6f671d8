-- ===== src/DataGen/Items.antt =====
-- data_gen/json_data_parser.c: a data item, and what parse_file and calculate_haversine_average ask of
-- the store of items.
use computer_enhance.Shared.{ℕ, suc, ◌≡◌, List, [], ◌∷◌, ◌++◌, Option, some, Outcome, ok}

-- struct data_item_s
pub record DataItem (Double : Type 0) : Type 0 where
  pub x0 : Double
  pub y0 : Double
  pub x1 : Double
  pub y1 : Double

-- A store of items: `append` is the end of a row in parse_file, `visited` the items in the order of the
-- loop of calculate_haversine_average (`none` if the loop would not end).
pub record ItemStore (A : Type 0) : Type 1 where
  pub State : Type 0
  pub append : A → State → Outcome State
  pub visited : State → Option (Outcome (List A))
  -- The state holds these items in this order.
  pub Holds : State → List A → Type 0
  pub append-Holds :
      (item : A) (s s' : State) (items : List A)
      → Holds s items
      → append item s ≡ ok s'
      → Holds s' (items ++ item ∷ [])
  pub visited-Holds :
      (s : State) (item : A) (items : List A)
      → Holds s (item ∷ items)
      → visited s ≡ some (ok (item ∷ items))
  -- There is memory for so many more items.
  pub HasRoom : State → ℕ → Type 0
  pub append-HasRoom :
      (item : A) (s : State) (items : List A) (n : ℕ)
      → Holds s items
      → HasRoom s (suc n)
      → (s' : State) × (append item s ≡ ok s') × HasRoom s' n
