-- ===== src/DataGen/Parse.antt =====
-- data_gen/json_data_parser.c: parse_file.
pub mod Lengths
pub mod Total
use computer_enhance.Shared.{
  ℕ, zero, suc, ◌+◌, ◌==◌, Bool, true, false, ◌&&◌, if◌then◌else◌, List, [], ◌∷◌, length, Option,
  none, some, Outcome, ok, exit_error, out_of_bounds, ◌>>=◌,
}
use computer_enhance.DataGen.Doubles.{Doubles}
use computer_enhance.DataGen.Items.{DataItem, ItemStore}
use computer_enhance.DataGen.Scan.{advance_until, find_string, extract_until, c_string, terminated}

-- FOUND_X0, FOUND_Y0, FOUND_X1 and FOUND_Y1
pub data FoundItem : Type 0 where
  found_x0 found_y0 found_x1 found_y1 : FoundItem

unfoldable pub same_text : List ℕ → List ℕ → Bool
same_text [] [] = true
same_text [] (b ∷ t) = false
same_text (a ∷ s) [] = false
same_text (a ∷ s) (b ∷ t) = a == b && same_text s t

-- The comparisons of the item's name, each of at most 8 characters.
unfoldable pub identify : List ℕ → Outcome FoundItem
unfolding same_text
identify name =
    if same_text (b'x' ∷ b'0' ∷ []) name
    then ok found_x0
    else if same_text (b'y' ∷ b'0' ∷ []) name
    then ok found_y0
    else if same_text (b'x' ∷ b'1' ∷ []) name
    then ok found_x1
    else if same_text (b'y' ∷ b'1' ∷ []) name
    then ok found_y1
    else exit_error

-- The flags found_x0 to found_y1 of a row.
pub record Flags : Type 0 where
  pub x0 : Bool
  pub y0 : Bool
  pub x1 : Bool
  pub y1 : Bool

module _ (D : Doubles) where
  open D use {Double, scan}

  -- X0 to Y1 with their flags.
  pub record Row : Type 0 where
    pub values : DataItem Double
    pub flags : Flags

  -- The switch on found_item.
  unfoldable pub set_value : FoundItem → Double → Row → Row
  set_value found_x0 value row = record {
    values = record row.values { x0 = value };
    flags = record row.flags { x0 = true };
  }
  set_value found_y0 value row = record {
    values = record row.values { y0 = value };
    flags = record row.flags { y0 = true };
  }
  set_value found_x1 value row = record {
    values = record row.values { x1 = value };
    flags = record row.flags { x1 = true };
  }
  set_value found_y1 value row = record {
    values = record row.values { y1 = value };
    flags = record row.flags { y1 = true };
  }

  -- sscanf, which must read one number.
  unfoldable pub read_number : Option Double → Outcome Double
  read_number none = exit_error
  read_number (some value) = ok value

  -- From the search for the ':' to the switch. The flag says whether the loop goes on.
  unfoldable pub parse_value :
      Bool → FoundItem → Row → Bool × List ℕ → Outcome (Bool × Row × List ℕ)
  parse_value last item row (false, input) = ok (false, row, input)
  parse_value last item row (true, input) = do
    (buffer, rest) ← extract_until 64 (if last then b'}' else b',') input
    text ← terminated 64 buffer
    value ← read_number (scan text)
    ok (true, set_value item value row, rest)

  -- One round of the loop over the items, from behind the search for the '"' of the name.
  unfoldable pub parse_item : Bool → Row → Bool × List ℕ → Outcome (Bool × Row × List ℕ)
  parse_item last row (false, input) = ok (false, row, input)
  parse_item last row (true, input) = do
    (buffer, rest) ← extract_until 8 b'"' input
    item ← identify (c_string buffer)
    parse_value last item row (advance_until b':' rest)

  unfoldable pub next_items :
      (Row → List ℕ → Outcome (Row × List ℕ)) → Bool × Row × List ℕ → Outcome (Row × List ℕ)
  next_items rest (false, row, input) = ok (row, input)
  next_items rest (true, row, input) = rest row input

  -- `while (item_count<4)`, with the number of items that are left.
  unfoldable pub parse_items : ℕ → Row → List ℕ → Outcome (Row × List ℕ)
  parse_items zero row input = ok (row, input)
  parse_items (suc left) row input =
      parse_item (left == 0) row (advance_until b'"' input) >>= next_items (parse_items left)

  -- A row behind its '{'. The flags are not initialised: they start as the memory has them. The values
  -- start as the row before left them.
  unfoldable pub parse_row : Flags → DataItem Double → List ℕ → Outcome (DataItem Double × List ℕ)
  parse_row stale values input = do
    (row, rest) ← parse_items 4 (record { values = values; flags = stale }) input
    let flags = row.flags
    if flags.x0 && flags.y0 && flags.x1 && flags.y1 then ok (row.values, rest) else exit_error

  -- The required characters before the rows.
  unfoldable pub expect : Bool × List ℕ → Outcome (List ℕ)
  expect (true, rest) = ok rest
  expect (false, rest) = exit_error

  unfoldable pub parse_header : List ℕ → Outcome (List ℕ)
  parse_header input = do
    behind_brace ← expect (advance_until b'{' input)
    behind_pairs ←
        expect (find_string (b'"' ∷ b'p' ∷ b'a' ∷ b'i' ∷ b'r' ∷ b's' ∷ b'"' ∷ []) behind_brace)
    behind_colon ← expect (advance_until b':' behind_pairs)
    expect (advance_until b'[' behind_colon)

  module _ (store : ItemStore (DataItem Double)) where
    open store use {State, append}

    -- What the loop over the rows carries from one to the next.
    pub record Rows : Type 0 where
      pub values : DataItem Double
      pub items : State
      pub data_item_count : ℕ
      pub input : List ℕ

    -- A row and its place in the store.
    unfoldable pub add_row : (ℕ → Flags) → Rows → List ℕ → Outcome Rows
    add_row stale rows input = do
      (item, rest) ← parse_row (stale rows.data_item_count) rows.values input
      items ← append item rows.items
      ok (record {
        values = item;
        items = items;
        data_item_count = rows.data_item_count + 1;
        input = rest;
      })

    unfoldable pub next_rows : (Rows → Option (Outcome Rows)) → Outcome Rows → Option (Outcome Rows)
    next_rows rest (ok rows) = rest rows
    next_rows rest exit_error = some exit_error
    next_rows rest out_of_bounds = some out_of_bounds

    -- A round of the loop, on the search for the '{' of a row.
    unfoldable pub row_round :
        (Rows → Option (Outcome Rows)) → (ℕ → Flags) → Rows → Bool × List ℕ → Option (Outcome Rows)
    row_round rest stale rows (false, input) = some (ok (record rows { input = input }))
    row_round rest stale rows (true, input) = next_rows rest (add_row stale rows input)

    -- `while(file_data_remaining>0)`, with fuel.
    unfoldable pub parse_rows : ℕ → (ℕ → Flags) → Rows → Option (Outcome Rows)
    parse_rows zero stale rows = none
    parse_rows (suc fuel) stale rows = elim (length rows.input) [
      | zero ↦ some (ok rows)
      | suc more ↦
          row_round (λ rows'. parse_rows fuel stale rows') stale rows
            (advance_until b'{' rows.input)
    ]

    -- parse_file. The flags of the rows and the values before the first are what the memory holds.
    unfoldable pub parse_file :
        (ℕ → Flags) → DataItem Double → State → List ℕ → Option (Outcome Rows)
    parse_file stale values items input =
        next_rows (λ rows. parse_rows (suc (length rows.input)) stale rows)
          (parse_header input >>= λ rest.
            ok (record { values = values; items = items; data_item_count = 0; input = rest }))
