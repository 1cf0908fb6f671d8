-- ===== src/DataGen/Parse/Total.antt =====
-- data_gen/json_data_parser.c: the fuel of parse_file's loop over the rows.
use computer_enhance.Shared.{
  ℕ, zero, suc, ◌≤◌, ◌<◌, ◌≡◌, refl, Bool, true, false, List, length, Option, some, Outcome, ok,
  exit_error, out_of_bounds, ◌>>=◌, >>=-inverse, arith, ◌⊎◌, ◌∙◌, inl, inr,
}
use computer_enhance.DataGen.Doubles.{Doubles}
use computer_enhance.DataGen.Items.{DataItem, ItemStore}
use computer_enhance.DataGen.Scan.{advance_until}
use computer_enhance.DataGen.Parse.{
  Flags, parse_header, Rows, parse_row, add_row, next_rows, row_round, parse_rows, parse_file,
}
use computer_enhance.DataGen.Parse.Lengths.{advance_until-true, parse_row-le}

pub zero_or_suc : (n : ℕ) → (n ≡ 0) ⊎ ((m : ℕ) × (n ≡ suc m))
zero_or_suc zero = inl refl
zero_or_suc (suc m) = inr (m, refl)

module _ (D : Doubles) (store : ItemStore (DataItem (Doubles.Double D))) where
  open D use {Double}
  open store use {State, append}

  add_row-le :
      (stale : ℕ → Flags) (rows rows' : Rows D store) (input : List ℕ)
      → add_row D store stale rows input ≡ ok rows'
      → length rows'.input ≤ length input
  unfolding add_row
  add_row-le stale rows rows' input e =
      let ((item, rest), read, e1) =
        >>=-inverse (parse_row D (stale rows.data_item_count) rows.values input) _ e in
      let (items, _, e2) = >>=-inverse (append item rows.items) _ e1 in
      ground (arith, parse_row-le D _ _ item input rest read, e2)

  next_rows-ends :
      (rest : Rows D store → Option (Outcome (Rows D store))) (o : Outcome (Rows D store))
      → ((rows : Rows D store) → o ≡ ok rows → (r : Outcome (Rows D store)) × (rest rows ≡ some r))
      → (r : Outcome (Rows D store)) × (next_rows D store rest o ≡ some r)
  unfolding next_rows
  next_rows-ends rest (ok rows) further = further rows refl
  next_rows-ends rest exit_error further = (exit_error, refl)
  next_rows-ends rest out_of_bounds further = (out_of_bounds, refl)

  row_round-ends :
      (rest : Rows D store → Option (Outcome (Rows D store))) (stale : ℕ → Flags)
      (rows : Rows D store) (found : Bool) (input : List ℕ)
      → (found ≡ true
          → (rows' : Rows D store) → length rows'.input ≤ length input
          → (r : Outcome (Rows D store)) × (rest rows' ≡ some r))
      → (r : Outcome (Rows D store)) × (row_round D store rest stale rows (found, input) ≡ some r)
  unfolding row_round
  row_round-ends rest stale rows false input further = (ok (record rows { input = input }), refl)
  row_round-ends rest stale rows true input further =
      next_rows-ends rest (add_row D store stale rows input)
        λ rows' e. further refl rows' (add_row-le stale rows rows' input e)

  pub parse_rows_empty :
      (fuel : ℕ) (stale : ℕ → Flags) (rows : Rows D store)
      → length rows.input ≡ 0
      → parse_rows D store (suc fuel) stale rows ≡ some (ok rows)
  unfolding parse_rows
  parse_rows_empty fuel stale rows empty = rw (parse_rows, empty) refl

  pub parse_rows_more :
      (fuel more : ℕ) (stale : ℕ → Flags) (rows : Rows D store)
      → length rows.input ≡ suc more
      → parse_rows D store (suc fuel) stale rows
        ≡ row_round D store
            (λ rows'. parse_rows D store fuel stale rows')
            stale
            rows
            (advance_until b'{' rows.input)
  unfolding parse_rows
  parse_rows_more fuel more stale rows size = rw (parse_rows, size) refl

  pub parse_rows-ends :
      (fuel : ℕ) (stale : ℕ → Flags) (rows : Rows D store)
      → length rows.input < fuel
      → (r : Outcome (Rows D store)) × (parse_rows D store fuel stale rows ≡ some r)
  parse_rows-ends zero stale rows h = absurd (omega arith)
  parse_rows-ends (suc fuel) stale rows h = elim (zero_or_suc (length rows.input)) [
    | inl empty ↦ (ok rows, parse_rows_empty fuel stale rows empty)
    | inr (more, size) ↦
        let (found, rest) = advance_until b'{' rows.input in
        let (r, e) =
          row_round-ends (λ rows'. parse_rows D store fuel stale rows') stale rows found rest
            (λ is_found rows' le. parse_rows-ends fuel stale rows' (
              omega (arith, le, advance_until-true b'{' rows.input rest (rw (← is_found) refl)))) in
        (r, parse_rows_more fuel more stale rows size ∙ e)
  ]

  -- parse_file ends on every input: it returns, or it stops with an error or an access out of bounds.
  pub parse_file-ends :
      (stale : ℕ → Flags) (values : DataItem Double) (items : State) (input : List ℕ)
      → (r : Outcome (Rows D store)) × (parse_file D store stale values items input ≡ some r)
  unfolding parse_file
  parse_file-ends stale values items input =
      let start : List ℕ → Outcome (Rows D store) =
        λ rest. ok (record { values = values; items = items; data_item_count = 0; input = rest }) in
      next_rows-ends _ (parse_header D input >>= start)
        λ rows _. parse_rows-ends _ stale rows (omega arith)
