-- ===== src/DataGen/Refine/Loop.antt =====
-- data_gen/json_data_parser.c: the loop of parse_file over any store of items, against the plain list.
use computer_enhance.Shared.{
  ℕ, zero, suc, ◌+◌, ◌≤◌, ◌≡◌, refl, sym, ap, ◌∙◌, subst, Bool, true, false, List, [], length,
  Option, some, Outcome, ok, exit_error, out_of_bounds, ◌>>=◌, arith, inl, inr,
}
use computer_enhance.DataGen.Doubles.{Doubles}
use computer_enhance.DataGen.Items.{DataItem, ItemStore}
use computer_enhance.DataGen.Scan.{advance_until}
use computer_enhance.DataGen.Parse.{
  Flags, parse_header, Rows, add_row, next_rows, row_round, parse_rows, parse_file,
}
use computer_enhance.DataGen.Parse.Total.{parse_rows_empty, parse_rows_more, zero_or_suc}
use computer_enhance.DataGen.Refine.{plain_store, Plain, Refines, add_row-count, add_row-Refines}

module _ (D : Doubles) (store : ItemStore (DataItem (Doubles.Double D))) where
  open D use {Double}
  open store use {State, append, Holds, append-Holds, HasRoom, append-HasRoom}

  next_rows-inverse :
      {S : ItemStore (DataItem Double)} (rest : Rows D S → Option (Outcome (Rows D S)))
      (o : Outcome (Rows D S)) {r : Rows D S}
      → next_rows D S rest o ≡ some (ok r)
      → (rows : Rows D S) × (o ≡ ok rows) × (rest rows ≡ some (ok r))
  unfolding next_rows
  next_rows-inverse rest (ok rows) e = (rows, refl, e)
  next_rows-inverse rest exit_error e = absurd (cc e)
  next_rows-inverse rest out_of_bounds e = absurd (cc e)

  next_rows-ok :
      (rest : Rows D store → Option (Outcome (Rows D store))) (o : Outcome (Rows D store))
      (rows : Rows D store)
      → o ≡ ok rows
      → next_rows D store rest o ≡ rest rows
  unfolding next_rows
  next_rows-ok rest o rows e = rw e refl

  -- The rows that are parsed are not fewer than those before.
  Grows : (Plain D → Option (Outcome (Plain D))) → Type 0
  Grows rest =
      (plain plain' : Plain D)
      → rest plain ≡ some (ok plain')
      → plain.data_item_count ≤ plain'.data_item_count

  row_round-Grows :
      (rest : Plain D → Option (Outcome (Plain D))) (stale : ℕ → Flags) (found : Bool × List ℕ)
      → Grows rest
      → Grows (λ plain. row_round D (plain_store (DataItem Double)) rest stale plain found)
  unfolding Grows row_round
  row_round-Grows rest stale (false, input) grows plain plain' e =
      let same : record plain { input = input } ≡ plain' = cc e in rw (← same) (omega arith)
  row_round-Grows rest stale (true, input) grows plain plain' e =
      let (next, added, e1) =
        next_rows-inverse rest (add_row D (plain_store (DataItem Double)) stale plain input) e in
      omega (arith, add_row-count D store stale plain next input added, grows next plain' e1)

  parse_rows-Grows :
      (fuel : ℕ) (stale : ℕ → Flags)
      → Grows (λ plain. parse_rows D (plain_store (DataItem Double)) fuel stale plain)
  unfolding Grows parse_rows
  parse_rows-Grows zero stale plain plain' e = absurd (cc e)
  parse_rows-Grows (suc fuel) stale plain plain' e = elim (zero_or_suc (length plain.input)) [
    | inl empty ↦
        let same : plain ≡ plain' = cc (sym (parse_rows_empty D _ fuel stale plain empty) ∙ e) in
        rw same (omega arith)
    | inr (more, size) ↦
        row_round-Grows (λ p. parse_rows D (plain_store (DataItem Double)) fuel stale p) stale
          (advance_until b'{' plain.input) (parse_rows-Grows fuel stale) plain plain'
          (sym (parse_rows_more D _ fuel more stale plain size) ∙ e)
  ]

  -- What ends well on the plain list ends well on the store with room for the rows that it adds.
  Simulates :
      (Plain D → Option (Outcome (Plain D)))
      → (Rows D store → Option (Outcome (Rows D store)))
      → Type 0
  Simulates plain_rest rest =
      (plain plain' : Plain D) (rows : Rows D store) (n : ℕ)
      → Refines D store plain rows
      → HasRoom rows.items n
      → plain'.data_item_count ≡ plain.data_item_count + n
      → plain_rest plain ≡ some (ok plain')
      → (rows' : Rows D store) × (rest rows ≡ some (ok rows')) × Refines D store plain' rows'

  row_round-Simulates :
      (plain_rest : Plain D → Option (Outcome (Plain D)))
      (rest : Rows D store → Option (Outcome (Rows D store))) (stale : ℕ → Flags)
      (found : Bool × List ℕ)
      → Grows plain_rest
      → Simulates plain_rest rest
      → Simulates
          (λ plain. row_round D (plain_store (DataItem Double)) plain_rest stale plain found)
          (λ rows. row_round D store rest stale rows found)
  unfolding Simulates Grows row_round
  row_round-Simulates plain_rest rest stale (false, input) grows simulates plain plain' rows n
        refined room count e =
      let same : record plain { input = input } ≡ plain' = cc e in
      (
        record rows { input = input },
        refl,
        rw (← same) (record {
          values = refined.values;
          items = refined.items;
          data_item_count = refined.data_item_count;
          input = refl;
        }),
      )
  row_round-Simulates plain_rest rest stale (true, input) grows simulates plain plain' rows zero
        refined room count e =
      let (next, added, e1) =
        next_rows-inverse plain_rest (add_row D (plain_store (DataItem Double)) stale plain input)
          e in
      absurd (
        omega
          (arith, count, add_row-count D store stale plain next input added, grows next plain' e1))
  row_round-Simulates plain_rest rest stale (true, input) grows simulates plain plain' rows (suc n)
        refined room count e =
      let (next, added, e1) =
        next_rows-inverse plain_rest (add_row D (plain_store (DataItem Double)) stale plain input)
          e in
      let (rows1, added', refined1, left) =
        add_row-Refines D store stale plain next rows input n refined room added in
      let size : plain'.data_item_count ≡ next.data_item_count + n =
        omega (arith, count, add_row-count D store stale plain next input added) in
      let (rows', e2, done) = simulates next plain' rows1 n refined1 left size e1 in
      (rows', next_rows-ok rest (add_row D store stale rows input) rows1 added' ∙ e2, done)

  parse_rows-Simulates :
      (fuel : ℕ) (stale : ℕ → Flags)
      → Simulates
          (λ plain. parse_rows D (plain_store (DataItem Double)) fuel stale plain)
          (λ rows. parse_rows D store fuel stale rows)
  unfolding Simulates parse_rows
  parse_rows-Simulates zero stale plain plain' rows n refined room count e = absurd (cc e)
  parse_rows-Simulates (suc fuel) stale plain plain' rows n refined room count e =
      elim (zero_or_suc (length plain.input)) [
        | inl empty ↦
            let same : plain ≡ plain' =
              cc (sym (parse_rows_empty D _ fuel stale plain empty) ∙ e) in
            (
              rows,
              parse_rows_empty D store fuel stale rows (rw refined.input empty),
              subst (λ z. Refines D store z rows) same refined,
            )
        | inr (more, size) ↦
            let (rows', e1, done) =
              row_round-Simulates (λ p. parse_rows D (plain_store (DataItem Double)) fuel stale p)
                (λ r. parse_rows D store fuel stale r) stale (advance_until b'{' plain.input)
                (parse_rows-Grows fuel stale) (parse_rows-Simulates fuel stale) plain plain' rows n
                refined room count (sym (parse_rows_more D _ fuel more stale plain size) ∙ e) in
            (
              rows',
              parse_rows_more D store fuel more stale rows (rw refined.input size)
                  ∙ ap
                      (λ text.
                        row_round D store (λ r. parse_rows D store fuel stale r) stale rows
                          (advance_until b'{' text))
                      refined.input
                  ∙ e1,
              done,
            )
      ]

  parse_header_cases :
      (o : Outcome (List ℕ)) {S : ItemStore (DataItem Double)} (start : List ℕ → Rows D S)
      (rest : Rows D S → Option (Outcome (Rows D S))) {r : Rows D S}
      → next_rows D S rest (o >>= λ input. ok (start input)) ≡ some (ok r)
      → (input : List ℕ) × (o ≡ ok input) × (rest (start input) ≡ some (ok r))
  unfolding next_rows
  parse_header_cases (ok input) start rest e = (input, refl, e)
  parse_header_cases exit_error start rest e = absurd (cc e)
  parse_header_cases out_of_bounds start rest e = absurd (cc e)

  -- On every input that parse_file accepts with a plain list of items, it accepts with a store that has
  -- room for these items: the store holds them in order, and the count, the values and the input are the same.
  pub parse_file-Refines :
      (stale : ℕ → Flags) (values : DataItem Double) (items : State) (input : List ℕ)
      (plain : Plain D)
      → Holds items []
      → parse_file D (plain_store (DataItem Double)) stale values [] input ≡ some (ok plain)
      → HasRoom items plain.data_item_count
      → (rows : Rows D store) × (parse_file D store stale values items input ≡ some (ok rows))
        × Refines D store plain rows
  unfolding parse_file Simulates next_rows
  parse_file-Refines stale values items input plain holds e room =
      let start : List ℕ → Plain D =
        λ rest. record { values = values; items = []; data_item_count = 0; input = rest } in
      let (rest, header, e1) =
        parse_header_cases (parse_header D input) start
          (λ rows.
            parse_rows D (plain_store (DataItem Double)) (suc (length rows.input)) stale rows)
          e in
      let rows : Rows D store = record {
        values = values;
        items = items;
        data_item_count = 0;
        input = rest;
      } in
      let refined : Refines D store (start rest) rows = record {
        values = refl;
        items = holds;
        data_item_count = refl;
        input = refl;
      } in
      let (rows', e2, done) =
        parse_rows-Simulates (suc (length rest)) stale (start rest) plain rows plain.data_item_count
          refined room (omega arith) e1 in
      (rows', rw header e2, done)
