-- ===== src/DataGen/RoundTrip/Files.antt =====
-- data_gen/json_data_parser.c: parse_file on the JSON file that data_gen.c writes.
use mathlib.Core.List.{append_assoc, append-nil}
use computer_enhance.Shared.{
  ℕ, zero, suc, ◌+◌, ◌<◌, ◌≡◌, refl, sym, ◌∙◌, Bool, true, false, List, [], ◌∷◌, ◌++◌, length,
  Option, some, Outcome, ok, arith,
}
use computer_enhance.DataGen.Doubles.{Doubles}
use computer_enhance.DataGen.Items.{DataItem, ItemStore}
use computer_enhance.DataGen.Scan.{advance_until, find_string}
use computer_enhance.DataGen.Parse.{
  Flags, expect, parse_header, Rows, add_row, next_rows, row_round, parse_rows, parse_file,
}
use computer_enhance.DataGen.Parse.Lengths.{advance_until-true, parse_row-le}
use computer_enhance.DataGen.Parse.Total.{parse_rows_more}
use computer_enhance.DataGen.Generate.{start_text, end_text, data_gen}
use computer_enhance.DataGen.RoundTrip.Scans.{
  Avoids, append-Avoids, advance_until-Avoids, advance_until_missing,
}
use computer_enhance.DataGen.RoundTrip.Rows.{
  IsReadItem, fields_text, item_text-append, parse_row-item_text,
}
use computer_enhance.DataGen.RoundTrip.Texts.{
  separator, rest_text, generated, length-drawn, data_gen-json,
}

length-text : (before more : List ℕ) (b : ℕ) → (n : ℕ) × (length (before ++ b ∷ more) ≡ suc n)
length-text [] more b = (length more, refl)
length-text (c ∷ before) more b = (length (before ++ b ∷ more), refl)

separator-Avoids : (first_line : Bool) → Avoids b'{' (separator first_line)
separator-Avoids true = tt
separator-Avoids false = (refl, (refl, tt))

module _ (D : Doubles) (store : ItemStore (DataItem (Doubles.Double D))) where
  open D use {Double}
  open store use {State, append, Holds, append-Holds, HasRoom, append-HasRoom}

  -- Each item is read as the item at its place.
  abbrev pub AreRead : List (DataItem Double) → List (DataItem Double) → Type 0
  AreRead [] [] = Unit
  AreRead [] (item' ∷ items') = ⊥
  AreRead (item ∷ items) [] = ⊥
  AreRead (item ∷ items) (item' ∷ items') = IsReadItem D item item' × AreRead items items'

  -- What the rows of these items leave: they are in the store behind what it held, and are counted.
  pub record Parsed (held items' : List (DataItem Double)) (count : ℕ) (rows : Rows D store)
      : Type 0 where
    pub stored : Holds rows.items (held ++ items')
    pub counted : rows.data_item_count ≡ count + length items'
    pub consumed : rows.input ≡ []

  -- One row of the text and the rounds behind it.
  row_round-read :
      (rest : Rows D store → Option (Outcome (Rows D store))) (stale : ℕ → Flags)
      (rows : Rows D store) (item item' : DataItem Double) (text : List ℕ) (items : State)
      → IsReadItem D item item'
      → append item' rows.items ≡ ok items
      → row_round D store rest stale rows (true, fields_text D item text)
        ≡ rest (record {
          values = item';
          items = items;
          data_item_count = rows.data_item_count + 1;
          input = text;
        })
  unfolding row_round add_row next_rows
  row_round-read rest stale rows item item' text items printed stored =
      rw
        (
          parse_row-item_text D (stale rows.data_item_count) rows.values item item' text printed,
          stored,
        )
        refl

  row_round_last :
      (rest : Rows D store → Option (Outcome (Rows D store))) (stale : ℕ → Flags)
      (rows : Rows D store)
      → row_round D store rest stale rows (false, []) ≡ some (ok (record rows { input = [] }))
  unfolding row_round
  row_round_last rest stale rows = refl

  parse_rows-rest_text :
      (fuel : ℕ) (stale : ℕ → Flags) (first_line : Bool) (lead : List ℕ)
      (held items items' : List (DataItem Double)) (rows : Rows D store)
      → AreRead items items'
      → Avoids b'{' lead
      → rows.input ≡ lead ++ rest_text D first_line items
      → length rows.input < fuel
      → Holds rows.items held
      → HasRoom rows.items (length items)
      → (rows' : Rows D store) × (parse_rows D store fuel stale rows ≡ some (ok rows'))
        × Parsed held items' rows.data_item_count rows'
  unfolding rest_text end_text row_round
  parse_rows-rest_text zero stale first_line lead held items items' rows read avoids text enough
        holds room =
      absurd (omega arith)
  parse_rows-rest_text (suc fuel) stale first_line lead held [] [] rows read avoids text enough
        holds room =
      let (n, size) = length-text lead (b']' ∷ b'}' ∷ 10 ∷ []) 10 in
      let long : length rows.input ≡ suc n = rw text size in
      let missing =
        advance_until_missing b'{' (lead ++ end_text D)
          (append-Avoids b'{' lead (end_text D) avoids (refl, (refl, (refl, (refl, tt))))) in
      let round = row_round_last (λ rows'. parse_rows D store fuel stale rows') stale rows in
      (
        record rows { input = [] },
        parse_rows_more D store fuel n stale rows long ∙ rw (text, missing) round,
        record { stored = rw (append-nil held) holds; counted = omega arith; consumed = refl },
      )
  parse_rows-rest_text (suc fuel) stale first_line lead held [] (item' ∷ items') rows read avoids
        text enough holds room =
      absurd read
  parse_rows-rest_text (suc fuel) stale first_line lead held (item ∷ items) [] rows read avoids text
        enough holds room =
      absurd read
  parse_rows-rest_text (suc fuel) stale first_line lead held (item ∷ items) (item' ∷ items') rows
        (printed, read) avoids text enough holds room =
      let behind = rest_text D false items in
      let fields = fields_text D item behind in
      let before = lead ++ separator first_line in
      let whole : rows.input ≡ before ++ b'{' ∷ fields =
        text
        ∙ rw (item_text-append D item behind)
            (sym (append_assoc lead (separator first_line) (b'{' ∷ fields))) in
      let found : advance_until b'{' rows.input ≡ (true, fields) = rw whole (
        advance_until-Avoids b'{' before fields
          (append-Avoids b'{' lead (separator first_line) avoids (separator-Avoids first_line))) in
      let (n, size) = length-text before fields b'{' in
      let (s', stored, left) = append-HasRoom item' rows.items held (length items) holds room in
      let next : Rows D store = record {
        values = item';
        items = s';
        data_item_count = rows.data_item_count + 1;
        input = behind;
      } in
      let shorter : length behind < fuel = omega (
        arith,
        enough,
        advance_until-true b'{' rows.input fields found,
        parse_row-le D (stale 0) item' item' fields behind
            (parse_row-item_text D (stale 0) item' item item' behind printed),
      ) in
      let (rows', parsed, done) =
        parse_rows-rest_text fuel stale false [] (held ++ item' ∷ []) items items' next read tt refl
          shorter (append-Holds item' rows.items s' held holds stored) left in
      let long : length rows.input ≡ suc n = rw whole size in
      (
        rows',
        parse_rows_more D store fuel n stale rows long
            ∙ rw found (
                row_round-read (λ rows''. parse_rows D store fuel stale rows'') stale rows item
                  item' behind s' printed stored)
            ∙ parsed,
        record {
          stored = rw (← append_assoc held (item' ∷ []) items') done.stored;
          counted = omega (arith, done.counted);
          consumed = done.consumed;
        },
      )

  parse_header-start_text : (rest : List ℕ) → parse_header D (start_text D ++ rest) ≡ ok (10 ∷ rest)
  unfolding parse_header start_text expect find_string advance_until
  parse_header-start_text rest = refl

  -- The JSON file of data_gen is parsed to the end, whatever the memory held before: if the texts of the
  -- generated numbers are read as the numbers of items', these are in the store, in order, and counted.
  pub parse_file-data_gen :
      (rand : ℕ → ℕ) (clustered : Bool) (count : ℕ) (items' : List (DataItem Double))
      (stale : ℕ → Flags) (values : DataItem Double) (items : State)
      → AreRead (generated D rand clustered count) items'
      → Holds items []
      → HasRoom items count
      → (rows : Rows D store) × (parse_file D store stale values items
            (data_gen D rand clustered count).1.json
          ≡ some (ok rows))
        × Parsed [] items' 0 rows
  unfolding parse_file next_rows generated
  parse_file-data_gen rand clustered count items' stale values items read holds room =
      let body = rest_text D true (generated D rand clustered count) in
      let start : Rows D store = record {
        values = values;
        items = items;
        data_item_count = 0;
        input = 10 ∷ body;
      } in
      let enough : HasRoom items (length (generated D rand clustered count)) =
        rw (length-drawn D rand count clustered count 0 _) room in
      let (rows, parsed, done) =
        parse_rows-rest_text (suc (length start.input)) stale true (10 ∷ []) []
          (generated D rand clustered count) items' start read (refl, tt) refl (omega arith) holds
          enough in
      (rows, rw (data_gen-json D rand clustered count, parse_header-start_text body) parsed, done)
