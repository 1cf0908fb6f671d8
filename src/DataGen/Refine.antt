-- ===== src/DataGen/Refine.antt =====
-- data_gen/json_data_parser.c: parse_file over any store of items, against a plain list of items.
pub mod Loop
use mathlib.Core.List.{append_assoc}
use computer_enhance.Shared.{
  ℕ, zero, suc, ◌+◌, ◌≤◌, ◌<◌, ◌≡◌, refl, sym, ap, ◌∙◌, subst, Bool, true, false, List, [], ◌∷◌,
  ◌++◌, length, Option, none, some, Outcome, ok, exit_error, out_of_bounds, ◌>>=◌, >>=-inverse,
  arith, ◌⊎◌, inl, inr,
}
use computer_enhance.DataGen.Doubles.{Doubles}
use computer_enhance.DataGen.Items.{DataItem, ItemStore}
use computer_enhance.DataGen.Scan.{advance_until}
use computer_enhance.DataGen.Parse.{
  Flags, parse_row, parse_header, Rows, add_row, next_rows, row_round, parse_rows, parse_file,
}
use computer_enhance.DataGen.Parse.Total.{parse_rows_empty, parse_rows_more, zero_or_suc}

pub plain_append-Holds :
    {A : Type 0} (item : A) (s s' items : List A)
    → s ≡ items
    → ok (s ++ item ∷ []) ≡ ok s'
    → s' ≡ items ++ item ∷ []
plain_append-Holds item s s' items held e = rw (← held) (cc e)

-- The list of items as a store: it grows at its end and has no bound.
abbrev pub plain_store : (A : Type 0) → ItemStore A
plain_store A = record {
  State = List A;
  append = λ item items. ok (items ++ item ∷ []);
  visited = λ items. some (ok items);
  Holds = λ s items. s ≡ items;
  append-Holds = plain_append-Holds;
  visited-Holds = λ s item items held. rw held refl;
  HasRoom = λ s n. Unit;
  append-HasRoom = λ item s items n held room. (s ++ item ∷ [], refl, tt);
}

-- The variables of parse_file over the plain list.
abbrev pub Plain : Doubles → Type 0
Plain D = Rows D (plain_store (DataItem (Doubles.Double D)))

module _ (D : Doubles) (store : ItemStore (DataItem (Doubles.Double D))) where
  open D use {Double}
  open store use {State, append, Holds, append-Holds, HasRoom, append-HasRoom}

  -- The rows so far are those of the plain list, and the store holds its items.
  pub record Refines (plain : Plain D) (rows : Rows D store) : Type 0 where
    pub values : rows.values ≡ plain.values
    pub items : Holds rows.items plain.items
    pub data_item_count : rows.data_item_count ≡ plain.data_item_count
    pub input : rows.input ≡ plain.input

  pub add_row-count :
      (stale : ℕ → Flags) (plain plain' : Plain D) (input : List ℕ)
      → add_row D (plain_store (DataItem Double)) stale plain input ≡ ok plain'
      → plain'.data_item_count ≡ plain.data_item_count + 1
  unfolding add_row
  add_row-count stale plain plain' input e =
      let ((item, rest), read, e1) =
        >>=-inverse (parse_row D (stale plain.data_item_count) plain.values input) _ e in
      ground (arith, e1)

  -- A row of the plain list is a row of a store that has room for it.
  pub add_row-Refines :
      (stale : ℕ → Flags) (plain plain' : Plain D) (rows : Rows D store) (input : List ℕ) (n : ℕ)
      → Refines plain rows
      → HasRoom rows.items (suc n)
      → add_row D (plain_store (DataItem Double)) stale plain input ≡ ok plain'
      → (rows' : Rows D store) × (add_row D store stale rows input ≡ ok rows')
        × Refines plain' rows'
        × HasRoom rows'.items n
  unfolding add_row
  add_row-Refines stale plain plain' rows input n refined room e =
      let ((item, rest), read, e1) =
        >>=-inverse (parse_row D (stale plain.data_item_count) plain.values input) _ e in
      let (s', stored, left) = append-HasRoom item rows.items plain.items n refined.items room in
      let rows' : Rows D store = record {
        values = item;
        items = s';
        data_item_count = rows.data_item_count + 1;
        input = rest;
      } in
      let same : parse_row D (stale rows.data_item_count) rows.values input ≡ ok (item, rest) =
        rw (refined.data_item_count, refined.values) read in
      let after : record {
        values = item;
        items = plain.items ++ item ∷ [];
        data_item_count = plain.data_item_count + 1;
        input = rest;
      }
          ≡ plain' =
        cc e1 in
      (
        rows',
        rw (same, stored) refl,
        rw (← after) (record {
          values = refl;
          items = append-Holds item rows.items s' plain.items refined.items stored;
          data_item_count = ap (λ c. c + 1) refined.data_item_count;
          input = refl;
        }),
        left,
      )
