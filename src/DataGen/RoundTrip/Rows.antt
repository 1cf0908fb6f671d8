-- ===== src/DataGen/RoundTrip/Rows.antt =====
-- data_gen/json_data_parser.c: parse_row on the text of an item that data_gen.c prints.
use mathlib.Core.List.{append_assoc}
use computer_enhance.Shared.{
  ℕ, suc, ◌<◌, ◌≡◌, refl, ◌∙◌, ◌==◌, Bool, true, false, if◌then◌else◌, List, [], ◌∷◌, ◌++◌, length,
  some, ok, arith,
}
use computer_enhance.DataGen.Doubles.{Doubles}
use computer_enhance.DataGen.Items.{DataItem}
use computer_enhance.DataGen.Scan.{advance_until, extract_until, c_string}
use computer_enhance.DataGen.Parse.{
  FoundItem, found_x0, found_y0, found_x1, found_y1, identify, same_text, Flags, Row, set_value,
  read_number, parse_value, parse_item, next_items, parse_items, parse_row,
}
use computer_enhance.DataGen.Generate.{item_text}
use computer_enhance.DataGen.RoundTrip.Scans.{
  Avoids, advance_until-Avoids, extract_until-Avoids, terminated-Avoids,
}

-- The name of an item in the text.
abbrev pub name : FoundItem → List ℕ
name found_x0 = b'x' ∷ b'0' ∷ []
name found_y0 = b'y' ∷ b'0' ∷ []
name found_x1 = b'x' ∷ b'1' ∷ []
name found_y1 = b'y' ∷ b'1' ∷ []

identify-name : (item : FoundItem) → identify (c_string (name item)) ≡ ok item
unfolding identify same_text c_string
identify-name found_x0 = refl
identify-name found_y0 = refl
identify-name found_x1 = refl
identify-name found_y1 = refl

extract_until-name :
    (item : FoundItem) (rest : List ℕ)
    → extract_until 8 b'"' (name item ++ b'"' ∷ rest) ≡ ok (name item, rest)
unfolding extract_until
extract_until-name found_x0 rest = refl
extract_until-name found_y0 rest = refl
extract_until-name found_x1 rest = refl
extract_until-name found_y1 rest = refl

module _ (D : Doubles) where
  open D use {Double, scan, print}

  -- The text of the number x fits the parser's buffer, has no separator in it, and is read as x'.
  pub record IsRead (x x' : Double) : Type 0 where
    pub no_comma : Avoids b',' (print x)
    pub no_brace : Avoids b'}' (print x)
    pub no_end : Avoids 0 (print x)
    pub short : length (print x) < 64
    pub read : scan (print x) ≡ some x'

  pub record IsReadItem (item item' : DataItem Double) : Type 0 where
    pub x0 : IsRead item.x0 item'.x0
    pub y0 : IsRead item.y0 item'.y0
    pub x1 : IsRead item.x1 item'.x1
    pub y1 : IsRead item.y1 item'.y1

  parse_value-IsRead :
      (last : Bool) (item : FoundItem) (row : Row D) (x x' : Double) (rest : List ℕ)
      → IsRead x x'
      → parse_value D last item row (true, print x ++ (if last then b'}' else b',') ∷ rest)
        ≡ ok (true, set_value D item x' row, rest)
  unfolding parse_value read_number
  parse_value-IsRead true item row x x' rest printed =
      rw
        (
          extract_until-Avoids 64 b'}' (print x) rest printed.no_brace
              (omega (arith, printed.short)),
          terminated-Avoids 64 (print x) printed.no_end printed.short,
          printed.read,
        )
        refl
  parse_value-IsRead false item row x x' rest printed =
      rw
        (
          extract_until-Avoids 64 b',' (print x) rest printed.no_comma
              (omega (arith, printed.short)),
          terminated-Avoids 64 (print x) printed.no_end printed.short,
          printed.read,
        )
        refl

  pub parse_item-IsRead :
      (last : Bool) (item : FoundItem) (row : Row D) (x x' : Double) (rest : List ℕ)
      → IsRead x x'
      → parse_item D last row
          (true, name item ++ b'"' ∷ b':' ∷ (print x ++ (if last then b'}' else b',') ∷ rest))
        ≡ ok (true, set_value D item x' row, rest)
  unfolding parse_item advance_until
  parse_item-IsRead last item row x x' rest printed =
      rw
        (
          extract_until-name item (b':' ∷ (print x ++ (if last then b'}' else b',') ∷ rest)),
          identify-name item,
        )
        (parse_value-IsRead last item row x x' rest printed)

  -- The text of an item behind its '{', and what follows the item.
  abbrev pub fields_text : DataItem Double → List ℕ → List ℕ
  fields_text item rest =
      b'"'
      ∷ (name found_x0
          ++ b'"'
            ∷ b':'
            ∷ (print item.x0
                ++ b','
                  ∷ b' '
                  ∷ b'"'
                  ∷ (name found_y0
                      ++ b'"'
                        ∷ b':'
                        ∷ (print item.y0
                            ++ b','
                              ∷ b' '
                              ∷ b'"'
                              ∷ (name found_x1
                                  ++ b'"'
                                    ∷ b':'
                                    ∷ (print item.x1
                                        ++ b','
                                          ∷ b' '
                                          ∷ b'"'
                                          ∷ (name found_y1
                                              ++ b'"' ∷ b':' ∷ (print item.y1 ++ b'}' ∷ rest))))))))

  pub item_text-append :
      (item : DataItem Double) (rest : List ℕ)
      → item_text D item ++ rest ≡ b'{' ∷ fields_text item rest
  unfolding item_text
  item_text-append item rest = simp (append_assoc)

  parse_items-next :
      (left : ℕ) (item : FoundItem) (row : Row D) (x x' : Double) (before rest : List ℕ)
      → IsRead x x'
      → Avoids b'"' before
      → parse_items D (suc left) row (
          before
          ++ b'"'
            ∷ (name item ++ b'"' ∷ b':' ∷ (print x ++ (if left == 0 then b'}' else b',') ∷ rest)))
        ≡ parse_items D left (set_value D item x' row) rest
  unfolding parse_items next_items
  parse_items-next left item row x x' before rest printed avoids =
      rw
        (
          advance_until-Avoids b'"' before
              (name item ++ b'"' ∷ b':' ∷ (print x ++ (if left == 0 then b'}' else b',') ∷ rest))
              avoids,
          parse_item-IsRead (left == 0) item row x x' rest printed,
        )
        refl

  parse_items_none : (row : Row D) (input : List ℕ) → parse_items D 0 row input ≡ ok (row, input)
  unfolding parse_items
  parse_items_none row input = refl

  parse_items-fields_text :
      (stale : Flags) (values item item' : DataItem Double) (rest : List ℕ)
      → IsReadItem item item'
      → parse_items D 4 (record { values = values; flags = stale }) (fields_text item rest)
        ≡ ok (
          record { values = item'; flags = record { x0 = true; y0 = true; x1 = true; y1 = true } },
          rest,
        )
  unfolding set_value
  parse_items-fields_text stale values item item' rest printed =
      parse_items-next 3 found_x0 (record { values = values; flags = stale }) item.x0 item'.x0 [] _
        printed.x0 tt
      ∙ parse_items-next 2 found_y0 _ item.y0 item'.y0 (b' ' ∷ []) _ printed.y0 (refl, tt)
      ∙ parse_items-next 1 found_x1 _ item.x1 item'.x1 (b' ' ∷ []) _ printed.x1 (refl, tt)
      ∙ parse_items-next 0 found_y1 _ item.y1 item'.y1 (b' ' ∷ []) rest printed.y1 (refl, tt)
      ∙ parse_items_none
          (record { values = item'; flags = record { x0 = true; y0 = true; x1 = true; y1 = true } })
          rest

  -- A printed row is read whatever the flags and the values held before.
  pub parse_row-item_text :
      (stale : Flags) (values item item' : DataItem Double) (rest : List ℕ)
      → IsReadItem item item'
      → parse_row D stale values (fields_text item rest) ≡ ok (item', rest)
  unfolding parse_row
  parse_row-item_text stale values item item' rest printed =
      rw (parse_items-fields_text stale values item item' rest printed) refl
