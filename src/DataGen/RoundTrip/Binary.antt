-- ===== src/DataGen/RoundTrip/Binary.antt =====
-- data_gen/bindata_reader.c: the loop of main on the binary file that data_gen.c writes.
use mathlib.Core.List.{append_assoc, append-nil}
use computer_enhance.Shared.{
  ℕ, zero, suc, ◌+◌, ◌%◌, ◌^◌, ◌≡◌, refl, sym, ap, ◌∙◌, Bool, false, List, [], ◌∷◌, ◌++◌, ok, arith,
}
use computer_enhance.DataGen.Doubles.{Doubles}
use computer_enhance.DataGen.Items.{DataItem}
use computer_enhance.DataGen.Average.{item_distance}
use computer_enhance.DataGen.Reader.{Totals, count_row, read_rows}
use computer_enhance.DataGen.Generate.{
  Generator, Output, write_item, next_item, write_rows, first_generator, first_output, data_gen,
}
use computer_enhance.DataGen.RoundTrip.Texts.{drawn, generated}

module _ (D : Doubles) where
  open D use {Double, zero_value, differs}

  -- The distance of each item less itself is zero: it is neither infinite nor no number.
  abbrev pub AreFinite : List (DataItem Double) → Type 0
  AreFinite [] = Unit
  AreFinite (item ∷ items) =
      (differs (item_distance D item) (item_distance D item) ≡ false) × AreFinite items

  -- The doubles of the items.
  doubles : List (DataItem Double) → List Double
  doubles [] = []
  doubles (item ∷ items) =
      item.x0 ∷ item.y0 ∷ item.x1 ∷ item.y1 ∷ item_distance D item ∷ doubles items

  tally : Totals D → List (DataItem Double) → Totals D
  tally totals [] = totals
  tally totals (item ∷ items) = tally (count_row D (item_distance D item) totals) items

  read_rows-doubles :
      (totals : Totals D) (items : List (DataItem Double))
      → AreFinite items
      → read_rows D totals (doubles items) ≡ ok (tally totals items)
  unfolding read_rows doubles tally item_distance
  read_rows-doubles totals [] finite = refl
  read_rows-doubles totals (item ∷ items) (same, finite) =
      rw same (read_rows-doubles (count_row D (item_distance D item) totals) items finite)

  module _ (rand : ℕ → ℕ) where
    write_rows-binary :
        (left : ℕ) (clustered : Bool) (count i : ℕ) (g : Generator D) (out : Output D)
        → (write_rows D rand left clustered count i g out).1.binary
          ≡ out.binary ++ doubles (drawn D rand left clustered count i g)
    unfolding write_rows drawn doubles write_item item_distance
    write_rows-binary zero clustered count i g out = sym (append-nil out.binary)
    write_rows-binary (suc left) clustered count i g out =
        let (item, g') = next_item D rand clustered count i g in
        write_rows-binary left clustered count (i + 1) g' (write_item D item out)
        ∙ simp (append_assoc)

    -- The writer's sum and count are those that the reader's tally of the same items has.
    write_rows-tally :
        (left : ℕ) (clustered : Bool) (count i c read total : ℕ) (g : Generator D) (out : Output D)
        → c ≡ read % 2 ^ 32
        → total ≡ (read + left) % 2 ^ 32
        → let out' = (write_rows D rand left clustered count i g out).1 in
          tally
            (record { sum = out.sum; binary_write_count = out.binary_write_count; count = c })
            (drawn D rand left clustered count i g)
          ≡ record { sum = out'.sum; binary_write_count = out'.binary_write_count; count = total }
    unfolding write_rows drawn tally write_item count_row item_distance
    write_rows-tally zero clustered count i c read total g out is_c is_total =
        let same : c ≡ total = omega arith in rw same refl
    write_rows-tally (suc left) clustered count i c read total g out is_c is_total =
        let (item, g') = next_item D rand clustered count i g in
        write_rows-tally left clustered count (i + 1) ((c + 1) % 2 ^ 32) (read + 1) total g'
          (write_item D item out) (omega (arith, is_c)) (omega (arith, is_total))

    -- The reader accepts the binary file of data_gen if its distances are finite: it reads `count` rows
    -- (as an unsigned int), and its sum and its count of doubles are those that data_gen reports.
    pub read_rows-data_gen :
        (clustered : Bool) (count : ℕ)
        → AreFinite (generated D rand clustered count)
        → let out = (data_gen D rand clustered count).1 in
          read_rows D (record { sum = zero_value; binary_write_count = 0; count = 0 }) out.binary
          ≡ ok (record {
            sum = out.sum;
            binary_write_count = out.binary_write_count;
            count = count % 2 ^ 32;
          })
    unfolding data_gen generated first_output
    read_rows-data_gen clustered count finite =
        let first = first_generator D rand count in
        let items = drawn D rand count clustered count 0 first in
        let totals : Totals D = record { sum = zero_value; binary_write_count = 0; count = 0 } in
        ap (read_rows D totals)
          (write_rows-binary count clustered count 0 first (first_output D rand))
        ∙ read_rows-doubles totals items finite
        ∙ ap ok (
            write_rows-tally count clustered count 0 0 0 (count % 2 ^ 32) first
              (first_output D rand) (omega arith) (omega arith))
