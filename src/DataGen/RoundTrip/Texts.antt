-- ===== src/DataGen/RoundTrip/Texts.antt =====
-- data_gen/data_gen.c: the items that the loop of main draws, and the text that it prints of them.
use mathlib.Core.List.{append_assoc}
use computer_enhance.Shared.{
  ℕ, zero, suc, ◌+◌, ◌≡◌, refl, ap, ◌∙◌, Bool, true, false, not, if◌then◌else◌, List, [], ◌∷◌, ◌++◌,
  length,
}
use computer_enhance.DataGen.Doubles.{Doubles}
use computer_enhance.DataGen.Items.{DataItem}
use computer_enhance.DataGen.Generate.{
  Generator, Output, item_text, write_item, start_text, end_text, next_item, write_rows,
  first_generator, first_output, data_gen,
}

-- What separates an item from the one before it.
abbrev pub separator : Bool → List ℕ
separator first_line = if not first_line then b',' ∷ 10 ∷ [] else []

module _ (D : Doubles) where
  open D use {Double}

  -- The rest of the file, from the separator of the first of these items on.
  unfoldable pub rest_text : Bool → List (DataItem Double) → List ℕ
  rest_text first_line [] = end_text D
  rest_text first_line (item ∷ items) =
      separator first_line ++ (item_text D item ++ rest_text false items)

  module _ (rand : ℕ → ℕ) where
    -- The items that the rounds draw.
    unfoldable pub drawn : ℕ → Bool → ℕ → ℕ → Generator D → List (DataItem Double)
    drawn zero clustered count i g = []
    drawn (suc left) clustered count i g =
        let (item, g') = next_item D rand clustered count i g in
        item ∷ drawn left clustered count (i + 1) g'

    -- All items of a run of data_gen.
    unfoldable pub generated : Bool → ℕ → List (DataItem Double)
    generated clustered count = drawn count clustered count 0 (first_generator D rand count)

    pub length-drawn :
        (left : ℕ) (clustered : Bool) (count i : ℕ) (g : Generator D)
        → length (drawn left clustered count i g) ≡ left
    unfolding drawn
    length-drawn zero clustered count i g = refl
    length-drawn (suc left) clustered count i g =
        ap suc (length-drawn left clustered count (i + 1) _)

    write_rows-json :
        (left : ℕ) (clustered : Bool) (count i : ℕ) (g : Generator D) (out : Output D)
        → (write_rows D rand left clustered count i g out).1.json ++ end_text D
          ≡ out.json ++ rest_text out.first_line (drawn left clustered count i g)
    unfolding write_rows drawn rest_text write_item
    write_rows-json zero clustered count i g out = refl
    write_rows-json (suc left) clustered count i g out =
        let (item, g') = next_item D rand clustered count i g in
        write_rows-json left clustered count (i + 1) g' (write_item D item out)
        ∙ simp (append_assoc)

    pub data_gen-json :
        (clustered : Bool) (count : ℕ)
        → (data_gen D rand clustered count).1.json
          ≡ start_text D ++ rest_text true (generated clustered count)
    unfolding data_gen generated first_output
    data_gen-json clustered count =
        write_rows-json count clustered count 0 (first_generator D rand count) (first_output D rand)
