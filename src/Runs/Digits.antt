-- ===== src/Runs/Digits.antt =====
-- data_gen with digits for doubles, printed with leading zeros, and two rows of them.
use computer_enhance.Shared.{
  ℕ, zero, suc, ◌+◌, ◌*◌, ◌/◌, ◌%◌, ◌<◌, ◌≡◌, refl, ap, ◌∙◌, ◌==◌, not, false, ltb, List, [], ◌∷◌,
  length, Option, none, some, arith,
}
use computer_enhance.DataGen.Doubles.{Doubles}
use computer_enhance.DataGen.Items.{DataItem, ItemStore}
use computer_enhance.DataGen.Store.Arrays.{ItemArray}
use computer_enhance.DataGen.Store.Chain.{IsFresh}
use computer_enhance.DataGen.Parse.{Flags}
use computer_enhance.DataGen.Generate.{get_random_data, draw_item, next_item, first_generator}
use computer_enhance.DataGen.RoundTrip.Scans.{Avoids}
use computer_enhance.DataGen.RoundTrip.Rows.{IsRead, IsReadItem}
use computer_enhance.DataGen.RoundTrip.Texts.{drawn, generated}
use computer_enhance.DataGen.RoundTrip.Files.{AreRead}

-- So many zeros and a digit.
unfoldable pub zeros : ℕ → ℕ → List ℕ
zeros zero digit = digit ∷ []
zeros (suc n) digit = b'0' ∷ zeros n digit

unfoldable pub last_digit : List ℕ → Option ℕ
last_digit [] = none
last_digit (b ∷ []) = some (b % 48)
last_digit (b ∷ c ∷ text) = last_digit (c ∷ text)

-- Digits for doubles, with a sum for the distance.
abbrev pub digits : Doubles
digits = record {
  Double = ℕ;
  zero_value = 0;
  less = ltb;
  equal = λ a b. a == b;
  plus = λ a b. a + b;
  over = λ a n. a / n;
  differs = λ a b. not (a == b);
  difference = λ a b. a;
  times = λ a n. (a + n) % 10;
  rand_max = 1;
  reference_haversine = λ x0 y0 x1 y1. x0 + y0 + x1 + y1;
  scan = last_digit;
  print = λ x. zeros 17 (b'0' + x);
}

abbrev pub rand : ℕ → ℕ
rand n = 3 * n + 1

-- The two rows that are drawn of it.
abbrev pub two_items : List (DataItem ℕ)
two_items =
    record { x0 = 3; y0 = 6; x1 = 9; y1 = 2 } ∷ record { x0 = 5; y0 = 8; x1 = 1; y1 = 4 } ∷ []

pub two_items-generated : generated digits rand false 2 ≡ two_items
unfolding generated drawn next_item draw_item get_random_data first_generator
two_items-generated = refl

pub zeros-Avoids :
    (target n digit : ℕ)
    → (b'0' == target) ≡ false
    → (digit == target) ≡ false
    → Avoids target (zeros n digit)
unfolding zeros
zeros-Avoids target zero digit zero_other other = (other, tt)
zeros-Avoids target (suc n) digit zero_other other =
    (zero_other, zeros-Avoids target n digit zero_other other)

pub length-zeros : (n digit : ℕ) → length (zeros n digit) ≡ suc n
unfolding zeros
length-zeros zero digit = refl
length-zeros (suc n) digit = omega (arith, length-zeros n digit)

pub last_digit-zeros : (n digit : ℕ) → last_digit (zeros n digit) ≡ some (digit % 48)
unfolding zeros last_digit
last_digit-zeros zero digit = refl
last_digit-zeros (suc zero) digit = refl
last_digit-zeros (suc (suc n)) digit = last_digit-zeros (suc n) digit

pub digit-IsRead : (x : ℕ) → x < 10 → IsRead digits x x
digit-IsRead x h = record {
  no_comma = zeros-Avoids b',' 17 (b'0' + x) refl (ground arith);
  no_brace = zeros-Avoids b'}' 17 (b'0' + x) refl (ground arith);
  no_end = zeros-Avoids 0 17 (b'0' + x) refl (ground arith);
  short = omega (arith, length-zeros 17 (b'0' + x));
  read =
      let value : (b'0' + x) % 48 ≡ x = omega arith in
      last_digit-zeros 17 (b'0' + x) ∙ ap some value;
}

pub digits-IsReadItem :
    (item : DataItem ℕ)
    → item.x0 < 10
    → item.y0 < 10
    → item.x1 < 10
    → item.y1 < 10
    → IsReadItem digits item item
digits-IsReadItem item h0 h1 h2 h3 = record {
  x0 = digit-IsRead item.x0 h0;
  y0 = digit-IsRead item.y0 h1;
  x1 = digit-IsRead item.x1 h2;
  y1 = digit-IsRead item.y1 h3;
}

abbrev pub zero_item : DataItem ℕ
zero_item = record { x0 = 0; y0 = 0; x1 = 0; y1 = 0 }

abbrev pub unset : ℕ → Flags
unset n = record { x0 = false; y0 = false; x1 = false; y1 = false }

-- data_array with room for three items, and a malloc that returns every 32nd address.
abbrev pub three_places : ItemArray (DataItem ℕ)
three_places = record { data_array = λ i. zero_item; item_estimate = 3; data_item_count = 0 }

abbrev pub bump : ℕ → Option ℕ
bump n = some (32 * n + 64)

pub some_injective : (a b : ℕ) → some a ≡ some b → a ≡ b
some_injective a b e = cc e

pub bump-IsFresh : IsFresh bump
bump-IsFresh i j p e f =
    omega (arith, some_injective (32 * i + 64) p e, some_injective (32 * j + 64) p f)

pub two_items-AreRead :
    (store : ItemStore (DataItem ℕ))
    → AreRead digits store (generated digits rand false 2) two_items
two_items-AreRead store = rw two_items-generated (
  digits-IsReadItem (record { x0 = 3; y0 = 6; x1 = 9; y1 = 2 }) (omega arith) (omega arith)
      (omega arith) (omega arith),
  (
    digits-IsReadItem (record { x0 = 5; y0 = 8; x1 = 1; y1 = 4 }) (omega arith) (omega arith)
        (omega arith) (omega arith),
    tt,
  ),
)
