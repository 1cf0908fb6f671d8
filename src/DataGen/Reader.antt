-- ===== src/DataGen/Reader.antt =====
-- data_gen/bindata_reader.c: the loop of main over the doubles of the binary file.
use computer_enhance.Shared.{ℕ, ◌+◌, ◌%◌, ◌^◌, if◌then◌else◌, List, ◌∷◌, Outcome, ok, exit_error}
use computer_enhance.DataGen.Doubles.{Doubles}

module _ (D : Doubles) where
  open D use {Double, plus, differs, reference_haversine}

  pub record Totals : Type 0 where
    pub sum : Double
    pub binary_write_count : ℕ
    pub count : ℕ

  unfoldable pub count_row : Double → Totals → Totals
  count_row h_dist totals = record {
    sum = plus totals.sum h_dist;
    binary_write_count = (totals.binary_write_count + 5) % 2 ^ 32;
    count = (totals.count + 1) % 2 ^ 32;
  }

  -- `while (1)`: five reads, of which the first that fails ends the loop.
  unfoldable pub read_rows : Totals → List Double → Outcome Totals
  unfolding count_row
  read_rows totals (x0 ∷ y0 ∷ x1 ∷ y1 ∷ h_dist ∷ rest) =
      let h_dist_calc = reference_haversine x0 y0 x1 y1 in
      let further = read_rows (count_row h_dist_calc totals) rest in
      if differs h_dist h_dist_calc then exit_error else further
  read_rows totals file = ok totals
