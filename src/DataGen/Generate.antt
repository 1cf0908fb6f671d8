-- ===== src/DataGen/Generate.antt =====
-- data_gen/data_gen.c: get_random_data and the loop of main that draws the pairs and writes the JSON and
-- the binary file.
use computer_enhance.Shared.{
  ℕ, zero, suc, ◌+◌, ◌/◌, ◌%◌, ◌^◌, ◌==◌, Bool, true, false, not, ◌&&◌, if◌then◌else◌, List, [],
  ◌∷◌, ◌++◌,
}
use computer_enhance.DataGen.Doubles.{Doubles}
use computer_enhance.DataGen.Items.{DataItem}

-- X_RADIUS, Y_RADIUS and NUM_CLUSTERS
abbrev pub x_radius : ℕ
x_radius = 180

abbrev pub y_radius : ℕ
y_radius = 90

abbrev pub num_clusters_wanted : ℕ
num_clusters_wanted = 4

module _ (D : Doubles) where
  open D use {
    Double, zero_value, less, equal, plus, over, difference, times, rand_max, reference_haversine,
    print,
  }

  -- The least and greatest positive and negative numbers drawn.
  pub record Extremes : Type 0 where
    pub pos_min : Double
    pub pos_max : Double
    pub neg_min : Double
    pub neg_max : Double

  unfoldable pub note_positive : Double → Extremes → Extremes
  note_positive fnum e = record e {
    pos_max = if less e.pos_max fnum then fnum else e.pos_max;
    pos_min =
        if equal e.pos_min zero_value && not (equal fnum zero_value)
        then fnum
        else if less fnum e.pos_min
        then fnum
        else e.pos_min;
  }

  unfoldable pub note_negative : Double → Extremes → Extremes
  note_negative fnum e = record e {
    neg_max = if less fnum e.neg_max then fnum else e.neg_max;
    neg_min =
        if equal e.neg_min zero_value && not (equal fnum zero_value)
        then fnum
        else if less e.neg_min fnum
        then fnum
        else e.neg_min;
  }

  -- The number of calls of rand, the extremes, and the variables of the clusters.
  pub record Generator : Type 0 where
    pub calls : ℕ
    pub extremes : Extremes
    pub cluster_x : Double
    pub cluster_y : Double
    pub cluster_threshold : ℕ
    pub num_clusters : ℕ

  -- The two files and the variables of their loop.
  pub record Output : Type 0 where
    pub json : List ℕ
    pub binary : List Double
    pub sum : Double
    pub binary_write_count : ℕ
    pub first_line : Bool

  -- {"x0":%3.16f, "y0":%3.16f, "x1":%3.16f, "y1":%3.16f}
  unfoldable pub item_text : DataItem Double → List ℕ
  item_text item =
      b'{'
      ∷ b'"'
      ∷ b'x'
      ∷ b'0'
      ∷ b'"'
      ∷ b':'
      ∷ (print item.x0
          ++ (b','
              ∷ b' '
              ∷ b'"'
              ∷ b'y'
              ∷ b'0'
              ∷ b'"'
              ∷ b':'
              ∷ (print item.y0
                  ++ (b','
                      ∷ b' '
                      ∷ b'"'
                      ∷ b'x'
                      ∷ b'1'
                      ∷ b'"'
                      ∷ b':'
                      ∷ (print item.x1
                          ++ (b','
                              ∷ b' '
                              ∷ b'"'
                              ∷ b'y'
                              ∷ b'1'
                              ∷ b'"'
                              ∷ b':'
                              ∷ (print item.y1 ++ b'}' ∷ [])))))))

  -- The second half of a round: the distance, the row of the JSON file, and five doubles.
  unfoldable pub write_item : DataItem Double → Output → Output
  unfolding item_text
  write_item item out =
      let h_dist = reference_haversine item.x0 item.y0 item.x1 item.y1 in
      record {
        json = out.json ++ (if not out.first_line then b',' ∷ 10 ∷ [] else []) ++ item_text item;
        binary = out.binary ++ item.x0 ∷ item.y0 ∷ item.x1 ∷ item.y1 ∷ h_dist ∷ [];
        sum = plus out.sum h_dist;
        binary_write_count = (out.binary_write_count + 5) % 2 ^ 32;
        first_line = false;
      }

  -- {"pairs":[ and a line feed
  unfoldable pub start_text : List ℕ
  start_text = b'{' ∷ b'"' ∷ b'p' ∷ b'a' ∷ b'i' ∷ b'r' ∷ b's' ∷ b'"' ∷ b':' ∷ b'[' ∷ 10 ∷ []

  unfoldable pub end_text : List ℕ
  end_text = 10 ∷ b']' ∷ b'}' ∷ 10 ∷ []

  -- The n-th call of rand returns `rand n`.
  module _ (rand : ℕ → ℕ) where
    unfoldable pub get_random_data : ℕ → Generator → Double × Generator
    unfolding note_positive note_negative
    get_random_data radius g =
        let rnum = rand g.calls in
        let fnum = times (times (over (difference rnum (rand_max / 2)) rand_max) 2) radius in
        (
          fnum,
          record g {
            calls = g.calls + 1;
            extremes =
                if less zero_value fnum
                then note_positive fnum g.extremes
                else note_negative fnum g.extremes;
          },
        )

    -- X0, Y0, X1 and Y1 in this order, each moved by its origin.
    unfoldable pub draw_item :
        (Double → Double) → (Double → Double) → ℕ → ℕ → Generator → DataItem Double × Generator
    unfolding get_random_data
    draw_item from_x from_y rx ry g =
        let (x0, g1) = get_random_data rx g in
        let (y0, g2) = get_random_data ry g1 in
        let (x1, g3) = get_random_data rx g2 in
        let (y1, g4) = get_random_data ry g3 in
        (record { x0 = from_x x0; y0 = from_y y0; x1 = from_x x1; y1 = from_y y1 }, g4)

    -- A new origin, when the round is the threshold's.
    unfoldable pub new_cluster : ℕ → ℕ → Generator → Generator
    unfolding get_random_data
    new_cluster count i g =
        if i == g.cluster_threshold
        then (let (x, g1) = get_random_data x_radius g in
            let (y, g2) = get_random_data y_radius g1 in
            record g2 {
              cluster_x = x;
              cluster_y = y;
              num_clusters = g2.num_clusters + 1;
              cluster_threshold = g2.cluster_threshold + count / num_clusters_wanted;
            })
        else g

    -- The first half of a round.
    unfoldable pub next_item : Bool → ℕ → ℕ → Generator → DataItem Double × Generator
    unfolding draw_item new_cluster
    next_item true count i g =
        let g' = new_cluster count i g in
        draw_item (plus g'.cluster_x) (plus g'.cluster_y) (x_radius / 4) (y_radius / 4) g'
    next_item false count i g = draw_item (λ x. x) (λ y. y) x_radius y_radius g

    -- `for (uint64_t i=0; i<count; i++)`, with the number of rounds that are left.
    unfoldable pub write_rows : ℕ → Bool → ℕ → ℕ → Generator → Output → Generator × Output
    write_rows zero clustered count i g out = (g, out)
    write_rows (suc left) clustered count i g out =
        let (item, g') = next_item clustered count i g in
        write_rows left clustered count (i + 1) g' (write_item item out)

    unfoldable pub first_generator : ℕ → Generator
    first_generator count = record {
      calls = 0;
      extremes = record {
        pos_min = zero_value;
        pos_max = zero_value;
        neg_min = zero_value;
        neg_max = zero_value;
      };
      cluster_x = zero_value;
      cluster_y = zero_value;
      cluster_threshold = count / num_clusters_wanted;
      num_clusters = 1;
    }

    unfoldable pub first_output : Output
    unfolding start_text
    first_output = record {
      json = start_text;
      binary = [];
      sum = zero_value;
      binary_write_count = 0;
      first_line = true;
    }

    -- main, from the start of the JSON structure to its end.
    unfoldable pub data_gen : Bool → ℕ → Generator × Output
    unfolding write_rows first_generator first_output end_text
    data_gen clustered count =
        let (g, out) = write_rows count clustered count 0 (first_generator count) first_output in
        (g, record out { json = out.json ++ end_text })
