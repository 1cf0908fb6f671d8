-- ===== src/DataGen/RoundTrip/Clusters.antt =====
-- data_gen/data_gen.c: the thresholds of the loop of main at which a new cluster begins.
use computer_enhance.Shared.{
  ℕ, zero, suc, ◌+◌, ◌*◌, ◌/◌, ◌<◌, ◌≤◌, ◌≡◌, refl, ◌∙◌, ◌==◌, ap, ◌⊎◌, true, arith, Bool-cases,
  inl, inr,
}
use computer_enhance.DataGen.Doubles.{Doubles}
use computer_enhance.DataGen.Generate.{
  Generator, Output, get_random_data, draw_item, new_cluster, next_item, write_item, write_rows,
  first_generator, first_output, data_gen,
}

module _ (D : Doubles) (rand : ℕ → ℕ) where
  -- Before round i, the threshold is the next round at which a cluster begins: the number of clusters
  -- times a quarter of the count.
  record InCluster (count i : ℕ) (g : Generator D) : Type 0 where
    threshold : g.cluster_threshold ≡ g.num_clusters * (count / 4)
    before : i ≤ g.cluster_threshold
    behind : (g.num_clusters ≡ 1) ⊎ (g.cluster_threshold < i + count / 4)

  draw_item-clusters :
      (fx fy : Doubles.Double D → Doubles.Double D) (rx ry : ℕ) (g : Generator D)
      → let g' = (draw_item D rand fx fy rx ry g).1 in
        (g'.cluster_threshold ≡ g.cluster_threshold) × (g'.num_clusters ≡ g.num_clusters)
  unfolding draw_item get_random_data
  draw_item-clusters fx fy rx ry g = (refl, refl)

  InCluster-same :
      (count i : ℕ) (g g' : Generator D)
      → g'.cluster_threshold ≡ g.cluster_threshold
      → g'.num_clusters ≡ g.num_clusters
      → InCluster count i g
      → InCluster count i g'
  InCluster-same count i g g' threshold number held = record {
    threshold = rw (threshold, number) held.threshold;
    before = rw threshold held.before;
    behind = rw (threshold, number) held.behind;
  }

  quarters :
      (n threshold count : ℕ)
      → 4 ≤ count
      → threshold ≡ n * (count / 4)
      → 0 + count ≤ threshold
      → (n ≡ 1) ⊎ (threshold < 0 + count + count / 4)
      → (count ≤ n * (count / 4)) × (n * (count / 4) < count + count / 4)
  quarters n threshold count enough same before (inl one) =
      let single : n * (count / 4) ≡ count / 4 = rw one (omega arith) in (omega arith, omega arith)
  quarters n threshold count enough same before (inr behind) = (omega arith, omega arith)

  next_quarter : (n q : ℕ) → n * q + q ≡ (n + 1) * q
  next_quarter n q = grind arith

  new_cluster-InCluster :
      (count i : ℕ) (g : Generator D)
      → 4 ≤ count
      → InCluster count i g
      → InCluster count (i + 1) (new_cluster D rand count i g)
  unfolding new_cluster get_random_data
  new_cluster-InCluster count i g enough held = elim (Bool-cases (i == g.cluster_threshold)) [
    | inl here ↦ rw here (record {
      threshold = ap (λ t. t + count / 4) held.threshold ∙ next_quarter g.num_clusters (count / 4);
      before = omega (arith, held.before);
      behind = inr (ground (arith, here));
    })
    | inr other ↦ rw other (record {
      threshold = held.threshold;
      before = ground (arith, other, held.before);
      behind = elim held.behind [ inl one ↦ inl one | inr behind ↦ inr (omega arith) ];
    })
  ]

  write_rows-InCluster :
      (left count i : ℕ) (g : Generator D) (out : Output D)
      → 4 ≤ count
      → InCluster count i g
      → InCluster count (i + left) ((write_rows D rand left true count i g out).0)
  unfolding write_rows next_item
  write_rows-InCluster zero count i g out enough held =
      let same : i + 0 ≡ i = omega arith in rw same held
  write_rows-InCluster (suc left) count i g out enough held =
      let (item, g') = next_item D rand true count i g in
      let after = new_cluster-InCluster count i g enough held in
      let c = new_cluster D rand count i g in
      let (threshold, number) =
        draw_item-clusters (D.plus c.cluster_x) (D.plus c.cluster_y) 45 22 c in
      let size : i + suc left ≡ i + 1 + left = omega arith in
      rw size (
        write_rows-InCluster left count (i + 1) g' (write_item D item out) enough
          (InCluster-same count (i + 1) (new_cluster D rand count i g) g' threshold number after))

  -- In the clustered mode with at least four pairs, the number of clusters is count / (count / 4), rounded
  -- up: that many quarters cover the pairs, and one less does not.
  pub num_clusters-data_gen :
      (count : ℕ)
      → 4 ≤ count
      → let n = (data_gen D rand true count).0.num_clusters in
        (count ≤ n * (count / 4)) × (n * (count / 4) < count + count / 4)
  unfolding data_gen first_generator
  num_clusters-data_gen count enough =
      let start : InCluster count 0 (first_generator D rand count) = record {
        threshold = omega arith;
        before = omega arith;
        behind = inl refl;
      } in
      let held =
        write_rows-InCluster count count 0 (first_generator D rand count) (first_output D rand)
          enough start in
      let last =
        (write_rows D rand count true count 0 (first_generator D rand count)
          (first_output D rand)).0 in
      quarters last.num_clusters last.cluster_threshold count enough held.threshold held.before
        held.behind
