-- ===== src/DataGen/Store/Chain.antt =====
-- data_gen/json_data_parser.c: the nodes of the linked list, one for each item in order.
use computer_enhance.Shared.{
  ℕ, zero, suc, ◌+◌, ◌≤◌, ◌<◌, ◌≡◌, ◌≢◌, refl, sym, subst, ◌∙◌, ◌==◌, ltb, if◌then◌else◌, List, [],
  ◌∷◌, ◌++◌, length, get_elem?, Option, none, some, ok, arith, Bool-cases, inl, inr,
}
use computer_enhance.DataGen.Store.Elements.{get_elem?-snoc, get_elem?-lt, first_elem, length-snoc}
use computer_enhance.DataGen.Store.Linked.{
  ListItem, ItemList, store_node, link_tail, add_to_list, list_append_at, list_append, prepend,
  walk, list_visited_from, list_visited, empty_list,
}

-- No two calls of malloc return the same address, since nothing is freed.
abbrev pub IsFresh : (ℕ → Option ℕ) → Type 0
IsFresh malloc = (i j p : ℕ) → malloc i ≡ some p → malloc j ≡ some p → i ≡ j

module _ (malloc : ℕ → Option ℕ) where
  -- The pointer to the k-th of n nodes, and to the last one.
  unfoldable pub link : ℕ → ℕ → Option ℕ
  link n k = if ltb k n then malloc k else none

  unfoldable pub last_link : ℕ → Option ℕ
  last_link zero = none
  last_link (suc n) = malloc n

-- The k-th node holds the k-th item and points to the next.
pub record ListHolds {A : Type 0} (malloc : ℕ → Option ℕ) (s : ItemList A) (items : List A)
    : Type 0 where
  pub counted : s.allocated ≡ length items
  pub head : s.list_head ≡ link malloc (length items) 0
  pub tail : s.list_tail ≡ last_link malloc (length items)
  pub node :
      (k : ℕ) (a : A)
      → get_elem? items k ≡ some a
      → (p : ℕ) × (malloc k ≡ some p)
        × (s.nodes p
            ≡ some (record { data_item = a; next_item = link malloc (length items) (k + 1) }))

module _ {A : Type 0} {malloc : ℕ → Option ℕ} (fresh : IsFresh malloc) where
  pub empty_list-Holds : ListHolds malloc (empty_list A) []
  unfolding empty_list link last_link
  empty_list-Holds = record {
    counted = refl;
    head = ground arith;
    tail = refl;
    node = λ k a e. absurd (cc e);
  }

  malloc_inverse :
      (o : Option ℕ) (value : A) (s s' : ItemList A)
      → list_append_at o value s ≡ ok s'
      → (q : ℕ) × (o ≡ some q) × (list_append_at (some q) value s ≡ ok s')
  unfolding list_append_at
  malloc_inverse none value s s' e = absurd (cc e)
  malloc_inverse (some q) value s s' e = (q, refl, e)

  append-first :
      (value : A) (s s' : ItemList A)
      → ListHolds malloc s []
      → list_append malloc value s ≡ ok s'
      → ListHolds malloc s' (value ∷ [])
  unfolding list_append list_append_at add_to_list link last_link
  append-first value s s' held e =
      let (q, is_q, e1) = malloc_inverse (malloc s.allocated) value s s' e in
      let at : malloc 0 ≡ some q = rw (← held.counted) is_q in
      let new : ListItem A = record { data_item = value; next_item = none } in
      let stored : record s {
        nodes = store_node s.nodes q new;
        list_head = some q;
        list_tail = some q;
        allocated = s.allocated + 1;
      }
          ≡ s' =
        cc (rw held.head at e1) in
      subst (λ z. ListHolds malloc z (value ∷ [])) stored
        (record {
          counted = omega (arith, held.counted);
          head = ground (arith, at);
          tail = sym at;
          node = λ k a here.
              let (first, same) = first_elem value k a here in
              (q, ground (arith, first, at), ground (arith, first, same));
        })

  -- The two writes of an append behind a last node: the new node q and the old tail t.
  module _ (xs : List A) (value a' : A) (nodes : ℕ → Option (ListItem A)) (m q t : ℕ)
      (size : length xs ≡ suc m) (is_q : malloc (suc m) ≡ some q) (is_t : malloc m ≡ some t)
      (is_a : get_elem? xs m ≡ some a') where
    new_nodes : ℕ → Option (ListItem A)
    new_nodes =
        store_node (store_node nodes q (record { data_item = value; next_item = none })) t
          (record { data_item = a'; next_item = some q })

    tail-ne-new : t ≢ q
    tail-ne-new same = omega (arith, fresh m (suc m) q (rw (← same) is_t) is_q)

    last_node :
        new_nodes q
        ≡ some (record { data_item = value; next_item = link malloc (suc (length xs)) (suc m + 1) })
    unfolding new_nodes link
    last_node = elim (Bool-cases (t == q)) [
      | inl same ↦ absurd (tail-ne-new (ground (arith, same)))
      | inr other ↦ rw other (ground (arith, size))
    ]

    inner_node :
        (k p : ℕ) (a : A)
        → malloc k ≡ some p
        → k < suc m
        → get_elem? xs k ≡ some a
        → nodes p ≡ some (record { data_item = a; next_item = link malloc (length xs) (k + 1) })
        → new_nodes p
          ≡ some (record { data_item = a; next_item = link malloc (suc (length xs)) (k + 1) })
    unfolding new_nodes link
    inner_node k p a is_p inner here old = elim (Bool-cases (k == m)) [
      | inl last ↦ ground (arith, last, size, is_p, is_t, is_q, is_a, here)
      | inr before ↦
          ground (arith, before, size, old, fresh k m p is_p, fresh k (suc m) p is_p, is_t, is_q)
    ]

    new_node :
        ((k : ℕ) (a : A)
          → get_elem? xs k ≡ some a
          → (p : ℕ) × (malloc k ≡ some p)
            × (nodes p
                ≡ some (record { data_item = a; next_item = link malloc (length xs) (k + 1) })))
        → (k : ℕ) (a : A) → get_elem? (xs ++ value ∷ []) k ≡ some a
        → (p : ℕ) × (malloc k ≡ some p)
          × (new_nodes p
              ≡ some (record { data_item = a; next_item = link malloc (suc (length xs)) (k + 1) }))
    new_node node k a here = elim (Bool-cases (ltb k (suc m))) [
      | inl inner ↦
          let old : get_elem? xs k ≡ some a =
            ground (arith, get_elem?-snoc xs value k, here, inner, size) in
          let (p, is_p, is_node) = node k a old in
          (p, is_p, inner_node k p a is_p (ground (arith, inner)) old is_node)
      | inr other ↦
          let last : k ≡ suc m = ground (arith, get_elem?-snoc xs value k, here, other, size) in
          let same : a ≡ value = ground (arith, get_elem?-snoc xs value k, here, last, size) in
          (q, rw last is_q, rw (last, same) last_node)
    ]

  add_to_list-tail :
      (q h t : ℕ) (a' : A) (next : Option ℕ) (s : ItemList A)
      → s.list_head ≡ some h
      → s.list_tail ≡ some t
      → s.nodes t ≡ some (record { data_item = a'; next_item = next })
      → add_to_list q s.list_head s
        ≡ ok (record s {
          nodes = store_node s.nodes t (record { data_item = a'; next_item = some q });
          list_tail = some q;
        })
  unfolding add_to_list link_tail
  add_to_list-tail q h t a' next s head tail last = rw (head, tail, last)

  append-next :
      (value : A) (s s' : ItemList A) (xs : List A) (m : ℕ)
      → length xs ≡ suc m
      → ListHolds malloc s xs
      → list_append malloc value s ≡ ok s'
      → ListHolds malloc s' (xs ++ value ∷ [])
  unfolding list_append list_append_at link last_link new_nodes
  append-next value s s' xs m size held e =
      let (q, new, e1) = malloc_inverse (malloc s.allocated) value s s' e in
      let is_q : malloc (suc m) ≡ some q = rw (← size, ← held.counted) new in
      let (a0, is_a0) = get_elem?-lt xs 0 (omega (arith, size)) in
      let (h, is_h, head_node) = held.node 0 a0 is_a0 in
      let (a', is_a) = get_elem?-lt xs m (omega (arith, size)) in
      let (t, is_t, tail_node) = held.node m a' is_a in
      let other = tail-ne-new xs value a' s.nodes m q t size is_q is_t is_a in
      let given : ItemList A = record s {
        nodes = store_node s.nodes q (record { data_item = value; next_item = none });
        allocated = s.allocated + 1;
      } in
      let is_head : s.list_head ≡ some h = ground (arith, held.head, size, is_h) in
      let is_tail : s.list_tail ≡ some t = held.tail ∙ rw size is_t in
      let is_last : given.nodes t
          ≡ some (record { data_item = a'; next_item = link malloc (length xs) (m + 1) }) =
        ground (arith, tail_node, other) in
      let after : ItemList A = record given {
        nodes = store_node given.nodes t (record { data_item = a'; next_item = some q });
        list_tail = some q;
      } in
      let linked =
        add_to_list-tail q h t a' (link malloc (length xs) (m + 1)) given is_head is_tail is_last in
      let stored : after ≡ s' = cc (linked, e1) in
      subst (λ z. ListHolds malloc z (xs ++ value ∷ [])) stored
        (record {
          counted = omega (arith, held.counted, length-snoc xs value);
          head = is_head ∙ ground (arith, is_h, length-snoc xs value);
          tail = rw (length-snoc xs value, size) (sym is_q);
          node =
              rw (length-snoc xs value)
                (new_node xs value a' s.nodes m q t size is_q is_t is_a held.node);
        })

  pub list_append-Holds :
      (value : A) (s s' : ItemList A) (items : List A)
      → ListHolds malloc s items
      → list_append malloc value s ≡ ok s'
      → ListHolds malloc s' (items ++ value ∷ [])
  list_append-Holds value s s' [] held e = append-first value s s' held e
  list_append-Holds value s s' (x ∷ xs) held e =
      append-next value s s' (x ∷ xs) (length xs) refl held e

  walk-node :
      (fuel : ℕ) (nodes : ℕ → Option (ListItem A)) (p : ℕ) (a : A) (next : Option ℕ) (rest : List A)
      → nodes p ≡ some (record { data_item = a; next_item = next })
      → walk fuel nodes next ≡ some (ok rest)
      → walk (suc fuel) nodes (some p) ≡ some (ok (a ∷ rest))
  unfolding walk prepend
  walk-node fuel nodes p a next rest at further = ground (arith, at, further)

  -- The walk from the k-th node meets the items from the k-th on.
  walk-from :
      (s : ItemList A) (items : List A)
      → ListHolds malloc s items
      → (rest : List A) (k fuel : ℕ) → k + length rest ≡ length items
      → ((j : ℕ) → get_elem? items (k + j) ≡ get_elem? rest j)
      → length rest ≤ fuel
      → walk fuel s.nodes (link malloc (length items) k) ≡ some (ok rest)
  unfolding walk prepend link
  walk-from s items held [] k fuel size same enough =
      let past : link malloc (length items) k ≡ none = ground (arith, size) in rw past refl
  walk-from s items held (a ∷ rest) k zero size same enough = absurd (omega arith)
  walk-from s items held (a ∷ rest) k (suc fuel) size same enough =
      let (p, is_p, is_node) = held.node k a (ground (arith, same 0)) in
      let further =
        walk-from s items held rest (k + 1) fuel (omega (arith, size))
          (λ j. ground (arith, same (suc j))) (omega arith) in
      let here : link malloc (length items) k ≡ some p = ground (arith, size, is_p) in
      rw here (walk-node fuel s.nodes p a _ rest is_node further)

  pub list_visited-Holds :
      (s : ItemList A) (item : A) (items : List A)
      → ListHolds malloc s (item ∷ items)
      → list_visited s ≡ some (ok (item ∷ items))
  unfolding list_visited list_visited_from link last_link
  list_visited-Holds s item items held =
      let (p, is_p, first) = held.node 0 item refl in
      let (a, is_a) = get_elem?-lt (item ∷ items) (length items) (omega arith) in
      let (t, is_t, last) = held.node (length items) a is_a in
      let start : link malloc (suc (length items)) 0 ≡ some p = ground (arith, is_p) in
      let is_head : s.list_head ≡ some p = held.head ∙ start in
      let is_tail : s.list_tail ≡ some t = held.tail ∙ is_t in
      let walked =
        walk-from s (item ∷ items) held (item ∷ items) 0 s.allocated (omega arith)
          (λ j. ground arith) (omega (arith, held.counted)) in
      rw (is_head, is_tail) (rw start at walked)
