-- ===== src/DataGen/Store/Room.antt =====
-- data_gen/json_data_parser.c: malloc for a new item, and the linked list as a store of items.
use computer_enhance.Shared.{
  ℕ, suc, ◌+◌, ◌<◌, ◌≡◌, refl, ◌∙◌, ◌==◌, List, [], ◌∷◌, ◌++◌, length, Option, none, some, ok,
  arith, Bool-cases, inl, inr,
}
use computer_enhance.DataGen.Items.{ItemStore}
use computer_enhance.DataGen.Store.Linked.{
  ListItem, ItemList, store_node, link_tail, add_to_list, list_append_at, list_append, list_visited,
}
use computer_enhance.DataGen.Store.Elements.{get_elem?-lt}
use computer_enhance.DataGen.Store.Chain.{
  IsFresh, ListHolds, link, last_link, list_append-Holds, list_visited-Holds,
}

-- The next calls of malloc succeed.
abbrev pub ListHasRoom : {A : Type 0} → (ℕ → Option ℕ) → ItemList A → ℕ → Type 0
ListHasRoom malloc s n = (k : ℕ) → k < n → (p : ℕ) × (malloc (s.allocated + k) ≡ some p)

stored_node :
    {A : Type 0} (nodes : ℕ → Option (ListItem A)) (q : ℕ) (value : A) (p : ℕ) (node : ListItem A)
    → nodes p ≡ some node
    → (node' : ListItem A) × (store_node nodes q (record { data_item = value; next_item = none }) p
        ≡ some node')
stored_node nodes q value p node e = elim (Bool-cases (q == p)) [
  | inl here ↦ (record { data_item = value; next_item = none }, rw here refl)
  | inr other ↦ (node, rw other e)
]

module _ {A : Type 0} {malloc : ℕ → Option ℕ} where
  add_to_list-ok :
      (q : ℕ) (s : ItemList A) (items : List A) (given : ItemList A)
      → ListHolds malloc s items
      → given.list_head ≡ s.list_head
      → given.list_tail ≡ s.list_tail
      → ((p : ℕ) (node : ListItem A)
          → s.nodes p ≡ some node
          → (node' : ListItem A) × (given.nodes p ≡ some node'))
      → (s' : ItemList A) × (add_to_list q given.list_head given ≡ ok s')
        × (s'.allocated ≡ given.allocated)
  unfolding add_to_list link_tail link last_link
  add_to_list-ok q s [] given held head tail kept =
      let s' : ItemList A = record given { list_head = some q; list_tail = some q } in
      let none_yet : given.list_head ≡ none = head ∙ rw held.head (ground arith) in
      (s', rw none_yet refl, refl)
  add_to_list-ok q s (x ∷ xs) given held head tail kept =
      let (h, is_h, _) = held.node 0 x refl in
      let (a, is_a) = get_elem?-lt (x ∷ xs) (length xs) (omega arith) in
      let (t, is_t, last) = held.node (length xs) a is_a in
      let (node, is_node) = kept t _ last in
      let is_head : given.list_head ≡ some h = head ∙ held.head ∙ ground (arith, is_h) in
      let is_tail : given.list_tail ≡ some t = tail ∙ held.tail ∙ is_t in
      let s' : ItemList A = record given {
        nodes = store_node given.nodes t (record node { next_item = some q });
        list_tail = some q;
      } in
      (s', rw (is_head, is_tail, is_node) refl, refl)

  pub list_append-HasRoom :
      (value : A) (s : ItemList A) (items : List A) (n : ℕ)
      → ListHolds malloc s items
      → ListHasRoom malloc s (suc n)
      → (s' : ItemList A) × (list_append malloc value s ≡ ok s') × ListHasRoom malloc s' n
  unfolding list_append list_append_at
  list_append-HasRoom value s items n held room =
      let (q, is_q) = room 0 (omega arith) in
      let first : s.allocated + 0 ≡ s.allocated = omega arith in
      let here : malloc s.allocated ≡ some q = rw (← first) is_q in
      let given : ItemList A = record s {
        nodes = store_node s.nodes q (record { data_item = value; next_item = none });
        allocated = s.allocated + 1;
      } in
      let (s', stored, count) =
        add_to_list-ok q s items given held refl refl (stored_node s.nodes q value) in
      (
        s',
        rw here stored,
        λ k h.
            let (p, is_p) = room (suc k) (omega arith) in
            let moved : s'.allocated + k ≡ s.allocated + suc k = omega (arith, count) in
            (p, rw moved is_p),
      )

  list_visited_snoc :
      IsFresh malloc
      → (s : ItemList A) (items : List A) (value : A) → ListHolds malloc s (items ++ value ∷ [])
      → list_visited s ≡ some (ok (items ++ value ∷ []))
  list_visited_snoc fresh s [] value held = list_visited-Holds fresh s value [] held
  list_visited_snoc fresh s (x ∷ items) value held =
      list_visited-Holds fresh s x (items ++ value ∷ []) held

  -- If malloc succeeds, and never returns an address twice, a new item is linked in: the list stays a chain
  -- of its items in order with the right head and tail, and the walk over it meets the items it met before
  -- and then the new one.
  pub list_append-ListHolds :
      IsFresh malloc
      → (value : A) (s : ItemList A) (items : List A) (n : ℕ) → ListHolds malloc s items
      → ListHasRoom malloc s (suc n)
      → (s' : ItemList A) × (list_append malloc value s ≡ ok s')
        × ListHolds malloc s' (items ++ value ∷ [])
        × ListHasRoom malloc s' n
        × (list_visited s' ≡ some (ok (items ++ value ∷ [])))
  list_append-ListHolds fresh value s items n held room =
      let (s', stored, left) = list_append-HasRoom value s items n held room in
      let held' = list_append-Holds fresh value s s' items held stored in
      (s', stored, held', left, list_visited_snoc fresh s' items value held')

-- The linked list as a store of items.
abbrev pub list_store : (A : Type 0) (malloc : ℕ → Option ℕ) → IsFresh malloc → ItemStore A
list_store A malloc fresh = record {
  State = ItemList A;
  append = list_append malloc;
  visited = list_visited;
  Holds = ListHolds malloc;
  append-Holds = list_append-Holds fresh;
  visited-Holds = list_visited-Holds fresh;
  HasRoom = ListHasRoom malloc;
  append-HasRoom = list_append-HasRoom;
}
