-- ===== src/DataGen/Store/Linked.antt =====
-- data_gen/json_data_parser.c: the linked list of items, with the heap that its nodes live in.
use computer_enhance.Shared.{
  ℕ, zero, suc, ◌+◌, ◌==◌, if◌then◌else◌, List, [], ◌∷◌, Option, none, some, Outcome, ok,
  exit_error, out_of_bounds,
}

-- struct list_item_s
pub record ListItem (A : Type 0) : Type 0 where
  pub data_item : A
  pub next_item : Option ℕ

-- The nodes by address, list_head and list_tail (`none` is NULL), and the number of calls of malloc.
pub record ItemList (A : Type 0) : Type 0 where
  pub nodes : ℕ → Option (ListItem A)
  pub list_head : Option ℕ
  pub list_tail : Option ℕ
  pub allocated : ℕ

module _ {A : Type 0} where
  abbrev pub store_node : (ℕ → Option (ListItem A)) → ℕ → ListItem A → ℕ → Option (ListItem A)
  store_node nodes at node p = if at == p then some node else nodes p

  -- `list_tail->next_item = item`
  unfoldable pub link_tail : ℕ → Option ℕ → ItemList A → Outcome (ItemList A)
  link_tail item none s = out_of_bounds
  link_tail item (some tail) s = elim (s.nodes tail) [
    | none ↦ out_of_bounds
    | some last ↦ ok (record s {
      nodes = store_node s.nodes tail (record last { next_item = some item });
      list_tail = some item;
    })
  ]

  -- A node behind the last one: the first is both head and tail.
  unfoldable pub add_to_list : ℕ → Option ℕ → ItemList A → Outcome (ItemList A)
  add_to_list item none s = ok (record s { list_head = some item; list_tail = some item })
  add_to_list item (some head) s = link_tail item s.list_tail s

  -- The end of a row, on what malloc returned.
  unfoldable pub list_append_at : Option ℕ → A → ItemList A → Outcome (ItemList A)
  list_append_at none value s = exit_error
  list_append_at (some item) value s = add_to_list item s.list_head (record s {
    nodes = store_node s.nodes item (record { data_item = value; next_item = none });
    allocated = s.allocated + 1;
  })

  -- The n-th call of malloc returns `malloc n`.
  unfoldable pub list_append : (ℕ → Option ℕ) → A → ItemList A → Outcome (ItemList A)
  list_append malloc value s = list_append_at (malloc s.allocated) value s

  unfoldable pub prepend : A → Option (Outcome (List A)) → Option (Outcome (List A))
  prepend value (some (ok rest)) = some (ok (value ∷ rest))
  prepend value other = other

  -- `while (item)`, with fuel.
  unfoldable pub walk : ℕ → (ℕ → Option (ListItem A)) → Option ℕ → Option (Outcome (List A))
  walk fuel nodes none = some (ok [])
  walk zero nodes (some p) = none
  walk (suc fuel) nodes (some p) = elim (nodes p) [
    | none ↦ some out_of_bounds
    | some node ↦ prepend node.data_item (walk fuel nodes node.next_item)
  ]

  -- The sanity check, then the walk from the head.
  unfoldable pub list_visited_from : Option ℕ → Option ℕ → ItemList A → Option (Outcome (List A))
  list_visited_from none tail s = some exit_error
  list_visited_from (some head) none s = some exit_error
  list_visited_from (some head) (some tail) s = walk s.allocated s.nodes (some head)

  unfoldable pub list_visited : ItemList A → Option (Outcome (List A))
  list_visited s = list_visited_from s.list_head s.list_tail s

-- The empty list.
unfoldable pub empty_list : (A : Type 0) → ItemList A
empty_list A = record { nodes = λ p. none; list_head = none; list_tail = none; allocated = 0 }
