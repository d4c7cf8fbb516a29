-- ===== src/Hyper/Chains.antt =====
-- The linked lists of src/hyper/group.c and src/hyper/item.c in the memory, and the loops that copy
-- them. Addresses are numbers; halloc gives the next one, with what the memory holds there.
pub mod Copy
use open_axiom.Prelude.{ℕ, zero, suc, ◌+◌, Option, none, some, ◌>>=◌}
use open_axiom.Prelude.Memory.{Memory, store}
use open_axiom.Hyper.Groups.{GroupItem}
use open_axiom.Hyper.Items.{ItemStack}

pub record Node (A : Type 0) : Type 0 where
  pub item : A
  pub next : Option ℕ

pub record Heap (A : Type 0) : Type 0 where
  pub nodes : Memory (Node A)
  pub used : ℕ

module _ {A : Type 0} where
  unfoldable pub set_next : ℕ → Option ℕ → Heap A → Heap A
  set_next p q h = record h { nodes = store h.nodes p (record (h.nodes p) { next = q }) }

  -- halloc and the assignments to the fields but `next`.
  unfoldable pub new_node : A → Heap A → Heap A
  new_node a h = record {
    nodes = store h.nodes h.used (record (h.nodes h.used) { item = a });
    used = h.used + 1;
  }

  -- `while (trace)` behind its first round, with `prev` set; each round takes a unit of the fuel.
  unfoldable pub copy_rest :
      ℕ → (copied : A → A) → (prev : ℕ) → (trace : Option ℕ) → Heap A → Option (Heap A)
  unfolding set_next new_node
  copy_rest f copied prev none h = some (set_next prev none h)
  copy_rest zero copied prev (some t) h = none
  copy_rest (suc f) copied prev (some t) h =
      let new = h.used in
      let h' = set_next prev (some new) (new_node (copied (h.nodes t).item) h) in
      copy_rest f copied new (h'.nodes t).next h'

  -- The copy's first node, or NULL.
  unfoldable pub copy_chain :
      ℕ → (copied : A → A) → (trace : Option ℕ) → Heap A → Option (Option ℕ × Heap A)
  unfolding new_node copy_rest
  copy_chain f copied none h = some (none, h)
  copy_chain f copied (some t) h =
      let new = h.used in
      let h' = new_node (copied (h.nodes t).item) h in
      copy_rest f copied new (h'.nodes t).next h' >>= λ g. some (some new, g)

-- copy_group_stack: the three fields are those of the item.
unfoldable pub copy_group_stack :
    ℕ → (top : Option ℕ) → Heap GroupItem → Option (Option ℕ × Heap GroupItem)
unfolding copy_chain
copy_group_stack f top h =
    copy_chain f (λ g. record { cur_font = g.cur_font; cur_color = g.cur_color; center = g.center })
      top h

-- copy_item_stack, which has gInItem in each item of the copy.
unfoldable pub copy_item_nodes :
    ℕ → (in_item : ℕ) → (top : Option ℕ) → Heap ItemStack → Option (Option ℕ × Heap ItemStack)
unfolding copy_chain
copy_item_nodes f now top h =
    copy_chain f (λ i. record { indent = i.indent; item_indent = i.item_indent; in_item = now }) top
      h
