-- ===== src/Hyper/Items.antt =====
-- src/hyper/item.c: the item stack, which holds the indentation of the nested lists of a page.
pub mod Laws
use open_axiom.Prelude.{ℕ, zero, suc, ◌+◌, List, [], ◌∷◌}

-- `struct ItemStack` without its link.
pub record ItemStack : Type 0 where
  pub indent : ℕ
  pub item_indent : ℕ
  pub in_item : ℕ

-- The three variables that are saved, `gTopOfItemStack`, and how many complaints were printed.
pub record Items : Type 0 where
  pub indent : ℕ
  pub item_indent : ℕ
  pub in_item : ℕ
  pub stack : List ItemStack
  pub complaints : ℕ

unfoldable pub push_item_stack : Items → Items
push_item_stack s = record s {
  stack = record { indent = s.indent; item_indent = s.item_indent; in_item = s.in_item } ∷ s.stack;
}

unfoldable pub restore : List ItemStack → Items → Items
restore [] s = record s { complaints = s.complaints + 1 }
restore (chuck ∷ below) s = record s {
  indent = chuck.indent;
  item_indent = chuck.item_indent;
  in_item = chuck.in_item;
  stack = below;
}

unfoldable pub pop_item_stack : Items → Items
pop_item_stack s = restore s.stack s

-- `while (trace)`: the copy of what `trace` points to, with the `in_item` of now.
unfoldable pub copy_items : (in_item : ℕ) → List ItemStack → List ItemStack
copy_items now [] = []
copy_items now (i ∷ is) =
    record { indent = i.indent; item_indent = i.item_indent; in_item = now } ∷ copy_items now is

unfoldable pub copy_item_stack : Items → List ItemStack
copy_item_stack s = copy_items s.in_item s.stack
