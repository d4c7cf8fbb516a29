-- ===== src/Hyper/Items/Laws.antt =====
-- About the item stack (src/hyper/item.c).
use open_axiom.Prelude.{ℕ, ◌≡◌, ◌↔◌, refl, List, [], ◌∷◌, arith}
use open_axiom.Prelude.Memory.Laws.{All}
use open_axiom.Hyper.Items.{
  ItemStack, Items, push_item_stack, restore, pop_item_stack, copy_items, copy_item_stack,
}

copy_items_iff :
    (now : ℕ) (is : List ItemStack) → copy_items now is ≡ is ↔ All (λ i. i.in_item ≡ now) is
unfolding copy_items
copy_items_iff now [] = (λ e. tt, λ a. refl)
copy_items_iff now (i ∷ is) =
    let (there, back) = copy_items_iff now is in
    (λ e. (ground arith, there (ground arith)), λ a. ground (arith, back a.1))

-- Whatever is done to the indentation in between, pop_item_stack gives back the state at
-- push_item_stack.
pub pop_item_stack-push :
    (s : Items) (indent item_indent in_item : ℕ)
    → pop_item_stack (record (push_item_stack s) {
      indent = indent;
      item_indent = item_indent;
      in_item = in_item;
    })
      ≡ s
unfolding pop_item_stack push_item_stack restore
pop_item_stack-push s a b c = refl

-- copy_item_stack makes a copy of the stack exactly if every saved in_item is the in_item of now,
-- which it writes to each item.
pub copy_item_stack_iff :
    (s : Items) → copy_item_stack s ≡ s.stack ↔ All (λ i. i.in_item ≡ s.in_item) s.stack
unfolding copy_item_stack
copy_item_stack_iff s = copy_items_iff s.in_item s.stack
