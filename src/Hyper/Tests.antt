-- ===== src/Hyper/Tests.antt =====
-- The stacks of a small page.
mod Chains
mod Dialog
mod Input
mod Lex
mod Macros
mod Verbatim
use open_axiom.Prelude.{◌≡◌, ◌↔◌, true, some, List, [], ◌∷◌, ◌++◌}
use open_axiom.Prelude.Memory.Laws.{All}
use open_axiom.Hyper.Groups.{
  Theme, Groups, pop_group_stack, push_group_stack, init_group_stack, init_top_group, pop_all,
}
use open_axiom.Hyper.Groups.Laws.{
  group, active, em, bf, begin, close, Part, Balanced, run, bottom, closed_group-restores,
  init_top_group_lem,
}
use open_axiom.Hyper.Items.{Items, push_item_stack, pop_item_stack, copy_item_stack}
use open_axiom.Hyper.Items.Laws.{pop_item_stack-push, copy_item_stack_iff}

abbrev theme : Theme
theme = record {
  em_color = 1;
  em_font = some 1;
  rm_color = 2;
  rm_font = some 2;
  border_color = 3;
  bf_color = 4;
  bf_font = some 4;
  tt_color = 5;
  tt_font = some 5;
  active_color = 6;
  active_font = some 6;
  axiom_color = 7;
  axiom_font = some 7;
}

-- `\em {\bf ..}`, in a group
abbrev text : List Part
text = em ∷ begin active ∷ (bf ∷ []) ++ close ∷ []

text-Balanced : Balanced text
text-Balanced =
    Balanced.em_then (Balanced.group_then active (Balanced.bf_then Balanced.empty) Balanced.empty)

abbrev start : Groups
start = init_group_stack []

group_example :
    let closed = pop_group_stack (run theme text (push_group_stack start)) in
    (closed.1 ≡ true) × (closed.0.top ≡ start.top) × (closed.0.rest ≡ start.rest)
group_example = closed_group-restores theme group text start text-Balanced
