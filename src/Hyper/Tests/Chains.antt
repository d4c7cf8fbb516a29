-- ===== src/Hyper/Tests/Chains.antt =====
-- A group stack of two items in the memory.
use open_axiom.Prelude.{ℕ, ◌≡◌, refl, Option, none, some, [], ◌∷◌, arith, if◌then◌else◌, ◌==◌}
use open_axiom.Hyper.Groups.{GroupItem}
use open_axiom.Hyper.Chains.{Heap, copy_group_stack}
use open_axiom.Hyper.Chains.Copy.{Holds, copy_group_stack-Holds}

abbrev inner : GroupItem
inner = record { cur_color = 3; cur_font = some 7; center = 0 }

abbrev outer : GroupItem
outer = record { cur_color = 0; cur_font = none; center = 0 }

abbrev memory : Heap GroupItem
memory = record {
  nodes = λ n.
      if n == 1
      then record { item = inner; next = some 0 }
      else record { item = outer; next = none };
  used = 2;
}

copy_group_example :
    (p : Option ℕ) × (g : Heap GroupItem) × (copy_group_stack 1 (some 1) memory ≡ some (p, g))
    × Holds g.nodes 2 g.used p (inner ∷ outer ∷ [])
    × Holds g.nodes 0 2 (some 1) (inner ∷ outer ∷ [])
copy_group_example =
    copy_group_stack-Holds 1 (some 1) (inner ∷ outer ∷ []) memory (omega arith)
      (1, refl, omega arith, omega arith, refl, (0, refl, omega arith, omega arith, refl, refl))
