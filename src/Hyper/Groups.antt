-- ===== src/Hyper/Groups.antt =====
-- src/hyper/group.c: the group stack, which holds the font and the colour of the nested groups.
pub mod Laws
use open_axiom.Prelude.{ℕ, Bool, true, false, Option, none, some, List, [], ◌∷◌}

-- A font is the address that is passed around.
abbrev pub Font : Type 0
Font = Option ℕ

pub record GroupItem : Type 0 where
  pub cur_color : ℕ
  pub cur_font : Font
  pub center : ℕ

-- The fonts and the colours of the resources.
pub record Theme : Type 0 where
  pub em_color : ℕ
  pub em_font : Font
  pub rm_color : ℕ
  pub rm_font : Font
  pub border_color : ℕ
  pub bf_color : ℕ
  pub bf_font : Font
  pub tt_color : ℕ
  pub tt_font : Font
  pub active_color : ℕ
  pub active_font : Font
  pub axiom_color : ℕ
  pub axiom_font : Font

-- `gTopOfGroupStack`, as the item it points to and those below it, and the calls of
-- `change_text`, the latest first.
pub record Groups : Type 0 where
  pub top : GroupItem
  pub rest : List GroupItem
  pub changes : List (ℕ × Font)

unfoldable pub change_text : Groups → Groups
change_text g = record g { changes = (g.top.cur_color, g.top.cur_font) ∷ g.changes }

unfoldable pub uncover : GroupItem → List GroupItem → List (ℕ × Font) → Groups × Bool
uncover t [] c = (record { top = t; rest = []; changes = c }, false)
uncover t (n ∷ r) c = (change_text (record { top = n; rest = r; changes = c }), true)

-- With whether the code returns 1.
unfoldable pub pop_group_stack : Groups → Groups × Bool
pop_group_stack g = uncover g.top g.rest g.changes

unfoldable pub push_group_stack : Groups → Groups
push_group_stack g =
    let newgp : GroupItem = record {
      cur_font = g.top.cur_font;
      cur_color = g.top.cur_color;
      center = g.top.center;
    } in
    record g { top = newgp; rest = g.top ∷ g.rest }

-- The stack after it; the calls of `change_text` so far stand.
unfoldable pub init_group_stack : List (ℕ × Font) → Groups
init_group_stack c = record {
  top = record { center = 0; cur_color = 0; cur_font = none };
  rest = [];
  changes = c;
}

-- `gTopOfGroupStack->cur_color = ..; gTopOfGroupStack->cur_font = ..; change_text(..);`
unfoldable pub dress : ℕ → Font → Groups → Groups
dress color font g =
    change_text (record g { top = record g.top { cur_color = color; cur_font = font } })

-- `if (! gTopOfGroupStack->next) push_group_stack();`
unfoldable pub leave_bottom : Groups → Groups
leave_bottom g = elim g.rest [ [] ↦ push_group_stack g | n ∷ r ↦ g ]

module _ (theme : Theme) where
  unfoldable pub em_top_group : Groups → Groups
  em_top_group g = dress theme.em_color theme.em_font (leave_bottom g)

  unfoldable pub rm_top_group : Groups → Groups
  rm_top_group g = dress theme.rm_color theme.rm_font (leave_bottom g)

  unfoldable pub line_top_group : Groups → Groups
  line_top_group g = dress theme.border_color theme.rm_font (leave_bottom g)

  unfoldable pub bf_top_group : Groups → Groups
  bf_top_group g = dress theme.bf_color theme.bf_font (leave_bottom g)

  unfoldable pub tt_top_group : Groups → Groups
  tt_top_group g = dress theme.tt_color theme.tt_font (leave_bottom g)

  unfoldable pub push_active_group : Groups → Groups
  push_active_group g = dress theme.active_color theme.active_font (push_group_stack g)

  unfoldable pub push_spad_group : Groups → Groups
  push_spad_group g = dress theme.axiom_color theme.axiom_font (push_group_stack g)

-- `while (pop_group_stack() >= 0);`: the top and the items below it are what the loop changes,
-- and each round that goes on takes one item, so the loop ends.
unfoldable pub pop_all : GroupItem → List GroupItem → List (ℕ × Font) → Groups
pop_all t [] c = record { top = t; rest = []; changes = c }
pop_all t (n ∷ r) c = pop_all n r ((n.cur_color, n.cur_font) ∷ c)

unfoldable pub init_top_group : Theme → Groups → Groups
init_top_group theme g = dress theme.rm_color theme.rm_font (pop_all g.top g.rest g.changes)

unfoldable pub center_top_group : Groups → Groups
center_top_group g =
    let pushed = push_group_stack g in record pushed { top = record pushed.top { center = 1 } }
