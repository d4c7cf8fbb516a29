-- ===== src/Hyper/Groups/Laws.antt =====
-- About groups that are opened and closed (src/hyper/group.c).
use open_axiom.Prelude.{ℕ, ◌≡◌, refl, ◌∙◌, ap, true, List, [], ◌∷◌, ◌++◌, arith}
use open_axiom.Hyper.Groups.{
  Font, GroupItem, Theme, Groups, change_text, pop_group_stack, uncover, push_group_stack, dress,
  leave_bottom, em_top_group, rm_top_group, line_top_group, bf_top_group, tt_top_group,
  push_active_group, push_spad_group, pop_all, init_top_group, center_top_group,
}

-- What opens a group on the stack.
pub data Opening : Type 0 where
  group : Opening
  active : Opening
  spad : Opening
  centered : Opening

-- What a page does inside a group: a change of the font, or a whole group.
pub data Part : Type 0 where
  em : Part
  rm : Part
  line : Part
  bf : Part
  tt : Part
  begin : Opening → Part
  close : Part

module _ (theme : Theme) where
  abbrev pub opened : Opening → Groups → Groups
  opened group g = push_group_stack g
  opened active g = push_active_group theme g
  opened spad g = push_spad_group theme g
  opened centered g = center_top_group g

  abbrev pub part : Part → Groups → Groups
  part em g = em_top_group theme g
  part rm g = rm_top_group theme g
  part line g = line_top_group theme g
  part bf g = bf_top_group theme g
  part tt g = tt_top_group theme g
  part (begin o) g = opened o g
  part close g = (pop_group_stack g).0

  abbrev pub run : List Part → Groups → Groups
  run [] g = g
  run (p ∷ ps) g = run ps (part p g)

-- A sequence that closes the groups it opens, and no others.
pub data Balanced : List Part → Type 0 where
  empty : Balanced []
  em_then : {ps : List Part} → Balanced ps → Balanced (em ∷ ps)
  rm_then : {ps : List Part} → Balanced ps → Balanced (rm ∷ ps)
  line_then : {ps : List Part} → Balanced ps → Balanced (line ∷ ps)
  bf_then : {ps : List Part} → Balanced ps → Balanced (bf ∷ ps)
  tt_then : {ps : List Part} → Balanced ps → Balanced (tt ∷ ps)
  group_then :
      (o : Opening) {inner ps : List Part}
      → Balanced inner
      → Balanced ps
      → Balanced (begin o ∷ inner ++ close ∷ ps)

abbrev pub bottom : GroupItem → List GroupItem → GroupItem
bottom t [] = t
bottom t (n ∷ r) = bottom n r

pop_all_lem :
    (t : GroupItem) (r : List GroupItem) (c : List (ℕ × Font))
    → ((pop_all t r c).rest ≡ []) × ((pop_all t r c).top ≡ bottom t r)
unfolding pop_all
pop_all_lem t [] c = (refl, refl)
pop_all_lem t (n ∷ r) c = pop_all_lem n r ((n.cur_color, n.cur_font) ∷ c)

module _ (theme : Theme) where
  run-append :
      (ps qs : List Part) (g : Groups) → run theme (ps ++ qs) g ≡ run theme qs (run theme ps g)
  run-append [] qs g = refl
  run-append (p ∷ ps) qs g = run-append ps qs (part theme p g)

  leave_bottom_lem :
      (g : Groups) (n : GroupItem) (r : List GroupItem) → g.rest ≡ n ∷ r → leave_bottom g ≡ g
  unfolding leave_bottom
  leave_bottom_lem g n r e = ground arith

  close_lem :
      (g : Groups) (n : GroupItem) (r : List GroupItem)
      → g.rest ≡ n ∷ r
      → (pop_group_stack g).0
        ≡ record { top = n; rest = r; changes = (n.cur_color, n.cur_font) ∷ g.changes }
  unfolding pop_group_stack uncover change_text
  close_lem g n r e = ground arith

  closes_lem :
      (g : Groups) (n : GroupItem) (r : List GroupItem)
      → g.rest ≡ n ∷ r
      → (pop_group_stack g).1 ≡ true
  unfolding pop_group_stack uncover
  closes_lem g n r e = ground arith

  opened-rest : (o : Opening) (g : Groups) → (opened theme o g).rest ≡ g.top ∷ g.rest
  unfolding push_active_group push_spad_group center_top_group push_group_stack dress change_text
  opened-rest group g = refl
  opened-rest active g = refl
  opened-rest spad g = refl
  opened-rest centered g = refl

  -- Inside a group, a balanced sequence leaves the groups below the top one as they are.
  pub run-Balanced :
      (ps : List Part) (g : Groups) (n : GroupItem) (r : List GroupItem)
      → Balanced ps
      → g.rest ≡ n ∷ r
      → (run theme ps g).rest ≡ n ∷ r
  unfolding em_top_group rm_top_group line_top_group bf_top_group tt_top_group dress change_text
  run-Balanced ps g n r empty e = e
  run-Balanced ps g n r (em_then b) e = run-Balanced _ _ n r b (rw (leave_bottom_lem g n r e) e)
  run-Balanced ps g n r (rm_then b) e = run-Balanced _ _ n r b (rw (leave_bottom_lem g n r e) e)
  run-Balanced ps g n r (line_then b) e = run-Balanced _ _ n r b (rw (leave_bottom_lem g n r e) e)
  run-Balanced ps g n r (bf_then b) e = run-Balanced _ _ n r b (rw (leave_bottom_lem g n r e) e)
  run-Balanced ps g n r (tt_then b) e = run-Balanced _ _ n r b (rw (leave_bottom_lem g n r e) e)
  run-Balanced _ g n r (group_then o {inner} {ps} b c) e =
      let inside = run-Balanced inner (opened theme o g) g.top g.rest b (opened-rest o g) in
      rw (run-append inner (close ∷ ps) (opened theme o g)) (
        run-Balanced ps _ n r c (
          ap (λ h. h.rest) (close_lem (run theme inner (opened theme o g)) g.top g.rest inside)
          ∙ e))

  -- A group that is opened, filled with font changes and groups that are closed again, and closed,
  -- leaves the top item and the items below it as they were, and pop_group_stack returns 1.
  pub closed_group-restores :
      (o : Opening) (inner : List Part) (g : Groups)
      → Balanced inner
      → let closed = pop_group_stack (run theme inner (opened theme o g)) in
        (closed.1 ≡ true) × (closed.0.top ≡ g.top) × (closed.0.rest ≡ g.rest)
  closed_group-restores o inner g b =
      let after = run theme inner (opened theme o g) in
      let inside = run-Balanced inner (opened theme o g) g.top g.rest b (opened-rest o g) in
      let popped = close_lem after g.top g.rest inside in
      (closes_lem after g.top g.rest inside, ap (λ h. h.top) popped, ap (λ h. h.rest) popped)

  -- init_top_group leaves one item, the bottom one with its centering, in the roman font and
  -- colour, and its last call of change_text is with these, behind those of the items that it
  -- uncovers.
  pub init_top_group_lem :
      (g : Groups)
      → let cleared = init_top_group theme g in
        (cleared.rest ≡ [])
        × (cleared.top
            ≡ record (bottom g.top g.rest) { cur_color = theme.rm_color; cur_font = theme.rm_font })
        × (cleared.changes
            ≡ (theme.rm_color, theme.rm_font) ∷ (pop_all g.top g.rest g.changes).changes)
  unfolding init_top_group dress change_text
  init_top_group_lem g = let (r, t) = pop_all_lem g.top g.rest g.changes in (r, rw t refl, refl)
