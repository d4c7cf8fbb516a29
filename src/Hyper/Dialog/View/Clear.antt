-- ===== src/Hyper/Dialog/View/Clear.antt =====
-- The Escape key of src/hyper/dialog.c: move_cursor_home and then delete_rest_of_line.
use mathlib.Core.Path.{subst}
use open_axiom.Prelude.{
  ℕ, ◌≤◌, ◌≡◌, ◌≢◌, refl, sym, ap, ◌∙◌, List, [], ◌∷◌, ◌++◌, Bool, false, some, arith, ltb,
  Bool-cases, inl, inr,
}
use open_axiom.Prelude.Memory.Laws.{All}
use open_axiom.Hyper.Dialog.{LineStruct, InputItem, set_buff_pntr}
use open_axiom.Hyper.Dialog.Keys.{Keysym, KeyEvent, press}
use open_axiom.Hyper.Dialog.Delete.{delete_rest_of_line}
use open_axiom.Hyper.Dialog.Move.{up_to_start, move_cursor_home}
use open_axiom.Hyper.Dialog.View.{
  newline, width, left_of_cursor, right_of_cursor, IsClean, NoNewline,
}
use open_axiom.Hyper.Dialog.View.Ends.{StartsLine, AtStart, move_cursor_home-AtStart}
use open_axiom.Hyper.Dialog.View.Rest.{LastEnds, Cuts}
use open_axiom.Hyper.Dialog.View.Cut.{Deletes, delete_rest_of_line-Cuts}

-- The lines from a place on.
abbrev IsSound : (size : ℕ) → List LineStruct × LineStruct × List LineStruct → Type 0
IsSound size place =
    IsClean size place.1 × All (IsClean size) place.2 × LastEnds place.2 size place.1

up_to_start-IsSound :
    (before : List LineStruct) (size : ℕ) (trace : LineStruct) (after : List LineStruct)
    → All (IsClean size) before
    → IsSound size (before, trace, after)
    → IsSound size (up_to_start before size trace after)
unfolding up_to_start
up_to_start-IsSound [] size trace after clean h = h
up_to_start-IsSound (prev ∷ before) size trace after clean h =
    elim (Bool-cases (ltb size prev.len)) [
      | inl wrapped ↦
          rw wrapped (
            up_to_start-IsSound before size prev (trace ∷ after) clean.1 (clean.0, (h.0, h.1), h.2))
      | inr ends ↦ rw ends h
    ]

LastEnds-set_buff_pntr :
    (i : ℕ) (ls : List LineStruct) (size : ℕ) (l : LineStruct)
    → LastEnds ls size l
    → LastEnds ls size (set_buff_pntr i l)
LastEnds-set_buff_pntr i [] size l h = h
LastEnds-set_buff_pntr i (n ∷ ns) size l h = h

-- Every line holds its characters only, and the last one ends.
pub record IsText (s : InputItem) : Type 0 where
  pub placed : s.curr_line.buff_pntr ≤ width s.size s.curr_line
  pub clean : IsClean s.size s.curr_line
  pub clean_above : All (IsClean s.size) s.before
  pub clean_below : All (IsClean s.size) s.after
  pub ends : LastEnds s.after s.size s.curr_line

-- `t` shows the text of `s` without the line that the cursor is in, but for its end.
pub record Clears (s t : InputItem) : Type 0 where
  pub front : List ℕ
  pub line : List ℕ
  pub front_in_line : NoNewline front
  pub in_line : NoNewline line
  pub left : left_of_cursor s ≡ left_of_cursor t ++ front
  pub right : front ++ right_of_cursor s ≡ line ++ right_of_cursor t
  pub starts : StartsLine (left_of_cursor t)
  pub ends : (cs : List ℕ) × (right_of_cursor t ≡ newline ∷ cs)

Clears-intro : (s h t : InputItem) → AtStart s h → Cuts h t → Clears s t
Clears-intro s h t a c = record {
  front = a.skipped;
  line = c.removed;
  front_in_line = a.no_newline;
  in_line = c.no_newline;
  left = a.left ∙ ap (λ cs. cs ++ a.skipped) (sym c.left);
  right = sym a.right ∙ c.right;
  starts = subst StartsLine (sym c.left) a.starts;
  ends = c.ends;
}

module _ (s : InputItem) (h : IsText s) where
  home-IsSound : IsSound s.size (up_to_start s.before s.size s.curr_line s.after)
  home-IsSound =
      up_to_start-IsSound s.before s.size s.curr_line s.after h.clean_above
        (h.clean, h.clean_below, h.ends)

  home-Deletes : (move_cursor_home s).curr_line.len ≢ 0 → Deletes (move_cursor_home s)
  home-Deletes some_text =
      delete_rest_of_line-Cuts (move_cursor_home s) (unfold move_cursor_home in omega arith)
        (unfold move_cursor_home in home-IsSound.0) (unfold move_cursor_home in home-IsSound.1)
        (unfold move_cursor_home in
          LastEnds-set_buff_pntr 0 (up_to_start s.before s.size s.curr_line s.after).2 s.size
            (up_to_start s.before s.size s.curr_line s.after).1 home-IsSound.2)
        (unfold move_cursor_home in λ e. some_text (sym e))

  press-escape :
      (e : KeyEvent) (m : Bool)
      → e.modified ≡ false
      → press Keysym.escape e m s ≡ delete_rest_of_line (move_cursor_home s)
  unfolding press
  press-escape e m free = rw free refl

  -- Escape without a modifier removes what stands between the end of a line in front of the cursor,
  -- or the start of the text, and the next end of a line, over as many lines of the area as that
  -- takes, and nothing else, if the area is a text and the first of these lines is not empty.
  pub press-Clears :
      (e : KeyEvent) (m : Bool)
      → e.modified ≡ false
      → (move_cursor_home s).curr_line.len ≢ 0
      → (t : InputItem) × (press Keysym.escape e m s ≡ some t) × Clears s t
  press-Clears e m free some_text =
      let (t, runs, cuts) = home-Deletes some_text in
      (
        t,
        press-escape e m free ∙ runs,
        Clears-intro s (move_cursor_home s) t
            (move_cursor_home-AtStart s h.placed h.clean h.clean_above) cuts,
      )
