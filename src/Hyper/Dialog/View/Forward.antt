-- ===== src/Hyper/Dialog/View/Forward.antt =====
-- move_cursor_forward of src/hyper/dialog.c, by the text.
use mathlib.Core.Path.{subst}
use open_axiom.Prelude.{
  append-nil, ◌-◌, ◌+◌, ◌≤◌, ◌<◌, ◌≡◌, ◌≢◌, refl, sym, ap, ◌∙◌, List, [], ◌∷◌, ◌++◌, ◌⊎◌, inl, inr,
  arith, ltb, ◌==◌, true, false, ltb→lt, Bool-cases, List-cases,
}
use open_axiom.Hyper.Dialog.{LineStruct, InputItem, beep_at_the_user, enter_next, set_buff_pntr}
use open_axiom.Hyper.Dialog.Move.{move_cursor_forward, or_beep, set_cursor}
use open_axiom.Hyper.Dialog.View.{
  newline, width, below, left_of_cursor, right_of_cursor, rest_of_line,
}
use open_axiom.Prelude.Memory.{cells}
use open_axiom.Hyper.Dialog.View.Lines.{rest_of_line_ended}
use open_axiom.Hyper.Dialog.View.Move.{
  OneBack, LastPlace, LastPlace-wrapped, LastPlace-ended, inside-OneBack, cross-OneBack,
}

abbrev AtBorder : InputItem → Type 0
AtBorder s = (s.curr_line.buff_pntr ≡ s.curr_line.len) ⊎ (s.curr_line.buff_pntr + 1 ≡ s.size)

module _ (s : InputItem) where
  forward_inside :
      s.curr_line.buff_pntr ≢ s.curr_line.len
      → s.curr_line.buff_pntr + 1 ≢ s.size
      → move_cursor_forward s ≡ set_cursor (set_buff_pntr (s.curr_line.buff_pntr + 1)) s
  unfolding move_cursor_forward
  forward_inside a b = ground arith

  forward_crossing :
      (n : LineStruct) (ns : List LineStruct)
      → AtBorder s
      → s.after ≡ n ∷ ns
      → move_cursor_forward s
        ≡ record s { before = s.curr_line ∷ s.before; curr_line = set_buff_pntr 0 n; after = ns }
  unfolding move_cursor_forward or_beep enter_next
  forward_crossing n ns border lines = ground arith

  forward_beep : AtBorder s → s.after ≡ [] → move_cursor_forward s ≡ beep_at_the_user s
  unfolding move_cursor_forward or_beep enter_next
  forward_beep border alone = ground arith

  inside_ahead :
      s.curr_line.buff_pntr < width s.size s.curr_line
      → OneBack (set_cursor (set_buff_pntr (s.curr_line.buff_pntr + 1)) s) s
  inside_ahead lt =
      inside-OneBack (set_cursor (set_buff_pntr (s.curr_line.buff_pntr + 1)) s)
        s.curr_line.buff_pntr refl lt

  crossing_ahead :
      (n : LineStruct) (ns : List LineStruct)
      → s.after ≡ n ∷ ns
      → LastPlace s.size s.curr_line s.curr_line.buff_pntr
      → OneBack
          (record s { before = s.curr_line ∷ s.before; curr_line = set_buff_pntr 0 n; after = ns })
          s
  unfolding left_of_cursor
  crossing_ahead n ns lines last =
      let t : InputItem = record s {
        before = s.curr_line ∷ s.before;
        curr_line = set_buff_pntr 0 n;
        after = ns;
      } in
      let u : InputItem = record s { after = set_buff_pntr 0 n ∷ ns } in
      let step : OneBack t u =
        cross-OneBack t u s.curr_line.buff_pntr s.curr_line s.before refl refl last refl in
      record {
        char = step.char;
        left = step.left;
        right =
            unfold right_of_cursor in
            (ap (λ ls. rest_of_line s.size s.curr_line ++ below s.size ls) lines ∙ step.right);
      }

  ahead_cases :
      s.curr_line.buff_pntr ≤ s.curr_line.len
      → s.curr_line.buff_pntr < s.size
      → s.curr_line.len ≢ s.size
      → AtBorder s
        ⊎ (s.curr_line.buff_pntr ≢ s.curr_line.len) × (s.curr_line.buff_pntr + 1 ≢ s.size)
  ahead_cases le lt full = elim (Bool-cases (s.curr_line.buff_pntr == s.curr_line.len)) [
    | inl end ↦ inl (inl (ground arith))
    | inr more ↦ elim (Bool-cases (s.curr_line.buff_pntr + 1 == s.size)) [
      | inl column ↦ inl (inr (ground arith))
      | inr room ↦ inr (ground arith, ground arith)
    ]
  ]

  last_place :
      s.curr_line.buff_pntr ≤ s.curr_line.len
      → s.curr_line.buff_pntr < s.size
      → s.curr_line.len ≢ s.size
      → AtBorder s
      → LastPlace s.size s.curr_line s.curr_line.buff_pntr
  last_place le lt full border = elim (Bool-cases (ltb s.size s.curr_line.len)) [
    | inl wrapped ↦
        LastPlace-wrapped s.size s.curr_line s.curr_line.buff_pntr (ltb→lt _ _ wrapped)
          (column wrapped border)
    | inr ends ↦
        subst (LastPlace s.size s.curr_line) (sym (end ends border))
          (LastPlace-ended s.size s.curr_line (ground arith))
  ]
    where
      column : ltb s.size s.curr_line.len ≡ true → AtBorder s → s.size ≡ s.curr_line.buff_pntr + 1
      column wrapped (inl e) = ground arith
      column wrapped (inr e) = sym e

      end :
          ltb s.size s.curr_line.len ≡ false → AtBorder s → s.curr_line.buff_pntr ≡ s.curr_line.len
      end ends (inl e) = e
      end ends (inr e) = ground arith

  end_right :
      s.curr_line.buff_pntr ≤ s.curr_line.len
      → s.curr_line.buff_pntr < s.size
      → s.curr_line.len < s.size
      → AtBorder s
      → s.after ≡ []
      → right_of_cursor s ≡ newline ∷ []
  end_right le lt ends border alone =
      unfold right_of_cursor in
      (ap (λ ls. rest_of_line s.size s.curr_line ++ below s.size ls) alone
        ∙ append-nil _
        ∙ rest_of_line_ended s.size s.curr_line (omega arith)
        ∙ ap (λ n. cells s.curr_line.buff_pntr n s.curr_line.buffer ++ newline ∷ [])
            {x = s.curr_line.len - s.curr_line.buff_pntr} {y = 0} (none_left border)
        ∙ unfold cells in refl)
    where
      none_left : AtBorder s → s.curr_line.len - s.curr_line.buff_pntr ≡ 0
      none_left (inl e) = omega arith
      none_left (inr e) = omega arith

  -- move_cursor_forward with the cursor in its line and before the last place of the area goes over
  -- exactly one character of the text, or beeps and changes nothing with only the last end of a
  -- line behind it, if the line is not just as long as the area is wide, and the last line of the
  -- area is shorter than that.
  pub move_cursor_forward-OneBack :
      s.curr_line.buff_pntr ≤ s.curr_line.len
      → s.curr_line.buff_pntr < s.size
      → s.curr_line.len ≢ s.size
      → (s.after ≡ [] → s.curr_line.len < s.size)
      → OneBack (move_cursor_forward s) s
        ⊎ ((right_of_cursor s ≡ newline ∷ []) × (move_cursor_forward s ≡ beep_at_the_user s))
  move_cursor_forward-OneBack le lt full last = elim (ahead_cases le lt full) [
    | inl border ↦ elim (List-cases s.after) [
      | inl alone ↦ inr (end_right le lt (last alone) border alone, forward_beep border alone)
      | inr (n, ns, lines) ↦ inl (
          subst (λ t. OneBack t s) (sym (forward_crossing n ns border lines))
            (crossing_ahead n ns lines (last_place le lt full border)))
    ]
    | inr (a, b) ↦
        inl (subst (λ t. OneBack t s) (sym (forward_inside a b)) (inside_ahead (ground arith)))
  ]
