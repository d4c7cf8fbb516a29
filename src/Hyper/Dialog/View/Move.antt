-- ===== src/Hyper/Dialog/View/Move.antt =====
-- The moves over one character of src/hyper/dialog.c, by the text.
use mathlib.Core.Path.{subst}
use open_axiom.Prelude.{
  ℕ, suc, ◌+◌, ◌-◌, ◌≤◌, ◌<◌, ◌≡◌, ◌≢◌, sym, ap, ◌∙◌, List, [], ◌∷◌, ◌++◌, ◌⊎◌, inl, inr, arith,
  append_assoc, append-nil, ltb, ◌==◌, ltb→lt, Bool-cases, ==_iff, List-cases,
}
use open_axiom.Prelude.Memory.{cells}
use open_axiom.Prelude.Memory.Cells.{cells_last}
use open_axiom.Hyper.Dialog.{LineStruct, InputItem, beep_at_the_user, enter_prev, set_buff_pntr}
use open_axiom.Hyper.Dialog.Move.{move_cursor_backward, or_beep, set_cursor, put_behind}
use open_axiom.Hyper.Dialog.View.{
  newline, width, ending, shown, above, below, left_of_cursor, right_of_cursor, rest_of_line,
}
use open_axiom.Hyper.Dialog.View.Lines.{
  rest_of_line_start, shown_ended, shown_wrapped, rest_of_line_ended, rest_of_line_wrapped,
}

-- The cursor of `t` stands one character in front of that of `s`.
pub record OneBack (s t : InputItem) : Type 0 where
  pub char : ℕ
  pub left : left_of_cursor s ≡ left_of_cursor t ++ char ∷ []
  pub right : right_of_cursor t ≡ char ∷ right_of_cursor s

-- One character inside a line.
pub rest_of_line_cons :
    (size : ℕ) (l : LineStruct) (q : ℕ)
    → q < width size l
    → rest_of_line size (set_buff_pntr q l)
      ≡ l.buffer q ∷ rest_of_line size (set_buff_pntr (q + 1) l)
unfolding rest_of_line cells
rest_of_line_cons size l q lt =
    ap (λ n. cells q n l.buffer ++ ending size l) {x = width size l - q}
      {y = suc (width size l - (q + 1))} (ground arith)
    ∙ ap (λ j. (l.buffer q ∷ cells j (width size l - (q + 1)) l.buffer) ++ ending size l)
        {x = suc q} {y = q + 1} (omega arith)

module _ (s : InputItem) where
  -- Inside the line.
  pub inside-OneBack :
      (q : ℕ)
      → s.curr_line.buff_pntr ≡ q + 1
      → q < width s.size s.curr_line
      → OneBack s (set_cursor (set_buff_pntr q) s)
  inside-OneBack q e lt = record {
    char = s.curr_line.buffer q;
    left =
        unfold left_of_cursor in
        (ap (λ cs. above s.size s.before ++ cs)
            (ap (λ n. cells 0 n s.curr_line.buffer) e
              ∙ cells_last s.curr_line.buffer 0 q
              ∙ ap (λ j. cells 0 q s.curr_line.buffer ++ s.curr_line.buffer j ∷ []) {x = 0 + q}
                  {y = q} (omega arith))
          ∙ sym (append_assoc (above s.size s.before) _ _));
    right =
        unfold right_of_cursor in
        ap (λ cs. cs ++ below s.size s.after)
          (rest_of_line_cons s.size s.curr_line q lt
            ∙ ap (λ n. s.curr_line.buffer q ∷ rest_of_line s.size (set_buff_pntr n s.curr_line))
                (sym e));
  }

-- The last place in a line: in front of its last character, if it goes on, or of its end.
pub record LastPlace (size : ℕ) (l : LineStruct) (q : ℕ) : Type 0 where
  pub char : ℕ
  pub whole : shown size l ≡ cells 0 q l.buffer ++ char ∷ []
  pub rest : rest_of_line size (set_buff_pntr q l) ≡ char ∷ []

pub LastPlace-wrapped :
    (size : ℕ) (l : LineStruct) (q : ℕ) → size < l.len → size ≡ q + 1 → LastPlace size l q
LastPlace-wrapped size l q lt e = record {
  char = l.buffer q;
  whole =
      shown_wrapped size l lt
      ∙ ap (λ n. cells 0 n l.buffer) e
      ∙ cells_last l.buffer 0 q
      ∙ ap (λ j. cells 0 q l.buffer ++ l.buffer j ∷ []) {x = 0 + q} {y = q} (omega arith);
  rest =
      rest_of_line_wrapped size (set_buff_pntr q l) lt
      ∙ unfold cells in ap (λ n. cells q n l.buffer) {x = size - q} {y = 1} (omega arith);
}

pub LastPlace-ended : (size : ℕ) (l : LineStruct) → l.len ≤ size → LastPlace size l l.len
LastPlace-ended size l le = record {
  char = newline;
  whole = shown_ended size l le;
  rest =
      rest_of_line_ended size (set_buff_pntr l.len l) le
      ∙ unfold cells in
        ap (λ n. cells l.len n l.buffer ++ newline ∷ []) {x = l.len - l.len} {y = 0} (omega arith);
}

module _ (s t : InputItem) (q : ℕ) where
  -- Over the border of two lines.
  pub cross-OneBack :
      (prev : LineStruct) (ps : List LineStruct)
      → s.curr_line.buff_pntr ≡ 0
      → s.before ≡ prev ∷ ps
      → LastPlace s.size prev q
      → t
        ≡ record s { before = ps; curr_line = set_buff_pntr q prev; after = s.curr_line ∷ s.after }
      → OneBack s t
  cross-OneBack prev ps e lines last state = record {
    char = last.char;
    left =
        unfold left_of_cursor cells in
        (ap (λ n. above s.size s.before ++ cells 0 n s.curr_line.buffer) e
          ∙ append-nil _
          ∙ ap (above s.size) lines
          ∙ ap (λ cs. above s.size ps ++ cs) last.whole
          ∙ sym (append_assoc (above s.size ps) _ _)
          ∙ ap (λ (u : InputItem). left_of_cursor u ++ last.char ∷ []) (sym state));
    right =
        unfold right_of_cursor in
        (ap right_of_cursor state
          ∙ ap (λ cs. cs ++ (shown s.size s.curr_line ++ below s.size s.after)) last.rest
          ∙ ap (λ cs. last.char ∷ (cs ++ below s.size s.after))
              (sym (rest_of_line_start s.size s.curr_line e)));
  }

module _ (s : InputItem) where
  backward_inside :
      s.curr_line.buff_pntr ≢ 0
      → move_cursor_backward s ≡ set_cursor (set_buff_pntr (s.curr_line.buff_pntr - 1)) s
  unfolding move_cursor_backward
  backward_inside inside = ground arith

  backward_crossing :
      (prev : LineStruct) (ps : List LineStruct)
      → s.curr_line.buff_pntr ≡ 0
      → s.before ≡ prev ∷ ps
      → move_cursor_backward s ≡ record s {
        before = ps;
        curr_line = put_behind s.size prev;
        after = s.curr_line ∷ s.after;
      }
  unfolding move_cursor_backward or_beep enter_prev
  backward_crossing prev ps e lines = ground arith

  backward_beep :
      s.curr_line.buff_pntr ≡ 0 → s.before ≡ [] → move_cursor_backward s ≡ beep_at_the_user s
  unfolding move_cursor_backward or_beep enter_prev
  backward_beep e alone = ground arith

  -- move_cursor_backward with the cursor in the text of its line goes over exactly one character of
  -- the text, which may be the end of a line or the last of a line that goes on, and beeps and
  -- changes nothing at the start of the text, in an area of at least one column.
  pub move_cursor_backward-OneBack :
      1 ≤ s.size
      → s.curr_line.buff_pntr ≤ width s.size s.curr_line
      → OneBack s (move_cursor_backward s)
        ⊎ ((left_of_cursor s ≡ []) × (move_cursor_backward s ≡ beep_at_the_user s))
  move_cursor_backward-OneBack pos placed = elim (Bool-cases (s.curr_line.buff_pntr == 0)) [
    | inl first ↦
        let e = (==_iff s.curr_line.buff_pntr 0).0 first in
        elim (List-cases s.before) [
          | inl alone ↦ inr (start_left e alone, backward_beep e alone)
          | inr (prev, ps, lines) ↦ inl (crossing prev ps e lines)
        ]
    | inr inside ↦ inl (
        subst (OneBack s) (sym (backward_inside (ground arith)))
          (inside-OneBack s (s.curr_line.buff_pntr - 1) (ground arith) (ground arith)))
  ]
    where
      start_left : s.curr_line.buff_pntr ≡ 0 → s.before ≡ [] → left_of_cursor s ≡ []
      start_left e alone =
          unfold left_of_cursor cells in
          (ap (λ n. above s.size s.before ++ cells 0 n s.curr_line.buffer) e
            ∙ append-nil _
            ∙ ap (above s.size) alone)

      crossing :
          (prev : LineStruct) (ps : List LineStruct)
          → s.curr_line.buff_pntr ≡ 0
          → s.before ≡ prev ∷ ps
          → OneBack s (move_cursor_backward s)
      crossing prev ps e lines = elim (Bool-cases (ltb s.size prev.len)) [
        | inl wrapped ↦
            cross-OneBack s (move_cursor_backward s) (s.size - 1) prev ps e lines
              (LastPlace-wrapped s.size prev (s.size - 1) (ltb→lt _ _ wrapped) (omega arith))
              (backward_crossing prev ps e lines ∙ ground arith)
        | inr ends ↦
            cross-OneBack s (move_cursor_backward s) prev.len prev ps e lines
              (LastPlace-ended s.size prev (ground arith))
              (backward_crossing prev ps e lines ∙ ground arith)
      ]
