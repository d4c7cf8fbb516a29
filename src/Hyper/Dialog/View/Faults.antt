-- ===== src/Hyper/Dialog/View/Faults.antt =====
-- Where enter_new_line of src/hyper/dialog.c has no line to read, and where it leaves the lines
-- behind.
use open_axiom.Prelude.{
  ◌⊎◌, ltb, ltb→lt, ◌+◌, ◌≤◌, ◌<◌, ◌≡◌, refl, sym, ap, ◌∙◌, [], ◌∷◌, ◌++◌, inl, inr, none, some,
  arith, append-nil, List-cases, Bool-cases, ◌↔◌, ==_iff, ◌==◌,
}
use open_axiom.Prelude.Memory.{cells}
use open_axiom.Hyper.Dialog.{InputItem, alloc_inputline, redraw_win}
use open_axiom.Hyper.Dialog.Enter.{enter_new_line, enter_line, enter_at_start, enter_behind}
use open_axiom.Hyper.Dialog.View.{newline, above, left_of_cursor, right_of_cursor}
use open_axiom.Hyper.Dialog.View.Lines.{shown_wrapped, rest_of_line_ended}
use open_axiom.Hyper.Dialog.View.Enter.{enter_line_start, enter_line_inside, enter_start}

enter_at_start_fault : (s : InputItem) → s.before ≡ [] → enter_at_start s ≡ none
unfolding enter_at_start
enter_at_start_fault s e = ground arith

enter_line_behind :
    (s : InputItem)
    → s.curr_line.len ≤ s.size
    → s.curr_line.len < s.curr_line.buff_pntr
    → enter_line s ≡ none
unfolding enter_line
enter_line_behind s le lt = ground arith

fault_parts :
    (s : InputItem)
    → s.curr_line.len ≤ s.size
    → enter_new_line s ≡ none
    → ((s.curr_line.buff_pntr ≡ 0) × (s.before ≡ [])) ⊎ (s.curr_line.len < s.curr_line.buff_pntr)
fault_parts s le fault = elim (Bool-cases (s.curr_line.buff_pntr == 0)) [
  | inl first ↦ elim (List-cases s.before) [
    | inl none_above ↦ inl ((==_iff s.curr_line.buff_pntr 0).0 first, none_above)
    | inr (prev, ps, lines) ↦
        let (t, runs, _, _) = enter_start s ((==_iff s.curr_line.buff_pntr 0).0 first) (λ e. cc) in
        cc
  ]
  | inr inside ↦ elim (Bool-cases (ltb s.curr_line.len s.curr_line.buff_pntr)) [
    | inl behind ↦ inr (ltb→lt _ _ behind)
    | inr placed ↦
        let runs = enter_line_inside s (ground arith) le (ground arith) in
        unfold enter_new_line in cc
  ]
]

-- In a line that does not go on, enter_new_line is a fault exactly if the cursor is at the start of
-- the first line, or behind the end of its line.
pub enter_new_line-fault :
    (s : InputItem)
    → s.curr_line.len ≤ s.size
    → (enter_new_line s ≡ none) ↔ (
        ((s.curr_line.buff_pntr ≡ 0) × (s.before ≡ [])) ⊎ (s.curr_line.len < s.curr_line.buff_pntr))
unfolding enter_new_line
enter_new_line-fault s le = (
  fault_parts s le,
  λ place. elim place [
    | inl (first, alone) ↦ rw (enter_line_start s first ∙ enter_at_start_fault s alone) refl
    | inr behind ↦ rw (enter_line_behind s le behind) refl
  ],
)

-- With the cursor behind the last column of a line that goes on, enter_new_line keeps what stands
-- in front of the cursor, and nothing but the end of a line behind it.
pub enter_new_line-loss :
    (s : InputItem)
    → 1 ≤ s.size
    → s.curr_line.buff_pntr ≡ s.size
    → s.size < s.curr_line.len
    → (t : InputItem) × (enter_new_line s ≡ some t)
      × (left_of_cursor t ≡ left_of_cursor s)
      × (right_of_cursor t ≡ newline ∷ [])
enter_new_line-loss s pos e lt = (
  redraw_win (enter_behind s),
  unfold enter_new_line enter_line in ground arith,
  left_same,
  unfold redraw_win enter_behind right_of_cursor alloc_inputline cells in
      ground (arith, rest_of_line_ended s.size (alloc_inputline (s.curr_line.line_number + 1))),
)
  where
    left_same : left_of_cursor (redraw_win (enter_behind s)) ≡ left_of_cursor s
    left_same =
        unfold left_of_cursor redraw_win enter_behind alloc_inputline cells in
        (append-nil _
          ∙ ap (λ cs. above s.size s.before ++ cs)
              (shown_wrapped s.size s.curr_line lt
                ∙ ap (λ n. cells 0 n s.curr_line.buffer) (sym e)))
