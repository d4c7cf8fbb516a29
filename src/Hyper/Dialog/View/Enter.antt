-- ===== src/Hyper/Dialog/View/Enter.antt =====
-- enter_new_line of src/hyper/dialog.c, by the text: the end of a line is put in at the cursor.
use open_axiom.Prelude.{
  ℕ, ◌+◌, ◌-◌, ◌≤◌, ◌<◌, ◌≡◌, ◌≢◌, refl, sym, ap, ◌∙◌, List, [], ◌∷◌, ◌++◌, ◌⊎◌, inl, inr, some,
  arith, append_assoc, append-nil, List-cases, Bool-cases, ltb→lt, ==_iff, ltb, ◌==◌,
}
use open_axiom.Prelude.Memory.{cells}
use open_axiom.Prelude.Memory.Cells.{cells_move, cells-store_behind}
use open_axiom.Hyper.Dialog.{LineStruct, InputItem, alloc_inputline, redraw_win, strncpy}
use open_axiom.Hyper.Dialog.Copies.{strncpy_lem}
use open_axiom.Hyper.Dialog.Enter.{
  enter_new_line, enter_line, enter_at_start, line_in_front, end_line, cut_line, cut_front,
  cut_back,
}
use open_axiom.Hyper.Dialog.View.{
  newline, shown, above, below, left_of_cursor, right_of_cursor, rest_of_line, IsClean,
}
use open_axiom.Hyper.Dialog.View.Lines.{
  below-inc_line_numbers, shown_ended, shown_wrapped, rest_of_line_ended,
}

shown-end_line :
    (size : ℕ) (l : LineStruct)
    → size < l.len
    → shown size (end_line size l) ≡ shown size l ++ newline ∷ []
shown-end_line size l lt =
    shown_ended size (end_line size l) (unfold end_line in omega arith)
    ∙ unfold end_line in
      ap (λ cs. cs ++ newline ∷ [])
        (cells-store_behind l.buffer 0 size size 0 (omega arith) ∙ sym (shown_wrapped size l lt))

shown-alloc_inputline : (size n : ℕ) → shown size (alloc_inputline n) ≡ newline ∷ []
shown-alloc_inputline size n =
    shown_ended size (alloc_inputline n) (unfold alloc_inputline in omega arith)
    ∙ unfold alloc_inputline cells in refl

shown-cut_front :
    (size : ℕ) (l : LineStruct)
    → l.buff_pntr ≤ size
    → shown size (cut_front l) ≡ cells 0 l.buff_pntr l.buffer ++ newline ∷ []
shown-cut_front size l le =
    shown_ended size (cut_front l) (unfold cut_front in omega arith)
    ∙ unfold cut_front in
      ap (λ cs. cs ++ newline ∷ [])
        (cells-store_behind l.buffer 0 l.buff_pntr l.buff_pntr 0 (omega arith))

module _ (size : ℕ) (l : LineStruct) (le : l.len ≤ size) (clean : IsClean size l) where
  no_nul : (j : ℕ) → j < l.len - l.buff_pntr → l.buffer (l.buff_pntr + j) ≢ 0
  no_nul j lt = (clean (l.buff_pntr + j) (ground arith)).1

  rest_of_line-cut_back : rest_of_line size (cut_back l) ≡ rest_of_line size l
  rest_of_line-cut_back =
      rest_of_line_ended size (cut_back l) (unfold cut_back in omega arith)
      ∙ unfold cut_back alloc_inputline in
        ap (λ n. cells 0 n (cut_back l).buffer ++ newline ∷ []) {x = l.len - l.buff_pntr - 0}
          {y = l.len - l.buff_pntr} (omega arith)
        ∙ unfold cut_back alloc_inputline in
          ap (λ cs. cs ++ newline ∷ [])
            (cells_move l.buffer (strncpy 0 l.buff_pntr (l.len - l.buff_pntr) l.buffer (λ _. 0))
              l.buff_pntr 0 (l.len - l.buff_pntr)
              (λ k lt. ground (
                arith,
                strncpy_lem 0 l.buff_pntr (l.len - l.buff_pntr) l.buffer (λ _. 0) (0 + k) no_nul,
                ap l.buffer {x = 0 + k - 0 + l.buff_pntr} {y = l.buff_pntr + k} (omega arith),
              )))
          ∙ sym (rest_of_line_ended size l le)

module _ (s : InputItem) where
  line_in_front-left :
      s.curr_line.buff_pntr ≡ 0
      → left_of_cursor (line_in_front s) ≡ left_of_cursor s ++ newline ∷ []
  unfolding left_of_cursor line_in_front cells
  line_in_front-left e =
      let m = s.curr_line.buffer in
      let empty : cells 0 s.curr_line.buff_pntr m ≡ [] = ap (λ n. cells 0 n m) e in
      let front = above s.size s.before in
      ap (λ cs. (front ++ shown s.size (alloc_inputline s.curr_line.line_number)) ++ cs) empty
      ∙ append-nil _
      ∙ ap (λ cs. front ++ cs) (shown-alloc_inputline s.size s.curr_line.line_number)
      ∙ ap (λ cs. cs ++ newline ∷ []) (sym (append-nil front) ∙ ap (λ cs. front ++ cs) (sym empty))

  line_in_front-right : right_of_cursor (line_in_front s) ≡ right_of_cursor s
  unfolding right_of_cursor rest_of_line line_in_front
  line_in_front-right =
      ap (λ cs. rest_of_line s.size s.curr_line ++ cs) (below-inc_line_numbers s.size s.after)

  cut_line-left :
      s.curr_line.buff_pntr ≤ s.size
      → left_of_cursor (cut_line s) ≡ left_of_cursor s ++ newline ∷ []
  unfolding left_of_cursor cut_line cut_back alloc_inputline cells
  cut_line-left le =
      append-nil _
      ∙ ap (λ cs. above s.size s.before ++ cs) (shown-cut_front s.size s.curr_line le)
      ∙ sym (append_assoc (above s.size s.before) _ _)

  cut_line-right :
      s.curr_line.len ≤ s.size
      → IsClean s.size s.curr_line
      → right_of_cursor (cut_line s) ≡ right_of_cursor s
  unfolding right_of_cursor cut_line
  cut_line-right le clean =
      ap (λ cs. cs ++ below s.size (cut_line s).after)
        (rest_of_line-cut_back s.size s.curr_line le clean)
      ∙ ap (λ cs. rest_of_line s.size s.curr_line ++ cs) (below-inc_line_numbers s.size s.after)

module _ (s : InputItem) (at_start : s.curr_line.buff_pntr ≡ 0) where
  pub enter_line_start : enter_line s ≡ enter_at_start s
  unfolding enter_line
  enter_line_start = ground arith

  module _ (prev : LineStruct) (ps : List LineStruct) (e : s.before ≡ prev ∷ ps) where
    enter_at_start_wrapped :
        s.size < prev.len
        → enter_at_start s ≡ some (record s { before = end_line s.size prev ∷ ps })
    unfolding enter_at_start
    enter_at_start_wrapped lt = ground arith

    enter_at_start_ended : prev.len ≤ s.size → enter_at_start s ≡ some (line_in_front s)
    unfolding enter_at_start
    enter_at_start_ended le = ground arith

    end_line-left :
        s.size < prev.len
        → left_of_cursor (record s { before = end_line s.size prev ∷ ps })
          ≡ left_of_cursor s ++ newline ∷ []
    unfolding left_of_cursor cells
    end_line-left lt =
        let m = s.curr_line.buffer in
        let empty : cells 0 s.curr_line.buff_pntr m ≡ [] = ap (λ n. cells 0 n m) at_start in
        let front = above s.size ps in
        ap (λ cs. (front ++ shown s.size (end_line s.size prev)) ++ cs) empty
        ∙ append-nil _
        ∙ ap (λ cs. front ++ cs) (shown-end_line s.size prev lt)
        ∙ sym (append_assoc front _ _)
        ∙ ap (λ cs. cs ++ newline ∷ [])
            (ap (above s.size) (sym e)
              ∙ sym (append-nil _)
              ∙ ap (λ cs. above s.size s.before ++ cs) (sym empty))

-- The state behind, and what it shows.
abbrev pub Enters : InputItem → Type 0
Enters s =
    (t : InputItem) × (enter_new_line s ≡ some t)
    × (left_of_cursor t ≡ left_of_cursor s ++ newline ∷ [])
    × (right_of_cursor t ≡ right_of_cursor s)

Enters-intro :
    (s t : InputItem)
    → enter_line s ≡ some t
    → left_of_cursor t ≡ left_of_cursor s ++ newline ∷ []
    → right_of_cursor t ≡ right_of_cursor s
    → Enters s
unfolding enter_new_line left_of_cursor right_of_cursor redraw_win
Enters-intro s t e l r = (redraw_win t, rw e refl, l, r)

pub enter_line_inside :
    (s : InputItem)
    → s.curr_line.buff_pntr ≢ 0
    → s.curr_line.len ≤ s.size
    → s.curr_line.buff_pntr ≤ s.curr_line.len
    → enter_line s ≡ some (cut_line s)
unfolding enter_line
enter_line_inside s inside le placed = ground arith

pub enter_start : (s : InputItem) → s.curr_line.buff_pntr ≡ 0 → s.before ≢ [] → Enters s
enter_start s e some_line = elim (List-cases s.before) [
  | inl none_above ↦ absurd (some_line none_above)
  | inr (prev, ps, lines) ↦ elim (Bool-cases (ltb s.size prev.len)) [
    | inl wrapped ↦
        let lt = ltb→lt s.size prev.len wrapped in
        Enters-intro s (record s { before = end_line s.size prev ∷ ps })
          (enter_line_start s e ∙ enter_at_start_wrapped s e prev ps lines lt)
          (end_line-left s e prev ps lines lt) (unfold right_of_cursor in refl)
    | inr ends ↦
        Enters-intro s (line_in_front s)
          (enter_line_start s e ∙ enter_at_start_ended s e prev ps lines (ground arith))
          (line_in_front-left s e) (line_in_front-right s)
  ]
]

-- enter_new_line puts the end of a line into the text at the cursor and changes nothing else of it,
-- if the line does not go on, the cursor is in it, its characters are no newline and no NUL, and
-- the cursor is not at the start of the first line.
pub enter_new_line-text :
    (s : InputItem)
    → s.curr_line.buff_pntr ≤ s.curr_line.len
    → s.curr_line.len ≤ s.size
    → IsClean s.size s.curr_line
    → ((s.curr_line.buff_pntr ≢ 0) ⊎ (s.before ≢ []))
    → Enters s
enter_new_line-text s in_line le clean place = elim (Bool-cases (s.curr_line.buff_pntr == 0)) [
  | inl first ↦
      let e = (==_iff s.curr_line.buff_pntr 0).0 first in enter_start s e (not_first place e)
  | inr inside ↦
      Enters-intro s (cut_line s) (enter_line_inside s (ground arith) le in_line)
        (cut_line-left s (omega arith)) (cut_line-right s le clean)
]
  where
    not_first :
        (s.curr_line.buff_pntr ≢ 0) ⊎ (s.before ≢ []) → s.curr_line.buff_pntr ≡ 0 → s.before ≢ []
    not_first (inl inside) e = absurd (inside e)
    not_first (inr lines) e = lines
