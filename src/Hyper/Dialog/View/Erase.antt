-- ===== src/Hyper/Dialog/View/Erase.antt =====
-- delete_char and back_over_char of src/hyper/dialog.c inside a line that ends, by the text.
use open_axiom.Prelude.{
  ℕ, suc, ◌+◌, ◌-◌, ◌≤◌, ◌<◌, ◌≡◌, ◌≢◌, refl, sym, ap, ◌∙◌, List, [], ◌∷◌, ◌++◌, some, arith,
  append_assoc, true,
}
use open_axiom.Prelude.Memory.{store, cells}
use open_axiom.Prelude.Memory.Cells.{cells_move, cells_last}
use open_axiom.Hyper.Dialog.{
  LineStruct, InputItem, strncpy_within, update_inputsymbol, set_buff_pntr,
}
use open_axiom.Hyper.Dialog.Copies.{strncpy_within_lem}
use open_axiom.Hyper.Dialog.Delete.Back.{
  delete_char, delete_one_char, back_over_char, move_back_one_char, shift_line, end_with, take_next,
  mark_changed, finish_back,
}
use open_axiom.Hyper.Dialog.View.{
  newline, below, above, left_of_cursor, right_of_cursor, rest_of_line, IsClean,
}
use open_axiom.Hyper.Dialog.View.Move.{rest_of_line_cons}
use open_axiom.Hyper.Dialog.View.Lines.{
  rest_of_line_ended, update_inputsymbol-left, update_inputsymbol-right,
}

-- The character at `q` goes out of the line, of which `n` characters behind `q` are copied.
erase : (q n : ℕ) → LineStruct → LineStruct
erase q n l = record l {
  buffer = store (strncpy_within q (suc q) n l.buffer) (l.len - 1) 0;
  len = l.len - 1;
}

module _ (size q n : ℕ) (l : LineStruct) (ends : l.len ≤ size) (clean : IsClean size l)
    (enough : l.len ≤ q + n + 1) (inside : q < l.len) where
  no_nul : (k : ℕ) → k < l.len - 1 → (j : ℕ) → j < n → q + j ≤ k → l.buffer (suc q + j) ≢ 0
  no_nul k lt j le below = (clean (suc q + j) (ground arith)).1

  erase-front : cells 0 q (erase q n l).buffer ≡ cells 0 q l.buffer
  unfolding erase
  erase-front = cells_move l.buffer (erase q n l).buffer 0 0 q (λ k lt. ground (
    arith,
    strncpy_within_lem q (suc q) n l.buffer (0 + k) (omega arith)
        (λ j le below. absurd (omega arith)),
  ))

  erase-back : cells q (l.len - 1 - q) (erase q n l).buffer ≡ cells (q + 1) (l.len - 1 - q) l.buffer
  unfolding erase
  erase-back = cells_move l.buffer (erase q n l).buffer (q + 1) q (l.len - 1 - q) (λ k lt. ground (
    arith,
    strncpy_within_lem q (suc q) n l.buffer (q + k) (omega arith) (no_nul (q + k) (omega arith)),
    ap l.buffer {x = q + k - q + suc q} {y = q + 1 + k} (omega arith),
  ))

  -- What stands behind the place, without and with the character.
  rest_of_line-erase :
      rest_of_line size (set_buff_pntr q (erase q n l))
      ≡ cells (q + 1) (l.len - 1 - q) l.buffer ++ newline ∷ []
  rest_of_line-erase =
      rest_of_line_ended size (set_buff_pntr q (erase q n l)) (unfold erase in omega arith)
      ∙ ap (λ cs. cs ++ newline ∷ []) erase-back'
    where
      erase-back' :
          cells q ((set_buff_pntr q (erase q n l)).len - q) (erase q n l).buffer
          ≡ cells (q + 1) (l.len - 1 - q) l.buffer
      erase-back' = unfold erase in erase-back

  rest_of_line-behind :
      rest_of_line size (set_buff_pntr (q + 1) l)
      ≡ cells (q + 1) (l.len - 1 - q) l.buffer ++ newline ∷ []
  rest_of_line-behind =
      rest_of_line_ended size (set_buff_pntr (q + 1) l) ends
      ∙ ap (λ k. cells (q + 1) k l.buffer ++ newline ∷ []) {x = l.len - (q + 1)} {y = l.len - 1 - q}
          (omega arith)

-- The current line is replaced.
abbrev with_line : LineStruct → InputItem → InputItem
with_line l s = record s { curr_line = l }

abbrev marked : LineStruct → LineStruct
marked l = record l { changed = true }

-- `t` shows the text of `s` without the character `c` that the cursor of `t` stands at.
pub record Loses (before behind : List ℕ) (c : ℕ) (t : InputItem) : Type 0 where
  pub left : left_of_cursor t ≡ before
  pub right : c ∷ right_of_cursor t ≡ behind

module _ (s : InputItem) (ends : s.curr_line.len ≤ s.size)
    (clean : IsClean s.size s.curr_line) where
  module _ (inside : s.curr_line.buff_pntr < s.curr_line.len) where
    abbrev deleted : InputItem
    deleted =
        with_line
          (marked
            (erase s.curr_line.buff_pntr (s.curr_line.len - s.curr_line.buff_pntr) s.curr_line))
          s

    delete_one_char_inside : delete_one_char s ≡ some (deleted, true)
    unfolding delete_one_char take_next shift_line end_with mark_changed erase
    delete_one_char_inside = ground arith

    deleted-left : left_of_cursor deleted ≡ left_of_cursor s
    unfolding left_of_cursor erase
    deleted-left =
        ap (λ cs. above s.size s.before ++ cs)
          (erase-front s.size s.curr_line.buff_pntr (s.curr_line.len - s.curr_line.buff_pntr)
            s.curr_line ends clean (omega arith) inside)

    deleted-right :
        s.curr_line.buffer s.curr_line.buff_pntr ∷ right_of_cursor deleted ≡ right_of_cursor s
    unfolding right_of_cursor erase
    deleted-right =
        let l = s.curr_line in
        let q = l.buff_pntr in
        ap (λ cs. l.buffer q ∷ (cs ++ below s.size s.after))
          (rest_of_line-erase s.size q (l.len - q) l ends clean (omega arith) inside
            ∙ sym (rest_of_line-behind s.size q (l.len - q) l ends clean (omega arith) inside))
        ∙ ap (λ cs. cs ++ below s.size s.after) (sym (rest_of_line_cons s.size l q (ground arith)))

    -- delete_char with the cursor before a character of a line that does not go on removes this
    -- character and nothing else from the text, if the characters of the line are no newline and no
    -- NUL.
    pub delete_char-Loses :
        (t : InputItem) × (delete_char s ≡ some t)
        × Loses (left_of_cursor s) (right_of_cursor s) (s.curr_line.buffer s.curr_line.buff_pntr) t
    unfolding delete_char
    delete_char-Loses = (
      update_inputsymbol deleted,
      rw delete_one_char_inside refl,
      record {
        left = update_inputsymbol-left deleted ∙ deleted-left;
        right =
            ap (λ cs. s.curr_line.buffer s.curr_line.buff_pntr ∷ cs)
              (update_inputsymbol-right deleted)
            ∙ deleted-right;
      },
    )

  module _ (q : ℕ) (behind : s.curr_line.buff_pntr ≡ q + 1) (inside : q < s.curr_line.len) where
    abbrev backed : InputItem
    backed =
        with_line
          (set_buff_pntr q (erase q (s.curr_line.len - s.curr_line.buff_pntr) (marked s.curr_line)))
          s

    move_back_one_char_inside :
        s.curr_line.buff_pntr ≤ s.curr_line.len
        → move_back_one_char s ≡ some (update_inputsymbol backed, true)
    unfolding move_back_one_char take_next mark_changed finish_back shift_line end_with erase
    move_back_one_char_inside le =
        let e : s.curr_line.buff_pntr - 1 ≡ q = omega arith in ground arith

    backed-left : left_of_cursor s ≡ left_of_cursor backed ++ s.curr_line.buffer q ∷ []
    unfolding left_of_cursor erase
    backed-left =
        let l = s.curr_line in
        ap (λ cs. above s.size s.before ++ cs)
          (ap (λ n. cells 0 n l.buffer) behind
            ∙ cells_last l.buffer 0 q
            ∙ ap (λ j. cells 0 q l.buffer ++ l.buffer j ∷ []) {x = 0 + q} {y = q} (omega arith)
            ∙ ap (λ cs. cs ++ l.buffer q ∷ [])
                (sym
                  (erase-front s.size q (l.len - l.buff_pntr) l ends clean (omega arith) inside)))
        ∙ sym (append_assoc (above s.size s.before) _ _)

    backed-right : right_of_cursor backed ≡ right_of_cursor s
    unfolding right_of_cursor erase
    backed-right =
        let l = s.curr_line in
        ap (λ cs. cs ++ below s.size s.after)
          (rest_of_line-erase s.size q (l.len - l.buff_pntr) l ends clean (omega arith) inside
            ∙ sym (
                rest_of_line-behind s.size q (l.len - l.buff_pntr) l ends clean (omega arith)
                  inside)
            ∙ ap (λ n. rest_of_line s.size (set_buff_pntr n l)) (sym behind))

    -- back_over_char with the cursor behind a character, in a line that does not go on, removes
    -- this character and nothing else from the text, if the characters of the line are no newline
    -- and no NUL.
    pub back_over_char-text :
        (t : InputItem) × (back_over_char s ≡ some t)
        × (left_of_cursor s ≡ left_of_cursor t ++ s.curr_line.buffer q ∷ [])
        × (right_of_cursor t ≡ right_of_cursor s)
    unfolding back_over_char
    back_over_char-text = (
      update_inputsymbol (update_inputsymbol backed),
      rw (move_back_one_char_inside (omega arith)) refl,
      backed-left
          ∙ ap (λ cs. cs ++ s.curr_line.buffer q ∷ [])
              (sym (update_inputsymbol-left backed)
                ∙ sym (update_inputsymbol-left (update_inputsymbol backed))),
      update_inputsymbol-right (update_inputsymbol backed)
          ∙ update_inputsymbol-right backed
          ∙ backed-right,
    )
