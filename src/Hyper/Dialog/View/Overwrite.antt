-- ===== src/Hyper/Dialog/View/Overwrite.antt =====
-- overwrite_buffer of src/hyper/dialog.c, by the text.
use open_axiom.Prelude.{
  ℕ, ◌+◌, ◌-◌, ◌≤◌, ◌<◌, ◌≡◌, refl, sym, ap, ◌∙◌, List, [], ◌∷◌, ◌++◌, inl, inr, some, arith,
  append_assoc, ltb, if◌then◌else◌, false, Bool-cases, ltb→lt,
}
use open_axiom.Prelude.Memory.{store, cells}
use open_axiom.Prelude.Memory.Cells.{cells-store_last, cells-store_before}
use open_axiom.Hyper.Dialog.{LineStruct, InputItem, set_buff_pntr}
use open_axiom.Hyper.Dialog.Overwrite.{overwrite_buffer, overwrite_char, settle}
use open_axiom.Hyper.Dialog.View.{
  newline, below, above, left_of_cursor, right_of_cursor, rest_of_line,
}
use open_axiom.Hyper.Dialog.View.Lines.{rest_of_line_ended}
use open_axiom.Hyper.Dialog.View.Move.{rest_of_line_cons}

-- The character is written, and the line grows if the cursor was at its end.
struck : (c : ℕ) → LineStruct → LineStruct
struck c l = record l {
  buffer = store l.buffer l.buff_pntr c;
  buff_pntr = l.buff_pntr + 1;
  len = if ltb l.len (l.buff_pntr + 1) then l.len + 1 else l.len;
}

module _ (c : ℕ) (s : InputItem) (room : s.curr_line.buff_pntr + 1 < s.size) where
  abbrev written : InputItem
  written = record s { curr_line = struck c s.curr_line }

  overwrite_char_inside : overwrite_char c s ≡ some (written, false)
  unfolding overwrite_char struck
  overwrite_char_inside = ground arith

  settle_inside : settle written ≡ some written
  unfolding settle struck
  settle_inside = ground arith

  overwrite_buffer_inside : overwrite_buffer c s ≡ some written
  unfolding overwrite_buffer
  overwrite_buffer_inside = rw overwrite_char_inside (rw settle_inside refl)

  written-left : left_of_cursor written ≡ left_of_cursor s ++ c ∷ []
  unfolding left_of_cursor struck
  written-left =
      ap (λ cs. above s.size s.before ++ cs)
        (cells-store_last s.curr_line.buffer s.curr_line.buff_pntr c)
      ∙ sym (append_assoc (above s.size s.before) _ _)

  module _ (ends : s.curr_line.len ≤ s.size) where
    struck-rest :
        (n : ℕ)
        → (struck c s.curr_line).len - (s.curr_line.buff_pntr + 1) ≡ n
        → (struck c s.curr_line).len ≤ s.size
        → rest_of_line s.size (struck c s.curr_line)
          ≡ cells (s.curr_line.buff_pntr + 1) n s.curr_line.buffer ++ newline ∷ []
    struck-rest n e le =
        rest_of_line_ended s.size (struck c s.curr_line) le
        ∙ unfold struck in
          ap (λ cs. cs ++ newline ∷ [])
            (ap (λ k. cells (s.curr_line.buff_pntr + 1) k (struck c s.curr_line).buffer) e
              ∙ cells-store_before s.curr_line.buffer (s.curr_line.buff_pntr + 1) n
                  s.curr_line.buff_pntr c (omega arith))

    -- A character inside the line is replaced, and at its end the line grows.
    written-right_inside :
        s.curr_line.buff_pntr < s.curr_line.len
        → right_of_cursor s ≡ s.curr_line.buffer s.curr_line.buff_pntr ∷ right_of_cursor written
    unfolding right_of_cursor
    written-right_inside lt =
        let l = s.curr_line in
        ap (λ cs. cs ++ below s.size s.after)
          (rest_of_line_cons s.size l l.buff_pntr (ground arith)
            ∙ ap (λ cs. l.buffer l.buff_pntr ∷ cs)
                (rest_of_line_ended s.size (set_buff_pntr (l.buff_pntr + 1) l) ends
                  ∙ sym (
                      struck-rest (l.len - (l.buff_pntr + 1)) (unfold struck in ground arith)
                        (unfold struck in ground arith))))

    written-right_end :
        s.curr_line.buff_pntr ≡ s.curr_line.len → right_of_cursor written ≡ right_of_cursor s
    unfolding right_of_cursor cells
    written-right_end e =
        let l = s.curr_line in
        ap (λ cs. cs ++ below s.size s.after)
          (struck-rest 0 (unfold struck in ground arith) (unfold struck in ground arith)
            ∙ sym (
                rest_of_line_ended s.size l ends
                ∙ ap (λ n. cells l.buff_pntr n l.buffer ++ newline ∷ []) {x = l.len - l.buff_pntr}
                    {y = 0} (omega arith)))

    -- the character that is replaced, if there is one
    abbrev pub replaced : List ℕ
    replaced =
        if ltb s.curr_line.buff_pntr s.curr_line.len
        then s.curr_line.buffer s.curr_line.buff_pntr ∷ []
        else []

    module _ (placed : s.curr_line.buff_pntr ≤ s.curr_line.len) where
      written-right : right_of_cursor s ≡ replaced ++ right_of_cursor written
      written-right = elim (Bool-cases (ltb s.curr_line.buff_pntr s.curr_line.len)) [
        | inl inside ↦ rw inside (written-right_inside (ltb→lt _ _ inside))
        | inr end ↦ rw end (sym (written-right_end (ground arith)))
      ]

      -- overwrite_buffer puts the character in front of the cursor in the place of the one behind
      -- it, or adds it at the end of the line, if the line does not go on, the cursor is in it and
      -- stands before the last column.
      pub overwrite_buffer-text :
          (t : InputItem) × (overwrite_buffer c s ≡ some t)
          × (left_of_cursor t ≡ left_of_cursor s ++ c ∷ [])
          × (right_of_cursor s ≡ replaced ++ right_of_cursor t)
      overwrite_buffer-text = (written, overwrite_buffer_inside, written-left, written-right)
