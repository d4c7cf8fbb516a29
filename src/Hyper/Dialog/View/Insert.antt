-- ===== src/Hyper/Dialog/View/Insert.antt =====
-- insert_buffer of src/hyper/dialog.c, by the text: a line with room takes the character at the
-- cursor, and at the end of a line that is just full a new line takes it.
use open_axiom.Prelude.{
  ℕ, ◌+◌, ◌-◌, ◌≤◌, ◌<◌, ◌≡◌, sym, ap, ◌∙◌, [], ◌∷◌, ◌++◌, ◌⊎◌, inl, inr, some, false, arith,
  append_assoc, ltb, le→ltb,
}
use open_axiom.Prelude.Memory.{Memory, store, cells}
use open_axiom.Prelude.Memory.Cells.{cells_move, cells-store_last}
use open_axiom.Hyper.Dialog.{InputItem, mystrncpy, alloc_inputline, redraw_win}
use open_axiom.Hyper.Dialog.Copies.{mystrncpy_lem}
use open_axiom.Hyper.Dialog.Insert.{insert_buffer, insert_here, insert_full, lead_line}
use open_axiom.Hyper.Dialog.View.{above, below, left_of_cursor, right_of_cursor, rest_of_line}
use open_axiom.Hyper.Dialog.View.Lines.{shown-wrap, below-inc_line_numbers}

-- The line has room, or the cursor stands behind the last character of a line that is just full.
abbrev pub HasRoom : InputItem → Type 0
HasRoom s =
    (s.curr_line.buff_pntr ≤ s.curr_line.len)
    × ((s.curr_line.len < s.size) ⊎ ((s.curr_line.len ≡ s.size) × (s.curr_line.buff_pntr ≡ s.size)))

module _ (c p n : ℕ) (m : Memory ℕ) where
  struck-front : cells 0 (p + 1) (store (mystrncpy (p + 1) p n m) p c) ≡ cells 0 p m ++ c ∷ []
  struck-front =
      cells-store_last (mystrncpy (p + 1) p n m) p c
      ∙ ap (λ cs. cs ++ c ∷ [])
          (cells_move m (mystrncpy (p + 1) p n m) 0 0 p
            (λ k lt. ground (arith, mystrncpy_lem (p + 1) p n m (0 + k))))

  struck-back :
      (k : ℕ) → k ≤ n → cells (p + 1) k (store (mystrncpy (p + 1) p n m) p c) ≡ cells p k m
  struck-back k le =
      cells_move m (store (mystrncpy (p + 1) p n m) p c) p (p + 1) k
        (λ j lt. ground (arith, mystrncpy_lem (p + 1) p n m (p + 1 + j)))

module _ (c : ℕ) (s : InputItem) where
  insert_here-left : left_of_cursor (insert_here c s) ≡ left_of_cursor s ++ c ∷ []
  unfolding left_of_cursor insert_here
  insert_here-left =
      ap (λ cs. above s.size s.before ++ cs)
        (struck-front c s.curr_line.buff_pntr (s.curr_line.len + 1 - s.curr_line.buff_pntr + 1)
          s.curr_line.buffer)
      ∙ sym (append_assoc (above s.size s.before) _ _)

  insert_here-line :
      s.curr_line.buff_pntr ≤ s.curr_line.len
      → s.curr_line.len < s.size
      → rest_of_line s.size (insert_here c s).curr_line ≡ rest_of_line s.size s.curr_line
  unfolding rest_of_line insert_here
  insert_here-line le lt = ground (
    arith,
    struck-back c s.curr_line.buff_pntr (s.curr_line.len + 1 - s.curr_line.buff_pntr + 1)
        s.curr_line.buffer (s.curr_line.len - s.curr_line.buff_pntr),
    ap (λ k. cells (s.curr_line.buff_pntr + 1) k (insert_here c s).curr_line.buffer)
        {x = s.curr_line.len + 1 - (s.curr_line.buff_pntr + 1)}
        {y = s.curr_line.len - s.curr_line.buff_pntr} (omega arith),
  )

  lead_line-left :
      s.curr_line.buff_pntr ≡ s.size → left_of_cursor (lead_line c s) ≡ left_of_cursor s ++ c ∷ []
  unfolding left_of_cursor lead_line alloc_inputline cells
  lead_line-left e =
      ap (λ cs. (above s.size s.before ++ cs) ++ c ∷ [])
        (shown-wrap s.size s.curr_line ∙ ap (λ n. cells 0 n s.curr_line.buffer) (sym e))

  lead_line-right :
      1 ≤ s.size
      → s.curr_line.buff_pntr ≡ s.size
      → s.curr_line.len ≡ s.size
      → right_of_cursor (lead_line c s) ≡ right_of_cursor s
  unfolding right_of_cursor rest_of_line lead_line alloc_inputline cells
  lead_line-right pos e f =
      let w : ltb s.size 1 ≡ false = le→ltb s.size 1 pos in
      let v : ltb s.size s.curr_line.len ≡ false = le→ltb s.size s.curr_line.len (omega arith) in
      ground (
        arith,
        below-inc_line_numbers s.size s.after,
        ap (λ k. cells s.curr_line.buff_pntr k s.curr_line.buffer)
            {x = s.curr_line.len - s.curr_line.buff_pntr} {y = 0} (omega arith),
      )

  insert_full-lead_line : s.curr_line.buff_pntr ≡ s.size → insert_full c s ≡ lead_line c s
  unfolding insert_full
  insert_full-lead_line e = ground arith

  insert_here-right :
      s.curr_line.buff_pntr ≤ s.curr_line.len
      → s.curr_line.len < s.size
      → right_of_cursor (insert_here c s) ≡ right_of_cursor s
  unfolding right_of_cursor insert_here
  insert_here-right le lt = ap (λ cs. cs ++ below s.size s.after) (insert_here-line le lt)

  -- insert_buffer puts the character in front of the cursor and changes nothing else of the text,
  -- if the line has room, or is just full with the cursor behind its last character, in an area of
  -- at least one column.
  pub insert_buffer-text :
      1 ≤ s.size
      → HasRoom s
      → (t : InputItem) × (insert_buffer c s ≡ some t)
        × (left_of_cursor t ≡ left_of_cursor s ++ c ∷ [])
        × (right_of_cursor t ≡ right_of_cursor s)
  insert_buffer-text pos (le, inl lt) = (
    insert_here c s,
    unfold insert_buffer in ground arith,
    insert_here-left,
    insert_here-right le lt,
  )
  insert_buffer-text pos (le, inr (f, e)) = (
    redraw_win (lead_line c s),
    unfold insert_buffer in ground (arith, insert_full-lead_line e),
    unfold left_of_cursor redraw_win in lead_line-left e,
    unfold right_of_cursor redraw_win in lead_line-right pos e f,
  )
