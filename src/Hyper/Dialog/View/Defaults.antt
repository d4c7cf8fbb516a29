-- ===== src/Hyper/Dialog/View/Defaults.antt =====
-- initialize_default of src/hyper/parse-input.c: the lines of a new input area show its default text.
use open_axiom.Prelude.{
  ℕ, ◌-◌, ◌≤◌, ◌≡◌, sym, ap, ◌∙◌, List, [], ◌∷◌, ◌++◌, inl, inr, arith, append_assoc, append-nil,
  ◌==◌, if◌then◌else◌, Bool-cases, ==_iff,
}
use open_axiom.Prelude.Memory.{cells}
use open_axiom.Prelude.Memory.Cells.{cells-store_last, cells-store_behind}
use open_axiom.Hyper.Dialog.{InputItem, alloc_inputline}
use open_axiom.Hyper.Dialog.Default.{
  start_next, put_char, end_here, wrap_here, fill_char, fill_lines, new_item, initialize_default,
}
use open_axiom.Hyper.Dialog.View.{
  newline, above, below, left_of_cursor, right_of_cursor, rest_of_line,
}
use open_axiom.Hyper.Dialog.View.Lines.{shown_ended, shown-wrap, rest_of_line_ended}

-- What the loop keeps: the columns are in the line, and there is no line behind.
pub record IsFilling (size : ℕ) (s : InputItem) : Type 0 where
  pub wide : s.size ≡ size
  pub column : s.curr_line.buff_pntr ≤ size
  pub last : s.after ≡ []

module _ (s : InputItem) where
  put_char-left : (c : ℕ) → left_of_cursor (put_char c s) ≡ left_of_cursor s ++ c ∷ []
  unfolding left_of_cursor put_char
  put_char-left c =
      ap (λ cs. above s.size s.before ++ cs)
        (cells-store_last s.curr_line.buffer s.curr_line.buff_pntr c)
      ∙ sym (append_assoc (above s.size s.before) _ _)

  wrap_here-left :
      s.curr_line.buff_pntr ≡ s.size → left_of_cursor (start_next (wrap_here s)) ≡ left_of_cursor s
  unfolding left_of_cursor start_next wrap_here alloc_inputline cells
  wrap_here-left e =
      append-nil _
      ∙ ap (λ cs. above s.size s.before ++ cs)
          (shown-wrap s.size s.curr_line ∙ ap (λ n. cells 0 n s.curr_line.buffer) (sym e))

  end_here-left :
      s.curr_line.buff_pntr ≤ s.size
      → left_of_cursor (start_next (end_here s)) ≡ left_of_cursor s ++ newline ∷ []
  unfolding left_of_cursor start_next end_here alloc_inputline cells
  end_here-left le =
      append-nil _
      ∙ ap (λ cs. above s.size s.before ++ cs)
          (shown_ended s.size (end_here s).curr_line le
            ∙ ap (λ cs. cs ++ newline ∷ [])
                (cells-store_behind s.curr_line.buffer 0 s.curr_line.buff_pntr s.curr_line.buff_pntr
                  0 (omega arith)))
      ∙ sym (append_assoc (above s.size s.before) _ _)

fill_char-left :
    (s : InputItem) (c : ℕ) → left_of_cursor (fill_char c s) ≡ left_of_cursor s ++ c ∷ []
unfolding fill_char
fill_char-left s c = elim (Bool-cases (s.curr_line.buff_pntr == s.size)) [
  | inl full ↦ rw full (
      put_char-left (start_next (wrap_here s)) c
      ∙ ap (λ cs. cs ++ c ∷ []) (wrap_here-left s ((==_iff s.curr_line.buff_pntr s.size).0 full)))
  | inr room ↦ rw room (put_char-left s c)
]

module _ (size : ℕ) (pos : 1 ≤ size) (s : InputItem) (h : IsFilling size s) where
  fill_char-IsFilling : (c : ℕ) → IsFilling size (fill_char c s)
  unfolding fill_char put_char start_next wrap_here alloc_inputline
  fill_char-IsFilling c = ground arith

  end_here-IsFilling : IsFilling size (start_next (end_here s))
  unfolding start_next end_here alloc_inputline
  end_here-IsFilling = ground arith

-- One round of the loop.
abbrev fill_next : ℕ → InputItem → InputItem
fill_next c s = if c == newline then start_next (end_here s) else fill_char c s

module _ (size : ℕ) (pos : 1 ≤ size) (c : ℕ) (s : InputItem) (h : IsFilling size s) where
  fill_next-IsFilling : IsFilling size (fill_next c s)
  fill_next-IsFilling = elim (Bool-cases (c == newline)) [
    | inl end ↦ rw end (end_here-IsFilling size pos s h)
    | inr char ↦ rw char (fill_char-IsFilling size pos s h c)
  ]

  fill_next-left : left_of_cursor (fill_next c s) ≡ left_of_cursor s ++ c ∷ []
  fill_next-left = elim (Bool-cases (c == newline)) [
    | inl end ↦ rw end (
        end_here-left s (ground (arith, h.wide, h.column))
        ∙ ap (λ d. left_of_cursor s ++ d ∷ []) (sym ((==_iff c newline).0 end)))
    | inr char ↦ rw char (fill_char-left s c)
  ]

-- The text stands in front of the cursor, and only the end of the last line behind it.
pub record Fills (cs : List ℕ) (s t : InputItem) : Type 0 where
  pub left : left_of_cursor t ≡ left_of_cursor s ++ cs
  pub right : right_of_cursor t ≡ newline ∷ []

fill_lines-right :
    (size : ℕ) (s : InputItem) → IsFilling size s → right_of_cursor (fill_lines [] s) ≡ newline ∷ []
unfolding right_of_cursor fill_lines
fill_lines-right size s h =
    ap (λ ls. rest_of_line s.size (fill_lines [] s).curr_line ++ below s.size ls) h.last
    ∙ append-nil _
    ∙ rest_of_line_ended s.size (fill_lines [] s).curr_line (ground (arith, h.wide, h.column))
    ∙ unfold cells in
      ap (λ n. cells s.curr_line.buff_pntr n s.curr_line.buffer ++ newline ∷ [])
        {x = s.curr_line.buff_pntr - s.curr_line.buff_pntr} {y = 0} (omega arith)

module _ (size : ℕ) (pos : 1 ≤ size) (c : ℕ) (s : InputItem) (h : IsFilling size s) where
  Fills-next : (cs : List ℕ) (t : InputItem) → Fills cs (fill_next c s) t → Fills (c ∷ cs) s t
  Fills-next cs t ih = record {
    left =
        ih.left
        ∙ ap (λ ds. ds ++ cs) (fill_next-left size pos c s h)
        ∙ append_assoc (left_of_cursor s) (c ∷ []) cs;
    right = ih.right;
  }

fill_lines-Fills :
    (size : ℕ) (cs : List ℕ) (s : InputItem)
    → 1 ≤ size
    → IsFilling size s
    → Fills cs s (fill_lines cs s)
unfolding fill_lines
fill_lines-Fills size [] s pos h = record {
  left = unfold left_of_cursor fill_lines in sym (append-nil _);
  right = fill_lines-right size s h;
}
fill_lines-Fills size (c ∷ cs) s pos h =
    Fills-next size pos c s h cs (fill_lines cs (fill_next c s))
      (fill_lines-Fills size cs (fill_next c s) pos (fill_next-IsFilling size pos c s h))

new_item-IsFilling : (size : ℕ) → IsFilling size (new_item size)
unfolding alloc_inputline
new_item-IsFilling size = ground arith

-- initialize_default makes lines that show the text in front of the cursor and only the end of the
-- last line behind it, in an area of at least one column.
pub initialize_default-text :
    (size : ℕ) (text : List ℕ)
    → 1 ≤ size
    → (left_of_cursor (initialize_default size text) ≡ text)
      × (right_of_cursor (initialize_default size text) ≡ newline ∷ [])
unfolding initialize_default
initialize_default-text size text pos =
    let f = fill_lines-Fills size text (new_item size) pos (new_item-IsFilling size) in
    (unfold left_of_cursor alloc_inputline cells in f.left, f.right)
