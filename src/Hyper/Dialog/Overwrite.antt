-- ===== src/Hyper/Dialog/Overwrite.antt =====
-- overwrite_buffer of src/hyper/dialog.c, for the first character of its buffer.
use open_axiom.Prelude.{
  ℕ, ◌+◌, Bool, Option, some, List, [], ◌∷◌, ◌==◌, leb, ltb, if◌then◌else◌, true, false, ◌&&◌,
  ◌>>=◌,
}
use open_axiom.Prelude.Memory.{store}
use open_axiom.Hyper.Dialog.{
  LineStruct, InputItem, alloc_inputline, inc_line_numbers, wrap, redraw_win, enter_next,
}

-- `addline->len = 1; addline->buff_pntr = 1; addline->buffer[0] = buffer[0];`
unfoldable pub start_line : ℕ → LineStruct → LineStruct
start_line c l = record l { len = 1; buff_pntr = 1; buffer = store l.buffer 0 c }

-- A line that is full gets a new one behind it.
unfoldable pub add_line : InputItem → InputItem
unfolding wrap alloc_inputline inc_line_numbers
add_line s = record s {
  curr_line = wrap s.size s.curr_line;
  after = alloc_inputline (s.curr_line.line_number + 1) ∷ inc_line_numbers s.after;
  num_lines = s.num_lines + 1;
}

-- The new state, and whether there is a new line.
unfoldable pub overwrite_char : ℕ → InputItem → Option (InputItem × Bool)
unfolding start_line add_line enter_next
overwrite_char c s =
    let l = s.curr_line in
    if l.buff_pntr == s.size
    then if leb l.len s.size
      then (enter_next (start_line c) (add_line s) >>= λ t. some (t, true))
      else (enter_next (start_line c) s >>= λ t. some (t, false))
    else some (
      record s {
        curr_line = record l {
          buffer = store l.buffer l.buff_pntr c;
          buff_pntr = l.buff_pntr + 1;
          len = if ltb l.len (l.buff_pntr + 1) then l.len + 1 else l.len;
        };
      },
      false,
    )

-- `curr_line->next != NULL && !curr_line->next->len`
unfoldable pub next_is_empty : List LineStruct → Bool
next_is_empty [] = false
next_is_empty (n ∷ _) = n.len == 0

-- "I should actually be on the next line"
unfoldable pub settle : InputItem → Option InputItem
unfolding next_is_empty enter_next
settle s =
    if leb s.size s.curr_line.buff_pntr && next_is_empty s.after
    then enter_next (λ n. record n { buff_pntr = 0; changed = true })
        (record s {
          curr_line = record s.curr_line {
            buffer = store s.curr_line.buffer s.size b'_';
            len = s.size + 1;
          };
        })
    else some s

unfoldable pub overwrite_buffer : ℕ → InputItem → Option InputItem
unfolding overwrite_char settle redraw_win
overwrite_buffer c s =
    overwrite_char c s >>= λ (t, nl). settle t >>= λ u. some (if nl then redraw_win u else u)
