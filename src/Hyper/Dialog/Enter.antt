-- ===== src/Hyper/Dialog/Enter.antt =====
-- enter_new_line and tough_enter of src/hyper/dialog.c.
use open_axiom.Prelude.{
  ℕ, zero, suc, ◌+◌, ◌-◌, Bool, Option, none, some, List, [], ◌∷◌, ◌++◌, ◌==◌, ltb, leb,
  if◌then◌else◌, true, false, ◌&&◌, ◌>>=◌, length,
}
use open_axiom.Prelude.Memory.{store, cells}
use open_axiom.Hyper.Dialog.{
  LineStruct, InputItem, alloc_inputline, inc_line_numbers, strncpy, wrap, redraw_win, enter_next,
  set_buff_pntr,
}
use open_axiom.Hyper.Dialog.Text.{gather, more, put_chars, put_all}

-- `prev->buffer[size] = 0; prev->len = size; prev->changed = 1;`
unfoldable pub end_line : (size : ℕ) → LineStruct → LineStruct
end_line size prev = record prev { buffer = store prev.buffer size 0; len = size; changed = true }

-- A new line in front of the current one, whose number it takes.
unfoldable pub line_in_front : InputItem → InputItem
unfolding alloc_inputline inc_line_numbers
line_in_front s = record s {
  before = alloc_inputline s.curr_line.line_number ∷ s.before;
  curr_line = record s.curr_line { line_number = s.curr_line.line_number + 1 };
  after = inc_line_numbers s.after;
  num_lines = s.num_lines + 1;
}

-- `line->prev` is read without a test.
unfoldable pub enter_at_start : InputItem → Option InputItem
unfolding end_line line_in_front
enter_at_start s = elim s.before [
  | [] ↦ none
  | prev ∷ above ↦ some (
      if ltb s.size prev.len
      then record s { before = end_line s.size prev ∷ above }
      else line_in_front s)
]

-- The cursor behind the last column of a line that goes on: `newline->next` stays NULL.
unfoldable pub enter_behind : InputItem → InputItem
unfolding alloc_inputline
enter_behind s = record s {
  before = s.curr_line ∷ s.before;
  curr_line = alloc_inputline (s.curr_line.line_number + 1);
  after = [];
  num_lines = s.num_lines + 1;
}

-- `curr_line->len = bp; curr_line->buffer[bp] = '\0';`
unfoldable pub cut_front : LineStruct → LineStruct
cut_front l = record l { len = l.buff_pntr; buffer = store l.buffer l.buff_pntr 0 }

-- `strncpy(newline->buffer, &curr_line->buffer[bp], l - bp); newline->len = l - bp;`
unfoldable pub cut_back : LineStruct → LineStruct
unfolding alloc_inputline strncpy
cut_back l = record (alloc_inputline (l.line_number + 1)) {
  buffer = strncpy 0 l.buff_pntr (l.len - l.buff_pntr) l.buffer (λ _. 0);
  len = l.len - l.buff_pntr;
}

-- A line that ends is cut at the cursor.
unfoldable pub cut_line : InputItem → InputItem
unfolding cut_front cut_back inc_line_numbers
cut_line s = record s {
  before = cut_front s.curr_line ∷ s.before;
  curr_line = cut_back s.curr_line;
  after = inc_line_numbers s.after;
  num_lines = s.num_lines + 1;
}

-- `for (bp = 0; bp < size && *tr; bp++)` on the last line, which has a new one behind it if there
-- is more. The new line's `next` is NULL when inc_line_numbers is called with it.
unfoldable pub last_lines :
    (size : ℕ) → LineStruct → List LineStruct → List ℕ → List LineStruct × Bool
unfolding put_chars more wrap alloc_inputline
last_lines size l rest tr =
    let (bp, left, b) = put_chars size 0 tr l.buffer in
    let filled = record l { buffer = b; changed = true } in
    let (bp', left', b') = put_chars (length left) 0 left (λ _. 0) in
    if more left
    then (
      wrap size filled
          ∷ record (alloc_inputline (l.line_number + 1)) { buffer = b'; len = bp' }
          ∷ rest,
      true,
    )
    else (record filled { len = bp; buffer = store b bp 0 } ∷ rest, false)

-- `for (trace = trace->next; trace != last; trace = trace->next)` and what follows it; `wrapped` is
-- the number of lines up to `last`.
unfoldable pub shift_lines :
    (wrapped : ℕ) → (size : ℕ) → List LineStruct → List ℕ → List LineStruct × Bool
unfolding last_lines put_all wrap
shift_lines _ size [] tr = ([], false)
shift_lines zero size (l ∷ rest) tr = last_lines size l rest tr
shift_lines (suc n) size (l ∷ rest) tr =
    let (left, b) = put_all size 0 tr l.buffer in
    let (ls, fresh) = shift_lines n size rest left in
    (record (wrap size (record l { buffer = b })) { changed = true } ∷ ls, fresh)

-- What stands from the cursor on goes to the lines behind, by a buffer of 1024 characters.
unfoldable pub tough_enter : InputItem → Option InputItem
unfolding gather shift_lines enter_next cells
tough_enter s =
    let l = s.curr_line in
    let p = l.buff_pntr in
    gather s.after s.size >>= λ (tr, wrapped).
    let chars = cells p (s.size - p) l.buffer ++ tr in
    let (ls, fresh) = shift_lines wrapped s.size s.after chars in
    if leb 1024 (length chars)
    then none
    else enter_next (set_buff_pntr 0) (record s {
      curr_line = record l { len = p; buffer = store l.buffer p 0; changed = true };
      after = ls;
      num_lines = if fresh then s.num_lines + 1 else s.num_lines;
    })

-- Behind the end of a line that does not go on, the length that is given to strncpy is negative.
unfoldable pub enter_line : InputItem → Option InputItem
unfolding enter_at_start enter_behind cut_line tough_enter
enter_line s =
    let l = s.curr_line in
    if l.buff_pntr == 0
    then enter_at_start s
    else if l.buff_pntr == s.size && ltb s.size l.len
    then some (enter_behind s)
    else if ltb s.size l.len
    then tough_enter s
    else if ltb l.len l.buff_pntr
    then none
    else some (cut_line s)

unfoldable pub enter_new_line : InputItem → Option InputItem
unfolding enter_line redraw_win
enter_new_line s = enter_line s >>= λ t. some (redraw_win t)
