-- ===== src/Hyper/Dialog/Delete.antt =====
-- The deletions of src/hyper/dialog.c.
pub mod Back
pub mod Join
use open_axiom.Prelude.{
  ℕ, zero, suc, ◌+◌, ◌-◌, Bool, Option, none, some, List, [], ◌∷◌, ◌==◌, ltb, leb, if◌then◌else◌,
  true, false, ◌&&◌, not, ◌>>=◌, length,
}
use open_axiom.Prelude.Memory.{Memory, store, fill}
use open_axiom.Hyper.Dialog.{
  LineStruct, InputItem, strncpy_within, dec_line_numbers, decrease_line_numbers, redraw_win,
  update_inputsymbol, beep_at_the_user,
}

-- The last of the lines loses its first character; whether it is empty now.
unfoldable pub shift_last : LineStruct → LineStruct × Bool
unfolding strncpy_within
shift_last l =
    let b = if ltb 1 l.len then strncpy_within 0 1 (l.len - 1) l.buffer else l.buffer in
    if ltb 0 l.len
    then (record l { buffer = store b (l.len - 1) 0; len = l.len - 1; changed = true }, l.len == 1)
    else (l, false)

-- `line->prev->len = size; line->prev->buffer[size] = 0;`
abbrev pub unwrap_if : Bool → (size : ℕ) → LineStruct → LineStruct
unwrap_if empty size l =
    if empty then record l { len = size; buffer = store l.buffer size 0 } else l

-- The lines from `line` on, and whether the one in front of `line` has become the last.
unfoldable pub move_lines_back :
    List LineStruct → (size : ℕ) → LineStruct → LineStruct × List LineStruct × Bool
unfolding shift_last strncpy_within
move_lines_back [] size line = let (l, empty) = shift_last line in (l, [], empty)
move_lines_back (next ∷ rest) size line =
    let (n, ls, empty) = move_lines_back rest size next in
    let b = store (strncpy_within 0 1 (size - 1) line.buffer) (size - 1) (next.buffer 0) in
    let (l, gone) = shift_last line in
    if ltb size line.len
    then (unwrap_if empty size (record line { buffer = b; changed = true }), n ∷ ls, false)
    else (l, next ∷ rest, gone)

-- The character that leaves the front of the lines behind the current one, or NUL.
unfoldable pub move_rest_back : InputItem → ℕ × InputItem
unfolding move_lines_back
move_rest_back s = elim s.after [
  | [] ↦ (0, s)
  | line ∷ rest ↦
      let (l, ls, empty) = move_lines_back rest s.size line in
      let t = record s { curr_line = unwrap_if empty s.size s.curr_line; after = l ∷ ls } in
      if line.len == 0 then (0, s) else (line.buffer 0, t)
]

-- `line != NULL && line->len > 0 && line->len > size`: how many lines, and those behind them.
unfoldable pub wrapped_lines : List LineStruct → (size : ℕ) → ℕ × List LineStruct
wrapped_lines [] size = (0, [])
wrapped_lines (l ∷ ls) size =
    let (n, rest) = wrapped_lines ls size in
    if ltb 0 l.len && ltb size l.len then (suc n, rest) else (0, l ∷ ls)

-- The current line goes, being empty; without a line behind it the user hears it.
unfoldable pub remove_empty_line : InputItem → InputItem
unfolding dec_line_numbers redraw_win beep_at_the_user
remove_empty_line s = elim s.after [
  | [] ↦ beep_at_the_user s
  | next ∷ rest ↦
      if s.curr_line.len == 0
      then redraw_win (record s {
        curr_line = record next { line_number = next.line_number - 1; buff_pntr = 0 };
        after = dec_line_numbers rest;
        num_lines = s.num_lines - 1;
      })
      else beep_at_the_user s
]

-- `for (i = curr_line->len; i <= size + 2; i++) curr_line->buffer[i] = 0;`
unfoldable pub cut_at_cursor : (size : ℕ) → LineStruct → LineStruct
unfolding fill
cut_at_cursor size l = record l {
  len = l.buff_pntr;
  buffer = fill l.buff_pntr (size + 3 - l.buff_pntr) 0 l.buffer;
  changed = true;
}

-- "get rid of all these lines": the first that does not go on is the last of them.
unfoldable pub remove_wrapped : (count : ℕ) → List LineStruct → InputItem → Option InputItem
unfolding decrease_line_numbers redraw_win
remove_wrapped n [] s = none
remove_wrapped n (line ∷ rest) s = some (
    redraw_win
      (record s { after = decrease_line_numbers rest (n + 1); num_lines = s.num_lines - (n + 1) }))

unfoldable pub delete_rest_of_line : InputItem → Option InputItem
unfolding wrapped_lines remove_empty_line cut_at_cursor remove_wrapped update_inputsymbol
delete_rest_of_line s =
    let l = s.curr_line in
    let t = record s { curr_line = cut_at_cursor s.size l } in
    let (n, rest) = wrapped_lines s.after s.size in
    if ltb s.size l.len
    then remove_wrapped n rest t
    else if l.buff_pntr == l.len
    then some (remove_empty_line s)
    else some (update_inputsymbol t)
