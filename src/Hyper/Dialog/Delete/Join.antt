-- ===== src/Hyper/Dialog/Delete/Join.antt =====
-- back_over_eoln and delete_eoln of src/hyper/dialog.c, which join a line with the one in front.
use open_axiom.Prelude.{ℕ, ◌-◌, Option, none, some, List, leb, if◌then◌else◌, true, ◌>>=◌, length}
use open_axiom.Hyper.Dialog.{
  LineStruct, InputItem, wrap, redraw_win, update_inputsymbol, enter_prev, set_buff_pntr,
}
use open_axiom.Hyper.Dialog.Text.{gather, more, put_chars, refill, empty_last, bag_line}

-- The line that is emptied, behind `n` others, is removed if nothing was put into it.
unfoldable pub drop_line : ℕ → InputItem → InputItem
unfolding bag_line redraw_win update_inputsymbol
drop_line n s =
    let (ls, gone) = bag_line n s.after in
    if gone
    then redraw_win (record s { after = ls; num_lines = s.num_lines - 1 })
    else update_inputsymbol s

-- The characters `tr` go behind those of the current line, and on into the lines behind it.
unfoldable pub append_chars : List ℕ → InputItem → Option InputItem
unfolding put_chars more refill wrap
append_chars tr s =
    let l = s.curr_line in
    let (bp, left, b) = put_chars (s.size - l.len) l.len tr l.buffer in
    let filled = record l { buffer = b; changed = true } in
    if more left
    then (refill s.after s.size left >>= λ ls.
        some (record s { curr_line = wrap s.size filled; after = ls }))
    else some (record s { curr_line = record filled { len = bp } })

-- The lines behind the current one go into the local buffer of 1024 characters, and come back
-- behind the characters of the current line.
unfoldable pub delete_eoln : InputItem → Option InputItem
unfolding gather append_chars empty_last drop_line
delete_eoln s = gather s.after s.size >>= λ (tr, n).
    let t = append_chars tr (record s { after = empty_last n s.after }) in
    if leb 1024 (length tr) then none else t >>= λ u. some (drop_line n u)

abbrev pub cursor_to_end : LineStruct → LineStruct
cursor_to_end l = set_buff_pntr l.len l

-- The same from the line in front, which becomes the current one with the cursor at its end.
unfoldable pub back_over_eoln : InputItem → Option InputItem
unfolding delete_eoln enter_prev
back_over_eoln s = enter_prev cursor_to_end s >>= λ t. delete_eoln t
