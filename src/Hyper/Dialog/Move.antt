-- ===== src/Hyper/Dialog/Move.antt =====
-- The cursor moves of src/hyper/dialog.c.
use open_axiom.Prelude.{
  ℕ, ◌+◌, ◌-◌, Option, none, some, List, [], ◌∷◌, ◌==◌, ltb, if◌then◌else◌, ◌||◌,
}
use open_axiom.Hyper.Dialog.{
  LineStruct, InputItem, beep_at_the_user, enter_next, enter_prev, set_buff_pntr,
}

abbrev pub set_cursor : (place : LineStruct → LineStruct) → InputItem → InputItem
set_cursor place s = record s { curr_line = place s.curr_line }

-- `for (; trace && trace->prev && trace->prev->len > size;) trace = trace->prev;`
unfoldable pub up_to_start :
    List LineStruct
    → (size : ℕ) (trace : LineStruct) (after : List LineStruct)
    → List LineStruct × LineStruct × List LineStruct
up_to_start [] size trace after = ([], trace, after)
up_to_start (prev ∷ before) size trace after =
    let further = up_to_start before size prev (trace ∷ after) in
    if ltb size prev.len then further else (prev ∷ before, trace, after)

-- `for (; trace && trace->next && trace->len > size;) trace = trace->next;`
unfoldable pub down_to_end :
    List LineStruct
    → (size : ℕ) (trace : LineStruct) (before : List LineStruct)
    → List LineStruct × LineStruct × List LineStruct
down_to_end [] size trace before = (before, trace, [])
down_to_end (next ∷ after) size trace before =
    let further = down_to_end after size next (trace ∷ before) in
    if ltb size trace.len then further else (before, trace, next ∷ after)

abbrev pub go_to : List LineStruct × LineStruct × List LineStruct → InputItem → InputItem
go_to place s = record s { before = place.0; curr_line = place.1; after = place.2 }

unfoldable pub move_cursor_home : InputItem → InputItem
unfolding up_to_start
move_cursor_home s =
    set_cursor (set_buff_pntr 0) (go_to (up_to_start s.before s.size s.curr_line s.after) s)

abbrev pub put_at_end : LineStruct → LineStruct
put_at_end l = set_buff_pntr l.len l

unfoldable pub move_cursor_end : InputItem → InputItem
unfolding down_to_end
move_cursor_end s =
    set_cursor put_at_end (go_to (down_to_end s.after s.size s.curr_line s.before) s)

-- Where there is no line to go to, the user hears it and nothing changes.
unfoldable pub or_beep : Option InputItem → InputItem → InputItem
unfolding beep_at_the_user
or_beep none s = beep_at_the_user s
or_beep (some t) s = t

-- `curr_line->buff_pntr == curr_line->len || curr_line->buff_pntr == size - 1`; the test that stands
-- in front, at the end of the last line, has the same outcome.
unfoldable pub move_cursor_forward : InputItem → InputItem
unfolding or_beep enter_next
move_cursor_forward s =
    let l = s.curr_line in
    if l.buff_pntr == l.len || l.buff_pntr + 1 == s.size
    then or_beep (enter_next (set_buff_pntr 0) s) s
    else set_cursor (set_buff_pntr (l.buff_pntr + 1)) s

-- `if (bp > curr_line->len) buff_pntr = curr_line->len; else buff_pntr = bp;`
abbrev pub put_at : ℕ → LineStruct → LineStruct
put_at bp l = set_buff_pntr (if ltb l.len bp then l.len else bp) l

-- `for (trace = curr_line; trace->len > size; trace = trace->next);`
unfoldable pub down_to_last :
    List LineStruct
    → (size : ℕ) (trace : LineStruct) (before : List LineStruct)
    → Option (List LineStruct × LineStruct × List LineStruct)
down_to_last [] size trace before = if ltb size trace.len then none else some (before, trace, [])
down_to_last (next ∷ after) size trace before =
    let further = down_to_last after size next (trace ∷ before) in
    if ltb size trace.len then further else some (before, trace, next ∷ after)

unfoldable pub move_cursor_down : InputItem → Option InputItem
unfolding down_to_last or_beep enter_next
move_cursor_down s = elim (down_to_last s.after s.size s.curr_line s.before) [
  | none ↦ none
  | some place ↦ some (or_beep (enter_next (put_at s.curr_line.buff_pntr) (go_to place s)) s)
]

unfoldable pub move_cursor_up : InputItem → InputItem
unfolding up_to_start or_beep enter_prev
move_cursor_up s =
    let place = up_to_start s.before s.size s.curr_line s.after in
    or_beep (enter_prev (put_at s.curr_line.buff_pntr) (go_to place s)) s

abbrev pub put_behind : (size : ℕ) → LineStruct → LineStruct
put_behind size l = set_buff_pntr (if ltb size l.len then size - 1 else l.len) l

unfoldable pub move_cursor_backward : InputItem → InputItem
unfolding or_beep enter_prev
move_cursor_backward s =
    if s.curr_line.buff_pntr == 0
    then or_beep (enter_prev (put_behind s.size) s) s
    else set_cursor (set_buff_pntr (s.curr_line.buff_pntr - 1)) s
