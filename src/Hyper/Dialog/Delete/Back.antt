-- ===== src/Hyper/Dialog/Delete/Back.antt =====
-- delete_one_char, move_back_one_char and what calls them, of src/hyper/dialog.c.
use open_axiom.Prelude.{
  ℕ, suc, ◌-◌, Bool, Option, none, some, List, [], ◌∷◌, ◌==◌, ltb, leb, if◌then◌else◌, true, false,
  ◌&&◌, ◌>>=◌,
}
use open_axiom.Prelude.Memory.{store}
use open_axiom.Hyper.Dialog.{
  LineStruct, InputItem, strncpy_within, dec_line_numbers, redraw_win, update_inputsymbol,
  beep_at_the_user,
}
use open_axiom.Hyper.Dialog.Delete.{move_rest_back}
use open_axiom.Hyper.Dialog.Delete.Join.{delete_eoln, back_over_eoln}

-- What takes the place at the end of the line: NUL and a shorter line, or the character that has
-- left the next line.
unfoldable pub end_with : (c : ℕ) → InputItem → Option InputItem
end_with c s =
    let l = s.curr_line in
    let size = s.size in
    if leb l.len size
    then some (record s {
      curr_line =
          if c == 0
          then record l { buffer = store l.buffer (l.len - 1) 0; len = l.len - 1 }
          else record l { buffer = store l.buffer (l.len - 1) c };
    })
    else if c == 0
    then some
        (record s { curr_line = record l { buffer = store l.buffer (size - 1) 0; len = size - 1 } })
    else elim s.after [
      | [] ↦ none
      | next ∷ rest ↦ some (record s {
        curr_line =
            if next.len == 0
            then record l { buffer = store (store l.buffer size 0) (size - 1) c; len = size }
            else record l { buffer = store l.buffer (size - 1) c };
      })
    ]

-- The characters from `to + 1` on move back by one. A negative length is a fault.
unfoldable pub shift_line : (to c : ℕ) → InputItem → Option InputItem
unfolding strncpy_within end_with
shift_line to c s =
    let l = s.curr_line in
    let limit = if leb l.len s.size then l.len else s.size in
    if ltb limit l.buff_pntr
    then none
    else end_with c (record s {
      curr_line = record l { buffer = strncpy_within to (suc to) (limit - l.buff_pntr) l.buffer };
    })

unfoldable pub mark_changed : InputItem → InputItem
mark_changed s = record s { curr_line = record s.curr_line { changed = true } }

-- `if (line->len > size) c = move_rest_back(line->next, size);`
unfoldable pub take_next : InputItem → ℕ × InputItem
unfolding move_rest_back
take_next s = if ltb s.size s.curr_line.len then move_rest_back s else (0, s)

-- The new state, and whether there was something to delete.
unfoldable pub delete_one_char : InputItem → Option (InputItem × Bool)
unfolding take_next beep_at_the_user delete_eoln shift_line mark_changed
delete_one_char s =
    let (c, t) = take_next s in
    if c == 0 && t.curr_line.len == t.curr_line.buff_pntr
    then elim t.after [
      | [] ↦ some (beep_at_the_user t, false)
      | _ ∷ _ ↦ delete_eoln t >>= λ u. some (u, true)
    ]
    else shift_line t.curr_line.buff_pntr c t >>= λ u. some (mark_changed u, true)

unfoldable pub delete_char : InputItem → Option InputItem
unfolding delete_one_char update_inputsymbol
delete_char s =
    delete_one_char s >>= λ (t, deleted). some (if deleted then update_inputsymbol t else t)

-- The first character of the line goes to the line in front, and `c` comes to its end. With a size
-- below 2 the length for strncpy is negative.
unfoldable pub give_first : (c size : ℕ) → LineStruct → Option LineStruct
unfolding strncpy_within
give_first c size l =
    let short = strncpy_within 0 1 (l.len - 1) l.buffer in
    let long = strncpy_within 0 1 (size - 2) l.buffer in
    if leb l.len size
    then some (
        if c == 0
        then record l { buffer = store short (l.len - 1) 0; len = l.len - 1 }
        else record l { buffer = store short (l.len - 1) c })
    else if ltb size 2
    then none
    else some (
        if c == 0
        then record l { buffer = store long (size - 1) 0; len = l.len - 1 }
        else record l { buffer = store long (size - 1) c })

-- `sym->curr_line = line = line->prev; line->changed = 1; line->buff_pntr = size;`
abbrev pub end_of_wrapped : (size : ℕ) → LineStruct → LineStruct
end_of_wrapped size l = record l { changed = true; buff_pntr = size }

-- `shift_line (buff_pntr - 1)`, then `buff_pntr--`, and the page or the changed lines are drawn.
unfoldable pub finish_back : (c : ℕ) → (redraw : Bool) → InputItem → Option InputItem
unfolding shift_line redraw_win update_inputsymbol
finish_back c redraw s = shift_line (s.curr_line.buff_pntr - 1) c s >>= λ t.
    let u = record t { curr_line = record t.curr_line { buff_pntr = t.curr_line.buff_pntr - 1 } } in
    some (if redraw then redraw_win u else update_inputsymbol u)

-- At the front of a line which the one before, `prev`, goes on in. An empty line is thrown away.
unfoldable pub back_to_wrapped :
    (c : ℕ) → (prev : LineStruct) → List LineStruct → InputItem → Option InputItem
unfolding give_first dec_line_numbers finish_back
back_to_wrapped c prev above s =
    let l = s.curr_line in
    let t = record s { before = above; curr_line = end_of_wrapped s.size prev } in
    if ltb 0 l.len
    then (give_first c s.size l >>= λ k.
        finish_back (l.buffer 0) false (record t { after = k ∷ s.after }))
    else finish_back 0 true
        (record t { after = dec_line_numbers s.after; num_lines = s.num_lines - 1 })

unfoldable pub back_at_start : (c : ℕ) → InputItem → Option (InputItem × Bool)
unfolding beep_at_the_user back_over_eoln back_to_wrapped
back_at_start c s = elim s.before [
  | [] ↦ some (beep_at_the_user s, false)
  | prev ∷ above ↦
      if leb prev.len s.size
      then (back_over_eoln s >>= λ t. some (t, true))
      else (back_to_wrapped c prev above s >>= λ t. some (t, true))
]

unfoldable pub move_back_one_char : InputItem → Option (InputItem × Bool)
unfolding take_next mark_changed back_at_start finish_back
move_back_one_char s =
    let (c, t) = take_next s in
    let u = mark_changed t in
    if u.curr_line.buff_pntr == 0
    then back_at_start c u
    else finish_back c false u >>= λ v. some (v, true)

unfoldable pub back_over_char : InputItem → Option InputItem
unfolding move_back_one_char update_inputsymbol
back_over_char s =
    move_back_one_char s >>= λ (t, deleted). some (if deleted then update_inputsymbol t else t)
