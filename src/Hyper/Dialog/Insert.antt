-- ===== src/Hyper/Dialog/Insert.antt =====
-- move_sym_forward, insert_buffer and add_buffer_to_sym of src/hyper/dialog.c.
use open_axiom.Prelude.{
  ℕ, ◌+◌, ◌-◌, Bool, Option, none, some, List, [], ◌∷◌, ltb, leb, if◌then◌else◌, true, false, ◌>>=◌,
}
use open_axiom.Prelude.Memory.{store}
use open_axiom.Hyper.Dialog.{
  LineStruct, InputItem, alloc_inputline, inc_line_numbers, mystrncpy, strncpy, strncpy_within,
  wrap, redraw_win, update_inputsymbol, enter_next, set_buff_pntr,
}
use open_axiom.Hyper.Dialog.Overwrite.{overwrite_buffer}

-- `line->next->buffer` gets what falls off the end of `line`.
unfoldable pub hand_over : (num size : ℕ) → LineStruct → List LineStruct → List LineStruct
unfolding strncpy strncpy_within
hand_over num size line [] = []
hand_over num size line (next ∷ rest) =
    record line { buffer = strncpy_within num 0 num line.buffer; changed = true }
    ∷ record next { buffer = strncpy 0 (size - num) line.len line.buffer next.buffer }
    ∷ rest

-- The last line of a wrapped one has no room: a new line takes its end.
unfoldable pub spill : (num size : ℕ) → LineStruct → List LineStruct → List LineStruct
unfolding strncpy strncpy_within wrap alloc_inputline inc_line_numbers
spill num size line rest =
    let diff = line.len + num - size in
    wrap size (record line {
      buffer = strncpy_within num 0 num line.buffer;
      line_number = line.line_number + 1;
    })
    ∷ record (alloc_inputline line.line_number) {
      len = diff;
      buffer = strncpy 0 (size - diff) diff line.buffer (λ _. 0);
    }
    ∷ inc_line_numbers rest

-- The lines from `line` on, and whether there is a new one.
unfoldable pub move_sym_forward : List LineStruct → (num size : ℕ) → Option (List LineStruct × Bool)
unfolding hand_over spill strncpy_within
move_sym_forward [] num size = none
move_sym_forward (line ∷ rest) num size =
    let deeper : Option (List LineStruct × Bool) =
      move_sym_forward rest num size >>= λ (ls, nl). some (hand_over num size line ls, nl) in
    if ltb size line.len
    then deeper
    else if ltb size (line.len + num)
    then some (spill num size line rest, true)
    else some (
      record line {
        buffer = strncpy_within num 0 line.len line.buffer;
        len = line.len + num;
        changed = true;
      }
          ∷ rest,
      false,
    )

-- `line->len < size`
unfoldable pub insert_here : ℕ → InputItem → InputItem
unfolding mystrncpy
insert_here c s =
    let l = s.curr_line in
    record s {
      curr_line = record l {
        len = l.len + 1;
        buffer =
            store (mystrncpy (l.buff_pntr + 1) l.buff_pntr (l.len + 1 - l.buff_pntr + 1) l.buffer)
              l.buff_pntr c;
        buff_pntr = l.buff_pntr + 1;
      };
    }

-- The line goes on in others, and `next` is the first of them. With the cursor behind the last
-- column the length that is given to strncpy is negative.
unfoldable pub push_on : ℕ → InputItem → LineStruct → List LineStruct → Option InputItem
unfolding strncpy_within enter_next
push_on c s next rest =
    let l = s.curr_line in
    let p = l.buff_pntr in
    let t = record s {
      curr_line = record l {
        buffer = store (strncpy_within (p + 1) p (s.size - p - 1) l.buffer) p c;
        buff_pntr = p + 1;
        changed = true;
      };
      after = record next { buffer = store next.buffer 0 (l.buffer (s.size - 1)) } ∷ rest;
    } in
    if ltb s.size p
    then some (record s {
      curr_line = record l { changed = true };
      after =
          record next {
            buffer = store next.buffer 0 c;
            len = next.len + 1;
            buff_pntr = 1;
            changed = true;
          }
          ∷ rest;
    })
    else if leb s.size p
    then none
    else if leb s.size (p + 1)
    then enter_next (set_buff_pntr 0) t
    else some t

unfoldable pub insert_wrapped : ℕ → InputItem → Option (InputItem × Bool)
unfolding push_on move_sym_forward
insert_wrapped c s = move_sym_forward s.after 1 s.size >>= λ (ls, nl). elim ls [
  | [] ↦ none
  | next ∷ rest ↦
      push_on c (record s { num_lines = if nl then s.num_lines + 1 else s.num_lines }) next rest
      >>= λ t. some (t, nl)
]

-- "we are the leaders of the line": the new line takes the character.
unfoldable pub lead_line : ℕ → InputItem → InputItem
unfolding wrap alloc_inputline inc_line_numbers
lead_line c s =
    let l = s.curr_line in
    let fresh = alloc_inputline (l.line_number + 1) in
    record s {
      before = wrap s.size l ∷ s.before;
      curr_line = record fresh { buff_pntr = 1; buffer = store fresh.buffer 0 c; len = 1 };
      after = inc_line_numbers s.after;
      num_lines = s.num_lines + 1;
    }

-- The line is just full: a new one takes the character, or the last one of the line.
unfoldable pub insert_full : ℕ → InputItem → InputItem
unfolding lead_line strncpy_within wrap alloc_inputline inc_line_numbers
insert_full c s =
    let l = s.curr_line in
    let p = l.buff_pntr in
    let fresh = alloc_inputline (l.line_number + 1) in
    let behind = inc_line_numbers s.after in
    let t = record s { num_lines = s.num_lines + 1 } in
    let opened = strncpy_within (p + 1) p (s.size - p) l.buffer in
    let last = record fresh { buffer = store fresh.buffer 0 (l.buffer (s.size - 1)); len = 1 } in
    let struck = record l { buffer = store opened p c } in
    if leb s.size p
    then lead_line c s
    else if ltb p (s.size - 1)
    then record t {
      curr_line = wrap s.size (record struck { buff_pntr = p + 1 });
      after = last ∷ behind;
    }
    else record t { before = wrap s.size struck ∷ s.before; curr_line = last; after = behind }

unfoldable pub insert_buffer : ℕ → InputItem → Option InputItem
unfolding insert_here insert_wrapped insert_full redraw_win update_inputsymbol
insert_buffer c s =
    if ltb s.curr_line.len s.size
    then some (insert_here c s)
    else if ltb s.size s.curr_line.len
    then (insert_wrapped c s >>= λ (t, nl).
        some (if nl then redraw_win t else update_inputsymbol t))
    else some (redraw_win (insert_full c s))

unfoldable pub add_buffer_to_sym : (in_insert_mode : Bool) → ℕ → InputItem → Option InputItem
unfolding insert_buffer overwrite_buffer
add_buffer_to_sym insert c s = if insert then insert_buffer c s else overwrite_buffer c s
