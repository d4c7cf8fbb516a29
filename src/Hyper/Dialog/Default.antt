-- ===== src/Hyper/Dialog/Default.antt =====
-- initialize_default of src/hyper/parse-input.c: the lines of a new item hold its default text.
use open_axiom.Prelude.{ℕ, ◌+◌, List, [], ◌∷◌, ◌==◌, if◌then◌else◌}
use open_axiom.Prelude.Memory.{store}
use open_axiom.Hyper.Dialog.{InputItem, alloc_inputline, wrap, set_buff_pntr}

abbrev pub new_item : (size : ℕ) → InputItem
new_item size = record {
  size = size;
  num_lines = 1;
  before = [];
  curr_line = alloc_inputline 1;
  after = [];
  beeps = 0;
  redraws = 0;
}

-- A new line behind, which becomes the current one; its number is the count of lines.
unfoldable pub start_next : InputItem → InputItem
unfolding alloc_inputline
start_next s = record s {
  before = s.curr_line ∷ s.before;
  curr_line = alloc_inputline (s.num_lines + 1);
  num_lines = s.num_lines + 1;
}

-- `curr_line->buffer[bp++] = *buff++`, with `bp` kept in the line's own cursor.
unfoldable pub put_char : ℕ → InputItem → InputItem
put_char c s = record s {
  curr_line = record s.curr_line {
    buffer = store s.curr_line.buffer s.curr_line.buff_pntr c;
    buff_pntr = s.curr_line.buff_pntr + 1;
  };
}

-- `curr_line->len = bp; curr_line->buffer[bp] = 0;`
unfoldable pub end_here : InputItem → InputItem
end_here s = record s {
  curr_line = record s.curr_line {
    len = s.curr_line.buff_pntr;
    buffer = store s.curr_line.buffer s.curr_line.buff_pntr 0;
    buff_pntr = 0;
  };
}

unfoldable pub wrap_here : InputItem → InputItem
unfolding wrap
wrap_here s = record s { curr_line = set_buff_pntr 0 (wrap s.size s.curr_line) }

-- One character that is not a newline: a full line goes on in a new one first.
unfoldable pub fill_char : ℕ → InputItem → InputItem
unfolding put_char wrap_here start_next
fill_char c s = put_char c (if s.curr_line.buff_pntr == s.size then start_next (wrap_here s) else s)

-- The loop over the text, up to NUL.
unfoldable pub fill_lines : List ℕ → InputItem → InputItem
unfolding end_here start_next fill_char
fill_lines [] s = record s { curr_line = record s.curr_line { len = s.curr_line.buff_pntr } }
fill_lines (c ∷ cs) s =
    fill_lines cs (if c == b'\n' then start_next (end_here s) else fill_char c s)

unfoldable pub initialize_default : (size : ℕ) → List ℕ → InputItem
unfolding fill_lines alloc_inputline
initialize_default size text = fill_lines text (new_item size)
