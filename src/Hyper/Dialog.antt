-- ===== src/Hyper/Dialog.antt =====
-- src/hyper/dialog.c: the editor of the input areas of a page, the lines of src/hyper/node.h that
-- it works on, and alloc_inputline of src/hyper/mem.c. The doubly linked lines of an item are the
-- lines before the current one, nearest first, the current one, and those behind it. Every function
-- links a line in both directions before it leaves, so `prev` of a line behind is the one in front.
-- `none` is a read through NULL, or a write far behind an array. What is drawn is left out: the
-- calls of X11 and the x-coordinate that they compute; the calls of redraw_win are counted.
pub mod Copies
pub mod Default
pub mod Delete
pub mod Enter
pub mod Insert
pub mod Keys
pub mod Move
pub mod Overwrite
pub mod Text
pub mod View
use open_axiom.Prelude.{
  ℕ, zero, suc, ◌+◌, ◌-◌, Bool, true, false, Option, none, some, List, [], ◌∷◌, ◌==◌, if◌then◌else◌,
  map, not,
}
use open_axiom.Prelude.Memory.{Memory, store, fill}

pub record LineStruct : Type 0 where
  pub buffer : Memory ℕ
  pub changed : Bool
  pub line_number : ℕ
  pub buff_pntr : ℕ
  pub len : ℕ

-- The item with its lines; `beeps` counts the calls of BeepAtTheUser.
pub record InputItem : Type 0 where
  pub size : ℕ
  pub num_lines : ℕ
  pub before : List LineStruct
  pub curr_line : LineStruct
  pub after : List LineStruct
  pub beeps : ℕ
  pub redraws : ℕ

-- The number of a new line is set by the callers.
unfoldable pub alloc_inputline : (line_number : ℕ) → LineStruct
alloc_inputline n = record {
  buffer = λ _. 0;
  changed = false;
  line_number = n;
  buff_pntr = 0;
  len = 0;
}

unfoldable pub inc_line_numbers : List LineStruct → List LineStruct
inc_line_numbers =
    map {A = LineStruct} {B = LineStruct} (λ l. record l { line_number = l.line_number + 1 })

unfoldable pub decrease_line_numbers : List LineStruct → (am : ℕ) → List LineStruct
decrease_line_numbers ls am =
    map {A = LineStruct} {B = LineStruct} (λ l. record l { line_number = l.line_number - am }) ls

unfoldable pub dec_line_numbers : List LineStruct → List LineStruct
dec_line_numbers =
    map {A = LineStruct} {B = LineStruct} (λ l. record l { line_number = l.line_number - 1 })

-- From the last of the `n` characters down to the first, within one buffer.
unfoldable pub mystrncpy : (to from n : ℕ) → Memory ℕ → Memory ℕ
mystrncpy to from zero m = m
mystrncpy to from (suc n) m = mystrncpy to from n (store m (to + n) (m (from + n)))

-- strncpy of the C library between two buffers: up to NUL, and NUL for the rest.
unfoldable pub strncpy : (to from n : ℕ) → (source target : Memory ℕ) → Memory ℕ
strncpy to from zero source target = target
strncpy to from (suc n) source target =
    let rest = strncpy (suc to) (suc from) n source (store target to (source from)) in
    if source from == 0 then fill to (suc n) 0 target else rest

-- strncpy within one buffer, from the first character up. C leaves it open what happens to ranges
-- that overlap; the deletions rely on this order.
unfoldable pub strncpy_within : (to from n : ℕ) → Memory ℕ → Memory ℕ
strncpy_within to from zero m = m
strncpy_within to from (suc n) m =
    let rest = strncpy_within (suc to) (suc from) n (store m to (m from)) in
    if m from == 0 then fill to (suc n) 0 m else rest

-- `buffer[size] = '_'; buffer[size + 1] = 0; len = size + 1;`: the line goes on in the next one.
unfoldable pub wrap : (size : ℕ) → LineStruct → LineStruct
wrap size l = record l { buffer = store (store l.buffer size b'_') (size + 1) 0; len = size + 1 }

unfoldable pub redraw_win : InputItem → InputItem
redraw_win s = record s { redraws = s.redraws + 1 }

unfoldable pub beep_at_the_user : InputItem → InputItem
beep_at_the_user s = record s { beeps = s.beeps + 1 }

abbrev pub drawn : LineStruct → LineStruct
drawn l = record l { changed = false }

-- Draws the lines that have changed.
unfoldable pub update_inputsymbol : InputItem → InputItem
update_inputsymbol s = record s {
  before = map drawn s.before;
  curr_line = drawn s.curr_line;
  after = map drawn s.after;
}

-- `curr_line = curr_line->next` and `curr_line = curr_line->prev`, with the cursor put somewhere.
unfoldable pub enter_next : (place : LineStruct → LineStruct) → InputItem → Option InputItem
enter_next place s = elim s.after [
  | [] ↦ none
  | n ∷ ns ↦ some (record s { before = s.curr_line ∷ s.before; curr_line = place n; after = ns })
]

unfoldable pub enter_prev : (place : LineStruct → LineStruct) → InputItem → Option InputItem
enter_prev place s = elim s.before [
  | [] ↦ none
  | p ∷ ps ↦ some (record s { before = ps; curr_line = place p; after = s.curr_line ∷ s.after })
]

abbrev pub set_buff_pntr : ℕ → LineStruct → LineStruct
set_buff_pntr i l = record l { buff_pntr = i }
