-- ===== src/Hyper/Dialog/View.antt =====
-- The text of an input area of src/hyper/dialog.c: what stands in front of the cursor and behind
-- it. A line that is longer than the area is wide goes on in the next one; behind any other stands
-- the end of a line.
pub mod Enter
pub mod Clear
pub mod Cut
pub mod Defaults
pub mod Ends
pub mod Erase
pub mod Faults
pub mod Forward
pub mod Insert
pub mod Lines
pub mod Move
pub mod Overwrite
pub mod Rest
use open_axiom.Prelude.{
  ℕ, ◌+◌, ◌-◌, ◌≤◌, ◌<◌, ◌≡◌, ◌≢◌, List, [], ◌∷◌, ◌++◌, Bool, ltb, if◌then◌else◌,
}
use open_axiom.Prelude.Memory.{cells}
use open_axiom.Prelude.Memory.Laws.{All}
use open_axiom.Hyper.Dialog.{LineStruct, InputItem}

abbrev pub newline : ℕ
newline = b'\n'

-- how many characters of the line are text
abbrev pub width : (size : ℕ) → LineStruct → ℕ
width size l = if ltb size l.len then size else l.len

abbrev pub ending : (size : ℕ) → LineStruct → List ℕ
ending size l = if ltb size l.len then [] else newline ∷ []

abbrev pub shown : (size : ℕ) → LineStruct → List ℕ
shown size l = cells 0 (width size l) l.buffer ++ ending size l

-- The lines in front, nearest first, and the lines behind.
abbrev pub above : (size : ℕ) → List LineStruct → List ℕ
above size [] = []
above size (p ∷ ps) = above size ps ++ shown size p

abbrev pub below : (size : ℕ) → List LineStruct → List ℕ
below size [] = []
below size (n ∷ ns) = shown size n ++ below size ns

unfoldable pub rest_of_line : (size : ℕ) → LineStruct → List ℕ
rest_of_line size l = cells l.buff_pntr (width size l - l.buff_pntr) l.buffer ++ ending size l

-- What stands in front of the cursor, and what stands behind it.
unfoldable pub left_of_cursor : InputItem → List ℕ
left_of_cursor s = above s.size s.before ++ cells 0 s.curr_line.buff_pntr s.curr_line.buffer

unfoldable pub right_of_cursor : InputItem → List ℕ
unfolding rest_of_line
right_of_cursor s = rest_of_line s.size s.curr_line ++ below s.size s.after

-- The cursor stands in the text of its line, or behind it.
abbrev pub IsPlaced : InputItem → Type 0
IsPlaced s = s.curr_line.buff_pntr ≤ width s.size s.curr_line

-- No end of a line, and no NUL, among the characters of a line.
abbrev pub IsClean : (size : ℕ) → LineStruct → Type 0
IsClean size l = (k : ℕ) → k < width size l → (l.buffer k ≢ newline) × (l.buffer k ≢ 0)

-- One stretch of a line, and what follows starts a new line or ends this one.
abbrev pub NoNewline : List ℕ → Type 0
NoNewline = All (λ c. c ≢ newline)
