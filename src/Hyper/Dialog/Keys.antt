-- ===== src/Hyper/Dialog/Keys.antt =====
-- dialog of src/hyper/dialog.c, which dispatches a key to the current item of the page. The ranges
-- and values of keysyms that it tells apart, which X11 numbers, are the constructors of `Keysym`.
use open_axiom.Prelude.{
  ℕ, ◌+◌, Bool, true, false, not, Option, none, some, List, [], ◌∷◌, if◌then◌else◌, ◌>>=◌,
}
use open_axiom.Hyper.Dialog.{InputItem, update_inputsymbol, beep_at_the_user}
use open_axiom.Hyper.Dialog.Insert.{add_buffer_to_sym}
use open_axiom.Hyper.Dialog.Move.{
  move_cursor_home, move_cursor_end, move_cursor_forward, move_cursor_down, move_cursor_up,
  move_cursor_backward,
}
use open_axiom.Hyper.Dialog.Delete.{delete_rest_of_line}
use open_axiom.Hyper.Dialog.Delete.Back.{delete_char, back_over_char}
use open_axiom.Hyper.Dialog.Enter.{enter_new_line}

-- `printing` is a character of the keyboard or the keypad, `function` one of F2 to F35.
pub data Keysym : Type 0 where
  enter printing modifier function : Keysym
  escape f1 up down delete backspace left right insert home end other : Keysym

-- The key with what the window system says of it: the characters, and whether the modifiers that are
-- held are among UnsupportedModMask, ModifiersMask and ControlMask.
pub record KeyEvent : Type 0 where
  pub keysym : Keysym
  pub buffer : List ℕ
  pub unsupported : Bool
  pub modified : Bool
  pub control : Bool

-- The current item of the page, gInInsertMode, the beeps without an item and the help pages asked.
pub record Dialog : Type 0 where
  pub current_item : Option InputItem
  pub in_insert_mode : Bool
  pub beeps : ℕ
  pub helps : ℕ

-- `buffer[0]`
abbrev pub first_char : List ℕ → ℕ
first_char [] = 0
first_char (c ∷ _) = c

abbrev pub is_empty : List ℕ → Bool
is_empty [] = true
is_empty (_ ∷ _) = false

abbrev pub is_modifier : Keysym → Bool
is_modifier modifier = true
is_modifier _ = false

-- `if (state & ModifiersMask) BeepAtTheUser(); else ...`
abbrev pub unless : Bool → InputItem → Option InputItem → Option InputItem
unless held s act = if held then some (beep_at_the_user s) else act

unfoldable pub mark_current : InputItem → InputItem
unfolding update_inputsymbol
mark_current s = update_inputsymbol (record s { curr_line = record s.curr_line { changed = true } })

-- What the key does to the item.
unfoldable pub press : Keysym → KeyEvent → (in_insert_mode : Bool) → InputItem → Option InputItem
unfolding mark_current
press enter e m s = enter_new_line s
press printing e m s = unless e.unsupported s (add_buffer_to_sym m (first_char e.buffer) s)
press modifier e m s = some s
press function e m s = unless (is_empty e.buffer) s (add_buffer_to_sym m (first_char e.buffer) s)
press escape e m s = unless e.modified s (delete_rest_of_line (move_cursor_home s))
press f1 e m s = unless e.modified s (some s)
press up e m s = unless e.modified s (some (move_cursor_up s))
press down e m s = unless e.modified s (move_cursor_down s)
press delete e m s = unless e.modified s (delete_char s)
press backspace e m s = unless e.modified s (back_over_char s)
press left e m s = unless e.modified s (some (move_cursor_backward s))
press right e m s = unless e.modified s (some (move_cursor_forward s))
press insert e m s = unless e.modified s (some (mark_current s))
press home e m s = unless e.modified s (some (move_cursor_home s))
press end e m s =
    if e.control then delete_rest_of_line s else unless e.modified s (some (move_cursor_end s))
press other e m s = some (beep_at_the_user s)

-- The key that turns gInInsertMode round, and the one that asks for help.
unfoldable pub next_mode : Keysym → KeyEvent → Bool → Bool
next_mode insert e m = if e.modified then m else not m
next_mode _ e m = m

unfoldable pub asks_help : Keysym → KeyEvent → ℕ
asks_help f1 e = if e.modified then 0 else 1
asks_help _ e = 0

unfoldable pub dialog : KeyEvent → Dialog → Option Dialog
unfolding press next_mode asks_help
dialog e d = elim d.current_item [
  | none ↦ some (if is_modifier e.keysym then d else record d { beeps = d.beeps + 1 })
  | some item ↦ press e.keysym e d.in_insert_mode item >>= λ t. some (record d {
    current_item = some t;
    in_insert_mode = next_mode e.keysym e d.in_insert_mode;
    helps = d.helps + asks_help e.keysym e;
  })
]
