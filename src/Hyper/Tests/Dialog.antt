-- ===== src/Hyper/Tests/Dialog.antt =====
-- An input area of four columns: `abcd` goes on in `ef`, with the cursor before `f`, and `gh` is a
-- line of its own.
use open_axiom.Prelude.{
  ◌<◌, ℕ, zero, suc, ◌≡◌, ◌≢◌, ◌↔◌, ◌⊎◌, inl, refl, true, false, none, some, List, [], ◌∷◌, ◌++◌,
  arith, get_or, length,
}
use open_axiom.Prelude.Memory.Laws.{All}
use open_axiom.Hyper.Dialog.{LineStruct, InputItem, beep_at_the_user, set_buff_pntr}
use open_axiom.Hyper.Dialog.Insert.{insert_buffer}
use open_axiom.Hyper.Dialog.Overwrite.{overwrite_buffer}
use open_axiom.Hyper.Dialog.Enter.{enter_new_line}
use open_axiom.Hyper.Dialog.Move.{
  move_cursor_forward, move_cursor_backward, move_cursor_home, up_to_start,
}
use open_axiom.Hyper.Dialog.Delete.Back.{delete_char, back_over_char}
use open_axiom.Hyper.Dialog.Default.{initialize_default}
use open_axiom.Hyper.Dialog.Keys.{Keysym, KeyEvent, press}
use open_axiom.Hyper.Dialog.View.{newline, IsClean, left_of_cursor, right_of_cursor}
use open_axiom.Hyper.Dialog.View.Insert.{insert_buffer-text}
use open_axiom.Hyper.Dialog.View.Overwrite.{overwrite_buffer-text}
use open_axiom.Hyper.Dialog.View.Enter.{Enters, enter_new_line-text}
use open_axiom.Hyper.Dialog.View.Faults.{enter_new_line-fault, enter_new_line-loss}
use open_axiom.Hyper.Dialog.View.Move.{OneBack, move_cursor_backward-OneBack}
use open_axiom.Hyper.Dialog.View.Forward.{move_cursor_forward-OneBack}
use open_axiom.Hyper.Dialog.View.Clear.{IsText, Clears, press-Clears}
use open_axiom.Hyper.Dialog.View.Erase.{Loses, delete_char-Loses, back_over_char-text}
use open_axiom.Hyper.Dialog.View.Defaults.{initialize_default-text}

abbrev line : List ℕ → (number place : ℕ) → LineStruct
line text number place = record {
  buffer = λ i. get_or text i 0;
  changed = false;
  line_number = number;
  buff_pntr = place;
  len = length text;
}

abbrev wrapped_line : LineStruct
wrapped_line = line (b'a' ∷ b'b' ∷ b'c' ∷ b'd' ∷ b'_' ∷ []) 1 0

abbrev item : InputItem
item = record {
  size = 4;
  num_lines = 3;
  before = wrapped_line ∷ [];
  curr_line = line (b'e' ∷ b'f' ∷ []) 2 1;
  after = line (b'g' ∷ b'h' ∷ []) 3 0 ∷ [];
  beeps = 0;
  redraws = 0;
}

-- The cursor in front of the first character.
abbrev first : InputItem
first = record item { before = []; curr_line = line (b'e' ∷ b'f' ∷ []) 1 0 }

-- The cursor behind the last column of the line that goes on.
abbrev behind : InputItem
behind = record item {
  before = [];
  curr_line = set_buff_pntr 4 wrapped_line;
  after = item.curr_line ∷ item.after;
}

pair-IsClean :
    (a b n p : ℕ) → a ≢ newline → a ≢ 0 → b ≢ newline → b ≢ 0 → IsClean 4 (line (a ∷ b ∷ []) n p)
pair-IsClean a b n p a_char a_nul b_char b_nul zero lt = (a_char, a_nul)
pair-IsClean a b n p a_char a_nul b_char b_nul (suc zero) lt = (b_char, b_nul)
pair-IsClean a b n p a_char a_nul b_char b_nul (suc (suc k)) lt = absurd (omega arith)

wrapped-IsClean : IsClean 4 wrapped_line
wrapped-IsClean zero lt = (omega arith, omega arith)
wrapped-IsClean (suc zero) lt = (omega arith, omega arith)
wrapped-IsClean (suc (suc zero)) lt = (omega arith, omega arith)
wrapped-IsClean (suc (suc (suc zero))) lt = (omega arith, omega arith)
wrapped-IsClean (suc (suc (suc (suc k)))) lt = absurd (omega arith)

item-IsClean : IsClean 4 item.curr_line
item-IsClean = pair-IsClean b'e' b'f' 2 1 (omega arith) (omega arith) (omega arith) (omega arith)

after-IsClean : All (IsClean 4) item.after
after-IsClean =
    (pair-IsClean b'g' b'h' 3 0 (omega arith) (omega arith) (omega arith) (omega arith), tt)

item-IsText : IsText item
item-IsText = record {
  placed = omega arith;
  clean = item-IsClean;
  clean_above = (wrapped-IsClean, tt);
  clean_below = after-IsClean;
  ends = omega arith;
}

insert_buffer_example :
    (t : InputItem) × (insert_buffer b'x' item ≡ some t)
    × (left_of_cursor t ≡ left_of_cursor item ++ b'x' ∷ [])
    × (right_of_cursor t ≡ right_of_cursor item)
insert_buffer_example = insert_buffer-text b'x' item (omega arith) (omega arith, inl (omega arith))

overwrite_buffer_example :
    (t : InputItem) × (overwrite_buffer b'x' item ≡ some t)
    × (left_of_cursor t ≡ left_of_cursor item ++ b'x' ∷ [])
    × (right_of_cursor item ≡ b'f' ∷ right_of_cursor t)
overwrite_buffer_example = overwrite_buffer-text b'x' item (omega arith) (omega arith) (omega arith)

enter_new_line_example : Enters item
enter_new_line_example =
    enter_new_line-text item (omega arith) (omega arith) item-IsClean (inl (omega arith))

enter_fault_example : (enter_new_line first ≡ none) ↔ (
    ((first.curr_line.buff_pntr ≡ 0) × (first.before ≡ []))
    ⊎ (first.curr_line.len < first.curr_line.buff_pntr))
enter_fault_example = enter_new_line-fault first (omega arith)

enter_loss_example :
    (t : InputItem) × (enter_new_line behind ≡ some t)
    × (left_of_cursor t ≡ left_of_cursor behind)
    × (right_of_cursor t ≡ newline ∷ [])
enter_loss_example = enter_new_line-loss behind (omega arith) refl (omega arith)

backward_example :
    OneBack item (move_cursor_backward item)
    ⊎ ((left_of_cursor item ≡ []) × (move_cursor_backward item ≡ beep_at_the_user item))
backward_example = move_cursor_backward-OneBack item (omega arith) (omega arith)

forward_example :
    OneBack (move_cursor_forward item) item
    ⊎ ((right_of_cursor item ≡ newline ∷ []) × (move_cursor_forward item ≡ beep_at_the_user item))
forward_example =
    move_cursor_forward-OneBack item (omega arith) (omega arith) (omega arith) (λ e. cc)

abbrev escape_key : KeyEvent
escape_key = record {
  keysym = Keysym.escape;
  buffer = [];
  unsupported = false;
  modified = false;
  control = false;
}

escape_example :
    (t : InputItem) × (press Keysym.escape escape_key true item ≡ some t) × Clears item t
escape_example = press-Clears item item-IsText escape_key true refl home_has_text
  where
    home_has_text : (move_cursor_home item).curr_line.len ≢ 0
    home_has_text = unfold move_cursor_home up_to_start in omega arith

delete_char_example :
    (t : InputItem) × (delete_char item ≡ some t)
    × Loses (left_of_cursor item) (right_of_cursor item) b'f' t
delete_char_example = delete_char-Loses item (omega arith) item-IsClean (omega arith)

back_over_char_example :
    (t : InputItem) × (back_over_char item ≡ some t)
    × (left_of_cursor item ≡ left_of_cursor t ++ b'e' ∷ [])
    × (right_of_cursor t ≡ right_of_cursor item)
back_over_char_example = back_over_char-text item (omega arith) item-IsClean 0 refl (omega arith)

abbrev default_text : List ℕ
default_text = b'a' ∷ b'b' ∷ b'c' ∷ b'\n' ∷ b'd' ∷ []

initialize_default_example :
    (left_of_cursor (initialize_default 2 default_text) ≡ default_text)
    × (right_of_cursor (initialize_default 2 default_text) ≡ newline ∷ [])
initialize_default_example = initialize_default-text 2 default_text (omega arith)
