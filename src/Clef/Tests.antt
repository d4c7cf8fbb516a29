-- ===== src/Clef/Tests.antt =====
-- The command line editor on small lines.
mod Full
mod Lines
use open_axiom.Prelude.{
  ℕ, ◌+◌, ◌-◌, ◌≤◌, ◌<◌, ◌≡◌, refl, true, false, none, some, List, [], ◌∷◌, ◌++◌, arith, get_or,
  length,
}
use open_axiom.Prelude.Memory.{Memory}
use open_axiom.Clef.State.{Flag, QueStruct, Wct, Editor}
use open_axiom.Clef.Print.{
  delete_line, delete_current_char, back_over_current_char, move_ahead, move_back, move_home,
  move_end,
}
use open_axiom.Clef.Insert.{insert_buff_printing, insert_buff_nonprinting}
use open_axiom.Clef.Reader.{Session, do_reading}
use open_axiom.Clef.Line.Rounds.{IsOrdinary}
use open_axiom.Clef.Line.Reading.{do_reading-line}
use open_axiom.Clef.Completion.Words
use open_axiom.Clef.Completion.Words.{burst1_wct-words}
use open_axiom.Clef.Line.Bounds.{delete_line-Rep, init_reader-Rep}
use open_axiom.Clef.Line.Recall.{prev_buff-add_line}
use open_axiom.Clef.Ring.{add_line, save_line, prev_buff, insert_queue}
use open_axiom.Clef.Ring.Links.{IsRing, insert_queue-IsRing}
use open_axiom.Clef.Lines.{init_reader, send_line_to_child}
use open_axiom.Clef.Completion.{burst1_wct, Files, strneql, scan_wct, rescan_wct_table, answer}
use open_axiom.Clef.Completion.Search.{FitsNoTable, scan_wct_lem}
use open_axiom.Clef.Completion.Rescan.{rescan_wct_table_lem}
use open_axiom.Clef.Line.Glyph.{Glyph, plain, control, Rep}
use open_axiom.Clef.Line.Delete.{delete_current_char-Rep, back_over_current_char-Rep}
use open_axiom.Clef.Line.Move.{Rep-shift, moves_lem}
use open_axiom.Clef.Line.Insert.{insert_buff_printing-Rep, insert_buff_nonprinting-Rep}
use open_axiom.Clef.Line.Queue.{insert_queue-Rep}
use open_axiom.Clef.Line.Send.{send_line_to_child-codes}
use open_axiom.Clef.Line.Screen.Paint.{row, feed}
use open_axiom.Clef.Line.Screen.Edits.{AllShown, Shows}
use open_axiom.Clef.Line.Screen.Deletions.{delete_current_char-Shows, back_over_current_char-Shows}
use open_axiom.Clef.Line.Screen.Typing.{insert_buff_printing-Shows, insert_buff_nonprinting-Shows}

abbrev pub word_table : List (List ℕ) → Wct
word_table ws = record { fname = 1; ftime = 5; wordc = length ws; wordv = ws }

abbrev pub words : List Wct
words =
    word_table ((b'a' ∷ b'd' ∷ b'd' ∷ []) ∷ (b's' ∷ b'u' ∷ b'm' ∷ []) ∷ [])
    ∷ word_table ((b's' ∷ b'i' ∷ b'n' ∷ []) ∷ [])
    ∷ []

-- Two saved lines.
abbrev pub two_nodes : Memory QueStruct
two_nodes p = record {
  chars = λ i. get_or ((b'x' + p) ∷ []) i 0;
  flags = λ i. get_or (Flag.plain ∷ []) i Flag.free;
  prev = 1 - p;
  next = 1 - p;
}

-- `a`, the cursor, control-A shown as `^A`, and `b`: the terminal was given the line and three
-- backspaces. The next character of the input is `c`.
abbrev pub editing : ℕ → Editor
editing c = record {
  buff = λ i. get_or (b'a' ∷ b'^' ∷ b'A' ∷ b'b' ∷ []) i 0;
  buff_flag = λ i. get_or (Flag.plain ∷ Flag.lead ∷ Flag.tail ∷ Flag.plain ∷ []) i Flag.free;
  buff_pntr = 4;
  curr_pntr = 1;
  in_buff = λ i. c;
  num_read = 1;
  num_proc = 0;
  had_tab = false;
  had_tab_last = false;
  ins_mode = true;
  echoit = true;
  pty = true;
  nodes = two_nodes;
  ring = some 1;
  current = none;
  ring_size = 2;
  converted = λ i. 0;
  pwct = words;
  curr_wix = record { table = some 0; word = 1 };
  curr_prefix = b's' ∷ [];
  input = [];
  stdout = 8 ∷ 8 ∷ 8 ∷ b'b' ∷ b'A' ∷ b'^' ∷ b'a' ∷ [];
  sent = [];
  fault = false;
}

abbrev pub left : List Glyph
left = plain b'a' ∷ []

abbrev pub right : List Glyph
right = control 1 ∷ plain b'b' ∷ []

pub editing-Rep : (c : ℕ) → Rep left right (editing c)
editing-Rep c = record {
  chars_left = (refl, tt);
  flags_left = (refl, tt);
  right = ((refl, (refl, (refl, (refl, tt)))), (refl, (refl, (refl, (refl, tt)))));
  cursor = refl;
  total = refl;
  room = omega arith;
  glyphs_left = (ground arith, tt);
  glyphs_right = ((omega arith, omega arith), (ground arith, tt));
  no_fault = refl;
}

editing-Shows : (c : ℕ) → Shows left right (editing c)
unfolding row feed
editing-Shows c = record {
  on = refl;
  shows = record {
    left = (refl, tt);
    right = (refl, (refl, (refl, tt)));
    rest = λ k h. ground arith;
    col = refl;
  };
}

right_shown : AllShown right
right_shown = (
  (ground arith, ground arith),
  ((ground arith, ground arith), ((ground arith, ground arith), tt)),
)

delete_current_char_example : Rep left (plain b'b' ∷ []) (delete_current_char (editing b'c'))
delete_current_char_example =
    delete_current_char-Rep left (control 1) (plain b'b' ∷ []) (editing b'c') (editing-Rep b'c')

delete_screen_example : Shows left (plain b'b' ∷ []) (delete_current_char (editing b'c'))
delete_screen_example =
    delete_current_char-Shows left (control 1) (plain b'b' ∷ []) (editing b'c')
      ((ground arith, ground arith), tt) (editing-Rep b'c') (editing-Shows b'c')

back_over_example : Rep [] right (back_over_current_char (editing b'c'))
back_over_example =
    back_over_current_char-Rep [] (plain b'a') right (editing b'c') (editing-Rep b'c')

insert_example : Rep (left ++ plain b'c' ∷ []) right (insert_buff_printing 1 (editing b'c'))
insert_example =
    insert_buff_printing-Rep left right (editing b'c') (editing-Rep b'c') refl (ground arith)
      (omega arith)

insert_control_example : Rep (left ++ control 2 ∷ []) right (insert_buff_nonprinting 1 (editing 2))
insert_control_example =
    insert_buff_nonprinting-Rep left right (editing 2) (editing-Rep 2) refl (omega arith)
      (omega arith) (omega arith)

moves_example :
    Rep ((left ++ control 1 ∷ [])) (plain b'b' ∷ []) (move_ahead (editing b'c'))
    × Rep [] (plain b'a' ∷ right) (move_back (editing b'c'))
    × Rep [] (left ++ right) (move_home (editing b'c'))
    × Rep (left ++ right) [] (move_end (editing b'c'))
moves_example =
    moves_lem [] (plain b'a') (control 1) (plain b'b' ∷ []) (editing b'c') (editing-Rep b'c')
