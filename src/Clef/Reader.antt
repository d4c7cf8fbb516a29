-- ===== src/Clef/Reader.antt =====
-- src/lib/edin.c: `do_reading`, which takes the characters that were read and acts on each.
use open_axiom.Prelude.{
  ℕ, zero, suc, ◌+◌, ◌-◌, Bool, true, false, not, ◌&&◌, ◌||◌, Option, none, some, List, [], ◌∷◌,
  ltb, leb, ◌==◌, if◌then◌else◌,
}
use open_axiom.Prelude.Memory.{store, cells}
use open_axiom.Clef.Key
use open_axiom.Clef.State.{Editor, ◌▷◌, putchar, write_child, advance, control_char, maxline}
use open_axiom.Clef.Print.{
  myputchar, move_end, move_home, move_fore_word, move_back_word, delete_current_char,
  delete_to_end_of_line, delete_line, reprint, move_ahead, move_back, back_over_current_char,
}
use open_axiom.Clef.Insert.{insert_buff_printing, insert_buff_nonprinting}
use open_axiom.Clef.Ring.{prev_buff, next_buff}
use open_axiom.Clef.Lines.{send_line_to_child}
use open_axiom.Clef.Completion.{Files}
use open_axiom.Clef.Completion.Edits.{find_wct, rescan_wct}
use open_axiom.Clef.FunctionKeys.{Fkey, EditorFile, handle_function_key, atoi2}

-- What the session was set up with: the terminal's control characters (`_INTR` and so on), the
-- function keys, and what the system shows of files.
pub record Session : Type 0 where
  pub intr : ℕ
  pub quit : ℕ
  pub erase : ℕ
  pub kill : ℕ
  pub eof : ℕ
  pub eol : ℕ
  pub function_key : ℕ → Option Fkey
  pub files : Files
  pub editor_file : EditorFile

-- `in_buff[num_proc + k]`
abbrev pub peek : ℕ → Editor → ℕ
peek k s = s.in_buff (s.num_proc + k)

-- `n` more characters from the terminal. With no more input the source waits for ever.
unfoldable pub take_input : ℕ → List ℕ → Editor → Editor
take_input zero input s = record s { input = input }
take_input (suc n) [] s = record s { input = []; fault = true }
take_input (suc n) (c ∷ input) s = take_input n input (record s {
  in_buff = store s.in_buff s.num_read c;
  num_read = s.num_read + 1;
  fault = s.fault || leb maxline s.num_read;
})

-- `while (!(num_read - num_proc > k)) ...`: each `read` asks for what is missing, so the loop ends
-- when that much has come, in however many parts.
unfoldable pub fetch : ℕ → Editor → Editor
fetch k s = take_input (s.num_proc + k + 1 - s.num_read) s.input s

-- `flip(INS_MODE)`, the cursor's shape (which this build leaves alone), and the reprint
unfoldable pub toggle_mode : ℕ → Editor → Editor
toggle_mode n s = advance n (reprint s.curr_pntr (record s { ins_mode = not s.ins_mode }))

-- the last three characters of `ESC [ x y z q`
abbrev pub ends_with : (a b : ℕ) → Editor → Bool
ends_with a b s = (peek 3 s == a) && ((peek 4 s == b) && (peek 5 s == b'q'))

-- A branch gives the editor and `done_completely`.
abbrev pub Outcome : Type 0
Outcome = Editor × Bool

-- The `default:` of the switch over the third character.
abbrev pub insert_unless : Outcome → Outcome
insert_unless (s, done) = (if done then s else insert_buff_nonprinting 1 s, done)

-- `curr_pntr = buff_pntr;` after a line is taken from the ring
abbrev pub to_end : Editor → Editor
to_end s = record s { curr_pntr = s.buff_pntr }

module _ (session : Session) (do_reading : Editor → Editor) where
  open session use {function_key, files, editor_file}

  -- `if (function_key[key].str != NULL) ... else insert_buff_nonprinting(6);`
  unfoldable pub press_key : Option Fkey → Editor → Editor
  press_key none s = insert_buff_nonprinting 6 s
  press_key (some key) s = handle_function_key editor_file do_reading key s

  unfoldable pub ibm_key : Editor → Editor
  ibm_key s =
      let key = atoi2 (peek 3 s) (peek 4 s) in
      if ltb 0 key && ltb key 13
      then press_key (function_key key) s
      else insert_buff_nonprinting 6 s

  unfoldable pub sun_key : Editor → Editor
  sun_key s =
      let num = atoi2 (peek 3 s) (peek 4 s) in
      if ltb 23 num && ltb (num - 23) 13
      then press_key (function_key (num - 23)) s
      else if num == 14
      then s ▷ move_home ▷ advance 6
      else if num == 20
      then s ▷ move_end ▷ advance 6
      else if num == 47
      then toggle_mode 6 s
      else insert_buff_nonprinting 6 s

  -- `switch (in_buff[num_proc + 5])`. No `break` stands behind it, so that the `default:` of the
  -- outer switch comes next.
  unfoldable pub last_character : Bool → Editor → Outcome
  last_character done s = insert_unless (
      if peek 5 s == b'q'
      then (ibm_key s, true)
      else if peek 5 s == b'z'
      then (sun_key s, true)
      else (insert_buff_nonprinting 1 s, done))

  unfoldable pub six_characters : Bool → Editor → Outcome
  six_characters done s =
      if ends_with b'3' b'9' s
      then (toggle_mode 6 s, done)
      else if ends_with b'4' b'8' s
      then (s ▷ advance 6 ▷ delete_to_end_of_line, done)
      else if ends_with b'5' b'9' s
      then (s ▷ move_back_word ▷ advance 6, done)
      else if ends_with b'6' b'8' s
      then (s ▷ move_fore_word ▷ advance 6, done)
      else if ends_with b'4' b'6' s
      then (s ▷ move_end ▷ advance 6, done)
      else last_character done s

  unfoldable pub five_characters : Bool → Editor → Outcome
  five_characters done s =
      if peek 4 s == b'~'
      then (insert_buff_nonprinting 1 s, done)
      else six_characters done (fetch 5 s)

  unfoldable pub four_characters : Bool → Editor → Outcome
  four_characters done s =
      if peek 3 s == b'~'
      then (if peek 2 s == b'2' then toggle_mode 4 s else insert_buff_nonprinting 1 s, done)
      else five_characters done (fetch 4 s)

  -- `switch (in_buff[num_proc + 2])` behind `ESC [`
  unfoldable pub bracket : Bool → Editor → Outcome
  bracket done s =
      let c = peek 2 s in
      if c == b'A'
      then (s ▷ prev_buff ▷ to_end ▷ advance 3, done)
      else if c == b'B'
      then (s ▷ next_buff ▷ to_end ▷ advance 3, done)
      else if c == b'C'
      then (s ▷ move_ahead ▷ advance 3, done)
      else if c == b'D'
      then (s ▷ move_back ▷ advance 3, done)
      else if c == b'P'
      then (delete_current_char s, done)
      else if c == b'H' || c == 0
      then (s ▷ move_home ▷ advance 3, done)
      else if c == b'M' || c == b'Z'
      then (s ▷ insert_buff_nonprinting 3 ▷ advance 3, true)
      else if c == b'x'
      then (record s { num_proc = s.num_read }, done)
      else if c == b'1' || (c == b'2' || c == b'0')
      then four_characters done (fetch 3 s)
      else insert_unless (s, done)

  unfoldable pub escape : Bool → Editor → Outcome
  escape done s =
      let s' = fetch 2 s in
      if peek 1 s' == Key.lbrack then bracket done s' else (insert_buff_nonprinting 1 s', done)

-- `if (!PTY) write(contNum, "\n", 1);`
abbrev pub write_eoln : Editor → Editor
write_eoln s = if s.pty then s else write_child (Key.eoln ∷ []) s

-- `if (had_tab) { had_tab_last = 1; had_tab = 0; } else had_tab_last = 0;`
abbrev pub note_tab : Editor → Editor
note_tab s = record s { had_tab_last = s.had_tab; had_tab = false }

module _ (session : Session) where
  open session use {intr, quit, erase, kill, eof, eol}

  -- The `default:` of the switch over the character.
  unfoldable pub other_character : Editor → Editor
  other_character s =
      let c = peek 0 s in
      if c == kill
      then s ▷ delete_line ▷ advance 1
      else if c == intr || c == quit
      then s
        ▷ write_child (cells s.num_proc (s.num_read - s.num_proc) s.in_buff)
        ▷ write_eoln
        ▷ advance 1
      else if c == eof
      then s ▷ insert_buff_nonprinting 1 ▷ write_eoln ▷ advance 1
      else if c == eol
      then s ▷ send_line_to_child ▷ write_eoln
      else if c == erase
      then s ▷ back_over_current_char ▷ advance 1
      else if control_char c
      then insert_buff_nonprinting 1 s
      else insert_buff_printing 1 s

  unfoldable pub complete : Editor → Editor
  complete s =
      let s' = advance 1 (record s { had_tab = true }) in
      if s.had_tab_last then rescan_wct s' else find_wct session.files s'

  -- The body of the loop, but for the flags of the tab key.
  unfoldable pub character : (do_reading : Editor → Editor) → Bool → Editor → Outcome
  character do_reading done s =
      let c = peek 0 s in
      if c == erase
      then (s ▷ back_over_current_char ▷ advance 1, done)
      else if c == Key.eoln || c == Key.cr
      then (let s' = send_line_to_child s in if s'.pty then s' else myputchar Key.eoln s', done)
      else if c == Key.del
      then (delete_current_char s, done)
      else if c == Key.cntrl_w
      then (s ▷ move_back_word ▷ advance 1, done)
      else if c == Key.tab
      then (complete s, done)
      else if c == Key.bell
      then (s ▷ insert_buff_nonprinting 1 ▷ putchar Key.bell, done)
      else if c == Key.esc
      then escape session do_reading done s
      else if c == Key.bkspc
      then (s ▷ back_over_current_char ▷ advance 1, done)
      else (other_character s, done)

  -- The loop of `do_reading`. The calls that an edited file makes of it take the fuel that is left.
  unfoldable pub reading_loop : (fuel : ℕ) → Bool → Editor → Editor
  reading_loop zero done s = record s { fault = true }
  reading_loop (suc n) done s =
      let inner = λ (t : Editor). reading_loop n false (record t { num_proc = 0 }) in
      let (s', done') = character inner done s in
      let rest = reading_loop n done' (note_tab s') in if ltb s.num_proc s.num_read then rest else s

  unfoldable pub do_reading : (fuel : ℕ) → Editor → Editor
  do_reading fuel s = reading_loop fuel false (record s { num_proc = 0 })
