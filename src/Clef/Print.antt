-- ===== src/Clef/Print.antt =====
-- src/lib/prt.c: the cursor moves and deletions, with what they write to the terminal.
use open_axiom.Prelude.{ℕ, zero, suc, ◌+◌, ◌-◌, Bool, not, ◌||◌, ltb, ◌==◌, if◌then◌else◌}
use open_axiom.Prelude.Memory.{slide, stops, fill}
use open_axiom.Clef.Key
use open_axiom.Clef.State.{
  Flag, is_free, is_tail, is_lead, is_plain, Editor, ◌▷◌, putchar, advance, shrink, step_back,
  maxline,
}

unfoldable pub myputchar : ℕ → Editor → Editor
myputchar c s = if s.echoit then putchar c s else s

-- `for (count = n; count > 0; count--) myputchar(c);`
unfoldable pub put_times : ℕ → ℕ → Editor → Editor
put_times zero c s = s
put_times (suc n) c s = put_times n c (myputchar c s)

-- `for (count = i; count < i + n; count++) myputchar(buff[count]);`
unfoldable pub put_cells : (i n : ℕ) → Editor → Editor
put_cells i zero s = s
put_cells i (suc n) s = put_cells (suc i) n (myputchar (s.buff i) s)

-- `init_buff(buff, n); init_flag(buff_flag, n);`
unfoldable pub wipe : ℕ → Editor → Editor
wipe n s = record s { buff = fill 0 n 0 s.buff; buff_flag = fill 0 n Flag.free s.buff_flag }

-- `strcpy(&buff[to], &buff[from]); flagcpy(&buff_flag[to], &buff_flag[from]);`
-- A copy that finds no end within the arrays is a fault.
unfoldable pub close_gap : (to from : ℕ) → Editor → Editor
close_gap to from s = record s {
  buff = slide (λ c. c == 0) (maxline - from) to from s.buff;
  buff_flag = slide is_free (maxline - from) to from s.buff_flag;
  fault =
      s.fault
      || (not (stops (λ c. c == 0) (maxline - from) from s.buff)
          || not (stops is_free (maxline - from) from s.buff_flag));
}

abbrev pub at_start : Editor → Editor
at_start s = record s { curr_pntr = 0; buff_pntr = 0 }

unfoldable pub clear_buff : Editor → Editor
clear_buff s =
    if ltb 0 s.buff_pntr
    then s
      ▷ put_times s.curr_pntr Key.bkspc
      ▷ put_times s.buff_pntr Key.blank
      ▷ put_times s.buff_pntr Key.bkspc
      ▷ wipe s.buff_pntr
      ▷ at_start
    else s

unfoldable pub move_end : Editor → Editor
move_end s =
    if s.curr_pntr == s.buff_pntr
    then putchar Key.bell s
    else (let s' = put_cells s.curr_pntr (s.buff_pntr - s.curr_pntr) s in
        record s' { curr_pntr = s.buff_pntr })

unfoldable pub move_home : Editor → Editor
move_home s =
    if ltb 0 s.curr_pntr
    then (let s' = put_times s.curr_pntr Key.bkspc s in record s' { curr_pntr = 0 })
    else putchar Key.bell s

abbrev pub step_over : Editor → Editor
step_over s = let s' = myputchar (s.buff s.curr_pntr) s in record s' { curr_pntr = s.curr_pntr + 1 }

-- `while (curr_pntr < buff_pntr && buff[curr_pntr] != ' ')`, over the cells that are left
unfoldable pub skip_word : ℕ → Editor → Editor
skip_word zero s = s
skip_word (suc n) s =
    let rest = skip_word n (step_over s) in if s.buff s.curr_pntr == Key.blank then s else rest

unfoldable pub move_fore_word : Editor → Editor
move_fore_word s =
    if s.curr_pntr == s.buff_pntr
    then putchar Key.bell s
    else (let s' = step_over s in skip_word (s'.buff_pntr - s'.curr_pntr) s')

abbrev pub step_left : Editor → Editor
step_left s = step_back 1 (myputchar Key.bkspc s)

-- `while (curr_pntr > 0 && buff[curr_pntr - 1] != ' ')`, over the cells before the cursor
unfoldable pub skip_back : ℕ → Editor → Editor
skip_back zero s = s
skip_back (suc n) s =
    let rest = skip_back n (step_left s) in
    if s.buff (s.curr_pntr - 1) == Key.blank then s else rest

unfoldable pub move_back_word : Editor → Editor
move_back_word s =
    if ltb 0 s.curr_pntr
    then (let s' = step_left s in skip_back s'.curr_pntr s')
    else putchar Key.bell s

unfoldable pub del_print : (start num : ℕ) → Editor → Editor
del_print start num s =
    s
    ▷ put_cells start (s.buff_pntr - start)
    ▷ put_times num Key.blank
    ▷ put_times (s.buff_pntr + num - start) Key.bkspc

unfoldable pub ins_print : (start num : ℕ) → Editor → Editor
ins_print start num s =
    s ▷ put_cells start (s.buff_pntr + num - start) ▷ put_times (s.buff_pntr - start) Key.bkspc

-- Removes `n` cells at the cursor: the blanking, the two copies, the count and the reprint.
unfoldable pub remove_cells : ℕ → Editor → Editor
remove_cells n s =
    s
    ▷ put_times n Key.blank
    ▷ put_times n Key.bkspc
    ▷ close_gap s.curr_pntr (s.curr_pntr + n)
    ▷ shrink n
    ▷ del_print s.curr_pntr n

-- `buff_flag[curr_pntr] == 1 || buff_flag[curr_pntr] == 0`
abbrev pub is_single : Flag → Bool
is_single f = is_plain f || is_tail f

unfoldable pub delete_current_char : Editor → Editor
delete_current_char s = advance 3 (
    if s.curr_pntr == s.buff_pntr
    then putchar Key.bell s
    else if is_single (s.buff_flag s.curr_pntr)
    then remove_cells 1 s
    else remove_cells 2 s)

unfoldable pub delete_to_end_of_line : Editor → Editor
delete_to_end_of_line s =
    if s.curr_pntr == s.buff_pntr
    then s
    else (let s' =
          s
          ▷ put_times (s.buff_pntr - s.curr_pntr) Key.blank
          ▷ put_times (s.buff_pntr - s.curr_pntr) Key.bkspc in
        record s' { buff_pntr = s.curr_pntr })

unfoldable pub delete_line : Editor → Editor
delete_line s =
    if s.buff_pntr == 0
    then s
    else s
      ▷ put_times s.curr_pntr Key.bkspc
      ▷ put_times s.buff_pntr Key.blank
      ▷ put_times s.buff_pntr Key.bkspc
      ▷ wipe s.buff_pntr
      ▷ at_start

-- `for (trace = start; trace < start + num; trace++) if (buff[trace] != '\0') ...`
unfoldable pub printbuff : (start num : ℕ) → Editor → Editor
printbuff start zero s = s
printbuff start (suc n) s =
    printbuff (suc start) n (if s.buff start == 0 then s else myputchar (s.buff start) s)

unfoldable pub reprint : ℕ → Editor → Editor
reprint start s =
    s ▷ myputchar (if s.buff start == 0 then Key.blank else s.buff start) ▷ myputchar Key.bkspc

unfoldable pub back_up : ℕ → Editor → Editor
back_up n s = s ▷ put_times n Key.bkspc ▷ put_times n Key.blank ▷ put_times n Key.bkspc

unfoldable pub back_it_up : ℕ → Editor → Editor
back_it_up n s = put_times n Key.bkspc s

unfoldable pub print_whole_buff : Editor → Editor
print_whole_buff s = printbuff 0 s.buff_pntr s

unfoldable pub move_ahead : Editor → Editor
move_ahead s =
    if s.curr_pntr == s.buff_pntr
    then putchar Key.bell s
    else step_over (if is_lead (s.buff_flag s.curr_pntr) then step_over s else s)

unfoldable pub move_back : Editor → Editor
move_back s =
    if s.curr_pntr == 0
    then putchar Key.bell s
    else step_left (if is_tail (s.buff_flag (s.curr_pntr - 1)) then step_left s else s)

-- Removes the `n` cells before the cursor.
unfoldable pub rub_out : ℕ → Editor → Editor
rub_out n s =
    s
    ▷ put_times n Key.bkspc
    ▷ put_times n Key.blank
    ▷ put_times n Key.bkspc
    ▷ close_gap (s.curr_pntr - n) s.curr_pntr
    ▷ shrink n
    ▷ step_back n
    ▷ del_print (s.curr_pntr - n) n

unfoldable pub back_over_current_char : Editor → Editor
back_over_current_char s =
    if s.curr_pntr == 0
    then putchar Key.bell s
    else if is_tail (s.buff_flag (s.curr_pntr - 1))
    then rub_out 2 s
    else rub_out 1 s
