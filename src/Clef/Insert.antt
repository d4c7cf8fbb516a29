-- ===== src/Clef/Insert.antt =====
-- src/lib/edin.c: characters put into the line, in insert mode and in overstrike mode.
use open_axiom.Prelude.{ℕ, zero, suc, ◌+◌, ◌-◌, ◌||◌, ltb, leb, ◌==◌, if◌then◌else◌}
use open_axiom.Prelude.Memory.{store, copy_down}
use open_axiom.Clef.Key
use open_axiom.Clef.State.{
  Flag, is_lead, Editor, ◌▷◌, putchar, advance, step_back, put_cell, maxline, control_char,
  control_to_alpha,
}
use open_axiom.Clef.Print.{myputchar, delete_current_char, ins_print, printbuff}

-- `forwardcopy(&buff[curr_pntr + n], &buff[curr_pntr], buff_pntr - curr_pntr);` and the same for
-- the flags: the cells from the cursor to the end of the line, the end included, move up by `n`.
unfoldable pub open_gap : ℕ → Editor → Editor
open_gap n s =
    let num = s.buff_pntr - s.curr_pntr in
    record s {
      buff = copy_down (s.curr_pntr + n) s.curr_pntr num s.buff;
      buff_flag = copy_down (s.curr_pntr + n) s.curr_pntr num s.buff_flag;
      fault = s.fault || leb maxline (s.curr_pntr + n + num);
    }

-- `buff[curr_pntr + k] = in_buff[num_proc + count]; buff_flag[...] = 1;`
abbrev pub take_char : (k count : ℕ) → Editor → Editor
take_char k count s = put_cell (s.curr_pntr + k) (s.in_buff (s.num_proc + count)) Flag.plain s

-- The loop of insert mode over `count`, `off` cells further on.
unfoldable pub take_chars : (off count rounds : ℕ) → Editor → Editor
take_chars off count zero s = s
take_chars off count (suc n) s = take_chars off (suc count) n (take_char (count + off) count s)

-- The second cell of a control character at `curr_pntr + count` is removed.
unfoldable pub drop_tail : ℕ → Editor → Editor
drop_tail count s =
    let s' = delete_current_char (record s { curr_pntr = s.curr_pntr + (count + 1) }) in
    step_back (count + 1) (record s' { num_proc = s'.num_proc - 3 })

-- The loop of overstrike mode in `insert_buff_printing`.
unfoldable pub strike_printing : (count rounds : ℕ) → Editor → Editor
strike_printing count zero s = s
strike_printing count (suc n) s = strike_printing (suc count) n (
    take_char count count (
      if is_lead (s.buff_flag (s.curr_pntr + count))
      then s ▷ myputchar (s.buff (s.curr_pntr + count)) ▷ drop_tail count ▷ myputchar Key.bkspc
      else s))

-- `if (curr_pntr == buff_pntr) buff_pntr++;`
unfoldable pub extend : Editor → Editor
extend s = if s.curr_pntr == s.buff_pntr then record s { buff_pntr = s.buff_pntr + 1 } else s

unfoldable pub move_on : ℕ → ℕ → Editor → Editor
move_on cells chars s = record s { num_proc = s.num_proc + chars; curr_pntr = s.curr_pntr + cells }

abbrev pub lengthen : ℕ → Editor → Editor
lengthen n s = record s { buff_pntr = s.buff_pntr + n }

-- The two modes of `insert_buff_printing`.
unfoldable pub insert_chars : ℕ → Editor → Editor
insert_chars amount s =
    s ▷ open_gap amount ▷ take_chars 0 0 amount ▷ ins_print s.curr_pntr amount ▷ lengthen amount

unfoldable pub strike_chars : ℕ → Editor → Editor
strike_chars amount s =
    let s' = strike_printing 0 amount s in extend (myputchar (s'.in_buff s'.num_proc) s')

unfoldable pub insert_buff_printing : ℕ → Editor → Editor
insert_buff_printing amount s =
    if ltb 1023 (s.buff_pntr + amount)
    then advance amount (putchar Key.bell s)
    else move_on amount amount (if s.ins_mode then insert_chars amount s else strike_chars amount s)

-- The two cells that show the character at `in_buff[num_proc]`. In the last case the source sets
-- the flag of the first cell twice and leaves that of the second.
unfoldable pub put_special : Editor → Editor
put_special s =
    let c = s.in_buff s.num_proc in
    let i = s.curr_pntr in
    if c == Key.esc
    then s ▷ put_cell i Key.carrot Flag.lead ▷ put_cell (i + 1) Key.lbrack Flag.tail
    else if control_char c
    then s ▷ put_cell i Key.carrot Flag.lead ▷ put_cell (i + 1) (control_to_alpha c) Flag.tail
    else record s {
      buff = store (store s.buff i b'?') (i + 1) c;
      buff_flag = store (store s.buff_flag i Flag.lead) i Flag.tail;
      fault = s.fault || leb maxline (i + 1);
    }

-- The loop of overstrike mode in `insert_buff_nonprinting`.
unfoldable pub strike_nonprinting : (count rounds : ℕ) → Editor → Editor
strike_nonprinting count zero s = s
strike_nonprinting count (suc n) s = strike_nonprinting (suc count) n (
    take_char (count + 1) count
      (if is_lead (s.buff_flag (s.curr_pntr + count)) then drop_tail count s else s))

-- `if (curr_pntr > buff_pntr) buff_pntr = curr_pntr;`
unfoldable pub cover : Editor → Editor
cover s = if ltb s.buff_pntr s.curr_pntr then record s { buff_pntr = s.curr_pntr } else s

-- The two modes of `insert_buff_nonprinting`.
unfoldable pub insert_special : ℕ → Editor → Editor
insert_special amount s =
    s
    ▷ open_gap (amount + 1)
    ▷ put_special
    ▷ take_chars 1 1 (amount - 1)
    ▷ ins_print s.curr_pntr (amount + 1)
    ▷ lengthen (amount + 1)

unfoldable pub strike_special : ℕ → Editor → Editor
strike_special amount s =
    let s' = s ▷ put_special ▷ strike_nonprinting 1 (amount - 1) in
    printbuff s'.curr_pntr (amount + 1) s'

unfoldable pub insert_buff_nonprinting : ℕ → Editor → Editor
insert_buff_nonprinting amount s =
    if ltb 1023 (s.buff_pntr + amount)
    then advance amount (myputchar Key.bell s)
    else cover (
        move_on (amount + 1) amount
          (if s.ins_mode then insert_special amount s else strike_special amount s))
