-- ===== src/Clef/Completion/Edits.antt =====
-- src/lib/wct.c: the two edits that a completion makes.
use open_axiom.Prelude.{
  drop, ℕ, zero, suc, ◌+◌, ◌-◌, Bool, false, not, ◌||◌, List, length, ltb, leb, ◌==◌, if◌then◌else◌,
}
use open_axiom.Prelude.Memory.{Memory, copy_down, slide, write_list, cells}
use open_axiom.Clef.Key
use open_axiom.Clef.State.{Editor, ◌▷◌, putchar, raise, maxline}
use open_axiom.Clef.Print.{put_times, printbuff}
use open_axiom.Clef.Completion.{Files, scan_wct, rescan_wct_table, answer}

abbrev pub between : ℕ → ℕ → ℕ → Bool
between lo hi c = if leb lo c then leb c hi else false

-- `Delimiter(c)`, with `isalnum` of the C locale
unfoldable pub delimiter : ℕ → Bool
delimiter c = not (
    between b'0' b'9' c
    || (between b'A' b'Z' c
        || (between b'a' b'z' c || (c == b'%' || (c == b'!' || (c == b'?' || c == b'_'))))))

-- `while (b && !Delimiter(buff[b])) b--; if (Delimiter(buff[b])) b++;`
unfoldable pub word_start : ℕ → Memory ℕ → ℕ
word_start zero m = if delimiter (m 0) then 1 else 0
word_start (suc b) m =
    let rest = word_start b m in if delimiter (m (suc b)) then suc b + 1 else rest

-- `while (e < buff_pntr && !Delimiter(buff[e])) e++;`
unfoldable pub word_end : (rounds e : ℕ) → Memory ℕ → ℕ
word_end zero e m = e
word_end (suc n) e m = let rest = word_end n (e + 1) m in if delimiter (m e) then e else rest

-- `putchar` in a loop, echo or not
unfoldable pub out_times : ℕ → ℕ → Editor → Editor
out_times zero c s = s
out_times (suc n) c s = out_times n c (putchar c s)

-- `putchar(buff[i])` for the `n` cells from `i` on
unfoldable pub type_out : (i n : ℕ) → Editor → Editor
type_out i zero s = s
type_out i (suc n) s = type_out (suc i) n (putchar (s.buff i) s)

-- The cells from the cursor on move up by `diff`, unless the cursor is at the end.
unfoldable pub spread : ℕ → Editor → Editor
spread diff s =
    let num = s.buff_pntr - s.curr_pntr in
    if s.curr_pntr == s.buff_pntr then s else record s {
      buff = copy_down (s.curr_pntr + diff) s.curr_pntr num s.buff;
      buff_flag = copy_down (s.curr_pntr + diff) s.curr_pntr num s.buff_flag;
      fault = s.fault || leb maxline (s.curr_pntr + diff + num);
    }

-- The characters of `w` go to `buff[b]` on. Their flags are left as they are.
abbrev pub overwrite : ℕ → List ℕ → Editor → Editor
overwrite b w s = record s {
  buff = write_list b w s.buff;
  fault = s.fault || ltb maxline (b + length w);
}

-- The word from `b` to the cursor is replaced by `w`, in the three cases of `rescan_wct`.
unfoldable pub replace_longer : (b : ℕ) (w : List ℕ) (diff : ℕ) → Editor → Editor
replace_longer b w diff s =
    let ncs = s.curr_pntr + diff in
    let t = record (spread diff s) { buff_pntr = s.buff_pntr + diff } in
    let u =
      t
      ▷ overwrite b w
      ▷ out_times (s.curr_pntr - b) Key.bkspc
      ▷ printbuff b (t.buff_pntr - b)
      ▷ out_times (t.buff_pntr - ncs) Key.bkspc in
    record u { curr_pntr = ncs }

-- `strncpy` is read as a copy of its `buff_pntr - curr_pntr` cells: none of them holds NUL.
unfoldable pub replace_shorter : (b : ℕ) (w : List ℕ) (diff : ℕ) → Editor → Editor
replace_shorter b w diff s =
    let num = s.buff_pntr - s.curr_pntr in
    let ncs = s.curr_pntr - diff in
    let t = record s {
      buff = slide (λ _. false) num ncs s.curr_pntr s.buff;
      buff_flag = slide (λ _. false) num ncs s.curr_pntr s.buff_flag;
      buff_pntr = s.buff_pntr - diff;
    } in
    let u =
      t
      ▷ overwrite b w
      ▷ out_times (s.curr_pntr - b) Key.bkspc
      ▷ printbuff b (t.buff_pntr - b)
      ▷ put_times diff Key.blank
      ▷ out_times (t.buff_pntr + diff - ncs) Key.bkspc in
    record u { curr_pntr = ncs }

unfoldable pub replace_equal : (b : ℕ) (w : List ℕ) → Editor → Editor
replace_equal b w s =
    s
    ▷ overwrite b w
    ▷ out_times (s.curr_pntr - b) Key.bkspc
    ▷ printbuff b (s.buff_pntr - b)
    ▷ out_times (s.buff_pntr - s.curr_pntr) Key.bkspc

unfoldable pub replace_word : (b : ℕ) (w : List ℕ) → Editor → Editor
replace_word b w s =
    let old = s.curr_pntr - b in
    let new = length w in
    if ltb old new
    then replace_longer b w (new - old) s
    else if ltb new old
    then replace_shorter b w (old - new) s
    else replace_equal b w s

-- With the cursor at 0 the search for the start of the word begins at `buff[-1]`.
unfoldable pub rescan_wct : Editor → Editor
rescan_wct s =
    let b = word_start (s.curr_pntr - 1) s.buff in
    let (found, s') = rescan_wct_table s in
    raise (s.curr_pntr == 0) (if found then replace_word b (answer s') s' else putchar Key.bell s')

abbrev pub search_size : ℕ
search_size = 100

-- The end of `w`, from its `from`-th character on, is inserted behind the word that starts at `st`
-- and ends at `e`.
unfoldable pub complete_word : (st e : ℕ) (w : List ℕ) → Editor → Editor
complete_word st e w s =
    let from = e - st in
    let diff = length w - from in
    let t = record (spread diff s) { buff_pntr = s.buff_pntr + diff } in
    let u = t ▷ overwrite (st + from) (drop from w) ▷ raise (ltb (length w) from) in
    let v = record (type_out u.curr_pntr diff u) { curr_pntr = u.curr_pntr + diff } in
    let x =
      v
      ▷ printbuff v.curr_pntr (v.buff_pntr - v.curr_pntr)
      ▷ out_times (v.buff_pntr - (e + diff)) Key.bkspc in
    record x { curr_pntr = diff + e }

unfoldable pub find_wct : Files → Editor → Editor
find_wct files s =
    let b = word_start (s.curr_pntr - 1) s.buff in
    let e = word_end (s.buff_pntr - s.curr_pntr) s.curr_pntr s.buff in
    let n = s.curr_pntr - b in
    let (found, s') = scan_wct files (cells b n s.buff) (raise (leb search_size n) s) in
    if s.curr_pntr == 0
    then putchar Key.bell s
    else if found
    then complete_word b e (answer s') s'
    else putchar Key.bell s'
