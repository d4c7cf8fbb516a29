-- ===== src/Clef/Lines.antt =====
-- src/lib/edin.c: a finished line is saved in the ring and sent to the child process.
use open_axiom.Prelude.{ℕ, zero, suc, ◌+◌, false, none, ltb, leb, ◌==◌, if◌then◌else◌}
use open_axiom.Prelude.Memory.{Memory, store, fill, cells}
use open_axiom.Clef.Key
use open_axiom.Clef.State.{
  Flag, is_plain, Editor, maxline, ◌▷◌, advance, put_cell, write_child, alpha_to_control,
}
use open_axiom.Clef.Print.{back_it_up, wipe, at_start}
use open_axiom.Clef.Ring.{insert_queue}

-- `init_reader`, but for the kind of the terminal, which only the shape of the cursor depends on.
unfoldable pub init_reader : Editor → Editor
init_reader s = record s {
  buff = store s.buff 50 0;
  buff_flag = fill 0 maxline Flag.free s.buff_flag;
  buff_pntr = 0;
  curr_pntr = 0;
  had_tab = false;
  had_tab_last = false;
}

-- One round of `convert_buffer`: the cells that it reads, and `target` after its write. A caret
-- that shows no control character writes nothing.
unfoldable pub convert_cell :
    (i j : ℕ) (source : Memory ℕ) (flags : Memory Flag) (target : Memory ℕ) → ℕ × Memory ℕ
convert_cell i j source flags target =
    let c = source i in
    let d = source (i + 1) in
    if c == Key.carrot
    then (if is_plain (flags i)
        then (1, store target j c)
        else if d == Key.lbrack
        then (2, store target j Key.esc)
        else if leb b'A' d
        then (if leb d b'Z' then (2, store target j (alpha_to_control d)) else (1, target))
        else (1, target))
    else (1, store target j c)

-- The loop. Each round goes at least one cell on, so `num` rounds of fuel are enough.
unfoldable pub convert_loop :
    (fuel i j num : ℕ) (source : Memory ℕ) (flags : Memory Flag) (target : Memory ℕ) → Memory ℕ × ℕ
convert_loop zero i j num source flags target = (target, j)
convert_loop (suc f) i j num source flags target =
    let (n, target') = convert_cell i j source flags target in
    let rest = convert_loop f (i + n) (suc j) num source flags target' in
    if ltb i num then rest else (target, j)

-- `target` is static in the source, so what it held before shows through.
unfoldable pub convert_buffer :
    (target source : Memory ℕ) (flags : Memory Flag) (num : ℕ) → Memory ℕ × ℕ
convert_buffer target source flags num = convert_loop num 0 0 num source flags target

-- `buff[buff_pntr] = c; buff_flag[buff_pntr++] = 1;` and the end behind it
unfoldable pub finish_line : ℕ → Flag → Editor → Editor
finish_line c end s =
    let s' = put_cell s.buff_pntr c Flag.plain s in
    let s'' = record s' { buff_pntr = s.buff_pntr + 1 } in put_cell s''.buff_pntr 0 end s''

-- The buffer, its pointers and the place in the ring are set back.
unfoldable pub reset_line : Editor → Editor
reset_line s = let s' = wipe s.buff_pntr s in record (at_start s') { current = none }

abbrev pub save_nonempty : Editor → Editor
save_nonempty s = if s.buff_pntr == 0 then s else insert_queue s

unfoldable pub send_line_to_child : Editor → Editor
send_line_to_child s =
    let s' =
      s ▷ back_it_up s.curr_pntr ▷ save_nonempty ▷ finish_line (s.in_buff s.num_proc) Flag.free in
    let (converted, n) = convert_buffer s'.converted s'.buff s'.buff_flag s'.buff_pntr in
    record s' { converted = converted } ▷ write_child (cells 0 n converted) ▷ reset_line ▷ advance 1

unfoldable pub send_function_to_child : Editor → Editor
send_function_to_child s =
    let s' = s ▷ back_it_up s.curr_pntr ▷ save_nonempty ▷ finish_line Key.eoln Flag.tail in
    s' ▷ write_child (cells 0 s'.buff_pntr s'.buff) ▷ reset_line ▷ advance 1

unfoldable pub send_buff_to_child : Editor → Editor
send_buff_to_child s =
    (if ltb 0 s.buff_pntr then write_child (cells 0 s.buff_pntr s.buff) s else s)
    ▷ advance 6
    ▷ reset_line
