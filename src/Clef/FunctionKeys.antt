-- ===== src/Clef/FunctionKeys.antt =====
-- src/lib/fnct_key.c: the strings bound to function keys, and what a key does to the line.
use open_axiom.Prelude.{
  ℕ, zero, suc, ◌+◌, ◌-◌, ◌*◌, Bool, true, false, ◌||◌, Option, none, some, List, [], ◌∷◌, length,
  ltb, leb, ◌==◌, if◌then◌else◌,
}
use open_axiom.Prelude.Memory.{cells}
use open_axiom.Clef.State.{Flag, Editor, ◌▷◌, advance, put_cell, maxline}
use open_axiom.Clef.Print.{myputchar, back_up, ins_print}
use open_axiom.Clef.Insert.{open_gap, lengthen}
use open_axiom.Clef.Lines.{send_function_to_child, reset_line}

-- `function_key[i].type`
pub data KeyType : Type 0 where
  delayed immediate special : KeyType

-- `function_key`: a key with no string is `none`.
pub record Fkey : Type 0 where
  pub str : List ℕ
  pub type : KeyType

-- What the editor program makes of its file: it is given the text that clef wrote there, unless
-- clef left the file alone, and what clef then reads comes in one list for each `read`.
pub record EditorFile : Type 0 where
  pub exists : Bool
  pub edited : Option (List ℕ) → List (List ℕ)

-- The cells of the string `str` from the cursor on, flagged with the character '1'.
unfoldable pub put_string : (k : ℕ) → List ℕ → Editor → Editor
put_string k [] s = s
put_string k (c ∷ str) s = put_string (suc k) str (put_cell (s.curr_pntr + k) c Flag.quoted_one s)

-- The same in overstrike mode, where each character is echoed.
unfoldable pub strike_string : (k : ℕ) → List ℕ → Editor → Editor
strike_string k [] s = s
strike_string k (c ∷ str) s =
    strike_string (suc k) str (myputchar c (put_cell (s.curr_pntr + k) c Flag.quoted_one s))

-- What the kinds IMMEDIATE and DELAYED do alike. In insert mode `buff_pntr` grows twice.
unfoldable pub type_string : List ℕ → Editor → Editor
type_string str s =
    let amount = length str in
    let t =
      if s.ins_mode
      then s
        ▷ open_gap amount
        ▷ put_string 0 str
        ▷ ins_print s.curr_pntr (amount + 1)
        ▷ lengthen amount
      else strike_string 0 str s in
    record t {
      num_proc = t.num_proc + 6;
      curr_pntr = t.curr_pntr + amount;
      buff_pntr = t.buff_pntr + amount;
    }

-- The characters of `chunk`, in front of what the array held.
unfoldable pub chunk_at : ℕ → List ℕ → ℕ → ℕ
chunk_at i [] d = d
chunk_at zero (c ∷ cs) d = c
chunk_at (suc i) (c ∷ cs) d = chunk_at i cs d

-- One `read(fd, in_buff, MAXLINE)`
abbrev pub read_chunk : List ℕ → Editor → Editor
read_chunk chunk s = record s {
  in_buff = λ i. chunk_at i chunk (s.in_buff i);
  num_read = length chunk;
  fault = s.fault || ltb maxline (length chunk);
}

-- `while ((num_read = read(fd, in_buff, MAXLINE))) do_reading();`
unfoldable pub read_chunks : (do_reading : Editor → Editor) → List (List ℕ) → Editor → Editor
read_chunks do_reading [] s = record s { num_read = 0 }
read_chunks do_reading ([] ∷ chunks) s = record s { num_read = 0 }
read_chunks do_reading ((c ∷ cs) ∷ chunks) s =
    read_chunks do_reading chunks (do_reading (read_chunk (c ∷ cs) s))

module _ (file : EditorFile) (do_reading : Editor → Editor) where
  -- The kind SPECIAL: the line is written to a file, an editor changes the file, and what it holds
  -- then is read as if it were typed, with the echo off.
  unfoldable pub edit_line : Editor → Editor
  edit_line s =
      let text = cells 0 s.buff_pntr s.buff in
      let writes = if file.exists then ltb 0 s.buff_pntr else true in
      let t = if writes then back_up s.buff_pntr s else s in
      let u = t ▷ advance 6 ▷ reset_line in
      read_chunks do_reading (file.edited (if writes then some text else none))
        (record u { echoit = false })

  unfoldable pub handle_function_key : Fkey → Editor → Editor
  handle_function_key key s = elim key.type [
    | delayed ↦ type_string key.str s
    | immediate ↦ send_function_to_child (type_string key.str s)
    | special ↦ edit_line s
  ]

-- `atoi` of two characters. A negative number is 0 here: the callers only test for positive ones.
abbrev pub is_digit : ℕ → Bool
is_digit c = if leb b'0' c then leb c b'9' else false

-- the characters that `atoi` skips
abbrev pub is_skipped : ℕ → Bool
is_skipped c = if c == 0x20 then true else if leb 9 c then leb c 13 else false

unfoldable pub atoi2 : ℕ → ℕ → ℕ
atoi2 a b =
    if is_digit a
    then (if is_digit b then (a - b'0') * 10 + (b - b'0') else a - b'0')
    else if is_digit b
    then (if is_skipped a || a == b'+' then b - b'0' else 0)
    else 0
