-- ===== src/Clef/Line/Insert.antt =====
-- The insertions of src/lib/edin.c in insert mode put one glyph before the cursor.
use mathlib.Core.Path.{subst}
use open_axiom.Prelude.{
  ℕ, ◌+◌, ◌-◌, ◌≤◌, ◌<◌, ◌≡◌, refl, List, [], ◌∷◌, ◌++◌, arith, length-append, true, false, ◌==◌,
  ltb, replicate, ==_iff, Bool-cases, inl, inr, ◌∙◌, ◌≢◌,
}
use open_axiom.Prelude.Memory.{Memory, At, store, cells}
use open_axiom.Prelude.Memory.Laws.{
  All, All-append, At-join, At-store_before, At-store_behind, copy_down-At, copy_down-frame,
}
use open_axiom.Clef.Key
use open_axiom.Clef.State.{Flag, Editor, maxline, put_cell, control_char}
use open_axiom.Clef.Print.{ins_print}
use open_axiom.Clef.Insert.{
  open_gap, take_chars, put_special, insert_chars, insert_special, cover, move_on, lengthen,
  insert_buff_printing, insert_buff_nonprinting,
}
use open_axiom.Clef.Line.Glyph.{
  Glyph, plain, control, glyph_width, glyph_chars, glyph_flags, chars, flags, width, Rep,
  HoldsRight, IsGlyph, width-append, chars-append, flags-append, length-chars, length-flags,
}
use open_axiom.Clef.Line.Echo.{echo, put_cells-echo, put_times-echo, echo-echo}

-- The cells of a line with a glyph written between its two parts.
record Opened (l : List Glyph) (n : ℕ) (r : List Glyph) (b : Memory ℕ) (f : Memory Flag)
    : Type 0 where
  chars_left : At b 0 (chars l)
  flags_left : At f 0 (flags l)
  chars_right : At b (width l + n) (chars r ++ 0 ∷ [])
  flags_right : At f (width l + n) (flags r ++ Flag.free ∷ [])

-- `open_gap` makes room for `n` cells at the cursor.
open_gap-Opened :
    (n : ℕ) (l r : List Glyph) (s : Editor)
    → Rep l r s
    → Opened l n r (open_gap n s).buff (open_gap n s).buff_flag
unfolding open_gap
open_gap-Opened n l r s h =
    let num : s.buff_pntr - s.curr_pntr ≡ width r = omega (arith, h.cursor, h.total) in
    rw (num, h.cursor)
      (record {
        chars_left =
            copy_down-frame s.buff (width l + n) (width l) (width r) 0 (chars l) (omega arith)
              (omega (arith, length-chars l)) h.chars_left;
        flags_left =
            copy_down-frame s.buff_flag (width l + n) (width l) (width r) 0 (flags l) (omega arith)
              (omega (arith, length-flags l)) h.flags_left;
        chars_right =
            copy_down-At s.buff (width l + n) (width l) (width r) (chars r ++ 0 ∷ []) (omega arith)
              (omega (arith, length-append (chars r) (0 ∷ []), length-chars r)) h.right.0;
        flags_right =
            copy_down-At s.buff_flag (width l + n) (width l) (width r) (flags r ++ Flag.free ∷ [])
              (omega arith)
              (omega (arith, length-append (flags r) (Flag.free ∷ []), length-flags r)) h.right.1;
      })

-- A write in the gap leaves the two parts.
Opened-store :
    (l : List Glyph) (n : ℕ) (r : List Glyph) (b : Memory ℕ) (f : Memory Flag) (i : ℕ) (c : ℕ)
    (v : Flag)
    → width l ≤ i
    → i < width l + n
    → Opened l n r b f
    → Opened l n r (store b i c) (store f i v)
Opened-store l n r b f i c v lo hi h = record {
  chars_left = At-store_behind b 0 i c (chars l) (omega (arith, length-chars l)) h.chars_left;
  flags_left = At-store_behind f 0 i v (flags l) (omega (arith, length-flags l)) h.flags_left;
  chars_right = At-store_before b (width l + n) i c (chars r ++ 0 ∷ []) hi h.chars_right;
  flags_right = At-store_before f (width l + n) i v (flags r ++ Flag.free ∷ []) hi h.flags_right;
}

Rep-insert :
    (l : List Glyph) (g : Glyph) (r : List Glyph) (s : Editor)
    → Opened l (glyph_width g) r s.buff s.buff_flag
    → At s.buff (width l) (glyph_chars g ++ []) × At s.buff_flag (width l) (glyph_flags g ++ [])
    → IsGlyph g
    → All IsGlyph l × All IsGlyph r
    → s.curr_pntr ≡ width l + glyph_width g
    → s.buff_pntr ≡ width l + glyph_width g + width r
    → width l + glyph_width g + width r < maxline
    → s.fault ≡ false
    → Rep (l ++ g ∷ []) r s
Rep-insert l g r s o (hc, hf) good (good_left, good_right) cur tot room ok =
    let w : width l + glyph_width g ≡ width (l ++ g ∷ []) =
      omega (arith, width-append l (g ∷ [])) in
    record {
      chars_left = rw chars-append (
          At-join s.buff 0 (width l) (chars l) (chars (g ∷ [])) (omega (arith, length-chars l))
            o.chars_left hc);
      flags_left = rw flags-append (
          At-join s.buff_flag 0 (width l) (flags l) (flags (g ∷ [])) (omega (arith, length-flags l))
            o.flags_left hf);
      right = subst (λ i. HoldsRight i r s) w (o.chars_right, o.flags_right);
      cursor = cur ∙ w;
      total = omega (arith, tot, w);
      room = omega (arith, room, w);
      glyphs_left = All-append IsGlyph l (g ∷ []) good_left (good, tt);
      glyphs_right = good_right;
      no_fault = ok;
    }

-- What `ins_print` writes.
abbrev pub inserted : (start num : ℕ) → Editor → List ℕ
inserted start num s =
    cells start (s.buff_pntr + num - start) s.buff ++ replicate (s.buff_pntr - start) Key.bkspc

pub ins_print-echo :
    (start num : ℕ) (s : Editor) → ins_print start num s ≡ echo (inserted start num s) s
unfolding ins_print
ins_print-echo start num s = rw (put_cells-echo, put_times-echo, echo-echo)

-- insert_buff_printing(1) in insert mode puts the next character of the input before the cursor, if
-- it is not NUL and the line has room for one more cell.
pub insert_buff_printing-Rep :
    (l r : List Glyph) (s : Editor)
    → Rep l r s
    → s.ins_mode ≡ true
    → s.in_buff s.num_proc ≢ 0
    → width l + width r + 1 < maxline
    → Rep (l ++ plain (s.in_buff s.num_proc) ∷ []) r (insert_buff_printing 1 s)
unfolding insert_buff_printing insert_chars move_on echo take_chars open_gap
insert_buff_printing-Rep l r s h ins nonzero room =
    let fits : ltb 1023 (s.buff_pntr + 1) ≡ false = ground (arith, h.total) in
    simp (fits, ins, ins_print-echo)
      (Rep-insert l (plain (s.in_buff s.num_proc)) r _
        (Opened-store l 1 r _ _ _ _ _ (omega (arith, h.cursor)) (omega (arith, h.cursor))
          (open_gap-Opened 1 l r s h))
        ((ground arith, tt), (ground arith, tt)) nonzero (h.glyphs_left, h.glyphs_right)
        (omega (arith, h.cursor)) (omega (arith, h.total)) (omega arith)
        (ground (arith, h.total, h.cursor, h.no_fault)))

-- A control character or escape is shown by a caret and the letter 64 places on.
put_special_lem :
    (s : Editor)
    → 1 ≤ s.in_buff s.num_proc
    → s.in_buff s.num_proc ≤ 27
    → put_special s
      ≡ put_cell
          (s.curr_pntr + 1)
          (s.in_buff s.num_proc + 0x40)
          Flag.tail
          (put_cell s.curr_pntr Key.carrot Flag.lead s)
unfolding put_special
put_special_lem s lo hi = elim (Bool-cases (s.in_buff s.num_proc == 27)) [
  | inl e ↦ let is : s.in_buff s.num_proc ≡ 27 = (==_iff _ _).0 e in rw is refl
  | inr e ↦ let is : control_char (s.in_buff s.num_proc) ≡ true = ground arith in simp (e, is) refl
]

Rep-cover : (l r : List Glyph) (s : Editor) → Rep l r s → Rep l r (cover s)
unfolding cover
Rep-cover l r s h =
    let e : ltb s.buff_pntr s.curr_pntr ≡ false = ground (arith, h.cursor, h.total) in rw e h

-- The cells that `insert_special` writes.
abbrev pub special : Editor → Editor
special t =
    put_cell (t.curr_pntr + 1) (t.in_buff t.num_proc + 0x40) Flag.tail
      (put_cell t.curr_pntr Key.carrot Flag.lead t)

pub insert_special_lem :
    (s : Editor)
    → 1 ≤ s.in_buff s.num_proc
    → s.in_buff s.num_proc ≤ 27
    → insert_special 1 s
      ≡ (let t = special (open_gap 2 s) in lengthen 2 (echo (inserted s.curr_pntr 2 t) t))
unfolding insert_special take_chars open_gap
insert_special_lem s lo hi = rw (put_special_lem (open_gap 2 s) lo hi, ins_print-echo)

-- insert_buff_nonprinting(1) in insert mode puts the next character of the input, a control
-- character or escape, before the cursor, if the line has room for two more cells.
pub insert_buff_nonprinting-Rep :
    (l r : List Glyph) (s : Editor)
    → Rep l r s
    → s.ins_mode ≡ true
    → 1 ≤ s.in_buff s.num_proc
    → s.in_buff s.num_proc ≤ 27
    → width l + width r + 2 < maxline
    → Rep (l ++ control (s.in_buff s.num_proc) ∷ []) r (insert_buff_nonprinting 1 s)
unfolding insert_buff_nonprinting echo move_on open_gap
insert_buff_nonprinting-Rep l r s h ins lo hi room =
    let fits : ltb 1023 (s.buff_pntr + 1) ≡ false = ground (arith, h.total) in
    let c = s.in_buff s.num_proc in
    simp (fits, ins, insert_special_lem s lo hi)
      (Rep-cover (l ++ control c ∷ []) r _ (
        Rep-insert l (control c) r _
          (Opened-store l 2 r _ _ _ _ _ (omega (arith, h.cursor)) (omega (arith, h.cursor)) (
            Opened-store l 2 r _ _ _ _ _ (omega (arith, h.cursor)) (omega (arith, h.cursor))
              (open_gap-Opened 2 l r s h)))
          ((ground arith, (ground arith, tt)), (ground arith, (ground arith, tt))) (lo, hi)
          (h.glyphs_left, h.glyphs_right) (omega (arith, h.cursor)) (omega (arith, h.total))
          (omega arith) (ground (arith, h.total, h.cursor, h.no_fault))))
