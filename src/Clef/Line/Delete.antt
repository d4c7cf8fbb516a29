-- ===== src/Clef/Line/Delete.antt =====
-- About the deletions of src/lib/prt.c.
use open_axiom.Prelude.{
  ℕ, ◌+◌, ◌-◌, ◌≤◌, ◌<◌, ◌≡◌, refl, List, [], ◌∷◌, ◌++◌, arith, false, ◌==◌, replicate,
}
use open_axiom.Prelude.Memory.{At, cells}
use open_axiom.Clef.Key
use open_axiom.Prelude.Memory.Laws.{All, All-split, slide-At, slide-frame, slide-stops}
use open_axiom.Clef.State.{Flag, is_free, Editor, maxline, shrink, step_back}
use open_axiom.Clef.Print.{
  close_gap, remove_cells, rub_out, del_print, delete_current_char, back_over_current_char,
}
use open_axiom.Clef.Line.Glyph.{
  Glyph, plain, control, glyph_width, chars, flags, width, Rep, HoldsRight, HoldsRight-tail,
  chars_before, flags_before, cursor_after, flag_before_cursor, Rep-advance, not_at_end,
  flag_at_cursor, width-append, length-chars, length-flags, glyph_width_pos, chars_no_nul,
  flags_not_free, IsGlyph,
}
use open_axiom.Clef.Line.Echo.{echo, put_cells-echo, put_times-echo, echo-echo}

-- `close_gap` moves the cells from `from` on to the lower place `to`, and leaves those before.
module _ (to from : ℕ) (l r : List Glyph) (s : Editor) (down : to < from)
    (room : from + width r < maxline) (good : All IsGlyph r) (right : HoldsRight from r s) where
  close_gap-right : HoldsRight to r (close_gap to from s)
  unfolding close_gap
  close_gap-right = (
    slide-At s.buff to from (λ c. c == 0) (maxline - from) (chars r) 0 down
        (omega (arith, length-chars r)) (chars_no_nul r good) refl right.0,
    slide-At s.buff_flag to from is_free (maxline - from) (flags r) Flag.free down
        (omega (arith, length-flags r)) (flags_not_free r) refl right.1,
  )

  close_gap-left :
      width l ≤ to
      → At s.buff 0 (chars l)
      → At s.buff_flag 0 (flags l)
      → At (close_gap to from s).buff 0 (chars l) × At (close_gap to from s).buff_flag 0 (flags l)
  unfolding close_gap
  close_gap-left le hc hf = (
    slide-frame s.buff to from (λ c. c == 0) (maxline - from) (chars r) 0 down
        (omega (arith, length-chars r)) (chars_no_nul r good) refl right.0 0 (chars l)
        (omega (arith, length-chars l)) hc,
    slide-frame s.buff_flag to from is_free (maxline - from) (flags r) Flag.free down
        (omega (arith, length-flags r)) (flags_not_free r) refl right.1 0 (flags l)
        (omega (arith, length-flags l)) hf,
  )

  close_gap-fault : s.fault ≡ false → (close_gap to from s).fault ≡ false
  unfolding close_gap
  close_gap-fault ok =
      rw
        (
          ok,
          slide-stops s.buff to from (λ c. c == 0) (maxline - from) (chars r) 0 down
              (omega (arith, length-chars r)) (chars_no_nul r good) refl right.0,
          slide-stops s.buff_flag to from is_free (maxline - from) (flags r) Flag.free down
              (omega (arith, length-flags r)) (flags_not_free r) refl right.1,
        )
        refl

-- What `del_print` writes.
abbrev pub reprinted : (start num : ℕ) → Editor → List ℕ
reprinted start num s =
    cells start (s.buff_pntr - start) s.buff
    ++ (replicate num Key.blank ++ replicate (s.buff_pntr + num - start) Key.bkspc)

del_print-echo :
    (start num : ℕ) (s : Editor) → del_print start num s ≡ echo (reprinted start num s) s
unfolding del_print
del_print-echo start num s =
    rw (put_cells-echo, put_times-echo, put_times-echo, echo-echo, echo-echo)

-- What `remove_cells` writes before the arrays change.
abbrev pub blanked : ℕ → List ℕ
blanked n = replicate n Key.blank ++ replicate n Key.bkspc

abbrev pub shut_gap : (to from n : ℕ) → Editor → Editor
shut_gap to from n s = shrink n (close_gap to from s)

pub remove_cells_lem :
    (n : ℕ) (s : Editor)
    → remove_cells n s ≡ (
        let t = shut_gap s.curr_pntr (s.curr_pntr + n) n (echo (blanked n) s) in
        echo (reprinted s.curr_pntr n t) t)
unfolding remove_cells
remove_cells_lem n s = rw (put_times-echo, put_times-echo, echo-echo, del_print-echo)

-- What `rub_out` writes before the arrays change.
abbrev pub rubbed : ℕ → List ℕ
rubbed n = replicate n Key.bkspc ++ (replicate n Key.blank ++ replicate n Key.bkspc)

pub rub_out_lem :
    (n : ℕ) (s : Editor)
    → rub_out n s ≡ (
        let t = step_back n (shut_gap (s.curr_pntr - n) s.curr_pntr n (echo (rubbed n) s)) in
        echo (reprinted (s.curr_pntr - n) n t) t)
unfolding rub_out
rub_out_lem n s =
    rw (put_times-echo, put_times-echo, put_times-echo, echo-echo, echo-echo, del_print-echo)

-- The glyph at the cursor goes.
pub remove_cells-Rep :
    (l : List Glyph) (g : Glyph) (r : List Glyph) (s : Editor)
    → Rep l (g ∷ r) s
    → Rep l r (remove_cells (glyph_width g) s)
unfolding echo close_gap
remove_cells-Rep l g r s h =
    let n = glyph_width g in
    let pos : 0 < n = glyph_width_pos g in
    let right = HoldsRight-tail (width l) g r s h.right in
    let down : width l < width l + n = omega arith in
    let room : width l + n + width r < maxline = omega (arith, h.room) in
    let left =
      close_gap-left (width l) (width l + n) l r s down room h.glyphs_right.1 right (omega arith)
        h.chars_left h.flags_left in
    rw (remove_cells_lem, h.cursor)
      (record {
        chars_left = left.0;
        flags_left = left.1;
        right = close_gap-right (width l) (width l + n) l r s down room h.glyphs_right.1 right;
        cursor = refl;
        total = omega (arith, h.total);
        room = omega (arith, h.room);
        glyphs_left = h.glyphs_left;
        glyphs_right = h.glyphs_right.1;
        no_fault = ground (
          arith,
          close_gap-fault (width l) (width l + n) l r s down room h.glyphs_right.1 right h.no_fault,
          h.total,
        );
      })

-- delete_current_char with the cursor on a glyph removes this glyph from the line.
pub delete_current_char-Rep :
    (l : List Glyph) (g : Glyph) (r : List Glyph) (s : Editor)
    → Rep l (g ∷ r) s
    → Rep l r (delete_current_char s)
unfolding delete_current_char
delete_current_char-Rep l (plain c) r s h =
    rw (not_at_end l (plain c) r s h, flag_at_cursor l (plain c) r s h)
      (Rep-advance 3 l r (remove_cells 1 s) (remove_cells-Rep l (plain c) r s h))
delete_current_char-Rep l (control c) r s h =
    rw (not_at_end l (control c) r s h, flag_at_cursor l (control c) r s h)
      (Rep-advance 3 l r (remove_cells 2 s) (remove_cells-Rep l (control c) r s h))

module _ (l : List Glyph) (g : Glyph) (r : List Glyph) (s : Editor)
    (h : Rep (l ++ g ∷ []) r s) where
  -- The glyph before the cursor goes.
  pub rub_out-Rep : Rep l r (rub_out (glyph_width g) s)
  unfolding echo close_gap
  rub_out-Rep =
      let n = glyph_width g in
      let pos : 0 < n = glyph_width_pos g in
      let w : width (l ++ g ∷ []) ≡ width l + n = omega (arith, width-append l (g ∷ [])) in
      let right : HoldsRight (width l + n) r s = rw (← w) h.right in
      let down : width l < width l + n = omega arith in
      let room : width l + n + width r < maxline = omega (arith, h.room) in
      let left =
        close_gap-left (width l) (width l + n) l r s down room h.glyphs_right right (omega arith)
          (chars_before l g r s h).0 (flags_before l g r s h).0 in
      let cur : s.curr_pntr ≡ width l + n = cursor_after l g r s h in
      let back : width l + n - n ≡ width l = omega arith in
      rw (rub_out_lem, cur, back)
        (record {
          chars_left = left.0;
          flags_left = left.1;
          right = close_gap-right (width l) (width l + n) l r s down room h.glyphs_right right;
          cursor = refl;
          total = omega (arith, h.total);
          room = omega (arith, h.room);
          glyphs_left = (All-split IsGlyph l (g ∷ []) h.glyphs_left).0;
          glyphs_right = h.glyphs_right;
          no_fault = ground (
            arith,
            close_gap-fault (width l) (width l + n) l r s down room h.glyphs_right right h.no_fault,
            h.total,
          );
        })

-- back_over_current_char with a glyph before the cursor removes this glyph from the line.
pub back_over_current_char-Rep :
    (l : List Glyph) (g : Glyph) (r : List Glyph) (s : Editor)
    → Rep (l ++ g ∷ []) r s
    → Rep l r (back_over_current_char s)
unfolding back_over_current_char
back_over_current_char-Rep l (plain c) r s h =
    let at_zero : (s.curr_pntr == 0) ≡ false = ground (arith, cursor_after l (plain c) r s h) in
    rw (at_zero, flag_before_cursor l (plain c) r s h) (rub_out-Rep l (plain c) r s h)
back_over_current_char-Rep l (control c) r s h =
    let at_zero : (s.curr_pntr == 0) ≡ false = ground (arith, cursor_after l (control c) r s h) in
    rw (at_zero, flag_before_cursor l (control c) r s h) (rub_out-Rep l (control c) r s h)
