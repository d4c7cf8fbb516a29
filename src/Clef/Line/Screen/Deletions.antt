-- ===== src/Clef/Line/Screen/Deletions.antt =====
-- The deletions of src/lib/prt.c keep the terminal in step with the line.
use mathlib.Core.Path.{subst}
use open_axiom.Prelude.{
  ℕ, ◌+◌, ◌-◌, ◌≡◌, refl, List, [], ◌∷◌, ◌++◌, arith, true, false, ◌==◌, replicate, ap, sym, ◌∙◌,
}
use open_axiom.Prelude.Memory.{cells}
use open_axiom.Prelude.Memory.Laws.{At-split, cells_At}
use open_axiom.Clef.Key
use open_axiom.Clef.State.{Editor, advance, step_back}
use open_axiom.Clef.Print.{
  close_gap, remove_cells, rub_out, delete_current_char, back_over_current_char,
}
use open_axiom.Clef.Line.Glyph.{
  Glyph, plain, control, glyph_width, chars, width, Rep, length-chars, not_at_end, flag_at_cursor,
  flag_before_cursor, cursor_after, width-append, chars-append,
}
use open_axiom.Clef.Line.Echo.{echo}
use open_axiom.Clef.Line.Delete.{
  reprinted, blanked, rubbed, shut_gap, remove_cells_lem, rub_out_lem, remove_cells-Rep,
  rub_out-Rep,
}
use open_axiom.Clef.Line.Screen.Paint.{feeds, row, row-onto, feeds-append}
use open_axiom.Clef.Line.Screen.Edits.{
  Shows, ShowsRow, AllShown, Before, blank_out-Before, back-Before, redraw-Before,
}

pub row-echo :
    (cs : List ℕ) (s : Editor) → s.echoit ≡ true → row (echo cs s).stdout ≡ feeds cs (row s.stdout)
unfolding echo
row-echo cs s on = rw (on, row-onto) refl

-- The text behind the cursor of a line.
pub text_behind :
    (l r : List Glyph) (s : Editor) → Rep l r s → cells (width l) (width r) s.buff ≡ chars r
text_behind l r s h =
    let p =
      cells_At s.buff (width l) (chars r)
        (At-split s.buff (width l) (chars r) (0 ∷ []) h.right.0).0 in
    rw length-chars at p

pub row-echo-echo :
    (cs ds : List ℕ) (s t : Editor)
    → s.echoit ≡ true
    → t.echoit ≡ s.echoit
    → t.stdout ≡ (echo cs s).stdout
    → row (echo ds t).stdout ≡ feeds ds (feeds cs (row s.stdout))
row-echo-echo cs ds s t on same out =
    row-echo ds t (same ∙ on) ∙ rw out (ap (feeds ds) (row-echo cs s on))

-- What `del_print` writes when the arrays hold the line `l`, `r`.
reprinted_lem :
    (l r : List Glyph) (n start : ℕ) (t : Editor)
    → start ≡ width l
    → cells (width l) (width r) t.buff ≡ chars r
    → t.buff_pntr ≡ width l + width r
    → reprinted start n t ≡ chars r ++ (replicate n Key.blank ++ replicate (width r + n) Key.bkspc)
reprinted_lem l r n start t at_cursor text total =
    let a : t.buff_pntr - width l ≡ width r = omega arith in
    let b : t.buff_pntr + n - width l ≡ width r + n = omega arith in rw (at_cursor, a, b, text) refl

module _ (l : List Glyph) (g : Glyph) (r : List Glyph) (s : Editor) (shown : AllShown r) where
  -- The glyph behind the cursor goes from the screen too.
  remove_cells-Shows :
      Rep l (g ∷ r) s → Shows l (g ∷ r) s → Shows l r (remove_cells (glyph_width g) s)
  unfolding echo close_gap
  remove_cells-Shows h v =
      let n = glyph_width g in
      let t = shut_gap s.curr_pntr (s.curr_pntr + n) n (echo (blanked n) s) in
      let out = reprinted s.curr_pntr n t in
      let h' : Rep l r (echo out t) = rw remove_cells_lem at (remove_cells-Rep l g r s h) in
      let prints =
        reprinted_lem l r n s.curr_pntr t h.cursor (text_behind l r (echo out t) h') h'.total in
      let before : Before l (width l + width r + n) (row s.stdout) = record {
        left = v.shows.left;
        rest = λ k le. v.shows.rest k (omega arith);
        col = v.shows.col;
      } in
      rw remove_cells_lem (record {
        on = v.on;
        shows = subst (ShowsRow l r) (sym (row-echo-echo (blanked n) out s t v.on refl refl)) (
            rw prints (
              redraw-Before l r n _ shown
                (blank_out-Before l (width l + width r + n) n (row s.stdout) before)));
      })

  -- The glyph before the cursor goes from the screen too.
  rub_out-Shows :
      Rep (l ++ g ∷ []) r s → Shows (l ++ g ∷ []) r s → Shows l r (rub_out (glyph_width g) s)
  unfolding echo close_gap
  rub_out-Shows h v =
      let n = glyph_width g in
      let t = step_back n (shut_gap (s.curr_pntr - n) s.curr_pntr n (echo (rubbed n) s)) in
      let out = reprinted (s.curr_pntr - n) n t in
      let h' : Rep l r (echo out t) = rw rub_out_lem at (rub_out-Rep l g r s h) in
      let cur : s.curr_pntr - n ≡ width l = omega (arith, cursor_after l g r s h) in
      let prints =
        reprinted_lem l r n (s.curr_pntr - n) t cur (text_behind l r (echo out t) h') h'.total in
      let w : width (l ++ g ∷ []) ≡ width l + n = omega (arith, width-append l (g ∷ [])) in
      let before =
        back-Before l (width l + width r + n) n (row s.stdout)
          (At-split (row s.stdout).cell 0 (chars l) (chars (g ∷ []))
            (rw chars-append at v.shows.left)).0
          (λ k le. v.shows.rest k (omega arith)) (v.shows.col ∙ w) in
      rw rub_out_lem (record {
        on = v.on;
        shows = subst (ShowsRow l r) (sym (row-echo-echo (rubbed n) out s t v.on refl refl)) (
            rw (prints, feeds-append (replicate n Key.bkspc) (blanked n) (row s.stdout))
              (redraw-Before l r n _ shown
                (blank_out-Before l (width l + width r + n) n _ before)));
      })

Shows-advance : (n : ℕ) (l r : List Glyph) (s : Editor) → Shows l r s → Shows l r (advance n s)
Shows-advance n l r s v = record { on = v.on; shows = v.shows }

-- delete_current_char with the cursor on a glyph removes it from the screen as from the line, if
-- the echo is on and the glyphs behind the cursor hold no backspace and no bell.
pub delete_current_char-Shows :
    (l : List Glyph) (g : Glyph) (r : List Glyph) (s : Editor)
    → AllShown r
    → Rep l (g ∷ r) s
    → Shows l (g ∷ r) s
    → Shows l r (delete_current_char s)
unfolding delete_current_char
delete_current_char-Shows l (plain c) r s shown h v =
    rw (not_at_end l (plain c) r s h, flag_at_cursor l (plain c) r s h)
      (Shows-advance 3 l r (remove_cells 1 s) (remove_cells-Shows l (plain c) r s shown h v))
delete_current_char-Shows l (control c) r s shown h v =
    rw (not_at_end l (control c) r s h, flag_at_cursor l (control c) r s h)
      (Shows-advance 3 l r (remove_cells 2 s) (remove_cells-Shows l (control c) r s shown h v))

-- back_over_current_char with a glyph before the cursor removes it from the screen as from the
-- line, if the echo is on and the glyphs behind the cursor hold no backspace and no bell.
pub back_over_current_char-Shows :
    (l : List Glyph) (g : Glyph) (r : List Glyph) (s : Editor)
    → AllShown r
    → Rep (l ++ g ∷ []) r s
    → Shows (l ++ g ∷ []) r s
    → Shows l r (back_over_current_char s)
unfolding back_over_current_char
back_over_current_char-Shows l (plain c) r s shown h v =
    let at_zero : (s.curr_pntr == 0) ≡ false = ground (arith, cursor_after l (plain c) r s h) in
    rw (at_zero, flag_before_cursor l (plain c) r s h) (rub_out-Shows l (plain c) r s shown h v)
back_over_current_char-Shows l (control c) r s shown h v =
    let at_zero : (s.curr_pntr == 0) ≡ false = ground (arith, cursor_after l (control c) r s h) in
    rw (at_zero, flag_before_cursor l (control c) r s h) (rub_out-Shows l (control c) r s shown h v)
