-- ===== src/Clef/Line/Bounds.antt =====
-- How long a line may be, and how it is cleared (src/lib/edin.c, src/lib/prt.c).
use mathlib.Core.Path.{subst}
use open_axiom.Prelude.{
  ℕ, ◌+◌, ◌≤◌, ◌≡◌, refl, ap, sym, ◌∙◌, true, false, List, [], ◌∷◌, arith, ltb, ◌==◌, Bool-cases,
  inl, inr, if_true, replicate,
}
use open_axiom.Prelude.Memory.Laws.{fill_lem}
use open_axiom.Clef.Key
use open_axiom.Clef.State.{Flag, Editor, maxline}
use open_axiom.Clef.Print.{back_it_up, delete_line, wipe}
use open_axiom.Clef.Lines.{init_reader, finish_line, reset_line, save_nonempty, send_line_to_child}
use open_axiom.Clef.Line.Queue.{insert_queue-OnlyRing}
use open_axiom.Clef.Insert.{
  insert_buff_nonprinting, insert_special, put_special, open_gap, take_chars, move_on, cover,
}
use open_axiom.Clef.Line.Glyph.{Glyph, width, Rep, glyph_width_pos}
use open_axiom.Clef.Line.Echo.{echo, put_times-echo}
use open_axiom.Clef.Line.Insert.{ins_print-echo}

width_zero : (gs : List Glyph) → width gs ≡ 0 → gs ≡ []
width_zero [] e = refl
width_zero (g ∷ gs) e = absurd (omega (arith, e, glyph_width_pos g))

-- delete_line leaves an empty line, whatever the line was.
pub delete_line-Rep : (l r : List Glyph) (s : Editor) → Rep l r s → Rep [] [] (delete_line s)
unfolding delete_line wipe echo
delete_line-Rep l r s h = elim (Bool-cases (s.buff_pntr == 0)) [
  | inl e ↦
      subst (Rep [] []) (sym (if_true (s.buff_pntr == 0) s _ e))
        (rw (width_zero l (ground (arith, h.total)), width_zero r (ground (arith, h.total))) at h)
  | inr e ↦
      simp (e, put_times-echo)
        (record {
          chars_left = tt;
          flags_left = tt;
          right = (
            (ground (arith, fill_lem 0 s.buff_pntr 0 s.buff 0), tt),
            (ground (arith, fill_lem 0 s.buff_pntr Flag.free s.buff_flag 0), tt),
          );
          cursor = refl;
          total = refl;
          room = omega arith;
          glyphs_left = tt;
          glyphs_right = tt;
          no_fault = h.no_fault;
        })
]

-- init_reader, where the first cell of buff is NUL and there is no fault, gives an empty line.
pub init_reader-Rep : (s : Editor) → s.buff 0 ≡ 0 → s.fault ≡ false → Rep [] [] (init_reader s)
unfolding init_reader
init_reader-Rep s zeroed clean = record {
  chars_left = tt;
  flags_left = tt;
  right = ((ground arith, tt), (ground (arith, fill_lem 0 maxline Flag.free s.buff_flag 0), tt));
  cursor = refl;
  total = refl;
  room = omega arith;
  glyphs_left = tt;
  glyphs_right = tt;
  no_fault = clean;
}

put_special-fault : (s : Editor) → s.fault ≡ true → (put_special s).fault ≡ true
unfolding put_special
put_special-fault s h = ground arith

insert_special-fault :
    (s : Editor)
    → s.curr_pntr ≤ s.buff_pntr
    → s.buff_pntr ≡ 1022
    → (insert_special 1 s).fault ≡ true
unfolding insert_special take_chars echo open_gap
insert_special-fault s inside full =
    rw ins_print-echo (put_special-fault (open_gap 2 s) (ground arith))

cover-fault : (s : Editor) → (cover s).fault ≡ s.fault
unfolding cover
cover-fault s = ground arith

-- insert_buff_nonprinting(1) in insert mode on a line of 1022 cells leaves the array.
pub insert_buff_nonprinting-fault :
    (l r : List Glyph) (s : Editor)
    → Rep l r s
    → s.ins_mode ≡ true
    → width l + width r ≡ 1022
    → (insert_buff_nonprinting 1 s).fault ≡ true
unfolding insert_buff_nonprinting move_on
insert_buff_nonprinting-fault l r s h ins full =
    let fits : ltb 1023 (s.buff_pntr + 1) ≡ false = ground (arith, h.total) in
    let bad = insert_special-fault s (omega (arith, h.cursor, h.total)) (omega (arith, h.total)) in
    simp (fits, ins, cover-fault) bad

finish_line-fault :
    (c : ℕ) (s : Editor) → s.buff_pntr ≡ 1023 → (finish_line c Flag.free s).fault ≡ true
unfolding finish_line
finish_line-fault c s full = ground arith

buff_pntr-save_nonempty : (s : Editor) → (save_nonempty s).buff_pntr ≡ s.buff_pntr
buff_pntr-save_nonempty s = elim (Bool-cases (s.buff_pntr == 0)) [
  | inl e ↦ simp e refl
  | inr e ↦ simp e (ap (λ (t : Editor). t.buff_pntr) (insert_queue-OnlyRing s))
]

-- send_line_to_child on a line of 1023 cells leaves the array.
pub send_line_to_child-fault :
    (l r : List Glyph) (s : Editor)
    → Rep l r s
    → width l + width r ≡ 1023
    → (send_line_to_child s).fault ≡ true
unfolding send_line_to_child back_it_up echo reset_line wipe
send_line_to_child-fault l r s h full =
    let t = echo (replicate s.curr_pntr Key.bkspc) s in
    rw put_times-echo (
      finish_line-fault (s.in_buff s.num_proc) (save_nonempty t)
        (buff_pntr-save_nonempty t ∙ h.total ∙ full))
