-- ===== src/Clef/Line/Screen/Typing.antt =====
-- The insertions of src/lib/edin.c keep the terminal in step with the line.
use mathlib.Core.Path.{subst}
use open_axiom.Prelude.{
  ℕ, ◌+◌, ◌-◌, ◌≤◌, ◌<◌, ◌≡◌, refl, ◌≢◌, List, [], ◌∷◌, ◌++◌, arith, true, false, replicate, ap,
  sym, ◌∙◌, length, ltb, inl, inr, append_assoc, if_true, if_false, Bool-cases,
}
use open_axiom.Prelude.Memory.{At, cells, write_list}
use open_axiom.Prelude.Memory.Laws.{
  At-split, At-join, write_list_out, write_list-At, write_list-frame,
}
use open_axiom.Clef.Key
use open_axiom.Clef.State.{Editor, maxline}
use open_axiom.Clef.Insert.{
  open_gap, take_chars, insert_chars, insert_special, insert_buff_printing, insert_buff_nonprinting,
  move_on, cover, lengthen,
}
use open_axiom.Clef.Line.Glyph.{
  Glyph, plain, control, glyph_width, chars, width, Rep, length-chars, width-append, chars-append,
}
use open_axiom.Clef.Line.Move.{Rep-shift}
use open_axiom.Clef.Line.Echo.{echo}
use open_axiom.Clef.Line.Insert.{
  inserted, ins_print-echo, special, insert_special_lem, insert_buff_printing-Rep,
  insert_buff_nonprinting-Rep,
}
use open_axiom.Clef.Line.Screen.Paint.{Row, feeds, row, feeds-append, feeds_back, feeds_shown}
use open_axiom.Clef.Line.Screen.Edits.{Shows, ShowsRow, AllShown}
use open_axiom.Clef.Line.Screen.Deletions.{row-echo, text_behind}

module _ (l : List Glyph) (g : Glyph) (r : List Glyph) (w : Row) (v : ShowsRow l r w)
    (shown : AllShown (g ∷ r)) where
  typed_runs :
      feeds (chars (g ∷ r) ++ replicate (width r) Key.bkspc) w
      ≡ record { cell = write_list (width l) (chars (g ∷ r)) w.cell; col = width l + glyph_width g }
  typed_runs =
      let back : width l + length (chars (g ∷ r)) - width r ≡ width l + glyph_width g =
        omega (arith, length-chars (g ∷ r)) in
      rw feeds-append (rw (feeds_shown (chars (g ∷ r)) w shown, feeds_back, v.col, back) refl)

  -- The new glyph and the text behind the cursor are printed, and the cursor goes back before it.
  typed : ShowsRow (l ++ g ∷ []) r (feeds (chars (g ∷ r) ++ replicate (width r) Key.bkspc) w)
  typed =
      let m = write_list (width l) (chars (g ∷ r)) w.cell in
      let wide : width l + glyph_width g ≡ width (l ++ g ∷ []) =
        omega (arith, width-append l (g ∷ [])) in
      let run : At m (width l) (chars (g ∷ []) ++ chars r) =
        subst (At m (width l)) (chars-append (g ∷ []) r)
          (write_list-At (width l) (chars (g ∷ r)) w.cell) in
      let both = At-split m (width l) (chars (g ∷ [])) (chars r) run in
      rw typed_runs (record {
        left = rw chars-append (
            At-join m 0 (width l) (chars l) (chars (g ∷ [])) (omega (arith, length-chars l))
              (write_list-frame (width l) (chars (g ∷ r)) w.cell 0 (chars l)
                (omega (arith, length-chars l)) v.left)
              both.0);
        right =
            subst (λ i. At m i (chars r))
              (omega (arith, length-chars (g ∷ []), width-append l (g ∷ []))) both.1;
        rest = λ k le.
            write_list_out (width l) (chars (g ∷ r)) w.cell k
              (inr (omega (arith, length-chars (g ∷ r), wide)))
            ∙ v.rest k (omega (arith, wide));
        col = wide;
      })

-- What `ins_print` writes when the arrays hold the new line.
inserted_lem :
    (l : List Glyph) (g : Glyph) (r : List Glyph) (t : Editor) (start : ℕ)
    → start ≡ width l
    → t.buff_pntr ≡ width l + width r
    → cells (width l) (glyph_width g + width r) t.buff ≡ chars (g ∷ r)
    → inserted start (glyph_width g) t ≡ chars (g ∷ r) ++ replicate (width r) Key.bkspc
inserted_lem l g r t start at_cursor total text =
    let a : t.buff_pntr + glyph_width g - width l ≡ glyph_width g + width r = omega arith in
    let b : t.buff_pntr - width l ≡ width r = omega arith in rw (at_cursor, a, b, text) refl

-- The text of the new line from the glyph on.
text_from :
    (l : List Glyph) (g : Glyph) (r : List Glyph) (t : Editor)
    → Rep (l ++ g ∷ []) r t
    → cells (width l) (glyph_width g + width r) t.buff ≡ chars (g ∷ r)
text_from l g r t h =
    text_behind l (g ∷ r) (record t { curr_pntr = width l })
      (Rep-shift (l ++ g ∷ []) r l (g ∷ r) (append_assoc l (g ∷ []) r) t _ h
        (refl, refl, refl, refl) refl)

module _ (s : Editor) (fits : ltb 1023 (s.buff_pntr + 1) ≡ false) (ins : s.ins_mode ≡ true) where
  printing_inserts : insert_buff_printing 1 s ≡ move_on 1 1 (insert_chars 1 s)
  unfolding insert_buff_printing
  printing_inserts =
      if_false (ltb 1023 (s.buff_pntr + 1)) _ _ fits ∙ ap (move_on 1 1) (if_true s.ins_mode _ _ ins)

  nonprinting_inserts : insert_buff_nonprinting 1 s ≡ cover (move_on 2 1 (insert_special 1 s))
  unfolding insert_buff_nonprinting
  nonprinting_inserts =
      if_false (ltb 1023 (s.buff_pntr + 1)) _ _ fits
      ∙ ap (λ t. cover (move_on 2 1 t)) (if_true s.ins_mode _ _ ins)

insert_chars-echo :
    (s : Editor)
    → insert_chars 1 s
      ≡ (let t = take_chars 0 0 1 (open_gap 1 s) in lengthen 1 (echo (inserted s.curr_pntr 1 t) t))
unfolding insert_chars
insert_chars-echo s = rw ins_print-echo refl

-- insert_buff_printing(1) in insert mode shows the new character at its place in the line, if the
-- line has room for one more cell, the character is not NUL, the echo is on and neither it nor the
-- glyphs behind the cursor hold a backspace or a bell.
pub insert_buff_printing-Shows :
    (l r : List Glyph) (s : Editor)
    → Rep l r s
    → Shows l r s
    → AllShown (plain (s.in_buff s.num_proc) ∷ r)
    → s.ins_mode ≡ true
    → s.in_buff s.num_proc ≢ 0
    → width l + width r + 1 < maxline
    → Shows (l ++ plain (s.in_buff s.num_proc) ∷ []) r (insert_buff_printing 1 s)
unfolding move_on echo take_chars open_gap
insert_buff_printing-Shows l r s h v shown ins nonzero room =
    let fits : ltb 1023 (s.buff_pntr + 1) ≡ false = ground (arith, h.total) in
    let g = plain (s.in_buff s.num_proc) in
    let t = take_chars 0 0 1 (open_gap 1 s) in
    let out = inserted s.curr_pntr 1 t in
    let runs = printing_inserts s fits ins ∙ ap (move_on 1 1) (insert_chars-echo s) in
    let h' = subst (Rep (l ++ g ∷ []) r) runs (insert_buff_printing-Rep l r s h ins nonzero room) in
    let prints = inserted_lem l g r t s.curr_pntr h.cursor h.total (text_from l g r _ h') in
    subst (Shows (l ++ g ∷ []) r) (sym runs) (record {
      on = v.on;
      shows =
          subst (ShowsRow (l ++ g ∷ []) r) (sym (row-echo out t v.on))
            (rw prints (typed l g r (row s.stdout) v.shows shown));
    })

cover-buff : (s : Editor) → (cover s).buff ≡ s.buff
unfolding cover
cover-buff s = ground arith

Shows-cover : (l r : List Glyph) (s : Editor) → Shows l r s → Shows l r (cover s)
unfolding cover
Shows-cover l r s v = elim (Bool-cases (ltb s.buff_pntr s.curr_pntr)) [
  | inl e ↦ rw e (record { on = v.on; shows = v.shows })
  | inr e ↦ rw e v
]

-- insert_buff_nonprinting(1) in insert mode shows the next character of the input, a control
-- character or escape, as two cells at its place in the line, if the line has room for two more
-- cells, the echo is on and the glyphs behind the cursor hold no backspace and no bell.
pub insert_buff_nonprinting-Shows :
    (l r : List Glyph) (s : Editor)
    → Rep l r s
    → Shows l r s
    → AllShown r
    → s.ins_mode ≡ true
    → 1 ≤ s.in_buff s.num_proc
    → s.in_buff s.num_proc ≤ 27
    → width l + width r + 2 < maxline
    → Shows (l ++ control (s.in_buff s.num_proc) ∷ []) r (insert_buff_nonprinting 1 s)
unfolding move_on echo open_gap
insert_buff_nonprinting-Shows l r s h v shown ins lo hi room =
    let fits : ltb 1023 (s.buff_pntr + 1) ≡ false = ground (arith, h.total) in
    let c = s.in_buff s.num_proc in
    let g = control c in
    let t = special (open_gap 2 s) in
    let out = inserted s.curr_pntr 2 t in
    let u = move_on 2 1 (lengthen 2 (echo out t)) in
    let runs =
      nonprinting_inserts s fits ins
      ∙ ap (λ x. cover (move_on 2 1 x)) (insert_special_lem s lo hi) in
    let h' =
      subst (Rep (l ++ g ∷ []) r) runs (insert_buff_nonprinting-Rep l r s h ins lo hi room) in
    let prints = inserted_lem l g r t s.curr_pntr h.cursor h.total (
      subst (λ m. cells (width l) (2 + width r) m ≡ chars (g ∷ r)) (cover-buff u)
        (text_from l g r (cover u) h')) in
    subst (Shows (l ++ g ∷ []) r) (sym runs) (
      Shows-cover (l ++ g ∷ []) r u (record {
        on = v.on;
        shows = subst (ShowsRow (l ++ g ∷ []) r) (sym (row-echo out t v.on)) (
            rw prints (
              typed l g r (row s.stdout) v.shows
                ((omega arith, omega arith), ((omega arith, omega arith), shown))));
      }))
