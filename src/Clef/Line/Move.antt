-- ===== src/Clef/Line/Move.antt =====
-- The cursor moves of src/lib/prt.c go over one glyph, or to an end of the line.
use mathlib.Core.Path.{subst}
use open_axiom.Prelude.{
  ◌+◌, ◌≡◌, refl, List, [], ◌∷◌, ◌++◌, arith, length, false, ◌==◌, ap, sym, append_assoc,
  append-nil, ltb, ◌∙◌, Bool-cases, inl, inr,
}
use open_axiom.Prelude.Memory.{At}
use open_axiom.Prelude.Memory.Laws.{All, All-append, All-split, At-join, At-split}
use open_axiom.Clef.State.{Flag, Editor}
use open_axiom.Clef.Print.{move_ahead, move_back, move_home, move_end}
use open_axiom.Clef.Line.Glyph.{
  Glyph, plain, control, chars, flags, width, Rep, IsGlyph, not_at_end, flag_at_cursor,
  flag_before_cursor, cursor_after, width-append, chars-append, flags-append, length-chars,
  length-flags,
}
use open_axiom.Clef.Line.Echo.{echo, myputchar-echo, put_times-echo, put_cells-echo}

-- The arrays, the length of the line and the fault mark are the same.
abbrev pub SameLine : Editor → Editor → Type 0
SameLine s t =
    (t.buff ≡ s.buff)
    × (t.buff_flag ≡ s.buff_flag)
    × (t.buff_pntr ≡ s.buff_pntr)
    × (t.fault ≡ s.fault)

module _ (l r l' r' : List Glyph) (same : l ++ r ≡ l' ++ r') where
  chars_same : chars l ++ chars r ≡ chars l' ++ chars r'
  chars_same = sym (chars-append l r) ∙ ap chars same ∙ chars-append l' r'

  flags_same : flags l ++ flags r ≡ flags l' ++ flags r'
  flags_same = sym (flags-append l r) ∙ ap flags same ∙ flags-append l' r'

  width_same : width l + width r ≡ width l' + width r'
  width_same = sym (width-append l r) ∙ ap width same ∙ width-append l' r'

  module _ (s t : Editor) (h : Rep l r s) where
    chars_again : At s.buff 0 (chars l') × At s.buff (width l') (chars r' ++ 0 ∷ [])
    chars_again =
        let whole : At s.buff 0 (chars l ++ (chars r ++ 0 ∷ [])) =
          At-join s.buff 0 (width l) (chars l) (chars r ++ 0 ∷ []) (omega (arith, length-chars l))
            h.chars_left h.right.0 in
        let e : 0 + length (chars l') ≡ width l' = omega (arith, length-chars l') in
        let again : At s.buff 0 (chars l' ++ (chars r' ++ 0 ∷ [])) =
          subst (At s.buff 0)
            (sym (append_assoc (chars l) (chars r) (0 ∷ []))
              ∙ ap (λ cs. cs ++ 0 ∷ []) chars_same
              ∙ append_assoc (chars l') (chars r') (0 ∷ []))
            whole in
        rw e at (At-split s.buff 0 (chars l') (chars r' ++ 0 ∷ []) again)

    flags_again :
        At s.buff_flag 0 (flags l') × At s.buff_flag (width l') (flags r' ++ Flag.free ∷ [])
    flags_again =
        let whole : At s.buff_flag 0 (flags l ++ (flags r ++ Flag.free ∷ [])) =
          At-join s.buff_flag 0 (width l) (flags l) (flags r ++ Flag.free ∷ [])
            (omega (arith, length-flags l)) h.flags_left h.right.1 in
        let e : 0 + length (flags l') ≡ width l' = omega (arith, length-flags l') in
        let again : At s.buff_flag 0 (flags l' ++ (flags r' ++ Flag.free ∷ [])) =
          subst (At s.buff_flag 0)
            (sym (append_assoc (flags l) (flags r) (Flag.free ∷ []))
              ∙ ap (λ fs. fs ++ Flag.free ∷ []) flags_same
              ∙ append_assoc (flags l') (flags r') (Flag.free ∷ []))
            whole in
        rw e at (At-split s.buff_flag 0 (flags l') (flags r' ++ Flag.free ∷ []) again)

    -- The same line with the cursor elsewhere.
    pub Rep-shift : SameLine s t → t.curr_pntr ≡ width l' → Rep l' r' t
    Rep-shift (sb, sf, sp, se) e =
        let good : All IsGlyph (l' ++ r') =
          subst (All IsGlyph) same (All-append IsGlyph l r h.glyphs_left h.glyphs_right) in
        let (good_left, good_right) = All-split IsGlyph l' r' good in
        record {
          chars_left = rw sb chars_again.0;
          flags_left = rw sf flags_again.0;
          right = rw (sb, sf) (chars_again.1, flags_again.1);
          cursor = e;
          total = omega (arith, sp, h.total, width_same);
          room = omega (arith, h.room, width_same);
          glyphs_left = good_left;
          glyphs_right = good_right;
          no_fault = rw se h.no_fault;
        }

-- move_ahead with a glyph behind the cursor goes over this glyph.
pub move_ahead-Rep :
    (l : List Glyph) (g : Glyph) (r : List Glyph) (s : Editor)
    → Rep l (g ∷ r) s
    → Rep (l ++ g ∷ []) r (move_ahead s)
unfolding move_ahead echo
move_ahead-Rep l (plain c) r s h =
    rw (not_at_end l (plain c) r s h, flag_at_cursor l (plain c) r s h, myputchar-echo)
      (Rep-shift l (plain c ∷ r) (l ++ plain c ∷ []) r (sym (append_assoc l (plain c ∷ []) r)) s _ h
        (refl, refl, refl, refl) (omega (arith, h.cursor, width-append l (plain c ∷ []))))
move_ahead-Rep l (control c) r s h =
    rw
      (
        not_at_end l (control c) r s h,
        flag_at_cursor l (control c) r s h,
        myputchar-echo,
        myputchar-echo,
      )
      (Rep-shift l (control c ∷ r) (l ++ control c ∷ []) r (sym (append_assoc l (control c ∷ []) r))
        s _ h (refl, refl, refl, refl) (omega (arith, h.cursor, width-append l (control c ∷ []))))

-- move_back with a glyph before the cursor goes back over this glyph.
pub move_back-Rep :
    (l : List Glyph) (g : Glyph) (r : List Glyph) (s : Editor)
    → Rep (l ++ g ∷ []) r s
    → Rep l (g ∷ r) (move_back s)
unfolding move_back echo
move_back-Rep l (plain c) r s h =
    let at_zero : (s.curr_pntr == 0) ≡ false = ground (arith, cursor_after l (plain c) r s h) in
    rw (at_zero, flag_before_cursor l (plain c) r s h, myputchar-echo)
      (Rep-shift (l ++ plain c ∷ []) r l (plain c ∷ r) (append_assoc l (plain c ∷ []) r) s _ h
        (refl, refl, refl, ground (arith, cursor_after l (plain c) r s h))
        (omega (arith, cursor_after l (plain c) r s h)))
move_back-Rep l (control c) r s h =
    let at_zero : (s.curr_pntr == 0) ≡ false = ground (arith, cursor_after l (control c) r s h) in
    rw (at_zero, flag_before_cursor l (control c) r s h, myputchar-echo, myputchar-echo)
      (Rep-shift (l ++ control c ∷ []) r l (control c ∷ r) (append_assoc l (control c ∷ []) r) s _ h
        (refl, refl, refl, ground (arith, cursor_after l (control c) r s h, h.no_fault))
        (omega (arith, cursor_after l (control c) r s h)))

-- move_home goes to the front of the line and keeps its glyphs.
pub move_home-Rep : (l r : List Glyph) (s : Editor) → Rep l r s → Rep [] (l ++ r) (move_home s)
unfolding move_home echo
move_home-Rep l r s h = elim (Bool-cases (ltb 0 s.curr_pntr)) [
  | inl e ↦
      rw (e, put_times-echo) (Rep-shift l r [] (l ++ r) refl s _ h (refl, refl, refl, refl) refl)
  | inr e ↦ rw e (Rep-shift l r [] (l ++ r) refl s _ h (refl, refl, refl, refl) (ground arith))
]

-- move_end goes to the end of the line and keeps its glyphs.
pub move_end-Rep : (l r : List Glyph) (s : Editor) → Rep l r s → Rep (l ++ r) [] (move_end s)
unfolding move_end echo
move_end-Rep l r s h = elim (Bool-cases (s.curr_pntr == s.buff_pntr)) [
  | inl e ↦ rw e (
      Rep-shift l r (l ++ r) [] (sym (append-nil (l ++ r))) s _ h (refl, refl, refl, refl)
        (ground (arith, h.total, width-append l r)))
  | inr e ↦
      rw (e, put_cells-echo)
        (Rep-shift l r (l ++ r) [] (sym (append-nil (l ++ r))) s _ h (refl, refl, refl, refl)
          (omega (arith, h.total, width-append l r)))
]

-- With a glyph before the cursor and one behind it, move_ahead goes over the one behind, move_back
-- over the one before, move_home to the front and move_end to the end of the line, and the glyphs
-- stay.
pub moves_lem :
    (l : List Glyph) (f g : Glyph) (r : List Glyph) (s : Editor)
    → Rep (l ++ f ∷ []) (g ∷ r) s
    → Rep ((l ++ f ∷ []) ++ g ∷ []) r (move_ahead s)
      × Rep l (f ∷ g ∷ r) (move_back s)
      × Rep [] ((l ++ f ∷ []) ++ g ∷ r) (move_home s)
      × Rep ((l ++ f ∷ []) ++ g ∷ r) [] (move_end s)
moves_lem l f g r s h = (
  move_ahead-Rep (l ++ f ∷ []) g r s h,
  move_back-Rep l f (g ∷ r) s h,
  move_home-Rep (l ++ f ∷ []) (g ∷ r) s h,
  move_end-Rep (l ++ f ∷ []) (g ∷ r) s h,
)
