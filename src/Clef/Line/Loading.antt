-- ===== src/Clef/Line/Loading.antt =====
-- A line that is taken from the ring (src/lib/edin.c).
use mathlib.Core.Path.{subst}
use open_axiom.Prelude.{
  ℕ, zero, suc, ◌+◌, ◌<◌, ◌≡◌, refl, sym, ◌∙◌, true, false, not, ◌||◌, none, some, List, [], ◌∷◌,
  ◌++◌, arith, length, ltb, ◌==◌, Bool-cases, inl, inr,
}
use open_axiom.Prelude.Memory.{Memory, At, copy_until, stops, extent}
use open_axiom.Prelude.Memory.Laws.{All, At-split, stops_lem}
use open_axiom.Prelude.Memory.Copies.{copy_until-At, extent_lem}
use open_axiom.Clef.State.{Flag, is_free, QueStruct, Editor, maxline}
use open_axiom.Clef.Print.{myputchar, printbuff, clear_buff, wipe}
use open_axiom.Clef.Ring.{is_nul, recall, clear_line, current_or, go_prev, prev_buff}
use open_axiom.Clef.Line.Glyph.{
  Glyph, chars, flags, width, IsGlyph, Rep, length-chars, length-flags, chars_no_nul,
  flags_not_free,
}
use open_axiom.Clef.Line.Echo.{echo, echo_nil, echo-echo_cons, put_times-echo}

-- The node holds the glyphs, with an end mark in both arrays.
pub record Saved (gs : List Glyph) (node : QueStruct) : Type 0 where
  pub chars_saved : At node.chars 0 (chars gs ++ 0 ∷ [])
  pub flags_saved : At node.flags 0 (flags gs ++ Flag.free ∷ [])

-- What `printbuff` writes, whatever it is.
printbuff-echo : (i n : ℕ) (s : Editor) → (cs : List ℕ) × (printbuff i n s ≡ echo cs s)
unfolding printbuff
printbuff-echo i zero s = ([], echo_nil s)
printbuff-echo i (suc n) s = elim (Bool-cases (s.buff i == 0)) [
  | inl e ↦ let (cs, p) = printbuff-echo (suc i) n s in (cs, rw e p)
  | inr e ↦
      let (cs, p) = printbuff-echo (suc i) n (myputchar (s.buff i) s) in
      (s.buff i ∷ cs, rw e (p ∙ echo-echo_cons (s.buff i) cs s))
]

module _ (gs : List Glyph) (p : ℕ) (s : Editor) (saved : Saved gs (s.nodes p))
    (good : All IsGlyph gs) (short : width gs < maxline) (clean : s.fault ≡ false) where
  text : Memory ℕ
  text = copy_until is_nul maxline 0 0 (s.nodes p).chars s.buff

  marks : Memory Flag
  marks = copy_until is_free maxline 0 0 (s.nodes p).flags s.buff_flag

  text-At : At text 0 (chars gs ++ 0 ∷ [])
  unfolding text
  text-At =
      copy_until-At is_nul maxline 0 0 (s.nodes p).chars s.buff (chars gs) 0
        (omega (arith, length-chars gs)) (chars_no_nul gs good) refl saved.chars_saved

  marks-At : At marks 0 (flags gs ++ Flag.free ∷ [])
  unfolding marks
  marks-At =
      copy_until-At is_free maxline 0 0 (s.nodes p).flags s.buff_flag (flags gs) Flag.free
        (omega (arith, length-flags gs)) (flags_not_free gs) refl saved.flags_saved

  text_end : extent is_nul maxline 0 text ≡ width gs
  text_end =
      extent_lem is_nul maxline 0 text (chars gs) 0 (omega (arith, length-chars gs))
        (chars_no_nul gs good) refl text-At
      ∙ length-chars gs

  stops_text : stops is_nul maxline 0 (s.nodes p).chars ≡ true
  stops_text =
      stops_lem is_nul maxline 0 (length (chars gs)) (s.nodes p).chars
        (omega (arith, length-chars gs))
        (rw ((At-split (s.nodes p).chars 0 (chars gs) (0 ∷ []) saved.chars_saved).1.0) refl)

  stops_marks : stops is_free maxline 0 (s.nodes p).flags ≡ true
  stops_marks =
      stops_lem is_free maxline 0 (length (flags gs)) (s.nodes p).flags
        (omega (arith, length-flags gs))
        (rw ((At-split (s.nodes p).flags 0 (flags gs) (Flag.free ∷ []) saved.flags_saved).1.0) refl)

  loaded : Editor
  loaded = record s {
    current = some p;
    buff = text;
    buff_flag = marks;
    fault =
        s.fault
        || (not (stops is_nul maxline 0 (s.nodes p).chars)
            || not (stops is_free maxline 0 (s.nodes p).flags));
  }

  loaded-Rep :
      (cs : List ℕ) (n : ℕ)
      → n ≡ width gs
      → Rep gs [] (record (echo cs loaded) { curr_pntr = n; buff_pntr = n })
  unfolding echo loaded
  loaded-Rep cs n e =
      let at : 0 + length (chars gs) ≡ width gs = omega (arith, length-chars gs) in
      let fat : 0 + length (flags gs) ≡ width gs = omega (arith, length-flags gs) in
      let (front, back) = At-split text 0 (chars gs) (0 ∷ []) text-At in
      let (ffront, fback) = At-split marks 0 (flags gs) (Flag.free ∷ []) marks-At in
      record {
        chars_left = front;
        flags_left = ffront;
        right = (rw at at back, rw fat at fback);
        cursor = e;
        total = omega arith;
        room = omega arith;
        glyphs_left = good;
        glyphs_right = tt;
        no_fault = rw (clean, stops_text, stops_marks) refl;
      }

  recall-Rep : Rep gs [] (recall p s)
  unfolding recall text marks loaded
  recall-Rep =
      let n = extent is_nul maxline 0 text in
      let (cs, e) = printbuff-echo 0 n loaded in
      subst (λ (u : Editor). Rep gs [] (record u { curr_pntr = n; buff_pntr = n })) (sym e)
        (loaded-Rep cs n text_end)

-- What clearing the line leaves.
record Cleared (s t : Editor) : Type 0 where
  pub nodes_kept : t.nodes ≡ s.nodes
  pub current_kept : t.current ≡ s.current
  pub fault_kept : t.fault ≡ s.fault

clear_line-Cleared : (s : Editor) → Cleared s (clear_line s)
unfolding clear_buff wipe echo
clear_line-Cleared s = elim (Bool-cases (ltb 0 s.buff_pntr)) [
  | inl e ↦
      simp (e, put_times-echo)
        (record { nodes_kept = refl; current_kept = refl; fault_kept = refl })
  | inr e ↦ simp e (record { nodes_kept = refl; current_kept = refl; fault_kept = refl })
]

-- prev_buff, at the start of a walk, gives the line that the newest node holds.
pub prev_buff-Rep :
    (gs : List Glyph) (newest : ℕ) (s : Editor)
    → s.ring ≡ some newest
    → s.current ≡ none
    → Saved gs (s.nodes newest)
    → All IsGlyph gs
    → width gs < maxline
    → s.fault ≡ false
    → Rep gs [] (prev_buff s)
unfolding prev_buff go_prev
prev_buff-Rep gs newest s ring current saved good short clean =
    let c = clear_line-Cleared s in
    let t = clear_line s in
    let loaded =
      recall-Rep gs newest t
        (subst (λ (m : Memory QueStruct). Saved gs (m newest)) (sym c.nodes_kept) saved) good short
        (c.fault_kept ∙ clean) in
    subst (λ o. Rep gs [] (go_prev o s)) (sym ring)
      (subst (λ o. Rep gs [] (recall (current_or o (λ q. (s.nodes q).prev) newest) t)) (sym current)
        loaded)
