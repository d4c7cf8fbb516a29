-- ===== src/Clef/Line/Send.antt =====
-- About sending a line to the child process (src/lib/edin.c).
use open_axiom.Prelude.{
  ℕ, ◌+◌, ◌<◌, ◌≡◌, refl, List, [], ◌∷◌, ◌++◌, arith, false, ◌==◌, ap, ◌≢◌, sym, append-nil,
  Bool-cases, inl, inr, replicate,
}
use open_axiom.Prelude.Memory.{Memory, At, cells}
use open_axiom.Prelude.Memory.Laws.{All, All-append, At-join, At-store_behind, fill_lem}
use open_axiom.Clef.State.{Flag, Editor, maxline, write_child}
use open_axiom.Clef.Lines.{
  convert_buffer, finish_line, reset_line, save_nonempty, send_line_to_child,
}
use open_axiom.Clef.Line.Glyph.{
  Glyph, plain, chars, flags, width, IsGlyph, Rep, Rep-advance, chars-append, flags-append,
  width-append, length-chars, length-flags,
}
use open_axiom.Clef.Key
use open_axiom.Clef.Print.{wipe, back_it_up}
use open_axiom.Clef.Line.Echo.{echo, put_times-echo}
use open_axiom.Clef.Line.Queue.{insert_queue-Rep, insert_queue-OnlyRing}
use open_axiom.Clef.Line.Move.{Rep-shift}
use open_axiom.Clef.Line.Codes.{codes, codes-append, convert_buffer-codes}

-- The line with its last character written behind it.
module _ (l r : List Glyph) (c : ℕ) (s : Editor) (h : Rep l r s) (nonzero : c ≢ 0)
    (room : width l + width r + 1 < maxline) where
  finished : List Glyph
  finished = (l ++ r) ++ plain c ∷ []

  whole : Rep (l ++ r) [] (record s { curr_pntr = width (l ++ r) })
  whole = Rep-shift l r (l ++ r) [] (sym (append-nil (l ++ r))) s _ h (refl, refl, refl, refl) refl

  length_whole : s.buff_pntr ≡ width (l ++ r)
  length_whole = omega (arith, h.total, width-append l r)

  finish_line-clean : (finish_line c Flag.free s).fault ≡ false
  unfolding finish_line
  finish_line-clean = ground (arith, h.total, h.no_fault)

  finish_line-chars : At (finish_line c Flag.free s).buff 0 (chars finished)
  unfolding finish_line finished
  finish_line-chars = rw chars-append (
      At-join _ 0 s.buff_pntr (chars (l ++ r)) (c ∷ [])
        (omega (arith, length_whole, length-chars (l ++ r)))
        (At-store_behind _ 0 (s.buff_pntr + 1) 0 (chars (l ++ r))
          (omega (arith, length_whole, length-chars (l ++ r)))
          (At-store_behind s.buff 0 s.buff_pntr c (chars (l ++ r))
            (omega (arith, length_whole, length-chars (l ++ r))) whole.chars_left))
        (ground arith, tt))

  finish_line-flags : At (finish_line c Flag.free s).buff_flag 0 (flags finished)
  unfolding finish_line finished
  finish_line-flags = rw flags-append (
      At-join _ 0 s.buff_pntr (flags (l ++ r)) (Flag.plain ∷ [])
        (omega (arith, length_whole, length-flags (l ++ r)))
        (At-store_behind _ 0 (s.buff_pntr + 1) Flag.free (flags (l ++ r))
          (omega (arith, length_whole, length-flags (l ++ r)))
          (At-store_behind s.buff_flag 0 s.buff_pntr Flag.plain (flags (l ++ r))
            (omega (arith, length_whole, length-flags (l ++ r))) whole.flags_left))
        (ground arith, tt))

  finished_good : All IsGlyph finished
  unfolding finished
  finished_good = All-append IsGlyph (l ++ r) (plain c ∷ []) whole.glyphs_left (nonzero, tt)

  width-finished : width finished ≡ s.buff_pntr + 1
  unfolding finished
  width-finished = omega (arith, length_whole, width-append (l ++ r) (plain c ∷ []))

  codes-finished : codes finished ≡ codes (l ++ r) ++ c ∷ []
  unfolding finished
  codes-finished = codes-append (l ++ r) (plain c ∷ [])

  -- The conversion of the finished line is what was typed.
  finish_line-codes :
      (target : Memory ℕ)
      → let t = finish_line c Flag.free s in
        let (converted, n) = convert_buffer target t.buff t.buff_flag t.buff_pntr in
        cells 0 n converted ≡ codes (l ++ r) ++ c ∷ []
  unfolding finish_line
  finish_line-codes target =
      let p =
        convert_buffer-codes finished (finish_line c Flag.free s).buff
          (finish_line c Flag.free s).buff_flag target finish_line-chars finish_line-flags
          finished_good in
      rw (width-finished, codes-finished) at p

-- A cleared line is the empty line.
reset_line-Rep : (s : Editor) → 0 < s.buff_pntr → s.fault ≡ false → Rep [] [] (reset_line s)
unfolding reset_line wipe
reset_line-Rep s pos clean = record {
  chars_left = tt;
  flags_left = tt;
  right = (
    (ground (arith, fill_lem 0 s.buff_pntr 0 s.buff 0), tt),
    (ground (arith, fill_lem 0 s.buff_pntr Flag.free s.buff_flag 0), tt),
  );
  cursor = refl;
  total = refl;
  room = omega arith;
  glyphs_left = tt;
  glyphs_right = tt;
  no_fault = clean;
}

pub Rep-echo : (cs : List ℕ) (l r : List Glyph) (s : Editor) → Rep l r s → Rep l r (echo cs s)
unfolding echo
Rep-echo cs l r s h = Rep-shift l r l r refl s _ h (refl, refl, refl, refl) h.cursor

-- What saving a line leaves as it was.
save_nonempty_lem :
    (l r : List Glyph) (s : Editor)
    → Rep l r s
    → Rep l r (save_nonempty s)
      × ((save_nonempty s).sent ≡ s.sent)
      × ((save_nonempty s).num_proc ≡ s.num_proc)
save_nonempty_lem l r s h = elim (Bool-cases (s.buff_pntr == 0)) [
  | inl e ↦ simp e (h, refl, refl)
  | inr e ↦ simp e (
    insert_queue-Rep l r s h,
    ap (λ (t : Editor). t.sent) (insert_queue-OnlyRing s),
    ap (λ (t : Editor). t.num_proc) (insert_queue-OnlyRing s),
  )
]

-- send_line_to_child writes the glyphs of the line to the child as the codes that were typed, with
-- the character that ends the line behind them, leaves an empty line, and takes one character of
-- the input, if the line has room for one more cell and that character is not NUL.
pub send_line_to_child-codes :
    (l r : List Glyph) (s : Editor)
    → Rep l r s
    → s.in_buff s.num_proc ≢ 0
    → width l + width r + 1 < maxline
    → ((send_line_to_child s).sent ≡ (codes (l ++ r) ++ s.in_buff s.num_proc ∷ []) ∷ s.sent)
      × Rep [] [] (send_line_to_child s)
      × ((send_line_to_child s).num_proc ≡ s.num_proc + 1)
unfolding send_line_to_child back_it_up echo reset_line wipe finish_line
send_line_to_child-codes l r s h nonzero room =
    let c = s.in_buff s.num_proc in
    let bs = replicate s.curr_pntr Key.bkspc in
    let (saved, sent, proc) = save_nonempty_lem l r (echo bs s) (Rep-echo bs l r s h) in
    let t = save_nonempty (echo bs s) in
    let u = finish_line c Flag.free t in
    let result = convert_buffer u.converted u.buff u.buff_flag u.buff_pntr in
    let v = write_child (cells 0 result.1 result.0) (record u { converted = result.0 }) in
    rw put_times-echo (
      (rw (sent)
          (ap (λ cs. cs ∷ s.sent) (finish_line-codes l r c t saved nonzero room t.converted))),
      Rep-advance 1 [] [] (reset_line v)
          (reset_line-Rep v (omega arith) (finish_line-clean l r c t saved nonzero room)),
      ap (λ n. n + 1) proc,
    )
