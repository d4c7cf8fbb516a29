-- ===== src/Clef/Line/Reading.antt =====
-- About `do_reading` (src/lib/edin.c) on a line that is typed without any special key.
use mathlib.Core.Path.{subst}
use open_axiom.Prelude.{
  ℕ, zero, suc, ◌+◌, ◌<◌, ◌≡◌, ◌≢◌, refl, ap, sym, ◌∙◌, Bool, true, false, List, [], ◌∷◌, ◌++◌,
  arith, length, ltb, append_assoc, if_true, if_false, lt→ltb,
}
use open_axiom.Prelude.Memory.{At}
use open_axiom.Prelude.Memory.Laws.{All}
use open_axiom.Clef.Key
use open_axiom.Clef.State.{Editor, maxline}
use open_axiom.Clef.Insert.{insert_buff_printing}
use open_axiom.Clef.Reader.{Session, character, note_tab, reading_loop, do_reading}
use open_axiom.Clef.Line.Glyph.{Glyph, plain, width, Rep, width-append}
use open_axiom.Clef.Line.Insert.{insert_buff_printing-Rep}
use open_axiom.Clef.Line.Codes.{codes}
use open_axiom.Clef.Line.Move.{Rep-shift}
use open_axiom.Clef.Line.Rounds.{
  IsOrdinary, glyphs, differ, character-ordinary, insert_buff_printing-Stepped, line_sent, Finished,
  line_sent-Finished,
}

Rep-note_tab : (l r : List Glyph) (s : Editor) → Rep l r s → Rep l r (note_tab s)
Rep-note_tab l r s h = Rep-shift l r l r refl s _ h (refl, refl, refl, refl) h.cursor

add_one : (n : ℕ) → suc n ≡ n + 1
add_one n = omega arith

plus_zero : (n : ℕ) → n + 0 ≡ n
plus_zero n = omega arith

module _ (session : Session) (not_erase : Key.eoln ≢ session.erase) where
  character-eoln :
      (inner : Editor → Editor) (done : Bool) (s : Editor)
      → s.in_buff (s.num_proc + 0) ≡ Key.eoln
      → character session inner done s ≡ (line_sent s, done)
  unfolding character
  character-eoln inner done s e = rw (e, differ Key.eoln session.erase not_erase) refl

  loop_step :
      (n : ℕ) (done : Bool) (s s' : Editor)
      → s.num_proc < s.num_read
      → ((inner : Editor → Editor) → character session inner done s ≡ (s', done))
      → reading_loop session (suc n) done s ≡ reading_loop session n done (note_tab s')
  unfolding reading_loop
  loop_step n done s s' lt e = if_true _ _ _ (lt→ltb s.num_proc s.num_read lt) ∙ rw (e _) refl

  loop_stop :
      (n : ℕ) (done : Bool) (s : Editor)
      → s.num_proc ≡ s.num_read
      → reading_loop session (suc n) done s ≡ s
  unfolding reading_loop
  loop_stop n done s e = if_false (ltb s.num_proc s.num_read) _ _ (ground arith)

  reading_loop-line :
      (cs : List ℕ) (n : ℕ) (done : Bool) (l r : List Glyph) (s : Editor)
      → Rep l r s
      → s.ins_mode ≡ true
      → All (IsOrdinary session) cs
      → At s.in_buff s.num_proc (cs ++ Key.eoln ∷ [])
      → s.num_read ≡ s.num_proc + length cs + 1
      → width l + width r + length cs + 1 < maxline
      → length cs + 1 < n
      → Finished
          ((codes (l ++ (glyphs cs ++ r)) ++ Key.eoln ∷ []) ∷ s.sent)
          s.num_read
          s.num_read
          (reading_loop session n done s)
  reading_loop-line cs zero done l r s h ins ok typed read room fuel = absurd (omega arith)
  reading_loop-line cs (suc zero) done l r s h ins ok typed read room fuel = absurd (omega arith)
  reading_loop-line [] (suc (suc n)) done l r s h ins ok typed read room fuel =
      let end = typed.0 in
      let f = line_sent-Finished l r s h end (omega arith) in
      let at : s.in_buff (s.num_proc + 0) ≡ Key.eoln = rw (plus_zero s.num_proc) end in
      let u = note_tab (line_sent s) in
      let stop : u.num_proc ≡ u.num_read = f.processed ∙ sym (f.read ∙ read ∙ omega arith) in
      subst (Finished ((codes (l ++ r) ++ Key.eoln ∷ []) ∷ s.sent) s.num_read s.num_read)
        (sym (
          loop_step (suc n) done s (line_sent s) (omega arith)
            (λ inner. character-eoln inner done s at)
          ∙ loop_stop n done u stop))
        (record {
          written = f.written;
          empty = Rep-note_tab [] [] (line_sent s) f.empty;
          processed = stop ∙ f.read;
          read = f.read;
        })
  reading_loop-line (c ∷ cs) (suc (suc n)) done l r s h ins ok typed read room fuel =
      let here : s.in_buff s.num_proc ≡ c = typed.0 in
      let at : s.in_buff (s.num_proc + 0) ≡ c = rw (plus_zero s.num_proc) here in
      let good : IsOrdinary session (s.in_buff (s.num_proc + 0)) = rw at ok.0 in
      let t = insert_buff_printing 1 s in
      let k = insert_buff_printing-Stepped s ins (omega (arith, h.total)) in
      let rep : Rep (l ++ plain c ∷ []) r t =
        rw here at
          (insert_buff_printing-Rep l r s h ins (ground (arith, ok.0.not_nul)) (omega arith)) in
      let w : width (l ++ plain c ∷ []) ≡ width l + 1 = width-append l (plain c ∷ []) in
      let rest =
        reading_loop-line cs (suc n) done (l ++ plain c ∷ []) r (note_tab t)
          (Rep-note_tab (l ++ plain c ∷ []) r t rep) (k.mode_kept ∙ ins) ok.1
          (rw (k.input_kept, k.next)
            (subst (λ i. At s.in_buff i (cs ++ Key.eoln ∷ [])) (add_one s.num_proc) typed.1))
          (omega (arith, k.read_kept, k.next)) (omega (arith, w)) (omega arith) in
      let step =
        loop_step (suc n) done s t (omega arith)
          (λ inner. character-ordinary session inner done s good) in
      let same : codes (l ++ plain c ∷ [] ++ (glyphs cs ++ r))
          ≡ codes (l ++ (plain c ∷ glyphs cs ++ r)) =
        ap codes (append_assoc l (plain c ∷ []) (glyphs cs ++ r)) in
      subst
        (Finished ((codes (l ++ (plain c ∷ glyphs cs ++ r)) ++ Key.eoln ∷ []) ∷ s.sent) s.num_read
          s.num_read)
        (sym step)
        (record {
          written = rest.written ∙ rw (same, k.sent_kept) refl;
          empty = rest.empty;
          processed = rest.processed ∙ k.read_kept;
          read = rest.read ∙ k.read_kept;
        })

  -- In insert mode, do_reading on ordinary characters and a newline puts the characters at the
  -- cursor, sends the whole line and the newline to the child, leaves an empty line, and ends with
  -- all of the input processed, if the line has room, the newline is not the erase character, and
  -- the fuel is at least two more than the number of the characters.
  pub do_reading-line :
      (cs : List ℕ) (fuel : ℕ) (l r : List Glyph) (s : Editor)
      → Rep l r s
      → s.ins_mode ≡ true
      → All (IsOrdinary session) cs
      → At s.in_buff 0 (cs ++ Key.eoln ∷ [])
      → s.num_read ≡ length cs + 1
      → width l + width r + length cs + 1 < maxline
      → length cs + 1 < fuel
      → let t = do_reading session fuel s in
        (t.sent ≡ (codes (l ++ (glyphs cs ++ r)) ++ Key.eoln ∷ []) ∷ s.sent)
        × Rep [] [] t
        × (t.num_proc ≡ s.num_read)
  unfolding do_reading
  do_reading-line cs fuel l r s h ins ok typed read room enough =
      let start : Editor = record s { num_proc = 0 } in
      let f =
        reading_loop-line cs fuel false l r start
          (Rep-shift l r l r refl s _ h (refl, refl, refl, refl) h.cursor) ins ok typed
          (omega arith) room enough in
      (f.written, f.empty, f.processed)
