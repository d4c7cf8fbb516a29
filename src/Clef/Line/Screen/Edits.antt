-- ===== src/Clef/Line/Screen/Edits.antt =====
-- The row of the terminal that shows a line, and what the echo of an edit (src/lib/prt.c) does to it.
use open_axiom.Prelude.{
  ℕ, zero, suc, ◌+◌, ◌-◌, ◌≤◌, ◌≡◌, refl, ◌∙◌, List, ◌++◌, arith, length, true, false, replicate,
  length-replicate, length-append, inl, inr, append_assoc, Bool-cases, ltb, ltb→lt,
}
use open_axiom.Prelude.Memory.{Memory, At, store, write_list}
use open_axiom.Prelude.Memory.Laws.{
  All, All-append, At-split, write_list_out, write_list-At, write_list-frame, At-replicate,
}
use open_axiom.Clef.Key
use open_axiom.Clef.State.{Editor}
use open_axiom.Clef.Line.Glyph.{Glyph, chars, width, length-chars}
use open_axiom.Clef.Line.Screen.Paint.{
  Row, feeds, row, feeds-append, IsShown, feeds_back, feeds_shown, IsShown-blanks,
}

-- The row shows the characters of the line and blanks behind it, and the cursor stands between `l`
-- and `r`.
pub record ShowsRow (l r : List Glyph) (w : Row) : Type 0 where
  pub left : At w.cell 0 (chars l)
  pub right : At w.cell (width l) (chars r)
  pub rest : (k : ℕ) → width l + width r ≤ k → w.cell k ≡ Key.blank
  pub col : w.col ≡ width l

pub record Shows (l r : List Glyph) (s : Editor) : Type 0 where
  pub on : s.echoit ≡ true
  pub shows : ShowsRow l r (row s.stdout)

-- no glyph is a backspace or a bell, which a terminal does not show
abbrev pub AllShown : List Glyph → Type 0
AllShown gs = All IsShown (chars gs)

not_lt : (a b : ℕ) → ltb a b ≡ false → b ≤ a
not_lt a b h = ground arith

module _ (l r : List Glyph) (n : ℕ) (w : Row) (shown : AllShown r) (col : w.col ≡ width l)
    (left : At w.cell 0 (chars l))
    (rest : (k : ℕ) → width l + width r + n ≤ k → w.cell k ≡ Key.blank) where
  new_text : List ℕ
  new_text = chars r ++ replicate n Key.blank

  length_new : length new_text ≡ width r + n
  unfolding new_text
  length_new = omega (
    arith,
    length-append (chars r) (replicate n Key.blank),
    length-chars r,
    length-replicate n Key.blank,
  )

  painted : Memory ℕ
  painted = write_list (width l) new_text w.cell

  redraw_runs :
      feeds (chars r ++ (replicate n Key.blank ++ replicate (width r + n) Key.bkspc)) w
      ≡ record { cell = painted; col = width l }
  unfolding painted new_text
  redraw_runs =
      let back : width l + length new_text - (width r + n) ≡ width l = omega (arith, length_new) in
      rw (← append_assoc, feeds-append)
        (rw
          (
            feeds_shown new_text w
                (All-append IsShown (chars r) (replicate n Key.blank) shown (IsShown-blanks n)),
            feeds_back,
            col,
            back,
          )
          refl)

  -- The text behind the cursor is printed again, then `n` blanks, and the cursor goes back.
  redraw :
      ShowsRow l r
        (feeds (chars r ++ (replicate n Key.blank ++ replicate (width r + n) Key.bkspc)) w)
  unfolding painted new_text
  redraw =
      let both =
        At-split painted (width l) (chars r) (replicate n Key.blank)
          (write_list-At (width l) new_text w.cell) in
      rw redraw_runs (record {
        left =
            write_list-frame (width l) new_text w.cell 0 (chars l) (omega (arith, length-chars l))
              left;
        right = both.0;
        rest = λ k le. elim (Bool-cases (ltb k (width l + width r + n))) [
          | inl e ↦
              At-replicate painted (width l + length (chars r)) n Key.blank both.1 k
                (omega (arith, length-chars r)) (omega (arith, length-chars r, ltb→lt k _ e))
          | inr e ↦
              write_list_out (width l) new_text w.cell k
                (inr (omega (arith, length_new, not_lt k _ e)))
              ∙ rest k (not_lt k _ e)
        ];
        col = refl;
      })

-- `n` blanks and `n` steps back leave the cursor, the cells before it, and the blank cells.
blank_out :
    (n : ℕ) (w : Row)
    → feeds (replicate n Key.blank ++ replicate n Key.bkspc) w
      ≡ record { cell = write_list w.col (replicate n Key.blank) w.cell; col = w.col }
blank_out n w =
    let back : w.col + length (replicate n Key.blank) - n ≡ w.col =
      omega (arith, length-replicate n Key.blank) in
    rw feeds-append
      (rw (feeds_shown (replicate n Key.blank) w (IsShown-blanks n), feeds_back, back) refl)

-- A row whose cells from some place on are blank, with the cursor behind `l`.
pub record Before (l : List Glyph) (end : ℕ) (w : Row) : Type 0 where
  pub left : At w.cell 0 (chars l)
  pub rest : (k : ℕ) → end ≤ k → w.cell k ≡ Key.blank
  pub col : w.col ≡ width l

write_blanks :
    (i n : ℕ) (m : Memory ℕ) (k : ℕ)
    → m k ≡ Key.blank
    → write_list i (replicate n Key.blank) m k ≡ Key.blank
unfolding write_list
write_blanks i zero m k h = h
write_blanks i (suc n) m k h = write_blanks (suc i) n (store m i Key.blank) k (ground arith)

pub blank_out-Before :
    (l : List Glyph) (end n : ℕ) (w : Row)
    → Before l end w
    → Before l end (feeds (replicate n Key.blank ++ replicate n Key.bkspc) w)
blank_out-Before l end n w h = rw (blank_out n w) (record {
  left =
      write_list-frame w.col (replicate n Key.blank) w.cell 0 (chars l)
        (omega (arith, length-chars l, h.col)) h.left;
  rest = λ k le. write_blanks w.col n w.cell k (h.rest k le);
  col = h.col;
})

pub back-Before :
    (l : List Glyph) (end n : ℕ) (w : Row)
    → At w.cell 0 (chars l)
    → ((k : ℕ) → end ≤ k → w.cell k ≡ Key.blank)
    → w.col ≡ width l + n
    → Before l end (feeds (replicate n Key.bkspc) w)
back-Before l end n w left rest col =
    rw feeds_back (record { left = left; rest = rest; col = omega arith })

pub redraw-Before :
    (l r : List Glyph) (n : ℕ) (w : Row)
    → AllShown r
    → Before l (width l + width r + n) w
    → ShowsRow l r
        (feeds (chars r ++ (replicate n Key.blank ++ replicate (width r + n) Key.bkspc)) w)
redraw-Before l r n w shown h = redraw l r n w shown h.col h.left h.rest
