-- ===== src/Clef/Line/Recall.antt =====
-- A line that is saved in the ring, and taken from it again (src/lib/edin.c).
use mathlib.Core.Path.{subst}
use open_axiom.Prelude.{
  ℕ, ◌≡◌, refl, ap, sym, ◌∙◌, false, Option, none, some, List, [], ◌∷◌, ◌++◌, arith, length, ltb,
  Bool-cases, inl, inr, if_true, append_assoc, ==_refl,
}
use open_axiom.Prelude.Memory.{Memory, store, At, copy_up, copy_until}
use open_axiom.Prelude.Memory.Laws.{All-append, At-split, At-join, At-store_behind}
use open_axiom.Prelude.Memory.Copies.{copy_until-At, copy_up-At}
use open_axiom.Clef.State.{Flag, QueStruct, Editor, maxline}
use open_axiom.Clef.Ring.{is_nul, maxring, save_line, add_line, prev_buff}
use open_axiom.Clef.Line.Glyph.{
  Glyph, chars, flags, width, IsGlyph, Rep, chars-append, flags-append, width-append, length-chars,
  length-flags, chars_no_nul,
}
use open_axiom.Clef.Line.Move.{Rep-shift}
use open_axiom.Clef.Line.Loading.{Saved, prev_buff-Rep}

-- The line with its end mark, in one run.
whole_chars : (l r : List Glyph) (s : Editor) → Rep l r s → At s.buff 0 (chars (l ++ r) ++ 0 ∷ [])
whole_chars l r s h =
    subst (At s.buff 0)
      (sym (append_assoc (chars l) (chars r) (0 ∷ []))
        ∙ ap (λ cs. cs ++ 0 ∷ []) (sym (chars-append l r)))
      (At-join s.buff 0 (width l) (chars l) (chars r ++ 0 ∷ []) (omega (arith, length-chars l))
        h.chars_left h.right.0)

whole_flags : (l r : List Glyph) (s : Editor) → Rep l r s → At s.buff_flag 0 (flags (l ++ r))
whole_flags l r s h = subst (At s.buff_flag 0) (sym (flags-append l r)) (
    At-join s.buff_flag 0 (width l) (flags l) (flags r) (omega (arith, length-flags l)) h.flags_left
      (At-split s.buff_flag (width l) (flags r) (Flag.free ∷ []) h.right.1).0)

-- A run with a last cell written behind it.
At-store_end :
    {A : Type 0} (m : Memory A) (n : ℕ) (v : A) (xs : List A)
    → length xs ≡ n
    → At m 0 xs
    → At (store m n v) 0 (xs ++ v ∷ [])
At-store_end m n v xs e run =
    At-join (store m n v) 0 n xs (v ∷ []) (omega arith)
      (At-store_behind m 0 n v xs (omega arith) run) (if_true _ _ _ (==_refl n), tt)

save_line-Saved :
    (l r : List Glyph) (p : ℕ) (s : Editor) → Rep l r s → Saved (l ++ r) ((save_line p s).nodes p)
unfolding save_line
save_line-Saved l r p s h =
    let w = width-append l r in
    let text = copy_until is_nul maxline 0 0 s.buff (λ _. 0) in
    let marks = copy_up 0 0 s.buff_pntr s.buff_flag (λ _. Flag.free) in
    let text-At =
      copy_until-At is_nul maxline 0 0 s.buff (λ _. 0) (chars (l ++ r)) 0
        (omega (arith, length-chars (l ++ r), w, h.room))
        (chars_no_nul (l ++ r) (All-append IsGlyph l r h.glyphs_left h.glyphs_right)) refl
        (whole_chars l r s h) in
    let len : length (chars (l ++ r)) ≡ s.buff_pntr =
      omega (arith, length-chars (l ++ r), w, h.total) in
    let flen : length (flags (l ++ r)) ≡ s.buff_pntr =
      omega (arith, length-flags (l ++ r), w, h.total) in
    subst (Saved (l ++ r)) (sym (if_true _ _ _ (==_refl p))) (record {
      chars_saved =
          At-store_end text s.buff_pntr 0 (chars (l ++ r)) len
            (At-split text 0 (chars (l ++ r)) (0 ∷ []) text-At).0;
      flags_saved = At-store_end marks s.buff_pntr Flag.free (flags (l ++ r)) flen (
          copy_up-At 0 0 s.buff_pntr s.buff_flag (λ _. Flag.free) (flags (l ++ r)) flen
            (whole_flags l r s h));
    })

Rep-record :
    (l r : List Glyph) (s : Editor) (nodes : Memory QueStruct) (ring : Option ℕ) (ring_size : ℕ)
    → Rep l r s
    → Rep l r (record s { nodes = nodes; ring = ring; ring_size = ring_size })
Rep-record l r s nodes ring ring_size h =
    Rep-shift l r l r refl s _ h (refl, refl, refl, refl) h.cursor

-- The newest node of the ring holds the glyphs.
abbrev NewestSaved : List Glyph → Editor → Type 0
NewestSaved gs t = (q : ℕ) × (t.ring ≡ some q) × Saved gs (t.nodes q)

ring-save_line : (q : ℕ) (s : Editor) → (save_line q s).ring ≡ s.ring
unfolding save_line
ring-save_line q s = refl

save_line-NewestSaved :
    (l r : List Glyph) (q : ℕ) (s : Editor)
    → Rep l r s
    → s.ring ≡ some q
    → NewestSaved (l ++ r) (save_line q s)
save_line-NewestSaved l r q s h e = (q, ring-save_line q s ∙ e, save_line-Saved l r q s h)

add_line-NewestSaved :
    (o : Option ℕ) (l r : List Glyph) (s : Editor) → Rep l r s → NewestSaved (l ++ r) (add_line o s)
unfolding add_line
add_line-NewestSaved none l r s h =
    save_line-NewestSaved l r s.ring_size _ (Rep-record l r s _ _ _ h) refl
add_line-NewestSaved (some q) l r s h = elim (Bool-cases (ltb s.ring_size maxring)) [
  | inl e ↦ rw e (save_line-NewestSaved l r s.ring_size _ (Rep-record l r s _ _ _ h) refl)
  | inr e ↦ rw e (save_line-NewestSaved l r (s.nodes q).next _ (Rep-record l r s _ _ _ h) refl)
]

-- After add_line has saved a line in the ring, prev_buff, in any state with this ring that is at no
-- place of it yet and without a fault, makes that line the current one, with the cursor at its end.
pub prev_buff-add_line :
    (l r : List Glyph) (s t : Editor)
    → Rep l r s
    → t.nodes ≡ (add_line s.ring s).nodes
    → t.ring ≡ (add_line s.ring s).ring
    → t.current ≡ none
    → t.fault ≡ false
    → Rep (l ++ r) [] (prev_buff t)
prev_buff-add_line l r s t h nodes ring current clean =
    let (q, newest, saved) = add_line-NewestSaved s.ring l r s h in
    prev_buff-Rep (l ++ r) q t (ring ∙ newest) current
      (subst (λ (m : Memory QueStruct). Saved (l ++ r) (m q)) (sym nodes) saved)
      (All-append IsGlyph l r h.glyphs_left h.glyphs_right)
      (omega (arith, width-append l r, h.room)) clean
