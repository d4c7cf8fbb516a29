-- ===== src/Clef/Completion/Words.antt =====
-- About `burst1Wct` (src/lib/wct.c) and the words of a text.
use open_axiom.Prelude.{
  ℕ, zero, suc, ◌+◌, ◌≡◌, refl, ap, ◌∙◌, Bool, true, false, List, [], ◌∷◌, arith, length, ◌==◌,
  if◌then◌else◌, Bool-cases, inl, inr,
}
use open_axiom.Clef.State.{Wct}
use open_axiom.Clef.Completion.{
  separates, blank_out, skip_nul, first_word, after_word, collect, burst1_wct,
}

-- A word that has begun, if it has, and the words behind it.
abbrev push : List ℕ → List (List ℕ) → List (List ℕ)
push [] ws = ws
push (c ∷ w) ws = (c ∷ w) ∷ ws

-- The word at the front of a text, if the text does not begin with a separator, and the others.
unfoldable pub front_words : List ℕ → List ℕ × List (List ℕ)
front_words [] = ([], [])
front_words (c ∷ s) =
    let (w, ws) = front_words s in if separates c then ([], push w ws) else (c ∷ w, ws)

-- The maximal runs of characters that do not separate.
abbrev pub words : List ℕ → List (List ℕ)
words s = push (front_words s).0 (front_words s).1

abbrev blanks : List ℕ → List ℕ
blanks [] = []
blanks (c ∷ s) = (if separates c then 0 else c) ∷ blanks s

blank_out-text : (s : List ℕ) (inword : Bool) (n : ℕ) → (blank_out inword n s).0 ≡ blanks s
unfolding blank_out
blank_out-text [] inword n = refl
blank_out-text (c ∷ s) inword n =
    ap (λ t. (if separates c then 0 else c) ∷ t) (blank_out-text s _ _)

blank_out-count :
    (n : ℕ) (s : List ℕ)
    → ((blank_out false n s).1 ≡ n + length (words s))
      × ((blank_out true n s).1 ≡ n + length (front_words s).1)
unfolding blank_out front_words
blank_out-count n [] = (omega arith, omega arith)
blank_out-count n (c ∷ s) =
    let (outside, inside) = blank_out-count n s in
    let (outside', inside') = blank_out-count (n + 1) s in
    elim (Bool-cases (separates c)) [
      | inl e ↦ rw e (outside, outside)
      | inr e ↦ rw e (inside' ∙ omega arith, inside)
    ]

front_words-text : (s : List ℕ) → first_word (blanks s) ≡ (front_words s).0
unfolding first_word front_words
front_words-text [] = refl
front_words-text (c ∷ s) = ground (arith, front_words-text s)

collect_nul : (n : ℕ) (s : List ℕ) → collect n (0 ∷ s) ≡ collect n s
unfolding collect skip_nul
collect_nul zero s = refl
collect_nul (suc n) s = refl

collect-blanks :
    (s : List ℕ)
    → (collect (length (words s)) (blanks s) ≡ words s)
      × (collect (length (front_words s).1) (after_word (blanks s)) ≡ (front_words s).1)
unfolding front_words collect skip_nul first_word after_word
collect-blanks [] = (refl, refl)
collect-blanks (c ∷ s) =
    let (all, rest) = collect-blanks s in
    elim (Bool-cases (separates c)) [
      | inl e ↦ rw e (collect_nul _ _ ∙ all, collect_nul _ _ ∙ all)
      | inr e ↦
          let solid : (c == 0) ≡ false = ground arith in
          (ground (arith, front_words-text s, rest), ground (arith, rest))
    ]

-- burst1Wct on a table whose count is 0 finds the maximal runs of characters of the text that do
-- not separate, and counts them.
pub burst1_wct-words :
    (image : List ℕ) (t : Wct)
    → t.wordc ≡ 0
    → ((burst1_wct image t).wordv ≡ words image)
      × ((burst1_wct image t).wordc ≡ length (words image))
unfolding burst1_wct
burst1_wct-words image t e =
    let count : (blank_out false t.wordc image).1 ≡ length (words image) =
      (blank_out-count t.wordc image).0 ∙ omega arith in
    (rw (count, blank_out-text image false t.wordc) (collect-blanks image).0, count)
