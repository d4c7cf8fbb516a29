-- ===== src/Clef/Completion/Search.antt =====
-- About `scanWct` (src/lib/wct.c).
use mathlib.Core.Path.{subst}
use open_axiom.Prelude.{
  ℕ, suc, ◌+◌, ◌<◌, ◌≡◌, ap, sym, ◌∙◌, Bool, true, false, none, some, List, [], ◌∷◌, arith, length,
  Bool-cases, inl, inr, if_true, if_false,
}
use open_axiom.Prelude.Memory.Laws.{All}
use open_axiom.Clef.State.{Wct, Wix, Editor}
use open_axiom.Clef.Completion.{
  Files, strneql, scan_words, scan_tables, refresh_scanned, scan_wct, words_of, nth_word, word_in,
  answer,
}

pub bools_differ : ¬ (true ≡ false)
bools_differ h = ground arith

module _ (p : List ℕ) where
  -- The prefix fits no word of the list, or of the tables.
  abbrev pub Fits : List ℕ → Type 0
  Fits w = strneql w p ≡ true

  abbrev pub FitsNone : List (List ℕ) → Type 0
  FitsNone ws = All (λ w. strneql w p ≡ false) ws

  abbrev pub FitsNoTable : List Wct → Type 0
  FitsNoTable ts = All (λ (t : Wct). FitsNone t.wordv) ts

  pub scan_words-found :
      (i : ℕ) (ws : List (List ℕ)) (word : ℕ)
      → (scan_words p i ws word).0 ≡ true
      → (j : ℕ) × ((scan_words p i ws word).1 ≡ i + j) × (j < length ws) × Fits (nth_word ws j)
  unfolding scan_words
  scan_words-found i [] word h = ground arith
  scan_words-found i (w ∷ ws) word h = elim (Bool-cases (strneql w p)) [
    | inl e ↦ (0, rw e (omega arith), omega arith, e)
    | inr e ↦
        let (j, at, lt, fits) = scan_words-found (i + 1) ws i (
          sym (
            ap (λ (x : Bool × ℕ). x.0)
              (if_false (strneql w p) (true, i) (scan_words p (i + 1) ws i) e))
          ∙ h) in
        (suc j, rw e (omega (arith, at)), omega (arith, lt), fits)
  ]

  pub scan_words-not_found :
      (i : ℕ) (ws : List (List ℕ)) (word : ℕ) → (scan_words p i ws word).0 ≡ false → FitsNone ws
  unfolding scan_words
  scan_words-not_found i [] word h = tt
  scan_words-not_found i (w ∷ ws) word h = elim (Bool-cases (strneql w p)) [
    | inl e ↦ ground arith
    | inr e ↦ (e, scan_words-not_found (i + 1) ws i (ground arith))
  ]

  abbrev pub at_table : ℕ → Wct → Wix → Wix
  at_table k t wix = record { table = some k; word = (scan_words p 0 t.wordv wix.word).1 }

  scan_tables_here :
      (k : ℕ) (t : Wct) (ts : List Wct) (wix : Wix)
      → (scan_words p 0 t.wordv wix.word).0 ≡ true
      → scan_tables p k (t ∷ ts) wix ≡ (true, at_table k t wix)
  unfolding scan_tables
  scan_tables_here k t ts wix e = if_true _ _ _ e

  scan_tables_next :
      (k : ℕ) (t : Wct) (ts : List Wct) (wix : Wix)
      → (scan_words p 0 t.wordv wix.word).0 ≡ false
      → scan_tables p k (t ∷ ts) wix ≡ scan_tables p (k + 1) ts (at_table k t wix)
  unfolding scan_tables
  scan_tables_next k t ts wix e = if_false _ _ _ e

  -- The answer is in the `j`-th of the tables, which are numbered from `k` on.
  abbrev pub Answers : ℕ → List Wct → Bool × Wix → Type 0
  Answers k ts r =
      (j : ℕ) × (r.1.table ≡ some (k + j))
      × (j < length ts)
      × Fits (nth_word (words_of ts j) r.1.word)

  no_table : (k : ℕ) (wix : Wix) → ¬ ((scan_tables p k [] wix).0 ≡ true)
  unfolding scan_tables
  no_table k wix h = ground arith

  pub scan_tables-found :
      (k : ℕ) (ts : List Wct) (wix : Wix)
      → (scan_tables p k ts wix).0 ≡ true
      → Answers k ts (scan_tables p k ts wix)
  scan_tables-found k [] wix h = absurd (no_table k wix h)
  scan_tables-found k (t ∷ ts) wix h = elim (Bool-cases (scan_words p 0 t.wordv wix.word).0) [
    | inl e ↦
        let (j, at, lt, fits) = scan_words-found 0 t.wordv wix.word e in
        subst (Answers k (t ∷ ts)) (sym (scan_tables_here k t ts wix e)) (
          0,
          ap some (omega arith),
          omega arith,
          subst (λ i. Fits (nth_word t.wordv i)) (sym at)
              (subst (λ i. Fits (nth_word t.wordv i)) (omega arith) fits),
        )
    | inr e ↦
        let next = scan_tables_next k t ts wix e in
        let (j, at, lt, fits) =
          scan_tables-found (k + 1) ts (at_table k t wix)
            (ap (λ (r : Bool × Wix). r.0) (sym next) ∙ h) in
        subst (Answers k (t ∷ ts)) (sym next)
          (suc j, at ∙ ap some (omega arith), omega (arith, lt), fits)
  ]

  pub scan_tables-not_found :
      (k : ℕ) (ts : List Wct) (wix : Wix) → (scan_tables p k ts wix).0 ≡ false → FitsNoTable ts
  scan_tables-not_found k [] wix h = tt
  scan_tables-not_found k (t ∷ ts) wix h = elim (Bool-cases (scan_words p 0 t.wordv wix.word).0) [
    | inl e ↦
        absurd
          (bools_differ (ap (λ (r : Bool × Wix). r.0) (sym (scan_tables_here k t ts wix e)) ∙ h))
    | inr e ↦ (
      scan_words-not_found 0 t.wordv wix.word e,
      scan_tables-not_found (k + 1) ts (at_table k t wix)
          (ap (λ (r : Bool × Wix). r.0) (sym (scan_tables_next k t ts wix e)) ∙ h),
    )
  ]

-- scanWct succeeds exactly if the prefix fits a word of the tables as they then are, and its answer
-- is such a word.
pub scan_wct_lem :
    (files : Files) (p : List ℕ) (s : Editor)
    → let (found, s') = scan_wct files p s in
      (found ≡ true → strneql (answer s') p ≡ true) × (found ≡ false → FitsNoTable p s'.pwct)
unfolding scan_wct
scan_wct_lem files p s =
    let tables = refresh_scanned files p s.pwct in
    let start : Wix = record { table = none; word = 0 } in
    (
      λ h.
          let (j, at, lt, fits) = scan_tables-found p 0 tables start h in
          subst
            (λ t. Fits p (
              word_in t (record s {
                pwct = tables;
                curr_wix = (scan_tables p 0 tables start).1;
                curr_prefix = p;
              })))
            (sym (at ∙ ap some (omega arith))) fits,
      λ h. scan_tables-not_found p 0 tables start h,
    )
