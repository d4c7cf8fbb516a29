-- ===== src/Clef/Completion/Rescan.antt =====
-- About `rescanWct` (src/lib/wct.c).
use mathlib.Core.Path.{subst}
use open_axiom.Prelude.{
  drop, take, ℕ, zero, suc, ◌+◌, ◌<◌, ◌≡◌, refl, ap, sym, ◌∙◌, Bool, true, false, Option, none,
  some, List, [], ◌∷◌, arith, length, Bool-cases, inl, inr, if_true, if_false,
}
use open_axiom.Clef.State.{Wct, Wix, Editor}
use open_axiom.Clef.Completion.{
  strneql, scan_words, scan_tables, words_of, rescan_from, rescan_at, rescan_wct_table, nth_word,
  word_in, answer,
}
use open_axiom.Clef.Completion.Search.{
  bools_differ, Fits, FitsNone, FitsNoTable, scan_words-found, scan_words-not_found,
  scan_tables-found, scan_tables-not_found,
}

drop-FitsNone :
    (p : List ℕ) (n : ℕ) (ws : List (List ℕ))
    → FitsNone p (take n ws)
    → FitsNone p (drop n ws)
    → FitsNone p ws
drop-FitsNone p zero ws front back = back
drop-FitsNone p (suc n) [] front back = tt
drop-FitsNone p (suc n) (w ∷ ws) front back = (front.0, drop-FitsNone p n ws front.1 back)

k_suc : (k : ℕ) → suc k + 1 ≡ suc (k + 1)
k_suc k = omega arith

-- The three parts of the tables that `rescanWct` goes through are all of them.
split-FitsNoTable :
    (p : List ℕ) (k : ℕ) (ts : List Wct)
    → k < length ts
    → FitsNoTable p (take k ts)
    → FitsNone p (words_of ts k)
    → FitsNoTable p (drop (k + 1) ts)
    → FitsNoTable p ts
split-FitsNoTable p k [] lt front here back = tt
split-FitsNoTable p zero (t ∷ ts) lt front here back = (here, back)
split-FitsNoTable p (suc k) (t ∷ ts) lt front here back = (
  front.0,
  split-FitsNoTable p k ts (omega (arith, lt)) front.1 here
      (subst (λ n. FitsNoTable p (drop n (t ∷ ts))) (k_suc k) back),
)

nth_word-drop :
    (n : ℕ) (ws : List (List ℕ)) (j : ℕ)
    → j < length (drop n ws)
    → nth_word (drop n ws) j ≡ nth_word ws (n + j)
nth_word-drop zero ws j h = ap (nth_word ws) (omega arith)
nth_word-drop (suc n) [] j h = absurd (omega (arith, h))
nth_word-drop (suc n) (w ∷ ws) j h = nth_word-drop n ws j h ∙ ap (nth_word (w ∷ ws)) (k_add n j)
  where
    k_add : (n j : ℕ) → suc (n + j) ≡ suc n + j
    k_add n j = omega arith

nth_word-take :
    (n : ℕ) (ws : List (List ℕ)) (j : ℕ)
    → j < length (take n ws)
    → nth_word (take n ws) j ≡ nth_word ws j
nth_word-take zero ws j h = absurd (omega (arith, h))
nth_word-take (suc n) [] j h = refl
nth_word-take (suc n) (w ∷ ws) zero h = refl
nth_word-take (suc n) (w ∷ ws) (suc j) h = nth_word-take n ws j (omega (arith, h))

words_of-drop :
    (n : ℕ) (ts : List Wct) (j : ℕ)
    → j < length (drop n ts)
    → words_of (drop n ts) j ≡ words_of ts (n + j)
words_of-drop zero ts j h = ap (words_of ts) (omega arith)
words_of-drop (suc n) [] j h = absurd (omega (arith, h))
words_of-drop (suc n) (t ∷ ts) j h = words_of-drop n ts j h ∙ ap (words_of (t ∷ ts)) (k_add n j)
  where
    k_add : (n j : ℕ) → suc (n + j) ≡ suc n + j
    k_add n j = omega arith

words_of-take :
    (n : ℕ) (ts : List Wct) (j : ℕ)
    → j < length (take n ts)
    → words_of (take n ts) j ≡ words_of ts j
words_of-take zero ts j h = absurd (omega (arith, h))
words_of-take (suc n) [] j h = refl
words_of-take (suc n) (t ∷ ts) zero h = refl
words_of-take (suc n) (t ∷ ts) (suc j) h = words_of-take n ts j (omega (arith, h))

abbrev chosen : List Wct → Option ℕ → ℕ → List ℕ
chosen ts none w = []
chosen ts (some k) w = nth_word (words_of ts k) w

module _ (p : List ℕ) (ts : List Wct) (k w : ℕ) where
  abbrev rest_of_table : Bool × ℕ
  rest_of_table = scan_words p (w + 1) (drop (w + 1) (words_of ts k)) w

  abbrev rest_at : Wix
  rest_at = record { table = some k; word = rest_of_table.1 }

  abbrev later_tables : Bool × Wix
  later_tables = scan_tables p (k + 1) (drop (k + 1) ts) rest_at

  abbrev earlier_tables : Bool × Wix
  earlier_tables = scan_tables p 0 (take k ts) later_tables.1

  abbrev start_of_table : Bool × ℕ
  start_of_table = scan_words p 0 (take (w + 1) (words_of ts k)) earlier_tables.1.word

  abbrev Right : Bool × Wix → Type 0
  Right r = (r.0 ≡ true → Fits p (chosen ts r.1.table r.1.word)) × (r.0 ≡ false → FitsNoTable p ts)

  right : (r : Bool × Wix) → r.0 ≡ true → Fits p (chosen ts r.1.table r.1.word) → Right r
  right r e h = (λ x. h, λ f. absurd (bools_differ (sym e ∙ f)))

  rest-Fits : rest_of_table.0 ≡ true → Fits p (chosen ts rest_at.table rest_at.word)
  rest-Fits e =
      let (j, at, lt, fits) = scan_words-found p (w + 1) (drop (w + 1) (words_of ts k)) w e in
      subst (λ i. Fits p (nth_word (words_of ts k) i)) (sym at)
        (subst (Fits p) (nth_word-drop (w + 1) (words_of ts k) j lt) fits)

  later-Fits : later_tables.0 ≡ true → Fits p (chosen ts later_tables.1.table later_tables.1.word)
  later-Fits e =
      let (j, at, lt, fits) = scan_tables-found p (k + 1) (drop (k + 1) ts) rest_at e in
      subst (λ t. Fits p (chosen ts t later_tables.1.word)) (sym at)
        (subst (λ ws. Fits p (nth_word ws later_tables.1.word)) (words_of-drop (k + 1) ts j lt)
          fits)

  earlier-Fits :
      earlier_tables.0 ≡ true → Fits p (chosen ts earlier_tables.1.table earlier_tables.1.word)
  earlier-Fits e =
      let (j, at, lt, fits) = scan_tables-found p 0 (take k ts) later_tables.1 e in
      subst (λ t. Fits p (chosen ts t earlier_tables.1.word)) (sym (at ∙ ap some (omega arith)))
        (subst (λ ws. Fits p (nth_word ws earlier_tables.1.word)) (words_of-take k ts j lt) fits)

  start-Fits : start_of_table.0 ≡ true → Fits p (nth_word (words_of ts k) start_of_table.1)
  start-Fits e =
      let (j, at, lt, fits) =
        scan_words-found p 0 (take (w + 1) (words_of ts k)) earlier_tables.1.word e in
      subst (λ i. Fits p (nth_word (words_of ts k) i)) (sym (at ∙ omega arith))
        (subst (Fits p) (nth_word-take (w + 1) (words_of ts k) j lt) fits)

  rescan_from-Right : k < length ts → Right (rescan_from p ts k w)
  unfolding rescan_from
  rescan_from-Right inside = elim (Bool-cases rest_of_table.0) [
    | inl a ↦ subst Right (sym (if_true _ _ _ a)) (right (true, rest_at) refl (rest-Fits a))
    | inr a ↦ subst Right (sym (if_false _ _ _ a)) (elim (Bool-cases later_tables.0) [
      | inl b ↦
          subst Right (sym (if_true _ _ _ b)) (right (true, later_tables.1) refl (later-Fits b))
      | inr b ↦ subst Right (sym (if_false _ _ _ b)) (elim (Bool-cases earlier_tables.0) [
        | inl c ↦
            subst Right (sym (if_true _ _ _ c))
              (right (true, earlier_tables.1) refl (earlier-Fits c))
        | inr c ↦ subst Right (sym (if_false _ _ _ c)) (
          start-Fits,
          λ d.
              split-FitsNoTable p k ts inside
                (scan_tables-not_found p 0 (take k ts) later_tables.1 c)
                (drop-FitsNone p (w + 1) (words_of ts k)
                  (scan_words-not_found p 0 (take (w + 1) (words_of ts k)) earlier_tables.1.word d)
                  (scan_words-not_found p (w + 1) (drop (w + 1) (words_of ts k)) w a))
                (scan_tables-not_found p (k + 1) (drop (k + 1) ts) rest_at b),
        )
      ])
    ])
  ]

word_in-chosen : (o : Option ℕ) (s : Editor) → word_in o s ≡ chosen s.pwct o s.curr_wix.word
word_in-chosen none s = refl
word_in-chosen (some k) s = refl

-- After an answer in the tables, rescanWct succeeds exactly if the prefix fits a word of the
-- tables, and its answer is such a word.
pub rescan_wct_table_lem :
    (s : Editor) (k : ℕ)
    → s.curr_wix.table ≡ some k
    → k < length s.pwct
    → let (found, s') = rescan_wct_table s in
      (found ≡ true → strneql (answer s') s.curr_prefix ≡ true)
      × (found ≡ false → FitsNoTable s.curr_prefix s.pwct)
unfolding rescan_wct_table
rescan_wct_table_lem s k e inside =
    let (found, missed) = rescan_from-Right s.curr_prefix s.pwct k s.curr_wix.word inside in
    let wix = (rescan_from s.curr_prefix s.pwct k s.curr_wix.word).1 in
    subst
      (λ o.
        ((rescan_at o s).0 ≡ true → strneql (answer (rescan_at o s).1) s.curr_prefix ≡ true)
        × ((rescan_at o s).0 ≡ false → FitsNoTable s.curr_prefix s.pwct))
      (sym e)
      (
        λ h.
            subst (Fits s.curr_prefix)
              (sym (word_in-chosen wix.table (record s { curr_wix = wix }))) (found h),
        missed,
      )
