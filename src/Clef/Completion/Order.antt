-- ===== src/Clef/Completion/Order.antt =====
-- The order in which `rescanWct` (src/lib/wct.c) looks at the words: from the one behind the last
-- answer to the end of the tables, and from their start to that answer.
use open_axiom.Prelude.{
  drop, take, ℕ, zero, suc, ◌+◌, ◌<◌, ◌≤◌, ◌≡◌, refl, ap, sym, ◌∙◌, Bool, Option, none, some, List,
  [], ◌∷◌, ◌++◌, arith, length, length-append, append_assoc, if◌then◌else◌,
}
use open_axiom.Clef.State.{Wct, Wix, Editor}
use open_axiom.Clef.Completion.{
  strneql, scan_words, scan_tables, words_of, rescan_from, rescan_at, rescan_wct_table,
}

-- The words with their places, those of one table and those of all.
abbrev pub words_at : (table word : ℕ) → List (List ℕ) → List (Wix × List ℕ)
words_at k i [] = []
words_at k i (w ∷ ws) = (record { table = some k; word = i }, w) ∷ words_at k (i + 1) ws

abbrev pub all_words : (table : ℕ) → List Wct → List (Wix × List ℕ)
all_words k [] = []
all_words k (t ∷ ts) = words_at k 0 t.wordv ++ all_words (k + 1) ts

-- The place of the first word that the prefix fits.
abbrev pub first_fit : (prefix : List ℕ) → List (Wix × List ℕ) → Option Wix
first_fit p [] = none
first_fit p ((at, w) ∷ rest) = if strneql w p then some at else first_fit p rest

-- All the words, the first of them the one behind the `word`-th of the `table`-th table.
abbrev pub words_behind : List Wct → (table word : ℕ) → List (Wix × List ℕ)
words_behind ts k w =
    let n = length (all_words 0 (take k ts)) + (w + 1) in
    drop n (all_words 0 ts) ++ take n (all_words 0 ts)

abbrev or_else : Option Wix → Option Wix → Option Wix
or_else none y = y
or_else (some x) y = some x

abbrev pub outcome : Bool × Wix → Option Wix
outcome (found, at) = if found then some at else none

first_fit-append :
    (p : List ℕ) (xs ys : List (Wix × List ℕ))
    → first_fit p (xs ++ ys) ≡ or_else (first_fit p xs) (first_fit p ys)
first_fit-append p [] ys = refl
first_fit-append p ((at, w) ∷ xs) ys = ground (arith, first_fit-append p xs ys)

scan_words-first_fit :
    (p : List ℕ) (k i : ℕ) (ws : List (List ℕ)) (old : ℕ)
    → first_fit p (words_at k i ws)
      ≡ outcome
          ((scan_words p i ws old).0, record { table = some k; word = (scan_words p i ws old).1 })
unfolding scan_words
scan_words-first_fit p k i [] old = refl
scan_words-first_fit p k i (w ∷ ws) old = ground (arith, scan_words-first_fit p k (i + 1) ws i)

scan_tables-first_fit :
    (p : List ℕ) (k : ℕ) (ts : List Wct) (old : Wix)
    → first_fit p (all_words k ts) ≡ outcome (scan_tables p k ts old)
unfolding scan_tables
scan_tables-first_fit p k [] old = refl
scan_tables-first_fit p k (t ∷ ts) old =
    let (found, word) = scan_words p 0 t.wordv old.word in
    ground (
      arith,
      first_fit-append p (words_at k 0 t.wordv) (all_words (k + 1) ts),
      scan_words-first_fit p k 0 t.wordv old.word,
      scan_tables-first_fit p (k + 1) ts (record { table = some k; word = word }),
    )

-- The words of a list of tables, in four parts.
words_at-split :
    (k i n : ℕ) (ws : List (List ℕ))
    → words_at k i ws ≡ words_at k i (take n ws) ++ words_at k (i + n) (drop n ws)
words_at-split k i zero ws = ap (λ j. words_at k j ws) {x = i} {y = i + 0} (omega arith)
words_at-split k i (suc n) [] = refl
words_at-split k i (suc n) (w ∷ ws) =
    ap (λ xs. (record { table = some k; word = i }, w) ∷ xs)
      (words_at-split k (i + 1) n ws
        ∙ ap (λ j. words_at k (i + 1) (take n ws) ++ words_at k j (drop n ws)) {x = i + 1 + n}
            {y = i + suc n} (omega arith))

all_words-split :
    (j k : ℕ) (ts : List Wct)
    → k < length ts
    → all_words j ts
      ≡ all_words j (take k ts)
        ++ (words_at (j + k) 0 (words_of ts k) ++ all_words (j + k + 1) (drop (k + 1) ts))
all_words-split j k [] lt = absurd (omega arith)
all_words-split j zero (t ∷ ts) lt =
    ap (λ i. words_at i 0 t.wordv ++ all_words (i + 1) ts) {x = j} {y = j + 0} (omega arith)
all_words-split j (suc k) (t ∷ ts) lt =
    ap (λ xs. words_at j 0 t.wordv ++ xs)
      (all_words-split (j + 1) k ts (omega arith)
        ∙ ap
            (λ i.
              all_words (j + 1) (take k ts)
              ++ (words_at i 0 (words_of ts k) ++ all_words (i + 1) (drop (k + 1) ts)))
            {x = j + 1 + k} {y = j + suc k} (omega arith)
        ∙ ap
            (λ i.
              all_words (j + 1) (take k ts)
              ++ (words_at (j + suc k) 0 (words_of ts k)
                  ++ all_words (j + suc k + 1) (drop i (t ∷ ts))))
            {x = suc (k + 1)} {y = suc k + 1} (omega arith))
    ∙ sym (append_assoc (words_at j 0 t.wordv) _ _)

length-words_at : (k i : ℕ) (ws : List (List ℕ)) → length (words_at k i ws) ≡ length ws
length-words_at k i [] = refl
length-words_at k i (w ∷ ws) = ap suc (length-words_at k (i + 1) ws)

module _ {A : Type 0} where
  length-take : (n : ℕ) (xs : List A) → n ≤ length xs → length (take n xs) ≡ n
  length-take zero xs le = refl
  length-take (suc n) [] le = absurd (omega arith)
  length-take (suc n) (x ∷ xs) le = ap suc (length-take n xs (omega arith))

  turned : (xs ys : List A) → drop (length xs) (xs ++ ys) ++ take (length xs) (xs ++ ys) ≡ ys ++ xs
  turned xs ys =
      ap (λ zs. zs ++ take (length xs) (xs ++ ys)) (drop-front xs)
      ∙ ap (λ zs. ys ++ zs) (take-front xs)
    where
      drop-front : (zs : List A) → drop (length zs) (zs ++ ys) ≡ ys
      drop-front [] = refl
      drop-front (z ∷ zs) = drop-front zs

      take-front : (zs : List A) → take (length zs) (zs ++ ys) ≡ zs
      take-front [] = refl
      take-front (z ∷ zs) = ap (λ us. z ∷ us) (take-front zs)

module _ (p : List ℕ) (ts : List Wct) (k w : ℕ) (in_tables : k < length ts)
    (in_table : w < length (words_of ts k)) where
  abbrev before : List (Wix × List ℕ)
  before = all_words 0 (take k ts)

  abbrev front : List (Wix × List ℕ)
  front = words_at k 0 (take (w + 1) (words_of ts k))

  abbrev rest : List (Wix × List ℕ)
  rest = words_at k (w + 1) (drop (w + 1) (words_of ts k))

  abbrev later : List (Wix × List ℕ)
  later = all_words (k + 1) (drop (k + 1) ts)

  four_parts : all_words 0 ts ≡ (before ++ front) ++ (rest ++ later)
  four_parts =
      all_words-split 0 k ts in_tables
      ∙ ap (λ j. before ++ (words_at j 0 (words_of ts k) ++ all_words (j + 1) (drop (k + 1) ts)))
          {x = 0 + k} {y = k} (omega arith)
      ∙ ap (λ xs. before ++ (xs ++ later))
          (words_at-split k 0 (w + 1) (words_of ts k)
            ∙ ap (λ j. front ++ words_at k j (drop (w + 1) (words_of ts k))) {x = 0 + (w + 1)}
                {y = w + 1} (omega arith))
      ∙ ap (λ xs. before ++ xs) (append_assoc front rest later)
      ∙ sym (append_assoc before front (rest ++ later))

  front_size : length before + (w + 1) ≡ length (before ++ front)
  front_size = omega (
    arith,
    length-append before front,
    length-words_at k 0 (take (w + 1) (words_of ts k)),
    length-take (w + 1) (words_of ts k) (omega arith),
  )

  words_behind_parts : words_behind ts k w ≡ (rest ++ later) ++ (before ++ front)
  words_behind_parts =
      ap (λ n. drop n (all_words 0 ts) ++ take n (all_words 0 ts)) front_size
      ∙ ap (λ xs. drop (length (before ++ front)) xs ++ take (length (before ++ front)) xs)
          four_parts
      ∙ turned (before ++ front) (rest ++ later)

  rescan_from-first_fit : outcome (rescan_from p ts k w) ≡ first_fit p (words_behind ts k w)
  unfolding rescan_from
  rescan_from-first_fit =
      let r = scan_words p (w + 1) (drop (w + 1) (words_of ts k)) w in
      let at : Wix = record { table = some k; word = r.1 } in
      let l = scan_tables p (k + 1) (drop (k + 1) ts) at in
      let b = scan_tables p 0 (take k ts) l.1 in
      ground (
        arith,
        ap (first_fit p) words_behind_parts,
        first_fit-append p (rest ++ later) (before ++ front),
        first_fit-append p rest later,
        first_fit-append p before front,
        scan_words-first_fit p k (w + 1) (drop (w + 1) (words_of ts k)) w,
        scan_tables-first_fit p (k + 1) (drop (k + 1) ts) at,
        scan_tables-first_fit p 0 (take k ts) l.1,
        scan_words-first_fit p k 0 (take (w + 1) (words_of ts k)) b.1.word,
      )

-- After an answer that is a word of the tables, rescanWct gives the place of the first word that
-- the prefix fits, or fails if there is none, in the list of all words turned so that it starts
-- with the word behind that answer and ends with the answer.
pub rescan_wct_table-first_fit :
    (s : Editor) (k : ℕ)
    → s.curr_wix.table ≡ some k
    → k < length s.pwct
    → s.curr_wix.word < length (words_of s.pwct k)
    → let (found, s') = rescan_wct_table s in
      outcome (found, s'.curr_wix) ≡ first_fit s.curr_prefix (words_behind s.pwct k s.curr_wix.word)
unfolding rescan_wct_table
rescan_wct_table-first_fit s k e in_tables in_table =
    ap (λ o. outcome ((rescan_at o s).0, (rescan_at o s).1.curr_wix)) e
    ∙ rescan_from-first_fit s.curr_prefix s.pwct k s.curr_wix.word in_tables in_table
