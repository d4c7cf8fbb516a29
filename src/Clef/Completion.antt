-- ===== src/Clef/Completion.antt =====
-- src/lib/wct.c: the tables of words and the searches in them.
pub mod Edits
pub mod Order
pub mod Rescan
pub mod Words
pub mod Search
use open_axiom.Prelude.{
  drop, take, ℕ, zero, suc, ◌+◌, ◌-◌, Bool, true, false, not, ◌&&◌, ◌||◌, Option, none, some, List,
  [], ◌∷◌, length, ltb, leb, ◌==◌, if◌then◌else◌,
}
use open_axiom.Prelude.Memory.{Memory, copy_down, slide, write_list, cells}
use open_axiom.Clef.Key
use open_axiom.Clef.State.{Wct, Wix, Editor, ◌▷◌, putchar, raise, maxline}
use open_axiom.Clef.Print.{put_times, printbuff}

-- Words of a file

-- `isspace(c) || iscntrl(c)` in the C locale
abbrev pub separates : ℕ → Bool
separates c = leb c 0x20 || c == 0x7f

-- The first loop of `burst1Wct`: separators become NUL, and each start of a word counts.
unfoldable pub blank_out : (inword : Bool) (wordc : ℕ) → List ℕ → List ℕ × ℕ
blank_out inword n [] = ([], n)
blank_out inword n (c ∷ s) =
    let gap = separates c in
    let (s', n') = blank_out (not gap) (if not gap && not inword then n + 1 else n) s in
    ((if gap then 0 else c) ∷ s', n')

unfoldable pub skip_nul : List ℕ → List ℕ
skip_nul [] = []
skip_nul (c ∷ s) = if c == 0 then skip_nul s else c ∷ s

unfoldable pub first_word : List ℕ → List ℕ
first_word [] = []
first_word (c ∷ s) = if c == 0 then [] else c ∷ first_word s

unfoldable pub after_word : List ℕ → List ℕ
after_word [] = []
after_word (c ∷ s) = if c == 0 then c ∷ s else after_word s

-- The second loop: `wordc` words, empty ones where the image has no more.
unfoldable pub collect : (wordc : ℕ) → List ℕ → List (List ℕ)
collect zero s = []
collect (suc n) s = let t = skip_nul s in first_word t ∷ collect n (after_word t)

-- `burst1Wct` counts on from the `wordc` that the table has.
unfoldable pub burst1_wct : List ℕ → Wct → Wct
burst1_wct image t =
    let (s, n) = blank_out false t.wordc image in record t { wordc = n; wordv = collect n s }

-- The files, as the system calls show them.
pub record Files : Type 0 where
  pub mtime : ℕ → ℕ
  pub image : ℕ → List ℕ

unfoldable pub reintern1_wct : Files → Wct → Wct
reintern1_wct files t = burst1_wct (files.image t.fname) (record t { ftime = files.mtime t.fname })

unfoldable pub intern1_wct : Files → ℕ → Wct
intern1_wct files name =
    reintern1_wct files (record { fname = name; ftime = 0; wordc = 0; wordv = [] })

unfoldable pub nconc_wct : List Wct → List Wct → List Wct
nconc_wct [] q = q
nconc_wct (t ∷ p) q = t ∷ nconc_wct p q

unfoldable pub load_wct_file : Files → ℕ → Editor → Editor
load_wct_file files name s = record s { pwct = nconc_wct (intern1_wct files name ∷ []) s.pwct }

-- The search

unfoldable pub is_prefix : List ℕ → List ℕ → Bool
is_prefix [] w = true
is_prefix (c ∷ p) [] = false
is_prefix (c ∷ p) (d ∷ w) = if c == d then is_prefix p w else false

abbrev pub first_char : List ℕ → ℕ
first_char [] = 0
first_char (c ∷ w) = c

-- `strneql(word, prefix, strlen(prefix))`
unfoldable pub strneql : List ℕ → List ℕ → Bool
strneql w p = (first_char w == first_char p) && is_prefix p w

-- The loop over the words from `i` on: whether one fits, and the last `curr_wix.word`.
unfoldable pub scan_words : (prefix : List ℕ) (i : ℕ) → List (List ℕ) → (word : ℕ) → Bool × ℕ
scan_words p i [] word = (false, word)
scan_words p i (w ∷ ws) word =
    let rest = scan_words p (i + 1) ws i in if strneql w p then (true, i) else rest

-- The loop over the tables from the `k`-th on.
unfoldable pub scan_tables : (prefix : List ℕ) (k : ℕ) → List Wct → Wix → Bool × Wix
scan_tables p k [] wix = (false, wix)
scan_tables p k (t ∷ ts) wix =
    let (found, word) = scan_words p 0 t.wordv wix.word in
    let wix' : Wix = record { table = some k; word = word } in
    let rest = scan_tables p (k + 1) ts wix' in if found then (true, wix') else rest

unfoldable pub refresh : Files → Wct → Wct
refresh files t = if ltb t.ftime (files.mtime t.fname) then reintern1_wct files t else t

-- `scanWct` reads a changed table again when it reaches it: those up to the one that answers.
unfoldable pub refresh_scanned : Files → (prefix : List ℕ) → List Wct → List Wct
refresh_scanned files p [] = []
refresh_scanned files p (t ∷ ts) =
    let t' = refresh files t in
    let rest = refresh_scanned files p ts in
    if (scan_words p 0 t'.wordv 0).0 then t' ∷ ts else t' ∷ rest

unfoldable pub scan_wct : Files → List ℕ → Editor → Bool × Editor
scan_wct files p s =
    let tables = refresh_scanned files p s.pwct in
    let (found, wix) = scan_tables p 0 tables (record { table = none; word = 0 }) in
    (found, record s { pwct = tables; curr_wix = wix; curr_prefix = p })

abbrev pub words_of : List Wct → ℕ → List (List ℕ)
words_of [] k = []
words_of (t ∷ ts) zero = t.wordv
words_of (t ∷ ts) (suc k) = words_of ts k

-- The four phases of `rescanWct`: the words behind the last answer in its table, the tables behind
-- it, the tables before it, and the words of its table up to the last answer.
unfoldable pub rescan_from : List ℕ → List Wct → (table word : ℕ) → Bool × Wix
rescan_from p tables k w =
    let (found, i) = scan_words p (w + 1) (drop (w + 1) (words_of tables k)) w in
    let here : Wix = record { table = some k; word = i } in
    let (found', wix') = scan_tables p (k + 1) (drop (k + 1) tables) here in
    let (found'', wix'') = scan_tables p 0 (take k tables) wix' in
    let (found''', j) = scan_words p 0 (take (w + 1) (words_of tables k)) wix''.word in
    if found
    then (true, here)
    else if found'
    then (true, wix')
    else if found''
    then (true, wix'')
    else (found''', record { table = some k; word = j })

abbrev pub rescan_at : Option ℕ → Editor → Bool × Editor
rescan_at none s = (false, s)
rescan_at (some k) s =
    let (found, wix) = rescan_from s.curr_prefix s.pwct k s.curr_wix.word in
    (found, record s { curr_wix = wix })

unfoldable pub rescan_wct_table : Editor → Bool × Editor
rescan_wct_table s = rescan_at s.curr_wix.table s

abbrev pub nth_word : List (List ℕ) → ℕ → List ℕ
nth_word [] i = []
nth_word (w ∷ ws) zero = w
nth_word (w ∷ ws) (suc i) = nth_word ws i

abbrev pub word_in : Option ℕ → Editor → List ℕ
word_in none s = []
word_in (some k) s = nth_word (words_of s.pwct k) s.curr_wix.word

-- `pwct->wordv[pwix->word]` at the answer
abbrev pub answer : Editor → List ℕ
answer s = word_in s.curr_wix.table s
