-- ===== src/Hyper/Lex/Keywords.antt =====
-- The keywords of src/hyper/lex.c: token_table, and parser_init, which enters them in the hash table
-- of src/lib/hash.c.
use open_axiom.Prelude.{
  ℕ, zero, suc, ◌+◌, ◌<◌, ◌≡◌, refl, ap, ◌∙◌, Option, none, some, List, [], ◌∷◌, arith,
  if◌then◌else◌, ◌≤◌, ◌==◌, Bool-cases, inl, inr,
}
use open_axiom.Prelude.Memory.{Memory, store}
use open_axiom.Hash.{
  Chain, HashTable, hash_init, hash_insert, hash_find, find_in, bucket, clear_buckets,
}
use open_axiom.Hash.Strings.{string_equal, string_hash, string_hashing}
use open_axiom.Hash.View.{hash_find-view, view-hash_insert}
use open_axiom.Hyper.Lex.Get.{codes}

-- From the token of number 2 on.
abbrev pub token_table : List (List ℕ)
token_table =
    codes "page"
    ∷ codes "lispcommandquit"
    ∷ codes "bf"
    ∷ codes "link"
    ∷ codes "downlink"
    ∷ codes "beginscroll"
    ∷ codes "spadcommand"
    ∷ codes "nolines"
    ∷ codes "env"
    ∷ codes "par"
    ∷ codes "centerline"
    ∷ codes "begin"
    ∷ codes "beginitems"
    ∷ codes "item"
    ∷ codes "table"
    ∷ codes "fbox"
    ∷ codes "tab"
    ∷ codes "space"
    ∷ codes "indent"
    ∷ codes "horizontalline"
    ∷ codes "newline"
    ∷ codes "enditems"
    ∷ codes "returnbutton"
    ∷ codes "memolink"
    ∷ codes "upbutton"
    ∷ codes "endscroll"
    ∷ codes "thispage"
    ∷ codes "returnto"
    ∷ codes "free"
    ∷ codes "bound"
    ∷ codes "lisplink"
    ∷ codes "unixlink"
    ∷ codes "mbox"
    ∷ codes "inputstring"
    ∷ codes "stringvalue"
    ∷ codes "spadlink"
    ∷ codes "inputbitmap"
    ∷ codes "inputpixmap"
    ∷ codes "unixcommand"
    ∷ codes "em"
    ∷ codes "lispcommand"
    ∷ codes "lispmemolink"
    ∷ codes "lispdownlink"
    ∷ codes "spadcall"
    ∷ codes "spadcallquit"
    ∷ codes "spaddownlink"
    ∷ codes "spadmemolink"
    ∷ codes "qspadcall"
    ∷ codes "qspadcallquit"
    ∷ codes "inputbox"
    ∷ codes "radioboxes"
    ∷ codes "boxvalue"
    ∷ codes "vspace"
    ∷ codes "hspace"
    ∷ codes "newcommand"
    ∷ codes "windowid"
    ∷ codes "beep"
    ∷ codes "quitbutton"
    ∷ codes "begintitems"
    ∷ codes "titem"
    ∷ codes "end"
    ∷ codes "it"
    ∷ codes "sl"
    ∷ codes "tt"
    ∷ codes "rm"
    ∷ codes "ifcond"
    ∷ codes "else"
    ∷ codes "fi"
    ∷ codes "newcond"
    ∷ codes "setcond"
    ∷ codes "button"
    ∷ codes "windowlink"
    ∷ codes "haslisp"
    ∷ codes "hasup"
    ∷ codes "hasreturn"
    ∷ codes "hasreturnto"
    ∷ codes "lastwindow"
    ∷ codes "endtitems"
    ∷ codes "lispwindowlink"
    ∷ codes "beginpile"
    ∷ codes "endpile"
    ∷ codes "nextline"
    ∷ codes "pastebutton"
    ∷ codes "color"
    ∷ codes "helppage"
    ∷ codes "patch"
    ∷ codes "radiobox"
    ∷ codes "ifrecond"
    ∷ codes "math"
    ∷ codes "mitem"
    ∷ codes "pagename"
    ∷ codes "examplenumber"
    ∷ codes "replacepage"
    ∷ codes "inputimage"
    ∷ codes "spadgraph"
    ∷ codes "indentrel"
    ∷ codes "controlbitmap"
    ∷ []

-- The loop from `i` on.
unfoldable pub enter_tokens : List (List ℕ) → (i : ℕ) → HashTable (List ℕ) ℕ → HashTable (List ℕ) ℕ
unfolding hash_insert
enter_tokens [] i t = t
enter_tokens (w ∷ ws) i t = enter_tokens ws (i + 1) (hash_insert t i w)

-- `old` is what the memory of the table held.
unfoldable pub parser_init : Memory (Chain (List ℕ) ℕ) → HashTable (List ℕ) ℕ
unfolding enter_tokens hash_init
parser_init old = enter_tokens token_table 2 (hash_init 100 old)

-- The number of a word in a table, the last one if it stands there twice.
unfoldable pub number_of : List (List ℕ) → (i : ℕ) → List ℕ → Option ℕ
number_of [] i k = none
number_of (w ∷ ws) i k = elim (number_of ws (i + 1) k) [
  | some j ↦ some j
  | none ↦ if string_equal w k then some i else none
]

abbrev pub or_find : Option ℕ → Option ℕ → Option ℕ
or_find (some j) d = some j
or_find none d = d

enter_tokens-find :
    (ws : List (List ℕ)) (i : ℕ) (t : HashTable (List ℕ) ℕ) (k : List ℕ)
    → hash_find (enter_tokens ws i t) k ≡ or_find (number_of ws i k) (hash_find t k)
unfolding enter_tokens number_of
enter_tokens-find [] i t k = refl
enter_tokens-find (w ∷ ws) i t k = ground (
  arith,
  enter_tokens-find ws (i + 1) (hash_insert t i w) k,
  hash_find-view (hash_insert t i w) k,
  hash_find-view t k,
  view-hash_insert t i w k,
)

cleared_before :
    (i n : ℕ) (m : Memory (Chain (List ℕ) ℕ)) (j : ℕ) → j < i → clear_buckets i n m j ≡ m j
unfolding clear_buckets
cleared_before i zero m j lt = refl
cleared_before i (suc n) m j lt = ground (arith, cleared_before (suc i) n (store m i []) j)

cleared :
    (i n : ℕ) (m : Memory (Chain (List ℕ) ℕ)) (j : ℕ)
    → i ≤ j
    → j < i + n
    → clear_buckets i n m j ≡ []
unfolding clear_buckets
cleared i zero m j le lt = absurd (omega arith)
cleared i (suc n) m j le lt = elim (Bool-cases (i == j)) [
  | inl here ↦ ground (arith, cleared_before (suc i) n (store m i []) j)
  | inr later ↦ cleared (suc i) n (store m i []) j (ground arith) (omega arith)
]

bucket_lt : (k : List ℕ) → bucket 100 k < 100
unfolding bucket string_hash
bucket_lt k = omega arith

nothing_yet :
    (old : Memory (Chain (List ℕ) ℕ)) (k : List ℕ) → hash_find (hash_init 100 old) k ≡ none
unfolding hash_find hash_init find_in
nothing_yet old k =
    ap (λ c. find_in c k) (cleared 0 100 old (bucket 100 k) (omega arith) (bucket_lt k))

or_find-none : (o : Option ℕ) → or_find o none ≡ o
or_find-none none = refl
or_find-none (some j) = refl

-- After parser_init, hash_find gives for every text the number of its place in token_table, the
-- last one if there are several, and nothing for a text that does not stand there.
pub hash_find-parser_init :
    (old : Memory (Chain (List ℕ) ℕ)) (k : List ℕ)
    → hash_find (parser_init old) k ≡ number_of token_table 2 k
unfolding parser_init
hash_find-parser_init old k =
    enter_tokens-find token_table 2 (hash_init 100 old) k
    ∙ ap (or_find (number_of token_table 2 k)) (nothing_yet old k)
    ∙ or_find-none (number_of token_table 2 k)
