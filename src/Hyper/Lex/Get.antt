-- ===== src/Hyper/Lex/Get.antt =====
-- get_token of src/hyper/lex.c and what it calls: the keywords, and \begin and \end, which read
-- tokens themselves.
use open_axiom.Prelude.{
  ℕ, zero, suc, ◌+◌, Bool, true, false, not, Option, none, some, List, [], ◌∷◌, ◌++◌, ◌==◌, leb,
  if◌then◌else◌, ◌&&◌, ◌||◌, length,
}
use Prim.Native.Char.{code}
use Prim.Native.String.{String}
use open_axiom.Hash.Strings.{string_equal}
use open_axiom.Hyper.Lex.{
  Outcome, ok, jumped, fault, out_of_fuel, ◌>>=◌, kind, eof, Scanner, is_newline, get_char,
  unget_char, word_token, page_token, beginscroll_token, begin_token, beginitems_token,
  begintitems_token, end_token, patch_token, lbrace_token, rbrace_token, macro_token,
  verbatim_token, cond_token, boxcond_token, unkeyword_token, paste_token, spadsrc_token,
}

-- What the scanner reads of the program: useAscii, whether there is a window, gInVerbatim and
-- gInSpadsrc, tokenHashTable, and the tables of macros, boxes and conditions.
pub record Tables : Type 0 where
  pub use_ascii : Bool
  pub has_window : Bool
  pub in_verbatim : Bool
  pub in_spadsrc : Bool
  pub keyword_of : List ℕ → Option ℕ
  pub is_macro : List ℕ → Bool
  pub is_box : List ℕ → Bool
  pub is_cond : List ℕ → Bool

abbrev pub among : ℕ → List ℕ → Bool
among c [] = false
among c (x ∷ xs) = c == x || among c xs

abbrev pub whitespace : ℕ → Bool
whitespace c = c == b' ' || c == b'\t' || c == b'\n'

abbrev pub special : ℕ → Bool
special c =
    among c (
      b'{' ∷ b'}' ∷ b'#' ∷ b'%' ∷ b'\\' ∷ b'[' ∷ b']' ∷ b'_' ∷ b' ' ∷ b'$' ∷ b'~' ∷ b'^' ∷ b'&'
      ∷ [])

abbrev pub punctuation : ℕ → Bool
punctuation c = among c (b'`' ∷ 39 ∷ b',' ∷ b'.' ∷ b'?' ∷ 34 ∷ b';' ∷ b':' ∷ b'-' ∷ [])

abbrev pub delim : ℕ → Bool
delim c = whitespace c || special c || punctuation c

-- The cases of the switch that make a punctuation token.
abbrev pub is_punctuation : ℕ → Bool
is_punctuation c = among c (b'`' ∷ 39 ∷ b',' ∷ b'.' ∷ b'!' ∷ b'?' ∷ 34 ∷ b':' ∷ b';' ∷ [])

abbrev pub is_alpha : ℕ → Bool
is_alpha c = leb b'A' c && leb c b'Z' || leb b'a' c && leb c b'z'

abbrev pub is_digit : ℕ → Bool
is_digit c = leb b'0' c && leb c b'9'

abbrev pub holds : (ℕ → Bool) → Option ℕ → Bool
holds p none = false
holds p (some c) = p c

abbrev pub char_list : Option ℕ → List ℕ
char_list none = []
char_list (some c) = c ∷ []

-- What the loop over white space finds: the first other character, or an empty line.
pub record White : Type 0 where
  pub ch : Option ℕ
  pub par : Bool
  pub seen : ℕ
  pub rest : Scanner

unfoldable pub skip_white : ℕ → (use_ascii nls : Bool) → (seen : ℕ) → Scanner → Outcome White
unfolding get_char
skip_white zero a nls seen s = out_of_fuel
skip_white (suc f) a nls seen s =
    let (c, t) = get_char a s in
    let more = skip_white f a (nls || is_newline c) (seen + 1) t in
    if holds whitespace c
    then if nls && is_newline c
      then ok (record { ch = c; par = true; seen = seen + 1; rest = t })
      else more
    else ok (record { ch = c; par = false; seen = seen; rest = t })

-- `while ((c = get_char()) != EOF && p(c)) *buf++ = c;` and `unget_char(c)`.
unfoldable pub take_run :
    ℕ → (use_ascii : Bool) → (ℕ → Bool) → List ℕ → Scanner → Outcome (List ℕ × Scanner)
unfolding get_char unget_char
take_run zero a p buf s = out_of_fuel
take_run (suc f) a p buf s =
    let (c, t) = get_char a s in
    let more = take_run f a p (buf ++ char_list c) t in
    if holds p c then more else ok (buf, unget_char c t)

abbrev pub set_type : ℕ → Scanner → Scanner
set_type k s = record s { token = record s.token { type = kind k } }

abbrev pub set_token : ℕ → List ℕ → Scanner → Scanner
set_token k w s = record s { token = record s.token { type = kind k; id = w } }

-- The text of the token is in a buffer of 1024 characters, with the spaces in front and NUL.
unfoldable pub finish_token : ℕ → List ℕ × Scanner → Outcome Scanner
finish_token k (w, s) = if leb 1023 (length w) then fault else ok (set_token k w s)

unfoldable pub get_expected_token : (Scanner → Outcome Scanner) → ℕ → Scanner → Outcome Scanner
get_expected_token next k s =
    next s >>= λ t. elim t.token.type [ eof ↦ jumped | kind j ↦ if j == k then ok t else jumped ]

abbrev pub codes : String → List ℕ
codes String.[] = []
codes (String.◌∷◌ c s) = code c ∷ codes s

-- The words that \begin and \end know.
unfoldable pub environment : List ℕ → Option ℕ
unfolding string_equal
environment w =
    if string_equal w (codes "titems")
    then some begintitems_token
    else if string_equal w (codes "page")
    then some page_token
    else if string_equal w (codes "paste")
    then some paste_token
    else if string_equal w (codes "patch")
    then some patch_token
    else if string_equal w (codes "verbatim")
    then some verbatim_token
    else if string_equal w (codes "scroll")
    then some beginscroll_token
    else if string_equal w (codes "spadsrc")
    then some spadsrc_token
    else if string_equal w (codes "items")
    then some beginitems_token
    else none

-- The new state, and whether the word is known; the brace behind it is read only then.
unfoldable pub be_type : (Scanner → Outcome Scanner) → Scanner → Outcome (Scanner × Bool)
unfolding get_expected_token environment
be_type next s = get_expected_token next lbrace_token s >>= λ t.
    get_expected_token next word_token t >>= λ u. elim (environment u.token.id) [
      | none ↦ ok (u, false)
      | some k ↦ get_expected_token next rbrace_token u >>= λ v. ok (set_type k v, true)
    ]

abbrev pub type_of : Scanner → ℕ
type_of s = elim s.token.type [ eof ↦ 0 | kind k ↦ k ]

unfoldable pub push_be_stack : Tables → Scanner → Scanner
push_be_stack e s =
    if e.has_window then record s { be_stack = (type_of s, s.token.id) ∷ s.be_stack } else s

unfoldable pub check_and_pop_be_stack : Tables → Scanner → Outcome Scanner
check_and_pop_be_stack e s = elim s.be_stack [
  | [] ↦ if e.has_window then jumped else ok s
  | top ∷ rest ↦
      if not e.has_window
      then ok s
      else if top.0 == type_of s
      then ok (record s { be_stack = rest })
      else jumped
]

unfoldable pub begin_type : Tables → (Scanner → Outcome Scanner) → Scanner → Outcome Scanner
unfolding be_type push_be_stack
begin_type e next s = be_type next s >>= λ (t, known).
    if not known
    then if not e.has_window || e.in_verbatim then ok t else jumped
    else ok (
        if e.has_window
          && not e.in_verbatim
          && not (type_of t == verbatim_token)
          && not (type_of t == spadsrc_token)
        then push_be_stack e t
        else t)

-- Whether \end pops the stack.
abbrev pub ends_block : Tables → ℕ → Bool
ends_block e k =
    e.has_window
    && (not e.in_verbatim
        || e.in_verbatim && k == verbatim_token
        || e.in_spadsrc && k == spadsrc_token)

unfoldable pub end_type : Tables → (Scanner → Outcome Scanner) → Scanner → Outcome Scanner
unfolding be_type check_and_pop_be_stack
end_type e next s = be_type next s >>= λ (t, known).
    let ended = λ (u : Scanner). ok (set_type (type_of u + 3000) u) in
    if not known
    then if not e.has_window || e.in_verbatim then ok t else jumped
    else if ends_block e (type_of t)
    then check_and_pop_be_stack e t >>= ended
    else ended t

-- What a word that is no keyword means.
abbrev pub name_type : Tables → List ℕ → ℕ
name_type e w =
    if not e.has_window
    then unkeyword_token
    else if e.is_macro w
    then macro_token
    else if e.is_box w
    then boxcond_token
    else if e.is_cond w
    then cond_token
    else unkeyword_token

unfoldable pub keyword_type : Tables → (Scanner → Outcome Scanner) → Scanner → Outcome Scanner
unfolding begin_type end_type
keyword_type e next s = elim (e.keyword_of s.token.id) [
  | none ↦ ok (set_type (name_type e s.token.id) s)
  | some k ↦
      let t = set_type k s in
      if k == begin_token
      then begin_type e next t
      else if k == end_token
      then end_type e next t
      else ok t
]
