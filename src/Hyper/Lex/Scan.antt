-- ===== src/Hyper/Lex/Scan.antt =====
-- get_token of src/hyper/lex.c.
use open_axiom.Prelude.{
  ◌%◌, ℕ, zero, suc, ◌+◌, ◌-◌, Bool, true, false, not, Option, none, some, List, [], ◌∷◌, ◌==◌,
  if◌then◌else◌, ◌&&◌,
}
use open_axiom.Hyper.Lex.{
  Outcome, ok, out_of_fuel, ◌>>=◌, kind, eof, Scanner, is_file, get_char, unget_char, reread,
  word_token, par_token, lbrace_token, rbrace_token, pound_token, lsquarebrace_token,
  rsquarebrace_token, punctuation_token, dash_token, dollar_token,
}
use open_axiom.Hyper.Lex.Get.{
  Tables, whitespace, delim, is_punctuation, is_alpha, is_digit, holds, char_list, skip_white,
  take_run, set_type, set_token, finish_token, keyword_type,
}

-- The first character of the buffer, and `keyword = 0;`.
-- `*buf++ = seen_white` into a char of eight bits, which is kept as its code.
unfoldable pub start_token : (seen : ℕ) → Scanner → Scanner
start_token seen s = record s {
  token = record s.token { space = if s.keyword then 0 else seen % 256 };
  keyword = false;
}

abbrev pub mark_keyword : List ℕ × Scanner → List ℕ × Scanner
mark_keyword (w, s) = (w, record s { keyword = true })

-- EOF as a character is -1.
abbrev pub escaped : Option ℕ → List ℕ
escaped none = 255 ∷ []
escaped (some c) = c ∷ []

-- A backslash, with `s` behind it: a word of one character that is no letter, or a keyword.
unfoldable pub backslash : Tables → (Scanner → Outcome Scanner) → ℕ → Scanner → Outcome Scanner
unfolding get_char take_run finish_token keyword_type
backslash e next f s =
    let t = record s { keyword_fpos = s.fpos - 1 } in
    let (c, u) = get_char e.use_ascii t in
    let word = take_run f e.use_ascii is_alpha (char_list c) u >>= λ r.
    finish_token word_token (mark_keyword r) >>= λ v. keyword_type e next v in
    if holds is_alpha c then word else ok (set_token word_token (escaped c) u)

-- Whether white space stands in front is FRONTSPACE, 1; BACKSPACE, 2, is white space behind.
unfoldable pub put_punctuation : (use_ascii : Bool) → ℕ → Scanner → Scanner
unfolding get_char unget_char
put_punctuation a c s =
    let (d, t) = get_char a s in
    let front : ℕ = if s.token.space == 0 then 0 else 1 in
    let back : ℕ = if holds whitespace d then 2 else 0 in
    let u = unget_char d t in
    record u { token = record { type = kind punctuation_token; space = front + back; id = c ∷ [] } }

abbrev pub is_dash : ℕ → Bool
is_dash c = c == b'-'

abbrev pub no_delim : ℕ → Bool
no_delim c = not (delim c)

-- The switch over the first character.
unfoldable pub dispatch : Tables → (Scanner → Outcome Scanner) → ℕ → ℕ → Scanner → Outcome Scanner
unfolding backslash put_punctuation take_run finish_token
dispatch e next f c s =
    let a = e.use_ascii in
    if c == b'\\'
    then backslash e next f s
    else if c == b'{'
    then ok (set_type lbrace_token s)
    else if c == b'}'
    then ok (set_type rbrace_token s)
    else if c == b'['
    then ok (set_token lsquarebrace_token (c ∷ []) s)
    else if c == b']'
    then ok (set_token rsquarebrace_token (c ∷ []) s)
    else if c == b'#'
    then (take_run f a is_digit [] s >>= λ r. finish_token pound_token r)
    else if is_punctuation c
    then ok (put_punctuation a c s)
    else if is_dash c
    then (take_run f a is_dash (c ∷ []) s >>= λ r. finish_token dash_token r)
    else take_run f a no_delim (c ∷ []) s >>= λ r. finish_token word_token r

abbrev pub set_eof : Scanner → Scanner
set_eof s = record s { token = record s.token { type = eof } }

abbrev pub no_newline : ℕ → Bool
no_newline c = not (c == b'\n')

-- A comment up to the end of its line, and the token behind it.
unfoldable pub skip_comment : Tables → (Scanner → Outcome Scanner) → ℕ → Scanner → Outcome Scanner
unfolding take_run
skip_comment e next f s = take_run f e.use_ascii no_newline [] s >>= λ (_, t). next t

unfoldable pub after_white :
    Tables → (Scanner → Outcome Scanner) → ℕ → Option ℕ → Scanner → Outcome Scanner
unfolding skip_comment dispatch
after_white e next f none s = ok (set_eof s)
after_white e next f (some c) s =
    if c == b'%'
    then skip_comment e next f s
    else if is_file s.input_type && c == b'$'
    then ok (set_type dollar_token s)
    else dispatch e next f c s

-- Each call takes a unit of the fuel, and its loops the rest of it.
unfoldable pub get_token : ℕ → Tables → Scanner → Outcome Scanner
unfolding reread skip_white start_token after_white
get_token zero e s = out_of_fuel
get_token (suc f) e s =
    let scan = skip_white f e.use_ascii false 0 s >>= λ w.
    if w.par
    then ok (set_type par_token w.rest)
    else after_white e (λ t. get_token f e t) f w.ch (start_token w.seen w.rest) in
    if s.last_token then ok (reread s) else scan
