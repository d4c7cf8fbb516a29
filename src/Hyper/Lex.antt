-- ===== src/Hyper/Lex.antt =====
-- src/hyper/lex.c: the scanner of HyperDoc pages, on a file, a string or a pipe. `none` as a
-- character is EOF. What a page in a socket adds, messages, and the scanner's time of day are left
-- out; the tables of the window are functions.
pub mod Get
pub mod Keywords
pub mod Laws
pub mod Scan
pub mod States
use open_axiom.Prelude.{
  ℕ, zero, suc, ◌+◌, ◌-◌, Bool, true, false, not, Option, none, some, List, [], ◌∷◌, ◌++◌, ◌==◌,
  ltb, leb, if◌then◌else◌, ◌&&◌, ◌||◌, length,
}

-- `jumped` is a longjmp to the page of errors or an exit; `fault` a write behind a buffer, a read
-- outside a list, or something else that C leaves open; `out_of_fuel` has no counterpart in the
-- program.
pub data Outcome {ℓ} (A : Type ℓ) : Type ℓ where
  ok : A → Outcome A
  jumped fault out_of_fuel : Outcome A

infixl 5 ◌>>=◌
abbrev pub ◌>>=◌ {ℓ κ} : {A : Type ℓ} {B : Type κ} → Outcome A → (A → Outcome B) → Outcome B
ok a >>= f = f a
jumped >>= f = jumped
fault >>= f = fault
out_of_fuel >>= f = out_of_fuel

pub data SourceInputKind : Type 0 where
  file string unix_fd : SourceInputKind

pub data TokenType : Type 0 where
  eof : TokenType
  kind : ℕ → TokenType

-- The numbers of src/hyper/token.h.
abbrev pub word_token : ℕ
word_token = 1

abbrev pub page_token : ℕ
page_token = 2

abbrev pub beginscroll_token : ℕ
beginscroll_token = 7

abbrev pub par_token : ℕ
par_token = 11

abbrev pub begin_token : ℕ
begin_token = 13

abbrev pub beginitems_token : ℕ
beginitems_token = 14

abbrev pub begintitems_token : ℕ
begintitems_token = 60

abbrev pub end_token : ℕ
end_token = 62

abbrev pub patch_token : ℕ
patch_token = 87

abbrev pub lbrace_token : ℕ
lbrace_token = 1001

abbrev pub rbrace_token : ℕ
rbrace_token = 1002

abbrev pub macro_token : ℕ
macro_token = 1003

abbrev pub pound_token : ℕ
pound_token = 1006

abbrev pub lsquarebrace_token : ℕ
lsquarebrace_token = 1007

abbrev pub rsquarebrace_token : ℕ
rsquarebrace_token = 1008

abbrev pub punctuation_token : ℕ
punctuation_token = 1009

abbrev pub dash_token : ℕ
dash_token = 1010

abbrev pub verbatim_token : ℕ
verbatim_token = 1015

abbrev pub dollar_token : ℕ
dollar_token = 1017

abbrev pub cond_token : ℕ
cond_token = 1022

abbrev pub boxcond_token : ℕ
boxcond_token = 1026

abbrev pub unkeyword_token : ℕ
unkeyword_token = 1027

abbrev pub paste_token : ℕ
paste_token = 1029

abbrev pub spadsrc_token : ℕ
spadsrc_token = 1030

-- `space` is `id[-1]`, the first character of the buffer.
pub record Token : Type 0 where
  pub type : TokenType
  pub space : ℕ
  pub id : List ℕ

-- The variables of the scanner; `input` is what getc or `*input_string++` will give.
pub record Scanner : Type 0 where
  pub input_type : SourceInputKind
  pub input : List ℕ
  pub last_ch : Option (Option ℕ)
  pub last_token : Bool
  pub token : Token
  pub unget_toke : Token
  pub fpos : ℕ
  pub keyword_fpos : ℕ
  pub keyword : Bool
  pub line_number : ℕ
  pub be_stack : List (ℕ × List ℕ)

abbrev pub is_newline : Option ℕ → Bool
is_newline none = false
is_newline (some c) = c == b'\n'

abbrev pub is_file : SourceInputKind → Bool
is_file file = true
is_file _ = false

abbrev pub count_line : Option ℕ → Scanner → Scanner
count_line c s = record s { line_number = s.line_number + (if is_newline c then 1 else 0) }

unfoldable pub unget_char : Option ℕ → Scanner → Scanner
unget_char c s = record s {
  line_number = if is_newline c then s.line_number - 1 else s.line_number;
  last_ch = some c;
}

-- getc, or the next character of the string; on a file `fpos` grows at its end too.
unfoldable pub next_char : List ℕ → Scanner → Option ℕ × Scanner
next_char [] s = (none, record s { fpos = if is_file s.input_type then s.fpos + 1 else s.fpos })
next_char (c ∷ cs) s = (
  some c,
  count_line (some c)
      (record s { input = cs; fpos = if is_file s.input_type then s.fpos + 1 else s.fpos }),
)

unfoldable pub get_char1 : Scanner → Option ℕ × Scanner
unfolding next_char
get_char1 s = elim s.last_ch [
  | some c ↦ (c, count_line c (record s { last_ch = none }))
  | none ↦ next_char s.input s
]

-- The line drawing characters of code page 850.
unfoldable pub to_ascii : ℕ → ℕ
to_ascii c =
    if c == 196 || c == 194 || c == 193
    then b'-'
    else if c == 218 || c == 192 || c == 197 || c == 191 || c == 217
    then b'+'
    else if c == 195
    then b'['
    else if c == 180
    then b']'
    else if c == 179
    then b'|'
    else c

abbrev pub map_char : (ℕ → ℕ) → Option ℕ → Option ℕ
map_char f none = none
map_char f (some c) = some (f c)

unfoldable pub get_char : (use_ascii : Bool) → Scanner → Option ℕ × Scanner
unfolding get_char1 to_ascii
get_char use_ascii s = let (c, t) = get_char1 s in (if use_ascii then map_char to_ascii c else c, t)

unfoldable pub unget_token : Scanner → Scanner
unget_token s = record s { last_token = true; unget_toke = s.token }

-- `strcpy(buffer, unget_toke.id)`: the copy of the spaces and the text ends at once if there were no
-- spaces, and the text of the buffer stays.
unfoldable pub reread : Scanner → Scanner
reread s = record s {
  last_token = false;
  token = record {
    type = s.unget_toke.type;
    space = s.unget_toke.space;
    id = if s.unget_toke.space == 0 then s.token.id else s.unget_toke.id;
  };
}
