-- ===== src/Hyper/Macros/Load.antt =====
-- src/hyper/macro.c: a macro is read from its file when it is used first, with the state of the scanner
-- saved; and the choice of a parameter. The number of parameters is taken to be below 2^15.
use open_axiom.Prelude.{
  ℕ, zero, suc, ◌+◌, ◌-◌, Bool, true, false, not, Option, none, some, List, [], ◌∷◌, ◌==◌, ltb,
  ◌||◌, if◌then◌else◌, length, take, drop,
}
use open_axiom.Hash.Strings.{string_equal}
use open_axiom.Hyper.Lex.{
  Outcome, ok, jumped, fault, out_of_fuel, ◌>>=◌, kind, eof, Scanner, TokenType, lbrace_token,
  rbrace_token, macro_token, word_token, lsquarebrace_token, rsquarebrace_token,
}
use open_axiom.Hyper.Lex.Get.{Tables, get_expected_token}
use open_axiom.Hyper.Lex.Scan.{get_token}
use open_axiom.Hyper.Lex.States.{
  Source, init_scanner, find_fp, save_scanner_state, restore_scanner_state, read_string,
}
use open_axiom.Hyper.Macros.{ParameterList, number, atoi, parameter, is_lbrace}

abbrev pub new_command_token : ℕ
new_command_token = 56

abbrev pub endpatch_token : ℕ
endpatch_token = 3087

-- The open braces behind a token; messages are left out.
unfoldable pub count_braces : TokenType → (braces : ℕ) → ℕ
count_braces eof n = n
count_braces (kind k) n =
    if k == lbrace_token
    then n + 1
    else if k == endpatch_token || k == rbrace_token
    then n - 1
    else n

abbrev pub or_end : TokenType → Outcome Scanner → Outcome Scanner
or_end eof r = jumped
or_end (kind k) r = r

-- `while (number_of_left_braces)`, on fuel, with `g` for get_token, and without a window.
unfoldable pub scan_braces : (g f : ℕ) → Tables → (braces : ℕ) → Scanner → Outcome Scanner
unfolding get_token count_braces
scan_braces g f e zero s = ok s
scan_braces g zero e (suc n) s = out_of_fuel
scan_braces g (suc f) e (suc n) s = get_token g e s >>= λ t.
    let rest = scan_braces g f e (count_braces t.token.type (suc n)) t in or_end t.token.type rest

unfoldable pub scan_hyper_doc : (g f : ℕ) → Tables → Scanner → Outcome Scanner
unfolding scan_braces
scan_hyper_doc g f e s = scan_braces g f (record e { has_window = false }) 1 s

-- `struct MacroStore`; `file`, `pos` and `ln` are its FilePosition.
pub record MacroStore : Type 0 where
  pub loaded : Bool
  pub file : List ℕ
  pub pos : ℕ
  pub ln : ℕ
  pub name : List ℕ
  pub macro_string : List ℕ
  pub number_parameters : ℕ

-- get_expected_token for each of the kinds.
unfoldable pub expect_tokens : ℕ → Tables → List ℕ → Scanner → Outcome Scanner
unfolding get_expected_token get_token
expect_tokens g e [] s = ok s
expect_tokens g e (k ∷ ks) s =
    get_expected_token (λ t. get_token g e t) k s >>= λ t. expect_tokens g e ks t

abbrev pub is_kind : ℕ → TokenType → Bool
is_kind j eof = false
is_kind j (kind k) = k == j

-- `[n]` behind the name, if it is there, and the next token.
unfoldable pub parameter_count : ℕ → Tables → Scanner → Outcome (ℕ × Scanner)
unfolding get_token expect_tokens number atoi
parameter_count g e s = get_token g e s >>= λ t.
    let count : Outcome (ℕ × Scanner) = expect_tokens g e (word_token ∷ []) t >>= λ u.
    let behind : Outcome (ℕ × Scanner) = atoi u.token.id >>= λ n.
    expect_tokens g e (rsquarebrace_token ∷ []) u >>= λ v. get_token g e v >>= λ w. ok (n, w) in
    if number u.token.id then behind else jumped in
    if is_kind lsquarebrace_token t.token.type then count else ok (0, t)

-- The macro's file from its start to the brace in front of its text.
unfoldable pub macro_head : ℕ → Tables → MacroStore → Scanner → Outcome (ℕ × Scanner)
unfolding expect_tokens string_equal parameter_count
macro_head g e m s =
    expect_tokens g e (new_command_token ∷ lbrace_token ∷ macro_token ∷ []) s >>= λ t.
    let behind : Outcome (ℕ × Scanner) = expect_tokens g e (rbrace_token ∷ []) t >>= λ u.
    parameter_count g e u >>= λ (n, v). if is_lbrace v.token.type then ok (n, v) else jumped in
    if string_equal t.token.id m.name then behind else jumped

-- The text of the macro is the file from behind the brace to in front of the last one.
unfoldable pub macro_text : (text : List ℕ) → (pos start fpos : ℕ) → List ℕ
macro_text text pos start fpos = take (fpos - start - 1) (drop (pos + start) text)

abbrev pub or_exit : Option Source → Outcome Source
or_exit none = jumped
or_exit (some s) = ok s

-- `text_of` gives the text of a file by its name.
unfoldable pub load_macro :
    (g f : ℕ)
    → Tables
    → (text_of : List ℕ → List ℕ) → MacroStore
    → Source
    → Outcome (MacroStore × Source)
unfolding save_scanner_state find_fp init_scanner macro_head scan_hyper_doc macro_text
    restore_scanner_state
load_macro g f e text_of m s =
    let text = text_of m.file in
    let t = init_scanner (find_fp text m.pos m.ln (save_scanner_state s)) in
    macro_head g e m t.scanner >>= λ (n, u). scan_hyper_doc g f e u >>= λ v.
    or_exit (restore_scanner_state (record t { scanner = v })) >>= λ r. ok (
      record m {
        loaded = true;
        macro_string = macro_text text m.pos u.fpos v.fpos;
        number_parameters = n;
      },
      r,
    )

-- The text that parse_parameters hands on; `parameters` is read without a test.
unfoldable pub chosen_parameter : (id : List ℕ) → List ParameterList → Outcome (List ℕ)
unfolding number parameter atoi
chosen_parameter w [] = if number w then fault else jumped
chosen_parameter w (top ∷ below) =
    if not (number w)
    then jumped
    else atoi w >>= λ value. if ltb (length top) value then jumped else parameter top value

-- parse_from_string, with the parser of a page as a parameter.
unfoldable pub parse_from_string :
    (parse_hyper_doc : Source → Outcome Source) → (str : List ℕ) → Source → Outcome Source
unfolding save_scanner_state read_string restore_scanner_state
parse_from_string parse str s =
    parse (read_string str (save_scanner_state s)) >>= λ t. or_exit (restore_scanner_state t)
