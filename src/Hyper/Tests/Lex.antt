-- ===== src/Hyper/Tests/Lex.antt =====
-- The scanner on a small file.
use open_axiom.Prelude.{ℕ, ◌≡◌, ◌≢◌, refl, true, false, none, List, [], ◌∷◌, arith}
use open_axiom.Prelude.Memory.{Memory}
use open_axiom.Hash.{Chain, hash_find}
use open_axiom.Hash.Strings.{string_hashing}
use open_axiom.Hyper.Lex.{Outcome, ok, out_of_fuel, file, Token, eof, Scanner, beginitems_token}
use open_axiom.Hyper.Lex.Get.{Tables, codes}
use open_axiom.Hyper.Lex.Scan.{get_token}
use open_axiom.Hyper.Lex.Keywords.{token_table, parser_init, number_of, hash_find-parser_init}
use open_axiom.Hyper.Lex.Laws.Tokens.{get_token_total}
use open_axiom.Hyper.Lex.Laws.Single.{Reads, get_token-Reads}

abbrev old : Memory (Chain (List ℕ) ℕ)
old i = []

abbrev pub tables : Tables
tables = record {
  use_ascii = false;
  has_window = true;
  in_verbatim = false;
  in_spadsrc = false;
  keyword_of = number_of token_table 2;
  is_macro = λ w. false;
  is_box = λ w. false;
  is_cond = λ w. false;
}

abbrev no_token : Token
no_token = record { type = eof; space = 0; id = [] }

abbrev pub scanner : List ℕ → Scanner
scanner text = record {
  input_type = file;
  input = text;
  last_ch = none;
  last_token = false;
  token = no_token;
  unget_toke = no_token;
  fpos = 0;
  keyword_fpos = 0;
  keyword = false;
  line_number = 1;
  be_stack = [];
}

abbrev stack_of : Outcome Scanner → List (ℕ × List ℕ)
stack_of (ok s) = s.be_stack
stack_of _ = []

-- A comment, and then \begin, which reads three more tokens and keeps the name of the block.
begin_items :
    stack_of (get_token 60 tables (scanner (codes "% note\n\\begin{items} x")))
    ≡ (beginitems_token, codes "items") ∷ []
unfolding get_token number_of
begin_items = refl

get_token_example : get_token 30 tables (scanner (codes "\\begin{items} x")) ≢ out_of_fuel
get_token_example = get_token_total 30 tables (scanner (codes "\\begin{items} x")) (omega arith)

word_example : Reads (get_token 10 tables (scanner (codes "  ab c"))) 2 (codes "ab") (codes " c")
word_example =
    get_token-Reads tables 9 2 b'a' (b'b' ∷ []) b' ' (b'c' ∷ []) (scanner (codes "  ab c")) refl
      refl refl refl (omega arith) (omega arith) (omega arith) (omega arith) (refl, (refl, tt)) refl
      refl

keyword_example :
    hash_find (parser_init old) (codes "begin") ≡ number_of token_table 2 (codes "begin")
keyword_example = hash_find-parser_init old (codes "begin")
