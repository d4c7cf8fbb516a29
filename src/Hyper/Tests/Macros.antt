-- ===== src/Hyper/Tests/Macros.antt =====
-- A macro in a file, and its call on a page.
use open_axiom.Prelude.{◌⊎◌, ◌≤◌, ℕ, ◌≡◌, ◌≢◌, ◌↔◌, refl, true, false, some, List, [], ◌∷◌, arith}
use open_axiom.Hyper.Lex.{Outcome, ok, fault, out_of_fuel, Scanner, get_char}
use open_axiom.Hyper.Lex.Get.{codes}
use open_axiom.Hyper.Lex.Keywords.{number_of}
use open_axiom.Hyper.Lex.States.{Source, save_scanner_state, restore_scanner_state, read_string}
use open_axiom.Hyper.Lex.States.Laws.{mixed, restore_scanner_state-save_scanner_state}
use open_axiom.Hyper.Tests.Lex.{scanner, tables}
use open_axiom.Hyper.Macros.{get_parameter_strings, number, atoi_from, int_limit}
use open_axiom.Hyper.Macros.Arguments.{Balanced, Has, nothing, plain, group}
use open_axiom.Hyper.Macros.Calls.{IsArgument, call, get_parameter_strings-call}
use open_axiom.Hyper.Macros.Ends.{get_parameter_strings_total, chosen_parameter-fault}
use open_axiom.Hyper.Macros.Load.{MacroStore, load_macro, chosen_parameter}

abbrev page : Source
page = record {
  scanner = scanner (codes "cd");
  page_start_fpos = 2;
  cfile = some (codes "abcd");
  file_left = [];
  input_string = [];
  pipe_left = [];
  top_state_node = [];
}

-- The page after a string is entered and its first character read.
abbrev meanwhile : Source
meanwhile =
    let s = read_string (codes "xy") (save_scanner_state page) in
    record s { scanner = (get_char false s.scanner).1 }

restore_example :
    (r : Source) × (restore_scanner_state meanwhile ≡ some r)
    × (r.scanner ≡ mixed page.scanner meanwhile.scanner)
    × (r.cfile ≡ page.cfile)
    × (r.page_start_fpos ≡ page.page_start_fpos)
    × (r.top_state_node ≡ page.top_state_node)
unfolding read_string
restore_example =
    restore_scanner_state-save_scanner_state (codes "abcd") page meanwhile refl (λ e. cc)
      (λ e. refl) refl

-- `a{b}` and `#`, and a word behind them.
abbrev texts : List (List ℕ)
texts = codes "a{b}" ∷ codes "#" ∷ []

braced : Balanced (codes "a{b}")
braced =
    plain (λ e. omega arith) (λ e. omega arith) (λ e. omega arith)
      (group (plain (λ e. omega arith) (λ e. omega arith) (λ e. omega arith) nothing) nothing)

hash : Balanced (codes "#")
hash = plain (λ e. omega arith) (λ e. omega arith) (λ e. omega arith) nothing

braced-IsArgument : IsArgument (codes "a{b}")
braced-IsArgument = record {
  balanced = braced;
  short = omega arith;
  whole = (λ e. omega arith, (λ e. omega arith, (λ e. omega arith, (λ e. omega arith, tt))));
}

hash-IsArgument : IsArgument (codes "#")
hash-IsArgument = record { balanced = hash; short = omega arith; whole = (λ e. omega arith, tt) }

call_example :
    (t : Scanner) × (get_parameter_strings 20 tables 2 [] (scanner (call texts (codes " x")))
      ≡ ok (texts ∷ [], t))
    × Has (codes " x") t
call_example =
    get_parameter_strings-call tables refl 20 texts (codes " x") (scanner (call texts (codes " x")))
      ((braced-IsArgument, omega arith), ((hash-IsArgument, omega arith), tt))
      (record { input = refl; clear = refl; fresh = refl })

arguments_end_example :
    get_parameter_strings 20 tables 1 (texts ∷ []) (scanner (codes "{a#1}")) ≢ out_of_fuel
arguments_end_example =
    get_parameter_strings_total 20 tables 1 (texts ∷ []) (scanner (codes "{a#1}")) (omega arith)

number_zero_example : (chosen_parameter (codes "0") (texts ∷ []) ≡ fault) ↔ (
    (number (codes "0") ≡ true)
    × ((atoi_from 0 (codes "0") ≡ 0) ⊎ (int_limit ≤ atoi_from 0 (codes "0"))))
number_zero_example = chosen_parameter-fault (codes "0") texts []

abbrev text_of_macro : Outcome (MacroStore × Source) → List ℕ
text_of_macro (ok (m, _)) = m.macro_string
text_of_macro _ = []

abbrev bold : MacroStore
bold = record {
  loaded = false;
  file = codes "f";
  pos = 2;
  ln = 1;
  name = codes "b";
  macro_string = [];
  number_parameters = 0;
}

-- The text of a macro with one parameter, with a group in it.
loaded_text :
    text_of_macro (
      load_macro 40 20
        (record tables { is_macro = λ w. true })
        (λ f. codes ". \\newcommand{\\b}[1]{x{#1}} y")
        bold
        page)
    ≡ codes "x{#1}"
unfolding load_macro number_of
loaded_text = refl
