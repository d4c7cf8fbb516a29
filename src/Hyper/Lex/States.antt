-- ===== src/Hyper/Lex/States.antt =====
-- The stack of scanner states of src/hyper/lex.c, with find_fp of src/hyper/parse-aux.c: a macro or a
-- patch in another file, or a string, is scanned in the middle of a page.
pub mod Laws
use open_axiom.Prelude.{
  drop, ℕ, zero, suc, ◌+◌, Bool, true, false, Option, none, some, List, [], ◌∷◌,
}
use open_axiom.Hyper.Lex.{SourceInputKind, file, string, unix_fd, Token, TokenType, Scanner}

-- `struct StateNode` without its link. A file is its text, and the text of the token is in the
-- scanner's own buffer, so of the token its type is kept.
pub record StateNode : Type 0 where
  pub page_start_fpos : ℕ
  pub fpos : ℕ
  pub keyword_fpos : ℕ
  pub last_ch : Option (Option ℕ)
  pub last_token : Bool
  pub token : TokenType
  pub input_type : SourceInputKind
  pub input_string : List ℕ
  pub cfile : Option (List ℕ)
  pub keyword : Bool

-- The scanner, what `cfile`, `input_string` and `unixfd` have still to give, and the saved states;
-- what the scanner reads is its own `input`.
pub record Source : Type 0 where
  pub scanner : Scanner
  pub page_start_fpos : ℕ
  pub cfile : Option (List ℕ)
  pub file_left : List ℕ
  pub input_string : List ℕ
  pub pipe_left : List ℕ
  pub top_state_node : List StateNode

-- What the scanner has still to read goes to the place it comes from.
unfoldable pub park : Source → Source
park s =
    let now = s.scanner.input in
    let k = s.scanner.input_type in
    record s {
      file_left = elim k [ file ↦ now | string ↦ s.file_left | unix_fd ↦ s.file_left ];
      input_string = elim k [ file ↦ s.input_string | string ↦ now | unix_fd ↦ s.input_string ];
      pipe_left = elim k [ file ↦ s.pipe_left | string ↦ s.pipe_left | unix_fd ↦ now ];
    }

unfoldable pub left_of : SourceInputKind → Source → List ℕ
left_of file s = s.file_left
left_of string s = s.input_string
left_of unix_fd s = s.pipe_left

unfoldable pub init_scanner : Source → Source
unfolding park
init_scanner s =
    let t = park s in
    record t {
      scanner = record t.scanner {
        keyword = false;
        last_ch = none;
        last_token = false;
        input_type = file;
        input = t.file_left;
        fpos = 0;
        keyword_fpos = 0;
        line_number = 1;
      };
    }

-- `cfile = find_fp(fp)`, with the text of the file `fp.name`, `fp.pos` and `fp.ln`.
unfoldable pub find_fp : (text : List ℕ) → (pos ln : ℕ) → Source → Source
unfolding park left_of
find_fp text pos ln s =
    let t = park s in
    record t {
      cfile = some text;
      file_left = drop pos text;
      page_start_fpos = pos;
      scanner = record t.scanner {
        line_number = ln;
        input = left_of t.scanner.input_type (record t { file_left = drop pos text });
      };
    }

unfoldable pub save_scanner_state : Source → Source
unfolding park
save_scanner_state s =
    let t = park s in
    record t {
      top_state_node =
          record {
            page_start_fpos = t.page_start_fpos;
            fpos = t.scanner.fpos;
            keyword_fpos = t.scanner.keyword_fpos;
            last_ch = t.scanner.last_ch;
            last_token = t.scanner.last_token;
            token = t.scanner.token.type;
            input_type = t.scanner.input_type;
            input_string = t.input_string;
            cfile = t.cfile;
            keyword = t.scanner.keyword;
          }
          ∷ t.top_state_node;
    }

-- `if (cfile != NULL) fseek(cfile, fpos + page_start_fpos, 0);`
unfoldable pub file_at : (cfile : Option (List ℕ)) → ℕ → List ℕ → List ℕ
file_at none n left = left
file_at (some text) n left = drop n text

unfoldable pub put_state : StateNode → Source → Source
unfolding park file_at
put_state x s =
    let t = park s in
    record t {
      page_start_fpos = x.page_start_fpos;
      cfile = x.cfile;
      file_left = file_at x.cfile (x.fpos + x.page_start_fpos) t.file_left;
      input_string = x.input_string;
      scanner = record t.scanner {
        fpos = x.fpos;
        keyword_fpos = x.keyword_fpos;
        last_ch = x.last_ch;
        last_token = x.last_token;
        token = record t.scanner.token { type = x.token };
        input_type = x.input_type;
        keyword = x.keyword;
      };
    }

-- Without a saved state the program ends.
unfoldable pub restore_scanner_state : Source → Option Source
unfolding put_state left_of
restore_scanner_state s = elim s.top_state_node [
  | [] ↦ none
  | x ∷ below ↦
      let t = put_state x s in
      some (record t {
        scanner = record t.scanner { input = left_of x.input_type t };
        top_state_node = below;
      })
]

-- The first steps of parse_from_string, behind save_scanner_state.
unfoldable pub read_string : (str : List ℕ) → Source → Source
unfolding park
read_string str s =
    let t = park s in
    record t {
      input_string = str;
      scanner = record t.scanner {
        last_ch = none;
        last_token = false;
        input = str;
        input_type = string;
      };
    }
