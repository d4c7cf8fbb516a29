-- ===== src/Hyper/Lex/States/Laws.antt =====
-- The saved states of src/hyper/lex.c: what comes back of the scanner.
use open_axiom.Prelude.{
  drop, ℕ, zero, suc, ◌+◌, ◌≡◌, ◌≢◌, refl, sym, ap, ◌∙◌, Bool, Option, none, some, List, [], ◌∷◌,
  arith, if◌then◌else◌,
}
use open_axiom.Hyper.Lex.{
  SourceInputKind, file, string, unix_fd, Scanner, next_char, get_char1, get_char, unget_char,
  is_file, count_line,
}
use open_axiom.Hyper.Lex.States.{
  StateNode, Source, park, left_of, save_scanner_state, restore_scanner_state, put_state, file_at,
}

-- The file is where `fpos` says, counted from `start`.
abbrev pub IsPlaced : (text : List ℕ) → (start : ℕ) → Scanner → Type 0
IsPlaced text start s = s.input_type ≡ file → s.input ≡ drop (s.fpos + start) text

-- The scanner `s` with what `t` has of the parts that are not saved.
abbrev pub mixed : Scanner → Scanner → Scanner
mixed s t = record s {
  token = record t.token { type = s.token.type };
  unget_toke = t.unget_toke;
  line_number = t.line_number;
  be_stack = t.be_stack;
}

drop-suc :
    (n : ℕ) (text : List ℕ) (c : ℕ) (cs : List ℕ) → drop n text ≡ c ∷ cs → drop (suc n) text ≡ cs
drop-suc zero [] c cs e = cc
drop-suc (suc n) [] c cs e = cc
drop-suc zero (d ∷ ds) c cs e = cc
drop-suc (suc n) (d ∷ ds) c cs e = drop-suc n ds c cs e

drop-suc_end : (n : ℕ) (text : List ℕ) → drop n text ≡ [] → drop (suc n) text ≡ []
drop-suc_end n [] e = refl
drop-suc_end zero (d ∷ ds) e = cc
drop-suc_end (suc n) (d ∷ ds) e = drop-suc_end n ds e

-- The state that a saved one `x` gives, with the others `below` it.
abbrev back : StateNode → List StateNode → Source → Source
back x below t =
    let u = put_state x t in
    record u {
      scanner = record u.scanner { input = left_of x.input_type u };
      top_state_node = below;
    }

restore_top :
    (t : Source) (x : StateNode) (below : List StateNode)
    → t.top_state_node ≡ x ∷ below
    → restore_scanner_state t ≡ some (back x below t)
unfolding restore_scanner_state
restore_top t x below e = rw e refl

left_of-same :
    (k : SourceInputKind) (u : Source) (i : List ℕ)
    → k ≢ unix_fd
    → (k ≡ file → u.file_left ≡ i)
    → (k ≡ string → u.input_string ≡ i)
    → left_of k u ≡ i
unfolding left_of
left_of-same file u i no_pipe in_file in_string = in_file refl
left_of-same string u i no_pipe in_file in_string = in_string refl
left_of-same unix_fd u i no_pipe in_file in_string = absurd (no_pipe refl)

-- After save_scanner_state, and whatever else was scanned with no state added to the stack or taken
-- from it, restore_scanner_state gives back what the scanner has to read, its marks and counts, its
-- file and the stack, on a file or a string, if the file stood where fpos says; the text of the
-- last token, the token that was put back, the number of the line and the open blocks stay as they
-- are then.
pub restore_scanner_state-save_scanner_state :
    (text : List ℕ) (s t : Source)
    → s.cfile ≡ some text
    → s.scanner.input_type ≢ unix_fd
    → IsPlaced text s.page_start_fpos s.scanner
    → t.top_state_node ≡ (save_scanner_state s).top_state_node
    → (r : Source) × (restore_scanner_state t ≡ some r)
      × (r.scanner ≡ mixed s.scanner t.scanner)
      × (r.cfile ≡ s.cfile)
      × (r.page_start_fpos ≡ s.page_start_fpos)
      × (r.top_state_node ≡ s.top_state_node)
unfolding save_scanner_state put_state park file_at
restore_scanner_state-save_scanner_state text s t some_file no_pipe placed same = (
  _,
  restore_top t _ _ same,
  ap (λ i. record (mixed s.scanner t.scanner) { input = i })
      (left_of-same s.scanner.input_type _ s.scanner.input no_pipe
        (λ e. rw some_file (sym (placed e))) (λ e. rw e refl)),
  refl,
  refl,
  refl,
)

module _ (text : List ℕ) (start : ℕ) where
  one_on :
      (k : SourceInputKind) (n : ℕ)
      → k ≡ file
      → drop ((if is_file k then n + 1 else n) + start) text ≡ drop (suc (n + start)) text
  one_on file n e = ap (λ m. drop m text) {x = n + 1 + start} {y = suc (n + start)} (omega arith)
  one_on string n e = cc
  one_on unix_fd n e = cc

  next_char-IsPlaced :
      (cs : List ℕ) (s : Scanner)
      → s.input ≡ cs
      → IsPlaced text start s
      → IsPlaced text start (next_char cs s).1
  unfolding next_char
  next_char-IsPlaced [] s rest placed e =
      rest
      ∙ sym (
          one_on s.input_type s.fpos e ∙ drop-suc_end (s.fpos + start) text (sym (placed e) ∙ rest))
  next_char-IsPlaced (c ∷ cs) s rest placed e =
      sym
        (one_on s.input_type s.fpos e ∙ drop-suc (s.fpos + start) text c cs (sym (placed e) ∙ rest))

  get_char1-IsPlaced : (s : Scanner) → IsPlaced text start s → IsPlaced text start (get_char1 s).1
  unfolding get_char1
  get_char1-IsPlaced s placed =
      elim s.last_ch
        as (λ o.
          IsPlaced text start
            (elim o as (λ _. Option ℕ × Scanner) [
              | some c ↦ (c, count_line c (record s { last_ch = none }))
              | none ↦ next_char s.input s
            ]).1) [ none ↦ next_char-IsPlaced s.input s refl placed | some c ↦ placed ]

  -- The file stays where `fpos` says, at its end too, when a character is read.
  pub get_char-IsPlaced :
      (a : Bool) (s : Scanner) → IsPlaced text start s → IsPlaced text start (get_char a s).1
  unfolding get_char
  get_char-IsPlaced a s placed = get_char1-IsPlaced s placed

  pub unget_char-IsPlaced :
      (c : Option ℕ) (s : Scanner) → IsPlaced text start s → IsPlaced text start (unget_char c s)
  unfolding unget_char
  unget_char-IsPlaced c s placed = placed
