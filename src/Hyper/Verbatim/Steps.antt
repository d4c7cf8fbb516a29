-- ===== src/Hyper/Verbatim/Steps.antt =====
-- The steps of the loop of parse_verbatim of src/hyper/parse-types.c.
use open_axiom.Prelude.{ℕ, suc, ◌≡◌, ◌≢◌, ap, ◌∙◌, false, some, List, [], ◌∷◌, ◌++◌, arith}
use open_axiom.Hyper.Lex.{ok, Scanner, get_char}
use open_axiom.Hyper.Lex.Laws.Words.{get_char_char, get_char-Takes}
use open_axiom.Hyper.Macros.{up_to_nul}
use open_axiom.Hyper.Macros.Arguments.{Has}
use open_axiom.Hyper.Verbatim.{
  VerbNode, text_node, newline_node, behind_newline, match_char, last_text, verbatim_char,
  read_verbatim,
}

-- The scanner behind the next character.
abbrev pub next : Scanner → Scanner
next s = (get_char false s).1

pub next-Has : (c : ℕ) (rest : List ℕ) (s : Scanner) → Has (c ∷ rest) s → Has rest (next s)
next-Has c rest s has =
    let takes = get_char-Takes s c rest has.input has.clear in
    record { input = takes.input; clear = takes.clear; fresh = takes.same_last ∙ has.fresh }

module _ (f : ℕ) (end es buf : List ℕ) (nodes : List VerbNode) (c : ℕ) (rest : List ℕ) (s : Scanner)
    (has : Has (c ∷ rest) s) where
  step :
      read_verbatim (suc f) false end es buf nodes s
      ≡ verbatim_char
          (λ e b n u. read_verbatim f false end e b n u)
          end
          es
          buf
          nodes
          (some c)
          (next s)
  unfolding read_verbatim
  step =
      ap
        (λ o.
          verbatim_char (λ e b n u. read_verbatim f false end e b n u) end es buf nodes o (next s))
        (get_char_char s c rest has.input has.clear)

module _ (f e : ℕ) (es' buf : List ℕ) (nodes : List VerbNode) (c : ℕ) (rest : List ℕ) (s : Scanner)
    (has : Has (c ∷ rest) s) where
  abbrev end : List ℕ
  end = e ∷ es'

  pub step_text :
      c ≢ e
      → c ≢ b'\n'
      → read_verbatim (suc f) false end end buf nodes s
        ≡ read_verbatim f false end end (buf ++ c ∷ []) nodes (next s)
  step_text other plain =
      step f end end buf nodes c rest s has ∙ unfold verbatim_char match_char in ground arith

  pub step_newline :
      c ≡ b'\n'
      → e ≢ b'\n'
      → (es : List ℕ)
      → read_verbatim (suc f) false end es buf nodes s
        ≡ read_verbatim f false end end []
            (nodes ++ text_node (up_to_nul buf) ∷ newline_node ∷ [])
            (next s)
  step_newline at no_newline es =
      step f end es buf nodes c rest s has ∙ unfold verbatim_char behind_newline in ground arith

  pub step_match :
      c ≢ b'\n'
      → (d : ℕ) (ds : List ℕ)
      → read_verbatim (suc f) false end (c ∷ d ∷ ds) buf nodes s
        ≡ read_verbatim f false end (d ∷ ds) (buf ++ c ∷ []) nodes (next s)
  step_match plain d ds =
      step f end (c ∷ d ∷ ds) buf nodes c rest s has
      ∙ unfold verbatim_char match_char in ground arith

  pub step_end :
      c ≢ b'\n'
      → read_verbatim (suc f) false end (c ∷ []) buf nodes s
        ≡ ok (nodes ++ last_text end (buf ++ c ∷ []), next s)
  step_end plain =
      step f end (c ∷ []) buf nodes c rest s has ∙ unfold verbatim_char match_char in ground arith
