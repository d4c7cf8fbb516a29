-- ===== src/Hyper/Tests/Verbatim.antt =====
-- A verbatim block of two lines.
use open_axiom.Prelude.{ℕ, ◌≡◌, refl, false, List, [], ◌∷◌, ◌++◌, arith}
use open_axiom.Hyper.Lex.{ok, jumped, Scanner}
use open_axiom.Hyper.Lex.Get.{codes}
use open_axiom.Hyper.Tests.Lex.{scanner}
use open_axiom.Hyper.Macros.Arguments.{Has}
use open_axiom.Hyper.Verbatim.{text_node, newline_node, verbatim, end_string, parse_verbatim}
use open_axiom.Hyper.Verbatim.Blocks.{IsLine, block, parse_verbatim-lines}

a-IsLine : IsLine b'\\' (codes "a")
a-IsLine = (((λ e. omega arith, λ e. omega arith), tt), (λ e. omega arith, tt))

b-IsLine : IsLine b'\\' (codes "b")
b-IsLine = (((λ e. omega arith, λ e. omega arith), tt), (λ e. omega arith, tt))

abbrev whole : List ℕ
whole = block (codes "a" ∷ []) (codes "b") (end_string verbatim ++ codes " c")

verbatim_example :
    (t : Scanner) × (parse_verbatim 30 false verbatim (scanner whole)
      ≡ ok (text_node (codes "a") ∷ newline_node ∷ text_node (codes "b") ∷ [], t))
    × Has (codes " c") t
unfolding end_string
verbatim_example =
    parse_verbatim-lines verbatim (codes "a" ∷ []) (codes "b") (codes " c") 30 (scanner whole)
      (λ e. cc) (omega arith) (a-IsLine, tt) b-IsLine
      (record { input = refl; clear = refl; fresh = refl })

-- The end behind a backslash is not seen, and the block goes on up to the end of the input.
behind_backslash : parse_verbatim 30 false verbatim (scanner (codes "\\\\end{verbatim} c")) ≡ jumped
unfolding parse_verbatim
behind_backslash = refl
