-- ===== src/Hyper/Verbatim.antt =====
-- parse_verbatim of src/hyper/parse-types.c: the text of a verbatim block up to the string that ends it.
pub mod Blocks
pub mod Steps
use open_axiom.Prelude.{
  ℕ, zero, suc, ◌+◌, ◌-◌, Bool, true, false, Option, none, some, List, [], ◌∷◌, ◌++◌, ◌==◌,
  if◌then◌else◌, length, take,
}
use open_axiom.Hyper.Lex.{Outcome, ok, jumped, out_of_fuel, Scanner, get_char}
use open_axiom.Hyper.Lex.Get.{codes}
use open_axiom.Hyper.Macros.{up_to_nul}

-- The nodes of the page that the block makes, but for the last one, which marks its end.
pub data VerbNode : Type 0 where
  text_node : List ℕ → VerbNode
  newline_node : VerbNode

pub data VerbatimType : Type 0 where
  spadsrctxt math verbatim : VerbatimType

unfoldable pub end_string : VerbatimType → List ℕ
end_string spadsrctxt = b'\n' ∷ codes "\\end{spadsrc}"
end_string math = codes "$"
end_string verbatim = codes "\\end{verbatim}"

-- `if (*end_string == '\n') es = end_string + 1; else es = end_string;`
unfoldable pub behind_newline : List ℕ → List ℕ
behind_newline [] = []
behind_newline (c ∷ cs) = if c == b'\n' then cs else c ∷ cs

-- `if (*es++ != c) es = end_string;`
unfoldable pub match_char : (end es : List ℕ) → ℕ → List ℕ
match_char end [] c = end
match_char end (d ∷ ds) c = if d == c then ds else end

abbrev pub is_empty : List ℕ → Bool
is_empty [] = true
is_empty (_ ∷ _) = false

-- `vbuf[size - strlen(es)] = '\0';` and a node, if there is text.
unfoldable pub last_text : (end buf : List ℕ) → List VerbNode
unfolding behind_newline up_to_nul
last_text end buf =
    let w = up_to_nul (take (length buf - length (behind_newline end)) buf) in
    if is_empty w then [] else text_node w ∷ []

unfoldable pub verbatim_char :
    (next : List ℕ → List ℕ → List VerbNode → Scanner → Outcome (List VerbNode × Scanner))
    (end es buf : List ℕ) (nodes : List VerbNode) (c : Option ℕ)
    → Scanner
    → Outcome (List VerbNode × Scanner)
unfolding behind_newline match_char last_text up_to_nul
verbatim_char next end es buf nodes none s = jumped
verbatim_char next end es buf nodes (some c) s =
    let left = match_char end es c in
    let longer = buf ++ c ∷ [] in
    if c == b'\n'
    then next (behind_newline end) [] (nodes ++ text_node (up_to_nul buf) ∷ newline_node ∷ []) s
    else if is_empty left
    then ok (nodes ++ last_text end longer, s)
    else next left longer nodes s

-- The loop, with one unit of fuel for each character.
unfoldable pub read_verbatim :
    ℕ
    → (use_ascii : Bool) → (end es buf : List ℕ) → List VerbNode
    → Scanner
    → Outcome (List VerbNode × Scanner)
unfolding get_char verbatim_char
read_verbatim zero a end es buf nodes s = out_of_fuel
read_verbatim (suc f) a end es buf nodes s =
    let (c, t) = get_char a s in
    verbatim_char (λ e b n u. read_verbatim f a end e b n u) end es buf nodes c t

unfoldable pub parse_verbatim :
    ℕ → (use_ascii : Bool) → VerbatimType → Scanner → Outcome (List VerbNode × Scanner)
unfolding read_verbatim end_string
parse_verbatim f a type s = read_verbatim f a (end_string type) (end_string type) [] [] s
