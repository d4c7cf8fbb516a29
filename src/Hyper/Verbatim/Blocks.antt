-- ===== src/Hyper/Verbatim/Blocks.antt =====
-- The nodes that parse_verbatim of src/hyper/parse-types.c makes of the lines of a block.
use open_axiom.Prelude.{
  ℕ, suc, ◌+◌, ◌-◌, ◌≤◌, ◌≡◌, ◌≢◌, refl, sym, ap, ◌∙◌, false, List, [], ◌∷◌, ◌++◌, arith, length,
  length-append, append_assoc, append-nil, take, if◌then◌else◌,
}
use open_axiom.Prelude.Memory.Laws.{All}
use open_axiom.Hyper.Lex.{ok, Scanner}
use open_axiom.Hyper.Lex.Get.{codes}
use open_axiom.Hyper.Macros.{up_to_nul}
use open_axiom.Hyper.Macros.Arguments.{Has, fueled, fueled_lem}
use open_axiom.Hyper.Macros.Calls.{up_to_nul-whole}
use open_axiom.Hyper.Verbatim.Steps.{next, next-Has, step_text, step_newline, step_match, step_end}
use open_axiom.Hyper.Verbatim.{
  VerbNode, text_node, newline_node, VerbatimType, verbatim, math, spadsrctxt, end_string,
  behind_newline, is_empty, last_text, read_verbatim, parse_verbatim,
}

-- A line without the first character of the string that ends the block, newline and NUL.
abbrev pub IsLine : (e : ℕ) → List ℕ → Type 0
IsLine e w = All (λ c. (c ≢ e) × (c ≢ b'\n')) w × All (λ c. c ≢ 0) w

-- The lines, and the last one in front of `tail`.
abbrev pub block : List (List ℕ) → (last tail : List ℕ) → List ℕ
block [] last tail = last ++ tail
block (w ∷ ws) last tail = w ++ b'\n' ∷ block ws last tail

abbrev pub line_nodes : List (List ℕ) → (last : List ℕ) → List VerbNode
line_nodes [] last = if is_empty last then [] else text_node last ∷ []
line_nodes (w ∷ ws) last = text_node w ∷ newline_node ∷ line_nodes ws last

take-length : (w v : List ℕ) → take (length w) (w ++ v) ≡ w
take-length [] v = refl
take-length (c ∷ w) v = ap (λ xs. c ∷ xs) (take-length w v)

module _ (e : ℕ) (es' : List ℕ) (no_newline : e ≢ b'\n')
    (plain_end : All (λ c. c ≢ b'\n') es') where
  abbrev ending : List ℕ
  ending = e ∷ es'

  text_run :
      (w rest : List ℕ) (f : ℕ) (buf : List ℕ) (nodes : List VerbNode) (s : Scanner)
      → All (λ c. (c ≢ e) × (c ≢ b'\n')) w
      → Has (w ++ rest) s
      → (t : Scanner) × Has rest t
        × (read_verbatim (fueled w f) false ending ending buf nodes s
            ≡ read_verbatim f false ending ending (buf ++ w) nodes t)
  text_run [] rest f buf nodes s plain has =
      (s, has, ap (λ b. read_verbatim f false ending ending b nodes s) (sym (append-nil buf)))
  text_run (c ∷ w) rest f buf nodes s ((other, plain), more) has =
      let (t, has_t, same) =
        text_run w rest f (buf ++ c ∷ []) nodes (next s) more (next-Has c (w ++ rest) s has) in
      (
        t,
        has_t,
        step_text (fueled w f) e es' buf nodes c (w ++ rest) s has other plain
            ∙ same
            ∙ ap (λ b. read_verbatim f false ending ending b nodes t) (append_assoc buf (c ∷ []) w),
      )

  end_run :
      (c : ℕ) (es rest : List ℕ) (f : ℕ) (buf : List ℕ) (nodes : List VerbNode) (s : Scanner)
      → c ≢ b'\n'
      → All (λ d. d ≢ b'\n') es
      → Has (c ∷ (es ++ rest)) s
      → (t : Scanner) × Has rest t
        × (read_verbatim (fueled (c ∷ es) f) false ending (c ∷ es) buf nodes s
            ≡ ok (nodes ++ last_text ending (buf ++ c ∷ es), t))
  end_run c [] rest f buf nodes s plain more has =
      (next s, next-Has c rest s has, step_end f e es' buf nodes c rest s has plain)
  end_run c (d ∷ ds) rest f buf nodes s plain (plain_d, more) has =
      let (t, has_t, same) =
        end_run d ds rest f (buf ++ c ∷ []) nodes (next s) plain_d more
          (next-Has c (d ∷ (ds ++ rest)) s has) in
      (
        t,
        has_t,
        step_match (fueled (d ∷ ds) f) e es' buf nodes c (d ∷ (ds ++ rest)) s has plain d ds
            ∙ same
            ∙ ap (λ b. ok (nodes ++ last_text ending b, t)) (append_assoc buf (c ∷ []) (d ∷ ds)),
      )

  last_text_line :
      (w : List ℕ) → All (λ c. c ≢ 0) w → last_text ending (w ++ ending) ≡ line_nodes [] w
  unfolding last_text behind_newline
  last_text_line w whole =
      let same : behind_newline ending ≡ ending = unfold behind_newline in ground arith in
      let short : length (w ++ ending) - length (behind_newline ending) ≡ length w =
        ap (λ cs. length (w ++ ending) - length cs) same ∙ omega (arith, length-append w ending) in
      ap (λ v. if is_empty v then [] else text_node v ∷ [])
        (ap (λ n. up_to_nul (take n (w ++ ending))) short
          ∙ ap up_to_nul (take-length w ending)
          ∙ up_to_nul-whole w whole)

  -- The fuel that the block takes, and `f`.
  abbrev units : List (List ℕ) → (last : List ℕ) → ℕ → ℕ
  units [] last f = fueled last (fueled ending f)
  units (w ∷ ws) last f = fueled w (suc (units ws last f))

  units_lem :
      (ws : List (List ℕ)) (last : List ℕ) (f : ℕ)
      → units ws last f ≡ length (block ws last ending) + f
  units_lem [] last f =
      omega
        (arith, fueled_lem last (fueled ending f), fueled_lem ending f, length-append last ending)
  units_lem (w ∷ ws) last f = omega (
    arith,
    fueled_lem w (suc (units ws last f)),
    units_lem ws last f,
    length-append w (b'\n' ∷ block ws last ending),
  )

  block_run :
      (ws : List (List ℕ)) (last rest : List ℕ) (f : ℕ) (nodes : List VerbNode) (s : Scanner)
      → All (IsLine e) ws
      → IsLine e last
      → Has (block ws last (ending ++ rest)) s
      → (t : Scanner) × Has rest t
        × (read_verbatim (units ws last f) false ending ending [] nodes s
            ≡ ok (nodes ++ line_nodes ws last, t))
  block_run [] last rest f nodes s lines (plain, whole) has =
      let (t, has_t, same) =
        text_run last (ending ++ rest) (fueled ending f) [] nodes s plain has in
      let (u, has_u, over) = end_run e es' rest f last nodes t no_newline plain_end has_t in
      (u, has_u, same ∙ over ∙ ap (λ n. ok (nodes ++ n, u)) (last_text_line last whole))
  block_run (w ∷ ws) last rest f nodes s ((plain, whole), lines) is has =
      let tail = block ws last (ending ++ rest) in
      let g = units ws last f in
      let (t, has_t, same) = text_run w (b'\n' ∷ tail) (suc g) [] nodes s plain has in
      let more = nodes ++ text_node (up_to_nul w) ∷ newline_node ∷ [] in
      let (u, has_u, over) =
        block_run ws last rest f more (next t) lines is (next-Has b'\n' tail t has_t) in
      (
        u,
        has_u,
        same
            ∙ step_newline g e es' w nodes b'\n' tail t has_t refl no_newline ending
            ∙ over
            ∙ ap (λ n. ok (n, u)) (append_assoc nodes _ _)
            ∙ ap (λ v. ok (nodes ++ text_node v ∷ newline_node ∷ line_nodes ws last, u))
                (up_to_nul-whole w whole),
      )

  whole_block :
      (ws : List (List ℕ)) (last rest : List ℕ) (f : ℕ) (s : Scanner)
      → length (block ws last ending) ≤ f
      → All (IsLine e) ws
      → IsLine e last
      → Has (block ws last (ending ++ rest)) s
      → (t : Scanner) × (read_verbatim f false ending ending [] [] s ≡ ok (line_nodes ws last, t))
        × Has rest t
  whole_block ws last rest f s enough lines is has =
      let left = f - length (block ws last ending) in
      let (t, has_t, same) = block_run ws last rest left [] s lines is has in
      (
        t,
        ap (λ k. read_verbatim k false ending ending [] [] s) {x = f} {y = units ws last left}
              (omega (arith, units_lem ws last left))
            ∙ same,
        has_t,
      )

-- The first character of the string that ends a block.
abbrev pub opening : VerbatimType → ℕ
opening spadsrctxt = b'\n'
opening math = b'$'
opening verbatim = b'\\'

plain_verbatim : All (λ c. c ≢ b'\n') (codes "end{verbatim}")
plain_verbatim = (
  λ e. omega arith,
  (
    λ e. omega arith,
    (
      λ e. omega arith,
      (
        λ e. omega arith,
        (
          λ e. omega arith,
          (
            λ e. omega arith,
            (
              λ e. omega arith,
              (
                λ e. omega arith,
                (
                  λ e. omega arith,
                  (
                    λ e. omega arith,
                    (λ e. omega arith, (λ e. omega arith, (λ e. omega arith, tt))),
                  ),
                ),
              ),
            ),
          ),
        ),
      ),
    ),
  ),
)

-- parse_verbatim on a verbatim or a math block makes a text node and a newline node of each line
-- and a text node of the last one, if it is not empty, and leaves what stands behind the string
-- that ends the block, if no line holds the first character of that string or NUL, nothing was put
-- back, the characters are not translated, and the fuel is at least the length of the block.
pub parse_verbatim-lines :
    (type : VerbatimType) (ws : List (List ℕ)) (last rest : List ℕ) (f : ℕ) (s : Scanner)
    → type ≢ spadsrctxt
    → length (block ws last (end_string type)) ≤ f
    → All (IsLine (opening type)) ws
    → IsLine (opening type) last
    → Has (block ws last (end_string type ++ rest)) s
    → (t : Scanner) × (parse_verbatim f false type s ≡ ok (line_nodes ws last, t)) × Has rest t
unfolding parse_verbatim end_string
parse_verbatim-lines spadsrctxt ws last rest f s other enough lines is has = absurd (other refl)
parse_verbatim-lines math ws last rest f s other enough lines is has =
    whole_block b'$' [] (omega arith) tt ws last rest f s enough lines is has
parse_verbatim-lines verbatim ws last rest f s other enough lines is has =
    whole_block b'\\' (codes "end{verbatim}") (omega arith) plain_verbatim ws last rest f s enough
      lines is has
