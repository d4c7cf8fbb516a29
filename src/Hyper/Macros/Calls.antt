-- ===== src/Hyper/Macros/Calls.antt =====
-- get_parameter_strings of src/hyper/macro.c, where no parameters are: what stands between the braces.
use open_axiom.Prelude.{
  ◌-◌, ℕ, suc, ◌+◌, ◌≤◌, ◌<◌, ◌≡◌, ◌≢◌, refl, ap, ◌∙◌, false, some, List, [], ◌∷◌, ◌++◌, arith,
  length,
}
use open_axiom.Prelude.Memory.Laws.{All}
use open_axiom.Hyper.Lex.{Outcome, ok, ◌>>=◌, kind, Scanner, lbrace_token}
use open_axiom.Hyper.Lex.Get.{Tables, set_type, skip_white}
use open_axiom.Hyper.Lex.Scan.{get_token, after_white, start_token, dispatch}
use open_axiom.Hyper.Lex.Laws.Words.{Skips, skip_white-Skips}
use open_axiom.Hyper.Lex.Laws.Single.{get_token_scan}
use open_axiom.Hyper.Macros.{
  push_parameters, copy_argument, up_to_nul, read_arguments, get_parameter_strings,
}
use open_axiom.Hyper.Macros.Arguments.{Balanced, Has, read_argument-Ends}

after_white_lbrace :
    (e : Tables) (next : Scanner → Outcome Scanner) (f : ℕ) (s : Scanner)
    → after_white e next f (some b'{') s ≡ ok (set_type lbrace_token s)
unfolding after_white dispatch
after_white_lbrace e next f s = ground arith

-- The left brace as a token.
record Opens (r : Outcome Scanner) (rest : List ℕ) : Type 0 where
  state : Scanner
  outcome : r ≡ ok state
  lbrace : state.token.type ≡ kind lbrace_token
  has : Has rest state

module _ (e : Tables) (plain : e.use_ascii ≡ false) (f : ℕ) where
  get_token-Opens :
      (rest : List ℕ) (s : Scanner)
      → 1 ≤ f
      → Has (b'{' ∷ rest) s
      → Opens (get_token (suc f) e s) rest
  get_token-Opens rest s enough has =
      let skips : Skips (skip_white f false false 0 s) (0 + 0) b'{' rest s =
        skip_white-Skips f 0 0 b'{' rest s (omega arith) has.input has.clear refl in
      record {
        state = set_type lbrace_token (start_token (0 + 0) skips.state);
        outcome =
            get_token_scan f e s
              (record { ch = some b'{'; par = false; seen = 0 + 0; rest = skips.state }) has.fresh
              refl (ap (λ a. skip_white f a false 0 s) plain ∙ skips.outcome)
            ∙ after_white_lbrace e (λ t. get_token f e t) f (start_token (0 + 0) skips.state);
        lbrace = refl;
        has =
            unfold start_token in
            record {
              input = skips.found.input;
              clear = skips.found.clear;
              fresh = skips.found.same_last ∙ has.fresh;
            };
      }

-- A text that an argument can hold: it fits the buffer, and no NUL cuts it.
pub record IsArgument (w : List ℕ) : Type 0 where
  pub balanced : Balanced w
  pub short : length w < 4096
  pub whole : All (λ c. c ≢ 0) w

pub up_to_nul-whole : (w : List ℕ) → All (λ c. c ≢ 0) w → up_to_nul w ≡ w
unfolding up_to_nul
up_to_nul-whole [] whole = refl
up_to_nul-whole (c ∷ w) (some_c, whole) = ground (arith, up_to_nul-whole w whole)

copy_argument-IsArgument :
    (w : List ℕ) (s : Scanner) → IsArgument w → copy_argument (w, s) ≡ ok (w, s)
unfolding copy_argument
copy_argument-IsArgument w s is = ground (arith, is.short, up_to_nul-whole w is.whole)

-- The arguments, each in its braces, and `rest`.
abbrev pub call : (ws : List (List ℕ)) → (rest : List ℕ) → List ℕ
call [] rest = rest
call (w ∷ ws) rest = b'{' ∷ (w ++ b'}' ∷ call ws rest)

module _ (e : Tables) (plain : e.use_ascii ≡ false) (f : ℕ) where
  one_argument :
      (w : List ℕ) (ws : List (List ℕ)) (rest : List ℕ) (s : Scanner)
      → IsArgument w
      → length w + 1 < f
      → Has (call (w ∷ ws) rest) s
      → (t : Scanner) × Has (call ws rest) t
        × (read_arguments f e [] (suc (length ws)) s
            ≡ (read_arguments f e [] (length ws) t >>= λ (vs, u). ok (w ∷ vs, u)))
  unfolding read_arguments
  one_argument w ws rest s is enough has =
      let o = get_token-Opens e plain (f - 1) (w ++ b'}' ∷ call ws rest) s (omega arith) has in
      let r = read_argument-Ends is.balanced f (call ws rest) o.state (omega arith) o.has in
      let token : get_token f e s ≡ ok o.state =
        ap (λ k. get_token k e s) {x = f} {y = suc (f - 1)} (omega arith) ∙ o.outcome in
      (
        r.state,
        r.has,
        simp (token, o.lbrace, plain, r.outcome, copy_argument-IsArgument w r.state is),
      )

  read_arguments-call :
      (ws : List (List ℕ)) (rest : List ℕ) (s : Scanner)
      → All (λ w. IsArgument w × (length w + 1 < f)) ws
      → Has (call ws rest) s
      → (t : Scanner) × (read_arguments f e [] (length ws) s ≡ ok (ws, t)) × Has rest t
  unfolding read_arguments
  read_arguments-call [] rest s are has = (s, refl, has)
  read_arguments-call (w ∷ ws) rest s ((is, enough), are) has =
      let (t, has_t, steps) = one_argument w ws rest s is enough has in
      let (u, outcome, has_u) = read_arguments-call ws rest t are has_t in
      (u, steps ∙ ap (λ r. r >>= λ (vs, v). ok (w ∷ vs, v)) outcome, has_u)

  -- get_parameter_strings on a call without parameters around it puts on the stack just the texts
  -- between the braces of the arguments and leaves what stands behind them, if the braces of each
  -- are balanced, each fits the buffer and holds no NUL and no EOF, nothing was put back, the
  -- characters are not translated, and the fuel is more than one over the length of each.
  pub get_parameter_strings-call :
      (ws : List (List ℕ)) (rest : List ℕ) (s : Scanner)
      → All (λ w. IsArgument w × (length w + 1 < f)) ws
      → Has (call ws rest) s
      → (t : Scanner) × (get_parameter_strings f e (length ws) [] s ≡ ok (ws ∷ [], t)) × Has rest t
  unfolding get_parameter_strings push_parameters
  get_parameter_strings-call ws rest s are has =
      let (t, outcome, has_t) = read_arguments-call ws rest s are has in
      (t, ap (λ r. r >>= λ (parms, u). ok (parms ∷ [], u)) outcome, has_t)
