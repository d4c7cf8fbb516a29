-- ===== src/Hyper/Lex/Laws/Tokens.antt =====
-- Enough fuel for get_token of src/hyper/lex.c.
use open_axiom.Prelude.{
  ℕ, zero, suc, ◌+◌, ◌-◌, ◌≤◌, ◌≢◌, Bool, false, Option, none, some, List, [], ◌∷◌, arith, ◌==◌,
  ◌&&◌,
}
use open_axiom.Hyper.Lex.{
  Outcome, out_of_fuel, ◌>>=◌, Scanner, get_char, is_file, word_token, pound_token, dash_token,
}
use open_axiom.Hyper.Lex.Get.{
  Tables, take_run, finish_token, holds, char_list, is_alpha, is_digit, is_punctuation,
}
use open_axiom.Hyper.Lex.Scan.{
  get_token, after_white, skip_comment, dispatch, backslash, put_punctuation, start_token, is_dash,
  no_delim, no_newline, set_eof, mark_keyword,
}
use open_axiom.Hyper.Lex.Laws.{
  remaining, one_char, holds_of, Keeps-bind, Keeps-map, Keeps-if, Keeps-out_of_fuel,
  unget_char_back, get_char-remaining, skip_white-Keeps, take_run-Keeps, finish_token-Keeps,
}
use open_axiom.Hyper.Lex.Laws.Ends.{Within, keyword_type-Within}

module _ (e : Tables) (next : Scanner → Outcome Scanner) (n f : ℕ) (enough : n + 1 ≤ f)
    (goes_on : (t : Scanner) → remaining t ≤ n → Within n (next t)) where
  run-Within :
      (a : Bool) (p : ℕ → Bool) (buf : List ℕ) (k : ℕ) (s : Scanner)
      → remaining s ≤ n
      → Within n (take_run f a p buf s >>= λ r. finish_token k r)
  run-Within a p buf k s le =
      Keeps-bind (take_run-Keeps f a p buf s n (omega arith) le)
        (λ r le'. finish_token-Keeps k n r le')

  backslash-Within : (s : Scanner) → remaining s ≤ n → Within n (backslash e next f s)
  unfolding backslash
  backslash-Within s le =
      let a = e.use_ascii in
      let t : Scanner = record s { keyword_fpos = s.fpos - 1 } in
      let left : remaining (get_char a t).1 ≤ n = omega (arith, get_char-remaining a t) in
      Keeps-if (holds is_alpha (get_char a t).0)
        (λ letter.
          Keeps-bind
            (take_run-Keeps f a is_alpha (char_list (get_char a t).0) (get_char a t).1 n
              (omega arith) left)
            (λ r le'.
              Keeps-bind (finish_token-Keeps word_token n (mark_keyword r) le')
                (λ v le''. keyword_type-Within e next n goes_on v le'')))
        (λ other. holds_of left)

  put_punctuation-remaining :
      (a : Bool) (c : ℕ) (s : Scanner) → remaining (put_punctuation a c s) ≤ remaining s
  unfolding put_punctuation
  put_punctuation-remaining a c s = unget_char_back a s

  dispatch-Within : (c : ℕ) (s : Scanner) → remaining s ≤ n → Within n (dispatch e next f c s)
  unfolding dispatch
  dispatch-Within c s le =
      let a = e.use_ascii in
      Keeps-if (c == b'\\') (λ _. backslash-Within s le)
        λ _.
          Keeps-if (c == b'{') (λ _. holds_of le)
            λ _.
              Keeps-if (c == b'}') (λ _. holds_of le)
                λ _.
                  Keeps-if (c == b'[') (λ _. holds_of le)
                    λ _.
                      Keeps-if (c == b']') (λ _. holds_of le)
                        λ _.
                          Keeps-if (c == b'#') (λ _. run-Within a is_digit [] pound_token s le)
                            λ _.
                              Keeps-if (is_punctuation c)
                                (λ _. holds_of (omega (arith, put_punctuation-remaining a c s)))
                                λ _.
                                  Keeps-if (is_dash c)
                                    (λ _. run-Within a is_dash (c ∷ []) dash_token s le)
                                    (λ _. run-Within a no_delim (c ∷ []) word_token s le)

  skip_comment-Within : (s : Scanner) → remaining s ≤ n → Within n (skip_comment e next f s)
  unfolding skip_comment
  skip_comment-Within s le =
      Keeps-bind (take_run-Keeps f e.use_ascii no_newline [] s n (omega arith) le)
        (λ r le'. goes_on r.1 le')

  after_white-Within :
      (c : ℕ) (s : Scanner) → remaining s ≤ n → Within n (after_white e next f (some c) s)
  unfolding after_white
  after_white-Within c s le =
      Keeps-if (c == b'%') (λ _. skip_comment-Within s le)
        λ _.
          Keeps-if (is_file s.input_type && c == b'$') (λ _. holds_of le)
            (λ _. dispatch-Within c s le)

white-Within :
    (e : Tables) (next : Scanner → Outcome Scanner) (n f : ℕ) (c : Option ℕ) (s : Scanner)
    → n + 1 ≤ f
    → one_char c + remaining s ≤ n
    → (1 ≤ n → (t : Scanner) → remaining t ≤ n - 1 → Within (n - 1) (next t))
    → Within n (after_white e next f c s)
white-Within e next n f none s enough le goes_on =
    unfold after_white in holds_of {a = set_eof s} (omega arith)
white-Within e next n f (some c) s enough le goes_on =
    Keeps-map (λ t le'. omega arith)
      (after_white-Within e next (n - 1) f (omega arith) (goes_on (omega arith)) c s (omega arith))

pub get_token-Within :
    (f : ℕ) (e : Tables) (s : Scanner) (n : ℕ)
    → n + 2 ≤ f
    → remaining s ≤ n
    → Within n (get_token f e s)
unfolding get_token
get_token-Within zero e s n enough le = absurd (omega arith)
get_token-Within (suc f) e s n enough le =
    Keeps-if s.last_token (λ again. holds_of le)
      (λ fresh. Keeps-bind (skip_white-Keeps f e.use_ascii false 0 s n (omega arith) le) (λ w left.
        Keeps-if w.par (λ empty_line. holds_of (omega arith))
          (λ text.
            white-Within e (λ t. get_token f e t) n f w.ch (start_token w.seen w.rest) (omega arith)
              left (λ pos t le'. get_token-Within f e t (n - 1) (omega arith) le'))))

-- get_token does not run out of fuel if the fuel is at least two more than the number of the
-- characters that the scanner has still to give.
pub get_token_total :
    (f : ℕ) (e : Tables) (s : Scanner) → remaining s + 2 ≤ f → get_token f e s ≢ out_of_fuel
get_token_total f e s enough =
    Keeps-out_of_fuel (get_token-Within f e s (remaining s) enough (omega arith))
