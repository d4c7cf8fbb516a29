-- ===== src/Hyper/Lex/Laws/Ends.antt =====
-- get_token of src/hyper/lex.c ends: comments, \begin and \end read further tokens, but only from
-- what is left of the input.
use open_axiom.Prelude.{
  ℕ, ◌≤◌, ◌≡◌, Bool, true, false, not, Option, none, some, List, [], ◌∷◌, arith, ◌==◌, ◌||◌,
  if◌then◌else◌,
}
use open_axiom.Hyper.Lex.{
  Outcome, ok, jumped, ◌>>=◌, Scanner, TokenType, eof, kind, word_token, lbrace_token, rbrace_token,
  begin_token, end_token,
}
use open_axiom.Hyper.Lex.Get.{
  Tables, get_expected_token, be_type, begin_type, end_type, keyword_type, environment,
  push_be_stack, check_and_pop_be_stack, ends_block, type_of, set_type, name_type,
}
use open_axiom.Hyper.Lex.Laws.{remaining, Keeps, holds_of, jumps, Keeps-bind, Keeps-if}

abbrev pub Within : ℕ → Outcome Scanner → Type 0
Within n = Keeps (λ t. remaining t ≤ n)

expected_type :
    (n k : ℕ) (t : Scanner) (ty : TokenType)
    → remaining t ≤ n
    → Within n (elim ty [ eof ↦ jumped | kind j ↦ if j == k then ok t else jumped ])
expected_type n k t eof le = jumps
expected_type n k t (kind j) le = Keeps-if (j == k) (λ same. holds_of le) (λ other. jumps)

module _ (e : Tables) (next : Scanner → Outcome Scanner) (n : ℕ)
    (goes_on : (t : Scanner) → remaining t ≤ n → Within n (next t)) where
  get_expected_token-Within :
      (k : ℕ) (s : Scanner) → remaining s ≤ n → Within n (get_expected_token next k s)
  unfolding get_expected_token
  get_expected_token-Within k s le =
      Keeps-bind (goes_on s le) (λ t le'. expected_type n k t t.token.type le')

  be_type-Keeps : (s : Scanner) → remaining s ≤ n → Keeps (λ r. remaining r.0 ≤ n) (be_type next s)
  unfolding be_type
  be_type-Keeps s le = Keeps-bind (get_expected_token-Within lbrace_token s le) λ t le'.
      Keeps-bind (get_expected_token-Within word_token t le')
        λ u le''. known u (environment u.token.id) le''
    where
      known :
          (u : Scanner) (o : Option ℕ)
          → remaining u ≤ n
          → Keeps {A = Scanner × Bool}
              (λ r. remaining r.0 ≤ n)
              (elim o [
                | none ↦ ok (u, false)
                | some k ↦ get_expected_token next rbrace_token u >>= λ v. ok (set_type k v, true)
              ])
      known u none le = holds_of le
      known u (some k) le =
          Keeps-bind (get_expected_token-Within rbrace_token u le) (λ v le'. holds_of le')

  push_be_stack-remaining : (s : Scanner) → remaining (push_be_stack e s) ≡ remaining s
  unfolding push_be_stack
  push_be_stack-remaining s = ground arith

  check_and_pop-Within : (s : Scanner) → remaining s ≤ n → Within n (check_and_pop_be_stack e s)
  unfolding check_and_pop_be_stack
  check_and_pop-Within s le = popped s.be_stack
    where
      popped :
          (stack : List (ℕ × List ℕ))
          → Within n (elim stack [
            | [] ↦ if e.has_window then jumped else ok s
            | top ∷ rest ↦
                if not e.has_window
                then ok s
                else if top.0 == type_of s
                then ok (record s { be_stack = rest })
                else jumped
          ])
      popped [] = Keeps-if e.has_window (λ w. jumps) (λ w. holds_of le)
      popped (top ∷ rest) =
          Keeps-if (not e.has_window) (λ w. holds_of le)
            (λ w. Keeps-if (top.0 == type_of s) (λ same. holds_of le) (λ other. jumps))

  begin_type-Within : (s : Scanner) → remaining s ≤ n → Within n (begin_type e next s)
  unfolding begin_type
  begin_type-Within s le = Keeps-bind (be_type-Keeps s le) λ (t, known) le'.
      Keeps-if (not known)
        (λ w. Keeps-if (not e.has_window || e.in_verbatim) (λ v. holds_of le') (λ v. jumps))
        (λ w. holds_of (ground (arith, push_be_stack-remaining t)))

  end_type-Within : (s : Scanner) → remaining s ≤ n → Within n (end_type e next s)
  unfolding end_type
  end_type-Within s le = Keeps-bind (be_type-Keeps s le) λ (t, known) le'.
      Keeps-if (not known)
        (λ w. Keeps-if (not e.has_window || e.in_verbatim) (λ v. holds_of le') (λ v. jumps))
        (λ w.
          Keeps-if (ends_block e (type_of t))
            (λ v. Keeps-bind (check_and_pop-Within t le') (λ u le''. holds_of le''))
            (λ v. holds_of le'))

  pub keyword_type-Within : (s : Scanner) → remaining s ≤ n → Within n (keyword_type e next s)
  unfolding keyword_type
  keyword_type-Within s le = by_keyword (e.keyword_of s.token.id)
    where
      by_keyword :
          (o : Option ℕ)
          → Within n (elim o [
            | none ↦ ok (set_type (name_type e s.token.id) s)
            | some k ↦
                let t = set_type k s in
                if k == begin_token
                then begin_type e next t
                else if k == end_token
                then end_type e next t
                else ok t
          ])
      by_keyword none = holds_of le
      by_keyword (some k) =
          Keeps-if (k == begin_token) (λ b. begin_type-Within (set_type k s) le)
            (λ b.
              Keeps-if (k == end_token) (λ c. end_type-Within (set_type k s) le) (λ c. holds_of le))
