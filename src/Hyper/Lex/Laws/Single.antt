-- ===== src/Hyper/Lex/Laws/Single.antt =====
-- One word between blanks, by get_token of src/hyper/lex.c.
use open_axiom.Prelude.{
  ◌%◌, ℕ, suc, ◌+◌, ◌<◌, ◌≡◌, ◌≢◌, refl, ap, ◌∙◌, Bool, true, false, none, some, List, [], ◌∷◌,
  ◌++◌, arith, ◌==◌, ◌&&◌, length, replicate,
}
use open_axiom.Prelude.Memory.Laws.{All}
use open_axiom.Hyper.Lex.{
  Outcome, ok, ◌>>=◌, Scanner, Token, kind, is_file, word_token, reread, unget_token,
}
use open_axiom.Hyper.Lex.Get.{
  Tables, White, skip_white, take_run, finish_token, set_token, whitespace,
}
use open_axiom.Hyper.Lex.Scan.{get_token, after_white, dispatch, start_token, no_delim}
use open_axiom.Hyper.Lex.Laws.Words.{pending, Runs, Skips, take_run-Runs, skip_white-Skips}

abbrev plain_word : Bool → ℕ → ℕ → Scanner → Outcome Scanner
plain_word a f c s = take_run f a no_delim (c ∷ []) s >>= λ r. finish_token word_token r

dispatch_word :
    (e : Tables) (next : Scanner → Outcome Scanner) (f c : ℕ) (s : Scanner)
    → no_delim c ≡ true
    → c ≢ b'!'
    → dispatch e next f c s ≡ plain_word e.use_ascii f c s
unfolding dispatch
dispatch_word e next f c s word bang = ground arith

after_white_word :
    (e : Tables) (next : Scanner → Outcome Scanner) (f c : ℕ) (s : Scanner)
    → no_delim c ≡ true
    → c ≢ b'!'
    → after_white e next f (some c) s ≡ dispatch e next f c s
unfolding after_white
after_white_word e next f c s word bang =
    let percent : (c == b'%') ≡ false = ground arith in
    let dollar : (is_file s.input_type && c == b'$') ≡ false = ground arith in
    rw percent (rw dollar refl)

black_word : (c : ℕ) → no_delim c ≡ true → whitespace c ≡ false
black_word c word = ground arith

finish_short :
    (k : ℕ) (w : List ℕ) (s : Scanner)
    → length w < 1023
    → finish_token k (w, s) ≡ ok (set_token k w s)
unfolding finish_token
finish_short k w s short = ground arith

pub get_token_scan :
    (f : ℕ) (e : Tables) (s : Scanner) (w : White)
    → s.last_token ≡ false
    → w.par ≡ false
    → skip_white f e.use_ascii false 0 s ≡ ok w
    → get_token (suc f) e s
      ≡ after_white e (λ t. get_token f e t) f w.ch (start_token w.seen w.rest)
unfolding get_token
get_token_scan f e s w fresh text found = simp (fresh, found, text)

-- The token of a word behind `n` blanks, and the text behind it.
pub record Reads (r : Outcome Scanner) (n : ℕ) (w : List ℕ) (rest : List ℕ) : Type 0 where
  pub state : Scanner
  pub outcome : r ≡ ok state
  pub token : state.token ≡ record { type = kind word_token; space = n % 256; id = w }
  pub left : pending state ≡ rest

module _ (e : Tables) (f n c : ℕ) (w : List ℕ) (d : ℕ) (rest : List ℕ) (s : Scanner)
    (plain : e.use_ascii ≡ false) (fresh : s.last_token ≡ false) (clear : s.last_ch ≡ none)
    (no_keyword : s.keyword ≡ false) (blanks : n < f) (letters : length w < f)
    (short : length (c ∷ w) < 1023) (bang : c ≢ b'!') (word : All (λ x. no_delim x ≡ true) (c ∷ w))
    (end : no_delim d ≡ false) (text : s.input ≡ replicate n b' ' ++ c ∷ (w ++ d ∷ rest)) where
  skips : Skips (skip_white f false false 0 s) (0 + n) c (w ++ d ∷ rest) s
  skips = skip_white-Skips f n 0 c (w ++ d ∷ rest) s blanks text clear (black_word c word.0)

  first : Scanner
  first = start_token (0 + n) skips.state

  runs : Runs (take_run f false no_delim (c ∷ []) first) (c ∷ w) (d ∷ rest) first
  runs =
      take_run-Runs f no_delim w (c ∷ []) d rest first letters
        (unfold first start_token in skips.found.input)
        (unfold first start_token in skips.found.clear) word.1 end

  scanned : get_token (suc f) e s ≡ plain_word false f c first
  scanned =
      get_token_scan f e s (record { ch = some c; par = false; seen = 0 + n; rest = skips.state })
        fresh refl (ap (λ a. skip_white f a false 0 s) plain ∙ skips.outcome)
      ∙ unfold first in
        after_white_word e (λ t. get_token f e t) f c first word.0 bang
        ∙ dispatch_word e (λ t. get_token f e t) f c first word.0 bang
        ∙ ap (λ a. plain_word a f c first) plain

  first_space : first.token.space ≡ n % 256
  unfolding first start_token
  first_space = ground (arith, skips.found.same_keyword)

  -- get_token on blanks, a word and a delimiter gives a word token with the number of the blanks,
  -- as the eight bits of a char, and the text of the word, and leaves the delimiter and what
  -- follows, if nothing was put back, no keyword was before it, the word does not start with an
  -- exclamation mark and is shorter than the buffer, the characters are not translated, and the
  -- fuel is more than the blanks and more than the word.
  pub get_token-Reads : Reads (get_token (suc f) e s) n (c ∷ w) (d ∷ rest)
  get_token-Reads = record {
    state = set_token word_token (c ∷ w) runs.state;
    outcome =
        scanned
        ∙ ap (λ r. r >>= λ q. finish_token word_token q) runs.outcome
        ∙ finish_short word_token (c ∷ w) runs.state short;
    token =
        ap (λ (t : Token). record t { type = kind word_token; id = c ∷ w }) runs.same_token
        ∙ ap (λ k. record { type = kind word_token; space = k; id = c ∷ w }) first_space;
    left = runs.left;
  }

-- After unget_token, get_token gives the token that was read last again.
pub get_token-unget_token :
    (f : ℕ) (e : Tables) (s : Scanner)
    → get_token (suc f) e (unget_token s)
      ≡ ok (record s { last_token = false; unget_toke = s.token })
unfolding get_token unget_token reread
get_token-unget_token f e s = ground arith
