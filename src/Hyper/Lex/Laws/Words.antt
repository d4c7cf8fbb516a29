-- ===== src/Hyper/Lex/Laws/Words.antt =====
-- The words that get_token of src/hyper/lex.c finds.
use open_axiom.Prelude.{
  ℕ, zero, suc, ◌+◌, ◌<◌, ◌≡◌, refl, sym, ap, ◌∙◌, Bool, true, false, none, some, List, [], ◌∷◌,
  ◌++◌, arith, if◌then◌else◌, length, replicate, append_assoc, append-nil, if_true, if_false,
}
use open_axiom.Prelude.Memory.Laws.{All}
use open_axiom.Hyper.Lex.{Outcome, ok, Scanner, get_char, get_char1, next_char, unget_char}
use open_axiom.Hyper.Lex.Get.{White, skip_white, take_run, holds, char_list, whitespace}

-- What get_char has still to give, without the translation.
abbrev pub pending : Scanner → List ℕ
pending s = elim s.last_ch [ none ↦ s.input | some none ↦ s.input | some (some c) ↦ c ∷ s.input ]

-- The next character of the input.
pub record Takes (c : ℕ) (cs : List ℕ) (s t : Scanner) : Type 0 where
  pub input : t.input ≡ cs
  pub clear : t.last_ch ≡ none
  pub same_token : t.token ≡ s.token
  pub same_keyword : t.keyword ≡ s.keyword
  pub same_type : t.input_type ≡ s.input_type
  pub same_last : t.last_token ≡ s.last_token

module _ (s : Scanner) (c : ℕ) (cs : List ℕ) (text : s.input ≡ c ∷ cs)
    (clear : s.last_ch ≡ none) where
  pub get_char_char : (get_char false s).0 ≡ some c
  unfolding get_char get_char1
  get_char_char = rw clear (rw text (unfold next_char in refl))

  pub get_char-Takes : Takes c cs s (get_char false s).1
  unfolding get_char get_char1
  get_char-Takes = rw clear (
      rw text (
        unfold next_char in
        record {
          input = refl;
          clear = refl;
          same_token = refl;
          same_keyword = refl;
          same_type = refl;
          same_last = refl;
        }))

-- A run of characters, and the first one behind it, which is put back.
pub record Runs (r : Outcome (List ℕ × Scanner)) (w : List ℕ) (rest : List ℕ) (s : Scanner)
    : Type 0 where
  pub state : Scanner
  pub outcome : r ≡ ok (w, state)
  pub left : pending state ≡ rest
  pub same_token : state.token ≡ s.token

take_run_go :
    (f : ℕ) (p : ℕ → Bool) (buf : List ℕ) (s : Scanner) (c : ℕ)
    → (get_char false s).0 ≡ some c
    → p c ≡ true
    → take_run (suc f) false p buf s ≡ take_run f false p (buf ++ c ∷ []) (get_char false s).1
unfolding take_run
take_run_go f p buf s c e yes_p =
    let t = (get_char false s).1 in
    ap
      (λ o.
        if holds p o then take_run f false p (buf ++ char_list o) t else ok (buf, unget_char o t))
      e
    ∙ if_true (p c) (take_run f false p (buf ++ c ∷ []) t) (ok (buf, unget_char (some c) t)) yes_p

take_run_stop :
    (f : ℕ) (p : ℕ → Bool) (buf : List ℕ) (s : Scanner) (d : ℕ)
    → (get_char false s).0 ≡ some d
    → p d ≡ false
    → take_run (suc f) false p buf s ≡ ok (buf, unget_char (some d) (get_char false s).1)
unfolding take_run
take_run_stop f p buf s d e no_p =
    let t = (get_char false s).1 in
    ap
      (λ o.
        if holds p o then take_run f false p (buf ++ char_list o) t else ok (buf, unget_char o t))
      e
    ∙ if_false (p d) (take_run f false p (buf ++ d ∷ []) t) (ok (buf, unget_char (some d) t)) no_p

pub take_run-Runs :
    (f : ℕ) (p : ℕ → Bool) (w buf : List ℕ) (d : ℕ) (rest : List ℕ) (s : Scanner)
    → length w < f
    → s.input ≡ w ++ d ∷ rest
    → s.last_ch ≡ none
    → All (λ c. p c ≡ true) w
    → p d ≡ false
    → Runs (take_run f false p buf s) (buf ++ w) (d ∷ rest) s
take_run-Runs zero p w buf d rest s enough text clear run end = absurd (omega arith)
take_run-Runs (suc f) p [] buf d rest s enough text clear run end =
    let t = get_char-Takes s d rest text clear in
    record {
      state = unget_char (some d) (get_char false s).1;
      outcome =
          take_run_stop f p buf s d (get_char_char s d rest text clear) end
          ∙ ap (λ b. ok (b, unget_char (some d) (get_char false s).1)) (sym (append-nil buf));
      left = unfold unget_char in ap (λ cs. d ∷ cs) t.input;
      same_token = unfold unget_char in t.same_token;
    }
take_run-Runs (suc f) p (c ∷ w) buf d rest s enough text clear run end =
    let t = get_char-Takes s c (w ++ d ∷ rest) text clear in
    let more =
      take_run-Runs f p w (buf ++ c ∷ []) d rest (get_char false s).1 (omega arith) t.input t.clear
        run.1 end in
    record {
      state = more.state;
      outcome =
          take_run_go f p buf s c (get_char_char s c (w ++ d ∷ rest) text clear) run.0
          ∙ more.outcome
          ∙ ap (λ b. ok (b, more.state)) (append_assoc buf (c ∷ []) w);
      left = more.left;
      same_token = more.same_token ∙ t.same_token;
    }

-- The first character behind some blanks.
pub record Skips (r : Outcome White) (seen c : ℕ) (cs : List ℕ) (s : Scanner) : Type 0 where
  pub state : Scanner
  pub outcome : r ≡ ok (record { ch = some c; par = false; seen = seen; rest = state })
  pub found : Takes c cs s state

skip_white_go :
    (f : ℕ) (seen : ℕ) (s : Scanner)
    → (get_char false s).0 ≡ some b' '
    → skip_white (suc f) false false seen s
      ≡ skip_white f false false (seen + 1) (get_char false s).1
unfolding skip_white
skip_white_go f seen s e = ground arith

skip_white_stop :
    (f : ℕ) (seen : ℕ) (s : Scanner) (c : ℕ)
    → (get_char false s).0 ≡ some c
    → whitespace c ≡ false
    → skip_white (suc f) false false seen s
      ≡ ok (record { ch = some c; par = false; seen = seen; rest = (get_char false s).1 })
unfolding skip_white
skip_white_stop f seen s c e black = ground arith

Takes-trans :
    (b c : ℕ) (bs cs : List ℕ) (s t u : Scanner) → Takes b bs s t → Takes c cs t u → Takes c cs s u
Takes-trans b c bs cs s t u h k = record {
  input = k.input;
  clear = k.clear;
  same_token = k.same_token ∙ h.same_token;
  same_keyword = k.same_keyword ∙ h.same_keyword;
  same_type = k.same_type ∙ h.same_type;
  same_last = k.same_last ∙ h.same_last;
}

pub skip_white-Skips :
    (f n seen c : ℕ) (cs : List ℕ) (s : Scanner)
    → n < f
    → s.input ≡ replicate n b' ' ++ c ∷ cs
    → s.last_ch ≡ none
    → whitespace c ≡ false
    → Skips (skip_white f false false seen s) (seen + n) c cs s
skip_white-Skips zero n seen c cs s enough text clear black = absurd (omega arith)
skip_white-Skips (suc f) zero seen c cs s enough text clear black = record {
  state = (get_char false s).1;
  outcome =
      skip_white_stop f seen s c (get_char_char s c cs text clear) black
      ∙ ap (λ k. ok (record { ch = some c; par = false; seen = k; rest = (get_char false s).1 }))
          {x = seen} {y = seen + 0} (omega arith);
  found = get_char-Takes s c cs text clear;
}
skip_white-Skips (suc f) (suc n) seen c cs s enough text clear black =
    let blanks = replicate n b' ' ++ c ∷ cs in
    let t = get_char-Takes s b' ' blanks text clear in
    let more =
      skip_white-Skips f n (seen + 1) c cs (get_char false s).1 (omega arith) t.input t.clear
        black in
    record {
      state = more.state;
      outcome =
          skip_white_go f seen s (get_char_char s b' ' blanks text clear)
          ∙ more.outcome
          ∙ ap (λ k. ok (record { ch = some c; par = false; seen = k; rest = more.state }))
              {x = seen + 1 + n} {y = seen + suc n} (omega arith);
      found = Takes-trans b' ' c blanks cs s (get_char false s).1 more.state t more.found;
    }
