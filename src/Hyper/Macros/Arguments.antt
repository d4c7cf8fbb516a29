-- ===== src/Hyper/Macros/Arguments.antt =====
-- The arguments of a macro that is used where no parameters are, by the text between their braces.
use open_axiom.Prelude.{
  ℕ, suc, ◌+◌, ◌-◌, ◌≤◌, ◌<◌, ◌≡◌, ◌≢◌, refl, sym, ap, ◌∙◌, false, none, some, List, [], ◌∷◌, ◌++◌,
  arith, length, append_assoc, append-nil,
}
use open_axiom.Hyper.Lex.{Outcome, ok, Scanner, get_char}
use open_axiom.Hyper.Lex.Laws.Words.{get_char_char, get_char-Takes}
use open_axiom.Hyper.Macros.{argument_char, read_argument}

-- A text that can stand between the braces of an argument: every brace in it is closed.
pub data Balanced : List ℕ → Type 0 where
  nothing : Balanced []
  plain : {c : ℕ} {w : List ℕ} → c ≢ b'{' → c ≢ b'}' → c ≢ 255 → Balanced w → Balanced (c ∷ w)
  group : {v w : List ℕ} → Balanced v → Balanced w → Balanced (b'{' ∷ (v ++ b'}' ∷ w))

-- The scanner has `rest` to give, without a character or a token put back.
pub record Has (rest : List ℕ) (s : Scanner) : Type 0 where
  pub input : s.input ≡ rest
  pub clear : s.last_ch ≡ none
  pub fresh : s.last_token ≡ false

-- One step of the loop.
module _ (f braces : ℕ) (buf : List ℕ) (s : Scanner) (c : ℕ) (rest : List ℕ)
    (has : Has (c ∷ rest) s) where
  next : Scanner
  next = (get_char false s).1

  next-Has : Has rest next
  unfolding next get_char
  next-Has =
      let takes = get_char-Takes s c rest has.input has.clear in
      record { input = takes.input; clear = takes.clear; fresh = takes.same_last ∙ has.fresh }

  step :
      read_argument (suc f) false [] braces buf s
      ≡ argument_char (λ n b u. read_argument f false [] n b u) f false [] braces buf (some c) next
  unfolding read_argument next
  step =
      ap (λ o. argument_char (λ n b u. read_argument f false [] n b u) f false [] braces buf o next)
        (get_char_char s c rest has.input has.clear)

  step_plain :
      c ≢ b'{'
      → c ≢ b'}'
      → c ≢ 255
      → read_argument (suc f) false [] braces buf s
        ≡ read_argument f false [] braces (buf ++ c ∷ []) next
  step_plain no_open no_close no_end = step ∙ unfold argument_char in ground arith

module _ (f braces : ℕ) (buf : List ℕ) (s : Scanner) (rest : List ℕ) where
  step_open :
      (has : Has (b'{' ∷ rest) s)
      → read_argument (suc f) false [] braces buf s
        ≡ read_argument f false []
            (braces + 1)
            (buf ++ b'{' ∷ [])
            (next f braces buf s b'{' rest has)
  step_open has = step f braces buf s b'{' rest has ∙ unfold argument_char in refl

  step_close :
      (has : Has (b'}' ∷ rest) s)
      → braces ≢ 1
      → read_argument (suc f) false [] braces buf s
        ≡ read_argument f false []
            (braces - 1)
            (buf ++ b'}' ∷ [])
            (next f braces buf s b'}' rest has)
  step_close has inner = step f braces buf s b'}' rest has ∙ unfold argument_char in ground arith

  step_last :
      (has : Has (b'}' ∷ rest) s)
      → braces ≡ 1
      → read_argument (suc f) false [] braces buf s ≡ ok (buf, next f braces buf s b'}' rest has)
  step_last has last = step f braces buf s b'}' rest has ∙ unfold argument_char in ground arith

-- One unit of fuel for each character, and `f`.
abbrev pub fueled : List ℕ → ℕ → ℕ
fueled [] f = f
fueled (c ∷ w) f = suc (fueled w f)

pub fueled-append : (v w : List ℕ) (f : ℕ) → fueled (v ++ w) f ≡ fueled v (fueled w f)
fueled-append [] w f = refl
fueled-append (c ∷ v) w f = ap suc (fueled-append v w f)

pub fueled_lem : (w : List ℕ) (f : ℕ) → fueled w f ≡ length w + f
fueled_lem [] f = omega arith
fueled_lem (c ∷ w) f = omega (arith, fueled_lem w f)

-- The loop comes to `rest` with `w` behind the buffer.
record Reaches (f g braces : ℕ) (buf w rest : List ℕ) (s : Scanner) : Type 0 where
  state : Scanner
  has : Has rest state
  same : read_argument g false [] braces buf s ≡ read_argument f false [] braces (buf ++ w) state

group_text :
    (buf v w : List ℕ)
    → (((buf ++ b'{' ∷ []) ++ v) ++ b'}' ∷ []) ++ w ≡ buf ++ b'{' ∷ (v ++ b'}' ∷ w)
group_text buf v w =
    append_assoc ((buf ++ b'{' ∷ []) ++ v) (b'}' ∷ []) w
    ∙ append_assoc (buf ++ b'{' ∷ []) v (b'}' ∷ w)
    ∙ append_assoc buf (b'{' ∷ []) (v ++ b'}' ∷ w)

read_argument-Reaches :
    {w : List ℕ} (b : Balanced w) (f braces : ℕ) (buf rest : List ℕ) (s : Scanner)
    → 1 ≤ braces
    → Has (w ++ rest) s
    → Reaches f (fueled w f) braces buf w rest s
read_argument-Reaches nothing f n buf rest s pos has = record {
  state = s;
  has = has;
  same = ap (λ b. read_argument f false [] n b s) (sym (append-nil buf));
}
read_argument-Reaches (plain {c} {w} no_open no_close no_end b) f n buf rest s pos has =
    let r =
      read_argument-Reaches b f n (buf ++ c ∷ []) rest _ pos
        (next-Has (fueled w f) n buf s c (w ++ rest) has) in
    record {
      state = r.state;
      has = r.has;
      same =
          step_plain (fueled w f) n buf s c (w ++ rest) has no_open no_close no_end
          ∙ r.same
          ∙ ap (λ b. read_argument f false [] n b r.state) (append_assoc buf (c ∷ []) w);
    }
read_argument-Reaches (group {v} {w} bv bw) f n buf rest s pos has =
    let tail = b'}' ∷ (w ++ rest) in
    let g = fueled w f in
    let opened : Has (b'{' ∷ (v ++ tail)) s = record {
      input = has.input ∙ ap (λ cs. b'{' ∷ cs) (append_assoc v (b'}' ∷ w) rest);
      clear = has.clear;
      fresh = has.fresh;
    } in
    let r =
      read_argument-Reaches bv (suc g) (n + 1) (buf ++ b'{' ∷ []) tail _ (omega arith)
        (next-Has (fueled v (suc g)) n buf s b'{' (v ++ tail) opened) in
    let inner = (buf ++ b'{' ∷ []) ++ v in
    let r' =
      read_argument-Reaches bw f n (inner ++ b'}' ∷ []) rest _ pos
        (next-Has g (n + 1) inner r.state b'}' (w ++ rest) r.has) in
    record {
      state = r'.state;
      has = r'.has;
      same =
          ap (λ k. read_argument (suc k) false [] n buf s) (fueled-append v (b'}' ∷ w) f)
          ∙ step_open (fueled v (suc g)) n buf s (v ++ tail) opened
          ∙ r.same
          ∙ step_close g (n + 1) inner r.state (w ++ rest) r.has (omega arith)
          ∙ ap
              (λ k.
                read_argument g false [] k (inner ++ b'}' ∷ [])
                  (next g (n + 1) inner r.state b'}' (w ++ rest) r.has))
              {x = n + 1 - 1} {y = n} (omega arith)
          ∙ r'.same
          ∙ ap (λ b. read_argument f false [] n b r'.state) (group_text buf v w);
    }

-- The loop ends behind the brace that closes the argument.
pub record Ends (r : Outcome (List ℕ × Scanner)) (w rest : List ℕ) : Type 0 where
  pub state : Scanner
  pub outcome : r ≡ ok (w, state)
  pub has : Has rest state

pub read_argument-Ends :
    {w : List ℕ} (b : Balanced w) (f : ℕ) (rest : List ℕ) (s : Scanner)
    → length w < f
    → Has (w ++ b'}' ∷ rest) s
    → Ends (read_argument f false [] 1 [] s) w rest
read_argument-Ends {w} b f rest s enough has =
    let g = f - length w - 1 in
    let r = read_argument-Reaches b (suc g) 1 [] (b'}' ∷ rest) s (omega arith) has in
    record {
      state = _;
      outcome =
          ap (λ k. read_argument k false [] 1 [] s) {x = f} {y = fueled w (suc g)}
            (omega (arith, fueled_lem w (suc g)))
          ∙ r.same
          ∙ step_last g 1 w r.state rest r.has refl;
      has = next-Has g 1 w r.state b'}' rest r.has;
    }
