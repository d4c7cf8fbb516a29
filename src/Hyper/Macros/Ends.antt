-- ===== src/Hyper/Macros/Ends.antt =====
-- The loops of get_parameter_strings of src/hyper/macro.c end, and the parameter that is chosen.
use open_axiom.Prelude.{
  ◌⊎◌, ℕ, zero, suc, ◌+◌, ◌-◌, ◌≤◌, ◌≡◌, ◌≢◌, ◌↔◌, refl, Bool, true, Option, none, some, List, [],
  ◌∷◌, ◌++◌, ◌==◌, ◌&&◌, arith, length, leb, ltb, Bool-cases, inl, inr,
}
use open_axiom.Hyper.Lex.{Outcome, fault, out_of_fuel, Scanner, get_char}
use open_axiom.Hyper.Lex.Get.{Tables, is_digit}
use open_axiom.Hyper.Lex.Laws.{
  Keeps, holds_of, jumps, faults, Keeps-bind, Keeps-if, Keeps-map, Keeps-out_of_fuel, remaining,
  one_char, get_char-remaining, take_run-Keeps,
}
use open_axiom.Hyper.Lex.Laws.Tokens.{get_token-Within}
use open_axiom.Hyper.Macros.{
  ParameterList, argument_char, reference, top_parameter, parameter, refers, read_argument,
  copy_argument, read_arguments, get_parameter_strings, is_lbrace, atoi, atoi_from, int_limit,
  number,
}
use open_axiom.Hyper.Macros.Load.{chosen_parameter}

-- At most `m` characters are left behind a text that was read.
abbrev Leaves : {A : Type 0} → ℕ → Outcome (A × Scanner) → Type 0
Leaves m r = Keeps (λ p. remaining p.1 ≤ m) r

module _ (f : ℕ) (a : Bool) (ps : List ParameterList) (m : ℕ) (enough : m + 1 ≤ f) where
  parameter-Keeps : (top : ParameterList) (k : ℕ) → Keeps (λ _. Unit) (parameter top k)
  unfolding parameter
  parameter-Keeps [] k = faults
  parameter-Keeps (p ∷ top) zero = faults
  parameter-Keeps (p ∷ top) (suc zero) = holds_of tt
  parameter-Keeps (p ∷ top) (suc (suc k)) = parameter-Keeps top (suc k)

  top_parameter-Keeps : (qs : List ParameterList) (k : ℕ) → Keeps (λ _. Unit) (top_parameter qs k)
  unfolding top_parameter
  top_parameter-Keeps [] k = faults
  top_parameter-Keeps (top ∷ below) k = parameter-Keeps top k

  atoi-Keeps : (w : List ℕ) → Keeps (λ _. Unit) (atoi w)
  unfolding atoi
  atoi-Keeps w = Keeps-if (leb int_limit (atoi_from 0 w)) (λ _. faults) (λ _. holds_of tt)

  module _ (next : ℕ → List ℕ → Scanner → Outcome (List ℕ × Scanner))
      (goes_on : (n : ℕ) (b : List ℕ) (s : Scanner) → remaining s ≤ m → Leaves m (next n b s)) where
    reference-Leaves :
        (n : ℕ) (buf : List ℕ) (s : Scanner)
        → remaining s ≤ m
        → Leaves m (reference (next n) f a ps buf s)
    unfolding reference
    reference-Leaves n buf s le =
        Keeps-bind (take_run-Keeps f a is_digit [] s m (omega arith) le) (λ r le'.
          Keeps-if (leb 5 (length r.0)) (λ long. faults)
            (λ short.
              Keeps-bind (atoi-Keeps r.0) (λ k _.
                Keeps-bind (top_parameter-Keeps ps k) (λ w _. goes_on n (buf ++ w) r.1 le'))))

    argument_char-Leaves :
        (n : ℕ) (buf : List ℕ) (c : Option ℕ) (s : Scanner)
        → remaining s ≤ m
        → Leaves m (argument_char next f a ps n buf c s)
    unfolding argument_char
    argument_char-Leaves n buf none s le = jumps
    argument_char-Leaves n buf (some c) s le =
        let longer = buf ++ c ∷ [] in
        Keeps-if (c == 255) (λ _. jumps)
          (λ _.
            Keeps-if (c == b'}')
              (λ _. Keeps-if (n == 1) (λ _. holds_of le) (λ _. goes_on (n - 1) longer s le))
              (λ _.
                Keeps-if (c == b'{') (λ _. goes_on (n + 1) longer s le)
                  (λ _.
                    Keeps-if (c == b'#' && refers ps buf) (λ _. reference-Leaves n buf s le)
                      (λ _. goes_on n longer s le))))

char_Leaves :
    (f : ℕ) (a : Bool) (ps : List ParameterList) (m : ℕ)
    (next : ℕ → List ℕ → Scanner → Outcome (List ℕ × Scanner))
    (goes_on : 1 ≤ m
      → (n : ℕ) (b : List ℕ) (s : Scanner) → remaining s ≤ m - 1
      → Leaves (m - 1) (next n b s))
    (n : ℕ) (buf : List ℕ) (c : Option ℕ) (s : Scanner)
    → m ≤ f
    → one_char c + remaining s ≤ m
    → Leaves m (argument_char next f a ps n buf c s)
char_Leaves f a ps m next goes_on n buf none s enough le = unfold argument_char in jumps
char_Leaves f a ps m next goes_on n buf (some c) s enough le =
    Keeps-map (λ r le'. omega arith)
      (argument_char-Leaves f a ps (m - 1) (omega arith) next (goes_on (omega arith)) n buf (some c)
        s (omega arith))

read_argument-Leaves :
    (f : ℕ) (a : Bool) (ps : List ParameterList) (n : ℕ) (buf : List ℕ) (s : Scanner) (m : ℕ)
    → m + 1 ≤ f
    → remaining s ≤ m
    → Leaves m (read_argument f a ps n buf s)
unfolding read_argument
read_argument-Leaves zero a ps n buf s m enough le = absurd (omega arith)
read_argument-Leaves (suc f) a ps n buf s m enough le =
    char_Leaves f a ps m (λ k b u. read_argument f a ps k b u)
      (λ pos k b u le'. read_argument-Leaves f a ps k b u (m - 1) (omega arith) le') n buf
      (get_char a s).0 (get_char a s).1 (omega arith) (omega (arith, get_char-remaining a s))

copy_argument-Leaves :
    (m : ℕ) (r : List ℕ × Scanner) → remaining r.1 ≤ m → Leaves m (copy_argument r)
unfolding copy_argument
copy_argument-Leaves m (w, s) le =
    Keeps-if (leb 4096 (length w)) (λ long. faults) (λ short. holds_of le)

read_arguments-Leaves :
    (f : ℕ) (e : Tables) (ps : List ParameterList) (n : ℕ) (s : Scanner) (m : ℕ)
    → m + 2 ≤ f
    → remaining s ≤ m
    → Leaves m (read_arguments f e ps n s)
unfolding read_arguments
read_arguments-Leaves f e ps zero s m enough le = holds_of le
read_arguments-Leaves f e ps (suc n) s m enough le =
    Keeps-bind (get_token-Within f e s m enough le) (λ t le_t.
      Keeps-if (is_lbrace t.token.type)
        (λ lbrace.
          Keeps-bind
            (Keeps-bind (read_argument-Leaves f e.use_ascii ps 1 [] t m (omega arith) le_t)
              (λ r le_r. copy_argument-Leaves m r le_r))
            (λ r le_r.
              Keeps-bind (read_arguments-Leaves f e ps n r.1 m enough le_r)
                (λ q le_q. holds_of le_q)))
        (λ other. jumps))

-- get_parameter_strings does not run out of fuel, whatever parameters are on the stack, if the fuel
-- is at least two more than the number of the characters that the scanner has still to give.
pub get_parameter_strings_total :
    (f : ℕ) (e : Tables) (count : ℕ) (ps : List ParameterList) (s : Scanner)
    → remaining s + 2 ≤ f
    → get_parameter_strings f e count ps s ≢ out_of_fuel
unfolding get_parameter_strings
get_parameter_strings_total f e count ps s enough =
    let ended : Keeps (λ _. Unit) (get_parameter_strings f e count ps s) =
      Keeps-bind (read_arguments-Leaves f e ps count s (remaining s) enough (omega arith))
        (λ r le. holds_of tt) in
    Keeps-out_of_fuel ended

parameter-fault :
    (top : ParameterList) (k : ℕ) → k ≤ length top → (parameter top k ≡ fault) ↔ (k ≡ 0)
unfolding parameter
parameter-fault [] k le = (λ _. omega arith, λ _. refl)
parameter-fault (p ∷ top) zero le = (λ _. refl, λ _. refl)
parameter-fault (p ∷ top) (suc zero) le = (λ e. cc, λ e. cc)
parameter-fault (p ∷ top) (suc (suc k)) le =
    (λ e. absurd (omega (arith, (parameter-fault top (suc k) (omega arith)).0 e)), λ e. cc)

-- With parameters on the stack, parse_parameters does what C does not define exactly for the number
-- 0 and a token without text, where it reads in front of the list, and for a number that an int of
-- 32 bits does not hold, where atoi is not defined.
pub chosen_parameter-fault :
    (w : List ℕ) (top : ParameterList) (below : List ParameterList)
    → (chosen_parameter w (top ∷ below) ≡ fault)
      ↔ ((number w ≡ true) × ((atoi_from 0 w ≡ 0) ⊎ (int_limit ≤ atoi_from 0 w)))
unfolding chosen_parameter atoi
chosen_parameter-fault w top below = (
  λ e. elim (Bool-cases (number w)) [
    | inl digits ↦ elim (Bool-cases (leb int_limit (atoi_from 0 w))) [
      | inl large ↦ (digits, inr (ground arith))
      | inr small ↦ elim (Bool-cases (ltb (length top) (atoi_from 0 w))) [
        | inl above ↦ ground arith
        | inr known ↦
            (digits, inl ((parameter-fault top (atoi_from 0 w) (ground arith)).0 (ground arith)))
      ]
    ]
    | inr other ↦ ground arith
  ],
  λ (digits, outside). elim outside [
    | inl none_left ↦ ground (arith, parameter-fault top (atoi_from 0 w))
    | inr large ↦ ground arith
  ],
)
