-- ===== src/Hyper/Lex/Laws.antt =====
-- The loops of src/hyper/lex.c end, and no call adds to the input that is left.
pub mod Ends
pub mod Single
pub mod Tokens
pub mod Words
use open_axiom.Prelude.{
  ℕ, zero, suc, ◌+◌, ◌-◌, ◌≤◌, ◌<◌, ◌≡◌, ◌≢◌, refl, Bool, true, false, not, Option, none, some,
  List, [], ◌∷◌, ◌++◌, arith, ◌==◌, leb, ◌&&◌, ◌||◌, if◌then◌else◌, length, Bool-cases,
  Option-cases, inl, inr,
}
use open_axiom.Hyper.Lex.{
  Outcome, ok, jumped, fault, out_of_fuel, ◌>>=◌, Scanner, get_char, get_char1, next_char,
  unget_char, is_newline, map_char, to_ascii,
}
use open_axiom.Hyper.Lex.Get.{
  White, skip_white, take_run, finish_token, holds, whitespace, char_list,
}

-- one for a character, none for EOF
abbrev pub one_char : Option ℕ → ℕ
one_char none = 0
one_char (some _) = 1

abbrev pub put_back : Option (Option ℕ) → ℕ
put_back none = 0
put_back (some c) = one_char c

-- The characters that get_char has still to give.
abbrev pub remaining : Scanner → ℕ
remaining s = length s.input + put_back s.last_ch

-- The fuel was enough, and `P` holds of the result, if there is one.
pub data Keeps {A : Type 0} (P : A → Type 0) : Outcome A → Type 0 where
  holds_of : {a : A} → P a → Keeps P (ok a)
  jumps : Keeps P jumped
  faults : Keeps P fault

module _ {A B : Type 0} {P : A → Type 0} {Q : B → Type 0} where
  pub Keeps-bind :
      {r : Outcome A} {f : A → Outcome B}
      → Keeps P r
      → ((a : A) → P a → Keeps Q (f a))
      → Keeps Q (r >>= f)
  Keeps-bind (holds_of {a} h) k = k a h
  Keeps-bind jumps k = jumps
  Keeps-bind faults k = faults

module _ {A : Type 0} {P Q : A → Type 0} where
  pub Keeps-map : {r : Outcome A} → ((a : A) → P a → Q a) → Keeps P r → Keeps Q r
  Keeps-map k (holds_of {a} h) = holds_of (k a h)
  Keeps-map k jumps = jumps
  Keeps-map k faults = faults

module _ {A : Type 0} {P : A → Type 0} where
  pub Keeps-if :
      (b : Bool) {x y : Outcome A}
      → (b ≡ true → Keeps P x)
      → (b ≡ false → Keeps P y)
      → Keeps P (if b then x else y)
  Keeps-if true hx hy = hx refl
  Keeps-if false hx hy = hy refl

pub Keeps-out_of_fuel : {A : Type 0} {P : A → Type 0} {r : Outcome A} → Keeps P r → r ≢ out_of_fuel
Keeps-out_of_fuel (holds_of h) = cc
Keeps-out_of_fuel jumps = cc
Keeps-out_of_fuel faults = cc

get_char1-remaining :
    (s : Scanner) → one_char (get_char1 s).0 + remaining (get_char1 s).1 ≤ remaining s
unfolding get_char1 next_char
get_char1-remaining s = ground arith

pub get_char-remaining :
    (a : Bool) (s : Scanner) → one_char (get_char a s).0 + remaining (get_char a s).1 ≤ remaining s
unfolding get_char
get_char-remaining a s = ground (arith, get_char1-remaining s)

unget_char-remaining :
    (c : Option ℕ) (s : Scanner) → remaining (unget_char c s) ≤ one_char c + remaining s
unfolding unget_char
unget_char-remaining c s = ground arith

one_char_lem : (p : ℕ → Bool) (c : Option ℕ) → holds p c ≡ true → one_char c ≡ 1
one_char_lem p none h = cc
one_char_lem p (some c) h = refl

pub get_char_next :
    (p : ℕ → Bool) (a : Bool) (s : Scanner)
    → holds p (get_char a s).0 ≡ true
    → remaining (get_char a s).1 + 1 ≤ remaining s
get_char_next p a s h = omega (arith, get_char-remaining a s, one_char_lem p (get_char a s).0 h)

pub unget_char_back :
    (a : Bool) (s : Scanner)
    → remaining (unget_char (get_char a s).0 (get_char a s).1) ≤ remaining s
unget_char_back a s =
    omega (arith, get_char-remaining a s, unget_char-remaining (get_char a s).0 (get_char a s).1)

pub skip_white-Keeps :
    (f : ℕ) (a nls : Bool) (seen : ℕ) (s : Scanner) (n : ℕ)
    → remaining s + 1 ≤ f
    → remaining s ≤ n
    → Keeps (λ w. one_char w.ch + remaining w.rest ≤ n) (skip_white f a nls seen s)
unfolding skip_white
skip_white-Keeps zero a nls seen s n enough le = absurd (omega arith)
skip_white-Keeps (suc f) a nls seen s n enough le =
    Keeps-if (holds whitespace (get_char a s).0)
      (λ white.
        Keeps-if (nls && is_newline (get_char a s).0)
          (λ par. holds_of (omega (arith, get_char-remaining a s)))
          (λ go.
            skip_white-Keeps f a (nls || is_newline (get_char a s).0) (seen + 1) (get_char a s).1 n
              (omega (arith, get_char_next whitespace a s white))
              (omega (arith, get_char_next whitespace a s white))))
      (λ other. holds_of (omega (arith, get_char-remaining a s)))

pub take_run-Keeps :
    (f : ℕ) (a : Bool) (p : ℕ → Bool) (buf : List ℕ) (s : Scanner) (n : ℕ)
    → remaining s + 1 ≤ f
    → remaining s ≤ n
    → Keeps (λ r. remaining r.1 ≤ n) (take_run f a p buf s)
unfolding take_run
take_run-Keeps zero a p buf s n enough le = absurd (omega arith)
take_run-Keeps (suc f) a p buf s n enough le =
    Keeps-if (holds p (get_char a s).0)
      (λ more.
        take_run-Keeps f a p (buf ++ char_list (get_char a s).0) (get_char a s).1 n
          (omega (arith, get_char_next p a s more)) (omega (arith, get_char_next p a s more)))
      (λ stop. holds_of (omega (arith, unget_char_back a s)))

pub finish_token-Keeps :
    (k n : ℕ) (r : List ℕ × Scanner)
    → remaining r.1 ≤ n
    → Keeps (λ t. remaining t ≤ n) (finish_token k r)
unfolding finish_token
finish_token-Keeps k n (w, s) le =
    Keeps-if (leb 1023 (length w)) (λ full. faults) (λ room. holds_of le)
