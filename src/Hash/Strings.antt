-- ===== src/Hash/Strings.antt =====
-- The keys of src/lib/hash.c: strings, as the list of the characters before the NUL.
use open_axiom.Prelude.{
  ℕ, ◌+◌, ◌%◌, ◌≡◌, ◌↔◌, refl, Bool, true, false, List, [], ◌∷◌, arith, ◌==◌, if◌then◌else◌, ap,
}
use mathlib.Core.Path.{subst}
use open_axiom.Hash.{Hashing}

-- `while (*p) c += *p++;`, for characters that are not negative
unfoldable pub sum_chars : (c : ℕ) → List ℕ → ℕ
sum_chars c [] = c
sum_chars c (x ∷ s) = sum_chars (c + x) s

unfoldable pub string_hash : List ℕ → ℕ → ℕ
string_hash s size = sum_chars 0 s % size

-- `strcmp(s1, s2) == 0`
unfoldable pub string_equal : List ℕ → List ℕ → Bool
string_equal [] [] = true
string_equal [] (y ∷ t) = false
string_equal (x ∷ s) [] = false
string_equal (x ∷ s) (y ∷ t) = if x == y then string_equal s t else false

pub string_equal_refl : (a : List ℕ) → string_equal a a ≡ true
unfolding string_equal
string_equal_refl [] = refl
string_equal_refl (x ∷ a) = ground (arith, string_equal_refl a)

string_equal_sound : (a b : List ℕ) → string_equal a b ≡ true → a ≡ b
unfolding string_equal
string_equal_sound [] [] h = refl
string_equal_sound [] (y ∷ b) h = ground arith
string_equal_sound (x ∷ a) [] h = ground arith
string_equal_sound (x ∷ a) (y ∷ b) h = ground (arith, string_equal_sound a b)

-- string_equal tells exactly whether two strings are the same.
pub string_equal_iff : (a b : List ℕ) → string_equal a b ≡ true ↔ a ≡ b
string_equal_iff a b =
    (string_equal_sound a b, λ e. subst (λ c. string_equal a c ≡ true) e (string_equal_refl a))

instance abbrev pub string_hashing : Hashing (List ℕ)
string_hashing = record {
  equal = string_equal;
  hash_code = string_hash;
  equal_refl = string_equal_refl;
  equal_left = λ a b c e. ap (λ d. string_equal d c) ((string_equal_iff a b).0 e);
  equal_right = λ a b c e. ap (string_equal c) ((string_equal_iff a b).0 e);
  hash_equal = λ a b n e. ap (λ d. string_hash d n) ((string_equal_iff a b).0 e);
}
