-- ===== src/Hyper/Dialog/Copies.antt =====
-- What the copies of src/hyper/dialog.c write.
use open_axiom.Prelude.Memory.Laws.{fill_lem}
use open_axiom.Prelude.{
  ℕ, zero, suc, ◌+◌, ◌-◌, ◌<◌, ◌≤◌, ◌≡◌, ◌≢◌, arith, ltb, leb, ◌==◌, true, Bool-cases, inl, inr,
  if◌then◌else◌,
}
use open_axiom.Prelude.Memory.{Memory, store, fill}
use open_axiom.Hyper.Dialog.{mystrncpy, strncpy, strncpy_within}

pub mystrncpy_lem :
    (to from n : ℕ) (m : Memory ℕ) (k : ℕ)
    → from ≤ to
    → mystrncpy to from n m k
      ≡ (if leb to k then (if ltb k (to + n) then m (k - to + from) else m k) else m k)
unfolding mystrncpy
mystrncpy_lem to from zero m k le = ground arith
mystrncpy_lem to from (suc n) m k le =
    ground (arith, mystrncpy_lem to from n (store m (to + n) (m (from + n))) k)

-- Without a NUL among them the characters are copied.
pub strncpy_lem :
    (to from n : ℕ) (source target : Memory ℕ) (k : ℕ)
    → ((j : ℕ) → j < n → source (from + j) ≢ 0)
    → strncpy to from n source target k ≡ (
        if leb to k
        then (if ltb k (to + n) then source (k - to + from) else target k)
        else target k)
unfolding strncpy
strncpy_lem to from zero source target k some_char = ground arith
strncpy_lem to from (suc n) source target k some_char = ground (
  arith,
  some_char 0,
  strncpy_lem (suc to) (suc from) n source (store target to (source from)) k
      (λ j lt. ground (arith, some_char (suc j))),
)

-- A character is copied down if there is no NUL up to it.
pub strncpy_within_lem :
    (to from n : ℕ) (m : Memory ℕ) (k : ℕ)
    → to < from
    → ((j : ℕ) → j < n → to + j ≤ k → m (from + j) ≢ 0)
    → strncpy_within to from n m k
      ≡ (if leb to k then (if ltb k (to + n) then m (k - to + from) else m k) else m k)
unfolding strncpy_within
strncpy_within_lem to from zero m k lt some_char = ground arith
strncpy_within_lem to from (suc n) m k lt some_char = elim (Bool-cases (m from == 0)) [
  | inl nul ↦ rw nul (filled nul)
  | inr char ↦ rw char (
      ground (
        arith,
        strncpy_within_lem (suc to) (suc from) n (store m to (m from)) k (omega arith)
            (λ j le below. ground (arith, some_char (suc j))),
      ))
]
  where
    filled :
        (m from == 0) ≡ true
        → fill to (suc n) 0 m k
          ≡ (if leb to k then (if ltb k (to + suc n) then m (k - to + from) else m k) else m k)
    filled nul = ground (arith, fill_lem to (suc n) 0 m k, some_char 0)
