-- ===== src/Prelude/Memory/Laws.antt =====
-- What the loops over an array leave in each cell, and in a run of cells.
use Prim.Native.Nat.{ℕ, zero, suc, ◌+◌, ◌-◌, ◌≤◌, ◌<◌}
use mathlib.Core.Path.{◌≡◌, refl, subst, sym}
use mathlib.Core.List.{List, [], ◌∷◌, ◌++◌}
use mathlib.Core.Bool.{Bool, true, false}
use mathlib.Core.Logic.{◌⊎◌}
use native.Mathlib.Omega.{arith}
use open_axiom.Prelude.Tests.{if◌then◌else◌, leb, ltb}
use open_axiom.Prelude.Lists.{length, length-append, replicate}
use open_axiom.Prelude.Memory.{Memory, store, At, copy_down, slide, stops, fill, cells, write_list}

module _ {A : Type 0} where
  -- A run of cells that stands at another place of another array.
  pub At-move :
      (m m' : Memory A) (i j : ℕ) (xs : List A)
      → ((k : ℕ) → k < length xs → m' (j + k) ≡ m (i + k))
      → At m i xs
      → At m' j xs
  At-move m m' i j [] same h = tt
  At-move m m' i j (x ∷ xs) same h = (
    ground (arith, same 0),
    At-move m m' (suc i) (suc j) xs (λ k lt. ground (arith, same (suc k))) h.1,
  )

  -- A run of cells that no write touches.
  pub At-frame :
      (m m' : Memory A) (i : ℕ) (xs : List A)
      → ((k : ℕ) → i ≤ k → k < i + length xs → m' k ≡ m k)
      → At m i xs
      → At m' i xs
  At-frame m m' i xs same h =
      At-move m m' i i xs (λ k lt. same (i + k) (omega arith) (omega arith)) h

  pub At-split :
      (m : Memory A) (i : ℕ) (xs ys : List A)
      → At m i (xs ++ ys)
      → At m i xs × At m (i + length xs) ys
  At-split m i [] ys h = (tt, subst (λ a. At m a ys) (omega arith) h)
  At-split m i (x ∷ xs) ys h =
      let (front, back) = At-split m (suc i) xs ys h.1 in
      ((h.0, front), subst (λ a. At m a ys) (omega arith) back)

  pub At-join :
      (m : Memory A) (i j : ℕ) (xs ys : List A)
      → i + length xs ≡ j
      → At m i xs
      → At m j ys
      → At m i (xs ++ ys)
  At-join m i j [] ys e h k = subst (λ a. At m a ys) (omega arith) k
  At-join m i j (x ∷ xs) ys e h k = (h.0, At-join m (suc i) j xs ys (omega arith) h.1 k)

  pub copy_down_lem :
      (to from n : ℕ) (m : Memory A) (k : ℕ)
      → from ≤ to
      → copy_down to from n m k
        ≡ (if leb to k then (if leb k (to + n) then m (k - to + from) else m k) else m k)
  unfolding copy_down
  copy_down_lem to from zero m k le = ground arith
  copy_down_lem to from (suc n) m k le =
      ground (arith, copy_down_lem to from n (store m (to + suc n) (m (from + suc n))) k)

  pub fill_lem :
      (from n : ℕ) (v : A) (m : Memory A) (k : ℕ)
      → fill from n v m k ≡ (if leb from k then (if ltb k (from + n) then v else m k) else m k)
  unfolding fill
  fill_lem from zero v m k = ground arith
  fill_lem from (suc n) v m k = ground (arith, fill_lem (suc from) n v (store m from v) k)

  -- A copy to a lower place that meets its first stop after `n` cells.
  pub slide_lem :
      (stop : A → Bool) (fuel to from n : ℕ) (m : Memory A) (k : ℕ)
      → to < from
      → n < fuel
      → ((j : ℕ) → j < n → stop (m (from + j)) ≡ false)
      → stop (m (from + n)) ≡ true
      → slide stop fuel to from m k
        ≡ (if leb to k then (if leb k (to + n) then m (k - to + from) else m k) else m k)
  unfolding slide
  slide_lem stop zero to from n m k lt fl runs end = absurd (omega arith)
  slide_lem stop (suc f) to from zero m k lt fl runs end = ground arith
  slide_lem stop (suc f) to from (suc n) m k lt fl runs end = ground (
    arith,
    runs 0,
    slide_lem stop f (suc to) (suc from) n (store m to (m from)) k (omega arith) (omega arith)
        (λ j h. ground (arith, runs (suc j))) (ground arith),
  )

  pub stops_lem :
      (stop : A → Bool) (fuel i n : ℕ) (m : Memory A)
      → n < fuel
      → stop (m (i + n)) ≡ true
      → stops stop fuel i m ≡ true
  unfolding stops
  stops_lem stop zero i n m lt end = absurd (omega arith)
  stops_lem stop (suc f) i zero m lt end = ground arith
  stops_lem stop (suc f) i (suc n) m lt end =
      ground (arith, stops_lem stop f (suc i) n m (omega arith) (ground arith))

  pub cells_At : (m : Memory A) (i : ℕ) (xs : List A) → At m i xs → cells i (length xs) m ≡ xs
  unfolding cells
  cells_At m i [] h = refl
  cells_At m i (x ∷ xs) h = ground (arith, cells_At m (suc i) xs)

-- every element of the list has the property
abbrev pub All {ℓ κ} : {A : Type ℓ} → (A → Type κ) → List A → Type κ
All P [] = Unit
All P (x ∷ xs) = P x × All P xs

pub All-append {ℓ κ} :
    {A : Type ℓ} (P : A → Type κ) (xs ys : List A) → All P xs → All P ys → All P (xs ++ ys)
All-append P [] ys hx hy = hy
All-append P (x ∷ xs) ys hx hy = (hx.0, All-append P xs ys hx.1 hy)

pub All-split {ℓ κ} :
    {A : Type ℓ} (P : A → Type κ) (xs ys : List A) → All P (xs ++ ys) → All P xs × All P ys
All-split P [] ys h = (tt, h)
All-split P (x ∷ xs) ys h = let (a, b) = All-split P xs ys h.1 in ((h.0, a), b)

module _ {A : Type 0} where
  At-All :
      (P : A → Type 0) (m : Memory A) (i : ℕ) (xs : List A)
      → At m i xs
      → All P xs
      → (k : ℕ) → k < length xs
      → P (m (i + k))
  At-All P m i [] h a k lt = absurd (omega arith)
  At-All P m i (x ∷ xs) h a zero lt = subst (λ j. P (m j)) (omega arith) (subst P (sym h.0) a.0)
  At-All P m i (x ∷ xs) h a (suc k) lt =
      subst (λ j. P (m j)) (omega arith) (At-All P m (suc i) xs h.1 a.1 k (omega arith))

  module _ (m : Memory A) (to from : ℕ) where
    -- The run moves up, whole.
    pub copy_down-At :
        (n : ℕ) (xs : List A)
        → from ≤ to
        → length xs ≡ n + 1
        → At m from xs
        → At (copy_down to from n m) to xs
    copy_down-At n xs le e =
        At-move m _ from to xs (λ k lt. ground (arith, copy_down_lem to from n m (to + k)))

    -- The cells in front of it stay.
    pub copy_down-frame :
        (n i : ℕ) (ys : List A)
        → from ≤ to
        → i + length ys ≤ to
        → At m i ys
        → At (copy_down to from n m) i ys
    copy_down-frame n i ys le e =
        At-frame m _ i ys (λ k lo hi. ground (arith, copy_down_lem to from n m k))

    module _ (stop : A → Bool) (fuel : ℕ) (xs : List A) (z : A) (down : to < from)
        (enough : length xs < fuel) (all_in : All (λ x. stop x ≡ false) xs) (end : stop z ≡ true)
        (run : At m from (xs ++ z ∷ [])) where
      parts : At m from xs × At m (from + length xs) (z ∷ [])
      parts = At-split m from xs (z ∷ []) run

      stays_in : (j : ℕ) → j < length xs → stop (m (from + j)) ≡ false
      stays_in = At-All (λ x. stop x ≡ false) m from xs parts.0 all_in

      ends : stop (m (from + length xs)) ≡ true
      ends = rw (parts.1.0) end

      -- The run moves down with its stop.
      pub slide-At : At (slide stop fuel to from m) to (xs ++ z ∷ [])
      slide-At =
          At-move m _ from to (xs ++ z ∷ [])
            (λ k lt. ground (
              arith,
              length-append xs (z ∷ []),
              slide_lem stop fuel to from (length xs) m (to + k) down enough stays_in ends,
            ))
            run

      -- The cells in front of it stay.
      pub slide-frame :
          (i : ℕ) (ys : List A)
          → i + length ys ≤ to
          → At m i ys
          → At (slide stop fuel to from m) i ys
      slide-frame i ys e = At-frame m _ i ys (λ k lo hi.
          ground (arith, slide_lem stop fuel to from (length xs) m k down enough stays_in ends))

      -- The copy finds its stop within the fuel.
      pub slide-stops : stops stop fuel from m ≡ true
      slide-stops = stops_lem stop fuel from (length xs) m enough ends

-- A write before the run, or behind it.
pub At-store_before :
    {A : Type 0} (m : Memory A) (i j : ℕ) (v : A) (xs : List A)
    → j < i
    → At m i xs
    → At (store m j v) i xs
At-store_before m i j v xs lt = At-frame m (store m j v) i xs (λ k lo hi. ground arith)

pub At-store_behind :
    {A : Type 0} (m : Memory A) (i j : ℕ) (v : A) (xs : List A)
    → i + length xs ≤ j
    → At m i xs
    → At (store m j v) i xs
At-store_behind m i j v xs le = At-frame m (store m j v) i xs (λ k lo hi. ground arith)

-- A list written from `i` on: outside it the cells stay.
pub write_list_out :
    {A : Type 0} (i : ℕ) (xs : List A) (m : Memory A) (k : ℕ)
    → (k < i) ⊎ (i + length xs ≤ k)
    → write_list i xs m k ≡ m k
unfolding write_list
write_list_out i [] m k h = refl
write_list_out i (x ∷ xs) m k h =
    ground (arith, write_list_out (suc i) xs (store m i x) k (omega arith))

pub write_list-At : {A : Type 0} (i : ℕ) (xs : List A) (m : Memory A) → At (write_list i xs m) i xs
unfolding write_list
write_list-At i [] m = tt
write_list-At i (x ∷ xs) m = (
  ground (arith, write_list_out (suc i) xs (store m i x) i (omega arith)),
  write_list-At (suc i) xs (store m i x),
)

pub write_list-frame :
    {A : Type 0} (i : ℕ) (xs : List A) (m : Memory A) (j : ℕ) (ys : List A)
    → j + length ys ≤ i
    → At m j ys
    → At (write_list i xs m) j ys
write_list-frame i xs m j ys le =
    At-frame m (write_list i xs m) j ys (λ k lo hi. write_list_out i xs m k (omega arith))

pub At-replicate :
    {A : Type 0} (m : Memory A) (i n : ℕ) (v : A)
    → At m i (replicate n v)
    → (k : ℕ) → i ≤ k
    → k < i + n
    → m k ≡ v
At-replicate m i zero v h k lo hi = absurd (omega arith)
At-replicate m i (suc n) v h k lo hi = ground (arith, At-replicate m (suc i) n v h.1 k)
