-- ===== src/Sort.antt =====
-- src/graph/view3D/msort3d.c: the merge sort of the polygons that a 3D viewport draws, and its
-- call in src/graph/view3D/surface3d.c.
pub mod Laws
mod Tests
use open_axiom.Prelude.{
  ℕ, zero, suc, ◌+◌, ◌-◌, ◌/◌, ◌≡◌, Bool, true, false, Option, none, some, List, [], ◌∷◌, ◌==◌,
  if◌then◌else◌, ◌>>=◌,
}

-- The sign of what `compare` returns.
pub data Sign : Type 0 where
  negative : Sign
  null : Sign
  positive : Sign

-- `compare(p,q) <= 0`
abbrev pub at_most_0 : Sign → Bool
at_most_0 negative = true
at_most_0 null = true
at_most_0 positive = false

-- The `compare` that the sort is given.
pub record Compare {ℓ} (A : Type ℓ) : Type ℓ where
  pub compare : A → A → Sign

module _ {ℓ} {A : Type ℓ} where
  -- `for (i=min,q=p; i<mid; i++,q=q->next); temp = q->next; q->next = 0;` with `mid - min` rounds:
  -- the list that `p` is then, and `temp`. There is none where `q` is NULL.
  unfoldable pub cut : ℕ → List A → Option (List A × List A)
  cut n [] = none
  cut zero (x ∷ p) = some (x ∷ [], p)
  cut (suc n) (x ∷ p) = do (front, temp) ← cut n p; some (x ∷ front, temp)

module _ {ℓ} {A : Type ℓ} ⦃o : Compare A⦄ where
  -- The `while` and the tail end: what comes to hang behind `current`.
  unfoldable pub merge_rest : List A → List A → List A
  merge_rest [] qN = qN
  merge_rest (x ∷ pN) [] = x ∷ pN
  merge_rest (x ∷ pN) (y ∷ qN) =
      let take_p = merge_rest pN (y ∷ qN) in
      let take_q = merge_rest (x ∷ pN) qN in
      if at_most_0 (o.compare x y) then x ∷ take_p else y ∷ take_q

  unfoldable pub merge : List A → List A → List A
  merge [] q = q
  merge (x ∷ p) [] = x ∷ p
  merge (x ∷ p) (y ∷ q) =
      if at_most_0 (o.compare x y) then x ∷ merge_rest p (y ∷ q) else y ∷ merge_rest (x ∷ p) q

  -- There is no result where a NULL pointer is followed, or where the fuel is short.
  unfoldable pub msort : (fuel : ℕ) → List A → (min max : ℕ) → Option (List A)
  msort zero p min max = none
  msort (suc fuel) p min max =
      let mid = (min + max - 1) / 2 in
      let halves = (do
        (front, temp) ← cut (mid - min) p
        left ← msort fuel front min mid
        right ← msort fuel temp (mid + 1) max
        some (merge left right)) in
      if min == max then some p else halves

-- `quickList = msort(quickList,0,viewData.numPolygons,polyCompare);`
module _ {ℓ} {Poly : Type ℓ} ⦃o : Compare Poly⦄ where
  unfoldable pub sort_polygons : List Poly → (num_polygons : ℕ) → Option (List Poly)
  sort_polygons quick_list num_polygons = msort (num_polygons + 1) quick_list 0 num_polygons
