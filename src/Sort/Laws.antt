-- ===== src/Sort/Laws.antt =====
-- About the merge sort of src/graph/view3D/msort3d.c, and the bounds it is called with.
use mathlib.Core.List.{Perm, perm_middle}
use mathlib.Core.List.Perm
use mathlib.Core.Path.{subst}
use native.Mathlib.Decide.{dec_lt}
use open_axiom.Prelude.{
  ℕ, zero, suc, ◌+◌, ◌-◌, ◌/◌, ◌≡◌, ◌≤◌, refl, ap, true, false, some, List, [], ◌∷◌, ◌++◌, ◌==◌,
  arith, length, length-append, append-nil, ◌<◌, ==_iff, Bool-cases, inl, inr, sym, if_true,
  if_false, ◌∙◌,
}
use open_axiom.Prelude.Memory.Laws.{All}
use open_axiom.Sort.{at_most_0, Compare, cut, merge_rest, merge, msort, sort_polygons}

==_false : (a b : ℕ) → a < b → (a == b) ≡ false
==_false a b h = ground arith

module _ {A : Type 0} where
  pub cut_lem :
      (n : ℕ) (p : List A)
      → suc n ≤ length p
      → (r : List A × List A) × (cut n p ≡ some r) × (p ≡ r.0 ++ r.1) × (length r.0 ≡ suc n)
  unfolding cut
  cut_lem zero [] h = absurd (omega arith)
  cut_lem (suc n) [] h = absurd (omega arith)
  cut_lem zero (x ∷ p) h = ((x ∷ [], p), refl, refl, refl)
  cut_lem (suc n) (x ∷ p) h =
      let (r, e, split, len) = cut_lem n p (omega arith) in
      ((x ∷ r.0, r.1), rw e refl, ap (λ q. x ∷ q) split, ap suc len)

-- What a comparison is taken to satisfy.
pub record IsOrder {A : Type 0} (o : Compare A) : Type 0 where
  pub total : (x y : A) → at_most_0 (o.compare x y) ≡ false → at_most_0 (o.compare y x) ≡ true
  pub trans :
      (x y z : A)
      → at_most_0 (o.compare x y) ≡ true
      → at_most_0 (o.compare y z) ≡ true
      → at_most_0 (o.compare x z) ≡ true

module _ {A : Type 0} ⦃o : Compare A⦄ where
  abbrev pub Before : A → A → Type 0
  Before x y = at_most_0 (o.compare x y) ≡ true

  -- No later element comes before an earlier one.
  abbrev pub IsSorted : List A → Type 0
  IsSorted [] = Unit
  IsSorted (x ∷ xs) = All (Before x) xs × IsSorted xs

  -- The two cases of the head are those of the rest, after its first comparison.
  merge_lem : (p q : List A) → merge p q ≡ merge_rest p q
  unfolding merge merge_rest
  merge_lem [] q = refl
  merge_lem (x ∷ p) [] = refl
  merge_lem (x ∷ p) (y ∷ q) = refl

  rest_left :
      (x y : A) (p q : List A) → Before x y → merge_rest (x ∷ p) (y ∷ q) ≡ x ∷ merge_rest p (y ∷ q)
  unfolding merge_rest
  rest_left x y p q h = rw h refl

  rest_right :
      (x y : A) (p q : List A)
      → at_most_0 (o.compare x y) ≡ false
      → merge_rest (x ∷ p) (y ∷ q) ≡ y ∷ merge_rest (x ∷ p) q
  unfolding merge_rest
  rest_right x y p q h = rw h refl

  merge_rest-Perm : (p q : List A) → Perm (merge_rest p q) (p ++ q)
  unfolding merge_rest
  merge_rest-Perm [] q = Perm.rfl
  merge_rest-Perm (x ∷ p) [] = rw (append-nil p) Perm.rfl
  merge_rest-Perm (x ∷ p) (y ∷ q) = elim (Bool-cases (at_most_0 (o.compare x y))) [
    | inl h ↦ rw (rest_left x y p q h) (Perm.cons x (merge_rest-Perm p (y ∷ q)))
    | inr h ↦
        rw (rest_right x y p q h)
          (Perm.trans (Perm.cons y (merge_rest-Perm (x ∷ p) q)) (Perm.symm (perm_middle (x ∷ p) q)))
  ]

  All-rest : (P : A → Type 0) (p q : List A) → All P p → All P q → All P (merge_rest p q)
  unfolding merge_rest
  All-rest P [] q hp hq = hq
  All-rest P (x ∷ p) [] hp hq = hp
  All-rest P (x ∷ p) (y ∷ q) hp hq = elim (Bool-cases (at_most_0 (o.compare x y))) [
    | inl h ↦ rw h ((hp.0, All-rest P p (y ∷ q) hp.1 hq))
    | inr h ↦ rw h ((hq.0, All-rest P (x ∷ p) q hp hq.1))
  ]

  msort_same :
      (fuel : ℕ) (p : List A) (min max : ℕ) → min ≡ max → msort (suc fuel) p min max ≡ some p
  unfolding msort
  msort_same fuel p min max e = if_true _ _ _ ((==_iff min max).1 e)

  msort_step :
      (fuel : ℕ) (p front temp left right : List A) (min max : ℕ)
      → let mid = (min + max - 1) / 2 in
        min < max
        → cut (mid - min) p ≡ some (front, temp)
        → msort fuel front min mid ≡ some left
        → msort fuel temp (mid + 1) max ≡ some right
        → msort (suc fuel) p min max ≡ some (merge left right)
  unfolding msort
  msort_step fuel p front temp left right min max lt c l r =
      if_false _ _ _ (==_false min max lt) ∙ rw (c, l, r) refl

  IsSorted-short : (p : List A) → length p ≤ 1 → IsSorted p
  IsSorted-short [] h = tt
  IsSorted-short (x ∷ []) h = (tt, tt)
  IsSorted-short (x ∷ y ∷ p) h = absurd (omega arith)

  module _ (order : IsOrder o) where
    All-below : (x y : A) (q : List A) → Before x y → All (Before y) q → All (Before x) q
    All-below x y [] h a = tt
    All-below x y (z ∷ q) h a = (order.trans x y z h a.0, All-below x y q h a.1)

    merge_rest-IsSorted : (p q : List A) → IsSorted p → IsSorted q → IsSorted (merge_rest p q)
    unfolding merge_rest
    merge_rest-IsSorted [] q sp sq = sq
    merge_rest-IsSorted (x ∷ p) [] sp sq = sp
    merge_rest-IsSorted (x ∷ p) (y ∷ q) sp sq = elim (Bool-cases (at_most_0 (o.compare x y))) [
      | inl h ↦ rw h (
          (
            All-rest (Before x) p (y ∷ q) sp.0 (h, All-below x y q h sq.0),
            merge_rest-IsSorted p (y ∷ q) sp.1 sq,
          ))
      | inr h ↦
          let below = order.total x y h in
          rw h (
            (
              All-rest (Before y) (x ∷ p) q (below, All-below y x p below sp.0) sq.0,
              merge_rest-IsSorted (x ∷ p) q sp sq.1,
            ))
    ]

    -- The middle that a round computes, and what it is good for.
    halve :
        (min max n : ℕ)
        → min < max
        → max - min ≤ n
        → n ≤ max - min + 1
        → let mid = (min + max - 1) / 2 in (min ≤ mid) × (mid < max) × (suc (mid - min) ≤ n)
    halve min max n h low high = omega arith

    -- With fuel for the length of the range, and a list that is as long as the range, or one
    -- element short of it, there is a result, in order, and a rearrangement of the list.
    pub msort-IsSorted :
        (fuel : ℕ) (p : List A) (min max : ℕ)
        → min ≤ max
        → max - min < fuel
        → max - min ≤ length p
        → length p ≤ max - min + 1
        → (r : List A) × (msort fuel p min max ≡ some r) × IsSorted r × Perm r p
    unfolding msort
    msort-IsSorted zero p min max ordered enough low high = absurd (omega arith)
    msort-IsSorted (suc fuel) p min max ordered enough low high = elim (dec_lt min max) [
      | no same ↦
          (p, msort_same fuel p min max (omega arith), IsSorted-short p (omega arith), Perm.rfl)
      | yes lt ↦
          let (below, above, first) = halve min max (length p) lt low high in
          let mid = (min + max - 1) / 2 in
          let (r, c, split, len) = cut_lem (mid - min) p first in
          let total_length = sym (length-append r.0 r.1) ∙ ap length (sym split) in
          let (left, l, left_sorted, left_perm) =
            msort-IsSorted fuel r.0 min mid below (omega arith) (omega arith) (omega arith) in
          let (right, q, right_sorted, right_perm) =
            msort-IsSorted fuel r.1 (mid + 1) max (omega arith) (omega arith) (omega arith)
              (omega arith) in
          (
            merge left right,
            msort_step fuel p r.0 r.1 left right min max lt c l q,
            rw (merge_lem left right) (merge_rest-IsSorted left right left_sorted right_sorted),
            subst (λ l. Perm (merge left right) l) (sym split)
                (rw (merge_lem left right)
                  (Perm.trans (merge_rest-Perm left right) (Perm.append left_perm right_perm))),
          )
    ]

    -- For a comparison that is total and transitive, a list of as many polygons as the call says,
    -- which is one element less than the range that it gives to msort, comes back in order, and
    -- rearranged.
    pub sort_polygons-IsSorted :
        (quick_list : List A)
        → (r : List A) × (sort_polygons quick_list (length quick_list) ≡ some r)
          × IsSorted r
          × Perm r quick_list
    unfolding sort_polygons
    sort_polygons-IsSorted quick_list =
        msort-IsSorted (length quick_list + 1) quick_list 0 (length quick_list) (omega arith)
          (omega arith) (omega arith) (omega arith)
