-- ===== src/Sort/Tests.antt =====
-- Five polygons by their greatest depth.
use mathlib.Core.List.{Perm}
use open_axiom.Prelude.{ℕ, ◌≡◌, some, List, [], ◌∷◌, arith, ltb, if◌then◌else◌, length}
use open_axiom.Sort.{negative, null, positive, Compare, sort_polygons}
use open_axiom.Sort.Laws.{IsSorted, IsOrder, sort_polygons-IsSorted}

-- `polyCompare`, with depths that are natural numbers
instance abbrev poly_compare : Compare ℕ
poly_compare = record {
  compare = λ a b. if ltb b a then negative else if ltb a b then positive else null;
}

deepest_first : IsOrder poly_compare
deepest_first = record { total = λ x y h. ground arith; trans = λ x y z h k. ground arith }

abbrev depths : List ℕ
depths = 2 ∷ 9 ∷ 4 ∷ 4 ∷ 7 ∷ []

sort_polygons_example :
    (r : List ℕ) × (sort_polygons depths (length depths) ≡ some r) × IsSorted r × Perm r depths
sort_polygons_example = sort_polygons-IsSorted deepest_first depths
