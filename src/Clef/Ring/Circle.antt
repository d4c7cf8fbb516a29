-- ===== src/Clef/Ring/Circle.antt =====
-- The links to the node in front go through the whole ring (src/lib/edin.c).
use mathlib.Core.Path.{subst}
use open_axiom.Prelude.{◌==◌, Bool-cases, inl, inr, ℕ, ◌+◌, ◌<◌, ◌≡◌, ◌≢◌, arith}
use open_axiom.Clef.Ring.{Nodes, take_out, put_in, move_to_front, link_new}
use open_axiom.Clef.Ring.Neighbours.{IsLinked}

-- The nodes that the links to the node in front lead to, from `r` on.
pub data Reached (m : Nodes) (r : ℕ) : ℕ → Type 0 where
  start : Reached m r r
  then_prev : (p : ℕ) → Reached m r p → Reached m r (m p).prev

Reached-at : {m : Nodes} {r p q : ℕ} → Reached m r p → (m p).prev ≡ q → Reached m r q
Reached-at {m} {r} {p} at e = subst (Reached m r) e (then_prev p at)

pub Reached-links :
    {m n : Nodes} {r p : ℕ} → ((q : ℕ) → (n q).prev ≡ (m q).prev) → Reached m r p → Reached n r p
Reached-links same start = start
Reached-links same (then_prev p at) = Reached-at (Reached-links same at) (same p)

module _ (size : ℕ) (m : Nodes) (linked : IsLinked size m) where
  Reached-lt : {r p : ℕ} → r < size → Reached m r p → p < size
  Reached-lt lt start = lt
  Reached-lt lt (then_prev p at) = linked.prev_in p (Reached-lt lt at)

  -- From the oldest node on, in front of which the newest stands.
  pub Reached-next : {r p : ℕ} → r < size → Reached m r p → Reached m (m r).next p
  Reached-next {r} lt start = Reached-at start (linked.prev_next r lt)
  Reached-next lt (then_prev p at) = then_prev p (Reached-next lt at)

  link_new_prev :
      (ring p : ℕ)
      → ring < size
      → p < size
      → p ≢ (m ring).next
      → (link_new size ring m p).prev ≡ (m p).prev
  unfolding link_new
  link_new_prev ring p r lt other = ground (arith, linked.next_in ring r)

  link_new_fresh : (ring : ℕ) → ring < size → (link_new size ring m size).prev ≡ ring
  unfolding link_new
  link_new_fresh ring r = ground (arith, linked.next_in ring r)

  link_new-Reached :
      {ring p : ℕ} → ring < size → Reached m ring p → Reached (link_new size ring m) size p
  link_new-Reached {ring} r start = Reached-at start (link_new_fresh ring r)
  link_new-Reached {ring} r (then_prev p at) = elim (Bool-cases (p == (m ring).next)) [
    | inl oldest ↦
        let e : ring ≡ (m p).prev = ground (arith, linked.prev_next ring r) in
        subst (Reached (link_new size ring m) size) e (Reached-at start (link_new_fresh ring r))
    | inr other ↦
        Reached-at (link_new-Reached r at) (link_new_prev ring p r (Reached-lt r at) (ground arith))
  ]

  pub link_new_all :
      (ring : ℕ)
      → ring < size
      → ((p : ℕ) → p < size → Reached m ring p)
      → (p : ℕ) → p < size + 1
      → Reached (link_new size ring m) size p
  link_new_all ring r all p lt = elim (Bool-cases (p == size)) [
    | inl e ↦ subst (Reached (link_new size ring m) size) {x = size} (ground arith) start
    | inr e ↦ link_new-Reached r (all p (ground arith))
  ]

-- Where the links to the node in front lead when `trace` has moved.
module _ (size trace ring : ℕ) (m : Nodes) (linked : IsLinked size m) (t : trace < size)
    (r : ring < size) (apart : ring ≢ trace) where
  abbrev moved : Nodes
  moved = move_to_front trace ring m

  moved_trace : (moved trace).prev ≡ ring
  unfolding move_to_front take_out put_in
  moved_trace = ground (
    arith,
    linked.prev_next trace t,
    linked.next_prev trace t,
    linked.prev_next ring r,
    linked.next_prev ring r,
  )

  moved_behind :
      (m trace).prev ≢ ring → (m trace).next ≢ trace → (moved (m trace).next).prev ≡ (m trace).prev
  unfolding move_to_front take_out put_in
  moved_behind other alone = ground (
    arith,
    linked.prev_next trace t,
    linked.next_prev trace t,
    linked.prev_next ring r,
    linked.next_prev ring r,
  )

  moved_other :
      (p : ℕ)
      → p < size
      → p ≢ trace
      → p ≢ (m trace).next
      → p ≢ (m ring).next
      → (moved p).prev ≡ (m p).prev
  unfolding move_to_front take_out put_in
  moved_other p lt a b c = ground (
    arith,
    linked.prev_next trace t,
    linked.next_prev trace t,
    linked.prev_next ring r,
    linked.next_prev ring r,
  )

  at_ring : Reached moved trace ring
  at_ring = Reached-at start moved_trace

  -- A node stays reached, and the one in front of `trace` takes its place.
  abbrev Follows : ℕ → Type 0
  Follows p = (p ≢ trace → Reached moved trace p) × (p ≡ trace → Reached moved trace (m trace).prev)

  follow_kept :
      (p : ℕ)
      → p < size
      → p ≢ trace
      → (m p).prev ≢ trace
      → Reached moved trace p
      → Reached moved trace (m p).prev
  follow_kept p lt a b at = elim (Bool-cases (p == (m ring).next)) [
    | inl oldest ↦
        subst (Reached moved trace) {x = ring} (ground (arith, linked.prev_next ring r)) at_ring
    | inr other ↦
        Reached-at at
          (moved_other p lt a (λ e. ground (arith, linked.prev_next trace t)) (ground arith))
  ]

  follow_led :
      (p : ℕ)
      → p < size
      → p ≢ trace
      → (m p).prev ≡ trace
      → Reached moved trace p
      → Reached moved trace (m trace).prev
  follow_led p lt a e at =
      let behind : p ≡ (m trace).next =
        ground (arith, linked.prev_next trace t, linked.next_prev p lt) in
      elim (Bool-cases ((m trace).prev == ring)) [
        | inl oldest ↦ subst (Reached moved trace) {x = ring} (ground arith) at_ring
        | inr other ↦
            Reached-at (subst (Reached moved trace) behind at)
              (moved_behind (ground arith) (ground arith))
      ]

  follow : (p : ℕ) → p < size → Follows p → Follows (m p).prev
  follow p lt (kept, led) = elim (Bool-cases (p == trace)) [
    | inl e ↦
        let b : Reached moved trace (m trace).prev = led (ground arith) in
        (λ _. subst (Reached moved trace) {x = (m trace).prev} (ground arith) b, λ _. b)
    | inr e ↦
        let a : p ≢ trace = ground arith in
        (λ other. follow_kept p lt a other (kept a), λ same. follow_led p lt a same (kept a))
  ]

  Reached-Follows : {p : ℕ} → Reached m ring p → Follows p
  Reached-Follows start = (λ _. at_ring, λ e. absurd (apart e))
  Reached-Follows (then_prev p at) = follow p (Reached-lt size m linked r at) (Reached-Follows at)

  pub move_to_front-Reached :
      ((p : ℕ) → p < size → Reached m ring p) → (p : ℕ) → p < size → Reached moved trace p
  move_to_front-Reached all p lt = elim (Bool-cases (p == trace)) [
    | inl e ↦ subst (Reached moved trace) {x = trace} {y = p} (ground arith) start
    | inr e ↦ (Reached-Follows (all p lt)).0 (ground arith)
  ]
