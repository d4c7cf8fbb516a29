-- ===== src/Clef/Ring/Neighbours.antt =====
-- The links between the nodes of the ring (src/lib/edin.c), and how the moves of a node keep them.
use open_axiom.Prelude.{ℕ, ◌+◌, ◌<◌, ◌≡◌, ◌≢◌, arith}
use open_axiom.Clef.State.{◌▷◌}
use open_axiom.Clef.Ring.{Nodes, set_prev, set_next, take_out, put_in, move_to_front, link_new}

-- The first `size` nodes point at one another, and each is what its neighbours point at.
pub record IsLinked (size : ℕ) (m : Nodes) : Type 0 where
  pub next_in : (p : ℕ) → p < size → (m p).next < size
  pub prev_in : (p : ℕ) → p < size → (m p).prev < size
  pub prev_next : (p : ℕ) → p < size → (m (m p).next).prev ≡ p
  pub next_prev : (p : ℕ) → p < size → (m (m p).prev).next ≡ p

-- The same of all the nodes but one.
record IsLinkedBut (trace size : ℕ) (m : Nodes) : Type 0 where
  pub next_in : (p : ℕ) → p < size → p ≢ trace → ((m p).next < size) × ((m p).next ≢ trace)
  pub prev_in : (p : ℕ) → p < size → p ≢ trace → ((m p).prev < size) × ((m p).prev ≢ trace)
  pub prev_next : (p : ℕ) → p < size → p ≢ trace → (m (m p).next).prev ≡ p
  pub next_prev : (p : ℕ) → p < size → p ≢ trace → (m (m p).prev).next ≡ p

module _ (size : ℕ) (m : Nodes) (linked : IsLinked size m) where
  pub link_new-IsLinked : (ring : ℕ) → ring < size → IsLinked (size + 1) (link_new size ring m)
  unfolding link_new
  link_new-IsLinked ring r = record {
    next_in = λ p h. ground (arith, linked.next_in p, linked.next_in ring r);
    prev_in = λ p h. ground (arith, linked.prev_in p, linked.next_in ring r);
    prev_next = λ p h. ground (
      arith,
      linked.next_in p,
      linked.next_in ring r,
      linked.prev_next p,
      linked.prev_next ring r,
    );
    next_prev = λ p h. ground (
      arith,
      linked.prev_in p,
      linked.next_in ring r,
      linked.next_prev p,
      linked.prev_next ring r,
    );
  }

  -- The first two of the assignments take `trace` out.
  module _ (trace : ℕ) (t : trace < size) where
    take_out-IsLinkedBut : IsLinkedBut trace size (take_out trace m)
    unfolding take_out
    take_out-IsLinkedBut = record {
      next_in = λ p h a. ground (
        arith,
        linked.next_in p,
        linked.next_in trace t,
        linked.next_prev trace t,
        linked.prev_next trace t,
        linked.prev_next p h,
      );
      prev_in = λ p h a. ground (
        arith,
        linked.prev_in p,
        linked.prev_in trace t,
        linked.prev_next trace t,
        linked.next_prev trace t,
        linked.next_prev p h,
      );
      prev_next = λ p h a.
          ground (arith, linked.prev_next p h, linked.prev_next trace t, linked.next_prev trace t);
      next_prev = λ p h a.
          ground (arith, linked.next_prev p h, linked.prev_next trace t, linked.next_prev trace t);
    }

module _ (size trace ring : ℕ) (m : Nodes) (linked : IsLinkedBut trace size m) (t : trace < size)
    (r : ring < size) (apart : ring ≢ trace) where
  put_in-IsLinked : IsLinked size (put_in trace ring m)
  unfolding put_in
  put_in-IsLinked = record {
    next_in = λ p h. ground (arith, linked.next_in p, linked.next_in ring r);
    prev_in = λ p h. ground (arith, linked.prev_in p, linked.next_in ring r);
    prev_next = λ p h. ground (
      arith,
      linked.next_in p,
      linked.next_in ring r,
      linked.prev_next p,
      linked.prev_next ring r,
    );
    next_prev = λ p h. ground (
      arith,
      linked.prev_in p,
      linked.next_in ring r,
      linked.next_prev p,
      linked.prev_next ring r,
    );
  }

module _ (size trace ring : ℕ) (m : Nodes) (linked : IsLinked size m) (t : trace < size)
    (r : ring < size) (apart : ring ≢ trace) where
  pub move_to_front-IsLinked : IsLinked size (move_to_front trace ring m)
  unfolding move_to_front
  move_to_front-IsLinked =
      put_in-IsLinked size trace ring (take_out trace m)
        (take_out-IsLinkedBut size m linked trace t) t r apart

-- Only the links count.
pub IsLinked-links :
    (size : ℕ) (m n : Nodes)
    → ((p : ℕ) → ((n p).prev ≡ (m p).prev) × ((n p).next ≡ (m p).next))
    → IsLinked size m
    → IsLinked size n
IsLinked-links size m n same linked = record {
  next_in = λ p h. ground (arith, same p, linked.next_in p h);
  prev_in = λ p h. ground (arith, same p, linked.prev_in p h);
  prev_next = λ p h. ground (arith, same p, same (m p).next, linked.prev_next p h);
  next_prev = λ p h. ground (arith, same p, same (m p).prev, linked.next_prev p h);
}

pub first_node-IsLinked :
    (z : ℕ) (m : Nodes) → z ≡ 0 → IsLinked (z + 1) (m ▷ set_prev z z ▷ set_next z z)
first_node-IsLinked z m e = record {
  next_in = λ p h. ground arith;
  prev_in = λ p h. ground arith;
  prev_next = λ p h. ground arith;
  next_prev = λ p h. ground arith;
}
