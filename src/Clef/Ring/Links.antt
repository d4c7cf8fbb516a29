-- ===== src/Clef/Ring/Links.antt =====
-- The ring of earlier lines (src/lib/edin.c) stays one ring.
use mathlib.Core.Path.{subst}
use open_axiom.Prelude.{
  Bool-cases, Option-cases, inl, inr, sym, if_true, if_false, ltb→lt, ℕ, zero, suc, ◌<◌, ◌≤◌, ◌≡◌,
  refl, true, Option, none, some, arith, ltb,
}
use open_axiom.Prelude.Memory.{Memory}
use open_axiom.Clef.State.{Editor, maxline}
use open_axiom.Clef.Ring.{
  Nodes, move_to_front, link_new, find_line, save_line, add_line, queue_line, insert_queue, maxring,
  same_string,
}
use open_axiom.Clef.Ring.Neighbours.{
  IsLinked, IsLinked-links, link_new-IsLinked, move_to_front-IsLinked, first_node-IsLinked,
}
use open_axiom.Clef.Ring.Circle.{
  Reached, start, Reached-links, Reached-next, link_new_all, move_to_front-Reached,
}

-- What the ring of an editor keeps: its newest node is one of its nodes, of which there are at most
-- `MAXRING`, they are linked, and all of them are on the way back from the newest one.
pub record IsRing (s : Editor) : Type 0 where
  pub newest : (r : ℕ) → s.ring ≡ some r → r < s.ring_size
  pub empty : s.ring ≡ none → s.ring_size ≡ 0
  pub bounded : s.ring_size ≤ maxring
  pub nodes_linked : IsLinked s.ring_size s.nodes
  pub all_reached : (r : ℕ) → s.ring ≡ some r → (p : ℕ) → p < s.ring_size → Reached s.nodes r p

find_line-lt :
    (size n trace : ℕ) (text : Memory ℕ) (m : Nodes)
    → IsLinked size m
    → trace < size
    → (found : ℕ) → find_line n trace text m ≡ some found
    → (found < size) × (same_string maxline 0 text (m found).chars ≡ true)
unfolding find_line
find_line-lt size zero trace text m linked t found h = ground arith
find_line-lt size (suc n) trace text m linked t found h = ground (
  arith,
  linked.prev_in trace t,
  find_line-lt size n (m trace).prev text m linked (linked.prev_in trace t) found,
)

save_line-links :
    (q : ℕ) (s : Editor) (p : ℕ)
    → (((save_line q s).nodes p).prev ≡ (s.nodes p).prev)
      × (((save_line q s).nodes p).next ≡ (s.nodes p).next)
unfolding save_line
save_line-links q s p = ground arith

save_line-IsRing : (q : ℕ) (s : Editor) → IsRing s → IsRing (save_line q s)
unfolding save_line
save_line-IsRing q s w = record {
  newest = w.newest;
  empty = w.empty;
  bounded = w.bounded;
  nodes_linked =
      IsLinked-links s.ring_size s.nodes (save_line q s).nodes (save_line-links q s) w.nodes_linked;
  all_reached = λ r h p lt. Reached-links (λ k. (save_line-links q s k).0) (w.all_reached r h p lt);
}

newest_same : {a b : ℕ} → some a ≡ some b → a ≡ b
newest_same e = cc

add_line-IsRing : (o : Option ℕ) (s : Editor) → s.ring ≡ o → IsRing s → IsRing (add_line o s)
unfolding add_line
add_line-IsRing none s e w = save_line-IsRing s.ring_size _ (record {
  newest = λ r h. ground arith;
  empty = λ h. ground arith;
  bounded = omega (arith, w.empty e);
  nodes_linked = first_node-IsLinked s.ring_size s.nodes (w.empty e);
  all_reached =
      λ r h p lt. subst (Reached _ r) {x = r} (omega (arith, w.empty e, newest_same h)) start;
})
add_line-IsRing (some r) s e w = elim (Bool-cases (ltb s.ring_size maxring)) [
  | inl lt ↦ rw lt (
      save_line-IsRing s.ring_size _ (record {
        newest = λ q h. ground arith;
        empty = λ h. ground arith;
        bounded = omega (arith, ltb→lt s.ring_size maxring lt);
        nodes_linked = link_new-IsLinked s.ring_size s.nodes w.nodes_linked r (w.newest r e);
        all_reached = λ q h p small.
            subst (λ k. Reached (link_new s.ring_size r s.nodes) k p) (newest_same h)
              (link_new_all s.ring_size s.nodes w.nodes_linked r (w.newest r e) (w.all_reached r e)
                p small);
      }))
  | inr le ↦ rw le (
      save_line-IsRing (s.nodes r).next _ (record {
        newest = λ q h. ground (arith, w.nodes_linked.next_in r (w.newest r e));
        empty = λ h. ground arith;
        bounded = w.bounded;
        nodes_linked = w.nodes_linked;
        all_reached = λ q h p small.
            subst (λ k. Reached s.nodes k p) (newest_same h)
              (Reached-next s.ring_size s.nodes w.nodes_linked (w.newest r e)
                (w.all_reached r e p small));
      }))
]

queue_line-IsRing : (o : Option ℕ) (s : Editor) → s.ring ≡ o → IsRing s → IsRing (queue_line o s)
unfolding queue_line
queue_line-IsRing none s e w = add_line-IsRing none s e w
queue_line-IsRing (some r) s e w =
    elim (Bool-cases (same_string maxline 0 s.buff (s.nodes r).chars)) [
      | inl same ↦ rw same w
      | inr other ↦ rw other (elim (Option-cases (find_line 9 r s.buff s.nodes)) [
        | inl n ↦ rw n (add_line-IsRing (some r) s e w)
        | inr (q, found) ↦
            let (lt, text) =
              find_line-lt s.ring_size 9 r s.buff s.nodes w.nodes_linked (w.newest r e) q found in
            rw found (record {
              newest = λ x h. ground arith;
              empty = λ h. ground arith;
              bounded = w.bounded;
              nodes_linked =
                  move_to_front-IsLinked s.ring_size q r s.nodes w.nodes_linked lt (w.newest r e)
                    (λ x. ground arith);
              all_reached = λ x h p small.
                  subst (λ k. Reached (move_to_front q r s.nodes) k p) (newest_same h)
                    (move_to_front-Reached s.ring_size q r s.nodes w.nodes_linked lt (w.newest r e)
                      (λ x. ground arith) (w.all_reached r e) p small);
            })
      ])
    ]

-- insert_queue keeps the ring one ring: at most MAXRING nodes, the newest among them, each of which
-- is what its two neighbours point at, and all of which the links to the node in front go through
-- from the newest one on.
pub insert_queue-IsRing : (s : Editor) → IsRing s → IsRing (insert_queue s)
unfolding insert_queue
insert_queue-IsRing s w = elim (Bool-cases s.echoit) [
  | inl e ↦
      subst IsRing (sym (if_true s.echoit (queue_line s.ring s) s e))
        (queue_line-IsRing s.ring s refl w)
  | inr e ↦ subst IsRing (sym (if_false s.echoit (queue_line s.ring s) s e)) w
]
