-- ===== src/Hyper/Chains/Copy.antt =====
-- What copy_group_stack of src/hyper/group.c leaves in the memory.
use open_axiom.Prelude.{
  ℕ, zero, suc, ◌+◌, ◌≤◌, ◌<◌, ◌≡◌, ◌≢◌, refl, sym, ap, ◌∙◌, Option, none, some, List, [], ◌∷◌, map,
  arith, length, ◌>>=◌,
}
use mathlib.Core.Path.{subst}
use open_axiom.Prelude.Memory.{Memory}
use open_axiom.Hyper.Groups.{GroupItem}
use open_axiom.Hyper.Items.{ItemStack, copy_items}
use open_axiom.Hyper.Chains.{
  Node, Heap, set_next, new_node, copy_rest, copy_chain, copy_group_stack, copy_item_nodes,
}

module _ {A : Type 0} where
  -- From `p` on the nodes, all from `first` on and below `bound`, hold these items.
  abbrev pub Holds : Memory (Node A) → (first bound : ℕ) → Option ℕ → List A → Type 0
  Holds m first bound p [] = p ≡ none
  Holds m first bound p (x ∷ xs) =
      (n : ℕ) × (p ≡ some n)
      × (first ≤ n)
      × (n < bound)
      × ((m n).item ≡ x)
      × Holds m first bound (m n).next xs

  Holds-lower :
      (m : Memory (Node A)) (first first' bound : ℕ) (p : Option ℕ) (xs : List A)
      → first' ≤ first
      → Holds m first bound p xs
      → Holds m first' bound p xs
  Holds-lower m first first' bound p [] le e = e
  Holds-lower m first first' bound p (x ∷ xs) le (n, e, from, lt, item, rest) =
      (n, e, omega arith, lt, item, Holds-lower m first first' bound (m n).next xs le rest)

  Holds-same :
      (m m' : Memory (Node A)) (first bound : ℕ) (p : Option ℕ) (xs : List A)
      → ((n : ℕ) → n < bound → m' n ≡ m n)
      → Holds m first bound p xs
      → Holds m' first bound p xs
  Holds-same m m' first bound p [] same e = e
  Holds-same m m' first bound p (x ∷ xs) same (n, e, from, lt, item, rest) = (
    n,
    e,
    from,
    lt,
    ap (λ (k : Node A). k.item) (same n lt) ∙ item,
    Holds-same m m' first bound (m' n).next xs same (rw (same n lt) rest),
  )

  -- The round of the loop for the node `t`.
  abbrev round : (A → A) → (prev t : ℕ) → Heap A → Heap A
  round copied prev t h = set_next prev (some h.used) (new_node (copied (h.nodes t).item) h)

  module _ (copied : A → A) (prev t : ℕ) (h : Heap A) (lt : prev < h.used) where
    round_old : (n : ℕ) → n < h.used → n ≢ prev → (round copied prev t h).nodes n ≡ h.nodes n
    unfolding set_next new_node
    round_old n small other = ground arith

    round_prev : (round copied prev t h).nodes prev ≡ record (h.nodes prev) { next = some h.used }
    unfolding set_next new_node
    round_prev = ground arith

    round_new : ((round copied prev t h).nodes h.used).item ≡ copied (h.nodes t).item
    unfolding set_next new_node
    round_new = ground arith

    round_used : (round copied prev t h).used ≡ h.used + 1
    unfolding set_next new_node
    round_used = refl

  -- The rest of the copy hangs behind `prev`, and all that was there before is as it was.
  pub record Copies (copied : A → A) (h : Heap A) (prev : ℕ) (xs : List A) (r : Option (Heap A))
      : Type 0 where
    pub heap : Heap A
    pub outcome : r ≡ some heap
    pub grows : h.used ≤ heap.used
    pub item : (heap.nodes prev).item ≡ (h.nodes prev).item
    pub rest : Holds heap.nodes h.used heap.used (heap.nodes prev).next (map copied xs)
    pub same : (n : ℕ) → n < h.used → n ≢ prev → heap.nodes n ≡ h.nodes n

  copy_rest-Copies :
      (f : ℕ) (copied : A → A) (prev : ℕ) (bound : ℕ) (trace : Option ℕ) (xs : List A) (h : Heap A)
      → length xs ≤ f
      → bound ≤ prev
      → prev < h.used
      → Holds h.nodes 0 bound trace xs
      → Copies copied h prev xs (copy_rest f copied prev trace h)
  unfolding copy_rest
  copy_rest-Copies f copied prev bound trace [] h enough le lt e = record {
    heap = set_next prev none h;
    outcome = ap (λ q. copy_rest f copied prev q h) e;
    grows = unfold set_next in omega arith;
    item = unfold set_next in ground arith;
    rest = unfold set_next in ground arith;
    same = unfold set_next in λ n small other. ground arith;
  }
  copy_rest-Copies zero copied prev bound trace (x ∷ xs) h enough le lt held = absurd (omega arith)
  copy_rest-Copies (suc f) copied prev bound trace (x ∷ xs) h enough le lt
        (t, e, from, below, item, rest) =
      let h' = round copied prev t h in
      let used = round_used copied prev t h lt in
      let old : (n : ℕ) → n < bound → h'.nodes n ≡ h.nodes n =
        λ n small. round_old copied prev t h lt n (omega arith) (λ at. omega arith) in
      let next : (h'.nodes t).next ≡ (h.nodes t).next = ap (λ (k : Node A). k.next) (old t below) in
      let r =
        copy_rest-Copies f copied h.used bound (h'.nodes t).next xs h' (omega arith) (omega arith)
          (omega (arith, used))
          (Holds-same h.nodes h'.nodes 0 bound (h'.nodes t).next xs old
            (subst (λ q. Holds h.nodes 0 bound q xs) (sym next) rest)) in
      let at_prev : r.heap.nodes prev ≡ record (h.nodes prev) { next = some h.used } =
        r.same prev (omega (arith, used)) (λ at. omega arith) ∙ round_prev copied prev t h lt in
      record {
        heap = r.heap;
        outcome = ap (λ q. copy_rest (suc f) copied prev q h) e ∙ r.outcome;
        grows = omega (arith, used, r.grows);
        item = ap (λ (k : Node A). k.item) at_prev;
        rest = (
          h.used,
          ap (λ (k : Node A). k.next) at_prev,
          omega arith,
          omega (arith, used, r.grows),
          r.item ∙ round_new copied prev t h lt ∙ ap copied item,
          Holds-lower r.heap.nodes h'.used h.used r.heap.used _ (map copied xs)
              (omega (arith, used)) r.rest,
        );
        same = λ n small other.
            r.same n (omega (arith, used)) (λ at. omega arith)
            ∙ round_old copied prev t h lt n small other;
      }

  copy_chain-Holds :
      (f : ℕ) (copied : A → A) (trace : Option ℕ) (xs : List A) (h : Heap A)
      → length xs ≤ f + 1
      → Holds h.nodes 0 h.used trace xs
      → (p : Option ℕ) × (g : Heap A) × (copy_chain f copied trace h ≡ some (p, g))
        × Holds g.nodes h.used g.used p (map copied xs)
        × ((n : ℕ) → n < h.used → g.nodes n ≡ h.nodes n)
  copy_chain-Holds f copied trace [] h enough e = (
    none,
    h,
    ap (λ q. copy_chain f copied q h) e ∙ unfold copy_chain in refl,
    refl,
    λ n small. refl,
  )
  copy_chain-Holds f copied trace (x ∷ xs) h enough (t, e, from, below, item, rest) =
      let h' = new_node (copied (h.nodes t).item) h in
      let old : (n : ℕ) → n < h.used → h'.nodes n ≡ h.nodes n =
        λ n small. unfold new_node in ground arith in
      let next : (h'.nodes t).next ≡ (h.nodes t).next = ap (λ (k : Node A). k.next) (old t below) in
      let r =
        copy_rest-Copies f copied h.used h.used (h'.nodes t).next xs h' (omega arith) (omega arith)
          (unfold new_node in omega arith)
          (Holds-same h.nodes h'.nodes 0 h.used (h'.nodes t).next xs old
            (subst (λ q. Holds h.nodes 0 h.used q xs) (sym next) rest)) in
      let used : h'.used ≡ h.used + 1 = unfold new_node in refl in
      (
        some h.used,
        r.heap,
        ap (λ q. copy_chain f copied q h) e
            ∙ unfold copy_chain in ap (λ o. o >>= λ g. some (some h.used, g)) r.outcome,
        (
          h.used,
          refl,
          omega arith,
          omega (arith, used, r.grows),
          r.item ∙ unfold new_node in ground (arith, item),
          Holds-lower r.heap.nodes h'.used h.used r.heap.used _ (map copied xs)
              (omega (arith, used)) r.rest,
        ),
        λ n small. r.same n (omega (arith, used)) (λ at. omega arith) ∙ old n small,
      )

map_same : (gs : List GroupItem) → map (λ g. g) gs ≡ gs
map_same [] = refl
map_same (g ∷ gs) = ap (λ xs. g ∷ xs) (map_same gs)

-- copy_group_stack on a linked list gives the first node of a list that holds the same items in
-- nodes that were not in use before, and the nodes of the old list hold what they held, with the
-- length of the list, less one, as the fuel.
pub copy_group_stack-Holds :
    (f : ℕ) (top : Option ℕ) (gs : List GroupItem) (h : Heap GroupItem)
    → length gs ≤ f + 1
    → Holds h.nodes 0 h.used top gs
    → (p : Option ℕ) × (g : Heap GroupItem) × (copy_group_stack f top h ≡ some (p, g))
      × Holds g.nodes h.used g.used p gs
      × Holds g.nodes 0 h.used top gs
unfolding copy_group_stack
copy_group_stack-Holds f top gs h enough held =
    let (p, g, outcome, copy, same) = copy_chain-Holds f (λ i. i) top gs h enough held in
    (
      p,
      g,
      outcome,
      subst (Holds g.nodes h.used g.used p) (map_same gs) copy,
      Holds-same h.nodes g.nodes 0 h.used top gs same held,
    )

copy_items-map :
    (now : ℕ) (xs : List ItemStack)
    → map (λ i. record { indent = i.indent; item_indent = i.item_indent; in_item = now }) xs
      ≡ copy_items now xs
unfolding copy_items
copy_items-map now [] = refl
copy_items-map now (x ∷ xs) = ap (λ ys. record x { in_item = now } ∷ ys) (copy_items-map now xs)

-- The nodes that copy_item_stack makes hold the list that copy_items gives.
pub copy_item_nodes-Holds :
    (f now : ℕ) (top : Option ℕ) (xs : List ItemStack) (h : Heap ItemStack)
    → length xs ≤ f + 1
    → Holds h.nodes 0 h.used top xs
    → (p : Option ℕ) × (g : Heap ItemStack) × (copy_item_nodes f now top h ≡ some (p, g))
      × Holds g.nodes h.used g.used p (copy_items now xs)
      × Holds g.nodes 0 h.used top xs
unfolding copy_item_nodes
copy_item_nodes-Holds f now top xs h enough held =
    let (p, g, outcome, copy, same) = copy_chain-Holds f _ top xs h enough held in
    (
      p,
      g,
      outcome,
      subst (Holds g.nodes h.used g.used p) (copy_items-map now xs) copy,
      Holds-same h.nodes g.nodes 0 h.used top xs same held,
    )
