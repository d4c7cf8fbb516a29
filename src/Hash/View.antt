-- ===== src/Hash/View.antt =====
-- What a table of src/lib/hash.c stands for: under each key a stack of values.
use open_axiom.Prelude.{ℕ, ◌≡◌, refl, true, Option, none, some, List, [], ◌∷◌, arith, if◌then◌else◌}
use open_axiom.Hash.{
  Hashing, HashTable, Chain, bucket, hash_insert, find_in, hash_find, replace_in, hash_replace,
  delete_in, hash_delete,
}

abbrev pub top {ℓ} : {V : Type ℓ} → List V → Option V
top [] = none
top (v ∷ vs) = some v

abbrev pub pop {ℓ} : {V : Type ℓ} → List V → List V
pop [] = []
pop (v ∷ vs) = vs

abbrev pub set_top {ℓ} : {V : Type ℓ} → V → List V → List V
set_top w [] = []
set_top w (v ∷ vs) = w ∷ vs

module _ {K : Type 0} ⦃h : Hashing K⦄ where
  same_bucket : (size : ℕ) (k j : K) → h.equal k j ≡ true → bucket size k ≡ bucket size j
  unfolding bucket
  same_bucket size k j e = rw (h.hash_equal k j size e) refl

module _ {K V : Type 0} ⦃h : Hashing K⦄ where
  unfoldable pub stack_in : Chain K V → K → List V
  stack_in [] k = []
  stack_in (e ∷ c) k = if h.equal e.key k then e.value ∷ stack_in c k else stack_in c k

  unfoldable pub view : HashTable K V → K → List V
  view t k = stack_in (t.table (bucket t.size k)) k

  find_in-top : (c : Chain K V) (k : K) → find_in c k ≡ top (stack_in c k)
  unfolding find_in stack_in
  find_in-top [] k = refl
  find_in-top (e ∷ c) k = ground (arith, find_in-top c k)

  replace_in-stack :
      (c : Chain K V) (v : V) (k j : K)
      → stack_in (replace_in c v k) j
        ≡ (if h.equal k j then set_top v (stack_in c j) else stack_in c j)
  unfolding replace_in stack_in
  replace_in-stack [] v k j = ground arith
  replace_in-stack (e ∷ c) v k j =
      ground (arith, replace_in-stack c v k j, h.equal_left e.key k j, h.equal_right k j e.key)

  delete_in-stack :
      (c : Chain K V) (k j : K)
      → stack_in (delete_in c k) j ≡ (if h.equal k j then pop (stack_in c j) else stack_in c j)
  unfolding delete_in stack_in
  delete_in-stack [] k j = ground arith
  delete_in-stack (e ∷ c) k j =
      ground (arith, delete_in-stack c k j, h.equal_left e.key k j, h.equal_right k j e.key)

  -- hash_find returns the top of the stack under the key, if there is one.
  pub hash_find-view : (t : HashTable K V) (k : K) → hash_find t k ≡ top (view t k)
  unfolding hash_find view
  hash_find-view t k = find_in-top (t.table (bucket t.size k)) k

  -- hash_insert pushes the value on the stacks under the equal keys, and leaves the others.
  pub view-hash_insert :
      (t : HashTable K V) (v : V) (k j : K)
      → view (hash_insert t v k) j ≡ (if h.equal k j then v ∷ view t j else view t j)
  unfolding hash_insert view stack_in
  view-hash_insert t v k j = ground (arith, same_bucket t.size k j)

  -- hash_delete pops the stacks under the equal keys, and leaves the others.
  pub view-hash_delete :
      (t : HashTable K V) (k j : K)
      → view (hash_delete t k) j ≡ (if h.equal k j then pop (view t j) else view t j)
  unfolding hash_delete view
  view-hash_delete t k j =
      ground (arith, same_bucket t.size k j, delete_in-stack (t.table (bucket t.size k)) k j)

  -- hash_replace changes the top of the stacks under the equal keys, leaves the others, and returns
  -- the new value if there was an entry.
  pub view-hash_replace :
      (t : HashTable K V) (v : V) (k j : K)
      → (view (hash_replace t v k).0 j ≡ (if h.equal k j then set_top v (view t j) else view t j))
        × ((hash_replace t v k).1 ≡ top (set_top v (view t k)))
  unfolding hash_replace view
  view-hash_replace t v k j = (
    ground (arith, same_bucket t.size k j, replace_in-stack (t.table (bucket t.size k)) v k j),
    ground (arith, find_in-top (t.table (bucket t.size k)) k),
  )

  -- A table is a stack of values under each key: hash_find gives the top, hash_insert pushes,
  -- hash_delete pops and hash_replace changes the top of the stacks under the equal keys, and they
  -- leave the other stacks; hash_replace returns the new value if there was an entry.
  pub view_laws :
      (t : HashTable K V) (v : V) (k j : K)
      → (hash_find t k ≡ top (view t k))
        × (view (hash_insert t v k) j ≡ (if h.equal k j then v ∷ view t j else view t j))
        × (view (hash_delete t k) j ≡ (if h.equal k j then pop (view t j) else view t j))
        × (view (hash_replace t v k).0 j ≡ (if h.equal k j then set_top v (view t j) else view t j))
        × ((hash_replace t v k).1 ≡ top (set_top v (view t k)))
  view_laws t v k j =
      let (changed, result) = view-hash_replace t v k j in
      (hash_find-view t k, view-hash_insert t v k j, view-hash_delete t k j, changed, result)
