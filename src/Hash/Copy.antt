-- ===== src/Hash/Copy.antt =====
-- About hash_copy_table (src/lib/hash.c).
use open_axiom.Prelude.{ℕ, zero, suc, ◌+◌, ◌%◌, ◌<◌, ◌≤◌, ◌≡◌, refl, ap, [], ◌∷◌, arith}
use open_axiom.Prelude.Memory.{Memory, store}
use open_axiom.Hash.{
  Hashing, HashTable, Chain, bucket, hash_copy_entry, copy_buckets, hash_copy_table, find_in,
  hash_find,
}

module _ {K V : Type 0} where
  hash_copy_entry_lem : (c : Chain K V) → hash_copy_entry c ≡ c
  unfolding hash_copy_entry
  hash_copy_entry_lem [] = refl
  hash_copy_entry_lem (e ∷ c) = ap (λ d. e ∷ d) (hash_copy_entry_lem c)

  copied_before :
      (i n : ℕ) (source target : Memory (Chain K V)) (k : ℕ)
      → k < i
      → copy_buckets i n source target k ≡ target k
  unfolding copy_buckets
  copied_before i zero source target k h = refl
  copied_before i (suc n) source target k h =
      ground (arith, copied_before (suc i) n source (store target i (hash_copy_entry (source i))) k)

  -- Every bucket of the range is that of the source.
  copy_buckets_lem :
      (i n : ℕ) (source target : Memory (Chain K V)) (k : ℕ)
      → i ≤ k
      → k < i + n
      → copy_buckets i n source target k ≡ source k
  unfolding copy_buckets
  copy_buckets_lem i zero source target k low high = absurd (omega arith)
  copy_buckets_lem i (suc n) source target k low high =
      let target2 = store target i (hash_copy_entry (source i)) in
      ground (
        arith,
        copied_before (suc i) n source target2 k,
        copy_buckets_lem (suc i) n source target2 k,
        hash_copy_entry_lem (source i),
      )

module _ {K V : Type 0} ⦃h : Hashing K⦄ where
  -- The copy of a table of some buckets finds what the table finds, whatever its fresh memory held.
  pub hash_find-copy :
      (t : HashTable K V) (old : Memory (Chain K V)) (k : K)
      → 0 < t.size
      → hash_find (hash_copy_table t old) k ≡ hash_find t k
  unfolding hash_find hash_copy_table bucket
  hash_find-copy t old k p =
      ap (λ c. find_in c k)
        (copy_buckets_lem 0 t.size t.table old (h.hash_code k t.size % t.size) (omega arith)
          (omega arith))
