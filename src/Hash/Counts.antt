-- ===== src/Hash/Counts.antt =====
-- About num_entries, the count of the entries of a table (src/lib/hash.c).
use open_axiom.Prelude.{
  ℕ, zero, suc, ◌+◌, ◌<◌, ◌≤◌, ◌≡◌, refl, [], ◌∷◌, ◌∙◌, sym, arith, length, length-append,
}
use open_axiom.Prelude.Memory.{Memory, store}
use open_axiom.Hash.{
  Hashing, HashTable, Chain, bucket, clear_buckets, hash_init, chain_values, bucket_values,
  hash_map, hash_insert, find_in, delete_in, hash_delete, found, replace_in, hash_replace,
}

module _ {K V : Type 0} where
  -- How many entries the buckets from `i` on hold.
  unfoldable pub total : (i rounds : ℕ) → Memory (Chain K V) → ℕ
  total i zero m = 0
  total i (suc n) m = length (m i) + total (suc i) n m

  total_outside :
      (i n : ℕ) (m : Memory (Chain K V)) (k : ℕ) (c : Chain K V)
      → k < i
      → total i n (store m k c) ≡ total i n m
  unfolding total
  total_outside i zero m k c h = refl
  total_outside i (suc n) m k c h = ground (arith, total_outside (suc i) n m k c)

  -- A store changes the total by what it changes in its bucket.
  total-store :
      (i n : ℕ) (m : Memory (Chain K V)) (k : ℕ) (c : Chain K V)
      → i ≤ k
      → k < i + n
      → total i n (store m k c) + length (m k) ≡ total i n m + length c
  unfolding total
  total-store i zero m k c low high = absurd (omega arith)
  total-store i (suc n) m k c low high =
      ground (arith, total_outside (suc i) n m k c, total-store (suc i) n m k c)

  total_cleared : (i n : ℕ) (m : Memory (Chain K V)) (k : ℕ) → k < i → clear_buckets i n m k ≡ m k
  unfolding clear_buckets
  total_cleared i zero m k h = refl
  total_cleared i (suc n) m k h = ground (arith, total_cleared (suc i) n (store m i []) k)

  total-clear_buckets : (i n : ℕ) (m : Memory (Chain K V)) → total i n (clear_buckets i n m) ≡ 0
  unfolding total clear_buckets
  total-clear_buckets i zero m = refl
  total-clear_buckets i (suc n) m = ground (
    arith,
    total_cleared (suc i) n (store m i []) i,
    total-clear_buckets (suc i) n (store m i []),
  )

  chain_values-length : (c : Chain K V) → length (chain_values c) ≡ length c
  unfolding chain_values
  chain_values-length [] = refl
  chain_values-length (e ∷ c) = omega (arith, chain_values-length c)

  bucket_values-length :
      (i n : ℕ) (m : Memory (Chain K V)) → length (bucket_values i n m) ≡ total i n m
  unfolding total bucket_values
  bucket_values-length i zero m = refl
  bucket_values-length i (suc n) m = omega (
    arith,
    length-append (chain_values (m i)) (bucket_values (suc i) n m),
    chain_values-length (m i),
    bucket_values-length (suc i) n m,
  )

  -- The count is that of the entries, and there is a bucket.
  pub record Counts (t : HashTable K V) : Type 0 where
    pub some_bucket : 0 < t.size
    pub counted : t.num_entries ≡ total 0 t.size t.table

  -- A new table of some buckets counts its entries, whatever its memory held.
  pub hash_init-Counts :
      (size : ℕ) (old : Memory (Chain K V)) → 0 < size → Counts (hash_init size old)
  unfolding hash_init
  hash_init-Counts size old h = record {
    some_bucket = h;
    counted = sym (total-clear_buckets 0 size old);
  }

  -- hash_map makes as many calls as the table counts entries, if the count is true.
  pub hash_map-Counts : (t : HashTable K V) → Counts t → length (hash_map t) ≡ t.num_entries
  unfolding hash_map
  hash_map-Counts t h = bucket_values-length 0 t.size t.table ∙ sym h.counted

module _ {K : Type 0} ⦃h : Hashing K⦄ where
  bucket_bound : (size : ℕ) (k : K) → 0 < size → bucket size k < size
  unfolding bucket
  bucket_bound size k p = omega arith

module _ {K V : Type 0} ⦃h : Hashing K⦄ where
  delete_in-length :
      (c : Chain K V) (k : K) → length (delete_in c k) + found (find_in c k) ≡ length c
  unfolding delete_in find_in
  delete_in-length [] k = refl
  delete_in-length (e ∷ c) k = ground (arith, delete_in-length c k)

  replace_in-length : (c : Chain K V) (v : V) (k : K) → length (replace_in c v k) ≡ length c
  unfolding replace_in
  replace_in-length [] v k = refl
  replace_in-length (e ∷ c) v k = ground (arith, replace_in-length c v k)

  -- hash_insert keeps the count of the entries true.
  pub hash_insert-Counts :
      (t : HashTable K V) (v : V) (k : K) → Counts t → Counts (hash_insert t v k)
  unfolding hash_insert
  hash_insert-Counts t v k w =
      let code = bucket t.size k in
      let changed =
        total-store 0 t.size t.table code (record { key = k; value = v } ∷ t.table code)
          (omega arith) (omega (arith, bucket_bound t.size k w.some_bucket)) in
      record { some_bucket = w.some_bucket; counted = omega (arith, w.counted, changed) }

  -- hash_delete keeps the count of the entries true, whether it finds one or not.
  pub hash_delete-Counts : (t : HashTable K V) (k : K) → Counts t → Counts (hash_delete t k)
  unfolding hash_delete
  hash_delete-Counts t k w =
      let code = bucket t.size k in
      let changed =
        total-store 0 t.size t.table code (delete_in (t.table code) k) (omega arith)
          (omega (arith, bucket_bound t.size k w.some_bucket)) in
      record {
        some_bucket = w.some_bucket;
        counted = omega (arith, w.counted, changed, delete_in-length (t.table code) k);
      }

  -- hash_replace keeps the count of the entries true.
  pub hash_replace-Counts :
      (t : HashTable K V) (v : V) (k : K) → Counts t → Counts (hash_replace t v k).0
  unfolding hash_replace
  hash_replace-Counts t v k w =
      let code = bucket t.size k in
      let changed =
        total-store 0 t.size t.table code (replace_in (t.table code) v k) (omega arith)
          (omega (arith, bucket_bound t.size k w.some_bucket)) in
      record {
        some_bucket = w.some_bucket;
        counted = omega (arith, w.counted, changed, replace_in-length (t.table code) v k);
      }

  -- If num_entries is the number of the entries of a table of some buckets, so it is after
  -- hash_insert, hash_delete and hash_replace, and hash_map makes as many calls.
  pub Counts-kept :
      (t : HashTable K V) (v : V) (k : K)
      → Counts t
      → Counts (hash_insert t v k)
        × Counts (hash_delete t k)
        × Counts (hash_replace t v k).0
        × (length (hash_map t) ≡ t.num_entries)
  Counts-kept t v k w = (
    hash_insert-Counts t v k w,
    hash_delete-Counts t k w,
    hash_replace-Counts t v k w,
    hash_map-Counts t w,
  )
