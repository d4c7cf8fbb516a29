-- ===== src/Hash.antt =====
-- src/lib/hash.c: the chained hash table of the support library, and its string keys.
pub mod Counts
pub mod Copy
pub mod View
mod Tests
pub mod Strings
use open_axiom.Prelude.{
  ℕ, zero, suc, ◌+◌, ◌-◌, ◌%◌, ◌≡◌, Bool, true, Option, none, some, List, [], ◌∷◌, ◌++◌, length,
  if◌then◌else◌,
}
use open_axiom.Prelude.Memory.{Memory, store}

-- The functions that a table is made with, and what makes them fit one another.
pub record Hashing {ℓ} (K : Type ℓ) : Type ℓ where
  pub equal : K → K → Bool
  pub hash_code : K → ℕ → ℕ
  pub equal_refl : (a : K) → equal a a ≡ true
  pub equal_left : (a b c : K) → equal a b ≡ true → equal a c ≡ equal b c
  pub equal_right : (a b c : K) → equal a b ≡ true → equal c a ≡ equal c b
  pub hash_equal : (a b : K) (n : ℕ) → equal a b ≡ true → hash_code a n ≡ hash_code b n

-- `struct HashEntry` without its link: a chain is the list of the entries.
pub record HashEntry {ℓ} (K V : Type ℓ) : Type ℓ where
  pub key : K
  pub value : V

abbrev pub Chain {ℓ} : Type ℓ → Type ℓ → Type ℓ
Chain K V = List (HashEntry K V)

-- `num_entries` is an int in the source, and would fall below 0 where here it stays at 0.
pub record HashTable {ℓ} (K V : Type ℓ) : Type ℓ where
  pub table : Memory (Chain K V)
  pub size : ℕ
  pub num_entries : ℕ

module _ {ℓ} {K V : Type ℓ} where
  -- `for (i = 0; i < size; i++) table->table[i] = NULL;` over cells that held `old`
  unfoldable pub clear_buckets : (i rounds : ℕ) → Memory (Chain K V) → Memory (Chain K V)
  clear_buckets i zero old = old
  clear_buckets i (suc n) old = clear_buckets (suc i) n (store old i [])

  -- `old` is what the fresh memory holds.
  unfoldable pub hash_init : ℕ → Memory (Chain K V) → HashTable K V
  hash_init size old = record { table = clear_buckets 0 size old; size = size; num_entries = 0 }

  -- What `func` is called with in one chain, and in the buckets from `i` on.
  unfoldable pub chain_values : Chain K V → List V
  chain_values [] = []
  chain_values (e ∷ c) = e.value ∷ chain_values c

  unfoldable pub bucket_values : (i rounds : ℕ) → Memory (Chain K V) → List V
  bucket_values i zero m = []
  bucket_values i (suc n) m = chain_values (m i) ++ bucket_values (suc i) n m

  -- The calls of `func`, and of `free_fun` in `free_hash`, in their order.
  unfoldable pub hash_map : HashTable K V → List V
  hash_map t = bucket_values 0 t.size t.table

  unfoldable pub free_hash : Option (HashTable K V) → List V
  free_hash none = []
  free_hash (some t) = bucket_values 0 t.size t.table

  unfoldable pub hash_copy_entry : Chain K V → Chain K V
  hash_copy_entry [] = []
  hash_copy_entry (e ∷ c) = record { key = e.key; value = e.value } ∷ hash_copy_entry c

  -- `for (i = 0; i < table->size; i++) nt->table[i] = hash_copy_entry(table->table[i]);`
  unfoldable pub copy_buckets :
      (i rounds : ℕ) (source target : Memory (Chain K V)) → Memory (Chain K V)
  copy_buckets i zero source target = target
  copy_buckets i (suc n) source target =
      copy_buckets (suc i) n source (store target i (hash_copy_entry (source i)))

  unfoldable pub hash_copy_table : HashTable K V → Memory (Chain K V) → HashTable K V
  hash_copy_table t old = record {
    table = copy_buckets 0 t.size t.table old;
    size = t.size;
    num_entries = t.num_entries;
  }

module _ {ℓ} {K : Type ℓ} ⦃h : Hashing K⦄ where
  -- `(*table->hash_code) (key, table->size) % table->size`
  unfoldable pub bucket : ℕ → K → ℕ
  bucket size k = h.hash_code k size % size

module _ {ℓ} {V : Type ℓ} where
  -- The data pointer that is returned once the new value is in its entry.
  abbrev pub replaced : Option V → V → Option V
  replaced none v = none
  replaced (some old) v = some v

  abbrev pub found : Option V → ℕ
  found none = 0
  found (some v) = 1

module _ {ℓ} {K V : Type ℓ} ⦃h : Hashing K⦄ where
  unfoldable pub hash_insert : HashTable K V → V → K → HashTable K V
  hash_insert t v k =
      let code = bucket t.size k in
      record t {
        table = store t.table code (record { key = k; value = v } ∷ t.table code);
        num_entries = t.num_entries + 1;
      }

  unfoldable pub find_in : Chain K V → K → Option V
  find_in [] k = none
  find_in (e ∷ c) k = if h.equal e.key k then some e.value else find_in c k

  unfoldable pub hash_find : HashTable K V → K → Option V
  hash_find t k = find_in (t.table (bucket t.size k)) k

  unfoldable pub replace_in : Chain K V → V → K → Chain K V
  replace_in [] v k = []
  replace_in (e ∷ c) v k =
      if h.equal e.key k then record e { value = v } ∷ c else e ∷ replace_in c v k

  -- The table, and the value that is returned.
  unfoldable pub hash_replace : HashTable K V → V → K → HashTable K V × Option V
  hash_replace t v k =
      let code = bucket t.size k in
      (
        record t { table = store t.table code (replace_in (t.table code) v k) },
        replaced (find_in (t.table code) k) v,
      )

  -- The chain without its first entry for the key.
  unfoldable pub delete_in : Chain K V → K → Chain K V
  delete_in [] k = []
  delete_in (e ∷ c) k = if h.equal e.key k then c else e ∷ delete_in c k

  unfoldable pub hash_delete : HashTable K V → K → HashTable K V
  hash_delete t k =
      let code = bucket t.size k in
      record t {
        table = store t.table code (delete_in (t.table code) k);
        num_entries = t.num_entries - found (find_in (t.table code) k);
      }
