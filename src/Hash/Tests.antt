-- ===== src/Hash/Tests.antt =====
-- A table of three buckets with two names.
use open_axiom.Prelude.{ℕ, ◌≡◌, List, [], ◌∷◌, arith, if◌then◌else◌, length}
use open_axiom.Prelude.Memory.{Memory}
use open_axiom.Hash.{
  HashTable, Chain, hash_init, hash_insert, hash_find, hash_replace, hash_delete, hash_map,
}
use open_axiom.Hash.Strings.{string_equal, string_hashing}
use open_axiom.Hash.View.{top, pop, set_top, view, view_laws}
use open_axiom.Hash.Counts.{Counts, Counts-kept, hash_init-Counts, hash_insert-Counts}

abbrev ab : List ℕ
ab = b'a' ∷ b'b' ∷ []

abbrev ba : List ℕ
ba = b'b' ∷ b'a' ∷ []

abbrev old : Memory (Chain (List ℕ) ℕ)
old i = []

abbrev fresh : HashTable (List ℕ) ℕ
fresh = hash_init 3 old

-- The two keys share a bucket.
abbrev names : HashTable (List ℕ) ℕ
names = hash_insert (hash_insert fresh 1 ab) 2 ba

fresh-Counts : Counts fresh
fresh-Counts = hash_init-Counts 3 old (omega arith)

names-Counts : Counts names
names-Counts =
    hash_insert-Counts (hash_insert fresh 1 ab) 2 ba (hash_insert-Counts fresh 1 ab fresh-Counts)

Counts-kept_example :
    Counts (hash_insert names 3 ab)
    × Counts (hash_delete names ab)
    × Counts (hash_replace names 3 ab).0
    × (length (hash_map names) ≡ names.num_entries)
Counts-kept_example = Counts-kept names 3 ab names-Counts

view_example :
    (hash_find names ab ≡ top (view names ab))
    × (view (hash_insert names 7 ab) ba
        ≡ (if string_equal ab ba then 7 ∷ view names ba else view names ba))
    × (view (hash_delete names ab) ba
        ≡ (if string_equal ab ba then pop (view names ba) else view names ba))
    × (view (hash_replace names 7 ab).0 ba
        ≡ (if string_equal ab ba then set_top 7 (view names ba) else view names ba))
    × ((hash_replace names 7 ab).1 ≡ top (set_top 7 (view names ab)))
view_example = view_laws names 7 ab ba
