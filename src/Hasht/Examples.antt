-- ===== src/Hasht/Examples.antt =====
-- Runs of the hash table of ds_hasht.c on a table of one bucket.
use dungeon.Base.{
  ℕ, ◌==◌, false, ◌+◌, ◌<◌, ◌≡◌, refl, true, false, none, some, List, [], ◌∷◌, length, arith, ℤ,
  pos, ◌⊎◌,
}
use dungeon.Hasht.{
  Key, Bucket, Hasht, null, enomem, enoent, blank, index_of, bucket_get_free_pos, hash_of, matches,
  hasht_new, hasht_find_node, hasht_find_item, hasht_fetch_item, hasht_delete_item,
  hasht_modify_item, hasht_add_item,
}
use dungeon.Hasht.Count.{IsCounted}
use dungeon.Hasht.Add.{hasht_add_item-IsCounted, hasht_add_item_locks}
use dungeon.Hasht.Remove.{hasht_delete_item-IsCounted, hasht_fetch_item-null, hasht_find_item-first}

-- Each address holds its own last byte.
abbrev memory : ℕ → ℕ
memory p = p

abbrev hashing : List ℕ → ℕ
hashing xs = length xs

abbrev one_byte : Key
one_byte = record { offset = 0; len = 1 }

-- The item at 100, with room for none but it.
abbrev full_bucket : Bucket
full_bucket = record {
  node = record blank { key = one_byte; value = 100 } ∷ [];
  nr_nodes = 1;
  locked = none;
}

abbrev table : Hasht
table = record {
  volume = 8;
  nr_nodes = 1;
  bucket = λ i. full_bucket;
  nr_buckets = 1;
  lookup_count = 0;
  hit_count = 0;
}

table-IsCounted : IsCounted table
table-IsCounted = record { bucket = λ i. refl; table = refl; some_bucket = omega arith }

new_small : hasht_new true true 0 ≡ none
unfolding hasht_new
new_small = refl

modify_hit :
    (t : Hasht) × (hasht_modify_item memory hashing 7 table one_byte 100
      ≡ some (pos 0, some 100, t))
unfolding hasht_modify_item hasht_find_node hash_of matches
modify_hit = (_, refl)

hasht_add_item-IsCounted_example :
    (r : ℤ × Hasht) × (hasht_add_item memory hashing 7 true table one_byte 200 ≡ some r)
    × IsCounted r.1
    × (((r.0 ≡ pos 0) × (r.1.nr_nodes ≡ 2) × (1 < 8)) ⊎ ((r.0 ≡ enomem) × (r.1.nr_nodes ≡ 1)))
hasht_add_item-IsCounted_example =
    hasht_add_item-IsCounted memory hashing table-IsCounted one_byte 200 true 7 refl refl

hasht_add_item_locks_example :
    (u : Hasht) × (hasht_add_item memory hashing 7 false table one_byte 200 ≡ some (enomem, u))
    × ((other : ℕ) (k : Key) (d : ℕ)
        → (7 == other) ≡ false
        → hash_of memory hashing table k d ≡ hash_of memory hashing table one_byte 200
        → (hasht_find_item memory hashing other u k d ≡ none)
          × (hasht_fetch_item memory hashing other u k d ≡ none)
          × (hasht_delete_item memory hashing other u k d ≡ none)
          × (hasht_modify_item memory hashing other u k d ≡ none))
    × ((k : Key) (d : ℕ)
        → hash_of memory hashing table k d ≡ hash_of memory hashing table one_byte 200
        → (r : ℕ × Hasht) × (hasht_find_item memory hashing 7 u k d ≡ some r)
          × ((r.1.bucket (hash_of memory hashing table one_byte 200)).locked ≡ none))
unfolding bucket_get_free_pos
hasht_add_item_locks_example =
    hasht_add_item_locks memory hashing table-IsCounted one_byte 200 false 7 refl (omega arith) refl

hasht_delete_item-IsCounted_example :
    (r : ℤ × Hasht) × (hasht_delete_item memory hashing 7 table one_byte 100 ≡ some r)
    × IsCounted r.1
    × (((r.0 ≡ pos 0)
          × (r.1.nr_nodes + 1 ≡ 1)
          × ((i : ℕ) × (index_of (matches memory hashing one_byte 100) full_bucket.node ≡ some i)))
        ⊎ ((r.0 ≡ enoent)
            × (r.1.nr_nodes ≡ 1)
            × (index_of (matches memory hashing one_byte 100) full_bucket.node ≡ none)))
hasht_delete_item-IsCounted_example =
    hasht_delete_item-IsCounted memory hashing table-IsCounted one_byte 100 7 refl

hasht_fetch_item-null_example :
    (ret : ℤ) × (u : Hasht) × (hasht_fetch_item memory hashing 7 table one_byte 100
      ≡ some (null, u))
    × (hasht_delete_item memory hashing 7 table one_byte 100 ≡ some (ret, u))
hasht_fetch_item-null_example =
    hasht_fetch_item-null memory hashing table-IsCounted one_byte 100 7 refl

hasht_find_item-first_example :
    (u : Hasht) × (hasht_find_item memory hashing 7 table one_byte 100 ≡ some (100, u))
    × IsCounted u
    × (u.nr_nodes ≡ 1)
unfolding matches
hasht_find_item-first_example =
    hasht_find_item-first memory hashing table-IsCounted one_byte 100 7 refl
