-- ===== src/Hasht/Add.antt =====
-- `hasht_add_item`.
use dungeon.Base.{
  ℕ, ◌+◌, ◌<◌, ◌≡◌, refl, ap, Bool, false, none, some, Option-cases, List, leb, ◌==◌, ℤ, pos,
  Bool-cases, inl, inr, ◌⊎◌, arith,
}
use dungeon.Hasht.{
  Key, Bucket, Hasht, null, waits, unlock, value_at, hasht_find_node, enomem, set_at, set_bucket,
  bucket_get_free_pos, hash_of, hasht_add_item, filled, hasht_find_item, hasht_fetch_item,
  hasht_delete_item, hasht_modify_item,
}
use dungeon.Hasht.Count.{IsCounted, set-IsCounted, free_pos-used, no_pos-same}

module _ (mem : ℕ → ℕ) (hash_func : List ℕ → ℕ) where
  pub hash_of-lt :
      {t : Hasht} (key : Key) (data' : ℕ)
      → IsCounted t
      → hash_of mem hash_func t key data' < t.nr_buckets
  unfolding hash_of
  hash_of-lt key data' counted = omega (arith, counted.some_bucket)

  -- A search that does not wait releases the lock, whoever took it.
  find_item_releases :
      (self : ℕ) (u : Hasht) (k : Key) (d : ℕ)
      → waits self (u.bucket (hash_of mem hash_func u k d)) ≡ false
      → (r : ℕ × Hasht) × (hasht_find_item mem hash_func self u k d ≡ some r)
        × ((r.1.bucket (hash_of mem hash_func u k d)).locked ≡ none)
  unfolding hasht_find_item
  find_item_releases self u k d goes =
      let h = hash_of mem hash_func u k d in
      let found = hasht_find_node mem hash_func u k d in
      let left = set_bucket h (unlock (found.1.bucket h)) found.1 in
      elim (Option-cases found.0) [
        | inl nowhere ↦ ((null, left), ground (arith, goes, nowhere), ground arith)
        | inr (i, there) ↦
            ((value_at i (left.bucket h).node, left), ground (arith, goes, there), ground arith)
      ]

  module _ {t : Hasht} (counted : IsCounted t) (key : Key) (data' : ℕ) (memory : Bool) (self : ℕ)
      (unlocked : waits self (t.bucket (hash_of mem hash_func t key data')) ≡ false) where
    abbrev hash : ℕ
    hash = hash_of mem hash_func t key data'

    abbrev old : Bucket
    old = t.bucket hash

    -- The table behind an addition at the free position `i` of the bucket `b'`.
    added : ℕ → Bucket → Hasht
    added i b' =
        record (set_bucket hash
          (record b' {
            node = set_at i (filled mem hash_func hash key data') b'.node;
            nr_nodes = b'.nr_nodes + 1;
            locked = none;
          })
          t) { nr_nodes = t.nr_nodes + 1 }

    -- With its counts right, an item that is not NULL and a bucket whose lock no other thread holds, a
    -- call of `hasht_add_item` returns and leaves the counts right: either it answers 0, below the
    -- volume, and one item more is counted; or it answers ENOMEM and as many are counted as before.
    pub hasht_add_item-IsCounted :
        (data' == null) ≡ false
        → (r : ℤ × Hasht) × (hasht_add_item mem hash_func self memory t key data' ≡ some r)
          × IsCounted r.1
          × (((r.0 ≡ pos 0) × (r.1.nr_nodes ≡ t.nr_nodes + 1) × (t.nr_nodes < t.volume))
              ⊎ ((r.0 ≡ enomem) × (r.1.nr_nodes ≡ t.nr_nodes)))
    unfolding hasht_add_item added
    hasht_add_item-IsCounted live = elim (Bool-cases (leb t.volume t.nr_nodes)) [
      | inl full ↦ ((enomem, t), ground (arith, full), counted, inr (refl, refl))
      | inr room ↦
          let b' = (bucket_get_free_pos memory old).1 in
          elim (Option-cases (bucket_get_free_pos memory old).0) [
            | inl nowhere ↦
                let same : b' ≡ old =
                  no_pos-same memory old old.node b' refl (ap (λ o. (o, b')) nowhere) in
                (
                  (enomem, set_bucket hash (record b' { locked = some self }) t),
                  ground (arith, room, unlocked, nowhere),
                  set-IsCounted t hash t.nr_nodes (record b' { locked = some self }) counted
                      (hash_of-lt key data' counted) (rw same (counted.bucket hash)) (rw same refl),
                  inr (refl, refl),
                )
            | inr (i, free) ↦
                let (grown, kept) =
                  free_pos-used memory old old.node i b' (filled mem hash_func hash key data') refl
                    (λ n. live) (ap (λ o. (o, b')) free) in
                (
                  (pos 0, added i b'),
                  ground (arith, room, unlocked, free),
                  set-IsCounted t hash (t.nr_nodes + 1) _ counted (hash_of-lt key data' counted)
                      (omega (arith, grown, kept, counted.bucket hash)) (omega (arith, kept)),
                  inl (refl, refl, ground (arith, room)),
                )
          ]
    ]

    -- Below the volume, if no other thread holds the lock of the bucket and there is no free position
    -- nor memory for one, `hasht_add_item` answers ENOMEM with that lock held by the calling thread. In
    -- the table that it leaves, each call of another thread that finds, fetches, deletes or modifies by a
    -- key of that bucket waits. A call of the thread itself that finds by such a key does not wait, since
    -- its lock fails with EDEADLK, and it is what releases the lock.
    pub hasht_add_item_locks :
        t.nr_nodes < t.volume
        → (bucket_get_free_pos memory old).0 ≡ none
        → (u : Hasht) × (hasht_add_item mem hash_func self memory t key data' ≡ some (enomem, u))
          × ((other : ℕ) (k : Key) (d : ℕ)
              → (self == other) ≡ false
              → hash_of mem hash_func t k d ≡ hash
              → (hasht_find_item mem hash_func other u k d ≡ none)
                × (hasht_fetch_item mem hash_func other u k d ≡ none)
                × (hasht_delete_item mem hash_func other u k d ≡ none)
                × (hasht_modify_item mem hash_func other u k d ≡ none))
          × ((k : Key) (d : ℕ)
              → hash_of mem hash_func t k d ≡ hash
              → (r : ℕ × Hasht) × (hasht_find_item mem hash_func self u k d ≡ some r)
                × ((r.1.bucket hash).locked ≡ none))
    unfolding hasht_add_item hasht_find_item hasht_fetch_item hasht_delete_item hasht_modify_item
        hash_of
    hasht_add_item_locks room nowhere =
        let u =
          set_bucket hash (record ((bucket_get_free_pos memory old).1) { locked = some self }) t in
        (
          u,
          ground (arith, unlocked, nowhere),
          λ other k d differs same. (
            ground (arith, same, differs),
            ground (arith, same, differs),
            ground (arith, same, differs),
            ground (arith, same, differs),
          ),
          λ k d same.
              let (r, run, free) = find_item_releases self u k d (ground (arith, same)) in
              (r, run, ground (arith, same, free)),
        )
