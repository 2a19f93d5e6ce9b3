-- ===== src/Hasht.antt =====
-- src/ds_hasht.c, the hash table that saves pointers. A pointer is a number, 0 for NULL; `mem` is the
-- memory that the keys are read from, and `hash_func` the hash of the bytes of a key. `self` is the thread
-- that calls. A call that waits for a lock that another thread holds is `none`.
pub mod Add
pub mod Remove
pub mod Clean
pub mod Murmur
pub mod Count
mod Examples
use Prim.Native.Nat.{min}
use dungeon.Base.{
  ℕ, zero, suc, ◌+◌, ◌-◌, ◌/◌, ◌%◌, Bool, true, false, not, ◌&&◌, Option, none, some, List, [], ◌∷◌,
  ◌++◌, length, leb, ◌==◌, if◌then◌else◌, ℤ, pos, minus_one,
}

abbrev pub null : ℕ
null = 0

-- `hashkey_t`: where the key lies in an item; both are `int`s that the callers take from `offsetof` and
-- `sizeof`.
pub record Key : Type 0 where
  pub offset : ℕ
  pub len : ℕ

pub record Node : Type 0 where
  pub keyval : ℕ
  pub key : Key
  pub value : ℕ
  pub update_count : ℕ
  pub lookup_count : ℕ

-- The array `node` has `bucket_size` elements; NULL is the empty one. `locked` is the thread that holds the
-- lock for writing behind the call that took it, if any.
pub record Bucket : Type 0 where
  pub node : List Node
  pub nr_nodes : ℕ
  pub locked : Option ℕ

pub record Hasht : Type 0 where
  pub volume : ℕ
  pub nr_nodes : ℕ
  pub bucket : ℕ → Bucket
  pub nr_buckets : ℕ
  pub lookup_count : ℕ
  pub hit_count : ℕ

abbrev pub bucket_default_size : ℕ
bucket_default_size = 1024

-- ENOMEM and ENOENT
abbrev pub enomem : ℤ
enomem = pos 12

abbrev pub enoent : ℤ
enoent = pos 2

-- A node as the code initialises it: of the other fields none is read before it is written.
abbrev pub blank : Node
blank = record {
  keyval = 0;
  key = record { offset = 0; len = 0 };
  value = null;
  update_count = 0;
  lookup_count = 0;
}

abbrev pub blanks : ℕ → List Node
blanks zero = []
blanks (suc n) = blank ∷ blanks n

-- The first index at which a test holds.
abbrev pub index_of : (Node → Bool) → List Node → Option ℕ
index_of test [] = none
index_of test (x ∷ xs) =
    if test x then some 0 else elim (index_of test xs) [ none ↦ none | some i ↦ some (suc i) ]

abbrev pub set_at : ℕ → (Node → Node) → List Node → List Node
set_at i f [] = []
set_at zero f (x ∷ xs) = f x ∷ xs
set_at (suc i) f (x ∷ xs) = x ∷ set_at i f xs

abbrev pub value_at : ℕ → List Node → ℕ
value_at i [] = null
value_at zero (x ∷ xs) = x.value
value_at (suc i) (x ∷ xs) = value_at i xs

abbrev pub set_bucket : ℕ → Bucket → Hasht → Hasht
set_bucket h b t = record t { bucket = λ i. if i == h then b else t.bucket i }

-- `memory` says whether `malloc` or `realloc` gives a block.
unfoldable pub bucket_get_free_pos : Bool → Bucket → Option ℕ × Bucket
bucket_get_free_pos memory b = elim (b.node) [
  | [] ↦ if memory then (some 0, record b { node = blanks bucket_default_size }) else (none, b)
  | x ∷ xs ↦ elim (index_of (λ n. n.value == null) (x ∷ xs)) [
    | some i ↦ (some i, b)
    | none ↦
        let size = length (x ∷ xs) in
        if memory
        then (some size, record b { node = (x ∷ xs) ++ blanks (size / 4 + 1) })
        else (none, b)
  ]
]

-- The memory for the table and for its buckets; a volume that is not positive is 0 here.
unfoldable pub hasht_new : (table buckets : Bool) → ℕ → Option Hasht
hasht_new table buckets zero = none
hasht_new table buckets (suc n) =
    if table && buckets
    then some (record {
      volume = suc n;
      nr_nodes = 0;
      bucket = λ i. record { node = []; nr_nodes = 0; locked = none };
      nr_buckets = if suc n / 8 == 0 then 1 else suc n / 8;
      lookup_count = 0;
      hit_count = 0;
    })
    else none

-- Whether `pthread_rwlock_rdlock` or `pthread_rwlock_wrlock` waits. For the thread that holds the lock for
-- writing it fails with EDEADLK; the code does not look at that and goes on.
abbrev pub waits : (self : ℕ) → Bucket → Bool
waits self b = elim b.locked [ none ↦ false | some owner ↦ not (owner == self) ]

-- `pthread_rwlock_unlock`
abbrev pub unlock : Bucket → Bucket
unlock b = record b { locked = none }

module _ (mem : ℕ → ℕ) (hash_func : List ℕ → ℕ) where
  -- The bytes that the hash function is given.
  abbrev pub bytes_at : ℕ → ℕ → List ℕ
  bytes_at p zero = []
  bytes_at p (suc n) = mem p ∷ bytes_at (p + 1) n

  -- `memcmp(…)==0`
  abbrev pub same_bytes : ℕ → ℕ → ℕ → Bool
  same_bytes p q zero = true
  same_bytes p q (suc n) = (mem p == mem q) && same_bytes (p + 1) (q + 1) n

  unfoldable pub hash_of : Hasht → Key → ℕ → ℕ
  hash_of t key data' = hash_func (bytes_at (data' + key.offset) key.len) % t.nr_buckets

  -- The test of the loop of `hasht_find_node`: the shorter of the two lengths is compared.
  unfoldable pub matches : Key → ℕ → Node → Bool
  matches key data' n =
      not (n.value == null)
      && same_bytes (n.value + n.key.offset) (data' + key.offset) (min key.len n.key.len)

  -- The index in the bucket of the hash.
  unfoldable pub hasht_find_node : Hasht → Key → ℕ → Option ℕ × Hasht
  hasht_find_node t key data' =
      let h = hash_of t key data' in
      let b = t.bucket h in
      let t' = record t { lookup_count = t.lookup_count + 1 } in
      elim (index_of (matches key data') b.node) [
        | none ↦ (none, t')
        | some i ↦
            let counted =
              set_at i (λ (n : Node). record n { lookup_count = n.lookup_count + 1 }) b.node in
            (
              some i,
              set_bucket h (record b { node = counted })
                  (record t' { hit_count = t.hit_count + 1 }),
            )
      ]

  unfoldable pub hasht_find_item : (self : ℕ) → Hasht → Key → ℕ → Option (ℕ × Hasht)
  hasht_find_item self t key data' =
      let h = hash_of t key data' in
      if waits self (t.bucket h)
      then none
      else let (res, t') = hasht_find_node t key data' in
        let u = set_bucket h (unlock (t'.bucket h)) t' in
        elim res [ none ↦ some (null, u) | some i ↦ some (value_at i (u.bucket h).node, u) ]

  -- The node is emptied, both counts go down, and the lock is released.
  abbrev pub drop_node : Hasht → ℕ → ℕ → Hasht
  drop_node t h i =
      let b = t.bucket h in
      record (set_bucket h
        (record b {
          node = set_at i (λ (n : Node). record n { value = null }) b.node;
          nr_nodes = b.nr_nodes - 1;
          locked = none;
        })
        t) { nr_nodes = t.nr_nodes - 1 }

  -- The answer is read behind the write of NULL.
  unfoldable pub hasht_fetch_item : (self : ℕ) → Hasht → Key → ℕ → Option (ℕ × Hasht)
  hasht_fetch_item self t key data' =
      let h = hash_of t key data' in
      if waits self (t.bucket h)
      then none
      else let (res, t') = hasht_find_node t key data' in
        let u = set_bucket h (unlock (t'.bucket h)) t' in
        elim res [
          | none ↦ some (null, u)
          | some i ↦ let d = drop_node t' h i in some (value_at i (d.bucket h).node, d)
        ]

  unfoldable pub hasht_delete_item : (self : ℕ) → Hasht → Key → ℕ → Option (ℤ × Hasht)
  hasht_delete_item self t key data' =
      let h = hash_of t key data' in
      if waits self (t.bucket h)
      then none
      else let (res, t') = hasht_find_node t key data' in
        let u = set_bucket h (unlock (t'.bucket h)) t' in
        elim res [ none ↦ some (enoent, u) | some i ↦ some (pos 0, drop_node t' h i) ]

  -- The item that the call-back `modify` is given, if any.
  unfoldable pub hasht_modify_item : (self : ℕ) → Hasht → Key → ℕ → Option (ℤ × Option ℕ × Hasht)
  hasht_modify_item self t key data' =
      let h = hash_of t key data' in
      if waits self (t.bucket h)
      then none
      else let (res, t') = hasht_find_node t key data' in
        let u = set_bucket h (unlock (t'.bucket h)) t' in
        elim res [
          | none ↦ some (minus_one, none, u)
          | some i ↦ some (pos 0, some (value_at i (u.bucket h).node), u)
        ]

  abbrev pub filled : ℕ → Key → ℕ → Node → Node
  filled h key data' n = record {
    keyval = h;
    key = key;
    value = data';
    update_count = 0;
    lookup_count = 0;
  }

  -- A call that finds no free position returns with the lock of the bucket held.
  unfoldable pub hasht_add_item : (self : ℕ) → Bool → Hasht → Key → ℕ → Option (ℤ × Hasht)
  hasht_add_item self memory t key data' =
      let h = hash_of t key data' in
      let b = t.bucket h in
      if leb t.volume t.nr_nodes
      then some (enomem, t)
      else if waits self b
      then none
      else let (free, b') = bucket_get_free_pos memory b in
        elim free [
          | none ↦ some (enomem, set_bucket h (record b' { locked = some self }) t)
          | some i ↦ some (
            pos 0,
            record (set_bucket h
                (record b' {
                  node = set_at i (filled h key data') b'.node;
                  nr_nodes = b'.nr_nodes + 1;
                  locked = none;
                })
                t) { nr_nodes = t.nr_nodes + 1 },
          )
        ]

abbrev pub emptied : List Node → List Node
emptied [] = []
emptied (x ∷ xs) = record x { value = null } ∷ emptied xs

-- The items that are freed.
abbrev pub items : List Node → List ℕ
items [] = []
items (x ∷ xs) = if x.value == null then items xs else x.value ∷ items xs

-- One round of `hasht_clean_table`.
abbrev pub clean_bucket : ℕ → Hasht → Hasht
clean_bucket i t =
    let b = t.bucket i in
    record (set_bucket i (record b { node = emptied b.node; nr_nodes = 0; locked = none }) t) {
      nr_nodes = t.nr_nodes - length (items b.node);
    }

-- `n` rounds from the bucket `i` on: what was freed, and the table.
unfoldable pub clean_loop : (self : ℕ) → ℕ → ℕ → Hasht → Option (List ℕ × Hasht)
clean_loop self i zero t = some ([], t)
clean_loop self i (suc n) t =
    let rest = clean_loop self (i + 1) n (clean_bucket i t) in
    if waits self (t.bucket i)
    then none
    else elim rest [ none ↦ none | some r ↦ some (items (t.bucket i).node ++ r.0, r.1) ]

unfoldable pub hasht_clean_table : (self : ℕ) → Hasht → Option (List ℕ × Hasht)
hasht_clean_table self t = clean_loop self 0 t.nr_buckets t
