-- ===== src/Hasht/Remove.antt =====
-- Finding an item, and taking it out of the table.
use dungeon.Base.{
  ℕ, zero, suc, ◌+◌, ◌-◌, ◌<◌, ◌≡◌, refl, sym, ◌∙◌, Bool, true, false, none, some, Option-cases,
  List, [], ◌∷◌, ◌==◌, if◌then◌else◌, ℤ, pos, Bool-cases, inl, inr, ◌⊎◌, arith,
}
use dungeon.Hasht.{
  Key, Node, Bucket, Hasht, null, waits, unlock, enoent, index_of, set_at, value_at, set_bucket,
  hash_of, matches, hasht_find_node, drop_node, hasht_find_item, hasht_fetch_item,
  hasht_delete_item,
}
use dungeon.Hasht.Count.{
  total-le, IsCounted, set-IsCounted, used_same, used_drop, index_head, index_tail,
}
use dungeon.Hasht.Add.{hash_of-lt}

-- The item of the first node at which a test holds, or NULL.
abbrev pub first : (Node → Bool) → List Node → ℕ
first test [] = null
first test (x ∷ xs) = if test x then x.value else first test xs

value_at-first :
    (test : Node → Bool) (g : Node → Node) (i : ℕ) (xs : List Node)
    → ((n : Node) → (g n).value ≡ n.value)
    → index_of test xs ≡ some i
    → value_at i (set_at i g xs) ≡ first test xs
value_at-first test g i [] same e = absurd (ground arith)
value_at-first test g zero (x ∷ xs) same e = ground (arith, index_head test x xs e, same x)
value_at-first test g (suc i) (x ∷ xs) same e =
    let rest = value_at-first test g i xs same (index_tail test x xs i e) in
    elim (Bool-cases (test x)) [
      | inl here ↦ absurd (ground arith)
      | inr other ↦ ground (arith, rest, other)
    ]

first-none : (test : Node → Bool) (xs : List Node) → index_of test xs ≡ none → first test xs ≡ null
first-none test [] e = refl
first-none test (x ∷ xs) e = elim (Option-cases (index_of test xs)) [
  | inl nowhere ↦ ground (arith, first-none test xs nowhere)
  | inr (i, there) ↦ absurd (ground arith)
]

value_at_emptied :
    (i : ℕ) (xs : List Node)
    → value_at i (set_at i (λ (n : Node). record n { value = null }) xs) ≡ null
value_at_emptied i [] = refl
value_at_emptied zero (x ∷ xs) = refl
value_at_emptied (suc i) (x ∷ xs) = value_at_emptied i xs

module _ (mem : ℕ → ℕ) (hash_func : List ℕ → ℕ) where
  matches-full :
      (key : Key) (data' : ℕ) (n : Node)
      → matches mem hash_func key data' n ≡ true
      → (n.value == null) ≡ false
  unfolding matches
  matches-full key data' n e = ground arith

  module _ {t : Hasht} (counted : IsCounted t) (key : Key) (data' self : ℕ)
      (unlocked : waits self (t.bucket (hash_of mem hash_func t key data')) ≡ false) where
    abbrev hash : ℕ
    hash = hash_of mem hash_func t key data'

    abbrev old : Bucket
    old = t.bucket hash

    abbrev looked : Node → Node
    looked n = record n { lookup_count = n.lookup_count + 1 }

    -- The table behind a search that found the index `i`.
    hit : ℕ → Hasht
    hit i =
        set_bucket hash (record old { node = set_at i looked old.node })
          (record t { lookup_count = t.lookup_count + 1; hit_count = t.hit_count + 1 })

    here_self : (hash == hash) ≡ true
    here_self = ground arith

    hit-IsCounted : (i : ℕ) → IsCounted (hit i)
    unfolding hit
    hit-IsCounted i =
        let c =
          set-IsCounted t hash t.nr_nodes (record old { node = set_at i looked old.node }) counted
            (hash_of-lt mem hash_func key data' counted)
            (counted.bucket hash ∙ sym (used_same looked i old.node (λ n. refl))) refl in
        record { bucket = c.bucket; table = c.table; some_bucket = c.some_bucket }

    -- The table behind a search that found nothing.
    missed : Hasht
    missed = set_bucket hash (unlock old) (record t { lookup_count = t.lookup_count + 1 })

    missed-IsCounted : IsCounted missed
    unfolding missed
    missed-IsCounted =
        let c =
          set-IsCounted t hash t.nr_nodes (unlock old) counted
            (hash_of-lt mem hash_func key data' counted) (counted.bucket hash) refl in
        record { bucket = c.bucket; table = c.table; some_bucket = c.some_bucket }

    -- The table behind a search that found the index `i` and released the lock.
    released : ℕ → Hasht
    unfolding hit
    released i = set_bucket hash (unlock ((hit i).bucket hash)) (hit i)

    released-IsCounted : (i : ℕ) → IsCounted (released i)
    unfolding released hit
    released-IsCounted i =
        set-IsCounted (hit i) hash (hit i).nr_nodes (unlock ((hit i).bucket hash)) (hit-IsCounted i)
          (hash_of-lt mem hash_func key data' counted) ((hit-IsCounted i).bucket hash) refl

    gone-IsCounted :
        (i : ℕ)
        → index_of (matches mem hash_func key data') old.node ≡ some i
        → IsCounted (drop_node mem hash_func (hit i) hash i)
          × ((drop_node mem hash_func (hit i) hash i).nr_nodes + 1 ≡ t.nr_nodes)
    unfolding hit
    gone-IsCounted i there =
        let b : Bucket = (hit i).bucket hash in
        let at : b ≡ record old { node = set_at i looked old.node } = ground arith in
        let inside = hash_of-lt mem hash_func key data' counted in
        let dropped =
          used_drop (matches mem hash_func key data') (λ (n : Node). record n { value = null })
            looked i old.node (matches-full key data') (λ n. refl) there in
        let some_there : 0 < t.nr_nodes = omega (
          arith,
          dropped,
          counted.bucket hash,
          counted.table,
          total-le t.bucket hash t.nr_buckets inside,
        ) in
        let here : 0 < old.nr_nodes = omega (arith, dropped, counted.bucket hash) in
        (
          set-IsCounted (hit i) hash (t.nr_nodes - 1) _ (hit-IsCounted i) inside
              (rw at (omega (arith, dropped, counted.bucket hash)))
              (rw at (omega (arith, here, some_there))),
          omega (arith, some_there),
        )

    -- With its counts right and a bucket whose lock no other thread holds, `hasht_delete_item` returns
    -- and leaves the counts right: if a node of the bucket matches the key it answers 0, and one item
    -- less is counted; else it answers ENOENT, and as many are counted as before.
    pub hasht_delete_item-IsCounted :
        (r : ℤ × Hasht) × (hasht_delete_item mem hash_func self t key data' ≡ some r)
        × IsCounted r.1
        × (((r.0 ≡ pos 0)
              × (r.1.nr_nodes + 1 ≡ t.nr_nodes)
              × ((i : ℕ) × (index_of (matches mem hash_func key data') old.node ≡ some i)))
            ⊎ ((r.0 ≡ enoent)
                × (r.1.nr_nodes ≡ t.nr_nodes)
                × (index_of (matches mem hash_func key data') old.node ≡ none)))
    unfolding hasht_delete_item hasht_find_node hit missed
    hasht_delete_item-IsCounted =
        elim (Option-cases (index_of (matches mem hash_func key data') old.node)) [
          | inl nowhere ↦ (
            (enoent, missed),
            ground (arith, unlocked, nowhere),
            missed-IsCounted,
            inr (refl, refl, nowhere),
          )
          | inr (i, there) ↦
              let (left, fewer) = gone-IsCounted i there in
              (
                (pos 0, drop_node mem hash_func (hit i) hash i),
                ground (arith, unlocked, there),
                left,
                inl (refl, fewer, (i, there)),
              )
        ]

    -- With the counts right and a bucket whose lock no other thread holds, `hasht_fetch_item` answers
    -- NULL, and leaves the table that `hasht_delete_item` leaves: it answers NULL also where it takes
    -- an item out.
    pub hasht_fetch_item-null :
        (ret : ℤ) × (u : Hasht) × (hasht_fetch_item mem hash_func self t key data' ≡ some (null, u))
        × (hasht_delete_item mem hash_func self t key data' ≡ some (ret, u))
    unfolding hasht_fetch_item hasht_delete_item hasht_find_node hit missed
    hasht_fetch_item-null =
        elim (Option-cases (index_of (matches mem hash_func key data') old.node)) [
          | inl nowhere ↦
              (enoent, missed, ground (arith, unlocked, nowhere), ground (arith, unlocked, nowhere))
          | inr (i, there) ↦
              let u = drop_node mem hash_func (hit i) hash i in
              let empty : value_at i (u.bucket hash).node ≡ null =
                rw here_self (value_at_emptied i (set_at i looked old.node)) in
              (pos 0, u, ground (arith, unlocked, there, empty), ground (arith, unlocked, there))
        ]

    -- With the counts right and a bucket whose lock no other thread holds, `hasht_find_item` answers
    -- the item of the first node of the bucket that matches the key, NULL if there is none, and leaves
    -- the counts right and the number of items as it was.
    pub hasht_find_item-first :
        (u : Hasht) × (hasht_find_item mem hash_func self t key data'
          ≡ some (first (matches mem hash_func key data') old.node, u))
        × IsCounted u
        × (u.nr_nodes ≡ t.nr_nodes)
    unfolding hasht_find_item hasht_find_node hit released missed
    hasht_find_item-first =
        elim (Option-cases (index_of (matches mem hash_func key data') old.node)) [
          | inl nowhere ↦ (
            missed,
            ground (
              arith,
              unlocked,
              nowhere,
              first-none (matches mem hash_func key data') old.node nowhere,
            ),
            missed-IsCounted,
            refl,
          )
          | inr (i, there) ↦
              let value =
                value_at-first (matches mem hash_func key data') looked i old.node (λ n. refl)
                  there in
              (
                released i,
                ground (arith, unlocked, there, value, here_self),
                released-IsCounted i,
                refl,
              )
        ]
