-- ===== src/Hasht/Count.antt =====
-- The counts of items, of the table and of its buckets.
use dungeon.Base.{
  ℕ, zero, suc, ◌+◌, ◌/◌, ◌≤◌, ◌<◌, ◌≡◌, refl, ap, Bool, true, false, none, some, Option-cases,
  List, [], ◌∷◌, ◌++◌, length, ◌==◌, if◌then◌else◌, Bool-cases, inl, inr, arith,
}
use dungeon.Hasht.{
  Node, Bucket, Hasht, null, blank, blanks, index_of, set_at, set_bucket, bucket_get_free_pos,
}

-- The nodes that hold an item.
abbrev pub used : List Node → ℕ
used [] = 0
used (x ∷ xs) = (if x.value == null then 0 else 1) + used xs

-- The items that the first `n` buckets count.
abbrev pub total : (ℕ → Bucket) → ℕ → ℕ
total b zero = 0
total b (suc n) = total b n + (b n).nr_nodes

pub record IsCounted (t : Hasht) : Type 0 where
  pub bucket : (i : ℕ) → (t.bucket i).nr_nodes ≡ used (t.bucket i).node
  pub table : t.nr_nodes ≡ total t.bucket t.nr_buckets
  pub some_bucket : 0 < t.nr_buckets

pub index_head :
    (test : Node → Bool) (x : Node) (xs : List Node)
    → index_of test (x ∷ xs) ≡ some 0
    → test x ≡ true
index_head test x xs e = elim (Option-cases (index_of test xs)) [
  | inl none_there ↦ ground arith
  | inr (j, there) ↦ ground arith
]

pub index_tail :
    (test : Node → Bool) (x : Node) (xs : List Node) (i : ℕ)
    → index_of test (x ∷ xs) ≡ some (suc i)
    → index_of test xs ≡ some i
index_tail test x xs i e = elim (Option-cases (index_of test xs)) [
  | inl none_there ↦ ground arith
  | inr (j, there) ↦ ground arith
]

pub used_fill :
    (f : Node → Node) (i : ℕ) (xs : List Node)
    → ((n : Node) → ((f n).value == null) ≡ false)
    → index_of (λ n. n.value == null) xs ≡ some i
    → used (set_at i f xs) ≡ used xs + 1
used_fill f i [] h e = absurd (ground arith)
used_fill f zero (x ∷ xs) h e = ground (arith, index_head (λ n. n.value == null) x xs e, h x)
used_fill f (suc i) (x ∷ xs) h e =
    omega (arith, used_fill f i xs h (index_tail (λ n. n.value == null) x xs i e))

pub used_same :
    (g : Node → Node) (i : ℕ) (xs : List Node)
    → ((n : Node) → (g n).value ≡ n.value)
    → used (set_at i g xs) ≡ used xs
used_same g i [] h = refl
used_same g zero (x ∷ xs) h = ground (arith, h x)
used_same g (suc i) (x ∷ xs) h = ground (arith, used_same g i xs h)

pub used_drop :
    (test : Node → Bool) (f g : Node → Node) (i : ℕ) (xs : List Node)
    → ((n : Node) → test n ≡ true → (n.value == null) ≡ false)
    → ((n : Node) → (f n).value ≡ null)
    → index_of test xs ≡ some i
    → used (set_at i f (set_at i g xs)) + 1 ≡ used xs
used_drop test f g i [] full empty e = absurd (ground arith)
used_drop test f g zero (x ∷ xs) full empty e =
    ground (arith, full x (index_head test x xs e), empty (g x))
used_drop test f g (suc i) (x ∷ xs) full empty e =
    omega (arith, used_drop test f g i xs full empty (index_tail test x xs i e))

used-blanks : (k : ℕ) → used (blanks k) ≡ 0
used-blanks zero = refl
used-blanks (suc k) = omega (arith, used-blanks k)

used_grow :
    (f : Node → Node) (xs : List Node) (k : ℕ)
    → ((n : Node) → ((f n).value == null) ≡ false)
    → used (set_at (length xs) f (xs ++ blanks (suc k))) ≡ used xs + 1
used_grow f [] k h = ground (arith, h blank, used-blanks k)
used_grow f (x ∷ xs) k h = omega (arith, used_grow f xs k h)

total_past :
    (b : ℕ → Bucket) (h n : ℕ) (x : Bucket)
    → n ≤ h
    → total (λ i. if i == h then x else b i) n ≡ total b n
total_past b h zero x le = refl
total_past b h (suc n) x le = ground (arith, total_past b h n x)

total_set :
    (b : ℕ → Bucket) (h n : ℕ) (x : Bucket)
    → h < n
    → total (λ i. if i == h then x else b i) n + (b h).nr_nodes ≡ total b n + x.nr_nodes
total_set b h zero x lt = absurd (omega arith)
total_set b h (suc n) x lt = elim (Bool-cases (n == h)) [
  | inl here ↦ ground (arith, total_past b h n x)
  | inr other ↦ ground (arith, total_set b h n x)
]

ap_le : (b : ℕ → Bucket) {n h : ℕ} → n ≡ h → (k : ℕ) → (b h).nr_nodes ≤ k + (b n).nr_nodes
ap_le b same k = omega (arith, ap (λ i. (b i).nr_nodes) same)

pub total-le : (b : ℕ → Bucket) (h n : ℕ) → h < n → (b h).nr_nodes ≤ total b n
total-le b h zero lt = absurd (omega arith)
total-le b h (suc n) lt = elim (Bool-cases (n == h)) [
  | inl here ↦ let same : n ≡ h = ground (arith, here) in ap_le b same (total b n)
  | inr other ↦ let less : h < n = ground (arith, other) in omega (arith, total-le b h n less)
]

-- A write of one bucket and of the table's count that agree.
pub set-IsCounted :
    (t : Hasht) (h m : ℕ) (x : Bucket)
    → IsCounted t
    → h < t.nr_buckets
    → x.nr_nodes ≡ used x.node
    → m + (t.bucket h).nr_nodes ≡ t.nr_nodes + x.nr_nodes
    → IsCounted (record (set_bucket h x t) { nr_nodes = m })
set-IsCounted t h m x counted inside same moved = record {
  bucket = λ i. elim (Bool-cases (i == h)) [
    | inl here ↦ rw here same
    | inr other ↦ rw other (counted.bucket i)
  ];
  table = omega (arith, counted.table, total_set t.bucket h t.nr_buckets x inside);
  some_bucket = counted.some_bucket;
}

pub free_pos-used :
    (memory : Bool) (b : Bucket) (xs : List Node) (i : ℕ) (b' : Bucket) (f : Node → Node)
    → b.node ≡ xs
    → ((n : Node) → ((f n).value == null) ≡ false)
    → bucket_get_free_pos memory b ≡ (some i, b')
    → (used (set_at i f b'.node) ≡ used b.node + 1) × (b'.nr_nodes ≡ b.nr_nodes)
unfolding bucket_get_free_pos
free_pos-used memory b [] i b' f e h run =
    let grown = used_grow f [] 1023 h in
    let at : i ≡ 0 = ground arith in
    let same : b' ≡ record b { node = blanks 1024 } = ground arith in
    (rw (same, at, e) grown, ap (λ (c : Bucket). c.nr_nodes) same)
free_pos-used memory b (x ∷ xs) i b' f e h run =
    elim (Option-cases (index_of (λ n. n.value == null) (x ∷ xs))) [
      | inl full ↦
          let k = length (x ∷ xs) / 4 in
          let grown = used_grow f (x ∷ xs) k h in
          let at : i ≡ length (x ∷ xs) = ground (arith, full) in
          let same : b' ≡ record b { node = (x ∷ xs) ++ blanks (k + 1) } = ground (arith, full) in
          let more : k + 1 ≡ suc k = omega arith in
          (rw (same, at, e, more) grown, ap (λ (c : Bucket). c.nr_nodes) same)
      | inr (j, free) ↦
          let at : i ≡ j = ground (arith, free) in
          let same : b' ≡ b = ground (arith, free) in
          (rw (same, at, e) (used_fill f j (x ∷ xs) h free), ap (λ (c : Bucket). c.nr_nodes) same)
    ]

pub no_pos-same :
    (memory : Bool) (b : Bucket) (xs : List Node) (b' : Bucket)
    → b.node ≡ xs
    → bucket_get_free_pos memory b ≡ (none, b')
    → b' ≡ b
unfolding bucket_get_free_pos
no_pos-same memory b [] b' e run = ground arith
no_pos-same memory b (x ∷ xs) b' e run =
    elim (Option-cases (index_of (λ n. n.value == null) (x ∷ xs))) [
      | inl full ↦ ground arith
      | inr (j, free) ↦ ground arith
    ]
