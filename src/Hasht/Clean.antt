-- ===== src/Hasht/Clean.antt =====
-- `hasht_clean_table`, which frees every item.
use dungeon.Base.{
  ℕ, zero, suc, ◌+◌, ◌-◌, ◌<◌, ◌≡◌, refl, sym, ◌∙◌, false, some, List, [], ◌∷◌, ◌++◌, length,
  length-append, arith,
}
use dungeon.Hasht.{
  waits, Node, Bucket, Hasht, emptied, items, clean_bucket, clean_loop, hasht_clean_table,
}
use dungeon.Hasht.Count.{used, total, total-le, IsCounted, set-IsCounted}

length-items : (xs : List Node) → length (items xs) ≡ used xs
length-items [] = refl
length-items (x ∷ xs) = ground (arith, length-items xs)

used-emptied : (xs : List Node) → used (emptied xs) ≡ 0
used-emptied [] = refl
used-emptied (x ∷ xs) = omega (arith, used-emptied xs)

total_zero : (b : ℕ → Bucket) (n : ℕ) → ((i : ℕ) → i < n → (b i).nr_nodes ≡ 0) → total b n ≡ 0
total_zero b zero h = refl
total_zero b (suc n) h =
    omega (arith, h n (omega arith), total_zero b n (λ i lt. h i (omega (arith, lt))))

clean_bucket-IsCounted :
    (i : ℕ) {t : Hasht} → IsCounted t → i < t.nr_buckets → IsCounted (clean_bucket i t)
clean_bucket-IsCounted i {t} counted inside =
    set-IsCounted t i (t.nr_nodes - length (items (t.bucket i).node)) _ counted inside
      (sym (used-emptied (t.bucket i).node))
      (omega (
        arith,
        length-items (t.bucket i).node,
        counted.bucket i,
        counted.table,
        total-le t.bucket i t.nr_buckets inside,
      ))

clean_loop-IsCounted :
    (self n i : ℕ) {t : Hasht}
    → IsCounted t
    → ((j : ℕ) → waits self (t.bucket j) ≡ false)
    → i + n ≡ t.nr_buckets
    → ((j : ℕ) → j < i → (t.bucket j).nr_nodes ≡ 0)
    → (freed : List ℕ) × (u : Hasht) × (clean_loop self i n t ≡ some (freed, u))
      × IsCounted u
      × (u.nr_nodes ≡ 0)
      × (length freed ≡ t.nr_nodes)
unfolding clean_loop
clean_loop-IsCounted self zero i {t} counted free all before =
    let none_left : total t.bucket t.nr_buckets ≡ 0 =
      total_zero t.bucket t.nr_buckets (λ j lt. before j (omega (arith, all, lt))) in
    ([], t, refl, counted, counted.table ∙ none_left, omega (arith, none_left, counted.table))
clean_loop-IsCounted self (suc n) i {t} counted free all before =
    let inside : i < t.nr_buckets = omega (arith, all) in
    let (freed, u, run, done, empty, count) =
      clean_loop-IsCounted self n (i + 1) (clean_bucket-IsCounted i counted inside)
        (λ j. ground (arith, free i, free j)) (omega (arith, all))
        (λ j lt. ground (arith, before j, lt)) in
    (
      items (t.bucket i).node ++ freed,
      u,
      ground (arith, free i, run),
      done,
      empty,
      omega (
        arith,
        length-append (items (t.bucket i).node) freed,
        count,
        length-items (t.bucket i).node,
        counted.bucket i,
        counted.table,
        total-le t.bucket i t.nr_buckets inside,
      ),
    )

-- With its counts right and no lock held by another thread, `hasht_clean_table` ends: it frees as many
-- items as were counted, and leaves a table that counts none, with its counts right.
pub hasht_clean_table-IsCounted :
    {t : Hasht} (self : ℕ)
    → IsCounted t
    → ((j : ℕ) → waits self (t.bucket j) ≡ false)
    → (freed : List ℕ) × (u : Hasht) × (hasht_clean_table self t ≡ some (freed, u))
      × IsCounted u
      × (u.nr_nodes ≡ 0)
      × (length freed ≡ t.nr_nodes)
unfolding hasht_clean_table
hasht_clean_table-IsCounted {t} self counted free =
    clean_loop-IsCounted self t.nr_buckets 0 counted free (omega arith)
      (λ j lt. absurd (omega (arith, lt)))
