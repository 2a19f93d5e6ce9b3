-- ===== src/Queue/Uniq.antt =====
-- `queue_enqueue_uniq_nb` of ds_queue2.c, which skips a pointer that already waits in the queue.
use dungeon.Base.{
  ℕ, zero, suc, ◌+◌, ◌-◌, ◌^◌, ◌≤◌, ◌<◌, ◌≡◌, refl, sym, ap, ◌∙◌, inl, inr, some, none, List, ◌∷◌,
  ◌++◌, ltb, Bool-cases, if◌then◌else◌, arith, has, pos, minus_one, ok, fault,
}
use dungeon.Queue.{
  Queue, cond_dq, reply, next, put, found, absent, out_of_bounds, scan, scan_all,
  queue_enqueue_uniq_nb,
}
use Prim.Native.Nat.add
use dungeon.Queue.Window.{window, contents, IsValid, next-wrap}

-- The part of the ring from the read index to the end of the array.
abbrev pub tail : Queue → List ℕ
tail q = window q.max q.bucket q.rindex (q.max - q.rindex)

module _ (max : ℕ) (small : max < 2 ^ 31) (b : ℕ → ℕ) where
  -- Inside the array the next index is one more.
  window-next : (i n : ℕ) → i + suc n ≤ max → window max b (next i max) n ≡ window max b (i + 1) n
  unfolding window
  window-next i zero h = refl
  window-next i (suc n) h =
      ap (λ j. window max b j (suc n)) (next-wrap i max (omega arith) small ∙ ground arith)

  window-split :
      (i n m : ℕ)
      → i + suc n ≡ max
      → window max b i (suc (n + m)) ≡ window max b i (suc n) ++ window max b 0 m
  unfolding window next
  window-split i zero m h = rw add.zero (ap (λ j. b i ∷ window max b j m) (ground arith))
  window-split i (suc n) m h =
      ap (λ ys. b i ∷ ys)
        (ap (window max b (next i max)) {y = suc (n + m)} (omega arith)
          ∙ ap (λ j. window max b j (suc (n + m)))
              (next-wrap i max (omega arith) small ∙ ground arith)
          ∙ window-split (i + 1) n m (omega arith)
          ∙ ap (λ ys. ys ++ window max b 0 m) (sym (window-next i (suc n) (omega arith))))

module _ (q : Queue) (small : q.max < 2 ^ 31) (x : ℕ) where
  scan-has :
      (i n : ℕ)
      → i + n ≤ q.max
      → scan q x i n ≡ (if has x (window q.max q.bucket i n) then found else absent)
  unfolding scan window
  scan-has i zero h = refl
  scan-has i (suc n) h =
      ground (arith, scan-has (i + 1) n, ap (has x) (window-next q.max small q.bucket i n h))

  -- A loop that runs one index past the end finds the pointer, or reads out of bounds.
  scan-beyond :
      (i n : ℕ)
      → i + n ≡ q.max
      → scan q x i (suc n) ≡ (if has x (window q.max q.bucket i n) then found else out_of_bounds)
  unfolding scan window
  scan-beyond i zero h = ground arith
  scan-beyond i (suc n) h = ground (
    arith,
    scan-beyond (i + 1) n,
    ap (has x) (window-next q.max small q.bucket i n (omega arith)),
  )

module _ {q : Queue} (valid : IsValid q) where
  contents-wrapped : q.windex < q.rindex → contents q ≡ tail q ++ window q.max q.bucket 0 q.windex
  contents-wrapped h =
      let filled : q.nr ≡ suc (q.max - q.rindex - 1 + q.windex) =
        ground (arith, valid.placed, valid.filled) in
      let rest : q.max - q.rindex ≡ suc (q.max - q.rindex - 1) = omega (arith, valid.inside) in
      ap (window q.max q.bucket q.rindex) filled
      ∙ window-split q.max valid.small q.bucket q.rindex (q.max - q.rindex - 1) q.windex
          (omega (arith, valid.inside))
      ∙ ap (λ n. window q.max q.bucket q.rindex n ++ window q.max q.bucket 0 q.windex) (sym rest)

  -- On a valid queue whose read index is not above its write index `queue_enqueue_uniq_nb`
  -- answers 0 and signals a consumer, and adds the pointer only if it does not wait already; a
  -- full queue answers -1 and is unchanged.
  pub queue_enqueue_uniq_nb-straight :
      (x : ℕ)
      → q.rindex ≤ q.windex
      → queue_enqueue_uniq_nb q x ≡ (
          if ltb q.nr q.max
          then ok (reply (pos 0) (if has x (contents q) then q else put q x) (some cond_dq))
          else ok (reply minus_one q none))
  unfolding queue_enqueue_uniq_nb scan_all
  queue_enqueue_uniq_nb-straight x h = elim (Bool-cases (ltb q.nr q.max)) [
    | inl room ↦
        let gap : q.windex - q.rindex ≡ q.nr = ground (arith, valid.placed, valid.inside) in
        let fits : q.rindex + q.nr ≤ q.max = ground (arith, valid.placed, valid.inside) in
        ground (arith, ap (scan q x q.rindex) gap, scan-has q valid.small x q.rindex q.nr fits)
    | inr full ↦ ground arith
  ]

  -- A valid queue whose write index is below its read index holds the tail of the array and then its
  -- first cells, and the scan of `queue_enqueue_uniq_nb` runs past the array, a fault, unless the queue
  -- is full (then it answers -1) or the pointer waits in that tail (then it answers 0).
  pub queue_enqueue_uniq_nb-wrapped :
      (x : ℕ)
      → q.windex < q.rindex
      → (contents q ≡ tail q ++ window q.max q.bucket 0 q.windex)
        × (queue_enqueue_uniq_nb q x ≡ (
            if ltb q.nr q.max
            then (if has x (tail q) then ok (reply (pos 0) q (some cond_dq)) else fault)
            else ok (reply minus_one q none)))
  unfolding queue_enqueue_uniq_nb scan_all
  queue_enqueue_uniq_nb-wrapped x h =
      let rounds : q.max + 1 - q.rindex ≡ suc (q.max - q.rindex) = omega (arith, valid.inside) in
      (
        contents-wrapped h,
        ground (
          arith,
          ap (scan q x q.rindex) rounds,
          scan-beyond q valid.small x q.rindex (q.max - q.rindex) (omega (arith, valid.inside)),
        ),
      )
