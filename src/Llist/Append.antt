-- ===== src/Llist/Append.antt =====
-- `llist_append` and `llist_append_nb`: a node goes to the end of the ring.
use dungeon.Base.{
  ℕ, ◌+◌, ◌<◌, ◌≡◌, refl, sym, ap, ◌∙◌, ◌≢◌, true, false, Option, none, some, List, [], ◌∷◌, ◌++◌,
  has, length-append, ltb, if◌then◌else◌, arith, pos, negsuc, minus_one, ok, ◌>>=◌, ◌≤◌,
}
use dungeon.Llist.{
  Llist, null, update, set_next, set_prev, llist_new_node, llist_append_unlocked, llist_append_nb,
  llist_append, reply,
}
use dungeon.Llist.Ring.{
  Linked, IsRing, values, last, last-has, Linked-prev, Linked-set_next, Linked-set_prev,
  Linked-snoc, Linked-retarget, not-has_of_dead, live_of_has, AllLive-update, AllLive-snoc,
  Distinct-snoc, values-update, values-append,
}

-- The list after the node `n`, which held nothing, was added behind the node `t`.
appended : Llist → ℕ → ℕ → ℕ → Llist
appended s t n x = record s {
  nr_nodes = s.nr_nodes + 1;
  next = update (update (update s.next n null) n s.dumb) t n;
  prev = update (update (update s.prev n null) n t) s.dumb n;
  ptr = update (update s.ptr n null) n x;
  live = update s.live n true;
}

module _ {s : Llist} {xs : List ℕ} (ring : IsRing s 0 xs) (n x : ℕ)
    (unused : s.live n ≡ false) where
  abbrev t : ℕ
  t = last s.dumb xs

  out : has n (s.dumb ∷ xs) ≡ false
  out = not-has_of_dead s.live n (s.dumb ∷ xs) unused ring.nodes

  append-appended :
      s.nr_nodes < s.volume → llist_append_unlocked (some n) x s ≡ ok (pos 0, appended s t n x)
  unfolding llist_append_unlocked llist_new_node set_next set_prev appended
  append-appended room = ground (
    arith,
    out,
    Linked-prev s.next s.prev s.dumb s.dumb xs ring.linked,
    live_of_has s.live t (s.dumb ∷ xs) ring.nodes (last-has s.dumb xs),
    ring.nodes,
  )

  t-ne : t ≢ n
  t-ne e = ground (arith, out, last-has s.dumb xs)

  dumb-ne : n ≢ s.dumb
  dumb-ne e = ground (arith, out)

  -- The ring with all writes made but for the last one, which closes it again.
  reaching : Linked (appended s t n x).next (appended s t n x).prev s.dumb xs n
  unfolding appended
  reaching =
      let d = s.dumb in
      let free : has n xs ≡ false = ground (arith, out) in
      let nx₁ = update s.next n null in
      let nx₂ = update nx₁ n d in
      let pv₁ = update s.prev n null in
      let pv₂ = update pv₁ n t in
      let l₁ = Linked-set_next s.next s.prev d d xs n null out ring.linked in
      let l₂ = Linked-set_next nx₁ s.prev d d xs n d out l₁ in
      let l₃ = Linked-set_prev nx₂ s.prev d d xs n null free dumb-ne l₂ in
      let l₄ = Linked-set_prev nx₂ pv₁ d d xs n t free dumb-ne l₃ in
      let l₅ = Linked-retarget nx₂ pv₂ d d xs n ring.distinct (ground arith) l₄ in
      Linked-set_prev (update nx₂ t n) pv₂ n d xs d n ring.distinct.0 (λ e. dumb-ne (sym e)) l₅

  appended-IsRing : IsRing (appended s t n x) 0 (xs ++ n ∷ [])
  unfolding appended
  appended-IsRing = record {
    linked = Linked-snoc _ _ s.dumb xs n s.dumb reaching (ground (arith, t-ne)) (ground arith);
    distinct = Distinct-snoc (s.dumb ∷ xs) n ring.distinct out;
    nodes =
        AllLive-snoc _ (s.dumb ∷ xs) n (AllLive-update s.live n true (s.dumb ∷ xs) out ring.nodes)
          (ground arith);
    counted = omega (arith, ring.counted, length-append xs (n ∷ []));
  }

  appended-values : values (appended s t n x).ptr (xs ++ n ∷ []) ≡ values s.ptr xs ++ x ∷ []
  unfolding appended
  appended-values =
      let free : has n xs ≡ false = ground (arith, out) in
      values-append _ xs (n ∷ [])
      ∙ ap (λ ys. ys ++ (appended s t n x).ptr n ∷ [])
          (values-update _ n x xs free ∙ values-update s.ptr n null xs free)
      ∙ ap (λ v. values s.ptr xs ++ v ∷ []) (ground arith)

full_lem :
    (s : Llist) (n x : ℕ)
    → s.volume ≤ s.nr_nodes
    → llist_append_nb false (some n) x s ≡ reply false (minus_one, s)
unfolding llist_append_nb llist_append_unlocked
full_lem s n x full = ground arith

exhausted : (s : Llist) (x : ℕ) → llist_append_nb false none x s ≡ reply false (minus_one, s)
unfolding llist_append_nb llist_append_unlocked
exhausted s x = ground arith

-- `llist_append_nb` on a sound list of nodes `xs`, with `n` not in use: with memory and room, it
-- answers 0, puts one new node with the datum behind the others and keeps the list sound and its
-- volume; without either it answers -1 and changes nothing; if the lock is held it answers -2 and
-- changes nothing.
pub append_nb-IsRing :
    {s : Llist} {xs : List ℕ} (n x : ℕ)
    → IsRing s 0 xs
    → s.live n ≡ false
    → (s.nr_nodes < s.volume
        → (t : Llist) × (llist_append_nb false (some n) x s ≡ reply false (pos 0, t))
          × IsRing t 0 (xs ++ n ∷ [])
          × (values t.ptr (xs ++ n ∷ []) ≡ values s.ptr xs ++ x ∷ [])
          × (t.volume ≡ s.volume))
      × (s.volume ≤ s.nr_nodes → llist_append_nb false (some n) x s ≡ reply false (minus_one, s))
      × (llist_append_nb false none x s ≡ reply false (minus_one, s))
      × (llist_append_nb true (some n) x s ≡ reply false (negsuc 1, s))
unfolding llist_append_nb appended
append_nb-IsRing {s} {xs} n x ring unused = (
  λ room. (
    appended s (last s.dumb xs) n x,
    rw (append-appended ring n x unused room),
    appended-IsRing ring n x unused,
    appended-values ring n x unused,
    refl,
  ),
  λ full. full_lem s n x full,
  exhausted s x,
  refl,
)

-- `llist_append` waits exactly while the list is full; else it does what `llist_append_nb` does,
-- and signals the condition variable.
pub append-waits :
    (fresh : Option ℕ) (x : ℕ) (s : Llist)
    → llist_append fresh x s ≡ (
        if ltb s.nr_nodes s.volume
        then some (llist_append_nb false fresh x s >>= λ r. ok (record r { signal = true }))
        else none)
unfolding llist_append llist_append_nb
append-waits fresh x s = ground arith
