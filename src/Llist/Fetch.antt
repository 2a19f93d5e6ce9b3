-- ===== src/Llist/Fetch.antt =====
-- `llist_fetch_head`, `llist_get_head`, `llist_get_head_node` and `llist_delete`: nodes leave from
-- the front of the ring.
use dungeon.Base.{
  ℕ, ◌-◌, ◌≡◌, refl, ◌≢◌, true, false, Option, none, some, List, [], ◌∷◌, has, arith, ℤ, pos,
  negsuc, minus_one, Run, ok,
}
use dungeon.Llist.{
  Llist, null, update, set_next, set_prev, free, unlink, Fetched, llist_fetch_head_unlocked,
  llist_fetch_head_nb, llist_get_head_node_unlocked, llist_get_head_unlocked, llist_get_head_nb,
  llist_get_head_node_nb,
}
use dungeon.Llist.Ring.{
  Linked, Distinct, AllLive, IsRing, values, Linked-set_next, Linked-set_prev, AllLive-update,
}

-- The first node, or what stands behind the last.
abbrev pub first : ℕ → List ℕ → ℕ
first b [] = b
first b (x ∷ xs) = x

pub Linked-next :
    (next prev : ℕ → ℕ) (b a : ℕ) (xs : List ℕ) → Linked next prev a xs b → next a ≡ first b xs
Linked-next next prev b a [] l = l.0
Linked-next next prev b a (x ∷ xs) l = l.0

-- What `unlink` leaves: the node `z` is free, and the nodes behind it are the list.
unfoldable pub unlinked : Llist → ℕ → ℕ → Llist
unlinked s z c = record s {
  nr_nodes = s.nr_nodes - 1;
  next = update (update s.next s.dumb c) z null;
  prev = update (update s.prev c s.dumb) z null;
  live = update s.live z false;
}

-- The part of a ring from the node `z` on.
pub record IsTail (s : Llist) (z : ℕ) (zs : List ℕ) : Type 0 where
  pub linked : Linked s.next s.prev z zs s.dumb
  pub distinct : Distinct (s.dumb ∷ z ∷ zs)
  pub nodes : AllLive s.live (s.dumb ∷ z ∷ zs)

module _ {s : Llist} {z : ℕ} {zs : List ℕ} (tail : IsTail s z zs) where
  pub unlink-unlinked : unlink z s ≡ ok (s.ptr z, unlinked s z (first s.dumb zs))
  unfolding unlink set_next set_prev free unlinked
  unlink-unlinked =
      let c = Linked-next s.next s.prev s.dumb z zs tail.linked in
      ground (arith, c, first-live zs tail.nodes, tail.nodes, tail.distinct)
    where
      first-live :
          (xs : List ℕ) → AllLive s.live (s.dumb ∷ z ∷ xs) → s.live (first s.dumb xs) ≡ true
      first-live [] all = all.0
      first-live (x ∷ xs) all = all.1.1.0

unlinked-Linked :
    (s : Llist) (z : ℕ) (zs : List ℕ)
    → IsTail s z zs
    → let t = unlinked s z (first s.dumb zs) in Linked t.next t.prev s.dumb zs s.dumb
unfolding unlinked
unlinked-Linked s z [] tail = ground (arith, tail.distinct)
unlinked-Linked s z (w ∷ ws) tail =
    let d = s.dumb in
    let l = tail.linked.2 in
    let a : has d (w ∷ ws) ≡ false = ground (arith, tail.distinct) in
    let b : has z (w ∷ ws) ≡ false = tail.distinct.1.0 in
    let z-ne : z ≢ d = λ e. ground (arith, tail.distinct) in
    let w-ne : w ≢ d = λ e. ground (arith, a) in
    let nx₁ = update s.next d w in
    let nx₂ = update nx₁ z null in
    let l₁ = Linked-set_next s.next s.prev d w ws d w a l in
    let l₂ = Linked-set_next nx₁ s.prev d w ws z null b l₁ in
    let l₃ = Linked-set_prev nx₂ s.prev d w ws w d tail.distinct.1.1.0 w-ne l₂ in
    (
      ground (arith, tail.distinct),
      ground arith,
      Linked-set_prev nx₂ (update s.prev w d) d w ws z null (ground (arith, b)) z-ne l₃,
    )

-- The nodes behind the one that was taken out are all that the list links afterwards.
pub unlinked-rest :
    (s : Llist) (z : ℕ) (zs : List ℕ)
    → IsTail s z zs
    → let t = unlinked s z (first s.dumb zs) in
      Linked t.next t.prev s.dumb zs s.dumb
      × Distinct (s.dumb ∷ zs)
      × AllLive t.live (s.dumb ∷ zs)
      × (t.live z ≡ false)
unfolding unlinked
unlinked-rest s z zs tail =
    let b : has z (s.dumb ∷ zs) ≡ false = ground (arith, tail.distinct) in
    (
      unlinked-Linked s z zs tail,
      (ground (arith, tail.distinct), tail.distinct.1.1),
      AllLive-update s.live z false (s.dumb ∷ zs) b (tail.nodes.0, tail.nodes.1.1),
      ground arith,
    )

-- What a list of nodes answers to a fetch of the head: -1 and no change if there is none, else the
-- first node's data; that node alone is freed, and the others are the list with their data as it
-- was.
abbrev pub Fetches : Llist → ℕ → List ℕ → Run Fetched → Type 0
Fetches s extra [] r = r ≡ ok (minus_one, none, s)
Fetches s extra (x ∷ xs) r =
    (t : Llist) × (r ≡ ok (pos 0, some (s.ptr x), t))
    × IsRing t extra xs
    × ((p : ℕ) → t.live p ≡ update s.live x false p)
    × (values t.ptr xs ≡ values s.ptr xs)
    × (t.volume ≡ s.volume)

head-IsTail : {s : Llist} {extra x : ℕ} {xs : List ℕ} → IsRing s extra (x ∷ xs) → IsTail s x xs
head-IsTail ring = record { linked = ring.linked.2; distinct = ring.distinct; nodes = ring.nodes }

pub fetch_head-Fetches :
    {s : Llist} {extra : ℕ} (xs : List ℕ)
    → IsRing s extra xs
    → Fetches s extra xs (llist_fetch_head_unlocked s)
unfolding llist_fetch_head_unlocked unlinked
fetch_head-Fetches {s} {extra} [] ring = ground (arith, ring.counted)
fetch_head-Fetches {s} (x ∷ xs) ring =
    let tail = head-IsTail ring in
    let r = unlinked-rest s x xs tail in
    (
      unlinked s x (first s.dumb xs),
      ground (arith, ring.counted, ring.linked.0, ring.distinct, unlink-unlinked tail),
      record { linked = r.0; distinct = r.1; nodes = r.2; counted = omega (arith, ring.counted) },
      λ p. refl,
      refl,
      refl,
    )

-- `llist_fetch_head_nb` on a ring of nodes: it answers -1 and changes nothing if there is none;
-- else it answers 0 and the datum of the first node, frees that node alone, and leaves a ring of
-- the others with their data; if the lock is held it answers -2 and changes nothing.
pub fetch_head_nb-Fetches :
    {s : Llist} {extra : ℕ} (xs : List ℕ)
    → IsRing s extra xs
    → Fetches s extra xs (llist_fetch_head_nb false s)
      × (llist_fetch_head_nb true s ≡ ok (negsuc 1, none, s))
unfolding llist_fetch_head_nb
fetch_head_nb-Fetches xs ring = (fetch_head-Fetches xs ring, refl)

-- The answer of a look at the first of some data.
abbrev pub peek : List ℕ → ℤ × Option ℕ
peek [] = (minus_one, none)
peek (v ∷ vs) = (pos 0, some v)

-- `llist_get_head_nb` answers the data, and `llist_get_head_node_nb` the address, of the first node,
-- and -1 if there is none.
pub get_head_nb-peek :
    {s : Llist} {extra : ℕ} (xs : List ℕ)
    → IsRing s extra xs
    → (llist_get_head_nb false s ≡ ok (peek (values s.ptr xs)))
      × (llist_get_head_node_nb false s ≡ peek xs)
unfolding llist_get_head_nb llist_get_head_unlocked llist_get_head_node_nb
    llist_get_head_node_unlocked
get_head_nb-peek [] ring = ground (arith, ring.counted, ring.linked)
get_head_nb-peek (x ∷ xs) ring =
    ground (arith, ring.counted, ring.linked.0, ring.distinct, ring.nodes)
