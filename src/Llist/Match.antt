-- ===== src/Llist/Match.antt =====
-- `llist_fetch_match` and `llist_travel`, which walk along the ring.
use dungeon.Base.{
  ℕ, zero, suc, ◌+◌, ◌<◌, ◌≡◌, Bool, false, Option, none, some, List, [], ◌∷◌, has, length, ◌==◌,
  Bool-cases, Option-cases, inl, inr, if◌then◌else◌, arith, pos, minus_one, Run, ok, ◌>>=◌,
}
use dungeon.Llist.{
  Llist, null, unlink, Fetched, match_loop, llist_fetch_match, delete_loop, travel_loop,
  llist_travel,
}
use dungeon.Llist.Ring.{Linked, Distinct, AllLive, IsRing, values}
use dungeon.Llist.Fetch.{first, Linked-next, unlinked, IsTail, unlink-unlinked, unlinked-rest}
use dungeon.Llist.Delete.{delete_forever}

-- The first node whose data matches: how many stand before it, the node, and those behind it.
unfoldable pub find_match : (ℕ → Bool) → (ℕ → ℕ) → List ℕ → Option (ℕ × ℕ × List ℕ)
find_match match ptr [] = none
find_match match ptr (x ∷ xs) =
    if match (ptr x)
    then some (0, x, xs)
    else elim (find_match match ptr xs) [ none ↦ none | some f ↦ some (f.0 + 1, f.1, f.2) ]

-- What the call makes of the search: -1, or the node taken out as `unlink` does.
take_out : Llist → Option (ℕ × ℕ × List ℕ) → Run Fetched
take_out s none = ok (minus_one, none, s)
take_out s (some (k, z, zs)) = unlink z s >>= λ r. ok (pos 0, some r.0, r.1)

module _ (s : Llist) (match : ℕ → Bool) where
  match_loop-find :
      (fuel a : ℕ) (xs : List ℕ)
      → Linked s.next s.prev a xs s.dumb
      → has s.dumb xs ≡ false
      → AllLive s.live xs
      → length xs < fuel
      → match_loop fuel match (first s.dumb xs) s ≡ some (take_out s (find_match match s.ptr xs))
  unfolding match_loop find_match take_out
  match_loop-find zero a xs l out all h = absurd (omega arith)
  match_loop-find (suc fuel) a [] l out all h = ground arith
  match_loop-find (suc fuel) a (x ∷ xs) l out all h =
      let step = Linked-next s.next s.prev s.dumb x xs l.2 in
      let rest = match_loop-find fuel x xs l.2 (ground arith) all.1 (omega arith) in
      ground (arith, step, rest, all.0, out)

  -- What the search finds is a tail of the ring, with the nodes before it counted.
  find_match-IsTail :
      (a : ℕ) (xs : List ℕ) (k z : ℕ) (zs : List ℕ)
      → Linked s.next s.prev a xs s.dumb
      → Distinct (s.dumb ∷ xs)
      → AllLive s.live (s.dumb ∷ xs)
      → find_match match s.ptr xs ≡ some (k, z, zs)
      → IsTail s z zs × (length xs ≡ k + suc (length zs))
  unfolding find_match
  find_match-IsTail a [] k z zs l d all e = absurd (ground arith)
  find_match-IsTail a (x ∷ xs) k z zs l d all e = elim (Bool-cases (match (s.ptr x))) [
    | inl hit ↦
        let (ek, ez, es) : (k ≡ 0) × (z ≡ x) × (zs ≡ xs) =
          (ground arith, ground arith, ground arith) in
        (
          rw (ez, es) (record { linked = l.2; distinct = d; nodes = all }),
          rw (ek, es) (omega arith),
        )
    | inr miss ↦ elim (Option-cases (find_match match s.ptr xs)) [
      | inl e' ↦ absurd (ground arith)
      | inr ((j, y, ys), e') ↦
          let (ek, ez, es) : (k ≡ j + 1) × (z ≡ y) × (zs ≡ ys) =
            (ground arith, ground arith, ground arith) in
          let r =
            find_match-IsTail x xs j y ys l.2 (ground (arith, d), d.1.1) (all.0, all.1.1) e' in
          (rw (ez, es) r.0, rw (ek, es) (omega (arith, r.1)))
    ]
  ]

-- What `llist_fetch_match` answers on the outcome of the search: -1 and no change; or the data of
-- the node, with only the nodes behind it left in the list, which counts those before it still.
abbrev pub Finds : Llist → ℕ → Option (ℕ × ℕ × List ℕ) → Option (Run Fetched) → Type 0
Finds s extra none r = r ≡ some (ok (minus_one, none, s))
Finds s extra (some (k, z, zs)) r =
    (t : Llist) × (r ≡ some (ok (pos 0, some (s.ptr z), t))) × IsRing t (extra + k) zs

-- With fuel for more rounds than there are nodes, `llist_fetch_match` on a ring of nodes ends:
-- without a match it answers -1 and changes nothing; else it answers 0 and the datum of the first
-- node that matches, and leaves only the nodes behind that one, while those before it are still
-- counted.
pub fetch_match-Finds :
    {s : Llist} {extra : ℕ} (fuel : ℕ) (match : ℕ → Bool) (xs : List ℕ)
    → IsRing s extra xs
    → length xs < fuel
    → Finds s extra (find_match match s.ptr xs) (llist_fetch_match fuel match s)
unfolding llist_fetch_match take_out unlinked
fetch_match-Finds {s} {extra} fuel match xs ring h =
    let start = Linked-next s.next s.prev s.dumb s.dumb xs ring.linked in
    let run = match_loop-find s match fuel s.dumb xs ring.linked ring.distinct.0 ring.nodes.1 h in
    elim (Option-cases (find_match match s.ptr xs)) [
      | inl e ↦ rw (e, start, run, e)
      | inr ((k, z, zs), e) ↦
          let (tail, count) =
            find_match-IsTail s match s.dumb xs k z zs ring.linked ring.distinct ring.nodes e in
          let r = unlinked-rest s z zs tail in
          rw (e) (
            unlinked s z (first s.dumb zs),
            rw (start, run, e, unlink-unlinked tail),
            record {
              linked = r.0;
              distinct = r.1;
              nodes = r.2;
              counted = omega (arith, ring.counted);
            },
          )
    ]

-- On a sound list, after `llist_fetch_match` has found a match behind the first node, the loop of
-- `llist_delete` does not end in any number of rounds.
pub fetch_match-delete_forever :
    {s : Llist} (fuel : ℕ) (match : ℕ → Bool) (xs : List ℕ) (k z : ℕ) (zs : List ℕ)
    → IsRing s 0 xs
    → length xs < fuel
    → find_match match s.ptr xs ≡ some (suc k, z, zs)
    → (t : Llist) × (llist_fetch_match fuel match s ≡ some (ok (pos 0, some (s.ptr z), t)))
      × ((rounds : ℕ) → delete_loop rounds t ≡ none)
fetch_match-delete_forever fuel match xs k z zs ring h e =
    let (t, run, left) = rw e at (fetch_match-Finds fuel match xs ring h) in
    (t, run, λ rounds. delete_forever rounds zs left (omega arith))

-- The data that is not NULL.
unfoldable pub nonzero : List ℕ → List ℕ
nonzero [] = []
nonzero (v ∷ vs) = if v == null then nonzero vs else v ∷ nonzero vs

travel_loop-nonzero :
    (s : Llist) (fuel a : ℕ) (xs : List ℕ)
    → Linked s.next s.prev a xs s.dumb
    → has s.dumb xs ≡ false
    → AllLive s.live xs
    → length xs < fuel
    → travel_loop fuel (first s.dumb xs) s ≡ some (ok (nonzero (values s.ptr xs)))
unfolding travel_loop nonzero
travel_loop-nonzero s zero a xs l out all h = absurd (omega arith)
travel_loop-nonzero s (suc fuel) a [] l out all h = ground arith
travel_loop-nonzero s (suc fuel) a (x ∷ xs) l out all h =
    let step = Linked-next s.next s.prev s.dumb x xs l.2 in
    let rest = travel_loop-nonzero s fuel x xs l.2 (ground arith) all.1 (omega arith) in
    ground (arith, step, rest, all.0, out)

-- `llist_travel` hands the call-back the data of all nodes, in order, but for NULL.
pub travel-nonzero :
    {s : Llist} {extra : ℕ} (fuel : ℕ) (xs : List ℕ)
    → IsRing s extra xs
    → length xs < fuel
    → llist_travel fuel s ≡ some (ok (nonzero (values s.ptr xs)))
unfolding llist_travel
travel-nonzero {s} fuel xs ring h =
    rw (Linked-next s.next s.prev s.dumb s.dumb xs ring.linked)
      (travel_loop-nonzero s fuel s.dumb xs ring.linked ring.distinct.0 ring.nodes.1 h)
