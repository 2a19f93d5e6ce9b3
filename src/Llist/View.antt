-- ===== src/Llist/View.antt =====
-- What a client of ds_llist.c relies on: a bounded list of data, whatever its nodes are. The
-- functions of the C code refine these.
use dungeon.Base.{
  ℕ, suc, ◌≡◌, refl, ap, Bool, true, false, Option, none, some, List, [], ◌∷◌, ◌++◌, length, ltb,
  ltb→lt, ltb→le, Bool-cases, inl, inr, if◌then◌else◌, arith, ℤ, pos, negsuc, minus_one, ok,
}
use dungeon.Llist.{Llist, reply, llist_append_nb, llist_fetch_head_nb}
use dungeon.Llist.Ring.{IsRing, values}
use dungeon.Llist.Append.{append_nb-IsRing}
use dungeon.Llist.Fetch.{fetch_head_nb-Fetches}

pub record View {ℓ} (A : Type ℓ) : Type ℓ where
  pub items : List A
  pub volume : ℕ

module _ {ℓ} {A : Type ℓ} where
  -- `memory` says whether `malloc` gives a node.
  unfoldable pub append_nb : (busy memory : Bool) → A → View A → ℤ × View A
  append_nb busy memory x v =
      if busy
      then (negsuc 1, v)
      else if ltb (length v.items) v.volume
      then (if memory then (pos 0, record v { items = v.items ++ x ∷ [] }) else (minus_one, v))
      else (minus_one, v)

  abbrev pub take_head : List A → ℕ → ℤ × Option A × View A
  take_head [] n = (minus_one, none, record { items = []; volume = n })
  take_head (x ∷ xs) n = (pos 0, some x, record { items = xs; volume = n })

  unfoldable pub fetch_head_nb : Bool → View A → ℤ × Option A × View A
  fetch_head_nb busy v = if busy then (negsuc 1, none, v) else take_head v.items v.volume

  abbrev pub look : List A → ℤ × Option A
  look [] = (minus_one, none)
  look (x ∷ xs) = (pos 0, some x)

  unfoldable pub get_head_nb : Bool → View A → ℤ × Option A
  get_head_nb busy v = if busy then (negsuc 1, none) else look v.items

-- The data of a list whose nodes are `xs`.
abbrev pub view : Llist → List ℕ → View ℕ
view s xs = record { items = values s.ptr xs; volume = s.volume }

length-values : (ptr : ℕ → ℕ) (xs : List ℕ) → length (values ptr xs) ≡ length xs
length-values ptr [] = refl
length-values ptr (x ∷ xs) = ap suc (length-values ptr xs)

-- `llist_append_nb` of a sound list, with a node from `malloc`, refines the abstract append: it
-- returns, for some nodes the list behind it is sound, and its answer and data are the abstract
-- ones.
pub append_nb-view :
    {s : Llist} {xs : List ℕ} (busy : Bool) (n x : ℕ)
    → IsRing s 0 xs
    → s.live n ≡ false
    → (r : ℤ × Llist) × (ys : List ℕ) × (llist_append_nb busy (some n) x s ≡ reply false r)
      × IsRing r.1 0 ys
      × ((r.0, view r.1 ys) ≡ append_nb busy true x (view s xs))
unfolding append_nb
append_nb-view {s} {xs} true n x ring unused =
    ((negsuc 1, s), xs, (append_nb-IsRing n x ring unused).3, ring, refl)
append_nb-view {s} {xs} false n x ring unused =
    let (room, full, _, _) = append_nb-IsRing n x ring unused in
    elim (Bool-cases (ltb s.nr_nodes s.volume)) [
      | inl h ↦
          let (t, run, after, data', same) = room (ltb→lt _ _ h) in
          (
            (pos 0, t),
            xs ++ n ∷ [],
            run,
            after,
            ground (arith, length-values s.ptr xs, ring.counted, data', same),
          )
      | inr h ↦ (
        (minus_one, s),
        xs,
        full (ltb→le _ _ h),
        ring,
        ground (arith, length-values s.ptr xs, ring.counted),
      )
    ]

-- `llist_fetch_head_nb` of a sound list refines the abstract fetch: it returns, for some nodes the
-- list behind it is sound, and its answer and data are the abstract ones.
pub fetch_head_nb-view :
    {s : Llist} (xs : List ℕ) (busy : Bool)
    → IsRing s 0 xs
    → (r : ℤ × Option ℕ × Llist) × (ys : List ℕ) × (llist_fetch_head_nb busy s ≡ ok r)
      × IsRing r.2 0 ys
      × ((r.0, r.1, view r.2 ys) ≡ fetch_head_nb busy (view s xs))
unfolding fetch_head_nb
fetch_head_nb-view {s} xs true ring =
    ((negsuc 1, none, s), xs, (fetch_head_nb-Fetches xs ring).1, ring, refl)
fetch_head_nb-view {s} [] false ring =
    ((minus_one, none, s), [], (fetch_head_nb-Fetches [] ring).0, ring, refl)
fetch_head_nb-view {s} (x ∷ xs) false ring =
    let (t, run, left, dead, same, volume) = (fetch_head_nb-Fetches (x ∷ xs) ring).0 in
    ((pos 0, some (s.ptr x), t), xs, run, left, ground (arith, same, volume))
