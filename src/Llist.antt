-- ===== src/Llist.antt =====
-- src/ds_llist.c, the doubly linked lists with a head node, on explicit memory.
-- A list and the nodes it was given make one state: the fields of all nodes, and which addresses
-- hold a node. The head node `dumb` is part of the `llist_t`. A read or write of a node through an
-- address that holds none is a fault. `busy` says that another thread holds the lock.
pub mod Ring
pub mod Append
pub mod Fetch
pub mod Delete
pub mod Match
pub mod View
mod Examples
use dungeon.Base.{
  ℕ, zero, suc, ◌+◌, ◌-◌, Bool, true, false, Option, none, some, List, [], ◌∷◌, ltb, leb, ◌==◌,
  if◌then◌else◌, ℤ, pos, negsuc, minus_one, Run, ok, fault, ◌>>=◌,
}

abbrev pub null : ℕ
null = 0

-- `nr_nodes` and `volume` are `int`: the count is never negative, and a negative volume acts as 0.
pub record Llist : Type 0 where
  pub nr_nodes : ℕ
  pub volume : ℕ
  pub dumb : ℕ
  pub next : ℕ → ℕ
  pub prev : ℕ → ℕ
  pub ptr : ℕ → ℕ
  pub live : ℕ → Bool

abbrev pub update {ℓ} : {A : Type ℓ} → (ℕ → A) → ℕ → A → ℕ → A
update f p v a = if a == p then v else f a

unfoldable pub set_next : ℕ → ℕ → Llist → Run Llist
set_next p q s = if s.live p then ok (record s { next = update s.next p q }) else fault

unfoldable pub set_prev : ℕ → ℕ → Llist → Run Llist
set_prev p q s = if s.live p then ok (record s { prev = update s.prev p q }) else fault

unfoldable pub free : ℕ → Llist → Run Llist
free p s = if s.live p then ok (record s { live = update s.live p false }) else fault

-- What `p` points at is read: a fault if that is no node.
abbrev pub check : ℕ → Llist → Run Llist
check p s = if s.live p then ok s else fault

-- `memory` is what the other addresses hold; `ll` is NULL, or the address that `malloc` gave, of
-- which the head node is taken; the mutex or the condition variable may fail to initialise.
unfoldable pub llist_new :
    Option ℕ → (mutex_ok cond_ok : Bool) → (ℕ → ℕ) → (ℕ → Bool) → ℕ → Option Llist
llist_new none mutex_ok cond_ok memory live max = none
llist_new (some ll) false cond_ok memory live max = none
llist_new (some ll) true false memory live max = none
llist_new (some ll) true true memory live max = some (record {
  nr_nodes = 0;
  volume = max;
  dumb = ll;
  next = update memory ll ll;
  prev = update memory ll ll;
  ptr = update memory ll null;
  live = update live ll true;
})

-- `llist_new_node` with the address that `malloc` gave
unfoldable pub llist_new_node : ℕ → Llist → Llist
llist_new_node n s = record s {
  next = update s.next n null;
  prev = update s.prev n null;
  ptr = update s.ptr n null;
  live = update s.live n true;
}

-- `fresh` is what `malloc` gives, `none` for NULL.
unfoldable pub llist_append_unlocked : Option ℕ → ℕ → Llist → Run (ℤ × Llist)
llist_append_unlocked fresh x s =
    if ltb s.nr_nodes s.volume
    then elim fresh [
      | none ↦ ok (minus_one, s)
      | some n ↦ do
        let s₁ = llist_new_node n s
        let s₂ : Llist = record s₁ { ptr = update s₁.ptr n x }
        s₃ ← set_prev n (s₂.prev s₂.dumb) s₂
        s₄ ← set_next n s₃.dumb s₃
        s₅ ← set_next (s₄.prev s₄.dumb) n s₄
        s₆ ← set_prev s₅.dumb n s₅
        ok (pos 0, record s₆ { nr_nodes = s₆.nr_nodes + 1 })
    ]
    else ok (minus_one, s)

-- What a locked call answers, the list it leaves, and whether it signals `cond`.
pub record Reply : Type 0 where
  pub ret : ℤ
  pub list : Llist
  pub signal : Bool

abbrev pub reply : Bool → ℤ × Llist → Run Reply
reply signal (n, s) = ok (record { ret = n; list = s; signal = signal })

-- `none` is a call that has to wait for room, with the lock given back.
unfoldable pub llist_append : Option ℕ → ℕ → Llist → Option (Run Reply)
llist_append fresh x s =
    if leb s.volume s.nr_nodes then none else some (llist_append_unlocked fresh x s >>= reply true)

unfoldable pub llist_append_nb : Bool → Option ℕ → ℕ → Llist → Run Reply
llist_append_nb busy fresh x s =
    if busy then reply false (negsuc 1, s) else (llist_append_unlocked fresh x s >>= reply false)

unfoldable pub llist_get_next_unlocked : ℕ → Llist → Run (Option ℕ)
llist_get_next_unlocked ln s = do
  s ← check ln s
  ok (if s.next ln == s.dumb then none else some (s.next ln))

unfoldable pub llist_get_next_nb : Bool → ℕ → Llist → Run (Option ℕ)
llist_get_next_nb busy ln s = if busy then ok none else llist_get_next_unlocked ln s

-- The first node, if the tests let it through: `none` is the answer -1.
unfoldable pub llist_get_head_node_unlocked : Llist → Option ℕ
llist_get_head_node_unlocked s =
    if leb s.nr_nodes 0
    then none
    else if s.next s.dumb == s.dumb
    then none
    else some (s.next s.dumb)

unfoldable pub llist_get_head_unlocked : Llist → Run (Option ℕ)
llist_get_head_unlocked s = elim (llist_get_head_node_unlocked s) [
  | none ↦ ok none
  | some ln ↦ check ln s >>= λ t. ok (some (t.ptr ln))
]

-- `none` is a call that has to wait for a node; a call that returns signals `cond`.
unfoldable pub llist_get_head : Llist → Option (Run (Option ℕ × Bool))
llist_get_head s =
    if leb s.nr_nodes 0 then none else some (llist_get_head_unlocked s >>= λ x. ok (x, true))

unfoldable pub llist_get_head_nb : Bool → Llist → Run (ℤ × Option ℕ)
llist_get_head_nb busy s = if busy then ok (negsuc 1, none) else do
  head ← llist_get_head_unlocked s
  ok (elim head [ none ↦ (minus_one, none) | some x ↦ (pos 0, some x) ])

unfoldable pub llist_get_head_node_nb : Bool → Llist → ℤ × Option ℕ
llist_get_head_node_nb busy s =
    if busy then (negsuc 1, none) else elim (llist_get_head_node_unlocked s) [
      | none ↦ (minus_one, none)
      | some ln ↦ (pos 0, some ln)
    ]

-- Takes the node `ln` out as the code does, whose next node becomes the first: `*data` and the list.
unfoldable pub unlink : ℕ → Llist → Run (ℕ × Llist)
unlink ln s = do
  s₁ ← check ln s
  s₂ ← set_next s₁.dumb (s₁.next ln) s₁
  s₃ ← set_prev (s₂.next ln) s₂.dumb s₂
  s₄ ← set_next ln null s₃
  s₅ ← set_prev ln null s₄
  s₆ ← free ln s₅
  ok (s.ptr ln, record s₆ { nr_nodes = s₆.nr_nodes - 1 })

-- The answer, `*data` if it was written, and the list.
abbrev pub Fetched : Type 0
Fetched = ℤ × Option ℕ × Llist

unfoldable pub llist_fetch_head_unlocked : Llist → Run Fetched
llist_fetch_head_unlocked s =
    if leb s.nr_nodes 0
    then ok (minus_one, none, s)
    else if s.next s.dumb == s.dumb
    then ok (minus_one, none, s)
    else do (x, t) ← unlink (s.next s.dumb) s; ok (pos 0, some x, t)

-- `none` is a call that has to wait for a node.
unfoldable pub llist_fetch_head : Llist → Option (Run (Fetched × Bool))
llist_fetch_head s =
    if leb s.nr_nodes 0 then none else some (llist_fetch_head_unlocked s >>= λ r. ok (r, true))

unfoldable pub llist_fetch_head_nb : Bool → Llist → Run Fetched
llist_fetch_head_nb busy s = if busy then ok (negsuc 1, none, s) else llist_fetch_head_unlocked s

-- A loop that may not end: `none` if the fuel ran out.
-- The scan of `llist_fetch_match_unlocked` from the node `ln`; `match` is `match_func(needle, …)==0`.
unfoldable pub match_loop : ℕ → (ℕ → Bool) → ℕ → Llist → Option (Run Fetched)
match_loop zero match ln s = none
match_loop (suc fuel) match ln s =
    let rest = match_loop fuel match (s.next ln) s in
    if ln == s.dumb then some (ok (minus_one, none, s)) else elim (check ln s) [
      | fault ↦ some fault
      | ok t ↦
          if match (t.ptr ln) then some (unlink ln t >>= λ r. ok (pos 0, some r.0, r.1)) else rest
    ]

unfoldable pub llist_fetch_match : ℕ → (ℕ → Bool) → Llist → Option (Run Fetched)
llist_fetch_match fuel match s = match_loop fuel match (s.next s.dumb) s

-- The loop of `llist_delete`, which then frees the list itself.
unfoldable pub delete_loop : ℕ → Llist → Option (Run Llist)
delete_loop zero s = none
delete_loop (suc fuel) s =
    if leb s.nr_nodes 0
    then some (ok s)
    else elim (llist_fetch_head_nb false s) [ fault ↦ some fault | ok r ↦ delete_loop fuel r.2 ]

-- `llist_travel`: the data that the call-back is given, in order.
unfoldable pub travel_loop : ℕ → ℕ → Llist → Option (Run (List ℕ))
travel_loop zero ln s = none
travel_loop (suc fuel) ln s =
    let rest = travel_loop fuel (s.next ln) s in
    if ln == s.dumb then some (ok []) else elim (check ln s) [
      | fault ↦ some fault
      | ok t ↦ elim rest [
        | none ↦ none
        | some r ↦ some (r >>= λ xs. ok (if t.ptr ln == null then xs else t.ptr ln ∷ xs))
      ]
    ]

unfoldable pub llist_travel : ℕ → Llist → Option (Run (List ℕ))
llist_travel fuel s = travel_loop fuel (s.next s.dumb) s
