-- ===== src/Queue/Fifo.antt =====
-- The queue of ds_queue2.c against a bounded FIFO: a list with the oldest pointer first.
use dungeon.Base.{
  ℕ, suc, ◌+◌, ◌-◌, ◌^◌, ◌<◌, ◌≡◌, refl, ap, ◌∙◌, inl, inr, true, false, Option, none, some, List,
  [], ◌∷◌, ◌++◌, ltb, leb, Bool-cases, if◌then◌else◌, arith, length, ℤ, pos, minus_one, ◌%◌,
}
use dungeon.Queue.{
  Queue, u32, cond_eq, cond_dq, update, next, queue_new, put, take, queue_enqueue_nb,
  queue_dequeue_nb,
}
use dungeon.Queue.Window.{
  wrap, window, contents, IsValid, length-window, window-snoc, window-update,
}

-- The specification: what each non-blocking call answers, and the list that it leaves.
unfoldable pub push : ℕ → List ℕ → ℕ → ℤ × List ℕ
push cap xs x = if leb cap (length xs) then (minus_one, xs) else (pos 0, xs ++ x ∷ [])

unfoldable pub pop : List ℕ → Option ℕ × List ℕ
pop [] = (none, [])
pop (x ∷ xs) = (some x, xs)

pub length-contents : (q : Queue) → length (contents q) ≡ q.nr
length-contents q = length-window q.max q.bucket q.rindex q.nr

update_self : (b : ℕ → ℕ) (i x : ℕ) → update b i x i ≡ x
update_self b i x = ground arith

module _ {q : Queue} (valid : IsValid q) where
  pub put-IsValid : (x : ℕ) → q.nr < q.max → IsValid (put q x)
  unfolding put next
  put-IsValid x room = ground (arith, valid.small, valid.inside, valid.placed)

  pub put-nr : (x : ℕ) → q.nr < q.max → (put q x).nr ≡ q.nr + 1
  unfolding put
  put-nr x room = omega (arith, valid.small)

  pub put-contents : (x : ℕ) → q.nr < q.max → contents (put q x) ≡ contents q ++ x ∷ []
  unfolding put
  put-contents x room =
      let w = valid.placed in
      let count : (q.nr + 1) % u32 ≡ suc q.nr = omega (arith, valid.small) in
      let end : ℕ = wrap q.max (q.rindex + q.nr) in
      rw (count, w)
        (window-snoc q.max valid.small (update q.bucket end x) q.rindex q.nr valid.inside room
          ∙ rw (update_self q.bucket end x) (
              ap (λ ys. ys ++ x ∷ [])
                (window-update q.max valid.small q.bucket x q.rindex q.nr q.nr valid.inside
                  (omega arith) room)))

  pub take-IsValid : 0 < q.nr → IsValid (take q)
  unfolding take next
  take-IsValid some_left = ground (arith, valid.small, valid.inside, valid.placed, valid.filled)

  pub take-contents : 0 < q.nr → contents q ≡ q.bucket q.rindex ∷ contents (take q)
  unfolding take window
  take-contents some_left =
      let e : q.nr ≡ suc (q.nr - 1) = omega arith in ap (λ n. window q.max q.bucket q.rindex n) e

-- `queue_new` makes an empty queue of the given room, and fails only if the memory is exhausted.
pub queue_new-empty :
    (garbage : ℕ → ℕ) (max : ℕ)
    → 0 < max
    → max < 2 ^ 31
    → (q : Queue) × (queue_new true garbage max ≡ some q)
      × (queue_new false garbage max ≡ none)
      × IsValid q
      × (contents q ≡ [])
      × (q.max ≡ max)
unfolding queue_new window
queue_new-empty garbage max some_room small = (
  _,
  refl,
  refl,
  record { small = small; inside = some_room; filled = omega arith; placed = ground arith },
  refl,
  refl,
)

module _ {q : Queue} (valid : IsValid q) where
  -- On a valid queue `queue_enqueue_nb` is `push`: full, it answers -1 and leaves the contents;
  -- else it appends, answers 0 and signals a waiting consumer. The queue stays valid.
  pub queue_enqueue_nb-push :
      (x : ℕ)
      → let r = queue_enqueue_nb q x in
        ((r.ret, contents r.queue) ≡ push q.max (contents q) x)
        × IsValid r.queue
        × (r.signal ≡ (if ltb q.nr q.max then some cond_dq else none))
  unfolding queue_enqueue_nb push
  queue_enqueue_nb-push x = elim (Bool-cases (ltb q.nr q.max)) [
    | inl room ↦ ground (arith, put-contents valid x, put-IsValid valid x, length-contents q)
    | inr full ↦ ground (arith, put-contents valid x, put-IsValid valid x, length-contents q)
  ]

  -- On a valid queue `queue_dequeue_nb` is `pop`: empty, it answers -1 and leaves the contents;
  -- else it hands out the oldest pointer, answers 0 and signals a waiting producer. The queue
  -- stays valid.
  pub queue_dequeue_nb-pop :
      let (out, r) = queue_dequeue_nb q in
      ((out, contents r.queue) ≡ pop (contents q))
      × IsValid r.queue
      × (r.ret ≡ (if ltb 0 q.nr then pos 0 else minus_one))
      × (r.signal ≡ (if ltb 0 q.nr then some cond_eq else none))
  unfolding queue_dequeue_nb pop
  queue_dequeue_nb-pop = elim (Bool-cases (ltb 0 q.nr)) [
    | inl some_left ↦ ground (arith, take-contents valid, take-IsValid valid, length-contents q)
    | inr empty ↦ ground (arith, take-contents valid, take-IsValid valid, length-contents q)
  ]
