-- ===== src/Queue/Trace.antt =====
-- Interleavings of the threads that share a queue: a schedule lists the critical sections in the
-- order in which they got the mutex.
use dungeon.Base.{
  ℕ, ◌≡◌, Option, none, some, List, [], ◌∷◌, ◌++◌, Option-cases, inl, inr, ok, fault, append-nil,
  append_assoc, ltb, if◌then◌else◌, arith,
}
use dungeon.Queue.{
  Queue, queue_enqueue, queue_enqueue_uniq_nb, queue_dequeue, queue_enqueue_nb, queue_dequeue_nb,
}
use dungeon.Queue.Window.{contents, IsValid}
use dungeon.Queue.Fifo.{put-nr, put-IsValid, put-contents, take-IsValid, take-contents}

pub data Call : Type 0 where
  enqueue : ℕ → Call
  enqueue_nb : ℕ → Call
  dequeue : Call
  dequeue_nb : Call
  enqueue_uniq_nb : ℕ → Call

-- What went in, what came out, and the queue behind.
abbrev pub Outcome : Type 0
Outcome = List ℕ × List ℕ × Queue

-- One critical section; `none` if a blocking call has to wait, so that it cannot stand here, and
-- also after the out-of-bounds read of `queue_enqueue_uniq_nb`.
unfoldable pub section : Call → Queue → Option Outcome
section (enqueue x) q = elim (queue_enqueue q x) [
  | none ↦ none
  | some r ↦ some (x ∷ [], [], r.queue)
]
section (enqueue_nb x) q =
    let r = queue_enqueue_nb q x in
    some (elim r.signal [ none ↦ ([], [], r.queue) | some _ ↦ (x ∷ [], [], r.queue) ])
section dequeue q = elim (queue_dequeue q) [ none ↦ none | some p ↦ some ([], p.0 ∷ [], p.1.queue) ]
section dequeue_nb q =
    let p = queue_dequeue_nb q in
    some (elim p.0 [ none ↦ ([], [], p.1.queue) | some x ↦ ([], x ∷ [], p.1.queue) ])
section (enqueue_uniq_nb x) q = elim (queue_enqueue_uniq_nb q x) [
  | fault ↦ none
  | ok r ↦ some (if ltb q.nr r.queue.nr then x ∷ [] else [], [], r.queue)
]

unfoldable pub run : List Call → Queue → Option Outcome
run [] q = some ([], [], q)
run (c ∷ cs) q = elim (section c q) [
  | none ↦ none
  | some s ↦ elim (run cs s.2) [ none ↦ none | some t ↦ some (s.0 ++ t.0, s.1 ++ t.1, t.2) ]
]

-- What was there and what went in is what came out and what is there, in this order.
pub record Flows (q : Queue) (s : Outcome) : Type 0 where
  pub valid : IsValid s.2
  pub flow : contents q ++ s.0 ≡ s.1 ++ contents s.2

section-Flows : (c : Call) (q : Queue) (s : Outcome) → IsValid q → section c q ≡ some s → Flows q s
unfolding section queue_enqueue queue_enqueue_uniq_nb queue_dequeue queue_enqueue_nb
    queue_dequeue_nb
section-Flows (enqueue x) q s v e =
    ground (arith, put-contents v x, put-IsValid v x, append-nil (contents q))
section-Flows (enqueue_nb x) q s v e =
    ground (arith, put-contents v x, put-IsValid v x, append-nil (contents q))
section-Flows dequeue q s v e =
    ground (arith, take-contents v, take-IsValid v, append-nil (contents q))
section-Flows (enqueue_uniq_nb x) q s v e =
    ground (arith, put-contents v x, put-IsValid v x, put-nr v x, append-nil (contents q))
section-Flows dequeue_nb q s v e =
    ground (arith, take-contents v, take-IsValid v, append-nil (contents q))

-- From a valid queue, for every schedule of critical sections of which none has to wait and none
-- reads past the array: the queue stays valid, and the pointers that were there, followed by those
-- that went in, are those that came out, followed by those that are there, in this order: first in
-- first out, none lost and none twice.
pub run-Flows :
    (cs : List Call) (q : Queue) (s : Outcome) → IsValid q → run cs q ≡ some s → Flows q s
unfolding run
run-Flows [] q s v e = record {
  valid = ground arith;
  flow = ground (arith, append-nil (contents q));
}
run-Flows (c ∷ cs) q s v e = elim (Option-cases (section c q)) [
  | inl stuck ↦ absurd (ground arith)
  | inr (t, one) ↦ elim (Option-cases (run cs t.2)) [
    | inl stuck ↦ absurd (ground arith)
    | inr (u, rest) ↦
        let f = section-Flows c q t v one in
        let g = run-Flows cs t.2 u f.valid rest in
        let all : s ≡ (t.0 ++ u.0, t.1 ++ u.1, u.2) = ground arith in
        rw all (record {
          valid = g.valid;
          flow = rw (← append_assoc, f.flow, append_assoc, g.flow, append_assoc);
        })
  ]
]
