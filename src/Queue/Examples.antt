-- ===== src/Queue/Examples.antt =====
-- Runs of the queue of ds_queue2.c at concrete contents.
use dungeon.Base.{◌+◌, ◌≡◌, refl, none, some, [], ◌∷◌, ◌++◌, arith, ok, fault, pos}
use dungeon.Queue.{
  Queue, cond_dq, cond_eq, reply, put, queue_enqueue_nb, queue_dequeue_nb, queue_enqueue_uniq_nb,
  next, take, queue_enqueue, queue_dequeue, queue_size,
}
use dungeon.Queue.Window.{contents, IsValid, window}
use dungeon.Queue.Fifo.{push, pop, queue_enqueue_nb-push, queue_dequeue_nb-pop}
use dungeon.Queue.Uniq.{tail, queue_enqueue_uniq_nb-straight, queue_enqueue_uniq_nb-wrapped}
use dungeon.Queue.Trace.{enqueue_nb, dequeue_nb, Flows, section, run, run-Flows}

-- Room for three, and 5 and 6 in the first two cells.
abbrev two : Queue
two = record {
  max = 3;
  nr = 2;
  en_count = 2;
  de_count = 0;
  rindex = 0;
  windex = 2;
  bucket = λ i. i + 5;
}

-- 7 in the last cell, and 5 behind it in the first.
abbrev round : Queue
round = record two { rindex = 2; windex = 1 }

two-IsValid : IsValid two
two-IsValid = record {
  small = omega arith;
  inside = omega arith;
  filled = omega arith;
  placed = refl;
}

round-IsValid : IsValid round
round-IsValid = record {
  small = omega arith;
  inside = omega arith;
  filled = omega arith;
  placed = refl;
}

contents-two : contents two ≡ 5 ∷ 6 ∷ []
unfolding window next
contents-two = refl

contents-round : contents round ≡ 7 ∷ 5 ∷ []
unfolding window next
contents-round = refl

dequeue_empty : (queue_dequeue_nb (record two { nr = 0 })).0 ≡ none
unfolding queue_dequeue_nb
dequeue_empty = refl

enqueue_waits : queue_enqueue (record two { nr = 3 }) 9 ≡ none
unfolding queue_enqueue
enqueue_waits = refl

dequeue_oldest : queue_dequeue two ≡ some (5, reply (pos 0) (take two) (some cond_eq))
unfolding queue_dequeue
dequeue_oldest = refl

size_two : queue_size two ≡ 2
unfolding queue_size
size_two = refl

queue_enqueue_nb-push_example :
    let r = queue_enqueue_nb two 9 in
    ((r.ret, contents r.queue) ≡ push 3 (contents two) 9)
    × IsValid r.queue
    × (r.signal ≡ some cond_dq)
queue_enqueue_nb-push_example = queue_enqueue_nb-push two-IsValid 9

queue_dequeue_nb-pop_example :
    let (out, r) = queue_dequeue_nb two in
    ((out, contents r.queue) ≡ pop (contents two))
    × IsValid r.queue
    × (r.ret ≡ pos 0)
    × (r.signal ≡ some cond_eq)
queue_dequeue_nb-pop_example = queue_dequeue_nb-pop two-IsValid

queue_enqueue_uniq_nb-straight_example :
    queue_enqueue_uniq_nb two 6 ≡ ok (reply (pos 0) two (some cond_dq))
unfolding window next
queue_enqueue_uniq_nb-straight_example = queue_enqueue_uniq_nb-straight two-IsValid 6 (omega arith)

queue_enqueue_uniq_nb-wrapped_example :
    (contents round ≡ tail round ++ window 3 round.bucket 0 1)
    × (queue_enqueue_uniq_nb round 9 ≡ fault)
unfolding window next
queue_enqueue_uniq_nb-wrapped_example = queue_enqueue_uniq_nb-wrapped round-IsValid 9 (omega arith)

-- The queue behind two fetches and one addition.
ended : Queue
ended = take (put (take two) 9)

ran : run (dequeue_nb ∷ enqueue_nb 9 ∷ dequeue_nb ∷ []) two ≡ some (9 ∷ [], 5 ∷ 6 ∷ [], ended)
unfolding run section queue_dequeue_nb queue_enqueue_nb put take next ended
ran = refl

run-Flows_example : Flows two (9 ∷ [], 5 ∷ 6 ∷ [], ended)
run-Flows_example =
    run-Flows (dequeue_nb ∷ enqueue_nb 9 ∷ dequeue_nb ∷ []) two (9 ∷ [], 5 ∷ 6 ∷ [], ended)
      two-IsValid ran
