-- ===== src/System/Taking.antt =====
-- How an imp comes into the hands of a thread: out of a queue, out of its sleep, or newly made.
use dungeon.Base.{
  ℕ, ◌+◌, ◌<◌, ◌≡◌, ap, ◌∙◌, true, false, Option, none, some, ◌∷◌, has, length, leb, lt→leb, leb_ℤ,
  pos, minus_one, ◌+ℤ◌, arith,
}
use dungeon.Queue.{Reply, queue_dequeue, queue_dequeue_nb, take}
use dungeon.Queue.Window.{contents}
use dungeon.Queue.Fifo.{take-IsValid, take-contents}
use dungeon.Imp.{Imp, Dungeon, store}
use dungeon.System.Housing.{
  sleeps, lives, remove, length-remove, Away-store, run_out, ended_out, asleep_out, fresh,
}
use dungeon.System.Accounts.{IsHoused, Holds}

module _ {M : Type 0} where
  pub Holds-store :
      (w : Dungeon M) (i : ℕ) (x : Option (Imp M)) (polls : ℕ → Option ℕ) (n : ℕ)
      → Holds w i
      → Holds (record w { imps = store w.imps i x; polls = polls; next_id = n }) i
  Holds-store w i x polls n held =
      let b = held.balanced in
      record {
        asleep = held.asleep;
        balanced = record {
          run_valid = b.run_valid;
          ended_valid = b.ended_valid;
          run_max = b.run_max;
          ended_max = b.ended_max;
          nr_waitio = b.nr_waitio;
          nr_total = b.nr_total;
          bounded = b.bounded;
        };
        away = Away-store i x held.away;
      }

  pub take_run :
      (w : Dungeon M) (i : ℕ) (r : Reply)
      → IsHoused w
      → queue_dequeue w.run_queue ≡ some (i, r)
      → Holds (record w { run_queue = r.queue }) i
  unfolding queue_dequeue take
  take_run w i r h out =
      let b = h.balanced in
      let left : 0 < w.run_queue.nr = ground (arith, out) in
      let e : i ≡ w.run_queue.bucket w.run_queue.rindex = ground (arith, out, left) in
      let q : r.queue ≡ take w.run_queue = ground (arith, out, left) in
      let held : contents w.run_queue ≡ i ∷ contents (take w.run_queue) =
        rw e (take-contents b.run_valid left) in
      rw q (record {
        asleep = h.asleep;
        balanced = record {
          run_valid = take-IsValid b.run_valid left;
          ended_valid = b.ended_valid;
          run_max = b.run_max;
          ended_max = b.ended_max;
          nr_waitio = b.nr_waitio;
          nr_total = b.nr_total ∙ ap pos (omega arith);
          bounded = omega (arith, b.bounded);
        };
        away = run_out i (rw held at h.houses);
      })

  pub run_live :
      (w : Dungeon M) (i : ℕ) (r : Reply)
      → IsHoused w
      → queue_dequeue w.run_queue ≡ some (i, r)
      → (sleeps (w.imps i) ≡ false) × (lives (w.imps i) ≡ true)
  unfolding queue_dequeue
  run_live w i r h out =
      let left : 0 < w.run_queue.nr = ground (arith, out) in
      let e : i ≡ w.run_queue.bucket w.run_queue.rindex = ground (arith, out, left) in
      let inside : has i (contents w.run_queue) ≡ true =
        ground (arith, take-contents h.balanced.run_valid left, e) in
      ground (arith, h.houses.placed i, inside)

  pub take_ended :
      (w : Dungeon M) (i : ℕ)
      → IsHoused w
      → (queue_dequeue_nb w.terminated_queue).0 ≡ some i
      → Holds (record w { terminated_queue = (queue_dequeue_nb w.terminated_queue).1.queue }) i
  unfolding queue_dequeue_nb take
  take_ended w i h out =
      let b = h.balanced in
      let left : 0 < w.terminated_queue.nr = ground (arith, out) in
      let e : i ≡ w.terminated_queue.bucket w.terminated_queue.rindex = ground (arith, out, left) in
      let some_there : leb w.terminated_queue.nr 0 ≡ false = lt→leb _ _ left in
      let held : contents w.terminated_queue ≡ i ∷ contents (take w.terminated_queue) =
        rw e (take-contents b.ended_valid left) in
      rw some_there (record {
        asleep = h.asleep;
        balanced = record {
          run_valid = b.run_valid;
          ended_valid = take-IsValid b.ended_valid left;
          run_max = b.run_max;
          ended_max = b.ended_max;
          nr_waitio = b.nr_waitio;
          nr_total = b.nr_total ∙ ap pos (omega arith);
          bounded = omega (arith, b.bounded);
        };
        away = ended_out i (rw held at h.houses);
      })

  pub ended_live :
      (w : Dungeon M) (i : ℕ)
      → IsHoused w
      → (queue_dequeue_nb w.terminated_queue).0 ≡ some i
      → (sleeps (w.imps i) ≡ false) × (lives (w.imps i) ≡ true)
  unfolding queue_dequeue_nb
  ended_live w i h out =
      let left : 0 < w.terminated_queue.nr = ground (arith, out) in
      let e : i ≡ w.terminated_queue.bucket w.terminated_queue.rindex = ground (arith, out, left) in
      let inside : has i (contents w.terminated_queue) ≡ true =
        ground (arith, take-contents h.balanced.ended_valid left, e) in
      ground (arith, h.houses.placed i, inside)

  pub wake_up :
      (w : Dungeon M) (i : ℕ) {m : Imp M}
      → IsHoused w
      → w.imps i ≡ some m
      → m.waitio ≡ true
      → Holds (record w { nr_waitio = w.nr_waitio +ℤ minus_one }) i
  wake_up w i h there waits =
      let b = h.balanced in
      let sleeping : has i h.asleep ≡ true = ground (arith, h.houses.placed i, there, waits) in
      let count = length-remove i h.asleep sleeping in
      record {
        asleep = remove i h.asleep;
        balanced = record {
          run_valid = b.run_valid;
          ended_valid = b.ended_valid;
          run_max = b.run_max;
          ended_max = b.ended_max;
          nr_waitio = ground (arith, b.nr_waitio, count);
          nr_total = b.nr_total ∙ ap pos (omega (arith, count));
          bounded = omega (arith, count, b.bounded);
        };
        away = asleep_out i sleeping h.houses;
      }

  pub make :
      (w : Dungeon M) (i : ℕ)
      → IsHoused w
      → w.imps i ≡ none
      → leb_ℤ w.nr_max w.nr_total ≡ false
      → Holds (record w { nr_total = w.nr_total +ℤ pos 1 }) i
  make w i h unused room =
      let b = h.balanced in
      let more : w.run_queue.nr + w.terminated_queue.nr + length h.asleep + 0 < w.run_queue.max =
        ground (arith, b.nr_total, b.run_max, room) in
      record {
        asleep = h.asleep;
        balanced = record {
          run_valid = b.run_valid;
          ended_valid = b.ended_valid;
          run_max = b.run_max;
          ended_max = b.ended_max;
          nr_waitio = b.nr_waitio;
          nr_total = ground (arith, b.nr_total);
          bounded = omega arith;
        };
        away = fresh i unused h.houses;
      }
