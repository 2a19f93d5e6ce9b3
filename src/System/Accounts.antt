-- ===== src/System/Accounts.antt =====
-- The counters of the dungeon against the places of its imps, and what a call on a queue does to
-- them.
use dungeon.Base.{
  ℕ, ◌+◌, ◌≤◌, ◌<◌, ◌≡◌, ap, ◌∙◌, true, false, none, some, List, ◌∷◌, has, has-append, length, ltb,
  ltb→le, ltb→lt, leb, lt→leb, Bool-cases, inl, inr, pos, minus_one, ◌+ℤ◌, ok, Run-cases, arith,
}
use dungeon.Queue.{Queue, Reply, put, queue_enqueue_uniq_nb, queue_enqueue_nb}
use dungeon.Queue.Window.{window, contents, IsValid}
use dungeon.Queue.Fifo.{put-IsValid, put-contents, put-nr}
use dungeon.Queue.Uniq.{tail, queue_enqueue_uniq_nb-straight, queue_enqueue_uniq_nb-wrapped}
use dungeon.Imp.{Imp, Dungeon, imp_run, imp_term, thr_maintainer_wakeup}
use dungeon.System.Housing.{Houses, Away, run_in, ended_in, asleep_in, gone}

-- An enqueue of a pointer that is not there, which returns, appends it.
queued :
    {q : Queue} (i : ℕ) (r : Reply)
    → IsValid q
    → has i (contents q) ≡ false
    → q.nr < q.max
    → queue_enqueue_uniq_nb q i ≡ ok r
    → r.queue ≡ put q i
queued {q} i r valid out room done = elim (Bool-cases (ltb q.windex q.rindex)) [
  | inl wrapped ↦
      let (held, answer) = queue_enqueue_uniq_nb-wrapped valid i (ltb→lt _ _ wrapped) in
      ground
        (arith, answer, ap (has i) held, has-append i (tail q) (window q.max q.bucket 0 q.windex))
  | inr straight ↦
      let answer = queue_enqueue_uniq_nb-straight valid i (ltb→le _ _ straight) in
      ground (arith, answer)
]

module _ {M : Type 0} where
  -- `extra` imps are in no place at the moment.
  pub record Balanced (w : Dungeon M) (asleep : List ℕ) (extra : ℕ) : Type 0 where
    pub run_valid : IsValid w.run_queue
    pub ended_valid : IsValid w.terminated_queue
    pub run_max : pos w.run_queue.max ≡ w.nr_max
    pub ended_max : w.terminated_queue.max ≡ w.run_queue.max
    pub nr_waitio : w.nr_waitio ≡ pos (length asleep)
    pub nr_total : w.nr_total ≡ pos (w.run_queue.nr + w.terminated_queue.nr + length asleep + extra)
    pub bounded : w.run_queue.nr + w.terminated_queue.nr + length asleep + extra ≤ w.run_queue.max

  pub record IsHoused (w : Dungeon M) : Type 0 where
    pub asleep : List ℕ
    pub balanced : Balanced w asleep 0
    pub houses : Houses w.imps (contents w.run_queue) (contents w.terminated_queue) asleep

  -- The imp `i` is in the hands of the thread that runs.
  pub record Holds (w : Dungeon M) (i : ℕ) : Type 0 where
    pub asleep : List ℕ
    pub balanced : Balanced w asleep 1
    pub away : Away i w.imps (contents w.run_queue) (contents w.terminated_queue) asleep

  ran :
      (w u : Dungeon M) (i : ℕ)
      → Holds w i
      → imp_run w i ≡ ok u
      → u ≡ record w { run_queue = put w.run_queue i }
  unfolding imp_run
  ran w u i held run =
      let b = held.balanced in
      elim (Run-cases (queue_enqueue_uniq_nb w.run_queue i)) [
        | inl (r, done) ↦
            let q = queued i r b.run_valid held.away.not_run (omega (arith, b.bounded)) done in
            ground (arith, done, q, run)
        | inr failed ↦ ground (arith, failed, run)
      ]

  pub imp_run-IsHoused :
      (w u : Dungeon M) (i : ℕ) {m : Imp M}
      → Holds w i
      → w.imps i ≡ some m
      → m.waitio ≡ false
      → imp_run w i ≡ ok u
      → IsHoused u
  unfolding put
  imp_run-IsHoused w u i held there awake run =
      let b = held.balanced in
      let room : w.run_queue.nr < w.run_queue.max = omega (arith, b.bounded) in
      let count = put-nr b.run_valid i room in
      rw (ran w u i held run) (record {
        asleep = held.asleep;
        balanced = record {
          run_valid = put-IsValid b.run_valid i room;
          ended_valid = b.ended_valid;
          run_max = b.run_max;
          ended_max = b.ended_max;
          nr_waitio = b.nr_waitio;
          nr_total = b.nr_total ∙ ap pos (omega (arith, count));
          bounded = omega (arith, count, b.bounded);
        };
        houses = rw (put-contents b.run_valid i room) (run_in i there awake held.away);
      })

  pub imp_term-IsHoused :
      (w : Dungeon M) (i : ℕ) {m : Imp M}
      → Holds w i
      → w.imps i ≡ some m
      → m.waitio ≡ false
      → IsHoused (imp_term w i)
  unfolding put imp_term queue_enqueue_nb thr_maintainer_wakeup
  imp_term-IsHoused w i held there awake =
      let b = held.balanced in
      let room : w.terminated_queue.nr < w.terminated_queue.max =
        omega (arith, b.bounded, b.ended_max) in
      let count = put-nr b.ended_valid i room in
      let full : leb w.terminated_queue.max w.terminated_queue.nr ≡ false = lt→leb _ _ room in
      rw full (record {
        asleep = held.asleep;
        balanced = record {
          run_valid = b.run_valid;
          ended_valid = put-IsValid b.ended_valid i room;
          run_max = b.run_max;
          ended_max = b.ended_max;
          nr_waitio = b.nr_waitio;
          nr_total = b.nr_total ∙ ap pos (omega (arith, count));
          bounded = omega (arith, count, b.bounded);
        };
        houses = rw (put-contents b.ended_valid i room) (ended_in i there awake held.away);
      })

  -- The imp goes to sleep.
  pub asleep-IsHoused :
      (w : Dungeon M) (i : ℕ) {m : Imp M}
      → Holds w i
      → w.imps i ≡ some m
      → m.waitio ≡ true
      → IsHoused (record w { nr_waitio = w.nr_waitio +ℤ pos 1 })
  asleep-IsHoused w i held there waits =
      let b = held.balanced in
      record {
        asleep = i ∷ held.asleep;
        balanced = record {
          run_valid = b.run_valid;
          ended_valid = b.ended_valid;
          run_max = b.run_max;
          ended_max = b.ended_max;
          nr_waitio = ground (arith, b.nr_waitio);
          nr_total = b.nr_total ∙ ap pos (omega arith);
          bounded = omega (arith, b.bounded);
        };
        houses = asleep_in i there waits held.away;
      }

  -- The imp is given back.
  pub gone-IsHoused :
      (w : Dungeon M) (i : ℕ)
      → Holds w i
      → w.imps i ≡ none
      → IsHoused (record w { nr_total = w.nr_total +ℤ minus_one })
  gone-IsHoused w i held nobody =
      let b = held.balanced in
      record {
        asleep = held.asleep;
        balanced = record {
          run_valid = b.run_valid;
          ended_valid = b.ended_valid;
          run_max = b.run_max;
          ended_max = b.ended_max;
          nr_waitio = b.nr_waitio;
          nr_total = ground (arith, b.nr_total);
          bounded = omega (arith, b.bounded);
        };
        houses = gone i nobody held.away;
      }
