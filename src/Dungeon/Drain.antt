-- ===== src/Dungeon/Drain.antt =====
-- A queue of imps is emptied, and the imps in it are dismissed.
use dungeon.Base.{
  ℕ, zero, suc, ◌+◌, ◌<◌, ◌≡◌, refl, ap, ◌∙◌, ◌⊎◌, inl, inr, true, false, none, some, Option-cases,
  Bool-cases, ok, arith, ◌+ℤ◌, minus_one, ◌==◌,
}
use dungeon.Queue.{Queue, queue_dequeue, queue_dequeue_nb, take}
use dungeon.Llist.View.{View}
use dungeon.Imp.{Imp, Request, Dungeon, store, imp_dismiss}
use dungeon.Imp.Place.{store_self}
use dungeon.System.Housing.{sleeps}
use dungeon.System.Accounts.{IsHoused, gone-IsHoused}
use dungeon.System.Taking.{Holds-store, take_run, run_live}
use dungeon.System.Rounds.{live}
use dungeon.Dungeon.{drain_run}

same_dequeue :
    (q : Queue) (i : ℕ)
    → (queue_dequeue_nb q).0 ≡ some i
    → queue_dequeue q ≡ some (i, (queue_dequeue_nb q).1)
unfolding queue_dequeue queue_dequeue_nb
same_dequeue q i out = ground (arith, out)

pub shorter :
    (q : Queue) (i : ℕ)
    → (queue_dequeue_nb q).0 ≡ some i
    → (queue_dequeue_nb q).1.queue.nr + 1 ≡ q.nr
unfolding queue_dequeue_nb take
shorter q i out = ground (arith, out)

pub emptied : (q : Queue) → (queue_dequeue_nb q).0 ≡ none → q.nr ≡ 0
unfolding queue_dequeue_nb
emptied q out = ground (arith, out)

module _ {M : Type 0} where
  -- Each imp has its list of requests.
  abbrev pub Listed : Dungeon M → Type 0
  Listed w =
      (j : ℕ) (m : Imp M) → w.imps j ≡ some m → (v : View Request) × (m.requested_events ≡ some v)

  -- Imps that sleep are left, others may be gone.
  pub record Spares (w u : Dungeon M) : Type 0 where
    pub asleep : (j : ℕ) → sleeps (w.imps j) ≡ true → u.imps j ≡ w.imps j
    pub others : (j : ℕ) → (u.imps j ≡ w.imps j) ⊎ (u.imps j ≡ none)
    pub nr_waitio : u.nr_waitio ≡ w.nr_waitio

  pub Spares-trans : (w u v : Dungeon M) → Spares w u → Spares u v → Spares w v
  Spares-trans w u v p q = record {
    asleep = λ j s. q.asleep j (ap sleeps (p.asleep j s) ∙ s) ∙ p.asleep j s;
    others = λ j. elim (q.others j) [
      | inr gone ↦ inr gone
      | inl same ↦ elim (p.others j) [
        | inl before ↦ inl (same ∙ before)
        | inr gone ↦ inr (same ∙ gone)
      ]
    ];
    nr_waitio = q.nr_waitio ∙ p.nr_waitio;
  }

  unfoldable pub dismissed : Dungeon M → ℕ → Dungeon M
  dismissed w i = record w { imps = store w.imps i none; nr_total = w.nr_total +ℤ minus_one }

  pub dismissed-Spares :
      (w : Dungeon M) (i : ℕ) → sleeps (w.imps i) ≡ false → Spares w (dismissed w i)
  unfolding dismissed
  dismissed-Spares w i awake = record {
    asleep = λ j s. ground (arith, awake, s);
    others = λ j. elim (Bool-cases (j == i)) [
      | inl same ↦ inr (ground (arith, same))
      | inr other ↦ inl (ground (arith, other))
    ];
    nr_waitio = refl;
  }

  pub dismissed-Listed : (w : Dungeon M) (i : ℕ) → Listed w → Listed (dismissed w i)
  unfolding dismissed
  dismissed-Listed w i listed j m there = listed j m (ground (arith, there))

  pub dismisses :
      (w : Dungeon M) (i : ℕ) (m : Imp M)
      → w.imps i ≡ some m
      → Listed w
      → imp_dismiss w i ≡ ok (dismissed w i)
  unfolding imp_dismiss dismissed
  dismisses w i m there listed = let (v, e) = listed i m there in ground (arith, there, e)

  -- With more fuel than there are imps in the run queue, the loop ends with the queue empty.
  pub drain_run-empties :
      (fuel : ℕ) (w : Dungeon M)
      → IsHoused w
      → Listed w
      → w.run_queue.nr < fuel
      → (u : Dungeon M) × (drain_run fuel w ≡ some (ok u))
        × IsHoused u
        × Listed u
        × Spares w u
        × (u.run_queue.nr ≡ 0)
        × (u.terminated_queue ≡ w.terminated_queue)
  unfolding drain_run dismissed
  drain_run-empties zero w h listed enough = absurd (omega arith)
  drain_run-empties (suc fuel) w h listed enough =
      elim (Option-cases (queue_dequeue_nb w.run_queue).0) [
        | inl none_left ↦ (
          w,
          ground (arith, none_left),
          h,
          listed,
          record { asleep = λ j s. refl; others = λ j. inl refl; nr_waitio = refl },
          emptied w.run_queue none_left,
          refl,
        )
        | inr (i, out) ↦
            let r = (queue_dequeue_nb w.run_queue).1 in
            let v = record w { run_queue = r.queue } in
            let taken = same_dequeue w.run_queue i out in
            let held = take_run w i r h taken in
            let (awake, alive) = run_live w i r h taken in
            let (m, there, _) = live w i awake alive in
            let next = dismissed v i in
            let ends = dismisses v i m there listed in
            let housed : IsHoused next =
              gone-IsHoused (record v { imps = store v.imps i none }) i
                (Holds-store v i none v.polls v.next_id held) (store_self v.imps i none) in
            let (u, run, h', l', spares, none_left, same) =
              drain_run-empties fuel next housed (dismissed-Listed v i listed)
                (omega (arith, shorter w.run_queue i out, enough)) in
            let first = dismissed-Spares v i awake in
            (
              u,
              ground (arith, out, ends, run),
              h',
              l',
              Spares-trans w next u
                  (record {
                    asleep = first.asleep;
                    others = first.others;
                    nr_waitio = first.nr_waitio;
                  })
                  spares,
              none_left,
              same,
            )
      ]
