-- ===== src/Dungeon/Delete.antt =====
-- What is left of the imps at the end of the dungeon.
use dungeon.Base.{
  ℕ, zero, suc, ◌<◌, ◌≡◌, refl, ap, ◌∙◌, inl, inr, false, none, some, Option-cases, Bool-cases, has,
  nil_of_length, ok, arith, if◌then◌else◌,
}
use dungeon.Queue.{queue_dequeue_nb}
use dungeon.Queue.Window.{contents}
use dungeon.Queue.Fifo.{length-contents}
use dungeon.Imp.{Dungeon, store}
use dungeon.Imp.Place.{store_self}
use dungeon.Maintainer.{dismiss_loop}
use dungeon.System.Housing.{sleeps, lives}
use dungeon.System.Accounts.{IsHoused, gone-IsHoused}
use dungeon.System.Taking.{Holds-store, take_ended, ended_live}
use dungeon.System.Rounds.{live}
use dungeon.Dungeon.{dungeon_delete_imps}
use dungeon.Dungeon.Drain.{
  Listed, Spares, Spares-trans, dismissed, dismissed-Spares, dismissed-Listed, dismisses, shorter,
  emptied, drain_run-empties,
}

module _ {M : Type 0} where
  dismiss_loop-empties :
      (fuel : ℕ) (w : Dungeon M)
      → IsHoused w
      → Listed w
      → w.terminated_queue.nr < fuel
      → (u : Dungeon M) × (dismiss_loop fuel w ≡ some (ok u))
        × IsHoused u
        × Spares w u
        × (u.terminated_queue.nr ≡ 0)
        × (u.run_queue ≡ w.run_queue)
  unfolding dismiss_loop dismissed
  dismiss_loop-empties zero w h listed enough = absurd (omega arith)
  dismiss_loop-empties (suc fuel) w h listed enough =
      elim (Option-cases (queue_dequeue_nb w.terminated_queue).0) [
        | inl none_left ↦ (
          w,
          ground (arith, none_left),
          h,
          record { asleep = λ j s. refl; others = λ j. inl refl; nr_waitio = refl },
          emptied w.terminated_queue none_left,
          refl,
        )
        | inr (i, out) ↦
            let r = (queue_dequeue_nb w.terminated_queue).1 in
            let v = record w { terminated_queue = r.queue } in
            let held = take_ended w i h out in
            let (awake, alive) = ended_live w i h out in
            let (m, there, _) = live w i awake alive in
            let next = dismissed v i in
            let ends = dismisses v i m there listed in
            let housed : IsHoused next =
              gone-IsHoused (record v { imps = store v.imps i none }) i
                (Holds-store v i none v.polls v.next_id held) (store_self v.imps i none) in
            let (u, run, h', spares, none_left, same) =
              dismiss_loop-empties fuel next housed (dismissed-Listed v i listed)
                (omega (arith, shorter w.terminated_queue i out, enough)) in
            let first = dismissed-Spares v i awake in
            (
              u,
              ground (arith, out, ends, run),
              h',
              Spares-trans w next u
                  (record {
                    asleep = first.asleep;
                    others = first.others;
                    nr_waitio = first.nr_waitio;
                  })
                  spares,
              none_left,
              same,
            )
      ]

  -- With both queues empty, only imps that sleep are live.
  left_asleep :
      (w u : Dungeon M)
      → IsHoused u
      → Spares w u
      → u.run_queue.nr ≡ 0
      → u.terminated_queue.nr ≡ 0
      → (j : ℕ) → u.imps j ≡ (if sleeps (w.imps j) then w.imps j else none)
  left_asleep w u h spares no_run no_ended j = elim (Bool-cases (sleeps (w.imps j))) [
    | inl dreams ↦ spares.asleep j dreams ∙ ground (arith, dreams)
    | inr awake ↦ elim (spares.others j) [
      | inr gone ↦ gone ∙ ground (arith, awake)
      | inl same ↦
          let none_run =
            nil_of_length (contents u.run_queue) (length-contents u.run_queue ∙ no_run) in
          let none_ended =
            nil_of_length (contents u.terminated_queue)
              (length-contents u.terminated_queue ∙ no_ended) in
          let place = h.houses.placed j in
          let sleep' : sleeps (u.imps j) ≡ false = ap sleeps same ∙ awake in
          let dead : lives (u.imps j) ≡ false =
            ground (arith, place, sleep', ap (has j) none_run, ap (has j) none_ended) in
          elim (Option-cases (u.imps j)) [
            | inl gone ↦ gone ∙ ground (arith, awake)
            | inr (m, there) ↦ absurd (ground (arith, there, dead))
          ]
    ]
  ]

  -- From a dungeon in which each live imp is in exactly one place and has its list of requests, and
  -- whose counters are right, with more fuel than there are imps in either queue, the loops of
  -- `dungeon_delete` end: the imps of both queues are gone, but those that sleep are all left as they
  -- were, and `nr_total` still counts them.
  pub dungeon_delete_imps_sleepers :
      (fuel : ℕ) (w : Dungeon M)
      → IsHoused w
      → Listed w
      → w.run_queue.nr < fuel
      → w.terminated_queue.nr < fuel
      → (u : Dungeon M) × (dungeon_delete_imps fuel w ≡ some (ok u))
        × (u.run_queue.nr ≡ 0)
        × (u.terminated_queue.nr ≡ 0)
        × ((j : ℕ) → u.imps j ≡ (if sleeps (w.imps j) then w.imps j else none))
        × (u.nr_total ≡ w.nr_waitio)
  unfolding dungeon_delete_imps
  dungeon_delete_imps_sleepers fuel w h listed enough enough' =
      let (v, run, h', l', spares, no_run, same) = drain_run-empties fuel w h listed enough in
      let (u, run', h'', spares', no_ended, same') =
        dismiss_loop-empties fuel v h' l' (omega (arith, ap (λ q. q.nr) same, enough')) in
      let all = Spares-trans w v u spares spares' in
      let none_run : u.run_queue.nr ≡ 0 = ap (λ q. q.nr) same' ∙ no_run in
      (
        u,
        ground (arith, run, run'),
        none_run,
        no_ended,
        left_asleep w u h'' all none_run no_ended,
        ground (
          arith, h''.balanced.nr_total, h''.balanced.nr_waitio, all.nr_waitio, none_run, no_ended,
        ),
      )
