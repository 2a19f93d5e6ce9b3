-- ===== src/Maintainer.antt =====
-- src/thr_maintainer.c, the thread that dismisses the imps that ended. Its start, and its end by
-- `thread_quit_mark`, are not modelled.
pub mod Collect
mod Examples
use dungeon.Base.{ℕ, Bool, true, false, zero, suc, Option, none, some, Run, ok, fault}
use dungeon.Queue.{queue_dequeue_nb}
use dungeon.Imp.{Dungeon, imp_dismiss}

module _ {M : Type 0} where
  -- The inner loop of `thr_maintainer`, which ends when the terminated queue is empty.
  unfoldable pub dismiss_loop : ℕ → Dungeon M → Option (Run (Dungeon M))
  dismiss_loop zero w = none
  dismiss_loop (suc fuel) w =
      let (out, r) = queue_dequeue_nb w.terminated_queue in
      elim out [
        | none ↦ some (ok w)
        | some i ↦ elim (imp_dismiss (record w { terminated_queue = r.queue }) i) [
          | fault ↦ some fault
          | ok u ↦ dismiss_loop fuel u
        ]
      ]

  -- One round of the outer loop: the imps, and then the wait for `pending_event`, which ends with the
  -- flag taken back; `none` is a thread that sleeps on.
  unfoldable pub maintain : ℕ → Dungeon M → Option (Run (Dungeon M))
  maintain fuel w = elim (dismiss_loop fuel w) [
    | none ↦ none
    | some fault ↦ some fault
    | some (ok u) ↦ elim (u.pending_event) [
      | true ↦ some (ok (record u { pending_event = false }))
      | false ↦ none
    ]
  ]
