-- ===== src/System/Progress.antt =====
-- Where a worker leaves the imp that it took out of the run queue.
use dungeon.Base.{ℕ, ◌≤◌, ◌≡◌, Bool, some, ok, arith}
use dungeon.Queue.{Reply, queue_dequeue}
use dungeon.Llist.View.{View}
use dungeon.Imp.{Imp, Soul, Dungeon, Ctl, Retcode, Request, imp_reduct_event_mask}
use dungeon.Imp.Place.{Placed, imp_driver-Placed}
use dungeon.Worker.{driver_round}
use dungeon.System.Accounts.{IsHoused}
use dungeon.System.Taking.{take_run}
use dungeon.System.Rounds.{driver_round-IsHoused}

module _ {M : Type 0} (soul : Soul M) (ctl : Ctl) (timer event : Bool) (w : Dungeon M) where
  -- In a dungeon in which each live imp is in exactly one place and the counters are right, a round
  -- of a worker that takes a live imp from the run queue, whose read index then is not above its write
  -- index, and whose room's driver returns `ret` and the requests of `v`, returns without a fault, the imp
  -- is in the place that `ret` and the requests ask for, and the dungeon is such a dungeon again.
  pub driver_round-Placed :
      (i : ℕ) (r : Reply) (m : Imp M) (ret : Retcode) (v : View Request) (memory : M)
      → IsHoused w
      → queue_dequeue w.run_queue ≡ some (i, r)
      → r.queue.rindex ≤ r.queue.windex
      → w.imps i ≡ some m
      → soul.fsm_driver (imp_reduct_event_mask timer event) m.requested_events m.memory
        ≡ ok (ret, some v, memory)
      → (u : Dungeon M) × (driver_round soul ctl timer event w ≡ some (ok u))
        × Placed ctl ret m.timer_fd m.event_fd v.items (record w { run_queue = r.queue }) u i
        × IsHoused u
  unfolding driver_round
  driver_round-Placed i r m ret v memory h out straight there call =
      let held = take_run w i r h out in
      let b = held.balanced in
      let (u, run, placed) =
        imp_driver-Placed soul ctl timer event (record w { run_queue = r.queue }) i m ret v memory
          there call b.run_valid straight (omega (arith, b.bounded)) b.ended_valid
          (omega (arith, b.bounded, b.ended_max)) in
      let round : driver_round soul ctl timer event w ≡ some (ok u) = ground (arith, out, run) in
      (u, round, placed, driver_round-IsHoused soul ctl timer event w u h round)
