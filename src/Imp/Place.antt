-- ===== src/Imp/Place.antt =====
-- Where `imp_driver` leaves the imp: in the terminated queue, in the run queue, or waiting.
use dungeon.Base.{
  ℕ, ◌≤◌, ◌<◌, ◌≡◌, refl, ◌∙◌, Bool, true, false, Option, some, List, [], ◌∷◌, has, if◌then◌else◌,
  pos, ◌+ℤ◌, ok, arith,
}
use dungeon.Queue.{put, queue_enqueue_nb}
use dungeon.Queue.Window.{contents, IsValid}
use dungeon.Queue.Fifo.{put-contents}
use dungeon.Queue.Uniq.{queue_enqueue_uniq_nb-straight}
use dungeon.Llist.View.{View}
use dungeon.Imp.{
  Imp, Soul, Dungeon, Ctl, Retcode, to_run, to_block, to_term, neo, Request, store, imp_run,
  imp_term, imp_driver, driven, called, yielded, keep, arm, thr_maintainer_wakeup,
  imp_reduct_event_mask, set_poll_action, request_fd,
}
use dungeon.Imp.Outcomes.{Ended, Ready, Waits, Yielded, arm_count, arm_failed, arm_waits}

module _ {M : Type 0} where
  pub store_self : (f : ℕ → Option (Imp M)) (i : ℕ) (x : Option (Imp M)) → store f i x i ≡ x
  store_self f i x = ground arith

  ended :
      (w : Dungeon M) (i : ℕ) (m : Imp M)
      → w.terminated_queue.nr < w.terminated_queue.max
      → IsValid w.terminated_queue
      → Ended w (imp_term (keep w i m) i) i
  unfolding imp_term thr_maintainer_wakeup queue_enqueue_nb
  ended w i m room valid = record {
    queued = ground (arith, put-contents valid i room);
    told = refl;
    run_queue = refl;
    nr_waitio = refl;
  }

  module _ (ctl : Ctl) (w : Dungeon M) (i : ℕ) (m : Imp M) (v : View Request)
      (listed : m.requested_events ≡ some v) where
    unfoldable pub slept : Imp M
    slept = record m { waitio = true; requested_events = some (record v { items = [] }) }

    unfoldable pub asleep : List Request → Dungeon M
    asleep rs = record (keep w i slept) {
      polls = (arm ctl i m.timer_fd m.event_fd rs true w.polls 0).1;
      nr_waitio = w.nr_waitio +ℤ pos 1;
    }

    pub yielded-asleep :
        (r : Request) (rs : List Request)
        → v.items ≡ r ∷ rs
        → yielded ctl (keep w i) i m ≡ ok (asleep (r ∷ rs))
    unfolding yielded arm asleep slept
    yielded-asleep r rs e =
        let armed = (set_poll_action ctl (request_fd m.timer_fd m.event_fd r) i w.polls).1 in
        ground (
          arith,
          listed,
          e,
          arm_count ctl i m.timer_fd m.event_fd rs true armed 1,
          arm_waits ctl i m.timer_fd m.event_fd rs armed 1,
        )

    waits :
        (r : Request) (rs : List Request)
        → v.items ≡ r ∷ rs
        → (u : Dungeon M) × (yielded ctl (keep w i) i m ≡ ok u)
          × Waits ctl m.timer_fd m.event_fd (r ∷ rs) w u i
    unfolding arm asleep slept
    waits r rs e = (
      asleep (r ∷ rs),
      yielded-asleep r rs e,
      record {
        imp = slept;
        stored = store_self w.imps i (some slept);
        waitio = refl;
        served = (record v { items = [] }, refl, refl);
        polls = refl;
        run_queue = refl;
        terminated_queue = refl;
        nr_waitio = refl;
      },
    )

    restarted : Dungeon M
    restarted = record (keep w i (record m { requested_events = some (record v { items = [] }) })) {
      run_queue = if has i (contents w.run_queue) then w.run_queue else put w.run_queue i;
    }

    ready :
        v.items ≡ []
        → IsValid w.run_queue
        → w.run_queue.rindex ≤ w.run_queue.windex
        → w.run_queue.nr < w.run_queue.max
        → (u : Dungeon M) × (yielded ctl (keep w i) i m ≡ ok u) × Ready w u i
    unfolding yielded imp_run arm restarted
    ready e valid straight room = (
      restarted,
      ground (arith, listed, e, queue_enqueue_uniq_nb-straight valid i straight),
      record {
        queued = ground (arith, put-contents valid i room);
        terminated_queue = refl;
        nr_waitio = refl;
      },
    )

    yielded-Yielded :
        (rs : List Request)
        → v.items ≡ rs
        → IsValid w.run_queue
        → w.run_queue.rindex ≤ w.run_queue.windex
        → w.run_queue.nr < w.run_queue.max
        → (u : Dungeon M) × (yielded ctl (keep w i) i m ≡ ok u)
          × Yielded ctl m.timer_fd m.event_fd rs w u i
    yielded-Yielded [] e valid straight room = ready e valid straight room
    yielded-Yielded (r ∷ rs) e valid straight room = waits r rs e

  abbrev pub Placed :
      Ctl → Retcode → (timer_fd event_fd : ℕ) → List Request → Dungeon M → Dungeon M → ℕ → Type 0
  Placed ctl to_term t e rs w u i = Ended w u i
  Placed ctl to_run t e rs w u i = Yielded ctl t e rs w u i
  Placed ctl to_block t e rs w u i = Yielded ctl t e rs w u i
  Placed ctl neo t e rs w u i = Yielded ctl t e rs w u i

  module _ (soul : Soul M) (ctl : Ctl) (timer event : Bool) (w : Dungeon M) (i : ℕ)
      (m : Imp M) where
    abbrev at_yield : View Request → M → Imp M
    at_yield v memory = record m {
      event_mask = imp_reduct_event_mask timer event;
      requested_events = some v;
      memory = memory;
    }

    called_at :
        (ret : Retcode) (v : View Request) (memory : M)
        → w.imps i ≡ some m
        → soul.fsm_driver (imp_reduct_event_mask timer event) m.requested_events m.memory
          ≡ ok (ret, some v, memory)
        → let m' = at_yield v memory in
          imp_driver soul ctl timer event w i ≡ (elim ret [
            | to_term ↦ ok (imp_term (keep w i m') i)
            | to_run ↦ yielded ctl (keep w i) i m'
            | to_block ↦ yielded ctl (keep w i) i m'
            | neo ↦ yielded ctl (keep w i) i m'
          ])
    unfolding imp_driver driven called imp_reduct_event_mask
    called_at ret v memory there call = ground (arith, there, call)

    -- A round of a live imp whose list of requests is there and whose room's driver returns `ret` and
    -- the requests of `v`, with valid queues that have room and a run queue whose read index is not
    -- above its write index, returns. Asked to end, the imp is behind the others in the terminated
    -- queue and the maintainer is told; with requests, it waits, every request was handed to the epoll
    -- instance, and one imp more is counted as waiting; without, it is in the run queue, appended only
    -- if it was not there.
    pub imp_driver-Placed :
        (ret : Retcode) (v : View Request) (memory : M)
        → w.imps i ≡ some m
        → soul.fsm_driver (imp_reduct_event_mask timer event) m.requested_events m.memory
          ≡ ok (ret, some v, memory)
        → IsValid w.run_queue
        → w.run_queue.rindex ≤ w.run_queue.windex
        → w.run_queue.nr < w.run_queue.max
        → IsValid w.terminated_queue
        → w.terminated_queue.nr < w.terminated_queue.max
        → (u : Dungeon M) × (imp_driver soul ctl timer event w i ≡ ok u)
          × Placed ctl ret m.timer_fd m.event_fd v.items w u i
    imp_driver-Placed to_term v memory there call valid straight room valid_term room_term =
        let m' = at_yield v memory in
        (
          imp_term (keep w i m') i,
          called_at to_term v memory there call,
          ended w i m' room_term valid_term,
        )
    imp_driver-Placed to_run v memory there call valid straight room valid_term room_term =
        let (u, run, placed) =
          yielded-Yielded ctl w i (at_yield v memory) v refl v.items refl valid straight room in
        (u, called_at to_run v memory there call ∙ run, placed)
    imp_driver-Placed to_block v memory there call valid straight room valid_term room_term =
        let (u, run, placed) =
          yielded-Yielded ctl w i (at_yield v memory) v refl v.items refl valid straight room in
        (u, called_at to_block v memory there call ∙ run, placed)
    imp_driver-Placed neo v memory there call valid straight room valid_term room_term =
        let (u, run, placed) =
          yielded-Yielded ctl w i (at_yield v memory) v refl v.items refl valid straight room in
        (u, called_at neo v memory there call ∙ run, placed)

    -- If the epoll instance takes no descriptor, a round of a live imp whose driver blocks with at
    -- least one request returns with the imp waiting, though nothing is armed for it that was not
    -- before, and both queues are unchanged.
    pub imp_driver_stranded :
        (v : View Request) (r : Request) (rs : List Request) (memory : M)
        → w.imps i ≡ some m
        → soul.fsm_driver (imp_reduct_event_mask timer event) m.requested_events m.memory
          ≡ ok (to_block, some v, memory)
        → v.items ≡ r ∷ rs
        → ((fd : ℕ) → ctl fd ≡ (false, false))
        → (u : Dungeon M) × (x : Imp M) × (imp_driver soul ctl timer event w i ≡ ok u)
          × (u.imps i ≡ some x)
          × (x.waitio ≡ true)
          × (u.polls ≡ w.polls)
          × (u.run_queue ≡ w.run_queue)
          × (u.terminated_queue ≡ w.terminated_queue)
    imp_driver_stranded v r rs memory there call listed failing =
        let (u, run, p) = waits ctl w i (at_yield v memory) v refl r rs listed in
        (
          u,
          p.imp,
          called_at to_block v memory there call ∙ run,
          p.stored,
          p.waitio,
          p.polls ∙ arm_failed ctl i m.timer_fd m.event_fd failing (r ∷ rs) true w.polls 0,
          p.run_queue,
          p.terminated_queue,
        )
