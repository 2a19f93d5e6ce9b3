-- ===== src/System/Safety.antt =====
-- The places and the counters over any run of the threads of the dungeon.
use dungeon.Base.{
  ℕ, ◌+◌, ◌%◌, ◌≡◌, refl, Bool, true, false, Option, none, some, Option-cases, [], ok, Run-cases,
  Bool-cases, inl, inr, if◌then◌else◌, leb_ℤ, arith, pos, ◌+ℤ◌,
}
use dungeon.Queue.{u32}
use dungeon.Queue.Window.{contents}
use dungeon.Imp.{Imp, Soul, Dungeon, store, keep, imp_run, no_event, imp_new, imp_summon, imp_kill}
use dungeon.Imp.Place.{store_self}
use dungeon.Worker.{epoller_round}
use dungeon.System.Housing.{Houses}
use dungeon.System.Accounts.{IsHoused, imp_run-IsHoused}
use dungeon.System.Taking.{Holds-store, make}
use dungeon.System.Rounds.{driver_round-IsHoused, wake_all-IsHoused, dismiss_loop-IsHoused}
use dungeon.System.{Fresh, Step, drive, poll, collect, resume, summon, kill, Reach, here, later}

module _ {M : Type 0} where
  -- The invariant reads only the queues, the counters and the imps.
  unread :
      (w : Dungeon M) (imps : ℕ → Option (Imp M)) (pending : Bool) (n : ℕ) (h : IsHoused w)
      → Houses imps (contents w.run_queue) (contents w.terminated_queue) h.asleep
      → IsHoused (record w { imps = imps; pending_event = pending; next_id = n })
  unread w imps pending n h houses =
      let b = h.balanced in
      record {
        asleep = h.asleep;
        balanced = record {
          run_valid = b.run_valid;
          ended_valid = b.ended_valid;
          run_max = b.run_max;
          ended_max = b.ended_max;
          nr_waitio = b.nr_waitio;
          nr_total = b.nr_total;
          bounded = b.bounded;
        };
        houses = houses;
      }

  kill-IsHoused : (w u : Dungeon M) (i : ℕ) → IsHoused w → imp_kill w i ≡ ok u → IsHoused u
  unfolding imp_kill
  kill-IsHoused w u i h run = elim (Option-cases (w.imps i)) [
    | inl nobody ↦ absurd (ground (arith, nobody, run))
    | inr (m, there) ↦
        let m' = record m { event_mask = record (m.event_mask) { kill = true } } in
        let e : u ≡ keep w i m' = ground (arith, there, run) in
        rw e (
          unread w (store w.imps i (some m')) w.pending_event w.next_id h (record {
            distinct_run = h.houses.distinct_run;
            distinct_ended = h.houses.distinct_ended;
            distinct_asleep = h.houses.distinct_asleep;
            placed = λ j. ground (arith, h.houses.placed j, there);
          }))
  ]

  module _ (soul : Soul M) (list : Bool) (memory : M) (answer : Option ℕ) (w u : Dungeon M)
      (h : IsHoused w) where
    summon_full :
        (block : Option ℕ) (body : Option (ℕ × ℕ))
        → leb_ℤ w.nr_max w.nr_total ≡ true
        → imp_summon soul w block body list memory ≡ ok (answer, u)
        → IsHoused u
    unfolding imp_summon
    summon_full block body full run = let same : u ≡ w = ground (arith, full, run) in rw same h

    summon_made :
        (i timer_fd event_fd : ℕ)
        → w.imps i ≡ none
        → leb_ℤ w.nr_max w.nr_total ≡ false
        → imp_summon soul w (some i) (some (timer_fd, event_fd)) list memory ≡ ok (answer, u)
        → IsHoused u
    unfolding imp_summon imp_new
    summon_made i timer_fd event_fd unused room run =
        let m : Imp M = record {
          id = w.next_id;
          waitio = false;
          requested_events = if list then some (record { items = []; volume = 1000 }) else none;
          event_mask = no_event;
          timer_fd = timer_fd;
          event_fd = event_fd;
          memory = soul.fsm_new memory;
        } in
        let v = record w { nr_total = w.nr_total +ℤ pos 1; next_id = (w.next_id + 1) % u32 } in
        let x = record v { imps = store w.imps i (some m) } in
        elim (Run-cases (imp_run x i)) [
          | inl (y, runs) ↦
              let same : u ≡ y = ground (arith, room, runs, run) in
              let held = make w i h unused room in
              rw same (
                imp_run-IsHoused x y i
                  (Holds-store (record w { nr_total = w.nr_total +ℤ pos 1 }) i (some m) w.polls
                    v.next_id held)
                  (store_self w.imps i (some m)) refl runs)
          | inr failed ↦ absurd (ground (arith, room, failed, run))
        ]

    summon-IsHoused :
        (block : Option ℕ) (body : Option (ℕ × ℕ))
        → Fresh w block
        → leb_ℤ w.nr_max w.nr_total ≡ false
        → imp_summon soul w block body list memory ≡ ok (answer, u)
        → IsHoused u
    unfolding imp_summon imp_new
    summon-IsHoused none body fresh room run =
        let same : u ≡ w = ground (arith, room, run) in rw same h
    summon-IsHoused (some i) none fresh room run =
        let same : u ≡ record w { next_id = (w.next_id + 1) % u32 } = ground (arith, room, run) in
        rw same (unread w w.imps w.pending_event ((w.next_id + 1) % u32) h h.houses)
    summon-IsHoused (some i) (some (t, e)) fresh room run = summon_made i t e fresh room run

  Step-IsHoused : {w u : Dungeon M} → IsHoused w → Step w u → IsHoused u
  unfolding epoller_round
  Step-IsHoused h (drive soul ctl timer event run) =
      driver_round-IsHoused soul ctl timer event _ _ h run
  Step-IsHoused {w} {u} h (poll none run) = let same : u ≡ w = ground (arith, run) in rw same h
  Step-IsHoused h (poll (some is) run) = wake_all-IsHoused _ _ is h run
  Step-IsHoused h (collect fuel run) = dismiss_loop-IsHoused fuel _ _ h run
  Step-IsHoused h (resume w told) = unread w w.imps false w.next_id h h.houses
  Step-IsHoused {w} {u} h (summon soul block body list memory answer fresh run) =
      elim (Bool-cases (leb_ℤ w.nr_max w.nr_total)) [
        | inl full ↦ summon_full soul list memory answer w u h block body full run
        | inr room ↦ summon-IsHoused soul list memory answer w u h block body fresh room run
      ]
  Step-IsHoused h (kill i run) = kill-IsHoused _ _ i h run

  -- From a dungeon in which each live imp is in exactly one place (the run queue, the terminated
  -- queue, or asleep, as its `waitio` says), no dismissed imp is in any, no queue holds an imp twice,
  -- and `nr_total` and `nr_waitio` count right and within the queues' room, every run of rounds of
  -- the worker, epoll and maintainer threads, of summons and of kills, of which none faults, leads
  -- to such a dungeon.
  pub Reach-IsHoused : {w u : Dungeon M} → IsHoused w → Reach w u → IsHoused u
  Reach-IsHoused h here = h
  Reach-IsHoused h (later r s) = Step-IsHoused (Reach-IsHoused h r) s
