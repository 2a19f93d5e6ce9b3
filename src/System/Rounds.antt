-- ===== src/System/Rounds.antt =====
-- The places of the imps after a round of each thread and each call of a room.
use dungeon.Base.{
  ℕ, zero, suc, ◌≡◌, refl, Bool, true, false, Option, none, some, Option-cases, List, [], ◌∷◌, ok,
  Run-cases, Bool-cases, inl, inr, arith, ◌+ℤ◌, minus_one,
}
use dungeon.Queue.{queue_dequeue, queue_dequeue_nb}
use dungeon.Llist.View.{View}
use dungeon.Imp.{
  Imp, Soul, Dungeon, Ctl, Retcode, to_run, to_block, to_term, neo, Request, store, keep, imp_run,
  imp_dismiss, imp_wake, imp_term, imp_driver, driven, called, yielded, arm, imp_reduct_event_mask,
}
use dungeon.Imp.Place.{store_self, slept, asleep, yielded-asleep}
use dungeon.Worker.{imp_cancel_timer, wake_all, driver_round}
use dungeon.Maintainer.{dismiss_loop}
use dungeon.System.Housing.{sleeps, lives}
use dungeon.System.Accounts.{
  IsHoused, Holds, imp_run-IsHoused, imp_term-IsHoused, asleep-IsHoused, gone-IsHoused,
}
use dungeon.System.Taking.{Holds-store, take_run, run_live, take_ended, wake_up}

module _ {M : Type 0} (w : Dungeon M) (i : ℕ) (held : Holds w i) where
  kept : (m : Imp M) → Holds (keep w i m) i
  kept m = Holds-store w i (some m) w.polls w.next_id held

  module _ (ctl : Ctl) (m : Imp M) (awake : m.waitio ≡ false) (u : Dungeon M) where
    yielded_to :
        (v : View Request) (items : List Request)
        → v.items ≡ items
        → m.requested_events ≡ some v
        → yielded ctl (keep w i) i m ≡ ok u
        → IsHoused u
    unfolding yielded arm slept asleep
    yielded_to v [] none_asked listed run =
        let m' = record m { requested_events = some (record v { items = [] }) } in
        let runs : imp_run (keep w i m') i ≡ ok u =
          ground (arith, none_asked, listed, run, awake) in
        imp_run-IsHoused (keep w i m') u i (kept m') (store_self w.imps i (some m')) awake runs
    yielded_to v (r ∷ rs) asked listed run =
        let e : u ≡ asleep ctl w i m v listed (r ∷ rs) =
          ground (arith, run, yielded-asleep ctl w i m v listed r rs asked) in
        let m' = slept ctl w i m v listed in
        let polls = (arm ctl i m.timer_fd m.event_fd (r ∷ rs) true w.polls 0).1 in
        rw e (
          asleep-IsHoused (record (keep w i m') { polls = polls }) i
            (Holds-store w i (some m') polls w.next_id held) (store_self w.imps i (some m')) refl)

    pub yielded-IsHoused : yielded ctl (keep w i) i m ≡ ok u → IsHoused u
    unfolding yielded
    yielded-IsHoused run = elim (Option-cases m.requested_events) [
      | inl nothing ↦ absurd (ground (arith, nothing, run))
      | inr (v, listed) ↦ yielded_to v v.items refl listed run
    ]

  module _ (soul : Soul M) (ctl : Ctl) (timer event : Bool) (m : Imp M) (there : w.imps i ≡ some m)
      (awake : m.waitio ≡ false) (u : Dungeon M) where
    abbrev driven_imp : Option (View Request) → M → Imp M
    driven_imp requested memory = record m {
      event_mask = imp_reduct_event_mask timer event;
      requested_events = requested;
      memory = memory;
    }

    returned :
        (ret : Retcode) (requested : Option (View Request)) (memory : M)
        → soul.fsm_driver (imp_reduct_event_mask timer event) m.requested_events m.memory
          ≡ ok (ret, requested, memory)
        → imp_driver soul ctl timer event w i ≡ ok u
        → IsHoused u
    unfolding imp_driver driven called imp_reduct_event_mask
    returned to_term requested memory call run =
        let m' = driven_imp requested memory in
        let e : u ≡ imp_term (keep w i m') i = ground (arith, there, call, run) in
        rw e (imp_term-IsHoused (keep w i m') i (kept m') (store_self w.imps i (some m')) awake)
    returned to_run requested memory call run =
        yielded-IsHoused ctl (driven_imp requested memory) awake u
          (ground (arith, there, call, run))
    returned to_block requested memory call run =
        yielded-IsHoused ctl (driven_imp requested memory) awake u
          (ground (arith, there, call, run))
    returned neo requested memory call run =
        yielded-IsHoused ctl (driven_imp requested memory) awake u
          (ground (arith, there, call, run))

    pub imp_driver-IsHoused : imp_driver soul ctl timer event w i ≡ ok u → IsHoused u
    unfolding imp_driver driven called imp_reduct_event_mask
    imp_driver-IsHoused run =
        elim (Run-cases
          (soul.fsm_driver (imp_reduct_event_mask timer event) m.requested_events m.memory)) [
            | inl ((ret, requested, memory), call) ↦ returned ret requested memory call run
            | inr failed ↦ absurd (ground (arith, there, failed, run))
          ]

module _ {M : Type 0} where
  -- An imp in the hands of a thread that came out of a queue.
  pub live :
      (w : Dungeon M) (i : ℕ)
      → sleeps (w.imps i) ≡ false
      → lives (w.imps i) ≡ true
      → (m : Imp M) × (w.imps i ≡ some m) × (m.waitio ≡ false)
  live w i awake alive = elim (Option-cases (w.imps i)) [
    | inl nobody ↦ absurd (ground (arith, nobody, alive))
    | inr (m, there) ↦ (m, there, ground (arith, there, awake))
  ]

  pub driver_round-IsHoused :
      (soul : Soul M) (ctl : Ctl) (timer event : Bool) (w u : Dungeon M)
      → IsHoused w
      → driver_round soul ctl timer event w ≡ some (ok u)
      → IsHoused u
  unfolding driver_round
  driver_round-IsHoused soul ctl timer event w u h run =
      elim (Option-cases (queue_dequeue w.run_queue)) [
        | inl empty ↦ absurd (ground (arith, empty, run))
        | inr ((i, r), out) ↦
            let (awake, alive) = run_live w i r h out in
            let (m, there, resting) = live w i awake alive in
            imp_driver-IsHoused (record w { run_queue = r.queue }) i (take_run w i r h out) soul ctl
              timer event m there resting u (ground (arith, out, run))
      ]

  pub imp_wake-IsHoused : (w u : Dungeon M) (i : ℕ) → IsHoused w → imp_wake w i ≡ ok u → IsHoused u
  unfolding imp_wake
  imp_wake-IsHoused w u i h run = elim (Option-cases (w.imps i)) [
    | inl nobody ↦ absurd (ground (arith, nobody, run))
    | inr (m, there) ↦ elim (Bool-cases m.waitio) [
      | inl waits ↦
          let m' = record m { waitio = false } in
          let v = record w { nr_waitio = w.nr_waitio +ℤ minus_one } in
          imp_run-IsHoused (keep v i m') u i
            (Holds-store v i (some m') v.polls v.next_id (wake_up w i h there waits))
            (store_self w.imps i (some m')) refl (ground (arith, there, waits, run))
      | inr awake ↦ let same : u ≡ w = ground (arith, there, awake, run) in rw same h
    ]
  ]

  pub wake_all-IsHoused :
      (w u : Dungeon M) (is : List ℕ) → IsHoused w → wake_all w is ≡ ok u → IsHoused u
  unfolding wake_all imp_cancel_timer
  wake_all-IsHoused w u [] h run = let same : u ≡ w = ground (arith, run) in rw same h
  wake_all-IsHoused w u (i ∷ is) h run = elim (Option-cases (w.imps i)) [
    | inl nobody ↦ absurd (ground (arith, nobody, run))
    | inr (m, there) ↦ elim (Run-cases (imp_wake w i)) [
      | inl (v, woken) ↦
          wake_all-IsHoused v u is (imp_wake-IsHoused w v i h woken)
            (ground (arith, there, woken, run))
      | inr failed ↦ absurd (ground (arith, there, failed, run))
    ]
  ]

  pub dismiss_loop-IsHoused :
      (fuel : ℕ) (w u : Dungeon M) → IsHoused w → dismiss_loop fuel w ≡ some (ok u) → IsHoused u
  unfolding dismiss_loop imp_dismiss
  dismiss_loop-IsHoused zero w u h run = absurd (cc)
  dismiss_loop-IsHoused (suc fuel) w u h run =
      elim (Option-cases (queue_dequeue_nb w.terminated_queue).0) [
        | inl empty ↦ let same : u ≡ w = ground (arith, empty, run) in rw same h
        | inr (i, out) ↦
            let q = (queue_dequeue_nb w.terminated_queue).1.queue in
            let v = record w { terminated_queue = q; imps = store w.imps i none } in
            let held : Holds v i =
              Holds-store (record w { terminated_queue = q }) i none w.polls w.next_id
                (take_ended w i h out) in
            elim (Run-cases (imp_dismiss (record w { terminated_queue = q }) i)) [
              | inl (x, done) ↦
                  let e : x ≡ record v { nr_total = w.nr_total +ℤ minus_one } =
                    ground (arith, done) in
                  dismiss_loop-IsHoused fuel x u
                    (rw e (gone-IsHoused v i held (store_self w.imps i none)))
                    (ground (arith, out, done, run))
              | inr failed ↦ absurd (ground (arith, out, failed, run))
            ]
      ]
