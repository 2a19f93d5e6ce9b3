-- ===== src/Imp.antt =====
-- src/imp.c, the life of an imp from its summoning to its dismissal, with the fields of `dungeon_t`
-- (dungeon.h) that it uses. An imp is its address, a number. Each function is taken as a whole, as
-- the thread that calls it runs it.
pub mod Outcomes
pub mod Place
pub mod Life
mod Examples
use dungeon.Base.{
  ℕ, zero, suc, ◌+◌, ◌%◌, ◌^◌, Bool, true, false, ◌||◌, Option, none, some, List, [], ◌∷◌, ◌==◌,
  if◌then◌else◌, ℤ, pos, minus_one, leb_ℤ, ◌+ℤ◌, Run, ok, fault,
}
use dungeon.Queue.{Queue, u32, queue_enqueue_nb, queue_enqueue_uniq_nb}
use dungeon.Llist.View.{View, append_nb}

-- The bits of an event mask, EV_MASK_KILL, _TIMER, _EVENT, _USER, _ERR and _GLOBAL_MASK.
pub record Mask : Type 0 where
  pub kill : Bool
  pub timer : Bool
  pub event : Bool
  pub user : Bool
  pub err : Bool
  pub global : Bool

-- A datum of the list `requested_events`: the two constants, or a `struct epoll_data_st`.
pub data Request : Type 0 where
  ev_timer : Request
  ev_event : Request
  io : (fd events : ℕ) → Request

pub record Imp (M : Type 0) : Type 0 where
  pub id : ℕ
  pub waitio : Bool
  pub requested_events : Option (View Request)
  pub event_mask : Mask
  pub timer_fd : ℕ
  pub event_fd : ℕ
  pub memory : M

-- `enum_driver_retcode`
pub data Retcode : Type 0 where
  to_run to_block to_term neo : Retcode

-- What a room gives (`imp_soul_t`): each call gets the imp's memory; the driver also reads the event
-- mask, and may add to the requested events.
pub record Soul (M : Type 0) : Type 0 where
  pub fsm_new : M → M
  pub fsm_driver : Mask → Option (View Request) → M → Run (Retcode × Option (View Request) × M)

-- `polls` is what the epoll instance will report: the imp for which a file descriptor is armed. An
-- address without an imp is `none`.
pub record Dungeon (M : Type 0) : Type 0 where
  pub nr_total : ℤ
  pub nr_max : ℤ
  pub nr_waitio : ℤ
  pub run_queue : Queue
  pub terminated_queue : Queue
  pub pending_event : Bool
  pub polls : ℕ → Option ℕ
  pub imps : ℕ → Option (Imp M)
  pub next_id : ℕ

abbrev pub store {ℓ} : {A : Type ℓ} → (ℕ → A) → ℕ → A → ℕ → A
store f i x j = if j == i then x else f j

abbrev pub no_event : Mask
no_event = record {
  kill = false;
  timer = false;
  event = false;
  user = false;
  err = false;
  global = false;
}

-- What `epoll_ctl` answers on EPOLL_CTL_MOD and on EPOLL_CTL_ADD.
abbrev pub Ctl : Type 0
Ctl = ℕ → Bool × Bool

unfoldable pub set_poll_action : Ctl → ℕ → ℕ → (ℕ → Option ℕ) → ℤ × (ℕ → Option ℕ)
set_poll_action ctl fd i polls =
    if (ctl fd).0 || (ctl fd).1 then (pos 0, store polls fd (some i)) else (minus_one, polls)

-- `timer` and `event` say whether the imp's two descriptors could be read; the old mask is lost.
unfoldable pub imp_reduct_event_mask : (timer event : Bool) → Mask
imp_reduct_event_mask timer event = record no_event { timer = timer; event = event }

-- The descriptor that a request is about, by those of the imp's body.
abbrev pub request_fd : (timer_fd event_fd : ℕ) → Request → ℕ
request_fd timer_fd event_fd ev_timer = timer_fd
request_fd timer_fd event_fd ev_event = event_fd
request_fd timer_fd event_fd (io fd events) = fd

-- The loop of `imp_driver` over the requested events, which takes them all out: `waitio`, what is
-- armed, and the count.
unfoldable pub arm :
    Ctl
    → ℕ
    → (timer_fd event_fd : ℕ) → List Request
    → Bool
    → (ℕ → Option ℕ)
    → ℕ
    → Bool × (ℕ → Option ℕ) × ℕ
arm ctl i t e [] waitio polls count = (waitio, polls, count)
arm ctl i t e (r ∷ rs) waitio polls count =
    arm ctl i t e rs true (set_poll_action ctl (request_fd t e r) i polls).1 (count + 1)

module _ {M : Type 0} where
  -- The result of the call on the queue is not looked at.
  unfoldable pub imp_run : Dungeon M → ℕ → Run (Dungeon M)
  imp_run w i = elim (queue_enqueue_uniq_nb w.run_queue i) [
    | fault ↦ fault
    | ok r ↦ ok (record w { run_queue = r.queue })
  ]

  unfoldable pub thr_maintainer_wakeup : Dungeon M → Dungeon M
  thr_maintainer_wakeup w = record w { pending_event = true }

  unfoldable pub imp_term : Dungeon M → ℕ → Dungeon M
  unfolding thr_maintainer_wakeup
  imp_term w i =
      thr_maintainer_wakeup
        (record w { terminated_queue = (queue_enqueue_nb w.terminated_queue i).queue })

  -- The imp, with the memory that `imp_summon` gives it at once; the blocks that `malloc` and
  -- `imp_body_new` gave, and whether `llist_new` gave a list.
  unfoldable pub imp_new :
      Dungeon M
      → (block : Option ℕ) (body : Option (ℕ × ℕ)) (list : Bool) → M
      → Option (ℕ × Imp M) × Dungeon M
  imp_new w none body list memory = (none, w)
  imp_new w (some i) none list memory = (none, record w { next_id = (w.next_id + 1) % u32 })
  imp_new w (some i) (some fds) list memory = (
    some (
      i,
      record {
        id = w.next_id;
        waitio = false;
        requested_events = if list then some (record { items = []; volume = 1000 }) else none;
        event_mask = no_event;
        timer_fd = fds.0;
        event_fd = fds.1;
        memory = memory;
      },
    ),
    record w { next_id = (w.next_id + 1) % u32 },
  )

  unfoldable pub imp_summon :
      Soul M
      → Dungeon M
      → (block : Option ℕ) (body : Option (ℕ × ℕ)) (list : Bool) → M
      → Run (Option ℕ × Dungeon M)
  imp_summon soul w block body list memory =
      if leb_ℤ w.nr_max w.nr_total
      then ok (none, w)
      else let (made, v) = imp_new w block body list memory in
        elim made [
          | none ↦ ok (none, v)
          | some p ↦
              let m = record (p.1) { memory = soul.fsm_new memory; waitio = false } in
              let u = record v {
                nr_total = v.nr_total +ℤ pos 1;
                imps = store v.imps p.0 (some m);
              } in
              elim (imp_run u p.0) [ fault ↦ fault | ok t ↦ ok (some p.0, t) ]
        ]

  -- A use of an address without an imp, or of its missing list, is a fault. The room's `fsm_delete`, which
  -- is called first with the imp's memory and no more, is not modelled.
  unfoldable pub imp_dismiss : Dungeon M → ℕ → Run (Dungeon M)
  imp_dismiss w i = elim (w.imps i) [
    | none ↦ fault
    | some m ↦ elim m.requested_events [
      | none ↦ fault
      | some _ ↦ ok (record w { imps = store w.imps i none; nr_total = w.nr_total +ℤ minus_one })
    ]
  ]

  unfoldable pub imp_kill : Dungeon M → ℕ → Run (Dungeon M)
  imp_kill w i = elim (w.imps i) [
    | none ↦ fault
    | some m ↦
        let mask = record (m.event_mask) { kill = true } in
        ok (record w { imps = store w.imps i (some (record m { event_mask = mask })) })
  ]

  unfoldable pub imp_wake : Dungeon M → ℕ → Run (Dungeon M)
  imp_wake w i = elim (w.imps i) [
    | none ↦ fault
    | some m ↦
        if m.waitio
        then imp_run
            (record w {
              imps = store w.imps i (some (record m { waitio = false }));
              nr_waitio = w.nr_waitio +ℤ minus_one;
            })
            i
        else ok w
  ]

  -- The imp at an address written.
  abbrev pub keep : Dungeon M → ℕ → Imp M → Dungeon M
  keep w i m = record w { imps = store w.imps i (some m) }

  -- The lines of `imp_driver` behind a room's driver that does not ask for the end; `put` writes the
  -- imp.
  unfoldable pub yielded : Ctl → (Imp M → Dungeon M) → ℕ → Imp M → Run (Dungeon M)
  yielded ctl put i m = elim m.requested_events [
    | none ↦ fault
    | some v ↦
        let (waitio, polls, count) =
          arm ctl i m.timer_fd m.event_fd v.items m.waitio (put m).polls 0 in
        let m' = record m { waitio = waitio; requested_events = some (record v { items = [] }) } in
        let u = record (put m') { polls = polls } in
        elim count [
          | zero ↦ imp_run u i
          | suc n ↦ ok (record u { nr_waitio = u.nr_waitio +ℤ pos 1 })
        ]
  ]

  -- The call of the room's driver.
  unfoldable pub called : Soul M → Ctl → (Imp M → Dungeon M) → ℕ → Imp M → Run (Dungeon M)
  called soul ctl put i m = elim (soul.fsm_driver m.event_mask m.requested_events m.memory) [
    | fault ↦ fault
    | ok (ret, requested, memory) ↦
        let m' = record m { requested_events = requested; memory = memory } in
        elim ret [
          | to_term ↦ ok (imp_term (put m') i)
          | to_run ↦ yielded ctl put i m'
          | to_block ↦ yielded ctl put i m'
          | neo ↦ yielded ctl put i m'
        ]
  ]

  unfoldable pub driven :
      Soul M → Ctl → (timer event : Bool) → (Imp M → Dungeon M) → ℕ → Imp M → Run (Dungeon M)
  driven soul ctl timer event put i old =
      let mask = imp_reduct_event_mask timer event in
      let m = record old { event_mask = mask } in
      if mask.kill
      then ok (imp_term (put (record m { waitio = false })) i)
      else if mask.kill || mask.global
      then ok (imp_term (put m) i)
      else called soul ctl put i m

  unfoldable pub imp_driver : Soul M → Ctl → (timer event : Bool) → Dungeon M → ℕ → Run (Dungeon M)
  imp_driver soul ctl timer event w i = elim (w.imps i) [
    | none ↦ fault
    | some m ↦ driven soul ctl timer event (keep w i) i m
  ]

-- What a room calls from its driver: `memory` says whether the list's `malloc` gives a node. A list
-- that is missing is a fault.
unfoldable pub request : Bool → Request → Option (View Request) → Run (ℤ × Option (View Request))
request memory r none = fault
request memory r (some v) = let (ret, v') = append_nb false memory r v in ok (ret, some v')

-- `info` says whether the `malloc` of the event gives a block, which the code does not check.
unfoldable pub imp_set_ioev :
    (info memory : Bool) → (fd events : ℕ) → Option (View Request) → Run (ℤ × Option (View Request))
imp_set_ioev false memory fd events v = fault
imp_set_ioev true memory fd events v = request memory (io fd events) v

unfoldable pub imp_set_timer : Bool → Option (View Request) → Run (ℤ × Option (View Request))
imp_set_timer memory v = request memory ev_timer v
