-- ===== src/Dungeon.antt =====
-- src/dungeon.c: the set-up of the dungeon and its end.
pub mod Drain
pub mod Delete
pub mod Init
pub mod Rooms
mod Examples
use dungeon.Base.{
  ℕ, zero, suc, Bool, true, false, not, ◌||◌, Option, none, some, List, ℤ, pos, pos_part, ltb_ℤ,
  if◌then◌else◌, Run, ok, fault,
}
use dungeon.Queue.{Queue, queue_new, queue_dequeue_nb}
use dungeon.Worker.{thr_worker_create}
use dungeon.Imp.{Dungeon, imp_dismiss}
use dungeon.Maintainer.{dismiss_loop}

module _ {M : Type 0} where
  -- The first loop of `dungeon_delete`, over the run queue.
  unfoldable pub drain_run : ℕ → Dungeon M → Option (Run (Dungeon M))
  drain_run zero w = none
  drain_run (suc fuel) w =
      let (out, r) = queue_dequeue_nb w.run_queue in
      elim out [
        | none ↦ some (ok w)
        | some i ↦ elim (imp_dismiss (record w { run_queue = r.queue }) i) [
          | fault ↦ some fault
          | ok u ↦ drain_run fuel u
        ]
      ]

  -- What `dungeon_delete` does to the imps, once the threads have stopped: the loop above, and the
  -- one over the terminated queue, which is the maintainer's.
  unfoldable pub dungeon_delete_imps : ℕ → Dungeon M → Option (Run (Dungeon M))
  dungeon_delete_imps fuel w = elim (drain_run fuel w) [
    | none ↦ none
    | some fault ↦ some fault
    | some (ok u) ↦ dismiss_loop fuel u
  ]

-- What the system answers while the dungeon is set up: whether memory was given for the struct and the
-- two queues, whether the pipe and the threads could be made, what `errno` is behind a `pipe` that fails,
-- and what `malloc` left in the queues. The memory for the list of rooms is not asked for here.
pub record Setup : Type 0 where
  pub calloc : Bool
  pub pipe : Bool
  pub errno : ℕ
  pub run_memory : Bool
  pub ended_memory : Bool
  pub garbage : ℕ → ℕ
  pub epoller : Bool
  pub table : Bool
  pub isset : ℕ → Bool
  pub created : ℕ → Bool
  pub maintainer : Bool
  pub monitor : Bool

-- `dungeon_heart` behind `dungeon_init`: NULL, a struct with its two queues, or a dangling pointer.
pub data Heart : Type 0 where
  unset : Heart
  beats : (nr_max : ℤ) (run_queue terminated_queue : Option Queue) → Heart
  dangling : Heart

-- What runs behind `dungeon_init`: the worker threads, the maintainer and the monitor. The epoll thread,
-- which is started before the workers and never stopped here, has no field.
pub record Started : Type 0 where
  pub heart : Heart
  pub workers : ℤ
  pub maintainer : Bool
  pub monitor : Bool

abbrev pub idle : Heart → Started
idle h = record { heart = h; workers = pos 0; maintainer = false; monitor = false }

abbrev pub einval : ℤ
einval = pos 22

abbrev pub enomem : ℤ
enomem = pos 12

abbrev pub eagain : ℤ
eagain = pos 11

-- `rooms` is what `dungeon_add_rooms` answers.
unfoldable pub dungeon_init : Setup → (rooms : ℤ) → (nr_workers nr_imp_max : ℤ) → ℤ × Started
dungeon_init s rooms nr_workers nr_imp_max =
    let (n, binds) = thr_worker_create s.epoller s.table s.isset s.created (pos_part nr_workers) in
    let heart =
      beats nr_imp_max (queue_new s.run_memory s.garbage (pos_part nr_imp_max))
        (queue_new s.ended_memory s.garbage (pos_part nr_imp_max)) in
    if ltb_ℤ nr_workers (pos 1) || ltb_ℤ nr_imp_max (pos 1)
    then (einval, idle unset)
    else if not s.calloc
    then (enomem, idle unset)
    else if not s.pipe
    then (pos s.errno, idle dangling)
    else if ltb_ℤ n (pos 1)
    then (eagain, idle dangling)
    else if not s.maintainer
    then (eagain, record (idle dangling) { workers = n })
    else if not s.monitor
    then (eagain, record (idle dangling) { workers = n; maintainer = true })
    else if ltb_ℤ rooms (pos 1)
    then (eagain, record { heart = heart; workers = n; maintainer = true; monitor = true })
    else (pos 0, record { heart = heart; workers = n; maintainer = true; monitor = true })

-- The dungeon that the threads find: no imps yet.
abbrev pub newborn : {M : Type 0} → ℤ → Queue → Queue → ℕ → Dungeon M
newborn nr_max run ended next_id = record {
  nr_total = pos 0;
  nr_max = nr_max;
  nr_waitio = pos 0;
  run_queue = run;
  terminated_queue = ended;
  pending_event = false;
  polls = λ fd. none;
  imps = λ i. none;
  next_id = next_id;
}
