-- ===== src/Worker.antt =====
-- src/thr_worker.c, the threads that drive imps and the thread that wakes them. A thread's loop is
-- taken round by round; the signal masks, the priorities and `worker_quit` are not modelled.
pub mod Binding
mod Examples
use dungeon.Base.{
  ℕ, zero, suc, ◌+◌, ◌-◌, Bool, false, ◌&&◌, ◌==◌, ltb, if◌then◌else◌, Option, none, some, List, [],
  ◌∷◌, ℤ, pos, minus_one, Run, ok, fault, ◌>>=◌,
}
use dungeon.Queue.{queue_dequeue}
use dungeon.Imp.{Soul, Dungeon, Ctl, imp_driver, imp_wake}

module _ {M : Type 0} where
  -- The imp's timer is the kernel's: the call only needs the imp.
  unfoldable pub imp_cancel_timer : Dungeon M → ℕ → Run (Dungeon M)
  imp_cancel_timer w i = elim (w.imps i) [ none ↦ fault | some m ↦ ok w ]

  -- The loop of `thr_epoller` over the imps that `epoll_wait` reports.
  unfoldable pub wake_all : Dungeon M → List ℕ → Run (Dungeon M)
  wake_all w [] = ok w
  wake_all w (i ∷ is) = do u ← imp_cancel_timer w i; v ← imp_wake u i; wake_all v is

  -- A round of `thr_epoller`; `none` is an `epoll_wait` that failed.
  unfoldable pub epoller_round : Option (List ℕ) → Dungeon M → Run (Dungeon M)
  epoller_round none w = ok w
  epoller_round (some is) w = wake_all w is

  -- A round of `thr_driver`; `none` is a thread that sleeps on an empty run queue.
  unfoldable pub driver_round :
      Soul M → Ctl → (timer event : Bool) → Dungeon M → Option (Run (Dungeon M))
  driver_round soul ctl timer event w = elim (queue_dequeue w.run_queue) [
    | none ↦ none
    | some p ↦ some (imp_driver soul ctl timer event (record w { run_queue = p.1.queue }) p.0)
  ]

abbrev pub cpu_setsize : ℕ
cpu_setsize = 1024

-- `for (;c<CPU_SETSIZE && !CPU_ISSET(c, set);++c);` with `k` indices left
unfoldable pub skip_unset : (ℕ → Bool) → ℕ → ℕ → ℕ
skip_unset isset zero c = c
skip_unset isset (suc k) c = let rest = skip_unset isset k (c + 1) in if isset c then c else rest

-- The first loop of `thr_worker_create` from the index `c`: the `cpubind` of each of `n` workers,
-- `none` where the code leaves it unset. `CPU_ISSET` past the set is false.
unfoldable pub bind_cpus : (ℕ → Bool) → ℕ → ℕ → List (Option ℕ)
unfolding skip_unset
bind_cpus isset zero c = []
bind_cpus isset (suc n) c =
    let d = skip_unset isset (cpu_setsize - c) c in
    (if ltb d cpu_setsize && isset d then some d else none)
    ∷ bind_cpus isset n (if d + 1 == cpu_setsize then cpu_setsize - 1 else d + 1)

-- The second loop, which ends with the first worker that cannot be created: `num_thr`.
unfoldable pub create_workers : (ℕ → Bool) → ℕ → ℕ → ℕ
create_workers created zero i = i
create_workers created (suc n) i =
    let rest = create_workers created n (i + 1) in if created i then rest else i

-- Whether the epoll thread could be created, whether `malloc` gave the table, the CPUs of the process,
-- and which workers can be created. The second part is the table's `cpubind`.
unfoldable pub thr_worker_create :
    (epoller memory : Bool) (isset created : ℕ → Bool) → ℕ → ℤ × List (Option ℕ)
unfolding bind_cpus create_workers
thr_worker_create epoller memory isset created num =
    if epoller && memory
    then (pos (create_workers created num 0), bind_cpus isset num 0)
    else (minus_one, [])
