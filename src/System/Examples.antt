-- ===== src/System/Examples.antt =====
-- A run of the dungeon: an imp that sleeps is woken, and a worker takes it.
use dungeon.Base.{
  ℕ, ◌+◌, ◌≡◌, refl, true, false, none, some, [], ◌∷◌, arith, pos, ok, ◌==◌, if◌then◌else◌,
}
use dungeon.Queue.{
  Queue, Reply, cond_eq, next, put, take, queue_dequeue, queue_enqueue_uniq_nb, scan, scan_all,
}
use dungeon.Queue.Window.{IsValid, window}
use dungeon.Llist.View.{View}
use dungeon.Imp.{Imp, Soul, Dungeon, Ctl, Request, to_block, io, no_event, imp_run, imp_wake, store}
use dungeon.Imp.Place.{Placed}
use dungeon.Worker.{imp_cancel_timer, wake_all, epoller_round, driver_round}
use dungeon.System.{here, later, poll}
use dungeon.System.Accounts.{IsHoused}
use dungeon.System.Safety.{Reach-IsHoused}
use dungeon.System.Progress.{driver_round-Placed}

abbrev no_imps : Queue
no_imps = record {
  max = 3;
  nr = 0;
  en_count = 0;
  de_count = 0;
  rindex = 0;
  windex = 0;
  bucket = λ i. 0;
}

no_imps-IsValid : IsValid no_imps
no_imps-IsValid = record {
  small = omega arith;
  inside = omega arith;
  filled = omega arith;
  placed = refl;
}

abbrev dreamer : Imp ℕ
dreamer = record {
  id = 1;
  waitio = true;
  requested_events = some (record { items = []; volume = 1000 });
  event_mask = no_event;
  timer_fd = 4;
  event_fd = 5;
  memory = 0;
}

-- One imp, at the address 8, sleeps.
abbrev quiet : Dungeon ℕ
quiet = record {
  nr_total = pos 1;
  nr_max = pos 3;
  nr_waitio = pos 1;
  run_queue = no_imps;
  terminated_queue = no_imps;
  pending_event = false;
  polls = λ fd. none;
  imps = store (λ p. none) 8 (some dreamer);
  next_id = 2;
}

quiet-IsHoused : IsHoused quiet
unfolding window
quiet-IsHoused = record {
  asleep = 8 ∷ [];
  balanced = record {
    run_valid = no_imps-IsValid;
    ended_valid = no_imps-IsValid;
    run_max = refl;
    ended_max = refl;
    nr_waitio = refl;
    nr_total = refl;
    bounded = omega arith;
  };
  houses = record {
    distinct_run = tt;
    distinct_ended = tt;
    distinct_asleep = (refl, tt);
    placed = λ j. ground arith;
  };
}

-- The imp in the run queue.
abbrev stirred : Dungeon ℕ
stirred = record quiet {
  nr_waitio = pos 0;
  run_queue = record no_imps {
    nr = 1;
    en_count = 1;
    windex = 1;
    bucket = λ j. if j == 0 then 8 else 0;
  };
  imps = store quiet.imps 8 (some (record dreamer { waitio = false }));
}

stirs : epoller_round (some (8 ∷ [])) quiet ≡ ok stirred
unfolding epoller_round wake_all imp_cancel_timer imp_wake imp_run queue_enqueue_uniq_nb scan_all
    scan put next
stirs = refl

Reach-IsHoused_example : IsHoused stirred
Reach-IsHoused_example = Reach-IsHoused quiet-IsHoused (later here (poll (some (8 ∷ [])) stirs))

stirred-IsHoused : IsHoused stirred
stirred-IsHoused = Reach-IsHoused quiet-IsHoused (later here (poll (some (8 ∷ [])) stirs))

abbrev wanting : View Request
wanting = record { items = io 9 1 ∷ []; volume = 1000 }

abbrev asking : Soul ℕ
asking = record { fsm_new = λ n. 0; fsm_driver = λ mask v n. ok (to_block, some wanting, n + 1) }

abbrev taking : Ctl
taking fd = (false, true)

abbrev fetched : Reply
fetched = record {
  ret = pos 0;
  queue = record (stirred.run_queue) { nr = 0; rindex = 1; de_count = 1 };
  signal = some cond_eq;
}

fetches : queue_dequeue stirred.run_queue ≡ some (8, fetched)
unfolding queue_dequeue take next
fetches = refl

driver_round-Placed_example :
    (u : Dungeon ℕ) × (driver_round asking taking false false stirred ≡ some (ok u))
    × Placed taking to_block 4 5 (io 9 1 ∷ []) (record stirred { run_queue = fetched.queue }) u 8
    × IsHoused u
driver_round-Placed_example =
    driver_round-Placed asking taking false false stirred 8 fetched
      (record dreamer { waitio = false }) to_block wanting 1 stirred-IsHoused fetches (omega arith)
      refl refl
