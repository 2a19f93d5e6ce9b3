-- ===== src/Imp/Examples.antt =====
-- Runs of the imps of imp.c, with a room whose memory is a number.
use dungeon.Base.{
  ℕ, ◌+◌, ◌≡◌, refl, true, false, none, some, [], ◌∷◌, pos, ok, fault, ◌==◌, if◌then◌else◌,
}
use dungeon.Queue.{Queue, next, put, queue_enqueue_uniq_nb, scan, scan_all}
use dungeon.Llist.View.{View, append_nb}
use dungeon.Imp.{
  Imp, Soul, Dungeon, Ctl, Request, to_block, io, ev_timer, no_event, imp_summon, imp_run, imp_new,
  imp_kill, imp_wake, imp_dismiss, imp_driver, imp_set_timer, request, store,
}
use dungeon.Imp.Place.{imp_driver_stranded}
use dungeon.Imp.Life.{imp_driver-imp_kill}

abbrev no_queue : Queue
no_queue = record {
  max = 3;
  nr = 0;
  en_count = 0;
  de_count = 0;
  rindex = 0;
  windex = 0;
  bucket = λ i. 0;
}

abbrev asking : View Request
asking = record { items = io 9 1 ∷ []; volume = 1000 }

-- An imp that sleeps, at the address 8.
abbrev sleeper : Imp ℕ
sleeper = record {
  id = 1;
  waitio = true;
  requested_events = some (record { items = []; volume = 1000 });
  event_mask = no_event;
  timer_fd = 4;
  event_fd = 5;
  memory = 0;
}

abbrev one : Dungeon ℕ
one = record {
  nr_total = pos 1;
  nr_max = pos 3;
  nr_waitio = pos 1;
  run_queue = no_queue;
  terminated_queue = no_queue;
  pending_event = false;
  polls = λ fd. none;
  imps = store (λ p. none) 8 (some sleeper);
  next_id = 2;
}

-- A room that counts its rounds and asks for the descriptor 9 in each.
abbrev counting : Soul ℕ
counting = record { fsm_new = λ n. 0; fsm_driver = λ mask v n. ok (to_block, some asking, n + 1) }

abbrev taking : Ctl
taking fd = (false, true)

abbrev refusing : Ctl
refusing fd = (false, false)

dismiss_unknown : imp_dismiss one 7 ≡ fault
unfolding imp_dismiss
dismiss_unknown = refl

timer_asked :
    imp_set_timer true (some asking)
    ≡ ok (pos 0, some (record asking { items = io 9 1 ∷ ev_timer ∷ [] }))
unfolding imp_set_timer request append_nb
timer_asked = refl

imp_driver_stranded_example :
    (u : Dungeon ℕ) × (x : Imp ℕ) × (imp_driver counting refusing false false one 8 ≡ ok u)
    × (u.imps 8 ≡ some x)
    × (x.waitio ≡ true)
    × (u.polls ≡ one.polls)
    × (u.run_queue ≡ no_queue)
    × (u.terminated_queue ≡ no_queue)
imp_driver_stranded_example =
    imp_driver_stranded counting refusing false false one 8 sleeper asking (io 9 1) [] 1 refl refl
      refl (λ fd. refl)

-- The sleeper with the flag that `imp_kill` sets.
abbrev flagged : Dungeon ℕ
flagged = record one {
  imps = store one.imps 8 (some (record sleeper { event_mask = record no_event { kill = true } }));
}

imp_driver-imp_kill_example :
    imp_driver counting taking false false flagged 8 ≡ imp_driver counting taking false false one 8
unfolding imp_kill
imp_driver-imp_kill_example = imp_driver-imp_kill counting taking false false one flagged 8 refl

-- The sleeper woken.
abbrev woken : Dungeon ℕ
woken = record one {
  nr_waitio = pos 0;
  run_queue = record no_queue {
    nr = 1;
    en_count = 1;
    windex = 1;
    bucket = λ j. if j == 0 then 8 else 0;
  };
  imps = store one.imps 8 (some (record sleeper { waitio = false }));
}

wakes : imp_wake one 8 ≡ ok woken
unfolding imp_wake imp_run queue_enqueue_uniq_nb scan_all scan put next
wakes = refl

-- A second imp, at the address 9.
abbrev summoned : Dungeon ℕ
summoned = record one {
  nr_total = pos 2;
  run_queue = record no_queue {
    nr = 1;
    en_count = 1;
    windex = 1;
    bucket = λ j. if j == 0 then 9 else 0;
  };
  imps = store one.imps 9 (
      some (record {
        id = 2;
        waitio = false;
        requested_events = some (record { items = []; volume = 1000 });
        event_mask = no_event;
        timer_fd = 6;
        event_fd = 7;
        memory = 0;
      }));
  next_id = 3;
}

summons : imp_summon counting one (some 9) (some (6, 7)) true 5 ≡ ok (some 9, summoned)
unfolding imp_summon imp_new imp_run queue_enqueue_uniq_nb scan_all scan put next
summons = refl
