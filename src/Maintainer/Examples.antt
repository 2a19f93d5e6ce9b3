-- ===== src/Maintainer/Examples.antt =====
-- A run of the maintainer on one imp that ended.
use dungeon.Base.{ℕ, ◌≡◌, refl, false, none, some, [], ◌∷◌, has, if◌then◌else◌, arith, pos, ok}
use dungeon.Queue.{Queue}
use dungeon.Queue.Window.{contents, IsValid, window}
use dungeon.Imp.{Imp, Dungeon, no_event, store}
use dungeon.Maintainer.{dismiss_loop, maintain}
use dungeon.Maintainer.Collect.{dismiss_loop-gone}

-- The address 8 in the first cell of three.
abbrev holding : Queue
holding = record {
  max = 3;
  nr = 1;
  en_count = 1;
  de_count = 0;
  rindex = 0;
  windex = 1;
  bucket = λ i. 8;
}

holding-IsValid : IsValid holding
holding-IsValid = record {
  small = omega arith;
  inside = omega arith;
  filled = omega arith;
  placed = refl;
}

abbrev finished : Imp ℕ
finished = record {
  id = 1;
  waitio = false;
  requested_events = some (record { items = []; volume = 1000 });
  event_mask = no_event;
  timer_fd = 4;
  event_fd = 5;
  memory = 0;
}

abbrev dungeon_of_one : Dungeon ℕ
dungeon_of_one = record {
  nr_total = pos 1;
  nr_max = pos 3;
  nr_waitio = pos 0;
  run_queue = record holding { nr = 0; windex = 0 };
  terminated_queue = holding;
  pending_event = false;
  polls = λ fd. none;
  imps = store (λ p. none) 8 (some finished);
  next_id = 2;
}

no_fuel : maintain 0 dungeon_of_one ≡ none
unfolding maintain dismiss_loop
no_fuel = refl

dismiss_loop-gone_example :
    (u : Dungeon ℕ) × (dismiss_loop 2 dungeon_of_one ≡ some (ok u))
    × IsValid u.terminated_queue
    × (contents u.terminated_queue ≡ [])
    × ((p : ℕ) → u.imps p ≡ (if has p (8 ∷ []) then none else dungeon_of_one.imps p))
    × (u.nr_total ≡ pos 0)
    × (u.run_queue ≡ dungeon_of_one.run_queue)
unfolding window
dismiss_loop-gone_example =
    dismiss_loop-gone 2 dungeon_of_one (8 ∷ []) holding-IsValid refl (refl, tt)
      ((finished, record { items = []; volume = 1000 }, refl, refl), tt) (omega arith)
