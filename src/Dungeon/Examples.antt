-- ===== src/Dungeon/Examples.antt =====
-- The start of a dungeon, and the end of one of two imps: one is in the run queue, the other sleeps.
use Prim.Native.Nat.{Ordering}
use Prim.Native.String.{String, compare}
use dungeon.Base.{
  Bool, ◌++◌, inl, ◌<◌, ltb_ℤ, ℕ, ◌≡◌, refl, true, false, none, some, [], ◌∷◌, arith, pos, ok, ◌==◌,
  if◌then◌else◌,
}
use dungeon.Json.{Cjson, Kind, json_array, json_string, json_object}
use dungeon.Handles.{descriptor, Handler}
use dungeon.Dungeon.Rooms.{Answer, Loaded, dungeon_add_rooms}
use dungeon.Dungeon.Rooms.Loading.{IsGood, Description, opened, dungeon_add_rooms-opened}
use dungeon.Queue.{Queue}
use dungeon.Queue.Window.{window}
use dungeon.Imp.{Imp, Dungeon, no_event, store}
use dungeon.System.Housing.{sleeps}
use dungeon.System.Accounts.{IsHoused}
use dungeon.Worker.{thr_worker_create}
use dungeon.Dungeon.{Setup, beats, newborn, dungeon_init, dungeon_delete_imps}
use dungeon.Dungeon.Init.{dungeon_init-IsHoused}
use dungeon.Dungeon.Drain.{Listed}
use dungeon.Dungeon.Delete.{dungeon_delete_imps_sleepers}

abbrev nobody : Queue
nobody = record {
  max = 3;
  nr = 0;
  en_count = 0;
  de_count = 0;
  rindex = 0;
  windex = 0;
  bucket = λ i. 8;
}

abbrev runner : Imp ℕ
runner = record {
  id = 1;
  waitio = false;
  requested_events = some (record { items = []; volume = 1000 });
  event_mask = no_event;
  timer_fd = 4;
  event_fd = 5;
  memory = 0;
}

abbrev two_imps : Dungeon ℕ
two_imps = record {
  nr_total = pos 2;
  nr_max = pos 3;
  nr_waitio = pos 1;
  run_queue = record nobody { nr = 1; windex = 1 };
  terminated_queue = nobody;
  pending_event = false;
  polls = λ fd. none;
  imps = store (store (λ p. none) 8 (some runner)) 9 (some (record runner { waitio = true }));
  next_id = 3;
}

two_imps-IsHoused : IsHoused two_imps
unfolding window
two_imps-IsHoused = record {
  asleep = 9 ∷ [];
  balanced = record {
    run_valid = record {
      small = omega arith;
      inside = omega arith;
      filled = omega arith;
      placed = refl;
    };
    ended_valid = record {
      small = omega arith;
      inside = omega arith;
      filled = omega arith;
      placed = refl;
    };
    run_max = refl;
    ended_max = refl;
    nr_waitio = refl;
    nr_total = refl;
    bounded = omega arith;
  };
  houses = record {
    distinct_run = (refl, tt);
    distinct_ended = tt;
    distinct_asleep = (refl, tt);
    placed = λ j. ground arith;
  };
}

two_imps-Listed : Listed two_imps
two_imps-Listed j m there = (record { items = []; volume = 1000 }, ground (arith, there))

dungeon_delete_imps_sleepers_example :
    (u : Dungeon ℕ) × (dungeon_delete_imps 5 two_imps ≡ some (ok u))
    × (u.run_queue.nr ≡ 0)
    × (u.terminated_queue.nr ≡ 0)
    × ((j : ℕ) → u.imps j ≡ (if sleeps (two_imps.imps j) then two_imps.imps j else none))
    × (u.nr_total ≡ pos 1)
dungeon_delete_imps_sleepers_example =
    dungeon_delete_imps_sleepers 5 two_imps two_imps-IsHoused two_imps-Listed (omega arith)
      (omega arith)

-- A set-up in which everything is given.
abbrev well : Setup
well = record {
  calloc = true;
  pipe = true;
  errno = 24;
  run_memory = true;
  ended_memory = true;
  garbage = λ i. 0;
  epoller = true;
  table = true;
  isset = λ c. c == 0;
  created = λ i. true;
  maintainer = true;
  monitor = true;
}

dungeon_init-IsHoused_example :
    let started = (dungeon_init well (pos 1) (pos 1) (pos 3)).1 in
    (run : Queue) × (ended : Queue) × (started.heart ≡ beats (pos 3) (some run) (some ended))
    × (ltb_ℤ started.workers (pos 1) ≡ false)
    × (started.maintainer ≡ true)
    × (started.monitor ≡ true)
    × IsHoused {M = ℕ} (newborn (pos 3) run ended 7)
unfolding dungeon_init thr_worker_create
dungeon_init-IsHoused_example =
    dungeon_init-IsHoused well (pos 1) (pos 1) (pos 3) ℕ 3 7 refl (omega arith) (λ e. omega arith)
      refl refl refl

-- A list of two rooms, of which the second cannot be loaded.
data Doc : Type 0 where
  mods desc_value path_value conf_value : Doc

abbrev doc_kind : Doc → Kind
doc_kind mods = json_array
doc_kind path_value = json_string
doc_kind _ = json_object

abbrev same_text : String → String → Bool
same_text a b = elim (compare a b) [ Ordering.eq ↦ true | _ ↦ false ]

abbrev docs : Cjson
docs = record {
  Json = Doc;
  kind = doc_kind;
  valueint = λ j. pos 0;
  valuestring = λ j. "echo.so";
  array_size = λ j. 2;
  array_item = λ j i. some desc_value;
  object_item = λ j name. if same_text name "Path" then some path_value else some conf_value;
  create = λ es. mods;
}

abbrev answers : ℕ → Answer
answers i = record {
  dlopen = if i == 0 then some 70 else none;
  memory = some 90;
  dlsym = true;
  init = pos 0;
  node = true;
}

answers-IsGood : (i : ℕ) → IsGood (answers i)
answers-IsGood i = record { ptr = 90; memory = refl; node = refl; init = inl refl }

descriptions : (i : ℕ) → i < 2 → Description docs answers mods i
descriptions i h = record {
  mod_desc = desc_value;
  mod_path = path_value;
  mod_conf = conf_value;
  at = refl;
  has_path = refl;
  has_conf = refl;
}

abbrev no_rooms : Loaded
no_rooms = record { rooms = record { items = []; volume = 3 }; live = descriptor 3 ∷ [] }

abbrev echo_room : Handler
echo_room = record { ptr = 90; mod_handler = 70 }

dungeon_add_rooms-opened_example :
    (w' : Loaded) × (dungeon_add_rooms docs answers (some mods) no_rooms ≡ some (ok (1, w')))
    × (w'.rooms.items ≡ [] ++ echo_room ∷ [])
    × (w'.live ≡ opened (echo_room ∷ []) (descriptor 3 ∷ []))
dungeon_add_rooms-opened_example =
    dungeon_add_rooms-opened docs answers mods descriptions answers-IsGood no_rooms refl
      (omega arith)
