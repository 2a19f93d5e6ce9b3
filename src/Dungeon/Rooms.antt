-- ===== src/Dungeon/Rooms.antt =====
-- src/dungeon.c, `dungeon_add_room` and `dungeon_add_rooms`, with src/module_handler.c: the loading of the
-- rooms that the configuration lists. The path that a room is loaded from only picks the system's
-- answers, which are an argument for each index.
pub mod Loading
use dungeon.Base.{
  ℕ, zero, suc, ◌+◌, Bool, true, false, Option, none, some, List, [], ◌∷◌, ◌==◌, if◌then◌else◌, ltb,
  length, ℤ, pos, negsuc, minus_one, Run, ok, fault, ◌>>=◌,
}
use dungeon.Llist.View.{View, append_nb}
use dungeon.Json.{Cjson, Kind, json_object}
use dungeon.Conf.{is_array, is_string}
use dungeon.Handles.{Handle, Handler, module_load_only, module_unload_only}

-- What the system does for one room: `dlopen`, `malloc` and `dlsym`, the room's `mod_initializer`, and the
-- `malloc` of `llist_append`.
pub record Answer : Type 0 where
  pub dlopen : Option ℕ
  pub memory : Option ℕ
  pub dlsym : Bool
  pub init : ℤ
  pub node : Bool

-- The list of rooms, and what is open.
pub record Loaded : Type 0 where
  pub rooms : View Handler
  pub live : List Handle

abbrev pub is_object : Kind → Bool
is_object json_object = true
is_object _ = false

-- What follows `mod_initializer`. `none` is a process that goes no further: `exit(1)`, or `llist_append` on
-- a full list, which waits for ever, since no room is ever taken out.
unfoldable pub initialized : Answer → Handler → Loaded → Option (Run (ℤ × Loaded))
unfolding append_nb module_unload_only
initialized a handle w = elim (a.init) [
  | pos zero ↦
      let (ret, rooms) = append_nb false a.node handle w.rooms in
      if ltb (length w.rooms.items) w.rooms.volume
      then some (ok (ret, record w { rooms = rooms }))
      else none
  | pos (suc n) ↦ none
  | negsuc zero ↦
      some (module_unload_only handle w.live >>= λ live. ok (minus_one, record w { live = live }))
  | negsuc (suc n) ↦ none
]

unfoldable pub dungeon_add_room : Answer → Loaded → Option (Run (ℤ × Loaded))
unfolding module_load_only initialized
dungeon_add_room a w = elim (module_load_only a.dlopen a.memory a.dlsym w.live) [
  | fault ↦ some fault
  | ok r ↦
      let w' = record w { live = r.1 } in
      elim (r.0) [ none ↦ some (ok (minus_one, w')) | some handle ↦ initialized a handle w' ]
]

-- `if (dungeon_add_room(...)==0) ++count;`
abbrev pub counted : ℤ → ℕ → ℕ
counted (pos zero) count = count + 1
counted (pos (suc n)) count = count
counted (negsuc n) count = count

module _ (c : Cjson) (answers : ℕ → Answer) where
  open c use {Json, kind, array_size, array_item, object_item}

  -- The loop of `dungeon_add_rooms` from the index `i`, with `left` rooms to go; `none` is a process that
  -- ended or waits for ever. A description without one of its keys is gone through as NULL.
  unfoldable pub add_rooms_loop :
      (left i : ℕ) → Json → (count : ℕ) → Loaded → Option (Run (ℕ × Loaded))
  unfolding dungeon_add_room
  add_rooms_loop zero i conf_mods count w = some (ok (count, w))
  add_rooms_loop (suc left) i conf_mods count w =
      let skip = add_rooms_loop left (i + 1) conf_mods count w in
      let load : Option (Run (ℕ × Loaded)) = elim (dungeon_add_room (answers i) w) [
        | none ↦ none
        | some run ↦ elim run [
          | fault ↦ some fault
          | ok r ↦ add_rooms_loop left (i + 1) conf_mods (counted r.0 count) r.1
        ]
      ] in
      elim (array_item conf_mods i) [
        | none ↦ some fault
        | some mod_desc ↦ elim (object_item mod_desc "Path") [
          | none ↦ some fault
          | some mod_path ↦
              let configured : Option (Run (ℕ × Loaded)) = elim (object_item mod_desc "Config") [
                | none ↦ some fault
                | some mod_conf ↦ if is_object (kind mod_conf) then load else skip
              ] in
              if is_string (kind mod_path) then configured else skip
        ]
      ]

  -- `conf_mods` is what `conf_get_modules_desc` gives.
  unfoldable pub dungeon_add_rooms : Option Json → Loaded → Option (Run (ℕ × Loaded))
  unfolding add_rooms_loop
  dungeon_add_rooms none w = none
  dungeon_add_rooms (some conf_mods) w =
      if is_array (kind conf_mods)
      then add_rooms_loop (array_size conf_mods) 0 conf_mods 0 w
      else none
