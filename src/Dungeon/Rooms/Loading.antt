-- ===== src/Dungeon/Rooms/Loading.antt =====
-- What `dungeon_add_rooms` leaves loaded and open.
use dungeon.Base.{
  ℕ, zero, suc, ◌+◌, ◌≤◌, ◌<◌, ◌≡◌, refl, sym, ap, ◌∙◌, Bool, true, false, Bool-cases,
  if◌then◌else◌, ◌&&◌, Option, Option-cases, none, some, List, [], ◌∷◌, ◌++◌, append-nil,
  append_assoc, length, length-append, ◌⊎◌, inl, inr, ℤ, pos, negsuc, minus_one, Run, ok, arith,
}
use dungeon.Llist.View.{append_nb}
use dungeon.Json.{Cjson}
use dungeon.Conf.{is_array, is_string}
use dungeon.Handles.{Handle, block, library, Handler, release, module_load_only, module_unload_only}
use dungeon.Dungeon.Rooms.{
  Answer, Loaded, is_object, initialized, dungeon_add_room, counted, add_rooms_loop,
  dungeon_add_rooms,
}

-- What is open once the rooms are loaded, each with its block and its library.
abbrev pub opened : List Handler → List Handle → List Handle
opened [] live = live
opened (h ∷ hs) live = opened hs (block h.ptr ∷ library h.mod_handler ∷ live)

abbrev pub is_zero : ℤ → Bool
is_zero (pos zero) = true
is_zero (pos (suc n)) = false
is_zero (negsuc n) = false

-- The system has memory, and the room's `mod_initializer` returns 0 or -1.
pub record IsGood (a : Answer) : Type 0 where
  pub ptr : ℕ
  pub memory : a.memory ≡ some ptr
  pub node : a.node ≡ true
  pub init : (a.init ≡ pos 0) ⊎ (a.init ≡ minus_one)

-- The room that an answer of the system leads to, if its library and its interface are found and its
-- `mod_initializer` returns 0.
abbrev pub room_of : Answer → Option Handler
room_of a = elim (a.dlopen) [
  | none ↦ none
  | some h ↦ elim (a.memory) [
    | none ↦ none
    | some m ↦
        if a.dlsym && is_zero a.init then some (record { ptr = m; mod_handler = h }) else none
  ]
]

abbrev pub also : Option Handler → List Handler → List Handler
also none hs = hs
also (some h) hs = h ∷ hs

-- What `w` is with these rooms loaded as well.
abbrev with_rooms : List Handler → Loaded → Loaded
with_rooms hs w = record {
  rooms = record (w.rooms) { items = w.rooms.items ++ hs };
  live = opened hs w.live;
}

unload_at_once :
    (p h : ℕ) (live : List Handle)
    → module_unload_only (record { ptr = p; mod_handler = h }) (block p ∷ library h ∷ live)
      ≡ ok live
unfolding module_unload_only release
unload_at_once p h live = ground arith

load_without_symbol :
    (h p : ℕ) (live : List Handle) → module_load_only (some h) (some p) false live ≡ ok (none, live)
unfolding module_load_only release
load_without_symbol h p live = ground arith

module _ (w : Loaded) (room : length w.rooms.items < w.rooms.volume) where
  initialized_taken :
      (a : Answer) (handle : Handler) (live : List Handle)
      → a.init ≡ pos 0
      → a.node ≡ true
      → initialized a handle (record w { live = live })
        ≡ some (
            ok (
              pos 0,
              record {
                rooms = record (w.rooms) { items = w.rooms.items ++ handle ∷ [] };
                live = live;
              },
            ))
  unfolding initialized append_nb
  initialized_taken a handle live init node = ground (arith, init, node, room)

  initialized_refused :
      (a : Answer) (p h : ℕ)
      → a.init ≡ minus_one
      → initialized a
          (record { ptr = p; mod_handler = h })
          (record w { live = block p ∷ library h ∷ w.live })
        ≡ some (ok (minus_one, w))
  unfolding initialized
  initialized_refused a p h init = rw init (rw (unload_at_once p h w.live) refl)

  -- What `dungeon_add_room` leads to, by the room of the answer.
  Adds : Option Handler → ℤ × Loaded → Type 0
  Adds none r = r ≡ (minus_one, w)
  Adds (some h) r = r ≡ (pos 0, with_rooms (h ∷ []) w)

  add_room-Adds :
      (a : Answer)
      → IsGood a
      → (r : ℤ × Loaded) × (dungeon_add_room a w ≡ some (ok r)) × Adds (room_of a) r
  unfolding dungeon_add_room Adds
  add_room-Adds a good = elim (Option-cases a.dlopen) [
    | inl not_found ↦ ((minus_one, w), rw not_found refl, rw not_found refl)
    | inr (h, found) ↦ elim (Bool-cases a.dlsym) [
      | inl symbol ↦ elim good.init [
        | inl init ↦
            let made : Handler = record { ptr = good.ptr; mod_handler = h } in
            let live = block good.ptr ∷ library h ∷ w.live in
            let run = initialized_taken a made live init good.node in
            (
              (pos 0, with_rooms (made ∷ []) w),
              ground (arith, found, good.memory, symbol, run),
              rw (found, good.memory, symbol, init) refl,
            )
        | inr init ↦
            let run = initialized_refused a good.ptr h init in
            (
              (minus_one, w),
              ground (arith, found, good.memory, symbol, run),
              rw (found, good.memory, symbol, init) refl,
            )
      ]
      | inr no_symbol ↦ (
        (minus_one, w),
        rw (found, good.memory, no_symbol) (ground (arith, load_without_symbol h good.ptr w.live)),
        rw (found, good.memory, no_symbol) refl,
      )
    ]
  ]

with_rooms-with_rooms :
    (h : Handler) (hs : List Handler) (w : Loaded)
    → with_rooms hs (with_rooms (h ∷ []) w) ≡ with_rooms (h ∷ hs) w
with_rooms-with_rooms h hs w =
    ap
      (λ items. record {
        rooms = record (w.rooms) { items = items };
        live = opened (h ∷ hs) w.live;
      })
      (append_assoc w.rooms.items (h ∷ []) hs)

same_answer :
    {n m : ℕ} {v w : Loaded}
    → n ≡ m
    → v ≡ w
    → ◌≡◌ {A = Option (Run (ℕ × Loaded))} (some (ok (n, v))) (some (ok (m, w)))
same_answer {m = m} {v = v} h k = ap (λ n. some (ok (n, v))) h ∙ ap (λ u. some (ok (m, u))) k

with_rooms_none : (w : Loaded) → w ≡ with_rooms [] w
with_rooms_none w =
    ap (λ items. record { rooms = record (w.rooms) { items = items }; live = w.live })
      (sym (append-nil w.rooms.items))

-- The rounds behind one that led to `r`, by what they do from any number and list.
loop-Adds :
    (next : ℕ → Loaded → Option (Run (ℕ × Loaded))) (new : List Handler) (left count : ℕ)
    (w : Loaded) (room : length w.rooms.items < w.rooms.volume) (o : Option Handler)
    (r : ℤ × Loaded)
    → ((n : ℕ) (u : Loaded)
        → length u.rooms.items + left ≤ u.rooms.volume
        → next n u ≡ some (ok (n + length new, with_rooms new u)))
    → length w.rooms.items + suc left ≤ w.rooms.volume
    → Adds w room o r
    → next (counted r.0 count) r.1
      ≡ some (ok (count + length (also o new), with_rooms (also o new) w))
unfolding Adds
loop-Adds next new left count w room none r rounds fits adds =
    ap (λ (q : ℤ × Loaded). next (counted q.0 count) q.1) adds ∙ rounds count w (omega arith)
loop-Adds next new left count w room (some h) r rounds fits adds =
    ap (λ (q : ℤ × Loaded). next (counted q.0 count) q.1) adds
    ∙ rounds (count + 1) (with_rooms (h ∷ []) w)
        (omega (arith, length-append w.rooms.items (h ∷ [])))
    ∙ same_answer {n = count + 1 + length new} (omega arith) (with_rooms-with_rooms h new w)

module _ (c : Cjson) (answers : ℕ → Answer) (conf_mods : c.Json) where
  open c use {Json, kind, array_size, array_item, object_item}

  -- The description of the room `i`, with both its keys.
  pub record Description (i : ℕ) : Type 0 where
    pub mod_desc : Json
    pub mod_path : Json
    pub mod_conf : Json
    pub at : array_item conf_mods i ≡ some mod_desc
    pub has_path : object_item mod_desc "Path" ≡ some mod_path
    pub has_conf : object_item mod_desc "Config" ≡ some mod_conf

  module _ (left i count : ℕ) (w : Loaded) (d : Description i) where
    step_skipped :
        (is_string (kind d.mod_path) && is_object (kind d.mod_conf)) ≡ false
        → add_rooms_loop c answers (suc left) i conf_mods count w
          ≡ add_rooms_loop c answers left (i + 1) conf_mods count w
    unfolding add_rooms_loop
    step_skipped h = ground (arith, d.at, d.has_path, d.has_conf, h)

    step_loaded :
        (r : ℤ × Loaded)
        → (is_string (kind d.mod_path) && is_object (kind d.mod_conf)) ≡ true
        → dungeon_add_room (answers i) w ≡ some (ok r)
        → add_rooms_loop c answers (suc left) i conf_mods count w
          ≡ add_rooms_loop c answers left (i + 1) conf_mods (counted r.0 count) r.1
    unfolding add_rooms_loop
    step_loaded r h run = ground (arith, d.at, d.has_path, d.has_conf, h, run)

  -- Whether the room `i` is described by a text as its path and an object as its configuration.
  abbrev pub wanted : ℕ → Bool
  wanted i = elim (array_item conf_mods i) [
    | none ↦ false
    | some mod_desc ↦ elim (object_item mod_desc "Path") [
      | none ↦ false
      | some mod_path ↦ elim (object_item mod_desc "Config") [
        | none ↦ false
        | some mod_conf ↦ is_string (kind mod_path) && is_object (kind mod_conf)
      ]
    ]
  ]

  -- The rooms among the `left` from the index `i` that are wanted and can be loaded, in order.
  abbrev pub loaded : (left i : ℕ) → List Handler
  loaded zero i = []
  loaded (suc left) i = also (if wanted i then room_of (answers i) else none) (loaded left (i + 1))

  wanted_described :
      (i : ℕ) (d : Description i)
      → wanted i ≡ (is_string (kind d.mod_path) && is_object (kind d.mod_conf))
  wanted_described i d = ground (arith, d.at, d.has_path, d.has_conf)

  module _ (described : (i : ℕ) → i < array_size conf_mods → Description i)
      (good : (i : ℕ) → IsGood (answers i)) where
    loop-Loads :
        (left i count : ℕ) (w : Loaded)
        → i + left ≤ array_size conf_mods
        → length w.rooms.items + left ≤ w.rooms.volume
        → add_rooms_loop c answers left i conf_mods count w
          ≡ some (ok (count + length (loaded left i), with_rooms (loaded left i) w))
    unfolding add_rooms_loop
    loop-Loads zero i count w inside room =
        same_answer {n = count} (omega arith) (with_rooms_none w)
    loop-Loads (suc left) i count w inside room =
        let d = described i (omega arith) in
        let rounds = λ (n : ℕ) (u : Loaded). loop-Loads left (i + 1) n u (omega arith) in
        elim (Bool-cases (is_string (kind d.mod_path) && is_object (kind d.mod_conf))) [
          | inr no_room ↦
              let unwanted : wanted i ≡ false = wanted_described i d ∙ no_room in
              rw unwanted (step_skipped left i count w d no_room ∙ rounds count w (omega arith))
          | inl is_room ↦
              let is_wanted : wanted i ≡ true = wanted_described i d ∙ is_room in
              let (r, added, adds) = add_room-Adds w (omega arith) (answers i) (good i) in
              rw is_wanted (
                step_loaded left i count w d r is_room added
                ∙ loop-Adds (add_rooms_loop c answers left (i + 1) conf_mods) (loaded left (i + 1))
                    left count w (omega arith) (room_of (answers i)) r rounds room adds)
        ]

    -- For an array of descriptions that all have a path and a configuration, a system that has memory, rooms
    -- whose `mod_initializer` returns 0 or -1, and a list with enough room: `dungeon_add_rooms` returns. It
    -- has put behind the others in the list, in order, exactly the rooms whose path is a text, whose
    -- configuration is an object, whose library and interface are found and whose `mod_initializer`
    -- returned 0; the number that it returns is theirs, and what was opened and is open still is the library
    -- and the block of each of these, and nothing of the rooms that were skipped or refused.
    pub dungeon_add_rooms-opened :
        (w : Loaded)
        → is_array (kind conf_mods) ≡ true
        → length w.rooms.items + array_size conf_mods ≤ w.rooms.volume
        → (w' : Loaded) × (dungeon_add_rooms c answers (some conf_mods) w
            ≡ some (ok (length (loaded (array_size conf_mods) 0), w')))
          × (w'.rooms.items ≡ w.rooms.items ++ loaded (array_size conf_mods) 0)
          × (w'.live ≡ opened (loaded (array_size conf_mods) 0) w.live)
    unfolding dungeon_add_rooms
    dungeon_add_rooms-opened w array room =
        let new = loaded (array_size conf_mods) 0 in
        let run = loop-Loads (array_size conf_mods) 0 0 w (omega arith) room in
        (
          with_rooms new w,
          rw array run ∙ same_answer {n = 0 + length new} (omega arith) refl,
          refl,
          refl,
        )
