-- ===== src/Handles.antt =====
-- What the constructors and destructors of src/util_conn_tcp.c, src/imp_body.c and src/module_handler.c
-- open and close: descriptors, blocks of memory and loaded libraries. What the system answers to each
-- call is an argument: a number for what it opened, or `none`.
pub mod Balance
mod Examples
use dungeon.Base.{
  ℕ, suc, ◌+◌, ◌*◌, ◌/◌, ◌%◌, Bool, true, false, not, Option, none, some, List, [], ◌∷◌, ◌==◌,
  if◌then◌else◌, ℤ, pos, negsuc, minus_one, Run, ok, fault, ◌>>=◌,
}
use dungeon.Tcp.{neg}

-- What is open, each by the number that the system gave it.
pub data Handle : Type 0 where
  descriptor : ℕ → Handle
  block : ℕ → Handle
  library : ℕ → Handle

abbrev pub same : Handle → Handle → Bool
same (descriptor a) (descriptor b) = a == b
same (block a) (block b) = a == b
same (library a) (library b) = a == b
same _ _ = false

-- `close`, `free` and `dlclose` of what is not open is a fault.
unfoldable pub release : Handle → List Handle → Run (List Handle)
release h [] = fault
release h (x ∷ live) =
    let rest = release h live in if same h x then ok live else (do left ← rest; ok (x ∷ left))

-- A `struct timeval`.
pub record Timeval : Type 0 where
  pub tv_sec : ℕ
  pub tv_usec : ℕ

unfoldable pub msec_2_timeval : ℕ → Timeval
msec_2_timeval ms = record { tv_sec = ms / 1000; tv_usec = (ms % 1000) * 1000 }

-- The part of `listen_tcp_t` that is used again; `ptr` is its block.
pub record Listen : Type 0 where
  pub ptr : ℕ
  pub sd : ℕ
  pub accepttimeo : Option Timeval
  pub accept_count : ℕ

-- `bind` and `listen` are whether the calls succeed; `timeo` is the field `accept` of the timeouts.
unfoldable pub conn_tcp_listen_create :
    (memory socket : Option ℕ) (bind listen : Bool) (timeo : Option ℕ)
    → List Handle
    → Run (Option Listen × List Handle)
unfolding msec_2_timeval
conn_tcp_listen_create none socket bind listen timeo live = ok (none, live)
conn_tcp_listen_create (some m) none bind listen timeo live = do
  freed ← release (block m) (block m ∷ live)
  ok (none, freed)
conn_tcp_listen_create (some m) (some sd) bind listen timeo live =
    let opened = descriptor sd ∷ block m ∷ live in
    let given_up = do
      closed ← release (descriptor sd) opened
      freed ← release (block m) closed
      ok (none, freed)
    in let made : Listen = record {
      ptr = m;
      sd = sd;
      accepttimeo = elim timeo [ none ↦ none | some ms ↦ some (msec_2_timeval ms) ];
      accept_count = 0;
    } in
      if not bind then given_up else if not listen then given_up else ok (some made, opened)

unfoldable pub conn_tcp_listen_destroy : Option Listen → List Handle → Run (ℤ × List Handle)
unfolding release
conn_tcp_listen_destroy none live = ok (pos 0, live)
conn_tcp_listen_destroy (some l) live = do
  closed ← release (descriptor l.sd) live
  freed ← release (block l.ptr) closed
  ok (pos 0, freed)

-- A `conn_tcp_t` as a block and its field `sd`, of which `none` is -1.
pub record Socket : Type 0 where
  pub ptr : ℕ
  pub sd : Option ℕ

-- `errno` is what the call that failed left there.
unfoldable pub conn_tcp_accept_nb :
    (memory accept : Option ℕ) (errno : ℕ) → List Handle → Run (ℕ × Option Socket × List Handle)
unfolding release
conn_tcp_accept_nb none accept errno live = ok (errno, none, live)
conn_tcp_accept_nb (some m) none errno live = do
  freed ← release (block m) (block m ∷ live)
  ok (errno, none, freed)
conn_tcp_accept_nb (some m) (some sd) errno live =
    ok (0, some (record { ptr = m; sd = some sd }), descriptor sd ∷ block m ∷ live)

abbrev pub enomem : ℕ
enomem = 12

-- The first part of `conn_tcp_connect_nb`, which makes the connection if there is none; else the answer of
-- `connect` decides. A connection that is not yet made stays, so that the call can be repeated.
unfoldable pub conn_tcp_connect_nb :
    Option Socket
    → (socket memory : Option ℕ) (connect : Bool) (errno : ℕ) → List Handle
    → Run (ℕ × Option Socket × List Handle)
unfolding release
conn_tcp_connect_nb (some conn) socket memory connect errno live =
    ok ((if connect then 0 else errno), some conn, live)
conn_tcp_connect_nb none none memory connect errno live = ok (errno, none, live)
conn_tcp_connect_nb none (some sd) none connect errno live = do
  closed ← release (descriptor sd) (descriptor sd ∷ live)
  ok (enomem, none, closed)
conn_tcp_connect_nb none (some sd) (some m) connect errno live = ok (
  (if connect then 0 else errno),
  some (record { ptr = m; sd = some sd }),
  block m ∷ descriptor sd ∷ live,
)

unfoldable pub conn_tcp_close_nb : Option Socket → List Handle → Run (ℤ × List Handle)
unfolding release
conn_tcp_close_nb none live = ok (pos 0, live)
conn_tcp_close_nb (some conn) live = do
  closed ← elim (conn.sd) [ none ↦ ok live | some sd ↦ release (descriptor sd) live ]
  freed ← release (block conn.ptr) closed
  ok (pos 0, freed)

-- `imp_body_t`, with its block.
pub record Body : Type 0 where
  pub ptr : ℕ
  pub timer_fd : ℕ
  pub event_fd : ℕ

-- `reg_timer` and `reg_event` are whether the two `epoll_ctl` succeed.
unfoldable pub imp_body_new :
    (memory timer event : Option ℕ) (reg_timer reg_event : Bool)
    → List Handle
    → Run (Option Body × List Handle)
unfolding release
imp_body_new none timer event reg_timer reg_event live = ok (none, live)
imp_body_new (some p) none event reg_timer reg_event live = do
  freed ← release (block p) (block p ∷ live)
  ok (none, freed)
imp_body_new (some p) (some t) none reg_timer reg_event live = do
  closed ← release (descriptor t) (descriptor t ∷ block p ∷ live)
  freed ← release (block p) closed
  ok (none, freed)
imp_body_new (some p) (some t) (some v) reg_timer reg_event live =
    let opened = descriptor v ∷ descriptor t ∷ block p ∷ live in
    let fail4 = do
      no_event ← release (descriptor v) opened
      no_timer ← release (descriptor t) no_event
      freed ← release (block p) no_timer
      ok (none, freed)
    in if not reg_timer
      then fail4
      else if not reg_event
      then fail4
      else ok (some (record { ptr = p; timer_fd = t; event_fd = v }), opened)

unfoldable pub imp_body_delete : Body → List Handle → Run (ℤ × List Handle)
unfolding release
imp_body_delete body live = do
  no_event ← release (descriptor body.event_fd) live
  no_timer ← release (descriptor body.timer_fd) no_event
  freed ← release (block body.ptr) no_timer
  ok (pos 0, freed)

-- A `module_handler_t`: its block and its library.
pub record Handler : Type 0 where
  pub ptr : ℕ
  pub mod_handler : ℕ

-- `dlsym` is whether the interface is found. If only the memory is missing the library stays open.
unfoldable pub module_load_only :
    (dlopen memory : Option ℕ) (dlsym : Bool) → List Handle → Run (Option Handler × List Handle)
unfolding release
module_load_only none memory dlsym live = ok (none, live)
module_load_only (some h) none dlsym live = ok (none, library h ∷ live)
module_load_only (some h) (some m) dlsym live =
    let opened = block m ∷ library h ∷ live in
    if dlsym
    then ok (some (record { ptr = m; mod_handler = h }), opened)
    else do closed ← release (library h) opened; freed ← release (block m) closed; ok (none, freed)

unfoldable pub module_unload_only : Handler → List Handle → Run (List Handle)
unfolding release
module_unload_only mod' live = do
  closed ← release (library mod'.mod_handler) live
  release (block mod'.ptr) closed
