-- ===== src/Handles/Balance.antt =====
-- What is open once a constructor has failed, or a destructor has run.
use dungeon.Base.{
  ℕ, ◌≡◌, refl, Bool, true, false, Option, none, some, List, ◌∷◌, pos, Run, ok, arith, ◌⊎◌,
  if◌then◌else◌, inl, inr,
}
use dungeon.Handles.{
  Handle, descriptor, block, library, release, conn_tcp_listen_create, conn_tcp_listen_destroy,
  Socket, enomem, conn_tcp_accept_nb, conn_tcp_connect_nb, conn_tcp_close_nb, imp_body_new,
  imp_body_delete, module_load_only, module_unload_only,
}

-- The call returns: either NULL, and what was open is open still, or an object, and then the call that
-- destroys it leads back to what was open before, with the answer that is given.
abbrev pub Balanced :
    {A B : Type 0}
    → Run (Option A × List Handle)
    → (A → List Handle → Run B)
    → B
    → List Handle
    → Type 0
Balanced {A} make destroy done live =
    (r : Option A × List Handle) × (make ≡ ok r)
    × (((r.0 ≡ none) × (r.1 ≡ live)) ⊎ ((a : A) × (r.0 ≡ some a) × (destroy a r.1 ≡ ok done)))

-- The same for a call that makes a connection and also returns a code: `failed` with no connection, and
-- what was open is open still, or `code` with a connection, and then `conn_tcp_close_nb` leads back.
abbrev pub Connected :
    Run (ℕ × Option Socket × List Handle) → (failed code : ℕ) → List Handle → Type 0
Connected run failed code live =
    (r : ℕ × Option Socket × List Handle) × (run ≡ ok r)
    × (((r.0 ≡ failed) × (r.1 ≡ none) × (r.2 ≡ live))
        ⊎ ((conn : Socket) × (r.0 ≡ code)
            × (r.1 ≡ some conn)
            × (conn_tcp_close_nb (some conn) r.2 ≡ ok (pos 0, live))))

release_first : (h : Handle) (live : List Handle) → release h (h ∷ live) ≡ ok live
unfolding release
release_first (descriptor n) live = ground arith
release_first (block n) live = ground arith
release_first (library n) live = ground arith

release_second :
    (n m : ℕ) (live : List Handle)
    → release (library n) (block m ∷ library n ∷ live) ≡ ok (block m ∷ live)
unfolding release
release_second n m live = ground arith

ruleset releases = (release_first, release_second)

listen-Balanced :
    (memory socket : Option ℕ) (bind listen : Bool) (timeo : Option ℕ) (live : List Handle)
    → Balanced
        (conn_tcp_listen_create memory socket bind listen timeo live)
        (λ l. conn_tcp_listen_destroy (some l))
        (pos 0, live)
        live
unfolding conn_tcp_listen_create conn_tcp_listen_destroy
listen-Balanced none socket bind listen timeo live = (_, refl, inl (refl, refl))
listen-Balanced (some m) none bind listen timeo live = (_, simp releases, inl (refl, refl))
listen-Balanced (some m) (some sd) false listen timeo live = (_, simp releases, inl (refl, refl))
listen-Balanced (some m) (some sd) true false timeo live = (_, simp releases, inl (refl, refl))
listen-Balanced (some m) (some sd) true true timeo live = (_, refl, inr (_, refl, simp releases))

accept-Connected :
    (memory accept : Option ℕ) (errno : ℕ) (live : List Handle)
    → Connected (conn_tcp_accept_nb memory accept errno live) errno 0 live
unfolding conn_tcp_accept_nb conn_tcp_close_nb
accept-Connected none accept errno live = (_, refl, inl (refl, refl, refl))
accept-Connected (some m) none errno live = (_, simp releases, inl (refl, refl, refl))
accept-Connected (some m) (some sd) errno live = (_, refl, inr (_, refl, refl, simp releases))

-- The connection's block was made after its descriptor.
close_connected :
    (m sd : ℕ) (live : List Handle)
    → conn_tcp_close_nb (some (record { ptr = m; sd = some sd })) (block m ∷ descriptor sd ∷ live)
      ≡ ok (pos 0, live)
unfolding conn_tcp_close_nb release
close_connected m sd live = ground arith

-- The code of a call that could not make a connection: `errno` of `socket`, or that of missing memory.
abbrev pub unmade : Option ℕ → (errno : ℕ) → ℕ
unmade none errno = errno
unmade (some sd) errno = enomem

connect-Connected :
    (socket memory : Option ℕ) (connect : Bool) (errno : ℕ) (live : List Handle)
    → Connected
        (conn_tcp_connect_nb none socket memory connect errno live)
        (unmade socket errno)
        (if connect then 0 else errno)
        live
unfolding conn_tcp_connect_nb
connect-Connected none memory connect errno live = (_, refl, inl (refl, refl, refl))
connect-Connected (some sd) none connect errno live = (_, simp releases, inl (refl, refl, refl))
connect-Connected (some sd) (some m) connect errno live =
    (_, refl, inr (_, refl, refl, close_connected m sd live))

body-Balanced :
    (memory timer event : Option ℕ) (reg_timer reg_event : Bool) (live : List Handle)
    → Balanced
        (imp_body_new memory timer event reg_timer reg_event live)
        imp_body_delete
        (pos 0, live)
        live
unfolding imp_body_new imp_body_delete
body-Balanced none timer event reg_timer reg_event live = (_, refl, inl (refl, refl))
body-Balanced (some p) none event reg_timer reg_event live = (_, simp releases, inl (refl, refl))
body-Balanced (some p) (some t) none reg_timer reg_event live = (_, simp releases, inl (refl, refl))
body-Balanced (some p) (some t) (some v) false reg_event live = (_, simp releases, inl (refl, refl))
body-Balanced (some p) (some t) (some v) true false live = (_, simp releases, inl (refl, refl))
body-Balanced (some p) (some t) (some v) true true live = (_, refl, inr (_, refl, simp releases))

-- With memory, or without a library.
module-Balanced :
    (handler : Option ℕ) (m : ℕ) (dlsym : Bool) (live : List Handle)
    → Balanced (module_load_only handler (some m) dlsym live) module_unload_only live live
unfolding module_load_only module_unload_only
module-Balanced none m dlsym live = (_, refl, inl (refl, refl))
module-Balanced (some h) m false live = (_, simp releases, inl (refl, refl))
module-Balanced (some h) m true live = (_, refl, inr (_, refl, simp releases))

module _ (first second third : Option ℕ) (ok₁ ok₂ : Bool) (n : ℕ) (timeo : Option ℕ)
    (live : List Handle) where
  -- Whatever the system answers to their calls: `conn_tcp_listen_create`, `conn_tcp_accept_nb`,
  -- `conn_tcp_connect_nb` of no connection, `imp_body_new`, and `module_load_only` if its memory is there,
  -- return, either with nothing made, and then what was open before is open and nothing else, or with what
  -- they made, and then `conn_tcp_listen_destroy`, `conn_tcp_close_nb` (for both), `imp_body_delete` and
  -- `module_unload_only` close what was opened, each once, and nothing else. `conn_tcp_accept_nb` returns
  -- `errno` in the first case and 0 in the second. `conn_tcp_connect_nb` returns `errno`, or ENOMEM if there
  -- is a socket, in the first; in the second it returns 0, or `errno` if `connect` failed, and the
  -- connection is made and open in either event. Without memory `module_load_only` fails and leaves the
  -- library open.
  pub constructors-Balanced :
      Balanced
        (conn_tcp_listen_create first second ok₁ ok₂ timeo live)
        (λ l. conn_tcp_listen_destroy (some l))
        (pos 0, live)
        live
      × Connected (conn_tcp_accept_nb first second n live) n 0 live
      × Connected
          (conn_tcp_connect_nb none first second ok₁ n live)
          (unmade first n)
          (if ok₁ then 0 else n)
          live
      × Balanced (imp_body_new first second third ok₁ ok₂ live) imp_body_delete (pos 0, live) live
      × Balanced (module_load_only first (some n) ok₁ live) module_unload_only live live
      × ((h : ℕ) → module_load_only (some h) none ok₁ live ≡ ok (none, library h ∷ live))
  unfolding module_load_only
  constructors-Balanced = (
    listen-Balanced first second ok₁ ok₂ timeo live,
    accept-Connected first second n live,
    connect-Connected first second ok₁ n live,
    body-Balanced first second third ok₁ ok₂ live,
    module-Balanced first n ok₁ live,
    λ h. refl,
  )
