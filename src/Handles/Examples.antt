-- ===== src/Handles/Examples.antt =====
-- Calls that fail half way, with one descriptor open before.
use dungeon.Base.{if◌then◌else◌, ℕ, ◌≡◌, refl, true, false, none, some, List, [], ◌∷◌, pos, ok}
use dungeon.Handles.{
  Handle, descriptor, library, release, conn_tcp_listen_create, conn_tcp_listen_destroy,
  conn_tcp_accept_nb, conn_tcp_connect_nb, imp_body_new, imp_body_delete, module_load_only,
  module_unload_only,
}
use dungeon.Handles.Balance.{Balanced, Connected, unmade, constructors-Balanced}

abbrev before : List Handle
before = descriptor 3 ∷ []

-- `epoll_ctl` refuses the second descriptor.
body_refused : imp_body_new (some 80) (some 5) (some 6) true false before ≡ ok (none, before)
unfolding imp_body_new release
body_refused = refl

constructors-Balanced_example :
    Balanced
      (conn_tcp_listen_create (some 80) (some 5) true false (some 1500) before)
      (λ l. conn_tcp_listen_destroy (some l))
      (pos 0, before)
      before
    × Connected (conn_tcp_accept_nb (some 80) (some 5) 11 before) 11 0 before
    × Connected
        (conn_tcp_connect_nb none (some 80) (some 5) true 11 before)
        (unmade (some 80) 11)
        (if true then 0 else 11)
        before
    × Balanced
        (imp_body_new (some 80) (some 5) (some 6) true false before)
        imp_body_delete
        (pos 0, before)
        before
    × Balanced (module_load_only (some 80) (some 11) true before) module_unload_only before before
    × ((h : ℕ) → module_load_only (some h) none true before ≡ ok (none, library h ∷ before))
constructors-Balanced_example =
    constructors-Balanced (some 80) (some 5) (some 6) true false 11 (some 1500) before
