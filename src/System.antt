-- ===== src/System.antt =====
-- The dungeon as a whole: its threads take turns, each with one round of its loop. A round of a
-- worker is taken as one step, so what another thread does while the room's driver runs is not
-- covered.
pub mod Housing
pub mod Accounts
pub mod Taking
pub mod Rounds
pub mod Safety
pub mod Progress
mod Examples
use dungeon.Base.{ℕ, ◌≡◌, Bool, true, false, Option, none, some, List, ok}
use dungeon.Imp.{Soul, Dungeon, Ctl, imp_summon, imp_kill}
use dungeon.Worker.{epoller_round, driver_round}
use dungeon.Maintainer.{dismiss_loop}

-- `malloc` gives no block that is in use.
abbrev pub Fresh : {M : Type 0} → Dungeon M → Option ℕ → Type 0
Fresh w none = Unit
Fresh w (some i) = w.imps i ≡ none

-- What a thread may do next: a worker drives an imp, the epoll thread wakes imps, the maintainer
-- dismisses those that ended or ends its wait, and a room summons or kills.
pub data Step {M : Type 0} : Dungeon M → Dungeon M → Type 0 where
  drive :
      (soul : Soul M) (ctl : Ctl) (timer event : Bool) {w u : Dungeon M}
      → driver_round soul ctl timer event w ≡ some (ok u)
      → Step w u
  poll : (reported : Option (List ℕ)) {w u : Dungeon M} → epoller_round reported w ≡ ok u → Step w u
  collect : (fuel : ℕ) {w u : Dungeon M} → dismiss_loop fuel w ≡ some (ok u) → Step w u
  resume : (w : Dungeon M) → w.pending_event ≡ true → Step w (record w { pending_event = false })
  summon :
      (soul : Soul M) (block : Option ℕ) (body : Option (ℕ × ℕ)) (list : Bool) (memory : M)
      (answer : Option ℕ) {w u : Dungeon M}
      → Fresh w block
      → imp_summon soul w block body list memory ≡ ok (answer, u)
      → Step w u
  kill : (i : ℕ) {w u : Dungeon M} → imp_kill w i ≡ ok u → Step w u

pub data Reach {M : Type 0} (w : Dungeon M) : Dungeon M → Type 0 where
  here : Reach w w
  later : {u v : Dungeon M} → Reach w u → Step u v → Reach w v
