-- ===== src/Imp/Outcomes.antt =====
-- What a round of an imp may come to, and what the loop over its requests adds up to.
use dungeon.Base.{
  ℕ, ◌+◌, ◌≡◌, refl, ◌∙◌, Bool, true, false, Option, some, List, [], ◌∷◌, ◌++◌, has, if◌then◌else◌,
  pos, ◌+ℤ◌, arith,
}
use dungeon.Queue.Window.{contents}
use dungeon.Llist.View.{View}
use dungeon.Imp.{Imp, Dungeon, Ctl, Request, arm, set_poll_action, request_fd}

module _ {M : Type 0} where
  -- The imp `i` is behind the others in the terminated queue, and the maintainer is told.
  pub record Ended (w u : Dungeon M) (i : ℕ) : Type 0 where
    pub queued : contents u.terminated_queue ≡ contents w.terminated_queue ++ i ∷ []
    pub told : u.pending_event ≡ true
    pub run_queue : u.run_queue ≡ w.run_queue
    pub nr_waitio : u.nr_waitio ≡ w.nr_waitio

  -- The imp is in the run queue, once more only if it was not there.
  pub record Ready (w u : Dungeon M) (i : ℕ) : Type 0 where
    pub queued : contents u.run_queue ≡ (
        if has i (contents w.run_queue)
        then contents w.run_queue
        else contents w.run_queue ++ i ∷ [])
    pub terminated_queue : u.terminated_queue ≡ w.terminated_queue
    pub nr_waitio : u.nr_waitio ≡ w.nr_waitio

  -- The imp waits, and is in no queue more than before; the epoll instance has been asked for its
  -- requests.
  pub record Waits (ctl : Ctl) (timer_fd event_fd : ℕ) (rs : List Request) (w u : Dungeon M) (i : ℕ)
      : Type 0 where
    pub imp : Imp M
    pub stored : u.imps i ≡ some imp
    pub waitio : imp.waitio ≡ true
    pub served : (v : View Request) × (imp.requested_events ≡ some v) × (v.items ≡ [])
    pub polls : u.polls ≡ (arm ctl i timer_fd event_fd rs true w.polls 0).1
    pub run_queue : u.run_queue ≡ w.run_queue
    pub terminated_queue : u.terminated_queue ≡ w.terminated_queue
    pub nr_waitio : u.nr_waitio ≡ w.nr_waitio +ℤ pos 1

abbrev pub Yielded :
    {M : Type 0} → Ctl → (timer_fd event_fd : ℕ) → List Request → Dungeon M → Dungeon M → ℕ → Type 0
Yielded ctl t e [] w u i = Ready w u i
Yielded ctl t e (r ∷ rs) w u i = Waits ctl t e (r ∷ rs) w u i

module _ (ctl : Ctl) (i timer_fd event_fd : ℕ) where
  pub arm_count :
      (rs : List Request) (waitio : Bool) (polls : ℕ → Option ℕ) (n : ℕ)
      → (arm ctl i timer_fd event_fd rs waitio polls n).2
        ≡ n + (arm ctl i timer_fd event_fd rs waitio polls 0).2
  unfolding arm
  arm_count [] waitio polls n = omega arith
  arm_count (r ∷ rs) waitio polls n =
      let armed = (set_poll_action ctl (request_fd timer_fd event_fd r) i polls).1 in
      omega (arith, arm_count rs true armed (n + 1), arm_count rs true armed 1)

  pub arm_failed :
      ((fd : ℕ) → ctl fd ≡ (false, false))
      → (rs : List Request) (waitio : Bool) (polls : ℕ → Option ℕ) (n : ℕ)
      → (arm ctl i timer_fd event_fd rs waitio polls n).1 ≡ polls
  unfolding arm set_poll_action
  arm_failed failing [] waitio polls n = refl
  arm_failed failing (r ∷ rs) waitio polls n =
      arm_failed failing rs true (set_poll_action ctl (request_fd timer_fd event_fd r) i polls).1
        (n + 1)
      ∙ ground (arith, failing (request_fd timer_fd event_fd r))

  pub arm_waits :
      (rs : List Request) (polls : ℕ → Option ℕ) (n : ℕ)
      → (arm ctl i timer_fd event_fd rs true polls n).0 ≡ true
  unfolding arm
  arm_waits [] polls n = refl
  arm_waits (r ∷ rs) polls n =
      arm_waits rs (set_poll_action ctl (request_fd timer_fd event_fd r) i polls).1 (n + 1)
