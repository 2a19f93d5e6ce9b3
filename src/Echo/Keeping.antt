-- ===== src/Echo/Keeping.antt =====
-- When `echo_driver` may give up bytes that it received, or its connection.
use dungeon.Base.{
  ℕ, zero, suc, ◌≡◌, ◌≢◌, refl, ap, ◌∙◌, true, false, some, [], ◌∷◌, length, ltb, ◌&&◌, ◌==◌, pos,
  Bool-cases, ◌⊎◌, inl, inr, ok, fault, arith, sub_ℕ, leb, ◌+◌, ◌-◌, ◌≤◌, zero_or_more, ◌<◌,
}
use dungeon.Llist.View.{View}
use dungeon.Imp.{Mask, Request, to_term}
use dungeon.Tcp.{
  Recv, recv_failed, recv_got, Send, send_failed, send_took, conn_tcp_recv_nb, conn_tcp_send_nb,
}
use dungeon.Echo.{
  State, st_recv, st_send, st_term, st_ex, st_other, Memory, World, Result, bufsize, eagain,
  epoll_in, epoll_out, wait_for, echo_recv, echo_send, echo_driver,
}
use dungeon.Echo.Invariant.{Holds, IsRelay, SendFits, wait_for_cases}

-- The connection goes on to receive or to send, or is at its end with everything sent.
abbrev pub NothingLost : Memory → Type 0
NothingLost m =
    (m.state ≡ st_recv)
    ⊎ (m.state ≡ st_send)
    ⊎ ((m.state ≡ st_term) × (m.conn.received ≡ m.conn.sent))

-- The imp goes on, and nothing is lost.
abbrev pub Continues : Result → Type 0
Continues (ok (ret, v, m)) = (ret ≢ to_term) × NothingLost m
Continues fault = ⊥

-- `send` takes nothing.
abbrev pub Stalls : Send → Type 0
Stalls r = (r ≡ send_failed) ⊎ (r ≡ send_took 0)

-- The call asks to wait: it received nothing yet, or could send nothing yet, or sent a part.
abbrev pub Asks : World → Memory → Type 0
Asks e m =
    ((m.state ≡ st_recv) × (e.recv ≡ recv_failed eagain))
    ⊎ ((m.state ≡ st_send) × Stalls e.send × ((e.errno == eagain) ≡ true))
    ⊎ ((m.state ≡ st_send)
        × ((n : ℕ) × (k : ℕ) × (m.len ≡ pos n) × (e.send ≡ send_took (suc k)) × (suc k < n)))

-- What makes a call of `echo_driver` give up: a timeout, no room or no memory where it asks to wait, an
-- error of `recv` or of `send` other than EAGAIN in the state that calls it, or that it has given up before.
pub data Trouble (e : World) (mask : Mask) (v : View Request) (m : Memory) : Type 0 where
  late : mask.timer ≡ true → Trouble e mask v m
  no_request : Asks e m → (ltb (length v.items) v.volume && e.node) ≡ false → Trouble e mask v m
  recv_error :
      (n : ℕ)
      → m.state ≡ st_recv
      → e.recv ≡ recv_failed n
      → (n == eagain) ≡ false
      → Trouble e mask v m
  send_error : m.state ≡ st_send → Stalls e.send → (e.errno == eagain) ≡ false → Trouble e mask v m
  given_up : (m.state ≡ st_ex) ⊎ (m.state ≡ st_term) → Trouble e mask v m

module _ (e : World) (events : ℕ) (v : View Request) (m : Memory) (info : e.info ≡ true) where
  wait_for-Continues :
      (ltb (length v.items) v.volume && e.node) ≡ true
      → NothingLost m
      → Continues (wait_for e events (some v) m)
  wait_for-Continues room kept = rw (wait_for_cases e events v m info, room) ((λ h. cc), kept)

module _ (e : World) (mask : Mask) (v : View Request) (m : Memory) (info : e.info ≡ true)
    (awake : mask.timer ≡ false) where
  Asks-Continues :
      (x : Result)
      → Asks e m
      → ((ltb (length v.items) v.volume && e.node) ≡ true → Continues x)
      → Continues x ⊎ Trouble e mask v m
  Asks-Continues x asks waits = elim (Bool-cases (ltb (length v.items) v.volume && e.node)) [
    | inl room ↦ inl (waits room)
    | inr no_room ↦ inr (no_request asks no_room)
  ]

  recv-Continues :
      (r : Recv)
      → e.recv ≡ r
      → m.state ≡ st_recv
      → m.conn.received ≡ m.conn.sent
      → Continues (echo_recv e mask (some v) m) ⊎ Trouble e mask v m
  unfolding echo_recv conn_tcp_recv_nb
  recv-Continues (recv_failed zero) given state flow =
      inl (rw (awake, given) ((λ h. cc), inr (inr (refl, rw given flow))))
  recv-Continues (recv_failed (suc n)) given state flow = elim (Bool-cases (suc n == eagain)) [
    | inl again ↦
        let is_again : e.recv ≡ recv_failed eagain =
          given ∙ ap recv_failed (ground (arith, again)) in
        Asks-Continues _ (inl (state, is_again)) (λ room.
          rw (awake, given, again) (wait_for-Continues e epoll_in v _ info room (inl state)))
    | inr other ↦ inr (recv_error (suc n) state given other)
  ]
  recv-Continues (recv_got []) given state flow =
      inl (rw (awake, given) ((λ h. cc), inr (inr (refl, rw given flow))))
  recv-Continues (recv_got (x ∷ xs)) given state flow =
      inl (rw (awake, given) ((λ h. cc), inr (inl refl)))

  send-Stalls :
      (n : ℕ)
      → Stalls e.send
      → m.state ≡ st_send
      → m.len ≡ pos n
      → m.pos + n ≤ bufsize
      → Continues (echo_send e mask (some v) m) ⊎ Trouble e mask v m
  unfolding echo_send conn_tcp_send_nb
  send-Stalls n stalls state len inside = elim (Bool-cases (e.errno == eagain)) [
    | inr other ↦ inr (send_error state stalls other)
    | inl again ↦
        let waits : echo_send e mask (some v) m ≡ wait_for e epoll_out (some v) m = elim stalls [
          | inl given ↦ ground (arith, awake, len, again, given)
          | inr given ↦ ground (arith, awake, len, again, given)
        ] in
        Asks-Continues _ (inr (inl (state, stalls, again)))
          (λ room. rw waits (wait_for-Continues e epoll_out v m info room (inr (inl state))))
  ]

  send-Continues :
      (r : Send) (n : ℕ)
      → e.send ≡ r
      → m.state ≡ st_send
      → m.len ≡ pos n
      → m.pos + n ≤ bufsize
      → SendFits r (pos n)
      → Continues (echo_send e mask (some v) m) ⊎ Trouble e mask v m
  unfolding echo_send conn_tcp_send_nb
  send-Continues send_failed n given state len inside fits =
      send-Stalls n (inl given) state len inside
  send-Continues (send_took zero) n given state len inside fits =
      send-Stalls n (inr given) state len inside
  send-Continues (send_took (suc k)) n given state len inside fits =
      let whole : leb (m.pos + n) bufsize ≡ true = ground (arith, inside) in
      elim (zero_or_more (n - suc k)) [
        | inl none_left ↦
            let left : sub_ℕ n (suc k) ≡ pos 0 = ground (arith, none_left) in
            inl (rw (awake, len, given, left, whole) ((λ h. cc), inl refl))
        | inr some_left ↦
            let left : sub_ℕ n (suc k) ≡ pos (suc (n - suc k - 1)) = ground (arith, some_left) in
            let part : suc k < n = omega (arith, some_left) in
            Asks-Continues _ (inr (inr (state, (n, k, len, given, part)))) (λ room.
              rw (awake, len, given, left, whole)
                (wait_for-Continues e epoll_out v _ info room (inr (inl state))))
      ]

module _ (e : World) (mask : Mask) (v : View Request) (m : Memory) where
  pub receives : m.state ≡ st_recv → echo_driver e mask (some v) m ≡ echo_recv e mask (some v) m
  unfolding echo_driver
  receives state = ground (arith, state)

  pub sends : m.state ≡ st_send → echo_driver e mask (some v) m ≡ echo_send e mask (some v) m
  unfolding echo_driver
  sends state = ground (arith, state)

module _ (e : World) (mask : Mask) (v : View Request) (m : Memory) (relay : IsRelay m)
    (info : e.info ≡ true) (takes : SendFits e.send m.len) where
  driver_awake :
      mask.timer ≡ false
      → (s : State) → m.state ≡ s
      → Continues (echo_driver e mask (some v) m) ⊎ Trouble e mask v m
  driver_awake awake st_recv state =
      let flow : m.conn.received ≡ m.conn.sent = rw state at relay.holds in
      rw (receives e mask v m state) (recv-Continues e mask v m info awake e.recv refl state flow)
  driver_awake awake st_send state =
      let (n, len, some_left, inside, flow) : Holds m st_send = rw state at relay.holds in
      let took : SendFits e.send (pos n) = rw len at takes in
      rw (sends e mask v m state)
        (send-Continues e mask v m info awake e.send n refl state len inside took)
  driver_awake awake st_term state = inr (given_up (inr state))
  driver_awake awake st_ex state = inr (given_up (inl state))
  driver_awake awake st_other state =
      let none_holds : Holds m st_other = rw state at relay.holds in absurd none_holds

  pub driver-Continues : Continues (echo_driver e mask (some v) m) ⊎ Trouble e mask v m
  driver-Continues = elim (Bool-cases mask.timer) [
    | inl timed_out ↦ inr (late timed_out)
    | inr awake ↦ driver_awake awake m.state refl
  ]
