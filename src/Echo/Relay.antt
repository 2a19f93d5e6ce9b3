-- ===== src/Echo/Relay.antt =====
-- What `echo_driver` sends of what it received.
use dungeon.Base.{
  ℕ, ◌≡◌, refl, sym, ◌∙◌, true, some, List, [], ◌++◌, append-nil, pos, Bool-cases, inl, inr, ◌⊎◌,
  arith,
}
use dungeon.Llist.View.{View}
use dungeon.Imp.{Mask, Request, to_run, to_term}
use dungeon.Echo.{
  State, st_recv, st_send, st_term, st_ex, st_other, Memory, World, echo_recv, echo_send,
  echo_driver,
}
use dungeon.Echo.Invariant.{pending, Holds, IsRelay, RecvFits, SendFits, Relays}
use dungeon.Echo.Keeping.{Continues, Trouble, receives, sends, driver-Continues}
use dungeon.Echo.Receiving.{recv-Relays}
use dungeon.Echo.Sending.{send-Relays}

module _ (e : World) (mask : Mask) (v : View Request) (m : Memory) (relay : IsRelay m)
    (info : e.info ≡ true) (fits : RecvFits e.recv) (takes : SendFits e.send m.len) where
  timed_out :
      (lost : List ℕ) → m.conn.received ≡ m.conn.sent ++ lost → IsRelay (record m { state = st_ex })
  timed_out lost flow = record {
    size = relay.size;
    holds = (lost, flow);
    rcount = relay.rcount;
    scount = relay.scount;
  }

  driver-Relays : (s : State) → m.state ≡ s → Relays (echo_driver e mask (some v) m)
  unfolding echo_driver echo_recv echo_send
  driver-Relays st_recv state = elim (Bool-cases mask.timer) [
    | inl late ↦
        let flow : m.conn.received ≡ m.conn.sent = rw state at relay.holds in
        (
          to_run,
          v,
          record m { state = st_ex },
          ground (arith, state, late),
          timed_out [] (flow ∙ sym (append-nil m.conn.sent)),
        )
    | inr awake ↦
        let (ret, v', m', run, left) =
          recv-Relays e mask v m info relay e.recv refl awake state fits in
        (ret, v', m', receives e mask v m state ∙ run, left)
  ]
  driver-Relays st_send state =
      let (n, len, some_left, inside, flow) : Holds m st_send = rw state at relay.holds in
      elim (Bool-cases mask.timer) [
        | inl late ↦ (
          to_run,
          v,
          record m { state = st_ex },
          ground (arith, state, late),
          timed_out (pending m n) flow,
        )
        | inr awake ↦
            let took : SendFits e.send (pos n) = rw len at takes in
            let (ret, v', m', run, left) =
              send-Relays e mask v m info relay e.send n refl awake state len inside flow took in
            (ret, v', m', sends e mask v m state ∙ run, left)
      ]
  driver-Relays st_ex state =
      let (lost, flow) : Holds m st_ex = rw state at relay.holds in
      (
        to_run,
        v,
        record m { state = st_term },
        ground (arith, state),
        record {
          size = relay.size;
          holds = (lost, flow);
          rcount = relay.rcount;
          scount = relay.scount;
        },
      )
  driver-Relays st_term state = (to_term, v, m, ground (arith, state), relay)
  driver-Relays st_other state =
      let none_holds : Holds m st_other = rw state at relay.holds in absurd none_holds

-- From a memory of a connection in which what was received is what was sent and what is pending, in
-- order, each call of `echo_driver` comes to an end without a fault and to such a memory again, with
-- the two counters right: no byte is doubled or reordered. Moreover the driver answers with a code
-- that keeps the imp and no byte is lost: the state is to receive, or to send with the rest pending,
-- or the end with everything sent. Otherwise there was one of these troubles: the call timed out; it
-- had to wait, since `recv` or `send` said EAGAIN or `send` took a part, and there was no room or no
-- memory for the request; `recv` or `send`, in the state that calls it, failed other than with EAGAIN;
-- or the connection was in the exception state or at its end before. It is assumed that `recv` and
-- `send` move no more than asked, and that the memory for the contents of a request is there.
pub echo_driver-IsRelay :
    (e : World) (mask : Mask) (v : View Request) (m : Memory)
    → IsRelay m
    → e.info ≡ true
    → RecvFits e.recv
    → SendFits e.send m.len
    → Relays (echo_driver e mask (some v) m)
      × (Continues (echo_driver e mask (some v) m) ⊎ Trouble e mask v m)
echo_driver-IsRelay e mask v m relay info fits takes = (
  driver-Relays e mask v m relay info fits takes m.state refl,
  driver-Continues e mask v m relay info takes,
)
