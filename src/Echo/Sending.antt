-- ===== src/Echo/Sending.antt =====
-- `echo_driver` while it sends.
use dungeon.Base.{
  zero_or_more, ℕ, zero, suc, ◌+◌, ◌-◌, ◌≤◌, ◌<◌, ◌≡◌, refl, sym, ap, ◌∙◌, true, false, some, ◌++◌,
  take, drop, length-append, length-drop, length-take, append_assoc, take_all, take-drop, drop-take,
  drop-drop, ◌==◌, if◌then◌else◌, pos, ok, Bool-cases, inl, inr, arith, sub_ℕ,
}
use dungeon.Llist.View.{View}
use dungeon.Imp.{Mask, Request, to_run}
use dungeon.Tcp.{Send, send_failed, send_took, conn_tcp_send_nb}
use dungeon.Echo.{
  State, st_recv, st_send, st_ex, Memory, World, bufsize, eagain, epoll_out, wait_for, echo_send,
}
use dungeon.Echo.Invariant.{pending, Holds, IsRelay, SendFits, Relays, wait_for-Relays}

module _ (e : World) (mask : Mask) (v : View Request) (m : Memory) (info : e.info ≡ true)
    (relay : IsRelay m) where
  Failed : Type 0
  Failed = echo_send e mask (some v) m ≡ (
      if e.errno == eagain
      then wait_for e epoll_out (some v) m
      else ok (to_run, some v, record m { state = st_ex }))

  failed-Relays : (n : ℕ) → Failed → m.state ≡ st_send → Relays (echo_send e mask (some v) m)
  unfolding Failed
  failed-Relays n run state =
      let (n', len, some_left, inside, flow) : Holds m st_send = rw state at relay.holds in
      elim (Bool-cases (e.errno == eagain)) [
        | inl again ↦
            let (ret, v', m', asks, left) = wait_for-Relays e epoll_out v m info relay in
            (ret, v', m', run ∙ rw again asks, left)
        | inr other ↦ (
          to_run,
          v,
          record m { state = st_ex },
          run ∙ rw other,
          record {
            size = relay.size;
            holds = (pending m n', flow);
            rcount = relay.rcount;
            scount = relay.scount;
          },
        )
      ]

  -- The memory behind a `send` that took `n` bytes of the `len` that were pending.
  after_send : (len n : ℕ) → State → Memory
  unfolding conn_tcp_send_nb
  after_send len n state = record m {
    conn = (conn_tcp_send_nb e.now (send_took n) m.conn (take len (drop m.pos m.buf))).1;
    pos = m.pos + n;
    len = pos (len - n);
    state = state;
  }

  module _ (n k : ℕ) (inside : m.pos + n ≤ bufsize) (fits : suc k ≤ n)
      (flow : m.conn.received ≡ m.conn.sent ++ pending m n) where
    after_send-IsRelay :
        (state : State)
        → Holds (after_send n (suc k) state) state
        → IsRelay (after_send n (suc k) state)
    unfolding after_send conn_tcp_send_nb
    after_send-IsRelay state holds = record {
      size = relay.size;
      holds = holds;
      rcount = relay.rcount;
      scount = omega (
        arith,
        relay.scount,
        length-append m.conn.sent (take (suc k) (pending m n)),
        length-take (suc k) (pending m n),
        length-take n (drop m.pos m.buf),
        length-drop m.pos m.buf,
        relay.size,
      );
    }

    sent_all : n - suc k ≡ 0 → Holds (after_send n (suc k) st_recv) st_recv
    unfolding after_send conn_tcp_send_nb
    sent_all none_left =
        flow
        ∙ ap (λ ys. m.conn.sent ++ ys)
            (sym (
              take_all (suc k) (pending m n)
                (omega (arith, none_left, length-take n (drop m.pos m.buf)))))

    sent_some : 0 < n - suc k → Holds (after_send n (suc k) st_send) st_send
    unfolding after_send conn_tcp_send_nb
    sent_some some_left = (
      n - suc k,
      refl,
      some_left,
      omega arith,
      flow
          ∙ ap (λ ys. m.conn.sent ++ ys)
              (sym (take-drop (suc k) (pending m n))
                ∙ ap (λ ys. take (suc k) (pending m n) ++ ys)
                    (drop-take (suc k) n (drop m.pos m.buf) fits
                      ∙ ap (take (n - suc k)) (drop-drop (suc k) m.pos m.buf)))
          ∙ sym (append_assoc m.conn.sent (take (suc k) (pending m n)) _),
    )

  pub send-Relays :
      (r : Send) (n : ℕ)
      → e.send ≡ r
      → mask.timer ≡ false
      → m.state ≡ st_send
      → m.len ≡ pos n
      → m.pos + n ≤ bufsize
      → m.conn.received ≡ m.conn.sent ++ pending m n
      → SendFits r (pos n)
      → Relays (echo_send e mask (some v) m)
  unfolding echo_send conn_tcp_send_nb Failed after_send
  send-Relays send_failed n given awake state len inside flow fits =
      failed-Relays n (ground (arith, given, awake, len)) state
  send-Relays (send_took zero) n given awake state len inside flow fits =
      failed-Relays n (ground (arith, given, awake, len)) state
  send-Relays (send_took (suc k)) n given awake state len inside flow fits =
      elim (zero_or_more (n - suc k)) [
        | inl none_left ↦
            let left : sub_ℕ n (suc k) ≡ pos 0 = ground (arith, none_left) in
            (
              to_run,
              v,
              after_send n (suc k) st_recv,
              ground (arith, given, awake, len, left, none_left),
              after_send-IsRelay n k inside fits flow st_recv
                  (sent_all n k inside fits flow none_left),
            )
        | inr some_left ↦
            let still =
              after_send-IsRelay n k inside fits flow st_send
                (sent_some n k inside fits flow some_left) in
            let (ret, v', m', asks, relays) =
              wait_for-Relays e epoll_out v (after_send n (suc k) st_send) info still in
            let left : sub_ℕ n (suc k) ≡ pos (suc (n - suc k - 1)) = ground (arith, some_left) in
            let same : record (after_send n (suc k) st_send) { state = m.state }
                ≡ after_send n (suc k) st_send =
              ap (λ (t : State). record (after_send n (suc k) st_send) { state = t }) state in
            let goes : echo_send e mask (some v) m
                ≡ wait_for e epoll_out (some v)
                    (record (after_send n (suc k) st_send) { state = m.state }) =
              ground (arith, given, awake, len, left, some_left) in
            (ret, v', m', goes ∙ ap (wait_for e epoll_out (some v)) same ∙ asks, relays)
      ]
