-- ===== src/Echo/Receiving.antt =====
-- `echo_driver` while it receives.
use dungeon.Base.{
  ℕ, zero, suc, ◌+◌, ◌≤◌, ◌≡◌, refl, sym, ap, ◌∙◌, true, false, some, List, [], ◌∷◌, ◌++◌, length,
  take, drop, length-append, length-drop, append-nil, take_within, take_all, ◌==◌, ℤ, pos, negsuc,
  Bool-cases, inl, inr, arith,
}
use dungeon.Llist.View.{View}
use dungeon.Imp.{Mask, Request, to_run}
use dungeon.Tcp.{Recv, recv_failed, recv_got, conn_tcp_recv_nb}
use dungeon.Echo.{
  State, st_recv, st_send, st_term, st_ex, Memory, World, bufsize, eagain, epoll_in, wait_for,
  echo_recv,
}
use dungeon.Echo.Invariant.{Holds, IsRelay, RecvFits, Relays, wait_for-Relays}

-- The memory behind a `recv` that gave `xs` and returned `ret`.
after_recv : World → Memory → List ℕ → ℤ → Memory
unfolding conn_tcp_recv_nb
after_recv e m xs ret = record m {
  conn = (conn_tcp_recv_nb e.now (recv_got xs) m.conn).2;
  buf = xs ++ drop (length xs) m.buf;
  len = ret;
}

after_recv-IsRelay :
    (e : World) (m : Memory) (xs : List ℕ) (ret : ℤ) (state : State) (p : ℕ)
    → IsRelay m
    → length xs ≤ bufsize
    → Holds (record (after_recv e m xs ret) { state = state; pos = p }) state
    → IsRelay (record (after_recv e m xs ret) { state = state; pos = p })
unfolding after_recv conn_tcp_recv_nb
after_recv-IsRelay e m [] ret state p relay fits holds = record {
  size = relay.size;
  holds = holds;
  rcount = relay.rcount;
  scount = relay.scount;
}
after_recv-IsRelay e m (x ∷ xs) ret state p relay fits holds = record {
  size =
      length-append (x ∷ xs) (drop (length (x ∷ xs)) m.buf)
      ∙ omega (arith, length-drop (length (x ∷ xs)) m.buf, relay.size);
  holds = holds;
  rcount =
      ap (λ n. n + length (x ∷ xs)) relay.rcount ∙ sym (length-append m.conn.received (x ∷ xs));
  scount = relay.scount;
}

module _ (e : World) (mask : Mask) (v : View Request) (m : Memory) (info : e.info ≡ true)
    (relay : IsRelay m) where
  pub recv-Relays :
      (r : Recv)
      → e.recv ≡ r
      → mask.timer ≡ false
      → m.state ≡ st_recv
      → RecvFits r
      → Relays (echo_recv e mask (some v) m)
  unfolding echo_recv conn_tcp_recv_nb after_recv
  recv-Relays (recv_failed zero) given awake state fits =
      let flow : m.conn.received ≡ m.conn.sent = rw state at relay.holds in
      (
        to_run,
        v,
        record (after_recv e m [] (pos 0)) { state = st_term; pos = m.pos },
        ground (arith, awake, given),
        after_recv-IsRelay e m [] (pos 0) st_term m.pos relay (omega arith)
            ([], flow ∙ sym (append-nil m.conn.sent)),
      )
  recv-Relays (recv_failed (suc n)) given awake state fits =
      let flow : m.conn.received ≡ m.conn.sent = rw state at relay.holds in
      let got = record (after_recv e m [] (negsuc n)) { state = st_recv; pos = m.pos } in
      let still : IsRelay got =
        after_recv-IsRelay e m [] (negsuc n) st_recv m.pos relay (omega arith) flow in
      elim (Bool-cases (suc n == eagain)) [
        | inl again ↦
            let (ret, v', m', run, left) = wait_for-Relays e epoll_in v got info still in
            let same : record m { len = negsuc n } ≡ got =
              ap (λ (t : State). record m { state = t; len = negsuc n }) state in
            let asks : echo_recv e mask (some v) m
                ≡ wait_for e epoll_in (some v) (record m { len = negsuc n }) =
              ground (arith, awake, given, again) in
            (ret, v', m', asks ∙ ap (wait_for e epoll_in (some v)) same ∙ run, left)
        | inr other ↦ (
          to_run,
          v,
          record got { state = st_ex },
          ground (arith, awake, given, other),
          after_recv-IsRelay e m [] (negsuc n) st_ex m.pos relay (omega arith)
              ([], flow ∙ sym (append-nil m.conn.sent)),
        )
      ]
  recv-Relays (recv_got []) given awake state fits =
      let flow : m.conn.received ≡ m.conn.sent = rw state at relay.holds in
      (
        to_run,
        v,
        record (after_recv e m [] (pos 0)) { state = st_term; pos = m.pos },
        ground (arith, awake, given),
        after_recv-IsRelay e m [] (pos 0) st_term m.pos relay (omega arith)
            ([], flow ∙ sym (append-nil m.conn.sent)),
      )
  recv-Relays (recv_got (x ∷ xs)) given awake state fits =
      let flow : m.conn.received ≡ m.conn.sent = rw state at relay.holds in
      let n = length (x ∷ xs) in
      let fresh : take n ((x ∷ xs) ++ drop n m.buf) ≡ x ∷ xs =
        take_within n (x ∷ xs) (drop n m.buf) (omega arith) ∙ take_all n (x ∷ xs) (omega arith) in
      (
        to_run,
        v,
        record (after_recv e m (x ∷ xs) (pos n)) { state = st_send; pos = 0 },
        ground (arith, awake, given),
        after_recv-IsRelay e m (x ∷ xs) (pos n) st_send 0 relay fits (
          n,
          refl,
          omega arith,
          omega (arith, fits),
          ap (λ ys. ys ++ x ∷ xs) flow ∙ ap (λ ys. m.conn.sent ++ ys) (sym fresh),
        ),
      )
