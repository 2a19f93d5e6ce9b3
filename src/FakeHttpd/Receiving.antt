-- ===== src/FakeHttpd/Receiving.antt =====
-- `echo_driver` while it receives and makes the header.
use dungeon.Base.{
  ℕ, zero, suc, ◌+◌, ◌≤◌, ◌<◌, ◌≡◌, refl, sym, ap, ◌∙◌, inl, inr, true, false, some, List, [], ◌∷◌,
  ◌++◌, length, length-append, length-drop, append-nil, append_assoc, take, drop, take_all,
  take_within, ◌==◌, Bool-cases, arith,
}
use dungeon.Llist.View.{View}
use dungeon.Imp.{Request}
use dungeon.Tcp.{Recv, recv_failed, recv_got, Send, send_failed, send_took, conn_tcp_recv_nb}
use dungeon.FakeHttpd.Texts.{codes}
use dungeon.FakeHttpd.{
  State, st_recv, st_prepare_header, st_send_header, st_send_body, st_term, st_ex, st_other, Memory,
  World, bufsize, size_max, eagain, epoll_in, http_header, padding_data_size, min, log, received,
  echo_prepare,
}
use dungeon.FakeHttpd.Response.{
  IsHttp, IsServing, Serves, line_room, length-log, go-Serves, sleep-Serves,
}

-- What `printf` writes is as short as a number or a message of the system can be.
pub record IsTerse (digits : ℕ → List ℕ) (e : World) : Type 0 where
  pub same : e.digits ≡ digits
  pub delta : length e.delta ≤ 20
  pub strerror : length e.strerror ≤ 128
  pub numbers : (n : ℕ) → n < size_max → length (digits n) ≤ 20

-- `recv` gives no more bytes than the buffer takes, and `send` takes no more than it is offered.
abbrev pub RecvFits : Recv → Type 0
RecvFits (recv_failed errno) = Unit
RecvFits (recv_got xs) = length xs ≤ bufsize

abbrev pub SendFits : Send → ℕ → Type 0
SendFits send_failed n = Unit
SendFits (send_took k) n = k ≤ n

abbrev pub offered : Memory → State → ℕ
offered m st_send_header = m.header_len
offered m st_send_body = min padding_data_size m.length
offered m st_recv = bufsize
offered m st_prepare_header = bufsize
offered m st_term = bufsize
offered m st_ex = bufsize
offered m st_other = bufsize

module _ (digits : ℕ → List ℕ) (e : World) (v : View Request) (m : Memory)
    (terse : IsTerse digits e) (info : e.info ≡ true)
    (room : length m.memoirs + line_room digits < bufsize) (h : IsServing digits m) where
  pub fits :
      (name what : List ℕ)
      → length name + length what ≤ 170
      → length m.memoirs + length (log e name what) < bufsize
  fits name what small = omega (arith, room, terse.delta, small, length-log digits e name what m)

  pub begun : m.conn.sent ≡ [] → (n : ℕ) × (rest : List ℕ) × IsHttp digits n (m.conn.sent ++ rest)
  begun none_sent = (
    0,
    http_header digits 0,
    ([], rw none_sent (sym (append-nil (http_header digits 0))), tt, refl),
  )

  -- The line for an error of the system.
  unfoldable pub errors : List ℕ
  errors = codes "error: " ++ (e.strerror ++ codes "->")

  pub length-errors : length errors ≤ 137
  unfolding errors
  length-errors = omega (arith, terse.strerror, length-append e.strerror (codes "->"))

  pub recv-Serves :
      (r : Recv)
      → m.conn.sent ≡ []
      → m.state ≡ st_recv
      → RecvFits r
      → let (ret, bytes, conn) = conn_tcp_recv_nb e.now r m.conn in
        Serves digits (received e (some v) m ret conn)
  unfolding received conn_tcp_recv_nb errors
  recv-Serves (recv_failed zero) none_sent state few =
      go-Serves digits e (codes "ST_RECV") (codes "EOF->") m st_term v
        (fits (codes "ST_RECV") (codes "EOF->") (omega arith)) h.size (begun none_sent)
  recv-Serves (recv_failed (suc n)) none_sent state few = elim (Bool-cases (suc n == eagain)) [
    | inl again ↦ rw again (
        sleep-Serves digits e (codes "ST_RECV") epoll_in v m info
          (fits (codes "ST_RECV") (codes "sleep->") (omega arith)) h)
    | inr other ↦ rw other (
        go-Serves digits e (codes "ST_RECV") errors m st_ex v
          (fits (codes "ST_RECV") errors (omega (arith, length-errors))) h.size (begun none_sent))
  ]
  recv-Serves (recv_got []) none_sent state few =
      go-Serves digits e (codes "ST_RECV") (codes "EOF->") m st_term v
        (fits (codes "ST_RECV") (codes "EOF->") (omega arith)) h.size (begun none_sent)
  recv-Serves (recv_got (x ∷ xs)) none_sent state few =
      let conn = (conn_tcp_recv_nb e.now (recv_got (x ∷ xs)) m.conn).2 in
      go-Serves digits e (codes "ST_RECV") (codes "OK->")
        (record m { conn = conn; length = length (x ∷ xs) }) st_prepare_header v
        (fits (codes "ST_RECV") (codes "OK->") (omega arith)) h.size (none_sent, omega arith, few)

  pub header_fits :
      m.length ≤ bufsize
      → (0 < length (http_header digits m.length)) × (length (http_header digits m.length) ≤ 120)
  unfolding http_header
  header_fits few =
      let whole = length-append (digits m.length) (codes "\r\n\r\n") in
      (omega arith, omega (arith, whole, terse.numbers m.length (omega arith)))

  pub prepare-Serves :
      m.conn.sent ≡ []
      → 0 < m.length
      → m.length ≤ bufsize
      → Serves digits (echo_prepare e (some v) m)
  unfolding echo_prepare
  prepare-Serves none_sent some_asked few =
      let text = http_header digits m.length in
      let (some_there, short) = header_fits few in
      let all : take 4095 text ≡ text = take_all 4095 text (omega (arith, short)) in
      let ends : (length text == bufsize) ≡ false = ground (arith, short) in
      let written = text ++ 0 ∷ [] in
      let m' = record m {
        header = written ++ drop (length written) m.header;
        header_len = length text;
        header_pos = 0;
      } in
      rw (terse.same, all, ends)
        (go-Serves digits e (codes "ST_PREPARE_HEADER") (codes "OK->") m' st_send_header v
          (fits (codes "ST_PREPARE_HEADER") (codes "OK->") (omega arith))
          (length-append written (drop (length written) m.header)
            ∙ omega (
              arith,
              short,
              length-append text (0 ∷ []),
              length-drop (length written) m.header,
              h.size,
            ))
          (
            some_asked,
            few,
            some_there,
            omega arith,
            none_sent,
            ap (take (length text)) (append_assoc text (0 ∷ []) (drop (length written) m.header))
                ∙ take_within (length text) text (0 ∷ drop (length written) m.header) (omega arith)
                ∙ take_all (length text) text (omega arith),
          ))
