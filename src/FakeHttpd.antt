-- ===== src/FakeHttpd.antt =====
-- src/modules/fake_httpd/mod.c, the room that answers whatever it receives with an HTTP response of
-- the same length: the state machine of one connection, `echo_driver`.
pub mod Texts
pub mod Response
pub mod Receiving
pub mod Sending
pub mod Serving
pub mod Memoirs
mod Examples
use dungeon.Base.{
  ℕ, zero, suc, ◌+◌, ◌-◌, ◌%◌, ◌^◌, Bool, true, false, ◌||◌, Option, none, some, List, [], ◌∷◌,
  ◌++◌, length, take, drop, ◌==◌, ltb, leb, if◌then◌else◌, ℤ, pos, negsuc, Run, ok, fault, ◌>>=◌,
  replicate,
}
use dungeon.Llist.View.{View}
use dungeon.Imp.{
  Mask, Request, Retcode, to_run, to_block, to_term, Soul, imp_set_ioev, imp_set_timer,
}
use dungeon.Tcp.{Conn, Recv, Send, conn_tcp_recv_nb, conn_tcp_send_nb}
use dungeon.FakeHttpd.Texts.{codes}

-- `enum state_en`, and any other value of the `int`
pub data State : Type 0 where
  st_recv st_prepare_header st_send_header st_send_body st_term st_ex st_other : State

-- `struct echoer_memory_st`; `header` is its whole array, and `memoirs` the text up to the NUL.
pub record Memory : Type 0 where
  pub conn : Conn
  pub state : State
  pub length : ℕ
  pub header : List ℕ
  pub header_len : ℕ
  pub header_pos : ℕ
  pub memoirs : List ℕ

abbrev pub bufsize : ℕ
bufsize = 4096

abbrev pub size_max : ℕ
size_max = 2 ^ 64

abbrev pub eagain : ℕ
eagain = 11

-- EPOLLIN|EPOLLRDHUP and EPOLLOUT|EPOLLRDHUP
abbrev pub epoll_in : ℕ
epoll_in = 0x2001

abbrev pub epoll_out : ℕ
epoll_out = 0x2004

-- What one call of the driver meets: the time, what `recv` and `send` do, `errno` behind `send`, the
-- memory for `imp_set_ioev` and `imp_set_timer`, and what `printf` writes for a number, for the
-- seconds of `delta_t` and for `%m`.
pub record World : Type 0 where
  pub now : ℕ
  pub recv : Recv
  pub send : Send
  pub errno : ℕ
  pub info : Bool
  pub io_node : Bool
  pub timer_node : Bool
  pub digits : ℕ → List ℕ
  pub delta : List ℕ
  pub strerror : List ℕ

abbrev pub Result : Type 0
Result = Run (Retcode × Option (View Request) × Memory)

-- `fake_http_header_fmt` with its number
unfoldable pub http_header : (ℕ → List ℕ) → ℕ → List ℕ
http_header digits n =
    codes "HTTP/1.1 200 OK\r\nContent-Type: text/plain; charset=utf-8\r\nContent-Length: "
    ++ (digits n ++ codes "\r\n\r\n")

-- `padding_data`: 1024 letters a and the NUL that `sizeof` counts
unfoldable pub padding_data : List ℕ
padding_data = replicate 1024 b'a' ++ 0 ∷ []

abbrev pub padding_data_size : ℕ
padding_data_size = 1025

-- `strcat(mem->memoirs, log)`; a text that leaves no room for the NUL runs over the array.
unfoldable pub strcat : List ℕ → Memory → Run Memory
strcat log m =
    if ltb (length m.memoirs + length log) bufsize
    then ok (record m { memoirs = m.memoirs ++ log })
    else fault

-- `sprintf(log, "NAME[+%ds] WHAT", delta_t())`
unfoldable pub log : World → List ℕ → List ℕ → List ℕ
log e name what = name ++ (codes "[+" ++ (e.delta ++ (codes "s] " ++ what)))

-- A line of `memoirs`, and the state behind it.
unfoldable pub go : World → List ℕ → List ℕ → State → Option (View Request) → Memory → Result
unfolding strcat log
go e name what state v m = do
  m' ← strcat (log e name what) m
  ok (to_run, v, record m' { state = state })

-- "sleep->", `imp_set_ioev` and `imp_set_timer`, whose results are not looked at.
unfoldable pub sleep : World → List ℕ → ℕ → Option (View Request) → Memory → Result
unfolding strcat log
sleep e name events v m = do
  m' ← strcat (log e name (codes "sleep->")) m
  (_, v₁) ← imp_set_ioev e.info e.io_node m.conn.sd events v
  (_, v₂) ← imp_set_timer e.timer_node v₁
  ok (to_block, v₂, m')

-- What stands behind `conn_tcp_recv_nb`, which answers the negative of `errno` if it fails.
unfoldable pub received : World → Option (View Request) → Memory → ℤ → Conn → Result
unfolding go sleep
received e v m (pos zero) conn =
    go e (codes "ST_RECV") (codes "EOF->") st_term v (record m { conn = conn })
received e v m (negsuc n) conn =
    let name = codes "ST_RECV" in
    let got = record m { conn = conn } in
    if suc n == eagain
    then sleep e name epoll_in v got
    else go e name (codes "error: " ++ (e.strerror ++ codes "->")) st_ex v got
received e v m (pos (suc n)) conn =
    go e (codes "ST_RECV") (codes "OK->") st_prepare_header v
      (record m { conn = conn; length = suc n })

unfoldable pub echo_recv : World → Mask → Option (View Request) → Memory → Result
unfolding go received
echo_recv e mask v m =
    if mask.timer || mask.err
    then go e (codes "ST_RECV") (codes "timed out->") st_ex v m
    else let (ret, bytes, conn) = conn_tcp_recv_nb e.now e.recv m.conn in received e v m ret conn

-- `snprintf` writes as much as fits and a NUL, and answers the length of the whole text.
unfoldable pub echo_prepare : World → Option (View Request) → Memory → Result
unfolding go
echo_prepare e v m =
    let name = codes "ST_PREPARE_HEADER" in
    let text = http_header e.digits m.length in
    let written = take (bufsize - 1) text ++ 0 ∷ [] in
    let m' = record m {
      header = written ++ drop (length written) m.header;
      header_len = length text;
    } in
    if length text == bufsize
    then go e name (codes "Header id too long!->") st_ex v m'
    else go e name (codes "OK->") st_send_header v (record m' { header_pos = 0 })

-- What stands behind a `send` that answered 0 or less.
unfoldable pub send_stopped : World → List ℕ → Option (View Request) → Memory → Result
unfolding go sleep
send_stopped e name v m =
    if e.errno == eagain
    then sleep e name epoll_out v m
    else go e name (codes "error: " ++ (e.strerror ++ codes "->")) st_ex v m

-- "%d bytes sent, "
abbrev pub sent_line : World → ℕ → List ℕ → List ℕ
sent_line e n what = e.digits n ++ (codes " bytes sent, " ++ what)

-- What stands behind the `send` of a part of the header.
unfoldable pub sent_header : World → Option (View Request) → Memory → ℤ → Conn → Result
unfolding go send_stopped
sent_header e v m (negsuc n) conn =
    send_stopped e (codes "ST_SEND_HEADER") v (record m { conn = conn })
sent_header e v m (pos zero) conn =
    send_stopped e (codes "ST_SEND_HEADER") v (record m { conn = conn })
sent_header e v m (pos (suc n)) conn =
    let name = codes "ST_SEND_HEADER" in
    let left = (m.header_len + size_max - suc n) % size_max in
    let m' = record m { conn = conn; header_pos = m.header_pos + suc n; header_len = left } in
    if left == 0
    then go e name (sent_line e (suc n) (codes "OK->")) st_send_body v m'
    else go e name (sent_line e (suc n) (codes "again->")) m.state v m'

-- A read past the header's array is a fault.
unfoldable pub echo_send_header : World → Mask → Option (View Request) → Memory → Result
unfolding go sent_header
echo_send_header e mask v m =
    if mask.timer || mask.err
    then go e (codes "ST_SEND_HEADER") (codes "timed out or error->") st_ex v m
    else if ltb bufsize (m.header_pos + m.header_len)
    then fault
    else let (ret, conn) =
        conn_tcp_send_nb e.now e.send m.conn (take m.header_len (drop m.header_pos m.header)) in
      sent_header e v m ret conn

-- The macro `min`.
abbrev pub min : ℕ → ℕ → ℕ
min x y = if ltb y x then y else x

-- What stands behind the `send` of a part of the body.
unfoldable pub sent_body : World → Option (View Request) → Memory → ℤ → Conn → Result
unfolding go send_stopped
sent_body e v m (negsuc n) conn = send_stopped e (codes "ST_SEND_BODY") v (record m { conn = conn })
sent_body e v m (pos zero) conn = send_stopped e (codes "ST_SEND_BODY") v (record m { conn = conn })
sent_body e v m (pos (suc n)) conn =
    let name = codes "ST_SEND_BODY" in
    let left = (m.length + size_max - suc n) % size_max in
    let m' = record m { conn = conn; length = left } in
    if left == 0
    then go e name (sent_line e (suc n) (codes "OK->")) st_term v m'
    else go e name (sent_line e (suc n) (codes "again->")) m.state v m'

unfoldable pub echo_send_body : World → Mask → Option (View Request) → Memory → Result
unfolding go sent_body
echo_send_body e mask v m =
    if mask.timer || mask.err
    then go e (codes "ST_SEND_BODY") (codes "timed out or error->") st_ex v m
    else let (ret, conn) =
        conn_tcp_send_nb e.now e.send m.conn (take (min padding_data_size m.length) padding_data) in
      sent_body e v m ret conn

unfoldable pub echo_driver : World → Mask → Option (View Request) → Memory → Result
unfolding go
echo_driver e mask v m = elim m.state [
  | st_recv ↦ echo_recv e mask v m
  | st_prepare_header ↦ echo_prepare e v m
  | st_send_header ↦ echo_send_header e mask v m
  | st_send_body ↦ echo_send_body e mask v m
  | st_ex ↦ go e (codes "ST_Ex") (codes "Exception happened!") st_term v m
  | st_term ↦ ok (to_term, v, m)
  | st_other ↦ ok (to_run, v, m)
]

-- The line with which the memoirs of a connection begin is `snprintf`'s, cut to the array.
unfoldable pub echo_new : List ℕ → Memory → Memory
echo_new line m = record m { state = st_recv; length = 0; memoirs = take (bufsize - 1) line }

-- The room as the imps see it, for one call of the driver.
unfoldable pub echoer_soul : World → List ℕ → Soul Memory
echoer_soul e line = record { fsm_new = echo_new line; fsm_driver = echo_driver e }
