-- ===== src/Echo.antt =====
-- src/modules/echo/mod.c, the room that sends back what it receives: the state machine of one
-- connection, `echo_driver`.
pub mod Invariant
pub mod Receiving
pub mod Sending
pub mod Keeping
pub mod Relay
mod Examples
use dungeon.Base.{
  ℕ, zero, suc, ◌+◌, ◌-◌, Bool, true, false, Option, none, some, List, [], ◌∷◌, ◌++◌, length, take,
  drop, ◌==◌, if◌then◌else◌, ℤ, pos, negsuc, Run, ok, fault, sub_ℕ, leb,
}
use dungeon.Llist.View.{View}
use dungeon.Imp.{Mask, Request, Retcode, to_run, to_block, to_term, Soul, imp_set_ioev}
use dungeon.Tcp.{Conn, Recv, Send, conn_tcp_recv_nb, conn_tcp_send_nb}

-- `enum state_en`, and any other value of the `int`
pub data State : Type 0 where
  st_recv st_send st_term st_ex st_other : State

-- `struct echoer_memory_st`; `buf` is an array of 4096 bytes.
pub record Memory : Type 0 where
  pub conn : Conn
  pub state : State
  pub buf : List ℕ
  pub len : ℤ
  pub pos : ℕ

abbrev pub bufsize : ℕ
bufsize = 4096

abbrev pub eagain : ℕ
eagain = 11

-- EPOLLIN|EPOLLRDHUP and EPOLLOUT|EPOLLRDHUP
abbrev pub epoll_in : ℕ
epoll_in = 0x2001

abbrev pub epoll_out : ℕ
epoll_out = 0x2004

-- What one call of the driver meets: the time, what `recv` and `send` do, `errno` behind `send`, and
-- the memory for the calls of `imp_set_ioev`.
pub record World : Type 0 where
  pub now : ℕ
  pub recv : Recv
  pub send : Send
  pub errno : ℕ
  pub info : Bool
  pub node : Bool

unfoldable pub echo_new : Memory → Memory
echo_new m = record m { state = st_recv; len = pos 0; pos = 0 }

abbrev pub Result : Type 0
Result = Run (Retcode × Option (View Request) × Memory)

-- `imp_set_ioev`, and the end of the imp if it fails
unfoldable pub wait_for : World → ℕ → Option (View Request) → Memory → Result
wait_for e events v m = elim (imp_set_ioev e.info e.node m.conn.sd events v) [
  | fault ↦ fault
  | ok (pos n, v') ↦ ok (to_block, v', m)
  | ok (negsuc n, v') ↦ ok (to_term, v', m)
]

unfoldable pub echo_recv : World → Mask → Option (View Request) → Memory → Result
echo_recv e mask v m =
    if mask.timer
    then ok (to_run, v, record m { state = st_ex })
    else let (ret, bytes, conn) = conn_tcp_recv_nb e.now e.recv m.conn in
      let got = record m { conn = conn; buf = bytes ++ drop (length bytes) m.buf; len = ret } in
      elim ret [
        | pos zero ↦ ok (to_run, v, record got { state = st_term })
        | negsuc n ↦
            if suc n == eagain
            then wait_for e epoll_in v got
            else ok (to_run, v, record got { state = st_ex })
        | pos (suc n) ↦ ok (to_run, v, record got { state = st_send; pos = 0 })
      ]

-- A negative length would be a huge `size_t`, a fault, as is a length that leaves the buffer.
unfoldable pub echo_send : World → Mask → Option (View Request) → Memory → Result
echo_send e mask v m =
    if mask.timer then ok (to_run, v, record m { state = st_ex }) else elim m.len [
      | negsuc n ↦ fault
      | pos len ↦
          let (ret, conn) = conn_tcp_send_nb e.now e.send m.conn (take len (drop m.pos m.buf)) in
          let failed =
            if e.errno == eagain
            then wait_for e epoll_out v (record m { conn = conn })
            else ok (to_run, v, record m { conn = conn; state = st_ex }) in
          if leb (m.pos + len) bufsize
          then elim ret [
            | negsuc n ↦ failed
            | pos zero ↦ failed
            | pos (suc n) ↦
                let left = sub_ℕ len (suc n) in
                let m' = record m { conn = conn; pos = m.pos + suc n; len = left } in
                elim left [
                  | negsuc k ↦ ok (to_run, v, record m' { state = st_recv })
                  | pos zero ↦ ok (to_run, v, record m' { state = st_recv })
                  | pos (suc k) ↦ wait_for e epoll_out v m'
                ]
          ]
          else fault
    ]

unfoldable pub echo_driver : World → Mask → Option (View Request) → Memory → Result
echo_driver e mask v m = elim m.state [
  | st_recv ↦ echo_recv e mask v m
  | st_send ↦ echo_send e mask v m
  | st_ex ↦ ok (to_run, v, record m { state = st_term })
  | st_term ↦ ok (to_term, v, m)
  | st_other ↦ ok (to_run, v, m)
]

-- The room as the imps see it, for one call of the driver.
unfoldable pub echoer_soul : World → Soul Memory
echoer_soul e = record { fsm_new = echo_new; fsm_driver = echo_driver e }
