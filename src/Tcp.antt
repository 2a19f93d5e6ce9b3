-- ===== src/Tcp.antt =====
-- src/util_conn_tcp.c: receiving from and sending to a connection without blocking, the latter also from
-- a buffer list. What the kernel
-- answers is an argument, and so is the time.
pub mod Sendv
pub mod Receipt
pub mod Recvv
mod Examples
use dungeon.BufferList.{Node, Buffer, bytes, buffer_pop, buffer_move_head, buffer_write}
use dungeon.Base.{
  ◌-◌, leb, ltb, leb_ℤ, ltb_ℤ, pos_part, Bool, ◌&&◌, ◌||◌, Option, none, some, ℕ, zero, suc, ◌+◌,
  List, [], ◌∷◌, ◌++◌, length, take, ◌==◌, if◌then◌else◌, ℤ, pos, negsuc, minus_one,
}

-- `received` and `sent` are the bytes that went through `recv` and `send` so far; times are in
-- seconds, 0 if never.
pub record Conn : Type 0 where
  pub sd : ℕ
  pub rcount : ℕ
  pub scount : ℕ
  pub first_r_tv : ℕ
  pub last_r_tv : ℕ
  pub first_s_tv : ℕ
  pub last_s_tv : ℕ
  pub received : List ℕ
  pub sent : List ℕ

-- What `recv` does: it fails with an `errno`, or gives bytes, none at the end of the stream.
pub data Recv : Type 0 where
  recv_failed : (errno : ℕ) → Recv
  recv_got : List ℕ → Recv

-- What `send` does: it fails, or takes a number of bytes.
pub data Send : Type 0 where
  send_failed : Send
  send_took : ℕ → Send

-- `- n`
abbrev pub neg : ℕ → ℤ
neg zero = pos 0
neg (suc n) = negsuc n

-- `conn->first_r_tv` is set once, by `update_timeval`.
abbrev pub first_time : (now tv : ℕ) → ℕ
first_time now tv = if tv == 0 then now else tv

-- The result, the bytes that are now at the start of `buf`, and the connection.
unfoldable pub conn_tcp_recv_nb : (now : ℕ) → Recv → Conn → ℤ × List ℕ × Conn
conn_tcp_recv_nb now (recv_failed errno) c = (neg errno, [], c)
conn_tcp_recv_nb now (recv_got []) c = (pos 0, [], c)
conn_tcp_recv_nb now (recv_got (x ∷ xs)) c = (
  pos (length (x ∷ xs)),
  x ∷ xs,
  record c {
    first_r_tv = first_time now c.first_r_tv;
    last_r_tv = now;
    rcount = c.rcount + length (x ∷ xs);
    received = c.received ++ x ∷ xs;
  },
)

-- `data` is what the code asks to send.
unfoldable pub conn_tcp_send_nb : (now : ℕ) → Send → Conn → List ℕ → ℤ × Conn
conn_tcp_send_nb now send_failed c data' = (minus_one, c)
conn_tcp_send_nb now (send_took zero) c data' = (pos 0, c)
conn_tcp_send_nb now (send_took (suc n)) c data' = (
  pos (suc n),
  record c {
    first_s_tv = first_time now c.first_s_tv;
    last_s_tv = now;
    scount = c.scount + suc n;
    sent = c.sent ++ take (suc n) data';
  },
)

abbrev pub default_iovs : ℕ
default_iovs = 8

-- The first loop of `conn_tcp_sendv_nb`: the bytes that the `iovec`s point at, of which `slots` are left,
-- and `wanted` the bytes that are to be sent still.
unfoldable pub gather : (slots wanted : ℕ) → List Node → List ℕ
gather zero wanted ns = []
gather (suc slots) wanted [] = []
gather (suc slots) wanted (bn ∷ ns) =
    let rest = gather slots (wanted - bn.size) ns in
    if leb wanted 0
    then []
    else if ltb bn.size wanted
    then bytes bn.size bn ++ rest
    else bytes wanted bn

-- The second loop, which takes the bytes that were sent out of the buffer.
unfoldable pub drain : ℕ → Buffer → ℕ → Option Buffer
drain zero b n = none
drain (suc fuel) b n =
    let whole = λ (bn : Node). drain fuel (buffer_pop b).1 (n - bn.size) in
    let part = drain fuel (buffer_move_head b n).1 0 in
    if leb n 0
    then some b
    else elim (b.base.items) [ [] ↦ some b | bn ∷ ns ↦ if leb bn.size n then whole bn else part ]

-- `writev` fails, or takes a number of the bytes that it is given. The result, the bytes that it took, and
-- the buffer.
unfoldable pub conn_tcp_sendv_nb : ℕ → Send → Buffer → ℕ → Option (ℤ × List ℕ × Buffer)
conn_tcp_sendv_nb fuel send_failed b size = some (minus_one, [], b)
conn_tcp_sendv_nb fuel (send_took n) b size = elim (drain fuel b n) [
  | none ↦ none
  | some b' ↦ some (pos n, take n (gather default_iovs size b.base.items), b')
]

abbrev pub data_bufsize : ℕ
data_bufsize = 4096

-- What the system does in one round of `conn_tcp_recvv_nb`: the answer of `recv` to a request for a number
-- of bytes, the time, what `errno` holds if `recv` does not set it, and which `malloc` of `buffer_write`
-- succeed.
pub record Answer : Type 0 where
  pub recv : ℕ → Recv
  pub now : ℕ
  pub errno : ℕ
  pub block : Bool
  pub node : Bool
  pub cell : Bool

-- `errno == EAGAIN || errno == EINTR`
abbrev pub again : ℕ → Bool
again e = (e == 11) || (e == 4)

-- `errno` behind a `recv` that gave nothing.
abbrev pub errno_of : Recv → ℕ → ℕ
errno_of (recv_failed errno) stale = errno
errno_of (recv_got xs) stale = stale

-- What `conn_tcp_recvv_nb` returns if `recv` gave nothing: `total` bytes were received before.
unfoldable pub recvv_stopped : ℕ → ℤ → ℕ → ℤ
recvv_stopped errno res total =
    if again errno && ltb 0 total
    then pos total
    else elim res [ pos n ↦ if n == 0 then pos 0 else neg errno | negsuc n ↦ neg errno ]

-- A round of `conn_tcp_recvv_nb` behind its calls: `recv` gave `res` and left the connection `c`,
-- `buffer_write` made `ret` and `b'` of the bytes and `b`; `rest` is what the further rounds give.
unfoldable pub recvv_round :
    (stopped res ret : ℤ) (total : ℕ) (c : Conn) (b b' : Buffer) (rest : Option (ℤ × Conn × Buffer))
    → Option (ℤ × Conn × Buffer)
recvv_round stopped res ret total c b b' rest =
    if leb_ℤ res (pos 0)
    then some (stopped, c, b)
    else if ltb_ℤ ret (pos 0)
    then some (pos total, c, b')
    else if b'.bufsize == b'.max
    then some (pos (total + pos_part res), c, b')
    else rest

-- The loop of `conn_tcp_recvv_nb`, in the round `k`.
unfoldable pub recvv_loop :
    ℕ → (ℕ → Answer) → ℕ → Conn → Buffer → (size total : ℕ) → Option (ℤ × Conn × Buffer)
unfolding conn_tcp_recv_nb buffer_write recvv_stopped recvv_round
recvv_loop zero e k c b size total = none
recvv_loop (suc fuel) e k c b size total =
    let s = if ltb data_bufsize size then data_bufsize else size in
    let a = e k in
    let (res, buf, c') = conn_tcp_recv_nb a.now (a.recv s) c in
    let (ret, b') = buffer_write a.block a.node a.cell b buf in
    let rest = recvv_loop fuel e (k + 1) c' b' (size - s) (total + pos_part res) in
    let stopped = recvv_stopped (errno_of (a.recv s) a.errno) res total in
    if leb size 0 then some (pos total, c, b) else recvv_round stopped res ret total c' b b' rest

-- `memory` is the `malloc` of the block that `recv` writes to; -22 is `-EINVAL`.
unfoldable pub conn_tcp_recvv_nb :
    ℕ → Bool → (ℕ → Answer) → Conn → Buffer → ℕ → Option (ℤ × Conn × Buffer)
unfolding recvv_loop
conn_tcp_recvv_nb fuel memory e c b size =
    if memory then recvv_loop fuel e 0 c b size 0 else some (negsuc 21, c, b)
