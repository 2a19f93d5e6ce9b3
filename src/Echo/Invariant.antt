-- ===== src/Echo/Invariant.antt =====
-- The invariant of a connection's memory, and the calls of `imp_set_ioev`, which keep it.
use dungeon.Base.{
  ℕ, ◌+◌, ◌≤◌, ◌<◌, ◌≡◌, ◌∙◌, true, some, List, [], ◌∷◌, ◌++◌, length, take, drop, ltb, ◌&&◌,
  if◌then◌else◌, ℤ, pos, negsuc, ok, Bool-cases, inl, inr, arith,
}
use dungeon.Llist.View.{View, append_nb}
use dungeon.Imp.{Request, Retcode, to_block, to_term, imp_set_ioev, request, io}
use dungeon.Tcp.{Recv, recv_failed, recv_got, Send, send_failed, send_took}
use dungeon.Echo.{
  State, st_recv, st_send, st_term, st_ex, st_other, Memory, World, Result, bufsize, wait_for,
}

-- The bytes between `pos` and `pos + n` of the buffer.
abbrev pub pending : Memory → ℕ → List ℕ
pending m n = take n (drop m.pos m.buf)

-- What the connection received and has not sent, by state: nothing while it receives, the pending
-- bytes while it sends, and whatever is lost behind an exception or at the end.
abbrev pub Holds : Memory → State → Type 0
Holds m st_recv = m.conn.received ≡ m.conn.sent
Holds m st_send =
    (n : ℕ) × (m.len ≡ pos n)
    × (0 < n)
    × (m.pos + n ≤ bufsize)
    × (m.conn.received ≡ m.conn.sent ++ pending m n)
Holds m st_ex = (lost : List ℕ) × (m.conn.received ≡ m.conn.sent ++ lost)
Holds m st_term = (lost : List ℕ) × (m.conn.received ≡ m.conn.sent ++ lost)
Holds m st_other = ⊥

pub record IsRelay (m : Memory) : Type 0 where
  pub size : length m.buf ≡ bufsize
  pub holds : Holds m m.state
  pub rcount : m.conn.rcount ≡ length m.conn.received
  pub scount : m.conn.scount ≡ length m.conn.sent

-- `recv` gives no more bytes than the buffer takes, and `send` takes no more than it is offered.
abbrev pub RecvFits : Recv → Type 0
RecvFits (recv_failed errno) = Unit
RecvFits (recv_got xs) = length xs ≤ bufsize

abbrev pub SendFits : Send → ℤ → Type 0
SendFits send_failed len = Unit
SendFits (send_took n) (pos len) = n ≤ len
SendFits (send_took n) (negsuc len) = Unit

abbrev pub Relays : Result → Type 0
Relays r =
    (ret : Retcode) × (v : View Request) × (m : Memory) × (r ≡ ok (ret, some v, m)) × IsRelay m

abbrev pub asked : World → ℕ → View Request → Memory → View Request
asked e events v m = record v { items = v.items ++ io m.conn.sd events ∷ [] }

pub wait_for_cases :
    (e : World) (events : ℕ) (v : View Request) (m : Memory)
    → e.info ≡ true
    → wait_for e events (some v) m ≡ (
        if ltb (length v.items) v.volume && e.node
        then ok (to_block, some (asked e events v m), m)
        else ok (to_term, some v, m))
unfolding wait_for imp_set_ioev request append_nb
wait_for_cases e events v m info = ground (arith, info)

pub wait_for-Relays :
    (e : World) (events : ℕ) (v : View Request) (m : Memory)
    → e.info ≡ true
    → IsRelay m
    → Relays (wait_for e events (some v) m)
wait_for-Relays e events v m info relay =
    elim (Bool-cases (ltb (length v.items) v.volume && e.node)) [
      | inl h ↦ (to_block, asked e events v m, m, wait_for_cases e events v m info ∙ rw h, relay)
      | inr h ↦ (to_term, v, m, wait_for_cases e events v m info ∙ rw h, relay)
    ]
