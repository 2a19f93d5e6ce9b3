-- ===== src/Tcp/Recvv.antt =====
-- src/util_conn_tcp.c, `conn_tcp_recvv_nb`: where the bytes go that it receives into a buffer list.
use dungeon.Base.{
  ℕ, zero, suc, ◌+◌, ◌-◌, ◌≤◌, ◌<◌, ◌≡◌, refl, sym, ap, ◌∙◌, Bool, true, false, ◌&&◌, some, List,
  [], ◌∷◌, ◌++◌, append-nil, length, ltb, Option, ◌==◌, Bool-cases, zero_or_more, if◌then◌else◌,
  ◌⊎◌, inl, inr, ℤ, pos, pos_part, ltb_ℤ, negsuc, arith,
}
use dungeon.BufferList.{Buffer, buffer_write}
use dungeon.BufferList.Bytes.{contents, IsValid, write_refused, write_taken}
use dungeon.Tcp.{
  Conn, Recv, recv_failed, recv_got, Answer, conn_tcp_recv_nb, again, errno_of, recvv_stopped,
  recvv_round, recvv_loop, conn_tcp_recvv_nb, neg,
}
use dungeon.Tcp.Receipt.{
  Fits, Received, asked, ended, stored, ended_failed, ended_closed, continued,
}

module _ (e : ℕ → Answer) (fuel k : ℕ) (c : Conn) (b : Buffer) (size total : ℕ) where
  round_done : size ≡ 0 → recvv_loop (suc fuel) e k c b size total ≡ some (pos total, c, b)
  unfolding recvv_loop
  round_done h = ground (arith, h)

  -- A round in terms of what `recv` answers.
  answered : Recv → Option (ℤ × Conn × Buffer)
  answered r =
      let (res, buf, c') = conn_tcp_recv_nb (e k).now r c in
      let (ret, b') = buffer_write (e k).block (e k).node (e k).cell b buf in
      recvv_round (recvv_stopped (errno_of r (e k).errno) res total) res ret total c' b b'
        (recvv_loop fuel e (k + 1) c' b' (size - asked size) (total + pos_part res))

  module _ (more : 0 < size) where
    round_answered : recvv_loop (suc fuel) e k c b size total ≡ answered ((e k).recv (asked size))
    unfolding recvv_loop answered
    round_answered = ground arith

  failed :
      (errno : ℕ)
      → answered (recv_failed errno)
        ≡ some ((if again errno && ltb 0 total then pos total else neg errno), c, b)
  unfolding answered recvv_round recvv_stopped conn_tcp_recv_nb
  failed zero = refl
  failed (suc n) = ground arith

  closed :
      answered (recv_got [])
      ≡ some ((if again (e k).errno && ltb 0 total then pos total else pos 0), c, b)
  unfolding answered recvv_round recvv_stopped conn_tcp_recv_nb
  closed = ground arith

  module _ (x : ℕ) (xs : List ℕ) where
    after : Conn
    after = (conn_tcp_recv_nb (e k).now (recv_got (x ∷ xs)) c).2

    written : ℤ × Buffer
    written = buffer_write (e k).block (e k).node (e k).cell b (x ∷ xs)

    arrived : answered (recv_got (x ∷ xs)) ≡ (
        if ltb_ℤ written.0 (pos 0)
        then some (pos total, after, written.1)
        else if written.1.bufsize == written.1.max
        then some (pos (total + length (x ∷ xs)), after, written.1)
        else recvv_loop fuel e
            (k + 1)
            after
            written.1
            (size - asked size)
            (total + length (x ∷ xs)))
    unfolding answered recvv_round conn_tcp_recv_nb after written
    arrived = ground arith

    after-received : after.received ≡ c.received ++ x ∷ xs
    unfolding after conn_tcp_recv_nb
    after-received = refl

Recv-cases :
    (r : Recv)
    → ((errno : ℕ) × (r ≡ recv_failed errno))
      ⊎ (r ≡ recv_got [])
      ⊎ ((x : ℕ) × (xs : List ℕ) × (r ≡ recv_got (x ∷ xs)))
Recv-cases (recv_failed errno) = inl (errno, refl)
Recv-cases (recv_got []) = inr (inl refl)
Recv-cases (recv_got (x ∷ xs)) = inr (inr (x, xs, refl))

module _ (e : ℕ → Answer) (fuel k : ℕ) (c : Conn) (b : Buffer) (size total x : ℕ) (xs : List ℕ)
    (valid : IsValid b) (fits : length (x ∷ xs) ≤ asked size) (within : asked size ≤ size) where
  abbrev new : Conn
  new = after e fuel k c b size total x xs

  abbrev out : ℤ × Buffer
  out = written e fuel k c b size total x xs

  abbrev memory : Bool
  memory = (e k).block && (e k).node && (e k).cell && ltb b.bufsize b.max

  arrived-lost :
      memory ≡ false
      → (r : ℤ × Conn × Buffer) × (answered e fuel k c b size total (recv_got (x ∷ xs)) ≡ some r)
        × Received e c b size total r
  unfolding written
  arrived-lost without =
      let w = write_refused valid (x ∷ xs) (e k).block (e k).node (e k).cell without in
      (
        (pos total, new, b),
        arrived e fuel k c b size total x xs ∙ rw w refl,
        record {
          got = [];
          lost = x ∷ xs;
          received = after-received e fuel k c b size total x xs;
          kept = sym (append-nil (contents b));
          fits = omega (arith, fits, within);
          valid = valid;
          tells = inl (ap pos (omega arith));
          spared = λ all room. absurd (ground (arith, all k, room, without));
        },
      )

  arrived-kept :
      memory ≡ true
      → ((c' : Conn) (b' : Buffer) (total' : ℕ)
          → IsValid b'
          → (r : ℤ × Conn × Buffer) × (recvv_loop fuel e (k + 1) c' b' (size - asked size) total'
              ≡ some r)
            × Received e c' b' (size - asked size) total' r)
      → (r : ℤ × Conn × Buffer) × (answered e fuel k c b size total (recv_got (x ∷ xs)) ≡ some r)
        × Received e c b size total r
  unfolding written
  arrived-kept with_memory next =
      let (ret, kept, valid', count, max) =
        write_taken valid (x ∷ xs) (e k).block (e k).node (e k).cell with_memory in
      elim (Bool-cases (out.1.bufsize == out.1.max)) [
        | inl full ↦ (
          (pos (total + length (x ∷ xs)), new, out.1),
          arrived e fuel k c b size total x xs ∙ rw (ret, full) (ground arith),
          stored (x ∷ xs) (after-received e fuel k c b size total x xs) kept
              (omega (arith, fits, within)) valid',
        )
        | inr room ↦
            let (r, run, rest) = next new out.1 (total + length (x ∷ xs)) valid' in
            (
              r,
              arrived e fuel k c b size total x xs ∙ rw (ret, room) (ground (arith, run)),
              continued (x ∷ xs) (after-received e fuel k c b size total x xs) kept
                  (omega (arith, fits, within)) rest
                  (λ all h. rest.spared all (ground (arith, count, max, h, with_memory, room))),
            )
      ]

  arrived-Received :
      ((c' : Conn) (b' : Buffer) (total' : ℕ)
        → IsValid b'
        → (r : ℤ × Conn × Buffer) × (recvv_loop fuel e (k + 1) c' b' (size - asked size) total'
            ≡ some r)
          × Received e c' b' (size - asked size) total' r)
      → (r : ℤ × Conn × Buffer) × (answered e fuel k c b size total (recv_got (x ∷ xs)) ≡ some r)
        × Received e c b size total r
  arrived-Received next = elim (Bool-cases memory) [
    | inl h ↦ arrived-kept h next
    | inr h ↦ arrived-lost h
  ]

-- The loop ends in at most as many rounds as bytes are wanted.
recvv_loop-Received :
    (e : ℕ → Answer)
    → Fits e
    → (fuel k : ℕ) (c : Conn) (b : Buffer) (size total : ℕ) → IsValid b
    → size < fuel
    → (r : ℤ × Conn × Buffer) × (recvv_loop fuel e k c b size total ≡ some r)
      × Received e c b size total r
recvv_loop-Received e fits zero k c b size total valid h = absurd (omega arith)
recvv_loop-Received e fits (suc fuel) k c b size total valid h = elim (zero_or_more size) [
  | inl none_left ↦ (_, round_done e fuel k c b size total none_left, ended valid (inl refl))
  | inr more ↦
      let step = round_answered e fuel k c b size total more in
      elim (Recv-cases ((e k).recv (asked size))) [
        | inl (errno, is) ↦ (
          _,
          step ∙ ap (answered e fuel k c b size total) is ∙ failed e fuel k c b size total errno,
          ended_failed e k valid errno is,
        )
        | inr (inl is) ↦ (
          _,
          step ∙ ap (answered e fuel k c b size total) is ∙ closed e fuel k c b size total,
          ended_closed e k valid (e k).errno is,
        )
        | inr (inr (x, xs, is)) ↦
            let few = fits k (asked size) (x ∷ xs) is in
            let next = λ (c' : Conn) (b' : Buffer) (total' : ℕ) (valid' : IsValid b').
              recvv_loop-Received e fits fuel (k + 1) c' b' (size - asked size) total' valid'
                (ground (arith, more, h)) in
            let (r, run, is_received) =
              arrived-Received e fuel k c b size total x xs valid few (ground arith) next in
            (r, step ∙ ap (answered e fuel k c b size total) is ∙ run, is_received)
      ]
]

-- If `recv` gives at most what it is asked for, the buffer is valid and the fuel is above the size,
-- `conn_tcp_recvv_nb` ends. The bytes that came out of the connection, at most `size` of them, are those put
-- behind the others in the buffer, in order, and then those lost, of which there are none if each
-- `malloc` of a write succeeds and the buffer had room. It tells the number put into the buffer, or, from a
-- round in which `recv` gave nothing, 0 at the end of the stream or the negated `errno`. The buffer stays
-- valid. Without memory for the block of `recv` nothing is received and -22 is told.
pub conn_tcp_recvv_nb-Received :
    (e : ℕ → Answer) (fuel : ℕ) (c : Conn) (b : Buffer) (size : ℕ)
    → Fits e
    → IsValid b
    → size < fuel
    → (r : ℤ × Conn × Buffer) × (conn_tcp_recvv_nb fuel true e c b size ≡ some r)
      × Received e c b size 0 r
      × (conn_tcp_recvv_nb fuel false e c b size ≡ some (negsuc 21, c, b))
unfolding conn_tcp_recvv_nb
conn_tcp_recvv_nb-Received e fuel c b size fits valid enough =
    let (r, run, received) = recvv_loop-Received e fits fuel 0 c b size 0 valid enough in
    (r, run, received, refl)

-- Into a full buffer: if the first `recv` gives bytes, they are lost, and the 0 that is told is that of the
-- end of the stream.
pub conn_tcp_recvv_nb_full :
    (e : ℕ → Answer) (fuel : ℕ) (c : Conn) (b : Buffer) (size x : ℕ) (xs : List ℕ)
    → IsValid b
    → b.bufsize ≡ b.max
    → 0 < size
    → (e 0).recv (asked size) ≡ recv_got (x ∷ xs)
    → (c' : Conn) × (conn_tcp_recvv_nb (suc fuel) true e c b size ≡ some (pos 0, c', b))
      × (c'.received ≡ c.received ++ x ∷ xs)
unfolding conn_tcp_recvv_nb written
conn_tcp_recvv_nb_full e fuel c b size x xs valid full more is =
    let w = write_refused valid (x ∷ xs) (e 0).block (e 0).node (e 0).cell (ground (arith, full)) in
    (
      after e fuel 0 c b size 0 x xs,
      round_answered e fuel 0 c b size 0 more
          ∙ ap (answered e fuel 0 c b size 0) is
          ∙ arrived e fuel 0 c b size 0 x xs
          ∙ rw w refl,
      after-received e fuel 0 c b size 0 x xs,
    )
