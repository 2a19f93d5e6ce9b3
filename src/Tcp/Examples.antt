-- ===== src/Tcp/Examples.antt =====
-- Runs of util_conn_tcp.c.
use dungeon.Base.{
  ℕ, List, ℤ, ap, true, false, take, length, length-take, ◌≡◌, refl, some, [], ◌∷◌, ◌++◌, arith,
  pos, negsuc, minus_one,
}
use dungeon.BufferList.{Buffer}
use dungeon.BufferList.Bytes.{contents, IsValid}
use dungeon.Tcp.{
  Conn, Recv, recv_got, Answer, conn_tcp_recvv_nb, recv_failed, send_took, send_failed,
  conn_tcp_recv_nb, gather, conn_tcp_sendv_nb,
}
use dungeon.Tcp.Receipt.{Received}
use dungeon.Tcp.Recvv.{conn_tcp_recvv_nb-Received}
use dungeon.Tcp.Sendv.{conn_tcp_sendv_nb-front}

-- The bytes 1 2 3 in one node and 4 in the next.
abbrev two_nodes : Buffer
two_nodes = record {
  base = record {
    items =
        record { start = 1 ∷ 2 ∷ 3 ∷ []; pos = 0; size = 3 }
        ∷ record { start = 4 ∷ []; pos = 0; size = 1 }
        ∷ [];
    volume = 3;
  };
  bufsize = 2;
  max = 3;
  nbytes = 4;
}

two_nodes-IsValid : IsValid two_nodes
two_nodes-IsValid = record {
  fit = (omega arith, (omega arith, tt));
  counted = refl;
  summed = refl;
  room = refl;
}

abbrev unused : Conn
unused = record {
  sd = 9;
  rcount = 0;
  scount = 0;
  first_r_tv = 0;
  last_r_tv = 0;
  first_s_tv = 0;
  last_s_tv = 0;
  received = [];
  sent = [];
}

recv_error : conn_tcp_recv_nb 5 (recv_failed 11) unused ≡ (negsuc 10, [], unused)
unfolding conn_tcp_recv_nb
recv_error = refl

-- Four bytes are offered, and two are taken.
conn_tcp_sendv_nb-front_example :
    (b' : Buffer) × (conn_tcp_sendv_nb 4 (send_took 2) two_nodes 9 ≡ some (pos 2, 1 ∷ 2 ∷ [], b'))
    × IsValid b'
    × (1 ∷ 2 ∷ [] ++ contents b' ≡ 1 ∷ 2 ∷ 3 ∷ 4 ∷ [])
    × (conn_tcp_sendv_nb 4 send_failed two_nodes 9 ≡ some (minus_one, [], two_nodes))
unfolding gather
conn_tcp_sendv_nb-front_example =
    conn_tcp_sendv_nb-front 4 two_nodes 9 2 two_nodes-IsValid (omega arith) (omega arith)

-- A peer of which five bytes can be read in each round.
abbrev five : ℕ → Answer
five k = record {
  recv = λ s. recv_got (take s (1 ∷ 2 ∷ 3 ∷ 4 ∷ 5 ∷ []));
  now = 7;
  errno = 0;
  block = true;
  node = true;
  cell = true;
}

got_inj : {xs ys : List ℕ} → recv_got xs ≡ recv_got ys → length xs ≡ length ys
got_inj h = ap (λ (r : Recv). elim r [ recv_failed n ↦ 0 | recv_got zs ↦ length zs ]) h

conn_tcp_recvv_nb-Received_example :
    (r : ℤ × Conn × Buffer) × (conn_tcp_recvv_nb 9 true five unused two_nodes 8 ≡ some r)
    × Received five unused two_nodes 8 0 r
    × (conn_tcp_recvv_nb 9 false five unused two_nodes 8 ≡ some (negsuc 21, unused, two_nodes))
conn_tcp_recvv_nb-Received_example =
    conn_tcp_recvv_nb-Received five 9 unused two_nodes 8
      (λ k s xs h. omega (arith, got_inj h, length-take {A = ℕ} s (1 ∷ 2 ∷ 3 ∷ 4 ∷ 5 ∷ [])))
      two_nodes-IsValid (omega arith)
