-- ===== src/FakeHttpd/Examples.antt =====
-- Runs of the HTTP room.
use dungeon.Base.{
  ℕ, zero, suc, ◌+◌, ◌≡◌, refl, true, some, List, [], ◌∷◌, replicate, length-replicate, fault,
  arith,
}
use dungeon.Llist.View.{View}
use dungeon.Imp.{Request, no_event}
use dungeon.Tcp.{Conn, recv_failed, recv_got, send_took}
use dungeon.FakeHttpd.{st_recv, st_send_body, Memory, World, eagain, http_header, echo_driver}
use dungeon.FakeHttpd.Response.{IsServing, Serves}
use dungeon.FakeHttpd.Receiving.{IsTerse}
use dungeon.FakeHttpd.Serving.{echo_driver-IsServing}
use dungeon.FakeHttpd.Memoirs.{Round, AllSleepy, rounds, rounds_overflow}

-- One digit, for the small numbers here.
abbrev digit : ℕ → List ℕ
digit n = (b'0' + n) ∷ []

abbrev idle_conn : Conn
idle_conn = record {
  sd = 9;
  rcount = 0;
  scount = 0;
  first_r_tv = 0;
  last_r_tv = 0;
  first_s_tv = 0;
  last_s_tv = 0;
  received = [];
  sent = [];
}

abbrev accepted : Memory
accepted = record {
  conn = idle_conn;
  state = st_recv;
  length = 0;
  header = replicate 4096 0;
  header_len = 0;
  header_pos = 0;
  memoirs = [];
}

abbrev asked_for : World
asked_for = record {
  now = 5;
  recv = recv_got (1 ∷ 2 ∷ 3 ∷ []);
  send = send_took 3;
  errno = 0;
  info = true;
  io_node = true;
  timer_node = true;
  digits = digit;
  delta = digit 1;
  strerror = [];
}

asked_for-IsTerse : IsTerse digit asked_for
asked_for-IsTerse = record {
  same = refl;
  delta = omega arith;
  strerror = omega arith;
  numbers = λ n h. omega arith;
}

abbrev nothing_asked : View Request
nothing_asked = record { items = []; volume = 1000 }

accepted-IsServing : IsServing digit accepted
accepted-IsServing = record { size = length-replicate {A = ℕ} 4096 0; holds = refl }

echo_driver-IsServing_example :
    Serves digit (echo_driver asked_for no_event (some nothing_asked) accepted)
echo_driver-IsServing_example =
    echo_driver-IsServing digit asked_for no_event nothing_asked accepted accepted-IsServing
      asked_for-IsTerse refl (omega arith) (omega arith) (omega arith)

-- The header for 3 bytes was sent.
abbrev answering : Memory
answering = record accepted {
  conn = record idle_conn { sent = http_header digit 3 };
  state = st_send_body;
  length = 3;
}

abbrev sleepy : Round
sleepy = record {
  world = record asked_for { recv = recv_failed eagain };
  mask = no_event;
  requested = nothing_asked;
}

sleepy_rounds : (n : ℕ) → AllSleepy (replicate n sleepy)
sleepy_rounds zero = tt
sleepy_rounds (suc n) = ((refl, refl, refl, omega arith), sleepy_rounds n)

rounds_overflow_example : rounds (replicate 205 sleepy) accepted ≡ fault
rounds_overflow_example =
    rounds_overflow (replicate 205 sleepy) accepted (sleepy_rounds 205) refl (omega arith)
      (omega (arith, length-replicate 205 sleepy))
