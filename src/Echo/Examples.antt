-- ===== src/Echo/Examples.antt =====
-- Runs of the echo room.
use dungeon.Base.{◌⊎◌, ℕ, zero, suc, ◌≡◌, refl, true, some, List, [], ◌∷◌, length, arith, pos}
use dungeon.Llist.View.{View}
use dungeon.Imp.{Request, no_event}
use dungeon.Tcp.{recv_got, send_took}
use dungeon.Echo.{st_send, Memory, World, echo_driver}
use dungeon.Echo.Invariant.{IsRelay, Relays}
use dungeon.Echo.Keeping.{Continues, Trouble}
use dungeon.Echo.Relay.{echo_driver-IsRelay}

abbrev zeros : ℕ → List ℕ
zeros zero = []
zeros (suc n) = 0 ∷ zeros n

length-zeros : (n : ℕ) → length (zeros n) ≡ n
length-zeros zero = refl
length-zeros (suc n) = omega (arith, length-zeros n)

-- 7 and 8 were received, and wait to be sent back.
abbrev sending : Memory
sending = record {
  conn = record {
    sd = 9;
    rcount = 2;
    scount = 0;
    first_r_tv = 5;
    last_r_tv = 5;
    first_s_tv = 0;
    last_s_tv = 0;
    received = 7 ∷ 8 ∷ [];
    sent = [];
  };
  state = st_send;
  buf = 7 ∷ 8 ∷ zeros 4094;
  len = pos 2;
  pos = 0;
}

sending-IsRelay : IsRelay sending
sending-IsRelay = record {
  size = omega (arith, length-zeros 4094);
  holds = (2, refl, omega arith, omega arith, refl);
  rcount = refl;
  scount = refl;
}

-- `send` takes one byte of the two.
abbrev half : World
half = record {
  now = 6;
  recv = recv_got [];
  send = send_took 1;
  errno = 0;
  info = true;
  node = true;
}

abbrev empty : View Request
empty = record { items = []; volume = 1000 }

echo_driver-IsRelay_example :
    Relays (echo_driver half no_event (some empty) sending)
    × (Continues (echo_driver half no_event (some empty) sending)
        ⊎ Trouble half no_event empty sending)
echo_driver-IsRelay_example =
    echo_driver-IsRelay half no_event empty sending sending-IsRelay refl (omega arith) (omega arith)
