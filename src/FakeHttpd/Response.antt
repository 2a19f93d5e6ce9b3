-- ===== src/FakeHttpd/Response.antt =====
-- The invariant of a connection's memory: what was sent is the beginning of an HTTP response whose
-- body has the length that its header gives.
use dungeon.Base.{
  ℕ, ◌+◌, ◌≤◌, ◌<◌, ◌≡◌, refl, ap, ◌⊎◌, true, false, some, List, [], ◌∷◌, ◌++◌, length,
  length-append, take, lt→ltb, ok, ◌>>=◌, arith,
}
use dungeon.Llist.View.{View, append_nb}
use dungeon.Imp.{
  Request, Retcode, to_run, to_block, imp_set_ioev, imp_set_timer, request, io, ev_timer,
}
use dungeon.FakeHttpd.Texts.{codes}
use dungeon.FakeHttpd.{
  State, st_recv, st_prepare_header, st_send_header, st_send_body, st_term, st_ex, st_other, Memory,
  World, Result, bufsize, http_header, strcat, log, go, sleep,
}

-- The bytes of `padding_data`.
abbrev pub Padded : List ℕ → Type 0
Padded [] = Unit
Padded (b ∷ bs) = ((b ≡ b'a') ⊎ (b ≡ 0)) × Padded bs

module _ (digits : ℕ → List ℕ) where
  -- A response: the header for `n` bytes, and `n` bytes.
  abbrev pub IsHttp : ℕ → List ℕ → Type 0
  IsHttp n r =
      (body : List ℕ) × (r ≡ http_header digits n ++ body) × Padded body × (length body ≡ n)

  -- What was sent, by state: nothing, a part of the header, the header and a part of the body, or
  -- any part of a response.
  abbrev pub Holds : Memory → State → Type 0
  Holds m st_recv = m.conn.sent ≡ []
  Holds m st_prepare_header = (m.conn.sent ≡ []) × (0 < m.length) × (m.length ≤ bufsize)
  Holds m st_send_header =
      let text = http_header digits m.length in
      (0 < m.length)
      × (m.length ≤ bufsize)
      × (0 < m.header_len)
      × (m.header_pos + m.header_len ≡ length text)
      × (m.conn.sent ≡ take m.header_pos text)
      × (take (length text) m.header ≡ text)
  Holds m st_send_body =
      (n : ℕ) × (body : List ℕ) × (m.conn.sent ≡ http_header digits n ++ body)
      × Padded body
      × (length body + m.length ≡ n)
      × (0 < m.length)
      × (n ≤ bufsize)
  Holds m st_term = (n : ℕ) × (rest : List ℕ) × IsHttp n (m.conn.sent ++ rest)
  Holds m st_ex = (n : ℕ) × (rest : List ℕ) × IsHttp n (m.conn.sent ++ rest)
  Holds m st_other = ⊥

  pub record IsServing (m : Memory) : Type 0 where
    pub size : length m.header ≡ bufsize
    pub holds : Holds m m.state

  -- What a call of the driver comes to.
  abbrev pub Serves : Result → Type 0
  Serves r =
      (ret : Retcode) × (v : View Request) × (m : Memory) × (r ≡ ok (ret, some v, m)) × IsServing m

  -- Neither the memoirs nor the state's field are read.
  pub Holds-logged :
      (m : Memory) (text : List ℕ) (s s' : State)
      → Holds m s
      → Holds (record m { memoirs = text; state = s' }) s
  Holds-logged m text st_recv s' h = h
  Holds-logged m text st_prepare_header s' h = h
  Holds-logged m text st_send_header s' h = h
  Holds-logged m text st_send_body s' h = h
  Holds-logged m text st_term s' h = h
  Holds-logged m text st_ex s' h = h
  Holds-logged m text st_other s' h = h

  -- The room that `memoirs` has for one more line.
  abbrev pub line_room : ℕ
  line_room = 200

  module _ (e : World) (name what : List ℕ) (m : Memory) where
    pub length-log : length (log e name what) ≡ length name + length e.delta + length what + 5
    unfolding log
    length-log = omega (
      arith,
      length-append name (codes "[+" ++ (e.delta ++ (codes "s] " ++ what))),
      length-append e.delta (codes "s] " ++ what),
    )

    unfoldable pub logged : Memory
    logged = record m { memoirs = m.memoirs ++ log e name what }

    pub strcat_ok :
        length m.memoirs + length (log e name what) < bufsize
        → strcat (log e name what) m ≡ ok logged
    unfolding strcat logged
    strcat_ok room = rw (lt→ltb _ _ room)

    pub go-Serves :
        (s : State) (v : View Request)
        → length m.memoirs + length (log e name what) < bufsize
        → length m.header ≡ bufsize
        → Holds m s
        → Serves (go e name what s (some v) m)
    unfolding go logged
    go-Serves s v room size holds = (
      to_run,
      v,
      record m { memoirs = m.memoirs ++ log e name what; state = s },
      ap (λ r. r >>= λ m'. ok (to_run, some v, record m' { state = s })) (strcat_ok room),
      record { size = size; holds = Holds-logged m (m.memoirs ++ log e name what) s s holds },
    )

  module _ (e : World) (events : ℕ) (v : View Request) (fd : ℕ) (info : e.info ≡ true) where
    waiting : View Request
    waiting = (append_nb false e.io_node (io fd events) v).1

    asked : View Request
    unfolding waiting
    asked = (append_nb false e.timer_node ev_timer waiting).1

    ioev :
        imp_set_ioev e.info e.io_node fd events (some v)
        ≡ ok ((append_nb false e.io_node (io fd events) v).0, some waiting)
    unfolding imp_set_ioev request waiting
    ioev = rw info

    timer :
        imp_set_timer e.timer_node (some waiting)
        ≡ ok ((append_nb false e.timer_node ev_timer waiting).0, some asked)
    unfolding imp_set_timer request asked
    timer = refl

  pub sleep_ok :
      (e : World) (name : List ℕ) (events : ℕ) (v : View Request) (m : Memory)
      → e.info ≡ true
      → length m.memoirs + length (log e name (codes "sleep->")) < bufsize
      → (a : View Request) × (sleep e name events (some v) m
          ≡ ok (to_block, some a, logged e name (codes "sleep->") m))
  unfolding sleep logged
  sleep_ok e name events v m info room = (
    asked e events v m.conn.sd info,
    ground (
      arith,
      strcat_ok e name (codes "sleep->") m room,
      ioev e events v m.conn.sd info,
      timer e events v m.conn.sd info,
    ),
  )

  pub sleep-Serves :
      (e : World) (name : List ℕ) (events : ℕ) (v : View Request) (m : Memory)
      → e.info ≡ true
      → length m.memoirs + length (log e name (codes "sleep->")) < bufsize
      → IsServing m
      → Serves (sleep e name events (some v) m)
  unfolding logged
  sleep-Serves e name events v m info room h =
      let (a, run) = sleep_ok e name events v m info room in
      let text = m.memoirs ++ log e name (codes "sleep->") in
      (
        to_block,
        a,
        logged e name (codes "sleep->") m,
        run,
        record { size = h.size; holds = Holds-logged m text m.state m.state h.holds },
      )
