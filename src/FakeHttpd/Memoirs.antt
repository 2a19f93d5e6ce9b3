-- ===== src/FakeHttpd/Memoirs.antt =====
-- The text that each round of a connection adds to `memoirs`, an array of 4096 bytes.
use dungeon.Base.{
  ◌+◌, ◌*◌, ◌≤◌, ◌<◌, ◌≡◌, ◌∙◌, inl, inr, true, false, ◌||◌, some, List, [], ◌∷◌, length,
  length-append, ltb, Bool-cases, ltb→lt, ltb→le, le→ltb, Run, ok, fault, ◌>>=◌, arith,
}
use dungeon.Llist.View.{View}
use dungeon.Imp.{Mask, Request}
use dungeon.Tcp.{recv_failed, conn_tcp_recv_nb}
use dungeon.FakeHttpd.Texts.{codes}
use dungeon.FakeHttpd.{
  st_recv, Memory, World, bufsize, eagain, epoll_in, log, strcat, sleep, received, echo_recv,
  echo_driver,
}
use dungeon.FakeHttpd.Response.{length-log, sleep_ok, logged}
use dungeon.FakeHttpd.Serving.{driver_at}

-- One call of the driver: what it meets, its imp's event mask and list of requests.
pub record Round : Type 0 where
  pub world : World
  pub mask : Mask
  pub requested : View Request

unfoldable pub rounds : List Round → Memory → Run Memory
rounds [] m = ok m
rounds (r ∷ rs) m = do (ret, v, m') ← echo_driver r.world r.mask (some r.requested) m; rounds rs m'

-- Each round finds nothing to receive and is neither late nor behind an error.
abbrev pub AllSleepy : List Round → Type 0
AllSleepy [] = Unit
AllSleepy (r ∷ rs) =
    ((r.world.recv ≡ recv_failed eagain)
      × ((r.mask.timer || r.mask.err) ≡ false)
      × (r.world.info ≡ true)
      × (0 < length r.world.delta))
    × AllSleepy rs

module _ (e : World) (mask : Mask) (v : View Request) (m : Memory) (state : m.state ≡ st_recv)
    (nothing : e.recv ≡ recv_failed eagain) (awake : (mask.timer || mask.err) ≡ false) where
  asleep : echo_driver e mask (some v) m ≡ sleep e (codes "ST_RECV") epoll_in (some v) m
  unfolding echo_recv received conn_tcp_recv_nb
  asleep = driver_at (λ n. []) e mask v m st_recv state ∙ ground (arith, nothing, awake)

  full :
      bufsize ≤ length m.memoirs + length (log e (codes "ST_RECV") (codes "sleep->"))
      → echo_driver e mask (some v) m ≡ fault
  unfolding sleep strcat
  full over = asleep ∙ rw (le→ltb _ _ over)

-- Once the rounds that find nothing to receive are so many that 20 bytes for each do not fit
-- `memoirs` any more, one of them runs over its array.
pub rounds_overflow :
    (rs : List Round) (m : Memory)
    → AllSleepy rs
    → m.state ≡ st_recv
    → length m.memoirs < bufsize
    → bufsize ≤ length m.memoirs + 20 * length rs
    → rounds rs m ≡ fault
unfolding rounds logged
rounds_overflow [] m all state room many = absurd (omega arith)
rounds_overflow (r ∷ rs) m ((nothing, awake, info, timed), all) state room many =
    let name = codes "ST_RECV" in
    let what = codes "sleep->" in
    let line = length-log (λ n. []) r.world name what m in
    elim (Bool-cases (ltb (length m.memoirs + length (log r.world name what)) bufsize)) [
      | inl fits ↦
          let (a, run) =
            sleep_ok (λ n. []) r.world name epoll_in r.requested m info (ltb→lt _ _ fits) in
          let m' = logged (λ n. []) r.world name what m in
          let goes = asleep r.world r.mask r.requested m state nothing awake ∙ run in
          rw goes (
            rounds_overflow rs m' all state
              (omega (arith, length-append m.memoirs (log r.world name what), ltb→lt _ _ fits))
              (omega (arith, length-append m.memoirs (log r.world name what), line, timed, many)))
      | inr over ↦
          let goes = full r.world r.mask r.requested m state nothing awake (ltb→le _ _ over) in
          rw goes
    ]
