-- ===== src/FakeHttpd/Serving.antt =====
-- What the peer of `echo_driver` gets over the rounds of a connection.
use dungeon.Base.{
  ℕ, ◌+◌, ◌≤◌, ◌<◌, ◌≡◌, refl, inl, inr, true, false, ◌||◌, some, List, [], length, ltb, Bool-cases,
  ok, arith,
}
use dungeon.Llist.View.{View}
use dungeon.Imp.{Mask, Request, to_run, to_term}
use dungeon.FakeHttpd.Texts.{codes}
use dungeon.FakeHttpd.{
  State, st_recv, st_prepare_header, st_send_header, st_send_body, st_term, st_ex, st_other, Memory,
  World, Result, bufsize, go, echo_recv, echo_prepare, echo_send_header, echo_send_body,
  echo_driver,
}
use dungeon.FakeHttpd.Response.{Holds, IsServing, Serves, line_room, go-Serves}
use dungeon.FakeHttpd.Receiving.{
  IsTerse, RecvFits, SendFits, offered, fits, begun, header_fits, recv-Serves, prepare-Serves,
}
use dungeon.FakeHttpd.Sending.{partly, header-Serves, body_partly, body-Serves}

module _ (digits : ℕ → List ℕ) (e : World) (mask : Mask) (v : View Request) (m : Memory) where
  abbrev pub at_state : State → Result
  at_state st_recv = echo_recv e mask (some v) m
  at_state st_prepare_header = echo_prepare e (some v) m
  at_state st_send_header = echo_send_header e mask (some v) m
  at_state st_send_body = echo_send_body e mask (some v) m
  at_state st_ex = go e (codes "ST_Ex") (codes "Exception happened!") st_term (some v) m
  at_state st_term = ok (to_term, some v, m)
  at_state st_other = ok (to_run, some v, m)

  pub driver_at : (s : State) → m.state ≡ s → echo_driver e mask (some v) m ≡ at_state s
  unfolding echo_driver
  driver_at st_recv state = ground (arith, state)
  driver_at st_prepare_header state = ground (arith, state)
  driver_at st_send_header state = ground (arith, state)
  driver_at st_send_body state = ground (arith, state)
  driver_at st_ex state = ground (arith, state)
  driver_at st_term state = ground (arith, state)
  driver_at st_other state = ground (arith, state)

  module _ (terse : IsTerse digits e) (info : e.info ≡ true)
      (room : length m.memoirs + line_room digits < bufsize) (h : IsServing digits m)
      (few : RecvFits e.recv) (takes : SendFits e.send (offered m m.state)) where
    -- A late call, or one behind an error, ends the connection.
    late-Serves :
        (name what : List ℕ)
        → length name + length what ≤ 170
        → Holds digits m st_ex
        → Serves digits (go e name what st_ex (some v) m)
    late-Serves name what small holds =
        go-Serves digits e name what m st_ex v (fits digits e v m terse info room h name what small)
          h.size holds

    driver-Serves : (s : State) → m.state ≡ s → Serves digits (at_state s)
    unfolding echo_recv echo_send_header echo_send_body
    driver-Serves st_recv state =
        let none_sent : m.conn.sent ≡ [] = rw state at h.holds in
        elim (Bool-cases (mask.timer || mask.err)) [
          | inl late ↦ rw late (
              late-Serves (codes "ST_RECV") (codes "timed out->") (omega arith)
                (begun digits e v m terse info room h none_sent))
          | inr awake ↦
              rw awake (recv-Serves digits e v m terse info room h e.recv none_sent state few)
        ]
    driver-Serves st_prepare_header state =
        let (none_sent, some_asked, small) : Holds digits m st_prepare_header =
          rw state at h.holds in
        prepare-Serves digits e v m terse info room h none_sent some_asked small
    driver-Serves st_send_header state =
        let (some_asked, small, some_left, whole, sent, held) : Holds digits m st_send_header =
          rw state at h.holds in
        let (_, short) = header_fits digits e v m terse info room h small in
        elim (Bool-cases (mask.timer || mask.err)) [
          | inl late ↦ rw late (
              late-Serves (codes "ST_SEND_HEADER") (codes "timed out or error->") (omega arith)
                (partly digits e v m terse info room h small some_asked some_left whole sent held))
          | inr awake ↦
              let inside : ltb bufsize (m.header_pos + m.header_len) ≡ false =
                ground (arith, whole, short) in
              rw (awake, inside)
                (header-Serves digits e v m terse info room h small some_asked some_left whole sent
                  held e.send state (rw state at takes))
        ]
    driver-Serves st_send_body state =
        let (n, body, sent, padded, count, some_left, small) : Holds digits m st_send_body =
          rw state at h.holds in
        elim (Bool-cases (mask.timer || mask.err)) [
          | inl late ↦ rw late (
              late-Serves (codes "ST_SEND_BODY") (codes "timed out or error->") (omega arith) (
                body_partly digits e v m terse info room h n body sent padded count some_left
                  small))
          | inr awake ↦ rw awake (
              body-Serves digits e v m terse info room h n body sent padded count some_left small
                e.send state (rw state at takes))
        ]
    driver-Serves st_ex state =
        let holds : Holds digits m st_ex = rw state at h.holds in
        (go-Serves digits e (codes "ST_Ex") (codes "Exception happened!") m st_term v
          (fits digits e v m terse info room h (codes "ST_Ex") (codes "Exception happened!")
            (omega arith))
          h.size holds)
    driver-Serves st_term state = (to_term, v, m, refl, h)
    driver-Serves st_other state = let nothing : ⊥ = rw state at h.holds in absurd nothing

  -- From a memory of a connection in which what was sent is nothing, a part of the header, or the
  -- header and a part of the body of a response whose header gives the body's length, according to
  -- the state, each call of `echo_driver` comes to an end without a fault and to such a memory
  -- again; once the connection ends it is the beginning of a response. The body holds letters a and
  -- NULs only. It is assumed that `recv` and `send` move no more than asked, that the memory for the
  -- request is there, that `memoirs` have room for a line, and that `printf` writes at most 20
  -- digits of a number and 128 bytes of an error.
  pub echo_driver-IsServing :
      IsServing digits m
      → IsTerse digits e
      → e.info ≡ true
      → length m.memoirs + line_room digits < bufsize
      → RecvFits e.recv
      → SendFits e.send (offered m m.state)
      → Serves digits (echo_driver e mask (some v) m)
  echo_driver-IsServing h terse info room few takes =
      rw (driver_at m.state refl) (driver-Serves terse info room h few takes m.state refl)
