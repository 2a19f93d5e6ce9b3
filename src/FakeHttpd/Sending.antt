-- ===== src/FakeHttpd/Sending.antt =====
-- `echo_driver` while it sends the header and the body.
use dungeon.Base.{
  ℕ, zero, suc, ◌+◌, ◌-◌, ◌%◌, ◌≤◌, ◌<◌, ◌≡◌, refl, sym, ap, ◌∙◌, inl, inr, true, false, some, List,
  [], ◌∷◌, ◌++◌, length, length-append, length-take, append-nil, append_assoc, take, drop, take_all,
  take_add, take-drop, drop-take, ◌==◌, Bool-cases, zero_or_more, ok, arith, replicate,
  length-replicate,
}
use dungeon.Llist.View.{View}
use dungeon.Imp.{Request, to_run}
use dungeon.Tcp.{Send, send_failed, send_took, conn_tcp_send_nb}
use dungeon.FakeHttpd.Texts.{codes}
use dungeon.FakeHttpd.{
  st_send_header, st_send_body, st_term, st_ex, Memory, World, bufsize, size_max, eagain, epoll_out,
  http_header, padding_data, padding_data_size, min, log, go, send_stopped, sent_line, sent_header,
  sent_body,
}
use dungeon.FakeHttpd.Response.{
  Padded, IsHttp, Holds, IsServing, Serves, line_room, strcat_ok, go-Serves, sleep-Serves,
}
use dungeon.FakeHttpd.Receiving.{IsTerse, SendFits, fits, errors, length-errors, header_fits}

Padded-replicate : (n : ℕ) → Padded (replicate n b'a')
Padded-replicate zero = tt
Padded-replicate (suc n) = (inl refl, Padded-replicate n)

Padded-append : (xs ys : List ℕ) → Padded xs → Padded ys → Padded (xs ++ ys)
Padded-append [] ys p q = q
Padded-append (x ∷ xs) ys p q = (p.0, Padded-append xs ys p.1 q)

Padded-take : (n : ℕ) (xs : List ℕ) → Padded xs → Padded (take n xs)
Padded-take zero xs p = tt
Padded-take (suc n) [] p = tt
Padded-take (suc n) (x ∷ xs) p = (p.0, Padded-take n xs p.1)

piece-Padded : (k n : ℕ) → Padded (take k (take n padding_data))
unfolding padding_data
piece-Padded k n = Padded-take k _ (
    Padded-take n _
      (Padded-append (replicate 1024 b'a') (0 ∷ []) (Padded-replicate 1024) (inr refl, tt)))

length-padding : length padding_data ≡ padding_data_size
unfolding padding_data
length-padding =
    length-append {A = ℕ} (replicate 1024 b'a') (0 ∷ [])
    ∙ omega (arith, length-replicate {A = ℕ} 1024 b'a')

length-piece :
    (k n : ℕ)
    → k ≤ min padding_data_size n
    → length (take k (take (min padding_data_size n) padding_data)) ≡ k
length-piece k n few =
    let m = min padding_data_size n in
    let inside : m ≤ padding_data_size = ground arith in
    let whole = length-take m padding_data in
    let part = length-take k (take m padding_data) in
    let bound : length (take m padding_data) ≡ m = omega (arith, whole, inside, length-padding) in
    omega (arith, part, bound, few)

module _ (digits : ℕ → List ℕ) (e : World) (v : View Request) (m : Memory)
    (terse : IsTerse digits e) (info : e.info ≡ true)
    (room : length m.memoirs + line_room digits < bufsize) (h : IsServing digits m) where
  -- The line for a part that was sent.
  sent_fits :
      (name what : List ℕ) (k : ℕ)
      → k < size_max
      → length name + length what ≤ 50
      → length m.memoirs + length (log e name (sent_line e k what)) < bufsize
  sent_fits name what k small few =
      let n : length (e.digits k) ≤ 20 = rw terse.same (terse.numbers k small) in
      let l = length-append (e.digits k) (codes " bytes sent, " ++ what) in
      fits digits e v m terse info room h name (sent_line e k what) (omega (arith, few, n, l))

  -- The `send` of a part of the header or body stopped, and any part of a response may be out.
  stopped-Serves :
      (name : List ℕ)
      → length name ≤ 20
      → Holds digits m st_ex
      → Serves digits (send_stopped e name (some v) m)
  unfolding send_stopped errors
  stopped-Serves name small partly =
      let line = errors digits e v m terse info room h in
      let short = length-errors digits e v m terse info room h in
      elim (Bool-cases (e.errno == eagain)) [
        | inl again ↦ rw again (
            sleep-Serves digits e name epoll_out v m info
              (fits digits e v m terse info room h name (codes "sleep->") (omega arith)) h)
        | inr other ↦ rw other (
            go-Serves digits e name line m st_ex v
              (fits digits e v m terse info room h name line (omega (arith, short))) h.size partly)
      ]

  module _ (pos_ok : m.length ≤ bufsize) (some_asked : 0 < m.length) (some_left : 0 < m.header_len)
      (whole : m.header_pos + m.header_len ≡ length (http_header digits m.length))
      (sent : m.conn.sent ≡ take m.header_pos (http_header digits m.length))
      (held : take (length (http_header digits m.length)) m.header
        ≡ http_header digits m.length) where
    text : List ℕ
    text = http_header digits m.length

    pub partly : Holds digits m st_ex
    unfolding text
    partly = (
      m.length,
      drop m.header_pos text ++ replicate m.length b'a',
      (
        replicate m.length b'a',
        ap (λ xs. xs ++ (drop m.header_pos text ++ replicate m.length b'a')) sent
            ∙ sym (
                append_assoc (take m.header_pos text) (drop m.header_pos text)
                  (replicate m.length b'a'))
            ∙ ap (λ xs. xs ++ replicate m.length b'a') (take-drop m.header_pos text),
        Padded-replicate m.length,
        length-replicate m.length b'a',
      ),
    )

    chunk :
        (k : ℕ)
        → k ≤ m.header_len
        → m.conn.sent ++ take k (take m.header_len (drop m.header_pos m.header))
          ≡ take (m.header_pos + k) text
    unfolding text
    chunk k few =
        let rest : take m.header_len (drop m.header_pos m.header) ≡ drop m.header_pos text =
          ap (λ n. take n (drop m.header_pos m.header)) {y = length text - m.header_pos}
            (omega (arith, whole))
          ∙ sym (drop-take m.header_pos (length text) m.header (omega (arith, whole)))
          ∙ ap (drop m.header_pos) held in
        ap (λ xs. m.conn.sent ++ take k xs) rest
        ∙ ap (λ xs. xs ++ take k (drop m.header_pos text)) sent
        ∙ sym (take_add m.header_pos k text)

    pub header-Serves :
        (r : Send)
        → m.state ≡ st_send_header
        → SendFits r m.header_len
        → let (ret, conn) =
            conn_tcp_send_nb e.now r m.conn (take m.header_len (drop m.header_pos m.header)) in
          Serves digits (sent_header e (some v) m ret conn)
    unfolding sent_header conn_tcp_send_nb text
    header-Serves send_failed state few =
        stopped-Serves (codes "ST_SEND_HEADER") (omega arith) partly
    header-Serves (send_took zero) state few =
        stopped-Serves (codes "ST_SEND_HEADER") (omega arith) partly
    header-Serves (send_took (suc k)) state few =
        let text_fits = header_fits digits e v m terse info room h pos_ok in
        let name = codes "ST_SEND_HEADER" in
        let left : (m.header_len + size_max - suc k) % size_max ≡ m.header_len - suc k =
          omega (arith, text_fits.1, whole, few) in
        let m' : ℕ → Memory = λ n. record m {
          conn =
              (conn_tcp_send_nb e.now (send_took (suc k)) m.conn
                (take m.header_len (drop m.header_pos m.header))).1;
          header_pos = m.header_pos + suc k;
          header_len = n;
        } in
        let out = chunk (suc k) few in
        let small : suc k < size_max = omega (arith, text_fits.1, whole, few) in
        elim (zero_or_more (m.header_len - suc k)) [
          | inl done ↦
              let all : take (m.header_pos + suc k) text ≡ text =
                take_all (m.header_pos + suc k) text (omega (arith, whole, done)) in
              rw (left, done)
                (go-Serves digits e name (sent_line e (suc k) (codes "OK->")) (m' 0) st_send_body v
                  (sent_fits name (codes "OK->") (suc k) small (omega arith)) h.size
                  (
                    m.length,
                    [],
                    out ∙ all ∙ sym (append-nil text),
                    tt,
                    omega arith,
                    some_asked,
                    pos_ok,
                  ))
          | inr more ↦
              let isnt : (m.header_len - suc k == 0) ≡ false = ground (arith, more) in
              let holds : Holds digits (m' (m.header_len - suc k)) m.state =
                rw state (some_asked, pos_ok, more, omega (arith, whole, few), out, held) in
              rw (left, isnt)
                (go-Serves digits e name (sent_line e (suc k) (codes "again->"))
                  (m' (m.header_len - suc k)) m.state v
                  (sent_fits name (codes "again->") (suc k) small (omega arith)) h.size holds)
        ]

  module _ (n : ℕ) (body : List ℕ) (sent : m.conn.sent ≡ http_header digits n ++ body)
      (padded : Padded body) (count : length body + m.length ≡ n) (some_left : 0 < m.length)
      (n_ok : n ≤ bufsize) where
    pub body_partly : Holds digits m st_ex
    body_partly = (
      n,
      replicate m.length b'a',
      (
        body ++ replicate m.length b'a',
        ap (λ xs. xs ++ replicate m.length b'a') sent
            ∙ append_assoc (http_header digits n) body (replicate m.length b'a'),
        Padded-append body (replicate m.length b'a') padded (Padded-replicate m.length),
        length-append body (replicate m.length b'a')
            ∙ omega (arith, count, length-replicate {A = ℕ} m.length b'a'),
      ),
    )

    pub body-Serves :
        (r : Send)
        → m.state ≡ st_send_body
        → SendFits r (min padding_data_size m.length)
        → let (ret, conn) =
            conn_tcp_send_nb e.now r m.conn (take (min padding_data_size m.length) padding_data) in
          Serves digits (sent_body e (some v) m ret conn)
    unfolding sent_body conn_tcp_send_nb
    body-Serves send_failed state few =
        stopped-Serves (codes "ST_SEND_BODY") (omega arith) body_partly
    body-Serves (send_took zero) state few =
        stopped-Serves (codes "ST_SEND_BODY") (omega arith) body_partly
    body-Serves (send_took (suc k)) state few =
        let name = codes "ST_SEND_BODY" in
        let piece = take (suc k) (take (min padding_data_size m.length) padding_data) in
        let inside : suc k ≤ m.length = ground (arith, few) in
        let left : (m.length + size_max - suc k) % size_max ≡ m.length - suc k =
          omega (arith, inside, count) in
        let m' : ℕ → Memory = λ l. record m {
          conn =
              (conn_tcp_send_nb e.now (send_took (suc k)) m.conn
                (take (min padding_data_size m.length) padding_data)).1;
          length = l;
        } in
        let out : m.conn.sent ++ piece ≡ http_header digits n ++ (body ++ piece) =
          ap (λ xs. xs ++ piece) sent ∙ append_assoc (http_header digits n) body piece in
        let good =
          Padded-append body piece padded (piece-Padded (suc k) (min padding_data_size m.length)) in
        let long : length (body ++ piece) ≡ length body + suc k =
          length-append body piece ∙ omega (arith, length-piece (suc k) m.length few) in
        let small : suc k < size_max = omega (arith, inside, count) in
        elim (zero_or_more (m.length - suc k)) [
          | inl done ↦
              rw (left, done)
                (go-Serves digits e name (sent_line e (suc k) (codes "OK->")) (m' 0) st_term v
                  (sent_fits name (codes "OK->") (suc k) small (omega arith)) h.size
                  (
                    n,
                    [],
                    (
                      body ++ piece,
                      append-nil (m.conn.sent ++ piece) ∙ out,
                      good,
                      omega (arith, long, done, count, inside),
                    ),
                  ))
          | inr more ↦
              let isnt : (m.length - suc k == 0) ≡ false = ground (arith, more) in
              let holds : Holds digits (m' (m.length - suc k)) m.state =
                rw state
                  (n, body ++ piece, out, good, omega (arith, long, count, inside), more, n_ok) in
              rw (left, isnt)
                (go-Serves digits e name (sent_line e (suc k) (codes "again->"))
                  (m' (m.length - suc k)) m.state v
                  (sent_fits name (codes "again->") (suc k) small (omega arith)) h.size holds)
        ]

    -- A `send` that takes all that is left of the body completes the response.
    pub body_done :
        (k : ℕ)
        → m.length ≡ suc k
        → m.length ≤ padding_data_size
        → let (ret, conn) =
            conn_tcp_send_nb e.now
              (send_took (suc k))
              m.conn
              (take (min padding_data_size m.length) padding_data) in
          (m' : Memory) × (sent_body e (some v) m ret conn ≡ ok (to_run, some v, m'))
          × (m'.state ≡ st_term)
          × IsHttp digits n m'.conn.sent
    unfolding sent_body conn_tcp_send_nb go
    body_done k all small =
        let name = codes "ST_SEND_BODY" in
        let piece = take (suc k) (take (min padding_data_size m.length) padding_data) in
        let conn =
          (conn_tcp_send_nb e.now (send_took (suc k)) m.conn
            (take (min padding_data_size m.length) padding_data)).1 in
        let line = log e name (sent_line e (suc k) (codes "OK->")) in
        let left : (m.length + size_max - suc k) % size_max ≡ 0 = omega (arith, all) in
        let few : suc k ≤ min padding_data_size m.length = ground (arith, all, small) in
        let m' : Memory = record m { conn = conn; length = 0 } in
        let room' : length m.memoirs + length line < bufsize =
          sent_fits name (codes "OK->") (suc k) (omega (arith, all, small)) (omega arith) in
        (
          record m' { memoirs = m.memoirs ++ line; state = st_term },
          rw left (
              ground
                (arith, strcat_ok digits e name (sent_line e (suc k) (codes "OK->")) m' room')),
          refl,
          (
            body ++ piece,
            ap (λ xs. xs ++ piece) sent ∙ append_assoc (http_header digits n) body piece,
            Padded-append body piece padded (piece-Padded (suc k) (min padding_data_size m.length)),
            length-append body piece ∙ omega (arith, length-piece (suc k) m.length few, count, all),
          ),
        )
