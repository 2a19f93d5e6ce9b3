-- ===== src/Tcp/Sendv.antt =====
-- The bytes that `conn_tcp_sendv_nb` sends, and those that it leaves in the buffer.
use dungeon.Base.{
  ℕ, zero, suc, ◌+◌, ◌-◌, ◌≤◌, ◌<◌, ◌≡◌, refl, sym, ap, ◌∙◌, true, false, some, List, [], ◌∷◌, ◌++◌,
  append_assoc, length, take, drop, take_within, drop_all, drop-drop, take-drop, leb, ltb,
  Bool-cases, zero_or_more, if◌then◌else◌, inl, inr, pos, minus_one, arith,
}
use dungeon.BufferList.{Node, Buffer, bytes, advance}
use dungeon.BufferList.Bytes.{contents, joined, AllFit, IsValid}
use dungeon.BufferList.Rounds.{
  bytes-advance, taken, moved, taken-IsValid, taken-items, moved-IsValid,
}
use dungeon.BufferList.Move.{
  buffer_pop-taken, buffer_move_head-moved, moved-contents, taken-contents,
}
use dungeon.Tcp.{send_failed, send_took, gather, drain, conn_tcp_sendv_nb, default_iovs}

gather_whole :
    (slots wanted : ℕ) (bn : Node) (ns : List Node)
    → 0 < wanted
    → ltb bn.size wanted ≡ true
    → gather (suc slots) wanted (bn ∷ ns) ≡ bytes bn.size bn ++ gather slots (wanted - bn.size) ns
unfolding gather
gather_whole slots wanted bn ns some_wanted whole = ground (arith, whole)

gather_part :
    (slots wanted : ℕ) (bn : Node) (ns : List Node)
    → 0 < wanted
    → ltb bn.size wanted ≡ false
    → gather (suc slots) wanted (bn ∷ ns) ≡ bytes wanted bn
unfolding gather
gather_part slots wanted bn ns some_wanted part = ground (arith, part)

gather_none : (wanted : ℕ) (ns : List Node) → gather 0 wanted ns ≡ []
unfolding gather
gather_none wanted ns = refl

gather_end : (slots wanted : ℕ) → gather (suc slots) wanted [] ≡ []
unfolding gather
gather_end slots wanted = refl

gather_nothing : (slots : ℕ) (ns : List Node) → gather slots 0 ns ≡ []
unfolding gather
gather_nothing zero ns = refl
gather_nothing (suc slots) [] = refl
gather_nothing (suc slots) (bn ∷ ns) = refl

bytes-split :
    (bn : Node) (n : ℕ)
    → n ≤ bn.size
    → bn.pos + bn.size ≤ length bn.start
    → bytes bn.size bn ≡ bytes n bn ++ bytes (bn.size - n) (advance n bn)
bytes-split bn n h fit =
    let parts = bytes-advance bn n h fit in
    sym (take-drop n (bytes bn.size bn))
    ∙ ap (λ xs. xs ++ drop n (bytes bn.size bn)) parts.0
    ∙ ap (λ xs. bytes n bn ++ xs) parts.1

-- What is gathered is the front of what the nodes hold.
gather-front :
    (slots wanted : ℕ) (ns : List Node)
    → AllFit ns
    → (rest : List ℕ) × (joined ns ≡ gather slots wanted ns ++ rest)
gather-front zero wanted ns fit = (joined ns, rw (gather_none wanted ns) refl)
gather-front (suc slots) wanted [] fit = ([], rw (gather_end slots wanted) refl)
gather-front (suc slots) wanted (bn ∷ ns) fit =
    let (rest, front) = gather-front slots (wanted - bn.size) ns fit.1 in
    elim (zero_or_more wanted) [
      | inl nothing ↦ (joined (bn ∷ ns), rw (nothing, gather_nothing (suc slots) (bn ∷ ns)) refl)
      | inr some_wanted ↦ elim (Bool-cases (ltb bn.size wanted)) [
        | inl whole ↦ (
          rest,
          ap (λ xs. bytes bn.size bn ++ xs) front
              ∙ sym (append_assoc (bytes bn.size bn) (gather slots (wanted - bn.size) ns) rest)
              ∙ ap (λ xs. xs ++ rest) (sym (gather_whole slots wanted bn ns some_wanted whole)),
        )
        | inr part ↦
            let left = bytes (bn.size - wanted) (advance wanted bn) in
            let less : wanted ≤ bn.size = ground (arith, part) in
            (
              left ++ joined ns,
              ap (λ xs. xs ++ joined ns) (bytes-split bn wanted less fit.0)
                  ∙ append_assoc (bytes wanted bn) left (joined ns)
                  ∙ ap (λ xs. xs ++ (left ++ joined ns))
                      (sym (gather_part slots wanted bn ns some_wanted part)),
            )
      ]
    ]

drain_done : (fuel : ℕ) (b : Buffer) → 0 < fuel → drain fuel b 0 ≡ some b
unfolding drain
drain_done zero b h = absurd (omega arith)
drain_done (suc fuel) b h = refl

drain_empty : (fuel : ℕ) (b : Buffer) (n : ℕ) → b.base.items ≡ [] → drain (suc fuel) b n ≡ some b
unfolding drain
drain_empty fuel b n e = ground (arith, e)

drain-next :
    (fuel : ℕ) (b : Buffer) (valid : IsValid b) (bn : Node) (ns : List Node) (n : ℕ)
    → (e : b.base.items ≡ bn ∷ ns) → 0 < n
    → drain (suc fuel) b n ≡ (
        if leb bn.size n
        then drain fuel (taken b valid bn ns e) (n - bn.size)
        else drain fuel (moved b valid bn ns e n) 0)
unfolding drain
drain-next fuel b valid bn ns n e h =
    let pop = buffer_pop-taken b valid bn ns e in
    let move = buffer_move_head-moved b valid bn ns e n in ground (arith, e, pop, move)

-- With fuel for two rounds more than there are nodes, the loop behind `writev` ends.
drain-drops :
    (fuel : ℕ) (b : Buffer) (ns : List Node) (n : ℕ)
    → IsValid b
    → b.base.items ≡ ns
    → length ns + 1 < fuel
    → (b' : Buffer) × (drain fuel b n ≡ some b') × IsValid b' × (contents b' ≡ drop n (contents b))
drain-drops zero b ns n valid e h = absurd (omega arith)
drain-drops (suc fuel) b [] n valid e h =
    (b, drain_empty fuel b n e, valid, rw (ap joined e) (sym (drop_all {A = ℕ} n [] (omega arith))))
drain-drops (suc fuel) b (bn ∷ ns) n valid e h = elim (zero_or_more n) [
  | inl done ↦ (b, rw done (drain_done (suc fuel) b (omega arith)), valid, rw done refl)
  | inr some_left ↦ elim (Bool-cases (leb bn.size n)) [
    | inl whole ↦
        let next = taken b valid bn ns e in
        let (b', run, left, rest) =
          drain-drops fuel next ns (n - bn.size) (taken-IsValid b valid bn ns e)
            (taken-items b valid bn ns e) (omega arith) in
        let all : bn.size + (n - bn.size) ≡ n = ground (arith, whole) in
        (
          b',
          drain-next fuel b valid bn ns n e some_left ∙ rw whole run,
          left,
          rest
              ∙ ap (drop (n - bn.size)) (taken-contents b valid bn ns e)
              ∙ drop-drop (n - bn.size) bn.size (contents b)
              ∙ ap (λ k. drop k (contents b)) all,
        )
    | inr part ↦
        let less : n < bn.size = ground (arith, part) in
        let next = moved b valid bn ns e n in
        (
          next,
          drain-next fuel b valid bn ns n e some_left
              ∙ rw part (drain_done fuel next (omega arith)),
          moved-IsValid b valid bn ns e n less,
          moved-contents b valid bn ns e n less,
        )
  ]
]

sendv_run :
    (fuel : ℕ) (b b' : Buffer) (size n : ℕ)
    → drain fuel b n ≡ some b'
    → conn_tcp_sendv_nb fuel (send_took n) b size
      ≡ some (pos n, take n (gather default_iovs size b.base.items), b')
unfolding conn_tcp_sendv_nb
sendv_run fuel b b' size n run = ground (arith, run)

-- On a valid buffer, with fuel for two rounds more than there are nodes: if `writev` takes `n` of the bytes
-- that it is given, `conn_tcp_sendv_nb` ends, answers `n`, has sent the first `n` bytes of the buffer, in
-- order, and leaves a valid buffer with the others. If `writev` fails it answers -1, with nothing sent and
-- the buffer as it was.
pub conn_tcp_sendv_nb-front :
    (fuel : ℕ) (b : Buffer) (size n : ℕ)
    → IsValid b
    → length b.base.items + 1 < fuel
    → n ≤ length (gather default_iovs size b.base.items)
    → (b' : Buffer) × (conn_tcp_sendv_nb fuel (send_took n) b size
        ≡ some (pos n, take n (contents b), b'))
      × IsValid b'
      × (take n (contents b) ++ contents b' ≡ contents b)
      × (conn_tcp_sendv_nb fuel send_failed b size ≡ some (minus_one, [], b))
unfolding conn_tcp_sendv_nb
conn_tcp_sendv_nb-front fuel b size n valid h given =
    let (b', run, left, rest) = drain-drops fuel b b.base.items n valid refl h in
    let (others, front) = gather-front default_iovs size b.base.items valid.fit in
    let sent : take n (contents b) ≡ take n (gather default_iovs size b.base.items) =
      ap (take n) front ∙ take_within n (gather default_iovs size b.base.items) others given in
    (
      b',
      sendv_run fuel b b' size n run ∙ ap (λ xs. some (pos n, xs, b')) (sym sent),
      left,
      ap (λ xs. take n (contents b) ++ xs) rest ∙ take-drop n (contents b),
      refl,
    )
