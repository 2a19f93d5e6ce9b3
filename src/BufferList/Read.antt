-- ===== src/BufferList/Read.antt =====
-- The bytes that `buffer_read` hands out, and those that it leaves.
use dungeon.Base.{
  zero_or_more, ℕ, zero, suc, ◌+◌, ◌-◌, ◌≤◌, ◌<◌, ◌≡◌, refl, sym, ap, ◌∙◌, some, List, [], ◌∷◌,
  ◌++◌, length, length-append, ◌⊎◌, leb, Bool-cases, inl, inr, if◌then◌else◌, arith,
}
use dungeon.Llist.View.{fetch_head_nb, get_head_nb}
use dungeon.BufferList.{Node, Buffer, bytes, Copied, read_loop, buffer_read}
use dungeon.BufferList.Bytes.{total, IsValid, length-bytes}
use dungeon.BufferList.Rounds.{
  Handed, stopped, stopped-Handed, taken, moved, fit, taken-IsValid, taken-items, taken-Handed,
  moved-Handed,
}

read_loop-stopped :
    (fuel : ℕ) (b : Buffer) (size : ℕ) (before : List ℕ)
    → (size ≡ 0) ⊎ (b.nbytes ≡ 0)
    → read_loop (suc fuel) b size (length before) before ≡ some (stopped b before)
unfolding read_loop stopped
read_loop-stopped fuel b size before h = ground arith

longer :
    (before : List ℕ) (bn : Node) (n : ℕ)
    → bn.pos + n ≤ length bn.start
    → length (before ++ bytes n bn) ≡ length before + n
longer before bn n h = omega (arith, length-append before (bytes n bn), length-bytes bn n h)

read_loop-last :
    (fuel : ℕ) (b : Buffer) (before : List ℕ)
    → 0 < fuel
    → read_loop fuel b 0 (length before) before ≡ some (stopped b before)
read_loop-last zero b before h = absurd (omega arith)
read_loop-last (suc fuel) b before h = read_loop-stopped fuel b 0 before (inl refl)

read_loop-next :
    (fuel : ℕ) (b : Buffer) (bn : Node) (ns : List Node) (size : ℕ) (before : List ℕ)
    → (valid : IsValid b) → (e : b.base.items ≡ bn ∷ ns) → 0 < b.nbytes
    → 0 < size
    → read_loop (suc fuel) b size (length before) before ≡ (
        if leb bn.size size
        then read_loop fuel
            (taken b valid bn ns e)
            (size - bn.size)
            (length before + bn.size)
            (before ++ bytes bn.size bn)
        else read_loop fuel
            (moved b valid bn ns e size)
            0
            (length before + size)
            (before ++ bytes size bn))
unfolding read_loop taken moved fetch_head_nb get_head_nb
read_loop-next fuel b bn ns size before valid e h1 h2 = ground (arith, e)

read_loop-Handed :
    (fuel : ℕ) (b : Buffer) (ns : List Node) (size : ℕ) (before : List ℕ)
    → IsValid b
    → b.base.items ≡ ns
    → length ns + 1 < fuel
    → (c : Copied) × (read_loop fuel b size (length before) before ≡ some c)
      × Handed b size before c
read_loop-Handed zero b ns size before valid e h = absurd (omega arith)
read_loop-Handed (suc fuel) b [] size before valid e h =
    let none_left : b.nbytes ≡ 0 = valid.summed ∙ ap total e in
    (
      stopped b before,
      read_loop-stopped fuel b size before (inr none_left),
      stopped-Handed b size before valid (inr none_left),
    )
read_loop-Handed (suc fuel) b (bn ∷ ns) size before valid e h = elim (zero_or_more b.nbytes) [
  | inl none_left ↦ (
    stopped b before,
    read_loop-stopped fuel b size before (inr none_left),
    stopped-Handed b size before valid (inr none_left),
  )
  | inr some_left ↦ elim (zero_or_more size) [
    | inl enough ↦ (
      stopped b before,
      read_loop-stopped fuel b size before (inl enough),
      stopped-Handed b size before valid (inl enough),
    )
    | inr wanted ↦ elim (Bool-cases (leb bn.size size)) [
      | inl whole ↦
          let (c, run, handed) =
            read_loop-Handed fuel (taken b valid bn ns e) ns (size - bn.size)
              (before ++ bytes bn.size bn) (taken-IsValid b valid bn ns e)
              (taken-items b valid bn ns e) (omega (arith, h)) in
          (
            c,
            read_loop-next fuel b bn ns size before valid e some_left wanted
                ∙ rw (whole, sym (longer before bn bn.size (fit b valid bn ns e).0)) run,
            taken-Handed b valid bn ns e size before c (ground (arith, whole)) handed,
          )
      | inr part ↦
          let less : size < bn.size = ground (arith, part) in
          let bound : bn.pos + size ≤ length bn.start =
            omega (arith, less, (fit b valid bn ns e).0) in
          (
            stopped (moved b valid bn ns e size) (before ++ bytes size bn),
            read_loop-next fuel b bn ns size before valid e some_left wanted
                ∙ rw (part, sym (longer before bn size bound))
                    (read_loop-last fuel (moved b valid bn ns e size) (before ++ bytes size bn)
                      (omega (arith, h))),
            moved-Handed b valid bn ns e size before less,
          )
    ]
  ]
]

-- With fuel for two rounds more than there are nodes, `buffer_read` on a valid buffer ends: it copies
-- the first `size` bytes out, or all that there are, answers their number, and leaves a valid buffer
-- with the other bytes.
pub buffer_read-Handed :
    (fuel : ℕ) (b : Buffer) (size : ℕ)
    → IsValid b
    → length b.base.items + 1 < fuel
    → (c : Copied) × (buffer_read fuel b size ≡ some c) × Handed b size [] c
unfolding buffer_read
buffer_read-Handed fuel b size valid h = read_loop-Handed fuel b b.base.items size [] valid refl h
