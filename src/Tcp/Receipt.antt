-- ===== src/Tcp/Receipt.antt =====
-- What a call of `conn_tcp_recvv_nb` in src/util_conn_tcp.c comes to: the bytes that it received, those
-- that are in the buffer, and what it tells.
use dungeon.Base.{
  ℕ, ◌+◌, ◌≤◌, ◌<◌, ◌≡◌, refl, sym, ap, ◌∙◌, true, false, ◌&&◌, List, [], ◌++◌, append-nil,
  append_assoc, length, length-append, ltb, Bool-cases, if◌then◌else◌, ◌⊎◌, inl, inr, ℤ, pos, arith,
}
use mathlib.Core.Path.{subst}
use dungeon.BufferList.{Buffer}
use dungeon.BufferList.Bytes.{contents, IsValid}
use dungeon.Tcp.{Conn, recv_failed, recv_got, Answer, again, neg, data_bufsize}

-- `recv` gives at most as many bytes as it is asked for.
abbrev pub Fits : (ℕ → Answer) → Type 0
Fits e = (k s : ℕ) (xs : List ℕ) → (e k).recv s ≡ recv_got xs → length xs ≤ s

-- What a call tells of the bytes that it has put into the buffer: their number; or, in a round in
-- which `recv` gave nothing, the end of the stream, or its `errno`, which is not one of those that ask to try
-- again if there are such bytes.
abbrev pub Tells : (ℕ → Answer) → ℤ → ℕ → Type 0
Tells e z n =
    (z ≡ pos n)
    ⊎ ((k : ℕ) × (s : ℕ) × (z ≡ pos 0) × ((e k).recv s ≡ recv_got []))
    ⊎ ((k : ℕ) × (s : ℕ) × (errno : ℕ) × (z ≡ neg errno)
        × ((e k).recv s ≡ recv_failed errno)
        × (again errno && ltb 0 n ≡ false))

-- Each `malloc` of `buffer_write` succeeds.
abbrev pub Allocates : Answer → Type 0
Allocates a = (a.block && a.node && a.cell) ≡ true

-- The outcome of the loop that had put `total` bytes into the buffer before.
pub record Received (e : ℕ → Answer) (c : Conn) (b : Buffer) (size total : ℕ)
    (r : ℤ × Conn × Buffer) : Type 0 where
  pub got : List ℕ
  pub lost : List ℕ
  pub received : r.1.received ≡ c.received ++ (got ++ lost)
  pub kept : contents r.2 ≡ contents b ++ got
  pub fits : length got + length lost ≤ size
  pub valid : IsValid r.2
  pub tells : Tells e r.0 (total + length got)
  pub spared : ((k : ℕ) → Allocates (e k)) → b.bufsize < b.max → lost ≡ []

abbrev pub asked : ℕ → ℕ
asked size = if ltb data_bufsize size then data_bufsize else size

-- A round that ends the loop with nothing received.
pub ended :
    {e : ℕ → Answer} {c : Conn} {b : Buffer} {size total : ℕ} {z : ℤ}
    → IsValid b
    → Tells e z total
    → Received e c b size total (z, c, b)
ended {e} {c} {b} {size} {total} {z} valid tells = record {
  got = [];
  lost = [];
  received = sym (append-nil c.received);
  kept = sym (append-nil (contents b));
  fits = omega arith;
  valid = valid;
  tells = subst (Tells e z) {x = total} (omega arith) tells;
  spared = λ memory room. refl;
}

module _ (e : ℕ → Answer) (k : ℕ) {c : Conn} {b : Buffer} {size total : ℕ} (valid : IsValid b) where
  pub ended_failed :
      (errno : ℕ)
      → (e k).recv (asked size) ≡ recv_failed errno
      → Received e c b size total
          ((if again errno && ltb 0 total then pos total else neg errno), c, b)
  ended_failed errno is = elim (Bool-cases (again errno && ltb 0 total)) [
    | inl h ↦ rw h (ended valid (inl refl))
    | inr h ↦ rw h (ended valid (inr (inr (k, asked size, errno, refl, is, h))))
  ]

  pub ended_closed :
      (stale : ℕ)
      → (e k).recv (asked size) ≡ recv_got []
      → Received e c b size total ((if again stale && ltb 0 total then pos total else pos 0), c, b)
  ended_closed stale is = elim (Bool-cases (again stale && ltb 0 total)) [
    | inl h ↦ rw h (ended valid (inl refl))
    | inr h ↦ rw h (ended valid (inr (inl (k, asked size, refl, is))))
  ]

-- What the further rounds give, after a round whose bytes were put into the buffer.
pub continued :
    {e : ℕ → Answer} {c c' : Conn} {b b' : Buffer} {size size' total : ℕ} {r : ℤ × Conn × Buffer}
    → (buf : List ℕ) → c'.received ≡ c.received ++ buf
    → contents b' ≡ contents b ++ buf
    → length buf + size' ≤ size
    → (rest : Received e c' b' size' (total + length buf) r)
    → (((k : ℕ) → Allocates (e k)) → b.bufsize < b.max → rest.lost ≡ [])
    → Received e c b size total r
continued {e} {c} {c'} {b} {b'} {size} {size'} {total} {r} buf received kept fits rest spared =
    record {
      got = buf ++ rest.got;
      lost = rest.lost;
      received =
          rest.received
          ∙ ap (λ xs. xs ++ (rest.got ++ rest.lost)) received
          ∙ append_assoc c.received buf (rest.got ++ rest.lost)
          ∙ ap (λ xs. c.received ++ xs) (sym (append_assoc buf rest.got rest.lost));
      kept = rest.kept ∙ ap (λ xs. xs ++ rest.got) kept ∙ append_assoc (contents b) buf rest.got;
      fits = omega (arith, rest.fits, length-append buf rest.got);
      valid = rest.valid;
      tells =
          subst (Tells e r.0) {x = total + length buf + length rest.got}
            (omega (arith, length-append buf rest.got)) rest.tells;
      spared = spared;
    }

-- A round whose bytes were put into the buffer, and that ends the loop.
pub stored :
    {e : ℕ → Answer} {c c' : Conn} {b b' : Buffer} {size total : ℕ}
    → (buf : List ℕ) → c'.received ≡ c.received ++ buf
    → contents b' ≡ contents b ++ buf
    → length buf ≤ size
    → IsValid b'
    → Received e c b size total (pos (total + length buf), c', b')
unfolding ended
stored buf received kept fits valid =
    continued {size' = 0} buf received kept (omega arith) (ended valid (inl refl))
      (λ all room. refl)
