-- ===== src/BufferList/Bytes.antt =====
-- The bytes that a buffer holds, and what `buffer_write` adds to them.
use dungeon.Base.{
  ℕ, ◌+◌, ◌≤◌, ◌<◌, ◌≡◌, refl, ap, ◌∙◌, Bool, true, false, ◌&&◌, none, some, List, [], ◌∷◌, ◌++◌,
  append-nil, append_assoc, length, length-append, drop, take_all, length-take, length-drop, ltb,
  ◌==◌, Bool-cases, inl, inr, fault, if◌then◌else◌, arith, ℤ, pos, minus_one, ok,
}
use dungeon.Llist.View.{append_nb}
use dungeon.BufferList.{
  Node, Buffer, bytes, buffer_new, buffer_new_node, buffer_write, default_bufsize,
}

-- The bytes that the nodes hold, in order.
abbrev pub joined : List Node → List ℕ
joined [] = []
joined (bn ∷ ns) = bytes bn.size bn ++ joined ns

abbrev pub contents : Buffer → List ℕ
contents b = joined b.base.items

abbrev pub total : List Node → ℕ
total [] = 0
total (bn ∷ ns) = bn.size + total ns

-- The bytes of each node lie in its block.
abbrev pub AllFit : List Node → Type 0
AllFit [] = Unit
AllFit (bn ∷ ns) = (bn.pos + bn.size ≤ length bn.start) × AllFit ns

pub record IsValid (b : Buffer) : Type 0 where
  pub fit : AllFit b.base.items
  pub counted : b.bufsize ≡ length b.base.items
  pub summed : b.nbytes ≡ total b.base.items
  pub room : b.base.volume ≡ b.max

pub length-bytes : (bn : Node) (n : ℕ) → bn.pos + n ≤ length bn.start → length (bytes n bn) ≡ n
length-bytes bn n h =
    omega (arith, length-take n (drop bn.pos bn.start), length-drop bn.pos bn.start)

pub length-joined : (ns : List Node) → AllFit ns → length (joined ns) ≡ total ns
length-joined [] fit = refl
length-joined (bn ∷ ns) fit =
    length-append (bytes bn.size bn) (joined ns)
    ∙ omega (arith, length-bytes bn bn.size fit.0, length-joined ns fit.1)

joined-snoc : (ns : List Node) (bn : Node) → joined (ns ++ bn ∷ []) ≡ joined ns ++ bytes bn.size bn
joined-snoc [] bn = append-nil (bytes bn.size bn)
joined-snoc (x ∷ ns) bn = rw (joined-snoc ns bn, append_assoc)

total-snoc : (ns : List Node) (bn : Node) → total (ns ++ bn ∷ []) ≡ total ns + bn.size
total-snoc [] bn = omega arith
total-snoc (x ∷ ns) bn = omega (arith, total-snoc ns bn)

AllFit-snoc :
    (ns : List Node) (bn : Node)
    → AllFit ns
    → bn.pos + bn.size ≤ length bn.start
    → AllFit (ns ++ bn ∷ [])
AllFit-snoc [] bn fit h = (h, tt)
AllFit-snoc (x ∷ ns) bn fit h = (fit.0, AllFit-snoc ns bn fit.1 h)

-- The buffer with one node more.
filled : Buffer → List ℕ → Buffer
filled b buf = record b {
  base = record (b.base) {
    items = b.base.items ++ record { start = buf; pos = 0; size = length buf } ∷ [];
  };
  bufsize = b.bufsize + 1;
  nbytes = b.nbytes + length buf;
}

module _ {b : Buffer} (valid : IsValid b) (buf : List ℕ) where
  filled-IsValid : IsValid (filled b buf)
  unfolding filled
  filled-IsValid = record {
    fit = AllFit-snoc b.base.items _ valid.fit (omega arith);
    counted = omega (arith, valid.counted, length-append {0} b.base.items _);
    summed = omega (
      arith,
      valid.summed,
      total-snoc b.base.items (record { start = buf; pos = 0; size = length buf }),
    );
    room = valid.room;
  }

  filled-contents : contents (filled b buf) ≡ contents b ++ buf
  unfolding filled
  filled-contents =
      joined-snoc b.base.items _
      ∙ ap (λ ys. contents b ++ ys) (take_all (length buf) buf (omega arith))

  write-filled :
      (block node cell : Bool)
      → buffer_write block node cell b buf ≡ (
          if block && node && cell && ltb b.bufsize b.max
          then (pos (length buf), filled b buf)
          else (minus_one, b))
  unfolding buffer_write buffer_new_node append_nb filled
  write-filled block node cell = ground (arith, valid.counted, valid.room)

  pub write_refused :
      (block node cell : Bool)
      → (block && node && cell && ltb b.bufsize b.max) ≡ false
      → buffer_write block node cell b buf ≡ (minus_one, b)
  write_refused block node cell h = rw (write-filled block node cell, h)

  pub write_taken :
      (block node cell : Bool)
      → (block && node && cell && ltb b.bufsize b.max) ≡ true
      → let r = buffer_write block node cell b buf in
        (r.0 ≡ pos (length buf))
        × (contents r.1 ≡ contents b ++ buf)
        × IsValid r.1
        × (r.1.bufsize ≡ b.bufsize + 1)
        × (r.1.max ≡ b.max)
  unfolding filled
  write_taken block node cell h =
      rw (write-filled block node cell, h) (refl, filled-contents, filled-IsValid, refl, refl)

  -- On a valid buffer: with memory, and room for one write more, `buffer_write` answers the number
  -- of bytes and puts them behind the others; else it answers -1 and leaves the contents. The
  -- buffer stays valid.
  pub write-append :
      (block node cell : Bool)
      → let r = buffer_write block node cell b buf in
        IsValid r.1
        × (◌≡◌ {A = ℤ × List ℕ}
            (r.0, contents r.1)
            (if block && node && cell && ltb b.bufsize b.max
              then (pos (length buf), contents b ++ buf)
              else (minus_one, contents b)))
  write-append block node cell = elim (Bool-cases (block && node && cell && ltb b.bufsize b.max)) [
    | inl h ↦
        rw (write-filled block node cell, h)
          (filled-IsValid, ap (λ xs. (pos (length buf), xs)) filled-contents)
    | inr h ↦ rw (write-filled block node cell, h) (valid, refl)
  ]

-- With memory `buffer_new` makes an empty valid buffer with room for at least one write, also if
-- asked for none; it answers NULL if its own memory is missing, and writes to freed memory, a
-- fault, if only the list is missing.
pub new-IsValid :
    (list_made : Bool) (bufsize : ℕ)
    → (b : Buffer) × (buffer_new true true bufsize ≡ ok (some b))
      × IsValid b
      × (contents b ≡ [])
      × (0 < b.max)
      × (buffer_new false list_made bufsize ≡ ok none)
      × (buffer_new true false bufsize ≡ fault)
unfolding buffer_new
new-IsValid list_made bufsize =
    let n = if bufsize == 0 then default_bufsize else bufsize in
    (
      record { base = record { items = []; volume = n }; max = n; bufsize = 0; nbytes = 0 },
      refl,
      record { fit = tt; counted = refl; summed = refl; room = refl },
      refl,
      ground arith,
      refl,
      refl,
    )
