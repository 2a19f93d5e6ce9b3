-- ===== src/BufferList/Rounds.antt =====
-- The rounds of the loop of `buffer_read`, each as a change of the buffer.
use dungeon.Base.{
  ℕ, ◌+◌, ◌-◌, ◌≤◌, ◌<◌, ◌≡◌, refl, sym, ap, ◌∙◌, List, [], ◌∷◌, ◌++◌, append-nil, append_assoc,
  length, take, drop, take_all, drop_all, nil_of_length, take_past, drop_past, take_within,
  drop_within, ◌⊎◌, take-take, drop-take, drop-drop, inl, inr, arith, pos,
}
use dungeon.BufferList.{Node, Buffer, bytes, advance, Copied}
use dungeon.BufferList.Bytes.{joined, contents, total, AllFit, IsValid, length-bytes, length-joined}

-- The first `n` bytes were handed out, and the others are in the buffer.
pub record Handed (b : Buffer) (size : ℕ) (before : List ℕ) (c : Copied) : Type 0 where
  pub out : c.out ≡ before ++ take size (contents b)
  pub res : c.res ≡ pos (length c.out)
  pub rest : contents c.buffer ≡ drop size (contents b)
  pub valid : IsValid c.buffer

-- The number of bytes that a node gives away leaves the others in it.
pub bytes-advance :
    (bn : Node) (n : ℕ)
    → n ≤ bn.size
    → bn.pos + bn.size ≤ length bn.start
    → (take n (bytes bn.size bn) ≡ bytes n bn)
      × (drop n (bytes bn.size bn) ≡ bytes (bn.size - n) (advance n bn))
bytes-advance bn n h fit = (
  take-take n bn.size (drop bn.pos bn.start) h,
  drop-take n bn.size (drop bn.pos bn.start) h
      ∙ ap (take (bn.size - n)) (drop-drop n bn.pos bn.start),
)

unfoldable pub stopped : Buffer → List ℕ → Copied
stopped b before = record { out = before; res = pos (length before); buffer = b }

-- The loop stops when no byte is wanted or none is there.
pub stopped-Handed :
    (b : Buffer) (size : ℕ) (before : List ℕ)
    → IsValid b
    → (size ≡ 0) ⊎ (b.nbytes ≡ 0)
    → Handed b size before (stopped b before)
unfolding stopped
stopped-Handed b size before valid (inl e) = record {
  out = rw e (sym (append-nil before));
  res = refl;
  rest = rw e;
  valid = valid;
}
stopped-Handed b size before valid (inr e) =
    let none_left : contents b ≡ [] =
      nil_of_length (contents b)
        (omega (arith, length-joined b.base.items valid.fit, valid.summed)) in
    record {
      out = rw (none_left, take_all {A = ℕ} size [] (omega arith)) (sym (append-nil before));
      res = refl;
      rest = rw (none_left, drop_all {A = ℕ} size [] (omega arith));
      valid = valid;
    }

module _ (b : Buffer) (valid : IsValid b) (bn : Node) (ns : List Node)
    (e : b.base.items ≡ bn ∷ ns) where
  unfoldable pub taken : Buffer
  taken = record b {
    base = record { items = ns; volume = b.base.volume };
    nbytes = b.nbytes - bn.size;
    bufsize = b.bufsize - 1;
  }

  unfoldable pub moved : ℕ → Buffer
  moved size = record b {
    base = record { items = advance size bn ∷ ns; volume = b.base.volume };
    nbytes = b.nbytes - size;
  }

  pub fit : AllFit (bn ∷ ns)
  fit = rw e at valid.fit

  summed : b.nbytes ≡ bn.size + total ns
  summed = valid.summed ∙ ap total e

  pub held : contents b ≡ bytes bn.size bn ++ joined ns
  held = ap joined e

  pub taken-IsValid : IsValid taken
  unfolding taken
  taken-IsValid = record {
    fit = fit.1;
    counted = omega (arith, valid.counted, ap length e);
    summed = omega (arith, summed);
    room = valid.room;
  }

  pub moved-IsValid : (size : ℕ) → size < bn.size → IsValid (moved size)
  unfolding moved
  moved-IsValid size h = record {
    fit = (omega (arith, fit.0), fit.1);
    counted = omega (arith, valid.counted, ap length e);
    summed = omega (arith, summed);
    room = valid.room;
  }

  pub taken-items : taken.base.items ≡ ns
  unfolding taken
  taken-items = refl

  -- A round that takes the whole first node.
  pub taken-Handed :
      (size : ℕ) (before : List ℕ) (c : Copied)
      → bn.size ≤ size
      → Handed taken (size - bn.size) (before ++ bytes bn.size bn) c
      → Handed b size before c
  unfolding taken
  taken-Handed size before c h r =
      let w = bytes bn.size bn in
      let n : length w ≡ bn.size = length-bytes bn bn.size fit.0 in
      let inside : length w ≤ size = omega (arith, n) in
      record {
        out =
            r.out
            ∙ append_assoc before w (take (size - bn.size) (joined ns))
            ∙ ap (λ ys. before ++ ys) (sym (rw held (rw (take_past size w (joined ns) inside, n))));
        res = r.res;
        rest = r.rest ∙ sym (rw held (rw (drop_past size w (joined ns) inside, n)));
        valid = r.valid;
      }

  -- The last round, which takes a part of the first node.
  pub moved-Handed :
      (size : ℕ) (before : List ℕ)
      → size < bn.size
      → Handed b size before (stopped (moved size) (before ++ bytes size bn))
  unfolding moved stopped
  moved-Handed size before h =
      let w = bytes bn.size bn in
      let n : length w ≡ bn.size = length-bytes bn bn.size fit.0 in
      let inside : size ≤ length w = omega (arith, n) in
      let part = bytes-advance bn size (omega arith) fit.0 in
      record {
        out =
            ap (λ ys. before ++ ys)
              (sym (rw held (take_within size w (joined ns) inside ∙ part.0)));
        res = refl;
        rest =
            sym
              (rw held (drop_within size w (joined ns) inside ∙ ap (λ ys. ys ++ joined ns) part.1));
        valid = moved-IsValid size h;
      }
