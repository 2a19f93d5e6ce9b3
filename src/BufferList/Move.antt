-- ===== src/BufferList/Move.antt =====
-- `buffer_move_head` and `buffer_pop`, by which bytes that were sent leave a buffer.
use dungeon.Base.{
  ℕ, ◌<◌, ◌≡◌, refl, sym, ap, ◌∙◌, List, ◌∷◌, ◌++◌, length, drop, drop_within, drop_past, ltb,
  Bool-cases, inl, inr, if◌then◌else◌, arith, ℤ, pos, minus_one,
}
use dungeon.Llist.View.{fetch_head_nb, get_head_nb}
use dungeon.BufferList.{Node, Buffer, bytes, buffer_move_head, buffer_pop}
use dungeon.BufferList.Bytes.{contents, joined, IsValid, length-bytes}
use dungeon.BufferList.Rounds.{taken, moved, taken-IsValid, moved-IsValid, bytes-advance, fit, held}

module _ (b : Buffer) (valid : IsValid b) (bn : Node) (ns : List Node)
    (e : b.base.items ≡ bn ∷ ns) where
  pub buffer_pop-taken : buffer_pop b ≡ (pos 0, taken b valid bn ns e)
  unfolding buffer_pop fetch_head_nb taken
  buffer_pop-taken = ground (arith, e)

  pub buffer_move_head-moved :
      (n : ℕ)
      → buffer_move_head b n
        ≡ (if ltb n bn.size then (pos 0, moved b valid bn ns e n) else (minus_one, b))
  unfolding buffer_move_head get_head_nb moved
  buffer_move_head-moved n = ground (arith, e)

  pub moved-contents :
      (n : ℕ) → n < bn.size → contents (moved b valid bn ns e n) ≡ drop n (contents b)
  unfolding moved
  moved-contents n h =
      let ok_fit = (fit b valid bn ns e).0 in
      sym (
        rw (held b valid bn ns e) (
          drop_within n (bytes bn.size bn) (joined ns)
            (omega (arith, length-bytes bn bn.size ok_fit))
          ∙ ap (λ ys. ys ++ joined ns) (bytes-advance bn n (omega arith) ok_fit).1))

  pub taken-contents : contents (taken b valid bn ns e) ≡ drop bn.size (contents b)
  unfolding taken
  taken-contents =
      let n : length (bytes bn.size bn) ≡ bn.size =
        length-bytes bn bn.size (fit b valid bn ns e).0 in
      sym (
        rw (held b valid bn ns e) (
          drop_past bn.size (bytes bn.size bn) (joined ns) (omega (arith, n))
          ∙ ap (λ k. drop k (joined ns)) {y = 0} (omega (arith, n))))

  -- On a valid buffer with a first node, `buffer_pop` drops just the bytes of that node, and
  -- `buffer_move_head` drops `n` bytes when the node has more than `n`, else it answers -1 and
  -- changes nothing. The buffer stays valid.
  pub move-drops :
      (n : ℕ)
      → (buffer_pop b).0 ≡ pos 0
        × IsValid (buffer_pop b).1
        × (contents (buffer_pop b).1 ≡ drop bn.size (contents b))
        × IsValid (buffer_move_head b n).1
        × (◌≡◌ {A = ℤ × List ℕ}
            ((buffer_move_head b n).0, contents (buffer_move_head b n).1)
            (if ltb n bn.size then (pos 0, drop n (contents b)) else (minus_one, contents b)))
  move-drops n =
      let pop = buffer_pop-taken in
      let move = buffer_move_head-moved n in
      let after : IsValid (buffer_move_head b n).1
          × (◌≡◌ {A = ℤ × List ℕ} ((buffer_move_head b n).0, contents (buffer_move_head b n).1)
              (if ltb n bn.size then (pos 0, drop n (contents b)) else (minus_one, contents b))) =
        elim (Bool-cases (ltb n bn.size)) [
          | inl h ↦
              let less : n < bn.size = ground (arith, h) in
              rw (move, h)
                (
                  moved-IsValid b valid bn ns e n less,
                  ap (λ xs. (pos 0, xs)) (moved-contents n less),
                )
          | inr h ↦ rw (move, h) (valid, refl)
        ] in
      (
        ap (λ r. r.0) pop,
        rw pop (taken-IsValid b valid bn ns e),
        rw pop taken-contents,
        after.0,
        after.1,
      )
