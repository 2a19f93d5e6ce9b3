-- ===== src/Memvec/Compare.antt =====
-- The order of vectors by their bytes.
use dungeon.Base.{
  ℕ, zero, suc, ◌≤◌, ◌≡◌, ◌↔◌, refl, ap, inl, inr, some, List, [], ◌∷◌, length, take, length-take,
  ltb, ◌==◌, Bool-cases, if◌then◌else◌, ℤ, pos, negsuc, minus_one, ok, arith,
}
use dungeon.Memvec.{Heap, Memvec, read, memcmp, compare_bytes, memvec_cmp_content}

pub memcmp_self : (xs : List ℕ) → memcmp xs xs ≡ pos 0
unfolding memcmp
memcmp_self [] = refl
memcmp_self (x ∷ xs) = ground (arith, memcmp_self xs)

-- Bytes of the same number compare as equal only if they are.
memcmp_eq : (xs ys : List ℕ) → length xs ≡ length ys → memcmp xs ys ≡ pos 0 → xs ≡ ys
unfolding memcmp
memcmp_eq [] [] n e = refl
memcmp_eq [] (y ∷ ys) n e = absurd (omega arith)
memcmp_eq (x ∷ xs) [] n e = absurd (omega arith)
memcmp_eq (x ∷ xs) (y ∷ ys) n e = ground (arith, memcmp_eq xs ys)

-- The opposite sign.
abbrev pub opposite : ℤ → ℤ
opposite (pos zero) = pos 0
opposite (pos (suc n)) = negsuc n
opposite (negsuc n) = pos (suc n)

memcmp_swap : (xs ys : List ℕ) → memcmp ys xs ≡ opposite (memcmp xs ys)
unfolding memcmp
memcmp_swap [] [] = refl
memcmp_swap [] (y ∷ ys) = refl
memcmp_swap (x ∷ xs) [] = refl
memcmp_swap (x ∷ xs) (y ∷ ys) = ground (arith, memcmp_swap xs ys)

module _ (h : Heap) (a : Memvec) (xs : List ℕ) (there : h a.ptr ≡ some xs)
    (held : a.size ≤ length xs) where
  pub read_ok : read h a.ptr a.size ≡ ok (take a.size xs)
  unfolding read
  read_ok = ground (arith, there, held)

-- For two vectors whose blocks are live and hold their sizes, `memvec_cmp_content` returns; it
-- answers 0 exactly if the bytes are the same, and the opposite with the vectors swapped.
pub memvec_cmp_content-order :
    (h : Heap) (a b : Memvec) (xs ys : List ℕ)
    → h a.ptr ≡ some xs
    → h b.ptr ≡ some ys
    → a.size ≤ length xs
    → b.size ≤ length ys
    → (z : ℤ) × (memvec_cmp_content h a b ≡ ok z)
      × ((z ≡ pos 0) ↔ (take a.size xs ≡ take b.size ys))
      × (memvec_cmp_content h b a ≡ ok (opposite z))
unfolding memvec_cmp_content compare_bytes
memvec_cmp_content-order h a b xs ys there there' held held' =
    let l = length-take a.size xs in
    let l' = length-take b.size ys in
    let first = read_ok h a xs there held in
    let second = read_ok h b ys there' held' in
    elim (Bool-cases (a.size == b.size)) [
      | inl same ↦
          let e : a.size ≡ b.size = ground (arith, same) in
          (
            memcmp (take a.size xs) (take b.size ys),
            ground (arith, same, e, first, second),
            (
              λ z. memcmp_eq _ _ (omega (arith, l, l', e)) z,
              λ bytes. rw bytes (memcmp_self (take b.size ys)),
            ),
            ground (arith, same, e, first, second, memcmp_swap (take a.size xs) (take b.size ys)),
          )
      | inr other ↦ (
        if ltb b.size a.size then pos 1 else minus_one,
        ground (arith, other),
        (
          λ z. absurd (ground (arith, z)),
          λ bytes. absurd (ground (arith, other, ap length bytes, l, l')),
        ),
        ground (arith, other),
      )
    ]
