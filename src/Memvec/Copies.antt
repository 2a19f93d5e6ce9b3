-- ===== src/Memvec/Copies.antt =====
-- Copies of vectors of bytes, and conversions to and from strings of C.
use dungeon.Base.{
  ℕ, ◌≤◌, ◌≡◌, ◌≢◌, refl, sym, ap, ◌∙◌, fun_ext, true, false, Option, none, some, List, [], ◌∷◌,
  ◌++◌, length, has, take, take_all, take_within, length-take, length-append, leb, if◌then◌else◌,
  pos, minus_one, ok, fault, arith,
}
use dungeon.Memvec.{
  Heap, Memvec, write, null, free, c_string, memvec_new, memvec_delete, memvec_cmp, compare_bytes,
  memvec_cmp_content, memvec_dup, string_cmp, string_toc, string_fromc, strdup, string_cpy,
}
use dungeon.Memvec.Compare.{read_ok, memcmp_self}

-- A string without NULs, and then a NUL, is a C string.
c_string-append : (s rest : List ℕ) → has 0 s ≡ false → c_string (s ++ 0 ∷ rest) ≡ some s
unfolding c_string
c_string-append [] rest none_in = refl
c_string-append (x ∷ s) rest none_in = ground (arith, c_string-append s rest)

c_string-none : (s : List ℕ) → has 0 s ≡ false → c_string s ≡ none
unfolding c_string
c_string-none [] none_in = refl
c_string-none (x ∷ s) none_in = ground (arith, c_string-none s)

write_self : (h : Heap) (p : ℕ) (b : Option (List ℕ)) → write h p b p ≡ b
unfolding write
write_self h p b = ground arith

write_other : (h : Heap) (p q : ℕ) (b : Option (List ℕ)) → q ≢ p → write h p b q ≡ h q
unfolding write
write_other h p q b ne = ground arith

write_back : (h : Heap) (p : ℕ) (b : List ℕ) → h p ≡ none → write (write h p (some b)) p none ≡ h
unfolding write
write_back h p b unused = fun_ext (λ q. ground (arith, unused))

-- With memory, `memvec_dup` of a vector whose block is live and holds its size makes a vector whose
-- bytes compare as equal and which is not the same one, and to delete it gives back the memory as it
-- was.
pub memvec_dup-deletes :
    (h : Heap) (a : Memvec) (xs : List ℕ) (p : ℕ)
    → h a.ptr ≡ some xs
    → a.size ≤ length xs
    → h p ≡ none
    → p ≢ null
    → (d : Memvec) × (h' : Heap) × (memvec_dup true (some p) h a ≡ ok (some d, h'))
      × (memvec_cmp_content h' a d ≡ ok (pos 0))
      × (memvec_cmp a d ≡ minus_one)
      × (memvec_delete (some d) h' ≡ ok (pos 0, h))
unfolding memvec_dup memvec_cmp_content compare_bytes memvec_cmp memvec_delete free
memvec_dup-deletes h a xs p there held unused given =
    let bytes = take a.size xs in
    let d : Memvec = record { ptr = p; size = a.size } in
    let h' = write h p (some bytes) in
    let n : length bytes ≡ a.size = omega (arith, length-take a.size xs, held) in
    let here = write_self h p (some bytes) in
    let apart : a.ptr ≢ p = λ e. ground (arith, there, unused, ap h e) in
    let still : h' a.ptr ≡ some xs = write_other h p a.ptr (some bytes) apart ∙ there in
    let again : take a.size bytes ≡ bytes = take_all a.size bytes (omega (arith, n)) in
    (
      d,
      h',
      ground (arith, read_ok h a xs there held),
      ground (
        arith,
        read_ok h' a xs still held,
        read_ok h' d bytes here (omega (arith, n)),
        again,
        memcmp_self bytes,
      ),
      ground (arith, apart),
      ground (arith, here, given, write_back h p bytes unused),
    )

-- A C string that is not empty comes back from `string_fromc` and `string_toc` as it was; of the
-- empty string `string_fromc` makes nothing.
pub string_toc-string_fromc :
    (h : Heap) (str : ℕ) (s rest : List ℕ)
    → h str ≡ some (s ++ 0 ∷ rest)
    → has 0 s ≡ false
    → (string_fromc true h str
        ≡ ok (if leb (length s) 0 then none else some (record { ptr = str; size = length s })))
      × (string_toc true h (record { ptr = str; size = length s }) ≡ ok (some (s ++ 0 ∷ [])))
unfolding string_fromc memvec_new string_toc
string_toc-string_fromc h str s rest there none_in =
    let mv : Memvec = record { ptr = str; size = length s } in
    let all : take (length s) (s ++ 0 ∷ rest) ≡ s =
      take_within (length s) s (0 ∷ rest) (omega arith) ∙ take_all (length s) s (omega arith) in
    (
      ground (arith, there, c_string-append s rest none_in),
      ground (
        arith,
        read_ok h mv (s ++ 0 ∷ rest) there (omega (arith, length-append s (0 ∷ rest))),
        all,
      ),
    )

module _ (h : Heap) (dest src : Memvec) (old xs : List ℕ) (p : ℕ) (there : h dest.ptr ≡ some old)
    (from : h src.ptr ≡ some xs) (live : dest.ptr ≢ null) (apart : dest.ptr ≢ src.ptr) where
  -- `string_cpy` between strings at different live blocks, of which the source's is a C string of
  -- the source's size, with memory for a block that is not the source's, makes a string that
  -- compares as equal with the source.
  pub string_cmp-string_cpy :
      (s rest : List ℕ)
      → p ≢ src.ptr
      → xs ≡ s ++ 0 ∷ rest
      → has 0 s ≡ false
      → src.size ≡ length s
      → (d : Memvec) × (h' : Heap) × (string_cpy (some p) h dest src ≡ ok (pos 0, d, h'))
        × (string_cmp h' d src ≡ ok (pos 0))
  unfolding string_cpy free strdup string_cmp memvec_cmp_content compare_bytes
  string_cmp-string_cpy s rest other parts none_in size =
      let d : Memvec = record { ptr = p; size = src.size } in
      let h' = write (write h dest.ptr none) p (some (s ++ 0 ∷ [])) in
      let ended : c_string xs ≡ some s = ap c_string parts ∙ c_string-append s rest none_in in
      let freed = write h dest.ptr none in
      let back : freed src.ptr ≡ some xs =
        write_other h dest.ptr src.ptr none (λ e. apart (sym e)) ∙ from in
      let here = write_self freed p (some (s ++ 0 ∷ [])) in
      let still : h' src.ptr ≡ some xs =
        write_other freed p src.ptr (some (s ++ 0 ∷ [])) (λ e. other (sym e)) ∙ back in
      let fits : src.size ≤ length (s ++ 0 ∷ []) = omega (arith, length-append s (0 ∷ []), size) in
      let fits' : src.size ≤ length xs =
        omega (arith, ap length parts, length-append s (0 ∷ rest), size) in
      let one : take src.size (s ++ 0 ∷ []) ≡ take src.size s =
        take_within src.size s (0 ∷ []) (omega (arith, size)) in
      let two : take src.size xs ≡ take src.size s =
        ap (take src.size) parts ∙ take_within src.size s (0 ∷ rest) (omega (arith, size)) in
      (
        d,
        h',
        ground (arith, there, back, live, ended),
        ground (
          arith,
          read_ok h' d (s ++ 0 ∷ []) here fits,
          read_ok h' src xs still fits',
          one,
          two,
          memcmp_self (take src.size s),
        ),
      )

  -- If the source's block has no NUL, as one that `memvec_dup` made of text, `string_cpy` reads past
  -- the block.
  pub string_cpy_unended :
      (block : Option ℕ) → has 0 xs ≡ false → string_cpy block h dest src ≡ fault
  unfolding string_cpy free strdup
  string_cpy_unended block none_in =
      let back : write h dest.ptr none src.ptr ≡ some xs =
        write_other h dest.ptr src.ptr none (λ e. apart (sym e)) ∙ from in
      ground (arith, there, back, live, c_string-none xs none_in)
