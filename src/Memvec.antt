-- ===== src/Memvec.antt =====
-- src/ds_memvec.c and src/ds_string.c: bytes with their number, and the strings that are such. What
-- the caller keeps in a `memvec_t` is a value here; the bytes that it points at are in blocks of
-- memory. The null pointer is 0.
pub mod Compare
pub mod Copies
mod Examples
use dungeon.Base.{
  ℕ, zero, suc, ◌+◌, ◌-◌, Bool, true, false, ◌&&◌, ◌||◌, Option, none, some, List, [], ◌∷◌, ◌++◌,
  length, take, drop, ltb, leb, ◌==◌, if◌then◌else◌, ℤ, pos, minus_one, Run, ok, fault, ◌>>=◌,
}

-- The blocks that `malloc` gave and `free` has not taken back, by their address.
abbrev pub Heap : Type 0
Heap = ℕ → Option (List ℕ)

pub record Memvec : Type 0 where
  pub ptr : ℕ
  pub size : ℕ

unfoldable pub write : Heap → ℕ → Option (List ℕ) → Heap
write h p b q = if q == p then b else h q

abbrev pub null : ℕ
null = 0

-- `n` bytes from the start of a block; a read of a dead block or past its end is a fault.
unfoldable pub read : Heap → ℕ → ℕ → Run (List ℕ)
read h p n = elim (h p) [
  | none ↦ fault
  | some b ↦ if leb n (length b) then ok (take n b) else fault
]

-- `free`; the null pointer is allowed.
unfoldable pub free : Heap → ℕ → Run Heap
free h p = if p == null then ok h else elim (h p) [ none ↦ fault | some b ↦ ok (write h p none) ]

-- `memcmp`, by its sign
unfoldable pub memcmp : List ℕ → List ℕ → ℤ
memcmp [] ys = pos 0
memcmp (x ∷ xs) [] = pos 0
memcmp (x ∷ xs) (y ∷ ys) =
    let rest = memcmp xs ys in if ltb x y then minus_one else if ltb y x then pos 1 else rest

abbrev pub prepend : ℕ → Option (List ℕ) → Option (List ℕ)
prepend x none = none
prepend x (some s) = some (x ∷ s)

-- The bytes of a C string, up to its NUL; `none` if there is none in the block.
unfoldable pub c_string : List ℕ → Option (List ℕ)
c_string [] = none
c_string (x ∷ xs) = let rest = c_string xs in if x == 0 then some [] else prepend x rest

-- `memory` says whether `malloc` gives the struct.
unfoldable pub memvec_new : (memory : Bool) → (src size : ℕ) → Option Memvec
memvec_new memory src size =
    if leb size 0 then none else if memory then some (record { ptr = src; size = size }) else none

unfoldable pub memvec_delete : Option Memvec → Heap → Run (ℤ × Heap)
unfolding free
memvec_delete none h = ok (minus_one, h)
memvec_delete (some mv) h = do h' ← free h mv.ptr; ok (pos 0, h')

unfoldable pub memvec_cmp : Memvec → Memvec → ℤ
memvec_cmp a b = if (a.size == b.size) && (a.ptr == b.ptr) then pos 0 else minus_one

unfoldable pub compare_bytes : Heap → ℕ → ℕ → ℕ → Run ℤ
unfolding read memcmp
compare_bytes h p q size = do xs ← read h p size; ys ← read h q size; ok (memcmp xs ys)

unfoldable pub memvec_cmp_content : Heap → Memvec → Memvec → Run ℤ
unfolding compare_bytes
memvec_cmp_content h a b =
    if a.size == b.size
    then compare_bytes h a.ptr b.ptr a.size
    else ok (if ltb b.size a.size then pos 1 else minus_one)

-- `memory` says whether `malloc` gives the struct, and `block` the address of the bytes' block.
unfoldable pub memvec_dup :
    (memory : Bool) (block : Option ℕ) → Heap → Memvec → Run (Option Memvec × Heap)
unfolding read
memvec_dup false block h src = ok (none, h)
memvec_dup true none h src = ok (none, h)
memvec_dup true (some p) h src = do
  bytes ← read h src.ptr src.size
  ok (some (record { ptr = p; size = src.size }), write h p (some bytes))

-- The text, with its NUL; `memory` as above. `string_toc` is the same code.
unfoldable pub memvec_serialize : (memory : Bool) → Heap → Memvec → Run (Option (List ℕ))
unfolding read
memvec_serialize false h mv = ok none
memvec_serialize true h mv = do bytes ← read h mv.ptr mv.size; ok (some (bytes ++ 0 ∷ []))

unfoldable pub string_toc : (memory : Bool) → Heap → Memvec → Run (Option (List ℕ))
unfolding read
string_toc false h s = ok none
string_toc true h s = do bytes ← read h s.ptr s.size; ok (some (bytes ++ 0 ∷ []))

-- `str` is the address of a C string; `strlen` past the block is a fault.
unfoldable pub string_fromc : (memory : Bool) → Heap → ℕ → Run (Option Memvec)
unfolding c_string memvec_new
string_fromc memory h str = elim (h str) [
  | none ↦ fault
  | some b ↦ elim (c_string b) [ none ↦ fault | some s ↦ ok (memvec_new memory str (length s)) ]
]

unfoldable pub string_cmp : Heap → Memvec → Memvec → Run ℤ
unfolding memvec_cmp_content
string_cmp h a b = memvec_cmp_content h a b

unfoldable pub string_delete : Option Memvec → Heap → Run (ℤ × Heap)
unfolding memvec_delete
string_delete s h = memvec_delete s h

-- `strdup`, to the block `p`, or to the null pointer if there is no memory
unfoldable pub strdup : Option ℕ → Heap → ℕ → Run (ℕ × Heap)
unfolding c_string
strdup block h src = elim (h src) [
  | none ↦ fault
  | some b ↦ elim (c_string b) [
    | none ↦ fault
    | some s ↦ elim block [ none ↦ ok (null, h) | some p ↦ ok (p, write h p (some (s ++ 0 ∷ []))) ]
  ]
]

-- The answer, the new `dest`, and the memory.
unfoldable pub string_cpy : Option ℕ → Heap → (dest src : Memvec) → Run (ℤ × Memvec × Heap)
unfolding free strdup
string_cpy block h dest src = do
  h₁ ← free h dest.ptr
  (p, h₂) ← strdup block h₁ src.ptr
  ok (pos 0, record { ptr = p; size = src.size }, h₂)

-- The start and the end of a long text, and four points between.
unfoldable pub abbreviated : ℕ → List ℕ → List ℕ
abbreviated size bytes = take 30 bytes ++ (46 ∷ 46 ∷ 46 ∷ 46 ∷ (drop (size - 30) bytes ++ 0 ∷ []))

-- What `cJSON_AddStringToObject` copies: up to the NUL.
abbrev pub content : ℕ → Option (List ℕ) → Run (ℕ × List ℕ)
content size none = fault
content size (some text) = ok (size, text)

-- "Size" and "Content" of `string_serialize`.
unfoldable pub string_serialize : Heap → Memvec → Run (ℕ × List ℕ)
unfolding read c_string abbreviated
string_serialize h s =
    if leb s.size 64
    then elim (h s.ptr) [ none ↦ fault | some b ↦ content s.size (c_string b) ]
    else elim (read h s.ptr s.size) [
      | fault ↦ fault
      | ok bytes ↦ content s.size (c_string (abbreviated s.size bytes))
    ]
