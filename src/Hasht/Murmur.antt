-- ===== src/Hasht/Murmur.antt =====
-- `default_hash_func`, the hash that a table uses if it is given none, on 32-bit words.
use Prim.Native.Nat.{bit_xor, bit_or}
use dungeon.Base.{
  ℕ, zero, suc, ◌+◌, ◌-◌, ◌*◌, ◌/◌, ◌%◌, ◌^◌, ◌≤◌, ◌<◌, ◌≡◌, refl, ◌==◌, if◌then◌else◌, arith,
}

abbrev pub u32 : ℕ
u32 = 2 ^ 32

-- `k<<r`, `k>>r` and `(k<<r) | (k>>(32-r))`
abbrev pub shl : ℕ → ℕ → ℕ
shl k r = k * 2 ^ r % u32

abbrev pub shr : ℕ → ℕ → ℕ
shr k r = k / 2 ^ r

unfoldable pub rotate : ℕ → ℕ → ℕ
rotate k r = bit_or (shl k r) (shr k (32 - r))

-- The word at byte `p`, least significant byte first.
abbrev pub word : (ℕ → ℕ) → ℕ → ℕ
word data' p = data' p + data' (p + 1) * 256 + data' (p + 2) * 65536 + data' (p + 3) * 16777216

unfoldable pub mix : ℕ → ℕ → ℕ
unfolding rotate
mix hash k =
    let k₁ = k * 0xcc9e2d51 % u32 in
    let k₂ = rotate k₁ 15 * 0x1b873593 % u32 in (rotate (bit_xor hash k₂) 13 * 5 + 0xe6546b64) % u32

-- `n` rounds of the loop from the word `i` on
unfoldable pub words : (ℕ → ℕ) → ℕ → ℕ → ℕ → ℕ
words data' i zero hash = hash
words data' i (suc n) hash = words data' (i + 1) n (mix hash (word data' (i * 4)))

-- The bytes that are left over; they are read from the start of the data.
abbrev pub rest : (ℕ → ℕ) → ℕ → ℕ
rest data' n =
    if n == 3
    then data' 0 + data' 1 * 256 + data' 2 * 65536
    else if n == 2
    then data' 0 + data' 1 * 256
    else if n == 1
    then data' 0
    else 0

unfoldable pub finish : ℕ → ℕ
finish hash =
    let a = bit_xor hash (shr hash 16) * 0x85ebca6b % u32 in
    let b = bit_xor a (shr a 13) * 0xc2b2ae35 % u32 in bit_xor b (shr b 16)

unfoldable pub default_hash_func : (ℕ → ℕ) → ℕ → ℕ
default_hash_func data' len =
    let hash = words data' 0 (len / 4) 20000033 in
    let tmp = rest data' (len % 4) in
    finish (bit_xor (bit_xor hash (bit_or (shr tmp 16) (shl tmp 16))) (len % u32))

words_same :
    (d e : ℕ → ℕ) (i n hash : ℕ)
    → ((j : ℕ) → j < (i + n) * 4 → d j ≡ e j)
    → words d i n hash ≡ words e i n hash
unfolding words
words_same d e i zero hash h = refl
words_same d e i (suc n) hash h =
    let same : word d (i * 4) ≡ word e (i * 4) = ground (
      arith,
      h (i * 4) (omega arith),
      h (i * 4 + 1) (omega arith),
      h (i * 4 + 2) (omega arith),
      h (i * 4 + 3) (omega arith),
    ) in
    rw same (words_same d e (i + 1) n (mix hash (word e (i * 4))) (λ j lt. h j (omega (arith, lt))))

rest_same : (d e : ℕ → ℕ) (n : ℕ) → n < 4 → ((j : ℕ) → j < 4 → d j ≡ e j) → rest d n ≡ rest e n
rest_same d e n lt h = ground (arith, h 0 (omega arith), h 1 (omega arith), h 2 (omega arith))

-- The hash of a key of four bytes or more does not depend on the bytes behind the last full word: keys that
-- differ in these alone have the same hash.
pub default_hash_func_tail :
    (d e : ℕ → ℕ) (len : ℕ)
    → 4 ≤ len
    → ((j : ℕ) → j < len / 4 * 4 → d j ≡ e j)
    → default_hash_func d len ≡ default_hash_func e len
unfolding default_hash_func
default_hash_func_tail d e len long h =
    let a = words_same d e 0 (len / 4) 20000033 (λ j lt. h j (omega (arith, lt))) in
    let b = rest_same d e (len % 4) (omega arith) (λ j lt. h j (omega (arith, lt, long))) in
    rw (a, b) refl
