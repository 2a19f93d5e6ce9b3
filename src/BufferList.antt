-- ===== src/BufferList.antt =====
-- src/ds_bufferlist.c, the byte buffers of the connections, over the lists of ds_llist.c as
-- their clients see them. A buffer belongs to one connection, so that its list is never locked by
-- another thread.
pub mod Bytes
pub mod Rounds
pub mod Read
pub mod Move
mod Examples
use dungeon.Base.{
  ℕ, zero, suc, ◌+◌, ◌-◌, ◌≡◌, Bool, true, false, Option, none, some, List, [], ◌∷◌, ◌++◌, length,
  take, drop, ltb, leb, ◌==◌, if◌then◌else◌, ℤ, pos, negsuc, minus_one, Run, ok, fault,
}
use dungeon.Llist.View.{View, append_nb, fetch_head_nb, get_head_nb}

-- `start` is the block; `pos` is counted from it.
pub record Node : Type 0 where
  pub start : List ℕ
  pub pos : ℕ
  pub size : ℕ

pub record Buffer : Type 0 where
  pub base : View Node
  pub bufsize : ℕ
  pub max : ℕ
  pub nbytes : ℕ

abbrev pub default_bufsize : ℕ
default_bufsize = 65536

unfoldable pub buffer_new_node : Bool → List ℕ → ℕ → Option Node
buffer_new_node allocated data' size =
    if allocated then some (record { start = data'; pos = 0; size = size }) else none

-- If only `llist_new` fails the code frees the buffer, and goes on to write to it. The size is passed on as
-- an `int`, so that it is taken to be below 2 ^ 31.
unfoldable pub buffer_new : (allocated list_made : Bool) → ℕ → Run (Option Buffer)
buffer_new false list_made bufsize = ok none
buffer_new true false bufsize = fault
buffer_new true true bufsize =
    let n = if bufsize == 0 then default_bufsize else bufsize in
    ok
      (some (record { base = record { items = []; volume = n }; max = n; bufsize = 0; nbytes = 0 }))

-- The answer; on 0 the buffer is gone.
unfoldable pub buffer_delete : Option Buffer → ℤ × Option Buffer
buffer_delete none = (minus_one, none)
buffer_delete (some b) = if b.bufsize == 0 then (pos 0, none) else (minus_one, some b)

unfoldable pub buffer_nbytes : Buffer → ℕ
buffer_nbytes b = b.nbytes

unfoldable pub buffer_pop : Buffer → ℤ × Buffer
buffer_pop b =
    let (ret, head, left) = fetch_head_nb false b.base in
    elim head [
      | none ↦ (ret, b)
      | some bn ↦
          (pos 0, record b { base = left; nbytes = b.nbytes - bn.size; bufsize = b.bufsize - 1 })
    ]

-- A change of the node that the first item points at.
abbrev pub change_head : (Node → Node) → View Node → View Node
change_head f v = record v { items = elim (v.items) [ [] ↦ [] | x ∷ xs ↦ f x ∷ xs ] }

-- `bn->pos += size; bn->size -= size;`
abbrev pub advance : ℕ → Node → Node
advance n bn = record bn { pos = bn.pos + n; size = bn.size - n }

unfoldable pub buffer_move_head : Buffer → ℕ → ℤ × Buffer
buffer_move_head b size =
    let (ret, head) = get_head_nb false b.base in
    elim head [
      | none ↦ (ret, b)
      | some bn ↦
          if ltb size bn.size
          then (
            pos 0,
            record b { base = change_head (advance size) b.base; nbytes = b.nbytes - size },
          )
          else (minus_one, b)
    ]

-- `memcpy` of `n` bytes from `bn->pos`
abbrev pub bytes : ℕ → Node → List ℕ
bytes n bn = take n (drop bn.pos bn.start)

-- What the loop of `buffer_read` has copied, its result, and the buffer.
pub record Copied : Type 0 where
  pub out : List ℕ
  pub res : ℤ
  pub buffer : Buffer

-- The rounds of the loop, of which each takes the first node out or is the last; `res` is the
-- number of bytes so far. A round that finds no node ends the loop with -1.
unfoldable pub read_loop : ℕ → Buffer → ℕ → ℕ → List ℕ → Option Copied
read_loop zero b size res out = none
read_loop (suc fuel) b size res out =
    let stop : Option Copied = some (record { out = out; res = pos res; buffer = b }) in
    let failed : Option Copied = some (record { out = out; res = minus_one; buffer = b }) in
    if leb b.nbytes 0
    then stop
    else if leb size 0
    then stop
    else elim (get_head_nb false b.base).1 [
      | none ↦ failed
      | some bn ↦
          let taken : Buffer = record b {
            base = (fetch_head_nb false b.base).2;
            nbytes = b.nbytes - bn.size;
            bufsize = b.bufsize - 1;
          } in
          let moved : Buffer = record b {
            base = change_head (advance size) b.base;
            nbytes = b.nbytes - size;
          } in
          let next =
            read_loop fuel taken (size - bn.size) (res + bn.size) (out ++ bytes bn.size bn) in
          let last = read_loop fuel moved 0 (res + size) (out ++ bytes size bn) in
          if leb bn.size size then next else last
    ]

unfoldable pub buffer_read : ℕ → Buffer → ℕ → Option Copied
buffer_read fuel b size = read_loop fuel b size 0 []

-- `buf` holds the bytes that are written; each `malloc` may fail.
unfoldable pub buffer_write : (block node cell : Bool) → Buffer → List ℕ → ℤ × Buffer
buffer_write block node cell b buf =
    let size = length buf in
    if block
    then elim (buffer_new_node node buf size) [
      | none ↦ (minus_one, b)
      | some bn ↦
          let (ret, base') = append_nb false cell bn b.base in
          elim ret [
            | pos zero ↦ (
              pos size,
              record b { base = base'; bufsize = b.bufsize + 1; nbytes = b.nbytes + size },
            )
            | pos (suc n) ↦ (minus_one, b)
            | negsuc n ↦ (minus_one, b)
          ]
    ]
    else (minus_one, b)
