-- ===== src/Queue.antt =====
-- src/ds_queue2.c, the bounded queue of pointers that the run queue and the terminated queue are.
-- Each function is one critical section of the mutex `mut`; `signal` is the condition variable that
-- it signals. A blocking call that has to wait is `none`: the caller sleeps with the mutex given
-- back, and makes the call again when it is woken.
pub mod Window
pub mod Fifo
pub mod Uniq
pub mod Trace
mod Examples
use dungeon.Base.{
  ℕ, zero, suc, ◌+◌, ◌-◌, ◌%◌, ◌^◌, Bool, true, false, Option, none, some, ltb, leb, ◌==◌,
  if◌then◌else◌, ℤ, pos, minus_one, Run, ok, fault,
}

abbrev pub u32 : ℕ
u32 = 2 ^ 32

-- `bucket` holds what the allocated words hold, those that were never written included.
pub record Queue : Type 0 where
  pub max : ℕ
  pub nr : ℕ
  pub en_count : ℕ
  pub de_count : ℕ
  pub rindex : ℕ
  pub windex : ℕ
  pub bucket : ℕ → ℕ

pub data Cond : Type 0 where
  cond_eq cond_dq : Cond

pub record Reply : Type 0 where
  pub ret : ℤ
  pub queue : Queue
  pub signal : Option Cond

abbrev pub reply : ℤ → Queue → Option Cond → Reply
reply n q s = record { ret = n; queue = q; signal = s }

abbrev pub update : (ℕ → ℕ) → ℕ → ℕ → ℕ → ℕ
update b i x j = if j == i then x else b j

unfoldable pub next : ℕ → ℕ → ℕ
next n max = let m = (n + 1) % u32 in if leb max m then 0 else m

-- `garbage` is what `malloc` left in the bucket; it returns NULL if `allocated` is false.
unfoldable pub queue_new : Bool → (ℕ → ℕ) → ℕ → Option Queue
queue_new allocated garbage max =
    if allocated
    then some (record {
      max = max;
      nr = 0;
      en_count = 0;
      de_count = 0;
      rindex = 0;
      windex = 0;
      bucket = garbage;
    })
    else none

-- `q->bucket[q->windex] = data;` and the three lines under it
unfoldable pub put : Queue → ℕ → Queue
put q x = record q {
  bucket = update q.bucket q.windex x;
  windex = next q.windex q.max;
  nr = (q.nr + 1) % u32;
  en_count = (q.en_count + 1) % u32;
}

-- `q->rindex = next(q->rindex, q->max);` and the two lines under it
unfoldable pub take : Queue → Queue
take q = record q { rindex = next q.rindex q.max; nr = q.nr - 1; de_count = (q.de_count + 1) % u32 }

unfoldable pub queue_enqueue : Queue → ℕ → Option Reply
queue_enqueue q x = if leb q.max q.nr then none else some (reply (pos 0) (put q x) (some cond_dq))

-- `*data` is the first component.
unfoldable pub queue_dequeue : Queue → Option (ℕ × Reply)
queue_dequeue q =
    if leb q.nr 0 then none else some (q.bucket q.rindex, reply (pos 0) (take q) (some cond_eq))

unfoldable pub queue_enqueue_nb : Queue → ℕ → Reply
queue_enqueue_nb q x =
    if leb q.max q.nr then reply minus_one q none else reply (pos 0) (put q x) (some cond_dq)

-- `*data` is written only if the call succeeds.
unfoldable pub queue_dequeue_nb : Queue → Option ℕ × Reply
queue_dequeue_nb q =
    if leb q.nr 0
    then (none, reply minus_one q none)
    else (some (q.bucket q.rindex), reply (pos 0) (take q) (some cond_eq))

pub data Scan : Type 0 where
  found absent out_of_bounds : Scan

-- `n` rounds of a scan loop from index `i`; the array has the indices below `max`.
unfoldable pub scan : Queue → ℕ → ℕ → ℕ → Scan
scan q x i zero = absent
scan q x i (suc n) =
    let rest = scan q x (i + 1) n in
    if ltb i q.max then if q.bucket i == x then found else rest else out_of_bounds

-- The three loops of `queue_enqueue_uniq_nb`; the second runs to `i<=q->max`.
unfoldable pub scan_all : Queue → ℕ → Scan
unfolding scan
scan_all q x =
    if leb q.rindex q.windex
    then scan q x q.rindex (q.windex - q.rindex)
    else elim (scan q x q.rindex (q.max + 1 - q.rindex)) [
      | found ↦ found
      | absent ↦ scan q x 0 q.windex
      | out_of_bounds ↦ out_of_bounds
    ]

unfoldable pub queue_enqueue_uniq_nb : Queue → ℕ → Run Reply
queue_enqueue_uniq_nb q x =
    if leb q.max q.nr then ok (reply minus_one q none) else elim (scan_all q x) [
      | found ↦ ok (reply (pos 0) q (some cond_dq))
      | absent ↦ ok (reply (pos 0) (put q x) (some cond_dq))
      | out_of_bounds ↦ fault
    ]

unfoldable pub queue_size : Queue → ℕ
queue_size q = q.nr
