-- ===== src/Timespec.antt =====
-- src/util_misc.c, sums and differences of times, and the conversion of `imp_body_set_timer` in
-- src/imp_body.c. Seconds do not overflow; the product of `timespec_add_ms` is an `int`.
pub mod Sums
mod Examples
use dungeon.Base.{
  ℕ, suc, ◌+◌, ◌*◌, ◌/◌, ◌%◌, Bool, Option, none, some, ◌||◌, ℤ, pos, negsuc, ◌+ℤ◌, ltb_ℤ,
  if◌then◌else◌, Run, ok, fault,
}
use dungeon.Tcp.{neg}

pub record Timespec : Type 0 where
  pub tv_sec : ℤ
  pub tv_nsec : ℤ

-- `1*1000*1000*1000`
abbrev pub nanosec_1sec : ℕ
nanosec_1sec = 1000000000

-- `-z`
abbrev pub opposite : ℤ → ℤ
opposite (pos n) = neg n
opposite (negsuc n) = pos (suc n)

-- The quotient, the remainder and the product of C by a positive number: the quotient is cut towards 0, and
-- the remainder has the sign of the dividend.
abbrev pub quot : ℤ → ℕ → ℤ
quot (pos n) k = pos (n / k)
quot (negsuc n) k = neg (suc n / k)

abbrev pub rem : ℤ → ℕ → ℤ
rem (pos n) k = pos (n % k)
rem (negsuc n) k = neg (suc n % k)

abbrev pub times : ℤ → ℕ → ℤ
times (pos n) k = pos (n * k)
times (negsuc n) k = neg (suc n * k)

unfoldable pub timespec_normalize : Timespec → Timespec
timespec_normalize ts =
    if ltb_ℤ (pos nanosec_1sec) ts.tv_nsec
    then record {
      tv_sec = ts.tv_sec +ℤ quot ts.tv_nsec nanosec_1sec;
      tv_nsec = rem ts.tv_nsec nanosec_1sec;
    }
    else if ltb_ℤ ts.tv_nsec (pos 0)
    then record {
      tv_sec = ts.tv_sec +ℤ opposite (quot ts.tv_nsec nanosec_1sec);
      tv_nsec = rem ts.tv_nsec nanosec_1sec +ℤ pos nanosec_1sec;
    }
    else ts

-- `clock` is what `clock_gettime` reads. It is overwritten by `*p`.
unfoldable pub timespec_now : (clock : Timespec) → Option Timespec → Timespec
timespec_now clock none = clock
timespec_now clock (some p) = p

unfoldable pub timespec_sub : Timespec → Timespec → Timespec
unfolding timespec_normalize
timespec_sub ts1 ts2 = timespec_normalize (record {
  tv_sec = ts1.tv_sec +ℤ opposite ts2.tv_sec;
  tv_nsec = ts1.tv_nsec +ℤ opposite ts2.tv_nsec;
})

unfoldable pub timespec_add : Timespec → Timespec → Timespec
unfolding timespec_normalize
timespec_add ts1 ts2 =
    timespec_normalize
      (record { tv_sec = ts1.tv_sec +ℤ ts2.tv_sec; tv_nsec = ts1.tv_nsec +ℤ ts2.tv_nsec })

abbrev pub int_max : ℕ
int_max = 2147483647

-- Whether a number is not an `int`.
abbrev pub overflows : ℤ → Bool
overflows z = ltb_ℤ (pos int_max) z || ltb_ℤ z (negsuc int_max)

-- The product of `int`s that overflows is undefined, a fault.
unfoldable pub timespec_add_ms : Timespec → (ms : ℤ) → Run Timespec
unfolding timespec_normalize
timespec_add_ms ts1 ms =
    if overflows (times ms 1000000)
    then fault
    else ok (
        timespec_normalize
          (record { tv_sec = ts1.tv_sec; tv_nsec = ts1.tv_nsec +ℤ times ms 1000000 }))

unfoldable pub timespec_by_ms : (ms : ℤ) → Timespec
timespec_by_ms ms = record { tv_sec = quot ms 1000; tv_nsec = times (rem ms 1000) 1000000 }

-- The `it_value` that is passed to `timerfd_settime`; the interval is 0.
unfoldable pub imp_body_set_timer : (ms : ℤ) → Timespec
imp_body_set_timer ms = record { tv_sec = quot ms 1000; tv_nsec = times (rem ms 1000) 1000000 }
