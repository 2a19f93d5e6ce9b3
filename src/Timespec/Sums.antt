-- ===== src/Timespec/Sums.antt =====
-- What sums, differences and conversions of times come to.
use dungeon.Base.{
  ℕ, zero, suc, ◌+◌, ◌-◌, ◌*◌, ◌/◌, ◌%◌, ◌<◌, ◌≤◌, ◌≡◌, refl, ap, ltb, leb, ℤ, pos, negsuc, ◌+ℤ◌,
  Bool-cases, inl, inr, ◌∙◌, if◌then◌else◌, fault, arith,
}
use dungeon.Timespec.{
  Timespec, nanosec_1sec, opposite, timespec_normalize, timespec_sub, timespec_add, timespec_add_ms,
  timespec_by_ms, imp_body_set_timer,
}

abbrev pub at : ℤ → ℤ → Timespec
at s n = record { tv_sec = s; tv_nsec = n }

add_zero : (z : ℤ) → z +ℤ pos 0 ≡ z
add_zero (pos n) = ground arith
add_zero (negsuc n) = ground arith

sum_pos : (n m : ℕ) → pos n +ℤ pos m ≡ pos (n + m)
sum_pos n m = ground arith

difference :
    (n m : ℕ) → pos n +ℤ opposite (pos m) ≡ (if leb m n then pos (n - m) else negsuc (m - n - 1))
difference n zero = ground arith
difference n (suc m) = ground arith

module _ (s : ℤ) (k : ℕ) where
  normalize_above :
      nanosec_1sec < k
      → k < 2 * nanosec_1sec
      → timespec_normalize (at s (pos k)) ≡ at (s +ℤ pos 1) (pos (k - nanosec_1sec))
  unfolding timespec_normalize
  normalize_above above below =
      let one : k / nanosec_1sec ≡ 1 = omega arith in
      let left : k % nanosec_1sec ≡ k - nanosec_1sec = omega arith in ground (arith, one, left)

  normalize_within : k ≤ nanosec_1sec → timespec_normalize (at s (pos k)) ≡ at s (pos k)
  unfolding timespec_normalize
  normalize_within h = ground arith

  normalize_below :
      suc k < nanosec_1sec
      → timespec_normalize (at s (negsuc k)) ≡ at s (pos (nanosec_1sec - suc k))
  unfolding timespec_normalize
  normalize_below h =
      let none_whole : suc k / nanosec_1sec ≡ 0 = omega arith in
      let left : suc k % nanosec_1sec ≡ suc k = omega arith in
      rw (none_whole, left) (ground (arith, add_zero s))

-- For times whose nanoseconds are less than a second: `timespec_add` is right, though it leaves a sum of
-- exactly one second in nanoseconds as it is; `timespec_sub` is right if the nanoseconds of the first are not
-- less than those of the second, and is a whole second too large if they are.
pub timespec_sub-timespec_add :
    (s t : ℤ) (n m : ℕ)
    → n < nanosec_1sec
    → m < nanosec_1sec
    → (timespec_add (at s (pos n)) (at t (pos m)) ≡ (
        if ltb nanosec_1sec (n + m)
        then at (s +ℤ t +ℤ pos 1) (pos (n + m - nanosec_1sec))
        else at (s +ℤ t) (pos (n + m))))
      × (timespec_sub (at s (pos n)) (at t (pos m)) ≡ (
          if leb m n
          then at (s +ℤ opposite t) (pos (n - m))
          else at (s +ℤ opposite t) (pos (n + nanosec_1sec - m))))
unfolding timespec_sub timespec_add timespec_normalize
timespec_sub-timespec_add s t n m hn hm = (
  rw (sum_pos n m) (elim (Bool-cases (ltb nanosec_1sec (n + m))) [
    | inl h ↦ rw h (normalize_above (s +ℤ t) (n + m) (ground (arith, h)) (omega arith))
    | inr h ↦ rw h (normalize_within (s +ℤ t) (n + m) (ground (arith, h)))
  ]),
  rw (difference n m) (elim (Bool-cases (leb m n)) [
    | inl h ↦ rw h (normalize_within (s +ℤ opposite t) (n - m) (omega arith))
    | inr h ↦ rw h (
        normalize_below (s +ℤ opposite t) (m - n - 1) (ground (arith, h))
        ∙ ap (λ k. at (s +ℤ opposite t) (pos k)) (ground (arith, h)))
  ]),
)

-- For a time of `n` milliseconds: `timespec_by_ms` and `imp_body_set_timer` make the same, seconds and
-- nanoseconds of less than a second that come to `n` milliseconds; `timespec_add_ms` overflows an `int`
-- from 2148 milliseconds on.
pub timespec_by_ms-imp_body_set_timer :
    (n : ℕ) (ts : Timespec)
    → (sec : ℕ) × (nsec : ℕ) × (timespec_by_ms (pos n) ≡ at (pos sec) (pos nsec))
      × (imp_body_set_timer (pos n) ≡ timespec_by_ms (pos n))
      × (nsec < nanosec_1sec)
      × (sec * 1000000000 + nsec ≡ n * 1000000)
      × (2148 ≤ n → timespec_add_ms ts (pos n) ≡ fault)
unfolding timespec_by_ms imp_body_set_timer timespec_add_ms
timespec_by_ms-imp_body_set_timer n ts =
    (n / 1000, (n % 1000) * 1000000, refl, refl, omega arith, omega arith, λ h. ground (arith, h))
