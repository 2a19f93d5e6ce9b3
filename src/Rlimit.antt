-- ===== src/Rlimit.antt =====
-- `rlimit_try` and `rlimit_init` of src/main.c, the search for the number of files that the process
-- may open. `setrlimit` is the kernel's: from its state and the number asked for, as the soft and as
-- the hard limit, to success and its state.
pub mod Search
pub mod Lowering
mod Examples
use dungeon.Base.{
  ℕ, zero, suc, ◌+◌, ◌-◌, ◌*◌, ◌/◌, Bool, ◌||◌, Option, none, some, ltb, ◌==◌, if◌then◌else◌,
}

abbrev pub Setrlimit : Type 0 → Type 0
Setrlimit K = K → ℕ → Bool × K

module _ {K : Type 0} (setrlimit : Setrlimit K) where
  -- `right-1` is read only where `left` is not above `right` and not equal to it. The recursion takes
  -- fuel.
  unfoldable pub rlimit_try : ℕ → K → ℕ → ℕ → Option (ℕ × K)
  rlimit_try zero k left right = none
  rlimit_try (suc fuel) k left right =
      let (whole, k₁) = setrlimit k right in
      let mid = (right - left) / 2 + left in
      let (half, k₂) = setrlimit k₁ mid in
      let swapped = rlimit_try fuel k right left in
      let upper = rlimit_try fuel k₂ mid right in
      let lower = rlimit_try fuel k₂ left mid in
      if ltb right left
      then swapped
      else if (left == right) || (left == right - 1)
      then some (left, k)
      else if whole
      then some (right, k₁)
      else if half
      then upper
      else lower

  -- The call of `rlimit_init`, by `conf_get_concurrent_max()`, of which five times and 1024 more are taken
  -- to be an `int`.
  unfoldable pub rlimit_init : ℕ → K → ℕ → Option (ℕ × K)
  unfolding rlimit_try
  rlimit_init fuel k concurrent_max = rlimit_try fuel k 1024 (concurrent_max * 5 + 1024)
