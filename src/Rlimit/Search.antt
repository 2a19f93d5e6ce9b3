-- ===== src/Rlimit/Search.antt =====
-- The search where the attempts leave the limit as it is, and its end.
use dungeon.Base.{
  ℕ, zero, suc, ◌+◌, ◌-◌, ◌/◌, ◌≤◌, ◌<◌, ◌≡◌, ◌∙◌, inl, inr, true, false, ◌||◌, some, ltb, leb,
  ◌==◌, Bool-cases, if◌then◌else◌, arith,
}
use dungeon.Rlimit.{Setrlimit, rlimit_try}

module _ {K : Type 0} (setrlimit : Setrlimit K) where
  -- From bounds in order, with more fuel than they are apart, the search ends with a number between
  -- them, whatever `setrlimit` answers.
  pub rlimit_try_ends :
      (fuel : ℕ) (k : K) (left right : ℕ)
      → left ≤ right
      → right - left < fuel
      → (r : ℕ) × (k' : K) × (rlimit_try setrlimit fuel k left right ≡ some (r, k'))
        × (left ≤ r)
        × (r ≤ right)
  unfolding rlimit_try
  rlimit_try_ends zero k left right order enough = absurd (omega arith)
  rlimit_try_ends (suc fuel) k left right order enough =
      elim (Bool-cases ((left == right) || (left == right - 1))) [
        | inl close ↦ (left, k, ground (arith, close), omega arith, order)
        | inr apart ↦
            let (whole, k₁) = setrlimit k right in
            let mid = (right - left) / 2 + left in
            let (half, k₂) = setrlimit k₁ mid in
            let far : left + 1 < right = ground (arith, apart) in
            elim (Bool-cases whole) [
              | inl w ↦ (right, k₁, ground (arith, apart, w), order, omega arith)
              | inr nw ↦ elim (Bool-cases half) [
                | inl h ↦
                    let (r, k', run, low, high) =
                      rlimit_try_ends fuel k₂ mid right (omega (arith, far)) (omega (arith, far)) in
                    (r, k', ground (arith, apart, nw, h, run), omega (arith, low), high)
                | inr nh ↦
                    let (r, k', run, low, high) =
                      rlimit_try_ends fuel k₂ left mid (omega (arith, far)) (omega (arith, far)) in
                    (r, k', ground (arith, apart, nw, nh, run), low, omega (arith, high, far))
              ]
            ]
      ]

-- A `setrlimit` that allows what is within `cap`, whatever it was asked before.
abbrev pub steady : {K : Type 0} → ℕ → Setrlimit K
steady cap k v = (leb v cap, k)

module _ {K : Type 0} (cap : ℕ) where
  narrowed :
      (fuel : ℕ) (k : K) (left right : ℕ)
      → left ≤ cap
      → cap < right
      → right - left < fuel
      → rlimit_try (steady cap) fuel k left right ≡ some (cap, k)
  unfolding rlimit_try
  narrowed zero k left right low high enough = absurd (omega arith)
  narrowed (suc fuel) k left right low high enough =
      let mid = (right - left) / 2 + left in
      let swap : ltb right left ≡ false = ground arith in
      let over : leb right cap ≡ false = ground arith in
      elim (Bool-cases ((left == right) || (left == right - 1))) [
        | inl close ↦ ground (arith, close, swap)
        | inr apart ↦
            let far : left + 1 < right = ground (arith, apart) in
            elim (Bool-cases (leb mid cap)) [
              | inl h ↦
                  let rest =
                    narrowed fuel k mid right (ground (arith, h)) high (omega (arith, far)) in
                  rw (swap, apart, over, h) rest
              | inr nh ↦
                  let rest =
                    narrowed fuel k left mid low (ground (arith, nh)) (omega (arith, far)) in
                  rw (swap, apart, over, nh) rest
            ]
      ]

  whole :
      (fuel : ℕ) (k : K) (left right : ℕ)
      → left + 1 < right
      → leb right cap ≡ true
      → rlimit_try (steady cap) (suc fuel) k left right ≡ some (right, k)
  unfolding rlimit_try
  whole fuel k left right far all = ground (arith, all)

  -- If `setrlimit` allows just what is within a fixed cap, and the bounds are at least two apart and
  -- the lower is within the cap, the search finds the most that is allowed, up to the upper bound.
  pub rlimit_try-steady :
      (fuel : ℕ) (k : K) (left right : ℕ)
      → left + 1 < right
      → left ≤ cap
      → right - left < fuel
      → rlimit_try (steady cap) fuel k left right ≡ some (if leb right cap then right else cap, k)
  rlimit_try-steady zero k left right far low enough = absurd (omega arith)
  rlimit_try-steady (suc fuel) k left right far low enough = elim (Bool-cases (leb right cap)) [
    | inl all ↦ whole fuel k left right far all ∙ rw all
    | inr over ↦ narrowed (suc fuel) k left right low (ground (arith, over)) enough ∙ rw over
  ]
