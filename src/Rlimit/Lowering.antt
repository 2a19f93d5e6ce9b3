-- ===== src/Rlimit/Lowering.antt =====
-- What the search does to the limit of a process that may lower its hard limit and never raise it.
use dungeon.Base.{
  ℕ, zero, suc, ◌+◌, ◌-◌, ◌*◌, ◌/◌, ◌≤◌, ◌<◌, ◌≡◌, refl, inl, inr, true, false, ◌||◌, some, ltb,
  leb, ◌==◌, Bool-cases, if◌then◌else◌, arith,
}
use dungeon.Rlimit.{Setrlimit, rlimit_try}

-- `setrlimit` of such a process: each call that succeeds sets the hard limit.
abbrev pub lowering : Setrlimit ℕ
lowering hard v = if leb v hard then (true, v) else (false, hard)

-- The bounds and midpoints that the search tries from the top as long as each is refused: `right`, and then
-- again and again the middle of the lower bound and the last one.
abbrev pub halved : (left right : ℕ) → ℕ → ℕ
halved left right zero = right
halved left right (suc k) = halved left ((right - left) / 2 + left) k

-- Once the limit is the lower bound, no attempt succeeds.
stuck :
    (fuel left right : ℕ)
    → left < right
    → right - left < fuel
    → rlimit_try lowering fuel left left right ≡ some (left, left)
unfolding rlimit_try
stuck zero left right order enough = absurd (omega arith)
stuck (suc fuel) left right order enough =
    let mid = (right - left) / 2 + left in
    let swap : ltb right left ≡ false = ground arith in
    let over : leb right left ≡ false = ground arith in
    elim (Bool-cases ((left == right) || (left == right - 1))) [
      | inl close ↦ ground (arith, close, swap)
      | inr apart ↦
          let far : left + 1 < right = ground (arith, apart) in
          let half : leb mid left ≡ false = ground (arith, far) in
          rw (swap, apart, over, half)
            (stuck fuel left mid (omega (arith, far)) (omega (arith, far)))
    ]

-- The bounds that are refused before the `k`th, and the `k`th, by those of the lower half.
refused_first :
    (hard left right k : ℕ)
    → hard < right
    → ((j : ℕ) → j < k → hard < halved left ((right - left) / 2 + left) j)
    → (j : ℕ) → j < suc k
    → hard < halved left right j
refused_first hard left right k high below zero lt = high
refused_first hard left right k high below (suc j) lt = below j (omega (arith, lt))

-- From bounds around the hard limit of a process that cannot raise it, the search ends with the
-- first of the halved bounds that the limit allows, though only half of the way from the lower bound to
-- the limit, less one, is sure. If that is above the lower bound the hard limit is then this
-- answer, and every larger number is refused from then on, also those that were allowed before. If it is
-- the lower bound, no call succeeded and the limit is kept.
pub rlimit_try-lowering :
    (fuel hard left right : ℕ)
    → left ≤ hard
    → hard < right
    → right - left < fuel
    → (k : ℕ) × (r : ℕ) × (after : ℕ) × (rlimit_try lowering fuel hard left right ≡ some (r, after))
      × (r ≡ halved left right k)
      × ((j : ℕ) → j < k → hard < halved left right j)
      × (r ≤ hard)
      × (hard + left ≤ 2 * r + 1)
      × (after ≡ (if ltb left r then r else hard))
      × ((v : ℕ) → left < r → r < v → lowering after v ≡ (false, r))
unfolding rlimit_try
rlimit_try-lowering zero hard left right low high enough = absurd (omega arith)
rlimit_try-lowering (suc fuel) hard left right low high enough =
    let mid = (right - left) / 2 + left in
    let swap : ltb right left ≡ false = ground arith in
    let over : leb right hard ≡ false = ground arith in
    elim (Bool-cases ((left == right) || (left == right - 1))) [
      | inl close ↦
          let next : right ≡ left + 1 = ground (arith, close) in
          (
            1,
            left,
            hard,
            ground (arith, close, swap),
            omega (arith, next),
            refused_first hard left right 0 high (λ j lt. absurd (omega (arith, lt))),
            low,
            ground (arith, close),
            ground arith,
            λ v above lt. absurd (omega (arith, above)),
          )
      | inr apart ↦
          let far : left + 1 < right = ground (arith, apart) in
          elim (Bool-cases (leb mid hard)) [
            | inl h ↦
                let rest = stuck fuel mid right (omega (arith, far)) (omega (arith, far)) in
                (
                  1,
                  mid,
                  mid,
                  rw (swap, apart, over, h) rest,
                  refl,
                  refused_first hard left right 0 high (λ j lt. absurd (omega (arith, lt))),
                  ground (arith, h),
                  omega (arith, far),
                  ground (arith, far),
                  λ v above lt. ground (arith, lt),
                )
            | inr nh ↦
                let (k, r, after, run, is, first, small, half, left_over, lost) =
                  rlimit_try-lowering fuel hard left mid low (ground (arith, nh))
                    (omega (arith, far)) in
                (
                  suc k,
                  r,
                  after,
                  rw (swap, apart, over, nh) run,
                  is,
                  refused_first hard left right k high first,
                  small,
                  half,
                  left_over,
                  lost,
                )
          ]
    ]
