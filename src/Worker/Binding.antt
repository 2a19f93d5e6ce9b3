-- ===== src/Worker/Binding.antt =====
-- Which CPU each worker is bound to, and how many workers there are.
use dungeon.Base.{
  ℕ, zero, suc, ◌+◌, ◌-◌, ◌≤◌, ◌<◌, ◌≡◌, refl, ap, ◌∙◌, Bool, true, false, Option, none, some, List,
  [], ◌∷◌, ◌⊎◌, inl, inr, Bool-cases, if◌then◌else◌, pos, minus_one, arith, ltb, ◌&&◌, ◌==◌,
}
use dungeon.Worker.{cpu_setsize, skip_unset, bind_cpus, create_workers, thr_worker_create}

-- The CPUs of a set among `k` indices from `c`, in order.
pub cpus : (ℕ → Bool) → ℕ → ℕ → List ℕ
cpus isset zero c = []
cpus isset (suc k) c = if isset c then c ∷ cpus isset k (c + 1) else cpus isset k (c + 1)

-- `n` workers on these CPUs, one each; what is over has none.
abbrev pub dealt : ℕ → List ℕ → List (Option ℕ)
dealt zero cs = []
dealt (suc n) [] = none ∷ dealt n []
dealt (suc n) (c ∷ cs) = some c ∷ dealt n cs

module _ (created : ℕ → Bool) where
  create_workers-first :
      (n i : ℕ)
      → let r = create_workers created n i in
        (i ≤ r)
        × (r ≤ i + n)
        × ((j : ℕ) → i ≤ j → j < r → created j ≡ true)
        × ((r ≡ i + n) ⊎ (created r ≡ false))
  unfolding create_workers
  create_workers-first zero i =
      (omega arith, omega arith, λ j low high. absurd (omega arith), inl (omega arith))
  create_workers-first (suc n) i =
      let (low, high, all, end) = create_workers-first n (i + 1) in
      elim (Bool-cases (created i)) [
        | inl made ↦ rw made (
          omega arith,
          omega arith,
          λ j above below. elim (Bool-cases (j == i)) [
            | inl same ↦ let e : j ≡ i = ground (arith, same) in rw e made
            | inr other ↦ all j (ground (arith, other)) below
          ],
          elim end [ inl e ↦ inl (omega (arith, e)) | inr e ↦ inr e ],
        )
        | inr failed ↦
            rw failed (omega arith, omega arith, λ j above below. absurd (omega arith), inr failed)
      ]

module _ (isset : ℕ → Bool) where
  abbrev Found : ℕ → ℕ → ℕ → Type 0
  Found k c d =
      ((cpus isset k c ≡ []) × (d ≡ cpu_setsize))
      ⊎ ((isset d ≡ true)
          × (d < cpu_setsize)
          × (cpus isset k c ≡ d ∷ cpus isset (cpu_setsize - (d + 1)) (d + 1)))

  skip_unset-cpus : (k c : ℕ) → c + k ≡ cpu_setsize → Found k c (skip_unset isset k c)
  unfolding skip_unset cpus
  skip_unset-cpus zero c e = inl (refl, omega arith)
  skip_unset-cpus (suc k) c e = elim (Bool-cases (isset c)) [
    | inl set ↦
        let left : k ≡ cpu_setsize - (c + 1) = omega arith in
        rw set (inr (set, omega arith, ap (λ n. c ∷ cpus isset n (c + 1)) left))
    | inr unset ↦ rw unset (skip_unset-cpus k (c + 1) (omega arith))
  ]

  one :
      (n c d : ℕ)
      → skip_unset isset (cpu_setsize - c) c ≡ d
      → bind_cpus isset (suc n) c
        ≡ (if ltb d cpu_setsize && isset d then some d else none)
          ∷ bind_cpus isset n (if d + 1 == cpu_setsize then cpu_setsize - 1 else d + 1)
  unfolding bind_cpus
  one n c d e =
      ap
        (λ d.
          (if ltb d cpu_setsize && isset d then some d else none)
          ∷ bind_cpus isset n (if d + 1 == cpu_setsize then cpu_setsize - 1 else d + 1))
        e

  none_for : (c : ℕ) → bind_cpus isset 0 c ≡ []
  unfolding bind_cpus
  none_for c = refl

  past : (n c : ℕ) → cpu_setsize < c → bind_cpus isset n c ≡ dealt n []
  unfolding skip_unset
  past zero c h = none_for c
  past (suc n) c h =
      let stays : skip_unset isset (cpu_setsize - c) c ≡ c =
        ap (λ k. skip_unset isset k c) {x = cpu_setsize - c} {y = 0} (omega arith) in
      let out : (ltb c cpu_setsize && isset c) ≡ false = ground arith in
      let more : (if c + 1 == cpu_setsize then cpu_setsize - 1 else c + 1) ≡ c + 1 = ground arith in
      one n c c stays ∙ rw (out, more) (ap (λ xs. none ∷ xs) (past n (c + 1) (omega arith)))

  bound :
      (n c : ℕ)
      → isset 1023 ≡ false
      → c ≤ cpu_setsize
      → bind_cpus isset n c ≡ dealt n (cpus isset (cpu_setsize - c) c)
  bound zero c last h = none_for c
  bound (suc n) c last h = elim (skip_unset-cpus (cpu_setsize - c) c (omega arith)) [
    | inl (none_left, e) ↦
        one n c cpu_setsize e ∙ rw none_left (ap (λ xs. none ∷ xs) (past n 1025 (omega arith)))
    | inr (set, small, first) ↦
        let d = skip_unset isset (cpu_setsize - c) c in
        let here : (ltb d cpu_setsize && isset d) ≡ true = ground (arith, set, small) in
        let more : (if d + 1 == cpu_setsize then cpu_setsize - 1 else d + 1) ≡ d + 1 =
          elim (Bool-cases (d + 1 == cpu_setsize)) [
            | inl full ↦
                let e : d ≡ 1023 = ground (arith, full) in
                let set' : isset 1023 ≡ true = rw e at set in absurd (ground (arith, set', last))
            | inr inside ↦ rw inside
          ] in
        one n c d refl
        ∙ rw (here, more, first)
            (ap (λ xs. some d ∷ xs) (bound n (d + 1) last (omega (arith, small))))
  ]

  -- If the last CPU of the set's type is not in the set: unless the epoll thread or the table could
  -- not be made (then the answer is -1), the workers are bound to the first CPUs of the process, one
  -- each and in order, those for which no CPU is left to whatever the table held, and the answer is
  -- the number of workers up to the first that could not be created.
  pub thr_worker_create-dealt :
      (epoller memory : Bool) (created : ℕ → Bool) (num : ℕ)
      → isset 1023 ≡ false
      → (n : ℕ) × (thr_worker_create epoller memory isset created num ≡ (
          if epoller && memory
          then (pos n, dealt num (cpus isset cpu_setsize 0))
          else (minus_one, [])))
        × (n ≤ num)
        × ((j : ℕ) → j < n → created j ≡ true)
        × ((n ≡ num) ⊎ (created n ≡ false))
  unfolding thr_worker_create
  thr_worker_create-dealt epoller memory created num last =
      let n = create_workers created num 0 in
      let (_, small, all, end) = create_workers-first created num 0 in
      (
        n,
        ap (λ xs. if epoller && memory then (pos n, xs) else (minus_one, []))
            (bound num 0 last (omega arith)),
        omega (arith, small),
        λ j h. all j (omega arith) h,
        elim end [ inl e ↦ inl (omega (arith, e)) | inr e ↦ inr e ],
      )
