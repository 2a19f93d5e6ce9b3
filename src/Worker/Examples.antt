-- ===== src/Worker/Examples.antt =====
-- Two workers of three that could be created, on the CPUs 1 and 2.
use dungeon.Base.{
  ℕ, ◌≤◌, ◌<◌, ◌≡◌, ◌⊎◌, refl, Bool, true, false, [], ◌==◌, ◌||◌, ltb, ◌&&◌, if◌then◌else◌, pos,
  minus_one,
}
use dungeon.Worker.{cpu_setsize, thr_worker_create}
use dungeon.Worker.Binding.{cpus, dealt, thr_worker_create-dealt}

abbrev two_cpus : ℕ → Bool
two_cpus c = (c == 1) || (c == 2)

abbrev two_workers : ℕ → Bool
two_workers i = ltb i 2

thr_worker_create-dealt_example :
    (n : ℕ) × (thr_worker_create true true two_cpus two_workers 3
      ≡ (if true && true then (pos n, dealt 3 (cpus two_cpus cpu_setsize 0)) else (minus_one, [])))
    × (n ≤ 3)
    × ((j : ℕ) → j < n → two_workers j ≡ true)
    × ((n ≡ 3) ⊎ (two_workers n ≡ false))
thr_worker_create-dealt_example = thr_worker_create-dealt two_cpus true true two_workers 3 refl
