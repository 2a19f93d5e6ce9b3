-- ===== src/Rlimit/Examples.antt =====
-- Searches between the bounds 1024 and 6024, with 4096 files allowed.
use dungeon.Base.{ℕ, ◌+◌, ◌*◌, ◌≤◌, ◌≡◌, false, ltb, ◌<◌, refl, some, leb, if◌then◌else◌, arith}
use dungeon.Rlimit.{rlimit_try, rlimit_init}
use dungeon.Rlimit.Search.{steady, rlimit_try-steady}
use dungeon.Rlimit.Lowering.{lowering, halved, rlimit_try-lowering}

privileged_finds : rlimit_init {K = ℕ} (steady 4096) 20 0 1000 ≡ some (4096, 0)
unfolding rlimit_init rlimit_try
privileged_finds = refl

-- The process was allowed 4096 files and keeps 3524.
unprivileged_loses : rlimit_init lowering 20 4096 1000 ≡ some (3524, 3524)
unfolding rlimit_init rlimit_try
unprivileged_loses = refl

rlimit_try-steady_example :
    rlimit_try {K = ℕ} (steady 4096) 6000 0 1024 6024
    ≡ some (if leb 6024 4096 then 6024 else 4096, 0)
rlimit_try-steady_example =
    rlimit_try-steady {K = ℕ} 4096 6000 0 1024 6024 (omega arith) (omega arith) (omega arith)

rlimit_try-lowering_example :
    (k : ℕ) × (r : ℕ) × (after : ℕ) × (rlimit_try lowering 6000 4096 1024 6024 ≡ some (r, after))
    × (r ≡ halved 1024 6024 k)
    × ((j : ℕ) → j < k → 4096 < halved 1024 6024 j)
    × (r ≤ 4096)
    × (4096 + 1024 ≤ 2 * r + 1)
    × (after ≡ (if ltb 1024 r then r else 4096))
    × ((v : ℕ) → 1024 < r → r < v → lowering after v ≡ (false, r))
rlimit_try-lowering_example =
    rlimit_try-lowering 6000 4096 1024 6024 (omega arith) (omega arith) (omega arith)
