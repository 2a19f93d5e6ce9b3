-- ===== src/Timespec/Examples.antt =====
-- Runs of src/util_misc.c.
use dungeon.Base.{◌+◌, ◌-◌, ◌≡◌, refl, arith, ltb, leb, if◌then◌else◌, pos, ◌+ℤ◌}
use dungeon.Timespec.{nanosec_1sec, opposite, timespec_normalize, timespec_sub, timespec_add}
use dungeon.Timespec.Sums.{at, timespec_sub-timespec_add}

-- From 8.9 s to 9.1 s: 0.2 s would be right.
one_second_much :
    timespec_sub (at (pos 9) (pos 100000000)) (at (pos 8) (pos 900000000))
    ≡ at (pos 1) (pos 200000000)
unfolding timespec_sub timespec_normalize
one_second_much = refl

timespec_sub-timespec_add_example :
    (timespec_add (at (pos 9) (pos 100000000)) (at (pos 8) (pos 900000000)) ≡ (
      if ltb nanosec_1sec (100000000 + 900000000)
      then at (pos 9 +ℤ pos 8 +ℤ pos 1) (pos (100000000 + 900000000 - nanosec_1sec))
      else at (pos 9 +ℤ pos 8) (pos (100000000 + 900000000))))
    × (timespec_sub (at (pos 9) (pos 100000000)) (at (pos 8) (pos 900000000)) ≡ (
        if leb 900000000 100000000
        then at (pos 9 +ℤ opposite (pos 8)) (pos (100000000 - 900000000))
        else at (pos 9 +ℤ opposite (pos 8)) (pos (100000000 + nanosec_1sec - 900000000))))
timespec_sub-timespec_add_example =
    timespec_sub-timespec_add (pos 9) (pos 8) 100000000 900000000 (omega arith) (omega arith)
