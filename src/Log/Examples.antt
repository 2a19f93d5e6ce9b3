-- ===== src/Log/Examples.antt =====
-- Runs of the log of util_log.c.
use dungeon.Base.{◌≡◌, refl, true, arith, ok, fault, ℤ, pos, negsuc}
use dungeon.Log.{
  opened, closed, Log, no_targets, syslog_target, initial, mylog_set_target, mylog_least_level,
}
use dungeon.Log.Targets.{IsSound, set-IsSound}

-- A log that writes to a file and to the console.
abbrev both : Log
both = record {
  flog = opened;
  clog = opened;
  targets = record no_targets { file = true; console = true };
  count = 2;
  base_level = pos 6;
}

initial-IsSound : IsSound initial
initial-IsSound = record {
  counted = omega arith;
  file_open = λ e. ground arith;
  console_open = λ e. ground arith;
}

level_illegal : mylog_least_level (pos 9) both ≡ (negsuc 21, both)
unfolding mylog_least_level
level_illegal = refl

set-IsSound_example :
    (mylog_set_target syslog_target true initial ≡ fault
      → (syslog_target.file ≡ true) × (initial.flog ≡ closed))
    × ((r : ℤ × Log) → mylog_set_target syslog_target true initial ≡ ok r → IsSound r.1)
set-IsSound_example = set-IsSound syslog_target initial-IsSound true
