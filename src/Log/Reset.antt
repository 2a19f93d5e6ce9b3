-- ===== src/Log/Reset.antt =====
-- `mylog_reset` of util_log.c and `log_init` of main.c.
use dungeon.Base.{◌+◌, ◌-◌, ◌≡◌, refl, Bool, true, if◌then◌else◌, arith, ok}
use dungeon.Log.{closed, Log, no_targets, mylog_reset, log_init}
use dungeon.Log.Targets.{enabled, IsSound}

-- What `mylog_reset` leaves: the streams that were written to are closed, but not forgotten.
after_reset : Log → Log
after_reset s = record s {
  flog = if s.targets.file then closed else s.flog;
  clog = if s.targets.console then closed else s.clog;
  targets = no_targets;
  count = s.count - enabled s.targets;
}

mylog_reset-after : {s : Log} → IsSound s → mylog_reset s ≡ ok (after_reset s)
unfolding mylog_reset after_reset
mylog_reset-after v = ground arith

module _ {s : Log} (sound : IsSound s) where
  -- On a sound log `mylog_reset` returns with every target disabled, each taken off the count, and
  -- a sound log.
  pub mylog_reset-disabled :
      (t : Log) × (mylog_reset s ≡ ok t)
      × (t.targets ≡ no_targets)
      × (t.count + enabled s.targets ≡ s.count)
      × IsSound t
  unfolding after_reset
  mylog_reset-disabled =
      (after_reset s, mylog_reset-after sound, refl, omega (arith, sound.counted), ground arith)

  -- On a sound log `log_init` returns with exactly the standard error and syslog enabled, and two
  -- targets more counted than were counted without being enabled.
  pub log_init-enabled :
      (debug : Bool)
      → (t : Log) × (log_init debug s ≡ ok t)
        × (t.targets ≡ record no_targets { stderr = true; syslog = true })
        × (t.count + enabled s.targets ≡ s.count + 2)
  unfolding log_init after_reset
  log_init-enabled debug = (
    record (after_reset s) {
      targets = record no_targets { stderr = true; syslog = true };
      count = s.count - enabled s.targets + 2;
    },
    rw (mylog_reset-after sound) (ground arith),
    refl,
    omega (arith, sound.counted),
  )
