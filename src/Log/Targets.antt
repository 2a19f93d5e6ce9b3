-- ===== src/Log/Targets.antt =====
-- The invariant of the log, and what enabling a target twice or again does.
use dungeon.Base.{
  ℕ, zero, suc, ◌+◌, ◌≤◌, ◌≡◌, Bool, true, false, List, [], ◌∷◌, if◌then◌else◌, arith, ℤ, pos, Run,
  ok, fault, ◌>>=◌, ◌≢◌, length, ltb_ℤ, ◌++◌, not, ap, ◌∙◌,
}
use dungeon.Log.{
  opened, closed, TargetSet, Log, Line, to_file, to_stderr, to_syslog, to_console, file_target,
  syslog_target, console_target, mylog_set_target, mylog_clear_target, do_mylog,
}

abbrev pub bit : Bool → ℕ
bit true = 1
bit false = 0

-- The number of targets that are enabled.
abbrev pub enabled : TargetSet → ℕ
enabled t = bit t.file + bit t.syslog + bit t.console + bit t.stderr

-- Each enabled target was counted, and a stream that a target writes to is open.
pub record IsSound (s : Log) : Type 0 where
  pub counted : enabled s.targets ≤ s.count
  pub file_open : s.targets.file ≡ true → s.flog ≡ opened
  pub console_open : s.targets.console ≡ true → s.clog ≡ opened

module _ (code : TargetSet) {s : Log} (sound : IsSound s) where
  -- A call of `mylog_set_target` on a sound log has undefined behaviour only when the file target
  -- is asked for while `flog` is a closed stream, and leaves a sound log whenever it returns.
  pub set-IsSound :
      (can_open : Bool)
      → (mylog_set_target code can_open s ≡ fault → (code.file ≡ true) × (s.flog ≡ closed))
        × ((r : ℤ × Log) → mylog_set_target code can_open s ≡ ok r → IsSound r.1)
  unfolding mylog_set_target
  set-IsSound can_open = (λ e. (ground arith, ground arith), λ r e. ground arith)

  -- A call of `mylog_clear_target` on a sound log never closes a stream that is not open, and
  -- leaves a sound log.
  pub clear-IsSound :
      (mylog_clear_target code s ≢ fault)
      × ((r : ℤ × Log) → mylog_clear_target code s ≡ ok r → IsSound r.1)
  unfolding mylog_clear_target
  clear-IsSound = (λ e. ground arith, λ r e. ground arith)

one : Bool → Line → List Line
one false l = []
one true l = l ∷ []

messages : Log → ℤ → Bool → List Line
unfolding one
messages s level newline =
    if ltb_ℤ s.base_level level
    then []
    else one s.targets.file (to_file (not newline))
      ++ (one s.targets.stderr (to_stderr (not newline))
          ++ (one s.targets.syslog to_syslog ++ one s.targets.console (to_console (not newline))))

module _ {s : Log} (sound : IsSound s) where
  -- On a sound log a message never goes to a stream that is not open: above the level of the log
  -- it goes nowhere, else there is one line for each enabled target.
  pub do_mylog-enabled :
      (level : ℤ) (newline : Bool)
      → (lines : List Line) × (do_mylog level newline s ≡ ok lines)
        × (length lines ≡ (if ltb_ℤ s.base_level level then 0 else enabled s.targets))
  unfolding do_mylog messages
  do_mylog-enabled level newline = (messages s level newline, ground arith, ground arith)

  -- On a sound log whose file target is enabled, disabling it and enabling it again closes the
  -- closed stream, a fault.
  pub set-clear_file :
      s.targets.file ≡ true
      → (mylog_clear_target file_target s >>= λ r. mylog_set_target file_target true r.1) ≡ fault
  unfolding mylog_set_target mylog_clear_target
  set-clear_file on = ground arith

  -- Once the console target was enabled and disabled, enabling it again reports the count of the
  -- targets and leaves it disabled.
  pub set-clear_console :
      (can_open : Bool)
      → s.targets.console ≡ true
      → (mylog_clear_target console_target s >>= λ r. mylog_set_target console_target can_open r.1)
        ≡ mylog_clear_target console_target s
  unfolding mylog_set_target mylog_clear_target
  set-clear_console can_open on = ground arith

-- `n` calls that enable the syslog target.
pub set_syslog_times : ℕ → Log → Run Log
set_syslog_times zero s = ok s
set_syslog_times (suc n) s = mylog_set_target syslog_target true s >>= λ r. set_syslog_times n r.1

-- After `n + 1` calls that enable the syslog target, one call that disables it answers, and
-- leaves, a count that is `n` above that of before, with the target disabled.
pub syslog_times_count :
    (n : ℕ) (s : Log)
    → (set_syslog_times (suc n) s >>= λ t. mylog_clear_target syslog_target t)
      ≡ ok (
        pos (s.count + n),
        record s { targets = record (s.targets) { syslog = false }; count = s.count + n },
      )
unfolding set_syslog_times mylog_set_target mylog_clear_target
syslog_times_count zero s = ground arith
syslog_times_count (suc n) s =
    let s' : Log = record s {
      targets = record (s.targets) { syslog = true };
      count = s.count + 1;
    } in
    syslog_times_count n s'
    ∙ ap
        (λ (m : ℕ).
          ok (pos m, record s { targets = record (s.targets) { syslog = false }; count = m }))
        (omega arith)
