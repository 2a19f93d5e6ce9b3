-- ===== src/Log.antt =====
-- src/util_log.c, the log targets, and `log_init` of src/main.c.
-- `fopen` answers whether it opened the file; the messages that are written are the model's output.
pub mod Targets
pub mod Reset
mod Examples
use dungeon.Base.{
  ℕ, ◌+◌, ◌-◌, ◌≡◌, Bool, true, false, not, Option, none, some, List, [], ◌∷◌, ◌++◌, ◌&&◌, ◌||◌,
  if◌then◌else◌, ltb_ℤ, ℤ, pos, negsuc, minus_one, Run, ok, fault, ◌>>=◌,
}

-- A `FILE *`: `closed` is a pointer that was given to `fclose` and is still there.
pub data Stream : Type 0 where
  null opened closed : Stream

-- The bits of an `enum log_target_en`.
pub record TargetSet : Type 0 where
  pub file : Bool
  pub syslog : Bool
  pub console : Bool
  pub stderr : Bool

-- `flog_fp`, `clog_fp`, `log_target_set`, `log_targets_count`, `log_base_level_`. A target whose bit
-- is set was counted, so that the count is never decremented at 0 (`Targets.IsSound`).
pub record Log : Type 0 where
  pub flog : Stream
  pub clog : Stream
  pub targets : TargetSet
  pub count : ℕ
  pub base_level : ℤ

abbrev pub no_targets : TargetSet
no_targets = record { file = false; syslog = false; console = false; stderr = false }

abbrev pub file_target : TargetSet
file_target = record no_targets { file = true }

abbrev pub syslog_target : TargetSet
syslog_target = record no_targets { syslog = true }

abbrev pub console_target : TargetSet
console_target = record no_targets { console = true }

abbrev pub stderr_target : TargetSet
stderr_target = record no_targets { stderr = true }

-- L_ERR, L_INFO and L_DEBUG of syslog
abbrev pub l_err : ℤ
l_err = pos 3

abbrev pub l_info : ℤ
l_info = pos 6

abbrev pub l_debug : ℤ
l_debug = pos 7

abbrev pub initial : Log
initial = record { flog = null; clog = null; targets = no_targets; count = 0; base_level = l_info }

abbrev pub Result : Type 0
Result = Run (ℤ × Log)

-- `can_open` says whether `fopen` succeeds.
unfoldable pub set_file : Bool → Log → Result
set_file can_open s = if not can_open then ok (minus_one, s) else elim s.flog [
  | null ↦ ok (
    pos (s.count + 1),
    record s { flog = opened; targets = record (s.targets) { file = true }; count = s.count + 1 },
  )
  | opened ↦ ok (pos s.count, record s { flog = opened })
  | closed ↦ fault
]

unfoldable pub set_syslog : Log → Result
set_syslog s = ok (
  pos (s.count + 1),
  record s { targets = record (s.targets) { syslog = true }; count = s.count + 1 },
)

unfoldable pub set_console : Bool → Log → Result
set_console can_open s = elim s.clog [
  | null ↦
      if not can_open
      then ok (minus_one, s)
      else ok (
        pos (s.count + 1),
        record s {
          clog = opened;
          targets = record (s.targets) { console = true };
          count = s.count + 1;
        },
      )
  | opened ↦ ok (pos s.count, s)
  | closed ↦ ok (pos s.count, s)
]

unfoldable pub set_stderr : Log → Result
set_stderr s =
    if not s.targets.stderr
    then ok (
      pos (s.count + 1),
      record s { targets = record (s.targets) { stderr = true }; count = s.count + 1 },
    )
    else ok (pos s.count, s)

unfoldable pub mylog_set_target : TargetSet → Bool → Log → Result
unfolding set_file set_syslog set_console set_stderr
mylog_set_target code can_open s =
    if code.file
    then set_file can_open s
    else if code.syslog
    then set_syslog s
    else if code.console
    then set_console can_open s
    else if code.stderr
    then set_stderr s
    else ok (minus_one, s)

-- `fclose`; a null or closed pointer is undefined behaviour
abbrev pub fclose : Stream → Run Stream
fclose null = fault
fclose opened = ok closed
fclose closed = fault

unfoldable pub clear_file : Log → Result
clear_file s = if not s.targets.file then ok (pos s.count, s) else do
  fp ← fclose s.flog
  ok (
    pos (s.count - 1),
    record s { flog = fp; targets = record (s.targets) { file = false }; count = s.count - 1 },
  )

unfoldable pub clear_syslog : Log → Result
clear_syslog s =
    if not s.targets.syslog
    then ok (pos s.count, s)
    else ok (
      pos (s.count - 1),
      record s { targets = record (s.targets) { syslog = false }; count = s.count - 1 },
    )

unfoldable pub clear_console : Log → Result
clear_console s = if not s.targets.console then ok (pos s.count, s) else do
  fp ← fclose s.clog
  ok (
    pos (s.count - 1),
    record s { clog = fp; targets = record (s.targets) { console = false }; count = s.count - 1 },
  )

unfoldable pub clear_stderr : Log → Result
clear_stderr s =
    if not s.targets.stderr
    then ok (pos s.count, s)
    else ok (
      pos (s.count - 1),
      record s { targets = record (s.targets) { stderr = false }; count = s.count - 1 },
    )

unfoldable pub mylog_clear_target : TargetSet → Log → Result
unfolding clear_file clear_syslog clear_console clear_stderr
mylog_clear_target code s =
    if code.file
    then clear_file s
    else if code.syslog
    then clear_syslog s
    else if code.console
    then clear_console s
    else if code.stderr
    then clear_stderr s
    else ok (minus_one, s)

unfoldable pub mylog_reset : Log → Run Log
unfolding mylog_clear_target
mylog_reset s = do
  (_, s₁) ← mylog_clear_target file_target s
  (_, s₂) ← mylog_clear_target syslog_target s₁
  (_, s₃) ← mylog_clear_target console_target s₂
  (_, s₄) ← mylog_clear_target stderr_target s₃
  ok s₄

-- -EINVAL is -22
unfoldable pub mylog_least_level : ℤ → Log → ℤ × Log
mylog_least_level level s =
    if ltb_ℤ level l_err || ltb_ℤ l_debug level
    then (negsuc 21, s)
    else (pos 0, record s { base_level = level })

-- Where one message goes; `ended` says whether the code adds the line's end.
pub data Line : Type 0 where
  to_file to_stderr to_console : (ended : Bool) → Line
  to_syslog : Line

-- A write through a null or closed stream is a fault.
abbrev pub write : Bool → Stream → Line → Run (List Line)
write false fp l = ok []
write true null l = fault
write true opened l = ok (l ∷ [])
write true closed l = fault

-- `newline` says whether the format ends a line itself.
unfoldable pub do_mylog : ℤ → Bool → Log → Run (List Line)
do_mylog level newline s = if ltb_ℤ s.base_level level then ok [] else do
  a ← write s.targets.file s.flog (to_file (not newline))
  b ← write s.targets.stderr opened (to_stderr (not newline))
  c ← write s.targets.syslog opened to_syslog
  d ← write s.targets.console s.clog (to_console (not newline))
  ok (a ++ (b ++ (c ++ d)))

-- `log_init` of main.c, `debug` for `conf_get_log_level() == L_DEBUG`
unfoldable pub log_init : Bool → Log → Run Log
unfolding mylog_reset mylog_set_target
log_init debug s = do
  s₀ ← mylog_reset s
  (_, s₁) ← mylog_set_target stderr_target true s₀
  (_, s₂) ← mylog_set_target syslog_target true s₁
  if debug then (mylog_set_target stderr_target true s₂ >>= λ r. ok r.1) else ok s₂

-- `facilitynames` of syslog.h, up to the entry whose value is -1
unfoldable pub get_log_value : List (List ℕ × ℤ) → (List ℕ → List ℕ → Bool) → List ℕ → ℤ
get_log_value [] strcmp str = minus_one
get_log_value ((name, value) ∷ rest) strcmp str =
    if strcmp name str then value else get_log_value rest strcmp str
