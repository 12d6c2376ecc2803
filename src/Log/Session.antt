-- ===== src/Log/Session.antt =====
-- Sessions of calls of the logger on the console and on files, against the descriptor that it has open.
use mathlib.Core.Option
use sync_agent.Base.{
  ℕ, ◌+◌, ◌≤◌, ◌≡◌, ◌∙◌, ap, refl, true, false, Option, none, some, List, [], ◌∷◌, ◌++◌, arith,
  Bytes, if◌then◌else◌, Bool-cases, inl, inr,
}
use sync_agent.Base.Int.{ℤ, pos, eq_ℤ, ltb_ℤ, ◌≤ℤ◌, minus_one}
use sync_agent.Effect.{Effect, close, write, send}
use sync_agent.Log.{
  Log, Env, Args, Destination, console, file, syslog, is_syslog, close_by, stdout_fileno,
  format_line, full_format, put_line, log_by_level, log_set_file, log_close, log_set_level,
  log_level_debug, log_level_error,
}
use sync_agent.Log.Levels.{Outcome, filtered, logged, log_by_level_lem}
use sync_agent.Property.{◌>>=◌}

-- A call: `log_set_file` whose `open` gives the descriptor `n + 3`, `log_by_level`, `log_set_level` on a
-- level that is not negative, or `log_close`.
pub data Call : Type 0 where
  set_file : ℕ → Call
  message : Env → ℤ → Bytes → Args → Call
  set_level : ℕ → Call
  close_log : Call

unfoldable pub call : Call → Log → Option (List Effect × Log)
call (set_file n) log =
    let (result, effects, log') = log_set_file (pos (n + 3)) log in some (effects, log')
call (message env level fmt args) log =
    Option.map (λ r. (r.1, log)) (log_by_level log env level fmt args)
call (set_level n) log = some ([], log_set_level (pos n) log)
call close_log log = some (log_close log)

-- What an effect does to the descriptor that the log has open: `none` is a descriptor closed or written
-- to that is not open.
unfoldable pub take_effect : Effect → Option ℕ → Option (Option ℕ)
take_effect (close fd) none = none
take_effect (close fd) (some n) = if eq_ℤ fd (pos n) then some none else none
take_effect (write fd bytes) none = if eq_ℤ fd stdout_fileno then some none else none
take_effect (write fd bytes) (some n) = if eq_ℤ fd (pos n) then some (some n) else none
take_effect (send fd bytes) o = none

unfoldable pub take_effects : List Effect → Option ℕ → Option (Option ℕ)
unfolding take_effect
take_effects [] o = some o
take_effects (e ∷ es) o = take_effect e o >>= take_effects es

-- The descriptor that a call opens: `none` where the log would lose the one that it has.
unfoldable pub take_open : Call → Option ℕ → Option (Option ℕ)
take_open (set_file n) none = some (some (n + 3))
take_open (set_file n) (some m) = none
take_open c o = some o

-- A session: the log, and the descriptor that it has open.
unfoldable pub run_session : List Call → Log → Option ℕ → Option (Log × Option ℕ)
unfolding call take_effects take_open
run_session [] log o = some (log, o)
run_session (c ∷ cs) log o = do
  (effects, log') ← call c log
  o₁ ← take_effects effects o
  o₂ ← take_open c o₁
  run_session cs log' o₂

-- What the log has for a descriptor.
abbrev pub Keeps : ℤ → Option ℕ → Type 0
Keeps fd none = fd ≡ stdout_fileno
Keeps fd (some n) = (fd ≡ pos n) × (3 ≤ n)

-- The log holds the open descriptor, or the standard output, and can name the levels that it lets pass.
pub record Holding (log : Log) (o : Option ℕ) : Type 0 where
  pub not_syslog : is_syslog log.log_dst ≡ false
  pub threshold : pos 0 ≤ℤ log.log_level
  pub descriptor : Keeps log.log_fd o

-- One call: what `run_session` does of it.
Does : Call → Log → Option ℕ → Type 0
Does c log o =
    (effects : List Effect) × (log' : Log) × (o₁ o₂ : Option ℕ) × (call c log
      ≡ some (effects, log'))
    × (take_effects effects o ≡ some o₁)
    × (take_open c o₁ ≡ some o₂)
    × Holding log' o₂

closing :
    (d : Destination) (log : Log)
    → is_syslog d ≡ false
    → close_by d log ≡ (
        if ltb_ℤ log.log_fd (pos 3)
        then ([], log)
        else (close log.log_fd ∷ [], record log { log_fd = stdout_fileno }))
unfolding close_by
closing syslog log h = cc
closing console log h = refl
closing file log h = refl

close-Does : (log : Log) (o : Option ℕ) → Holding log o → Does close_log log o
unfolding Does call take_effects take_open log_close
close-Does log none h =
    let low : ltb_ℤ log.log_fd (pos 3) ≡ true = rw h.descriptor in
    ([], log, none, none, ap some (closing log.log_dst log h.not_syslog ∙ rw low), refl, refl, h)
close-Does log (some n) h =
    let high : ltb_ℤ log.log_fd (pos 3) ≡ false = ground (arith, h.descriptor.0, h.descriptor.1) in
    let same : eq_ℤ log.log_fd (pos n) ≡ true = ground (arith, h.descriptor.0) in
    (
      close log.log_fd ∷ [],
      record log { log_fd = stdout_fileno },
      none,
      none,
      ap some (closing log.log_dst log h.not_syslog ∙ rw high),
      rw same,
      refl,
      record { not_syslog = h.not_syslog; threshold = h.threshold; descriptor = refl },
    )

set_file-Does : (n : ℕ) (log : Log) (o : Option ℕ) → Holding log o → Does (set_file n) log o
unfolding Does call take_effects take_open log_set_file
set_file-Does n log none h =
    let opened : eq_ℤ (pos (n + 3)) minus_one ≡ false = ground arith in
    let out : eq_ℤ log.log_fd stdout_fileno ≡ true = rw h.descriptor in
    (
      [],
      record log { log_dst = file; log_fd = pos (n + 3) },
      none,
      some (n + 3),
      rw (out, opened),
      refl,
      refl,
      record { not_syslog = refl; threshold = h.threshold; descriptor = (refl, omega arith) },
    )
set_file-Does n log (some m) h =
    let opened : eq_ℤ (pos (n + 3)) minus_one ≡ false = ground arith in
    let out : eq_ℤ log.log_fd stdout_fileno ≡ false =
      ground (arith, h.descriptor.0, h.descriptor.1) in
    let same : eq_ℤ log.log_fd (pos m) ≡ true = ground (arith, h.descriptor.0) in
    (
      close log.log_fd ∷ [],
      record log { log_dst = file; log_fd = pos (n + 3) },
      none,
      some (n + 3),
      rw (out, opened),
      rw same,
      refl,
      record { not_syslog = refl; threshold = h.threshold; descriptor = (refl, omega arith) },
    )

new_level :
    (n : ℕ) (log : Log)
    → (l : ℤ) × (pos 0 ≤ℤ l) × (log_set_level (pos n) log ≡ record log { log_level = l })
unfolding log_set_level
new_level n log = elim (Bool-cases (ltb_ℤ log.log_level log_level_debug)) [
  | inl e ↦ (log_level_debug, omega arith, rw e)
  | inr e ↦ elim (Bool-cases (ltb_ℤ log_level_error log.log_level)) [
    | inl f ↦ (log_level_error, omega arith, rw (e, f))
    | inr f ↦ (pos n, omega arith, rw (e, f))
  ]
]

set_level-Does : (n : ℕ) (log : Log) (o : Option ℕ) → Holding log o → Does (set_level n) log o
unfolding Does call take_effects take_open
set_level-Does n log o h =
    let (l, positive, e) = new_level n log in
    (
      [],
      record log { log_level = l },
      o,
      o,
      ap (λ log'. some ([], log')) e,
      refl,
      refl,
      record { not_syslog = h.not_syslog; threshold = positive; descriptor = h.descriptor },
    )

-- A line goes to the descriptor that the log holds.
writes :
    (log : Log) (o : Option ℕ) (bytes : Bytes)
    → Holding log o
    → take_effects (write log.log_fd bytes ∷ []) o ≡ some o
unfolding take_effects
writes log none bytes h =
    let same : eq_ℤ log.log_fd stdout_fileno ≡ true = rw h.descriptor in rw same
writes log (some n) bytes h =
    let same : eq_ℤ log.log_fd (pos n) ≡ true = ground (arith, h.descriptor.0) in rw same

puts :
    (log : Log) (o : Option ℕ) (line : Option Bytes)
    → Holding log o
    → take_effects (put_line log line).1 o ≡ some o
unfolding put_line take_effects
puts log o none h = refl
puts log o (some bytes) h = writes log o bytes h

message-Does :
    (env : Env) (level : ℤ) (fmt : Bytes) (args : Args) (log : Log) (o : Option ℕ)
    → Holding log o
    → Outcome log env level fmt args (log_by_level log env level fmt args)
    → Does (message env level fmt args) log o
unfolding Does call take_open take_effects
message-Does env level fmt args log o h (filtered low e) = ([], log, o, o, rw e, refl, refl, h)
message-Does env level fmt args log o h (logged name high named e) =
    let line = format_line args (full_format env name fmt) in
    ((put_line log line).1, log, o, o, rw e, puts log o line h, refl, h)

call-Does : (c : Call) (log : Log) (o : Option ℕ) → Holding log o → Does c log o
call-Does (set_file n) log o h = set_file-Does n log o h
call-Does (message env level fmt args) log o h =
    message-Does env level fmt args log o h
      (log_by_level_lem log env level fmt args h.threshold h.not_syslog)
call-Does (set_level n) log o h = set_level-Does n log o h
call-Does close_log log o h = close-Does log o h

closes :
    (log : Log) (o : Option ℕ)
    → Holding log o
    → (log' : Log) × (run_session (close_log ∷ []) log o ≡ some (log', none))
      × (log'.log_fd ≡ stdout_fileno)
unfolding run_session call take_effects take_open log_close
closes log none h =
    let low : ltb_ℤ log.log_fd (pos 3) ≡ true = rw h.descriptor in
    (log, rw (closing log.log_dst log h.not_syslog, low), h.descriptor)
closes log (some n) h =
    let high : ltb_ℤ log.log_fd (pos 3) ≡ false = ground (arith, h.descriptor.0, h.descriptor.1) in
    let same : eq_ℤ log.log_fd (pos n) ≡ true = ground (arith, h.descriptor.0) in
    (
      record log { log_fd = stdout_fileno },
      rw (closing log.log_dst log h.not_syslog, high, same),
      refl,
    )

-- In every session of calls on the console or a file whose `open` does not fail, and which ends with
-- `log_close`, nothing faults; each line goes to the descriptor that the log has open, or to the standard
-- output; no descriptor is closed that is not open, and none is lost when a new one is opened; and at the
-- end the log has none open and goes to the standard output.
pub run_session-closes :
    (cs : List Call) (log : Log) (o : Option ℕ)
    → Holding log o
    → (log' : Log) × (run_session (cs ++ close_log ∷ []) log o ≡ some (log', none))
      × (log'.log_fd ≡ stdout_fileno)
unfolding run_session Does
run_session-closes [] log o h = closes log o h
run_session-closes (c ∷ cs) log o h =
    let (effects, log₁, o₁, o₂, called, taken, opened, held) = call-Does c log o h in
    let (log', runs, out) = run_session-closes cs log₁ o₂ held in
    (log', rw (called, taken, opened) runs, out)
