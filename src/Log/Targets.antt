-- ===== src/Log/Targets.antt =====
-- `log_set_file`, `log_set_syslog` and `log_close`: where the log goes, with their failures.
use sync_agent.Base.{
  ℕ, ◌≡◌, ◌⊎◌, inl, inr, ◌↔◌, refl, true, false, some, Option, [], ◌∷◌, arith, Bool-cases, Bytes,
}
use sync_agent.Base.Int.{ℤ, pos, minus_one, eq_ℤ}
use sync_agent.Effect.{close, write}
use sync_agent.Syslog.{syslog_open, syslog_close}
use sync_agent.Log.{
  Log, Destination, console, file, syslog, put_line, log_set_file, log_set_syslog, log_close,
  close_by, stdout_fileno,
}

-- `log_set_file` whose `open` fails, on a log that goes to a file already: it closes the old
-- descriptor and returns 0, but the log keeps it, and every later line goes to the closed descriptor.
pub log_set_file_fails :
    (log : Log) (bytes : Bytes)
    → eq_ℤ log.log_fd stdout_fileno ≡ false
    → let (result, effects, log') = log_set_file minus_one log in
      (result ≡ false)
      × (effects ≡ close log.log_fd ∷ [])
      × (put_line log' (some bytes) ≡ (true, write log.log_fd bytes ∷ []))
unfolding log_set_file put_line
log_set_file_fails log bytes h = rw h (refl, refl, refl)

-- `log_set_file` whose `open` gives a descriptor: the log goes to that descriptor, and the old one is
-- closed exactly if it was not the standard output.
pub log_set_file_lem :
    (opened : ℕ) (log : Log)
    → let (result, effects, log') = log_set_file (pos opened) log in
      (result ≡ true)
      × (log' ≡ record log { log_dst = file; log_fd = pos opened })
      × ((effects ≡ []) ⊎ (effects ≡ close log.log_fd ∷ []))
      × ((effects ≡ []) ↔ (eq_ℤ log.log_fd stdout_fileno ≡ true))
unfolding log_set_file
log_set_file_lem opened log = elim (Bool-cases (eq_ℤ log.log_fd stdout_fileno)) [
  | inl e ↦ rw (e, plain opened) (refl, refl, inl refl, (λ _. refl, λ _. refl))
  | inr e ↦ rw (e, plain opened) (refl, refl, inr refl, (λ h. cc, λ h. cc))
]
  where
    plain : (n : ℕ) → eq_ℤ (pos n) minus_one ≡ false
    plain n = ground arith

-- `log_set_syslog` takes the -1 by which `syslog_open` fails for success: the log goes to syslog.
pub log_set_syslog_fails :
    (aton : Bytes → ℤ) (sock : ℤ) (ip : Option Bytes) (port facility : ℤ)
    (hostname program : Option Bytes) (log : Log)
    → (syslog_open aton sock ip port facility hostname program log.client).0 ≡ minus_one
    → let (result, log') = log_set_syslog aton sock ip port facility hostname program log in
      (result ≡ minus_one) × (log'.log_dst ≡ syslog)
unfolding log_set_syslog
log_set_syslog_fails aton sock ip port facility hostname program log h = rw h (refl, refl)

-- `log_close` closes what the log holds open at most once: a second `log_close` does nothing more.
pub log_close_twice :
    (log : Log) → let (effects, log') = log_close log in log_close log' ≡ ([], log')
unfolding log_close syslog_close
log_close_twice log = closing log.log_dst log refl
  where
    closing :
        (d : Destination) (log : Log)
        → log.log_dst ≡ d
        → let (effects, log') = close_by d log in close_by log'.log_dst log' ≡ ([], log')
    closing console log e = ground arith
    closing file log e = ground arith
    closing syslog log e = ground arith
