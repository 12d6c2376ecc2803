-- ===== src/Log/Tests.antt =====
-- Runs of the logger, and its theorems at concrete states.
use sync_agent.Base.{
  ℕ, ◌-◌, ◌≤◌, ◌≡◌, ◌⊎◌, ◌↔◌, refl, true, false, none, some, [], ◌∷◌, ◌++◌, arith, length, take,
  Bytes, codes,
}
use sync_agent.Base.Int.{pos, negsuc, minus_one, eq_ℤ, ◌≤ℤ◌}
use sync_agent.Effect.{close, write}
use sync_agent.Syslog.{syslog_open}
use sync_agent.Log.{
  Log, Env, Args, file, syslog, initial, line_in, line_bytes, format_line, full_format,
  format_cur_time, put_line, line_buffer_size, log_to_fd, log_by_level, log_debug, log_info,
  log_warn, log_error, log_set_file, log_set_syslog, log_close, log_set_level, log_level_str,
  log_level_int, stdout_fileno,
}
use sync_agent.Base.{if◌then◌else◌}
use sync_agent.Base.Int.{ltb_ℤ}
use sync_agent.Effect.{send}
use sync_agent.Syslog.{month_name, packet_size}
use sync_agent.Syslog.Packet.{fields}
use sync_agent.Log.Relay.{log_by_level_relays}
use sync_agent.Log.Session.{set_file, message, close_log, run_session, run_session-closes}
use sync_agent.Log.Line.{line_bytes_lem}
use sync_agent.Log.Levels.{
  log_level_int-log_level_str, log_level_int_range, log_by_level_faults, log_set_level_lem,
}
use sync_agent.Log.Targets.{
  log_set_file_fails, log_set_file_lem, log_set_syslog_fails, log_close_twice,
}

abbrev env : Env
env = record {
  strftime = λ format. codes "2016-01-02 03:04:05";
  tm = record { mon = 0; mday = 2; hour = 3; minute = 4; sec = 5 };
  pid = 42;
  sent = pos 1;
}

-- A call with no arguments, and a format with no conversion.
abbrev plain : Args
plain format = some format

logs_info :
    log_info initial env (codes "up") plain
    ≡ some (true, write (pos 1) (codes "[INFO] [2016-01-02 03:04:05] up\n") ∷ [])
unfolding log_info log_to_fd format_line full_format put_line line_bytes line_in format_cur_time
logs_info = refl

drops_debug : log_debug initial env (codes "up") plain ≡ some (true, [])
unfolding log_debug
drops_debug = refl

warns_and_errors :
    (log_warn initial env [] (λ f. none) ≡ some (false, []))
    × (log_error initial env [] (λ f. some []) ≡ some (false, []))
unfolding log_warn log_error log_to_fd format_line put_line full_format
warns_and_errors = (refl, refl)

illegal :
    log_level_str initial env plain (pos 9)
    ≡ some (
      none,
      write (pos 1) (
            codes "[ERROR] [2016-01-02 03:04:05] log_level should be 0, 1, 2, 3, %d is illegal\n\n")
          ∷ [],
    )
unfolding log_level_str log_to_fd format_line full_format put_line line_bytes line_in
    format_cur_time
illegal = refl

line_bytes_lem_example :
    (2 ≤ 8093 → line_bytes (codes "ab") ≡ codes "ab" ++ b'\n' ∷ [])
    × (8094 ≤ 2 → line_bytes (codes "ab") ≡ take 8093 (codes "ab") ++ 0 ∷ b'\n' ∷ [])
    × (length (line_bytes (codes "ab")) ≤ line_buffer_size - 1)
line_bytes_lem_example = line_bytes_lem (codes "ab")

log_level_int-log_level_str_example :
    (name : Bytes) × (log_level_str initial env plain (pos 2) ≡ some (some name, []))
    × (log_level_int name ≡ pos 2)
log_level_int-log_level_str_example = log_level_int-log_level_str initial env plain 2 (omega arith)

log_level_int_range_example :
    (log_level_int (codes "Warn") ≡ minus_one)
    ⊎ ((level : ℕ) × (log_level_int (codes "Warn") ≡ pos level) × (level ≤ 3))
log_level_int_range_example = log_level_int_range (codes "Warn")

log_by_level_faults_example :
    log_by_level (record initial { log_level = negsuc 4 }) env (negsuc 0) (codes "up") plain ≡ none
log_by_level_faults_example =
    log_by_level_faults (record initial { log_level = negsuc 4 }) env 0 (codes "up") plain refl
      (omega arith)

log_set_level_lem_example :
    let log' = log_set_level (negsuc 1) initial in
    (log'.log_level ≡ negsuc 1)
    × (negsuc 1 ≤ℤ minus_one → (log_set_level (pos 2) log').log_level ≡ pos 0)
    × (pos 4 ≤ℤ negsuc 1 → (log_set_level (pos 2) log').log_level ≡ pos 3)
log_set_level_lem_example = log_set_level_lem initial (negsuc 1) (pos 2) (omega arith) (omega arith)

abbrev to_file : Log
to_file = record initial { log_fd = pos 7; log_dst = file }

log_set_file_fails_example :
    let (result, effects, log') = log_set_file minus_one to_file in
    (result ≡ false)
    × (effects ≡ close (pos 7) ∷ [])
    × (put_line log' (some (codes "x\n")) ≡ (true, write (pos 7) (codes "x\n") ∷ []))
log_set_file_fails_example = log_set_file_fails to_file (codes "x\n") refl

log_set_file_lem_example :
    let (result, effects, log') = log_set_file (pos 8) to_file in
    (result ≡ true)
    × (log' ≡ record to_file { log_dst = file; log_fd = pos 8 })
    × ((effects ≡ []) ⊎ (effects ≡ close (pos 7) ∷ []))
    × ((effects ≡ []) ↔ (eq_ℤ (pos 7) stdout_fileno ≡ true))
log_set_file_lem_example = log_set_file_lem 8 to_file

log_set_syslog_fails_example :
    let (result, log') =
      log_set_syslog
        (λ ip. pos 1)
        minus_one
        (some (codes "127.0.0.1"))
        (pos 514)
        (pos 8)
        none
        (some (codes "t"))
        initial in
    (result ≡ minus_one) × (log'.log_dst ≡ syslog)
unfolding syslog_open
log_set_syslog_fails_example =
    log_set_syslog_fails (λ ip. pos 1) minus_one (some (codes "127.0.0.1")) (pos 514) (pos 8) none
      (some (codes "t")) initial refl

log_close_twice_example : let (effects, log') = log_close to_file in log_close log' ≡ ([], log')
log_close_twice_example = log_close_twice to_file

abbrev to_syslog : Log
to_syslog = record initial {
  log_dst = syslog;
  client = record {
    ip = codes "127.0.0.1";
    port = pos 514;
    sock_fd = pos 5;
    facility = pos 8;
    hostname = codes "h";
    program = codes "t";
  };
}

abbrev in_march : Env
in_march = record env { tm = record env.tm { mon = 2 } }

log_by_level_relays_example :
    let f : Bytes → Bytes = λ month. fields to_syslog.client in_march.tm 42 4 month in
    (month bytes : Bytes) × (month_name 2 ≡ some month)
    × (bytes ≡ f month ++ take (packet_size - length (f month)) (line_bytes (codes "low disk")))
    × (length bytes ≤ packet_size)
    × (log_by_level to_syslog in_march (pos 2) (codes "low disk") plain
        ≡ some (if ltb_ℤ (pos 1) (pos 0) then false else true, send (pos 5) bytes ∷ []))
log_by_level_relays_example =
    log_by_level_relays to_syslog in_march 2 (codes "low disk") plain (codes "low disk") refl
      (record {
        socket = omega arith;
        facility_low = omega arith;
        facility_high = omega arith;
        hostname_fits = omega arith;
        program_fits = omega arith;
      })
      (omega arith) (omega arith) (omega arith) refl (omega arith)

run_session-closes_example :
    (log' : Log) × (run_session
        (message env (pos 1) (codes "up") plain
          ∷ set_file 4
          ∷ message env (pos 3) (codes "down") plain
          ∷ set_file 5
          ∷ close_log
          ∷ [])
        initial
        none
      ≡ some (log', none))
    × (log'.log_fd ≡ stdout_fileno)
run_session-closes_example =
    run_session-closes
      (message env (pos 1) (codes "up") plain
        ∷ set_file 4
        ∷ message env (pos 3) (codes "down") plain
        ∷ set_file 5
        ∷ [])
      initial none (record { not_syslog = refl; threshold = omega arith; descriptor = refl })
