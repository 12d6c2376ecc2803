-- ===== src/Log/Relay.antt =====
-- The log on its way to a syslog server: `log_by_level` through the client of src/core/base/esyslog.c.
use sync_agent.Base.{
  ℕ, zero, suc, ◌-◌, ◌≤◌, ◌≡◌, ◌≢◌, ◌∙◌, refl, true, false, some, [], ◌∷◌, ◌++◌, ◌==◌, arith, Bytes,
  length, take, if◌then◌else◌,
}
use sync_agent.Base.Int.{pos, ltb_ℤ, ◌≤ℤ◌}
use sync_agent.Effect.{send}
use sync_agent.Syslog.{month_name, packet_size, syslog_write}
use sync_agent.Syslog.Open.{IsOpen}
use sync_agent.Syslog.Packet.{fields, syslog_write_lem}
use sync_agent.Log.Levels.{above}
use sync_agent.Log.{
  Log, Env, Args, syslog, is_syslog, syslog_level_map, at_level, line_bytes, format_line,
  log_to_syslog, log_by_level, log_level_error,
}

-- The severity of a level in the syslog protocol.
abbrev pub severity : ℕ → ℕ
severity zero = 7
severity (suc zero) = 6
severity (suc (suc zero)) = 4
severity (suc (suc (suc n))) = 3

severity-in_range : (n : ℕ) → severity n ≤ 7
severity-in_range zero = omega arith
severity-in_range (suc zero) = omega arith
severity-in_range (suc (suc zero)) = omega arith
severity-in_range (suc (suc (suc n))) = omega arith

at_level-severity :
    (n : ℕ)
    → at_level syslog_level_map (if ltb_ℤ log_level_error (pos n) then log_level_error else pos n)
      ≡ some (pos (severity n))
at_level-severity zero = refl
at_level-severity (suc zero) = refl
at_level-severity (suc (suc zero)) = refl
at_level-severity (suc (suc (suc n))) = rw (above n)

formatted :
    (args : Args) (fmt text : Bytes)
    → args fmt ≡ some text
    → length text ≢ 0
    → format_line args fmt ≡ some (line_bytes text)
unfolding format_line
formatted args fmt text e ne =
    let filled : (length text == 0) ≡ false = ground (arith, ne) in rw (e, filled, format_line)

relayed :
    (log : Log) (env : Env) (n : ℕ) (fmt : Bytes) (args : Args) (text : Bytes)
    → is_syslog log.log_dst ≡ true
    → log.log_level ≤ℤ pos n
    → format_line args fmt ≡ some (line_bytes text)
    → log_by_level log env (pos n) fmt args
      ≡ syslog_write log.client env.tm env.pid env.sent (pos (severity n)) (line_bytes text)
unfolding log_by_level log_to_syslog
relayed log env n fmt args text d l e =
    let high : ltb_ℤ (pos n) log.log_level ≡ false = ground arith in
    rw (high, d, at_level-severity n, e)

-- With the log open on a syslog server, in a month that `syslog_write` can name, a message whose level
-- is not below the threshold and whose text is not empty goes out as one datagram of at most 1024 bytes:
-- the fields with the severity of the level, then as much of the logged line as fits. `log_by_level`
-- returns 1 exactly if `sendto` does not fail.
pub log_by_level_relays :
    (log : Log) (env : Env) (n : ℕ) (fmt : Bytes) (args : Args) (text : Bytes)
    → log.log_dst ≡ syslog
    → IsOpen log.client
    → 1 ≤ env.tm.mon
    → env.tm.mon ≤ 12
    → log.log_level ≤ℤ pos n
    → args fmt ≡ some text
    → length text ≢ 0
    → (month bytes : Bytes) × (month_name env.tm.mon ≡ some month)
      × (bytes
          ≡ fields log.client env.tm env.pid (severity n) month
            ++ take
                (packet_size - length (fields log.client env.tm env.pid (severity n) month))
                (line_bytes text))
      × (length bytes ≤ packet_size)
      × (log_by_level log env (pos n) fmt args
          ≡ some
              (if ltb_ℤ env.sent (pos 0) then false else true, send log.client.sock_fd bytes ∷ []))
log_by_level_relays log env n fmt args text d o lo hi l e ne =
    let (month, bytes, named, whole, fits, sent) =
      syslog_write_lem log.client env.tm env.pid (severity n) env.sent (line_bytes text) o
        (severity-in_range n) lo hi in
    (
      month,
      bytes,
      named,
      whole,
      fits,
      relayed log env n fmt args text (rw d) l (formatted args fmt text e ne) ∙ sent,
    )
