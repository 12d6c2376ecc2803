-- ===== src/Log.antt =====
-- src/core/base/elog.c and elog.h: leveled logging to the console, a file or a syslog server. The
-- static variables are a record; the results of system calls and of the time functions are arguments.
-- `none` is an access out of bounds.
pub mod Line
pub mod Levels
pub mod Relay
pub mod Session
pub mod Targets
mod Tests
use mathlib.Core.Option
use sync_agent.Base.{
  ◌||◌, ℕ, zero, suc, ◌+◌, ◌-◌, Bool, true, false, not, Option, none, some, List, [], ◌∷◌, ◌++◌,
  ltb, leb, ◌==◌, if◌then◌else◌, length, take, replicate, get_elem?, Bytes, codes, equal_nocase,
}
use sync_agent.Base.Int.{ℤ, pos, negsuc, minus_one, ltb_ℤ, eq_ℤ}
use sync_agent.Effect.{Effect, close, write}
use sync_agent.Syslog
use sync_agent.Syslog.{Syslog, Tm, syslog_open, syslog_write, syslog_close}

-- The levels.
abbrev pub log_level_debug : ℤ
log_level_debug = pos 0

abbrev pub log_level_info : ℤ
log_level_info = pos 1

abbrev pub log_level_warn : ℤ
log_level_warn = pos 2

abbrev pub log_level_error : ℤ
log_level_error = pos 3

-- The values of `log_dst`.
pub data Destination : Type 0 where
  console file syslog : Destination

abbrev pub is_syslog : Destination → Bool
is_syslog syslog = true
is_syslog console = false
is_syslog file = false

abbrev pub stdout_fileno : ℤ
stdout_fileno = pos 1

-- The static variables of the logger, with those of the syslog client.
pub record Log : Type 0 where
  pub log_level : ℤ
  pub log_fd : ℤ
  pub log_dst : Destination
  pub client : Syslog

-- Their values when the program starts.
abbrev pub initial : Log
initial = record {
  log_level = log_level_info;
  log_fd = stdout_fileno;
  log_dst = console;
  client = Syslog.closed;
}

-- What a call that logs is given by its surroundings: the text that `strftime` makes of a format at
-- this time, the fields of the time, the process id, and the result of `sendto`.
pub record Env : Type 0 where
  pub strftime : Bytes → Bytes
  pub tm : Tm
  pub pid : ℕ
  pub sent : ℤ

-- A `va_list`: the text that a format gives with these arguments, or `none` where `vsnprintf` fails.
abbrev pub Args : Type 0
Args = Bytes → Option Bytes

abbrev pub log_level_map : List Bytes
log_level_map = codes "DEBUG" ∷ codes "INFO" ∷ codes "WARN" ∷ codes "ERROR" ∷ []

abbrev pub syslog_level_map : List ℤ
syslog_level_map = pos 7 ∷ pos 6 ∷ pos 4 ∷ pos 3 ∷ []

-- `map[level]`
abbrev pub at_level : {A : Type 0} → List A → ℤ → Option A
at_level map (pos level) = get_elem? map level
at_level map (negsuc level) = none

-- `format_cur_time`
unfoldable pub format_cur_time : Env → Option Bytes → Bytes
format_cur_time env none = env.strftime (codes "%Y-%m-%d %H:%M:%S")
format_cur_time env (some format) = env.strftime format

abbrev pub line_buffer_size : ℕ
line_buffer_size = 8096

abbrev pub format_buffer_size : ℕ
format_buffer_size = 1024

-- The string that `snprintf(buffer, size, …)` leaves of a text.
abbrev pub printed : ℕ → Bytes → Bytes
printed size text = take (size - 1) text

-- The string that `vsnprintf` leaves in a zeroed buffer of `size` bytes, with room for two more, and
-- the bytes that follow it.
abbrev pub text_buffer : ℕ → Bytes → Bytes
text_buffer size text =
    printed (size - 2) text ++ replicate (size - length (printed (size - 2) text)) 0

-- The bytes of the buffer up to `line_size`, with the line end.
unfoldable pub line_in : ℕ → Bytes → Bytes
line_in size text =
    let line_size = if ltb (size - 2) (length text) then size - 2 else length text in
    take line_size (text_buffer size text) ++ b'\n' ∷ []

-- The bytes that go out of `line_buffer`.
unfoldable pub line_bytes : Bytes → Bytes
line_bytes text = line_in line_buffer_size text

-- The line of a format and its arguments; `none` where `line_size <= 0`.
unfoldable pub format_line : Args → Bytes → Option Bytes
format_line args format = elim (args format) [
  | none ↦ none
  | some text ↦ if length text == 0 then none else some (line_bytes text)
]

-- `format_buffer`: the level, the time and the format.
unfoldable pub full_format : Env → Bytes → Bytes → Bytes
full_format env level_name fmt = printed (format_buffer_size - 1) (
    codes "[" ++ (level_name ++ (codes "] [" ++ (format_cur_time env none ++ (codes "] " ++ fmt)))))

-- A line that goes to `log_fd`.
unfoldable pub put_line : Log → Option Bytes → Bool × List Effect
put_line log none = (false, [])
put_line log (some bytes) = (true, write log.log_fd bytes ∷ [])

-- The branch for the console and files.
unfoldable pub log_to_fd : Log → Env → Args → Bytes → Option Bytes → Option (Bool × List Effect)
log_to_fd log env args fmt none = none
log_to_fd log env args fmt (some level_name) =
    some (put_line log (format_line args (full_format env level_name fmt)))

-- The branch for syslog.
unfoldable pub log_to_syslog : Log → Env → Option ℤ → Option Bytes → Option (Bool × List Effect)
log_to_syslog log env severity none = some (false, [])
log_to_syslog log env none (some bytes) = none
log_to_syslog log env (some severity) (some bytes) =
    syslog_write log.client env.tm env.pid env.sent severity bytes

-- `log_by_level`
unfoldable pub log_by_level : Log → Env → ℤ → Bytes → Args → Option (Bool × List Effect)
log_by_level log env level fmt args =
    let level' = if ltb_ℤ log_level_error level then log_level_error else level in
    if ltb_ℤ level log.log_level
    then some (true, [])
    else if not (is_syslog log.log_dst)
    then log_to_fd log env args fmt (at_level log_level_map level')
    else log_to_syslog log env (at_level syslog_level_map level') (format_line args fmt)

-- The four functions below repeat the text of `log_by_level` at a level of their own.
-- `log_debug`
unfoldable pub log_debug : Log → Env → Bytes → Args → Option (Bool × List Effect)
unfolding log_by_level
log_debug log env fmt args = log_by_level log env log_level_debug fmt args

-- `log_info`
unfoldable pub log_info : Log → Env → Bytes → Args → Option (Bool × List Effect)
unfolding log_by_level
log_info log env fmt args = log_by_level log env log_level_info fmt args

-- `log_warn`
unfoldable pub log_warn : Log → Env → Bytes → Args → Option (Bool × List Effect)
unfolding log_by_level
log_warn log env fmt args = log_by_level log env log_level_warn fmt args

-- `log_error`
unfoldable pub log_error : Log → Env → Bytes → Args → Option (Bool × List Effect)
unfolding log_by_level
log_error log env fmt args = log_by_level log env log_level_error fmt args

-- `log_set_file`, where `opened` is the result of `open`.
unfoldable pub log_set_file : (opened : ℤ) → Log → Bool × List Effect × Log
log_set_file opened log =
    let closing : List Effect =
      if eq_ℤ log.log_fd stdout_fileno then [] else close log.log_fd ∷ [] in
    if eq_ℤ opened minus_one
    then (false, closing, log)
    else (true, closing, record log { log_dst = file; log_fd = opened })

-- `log_set_syslog`
unfoldable pub log_set_syslog :
    (aton : Bytes → ℤ) (sock : ℤ)
    → Option Bytes
    → ℤ
    → ℤ
    → Option Bytes
    → Option Bytes
    → Log
    → ℤ × Log
log_set_syslog aton sock ip port facility hostname program log =
    let (result, client') = syslog_open aton sock ip port facility hostname program log.client in
    let log' = record log { client = client' } in
    if eq_ℤ result (pos 0) then (result, log') else (result, record log' { log_dst = syslog })

-- `log_close`, by the destination; it returns 1.
unfoldable pub close_by : Destination → Log → List Effect × Log
close_by syslog log =
    let (effects, client') = syslog_close log.client in (effects, record log { client = client' })
close_by _ log =
    if ltb_ℤ log.log_fd (pos 3)
    then ([], log)
    else (close log.log_fd ∷ [], record log { log_fd = stdout_fileno })

-- `log_close`
unfoldable pub log_close : Log → List Effect × Log
unfolding close_by
log_close log = close_by log.log_dst log

-- `log_set_level`
unfoldable pub log_set_level : ℤ → Log → Log
log_set_level level log =
    if ltb_ℤ log.log_level log_level_debug
    then record log { log_level = log_level_debug }
    else if ltb_ℤ log_level_error log.log_level
    then record log { log_level = log_level_error }
    else record log { log_level = level }

-- The format of the message of `log_level_str`.
abbrev pub illegal_level : Bytes
illegal_level = codes "log_level should be 0, 1, 2, 3, %d is illegal\n"

-- `log_level_str`: the name, or NULL with what `log_error` does. `args` holds the level.
unfoldable pub log_level_str : Log → Env → Args → ℤ → Option (Option Bytes × List Effect)
unfolding log_error
log_level_str log env args level =
    if ltb_ℤ level (pos 0) || ltb_ℤ (pos 3) level
    then Option.map (λ r. (none, r.1)) (log_error log env illegal_level args)
    else Option.map (λ name. (some name, [])) (at_level log_level_map level)

-- `log_level_int`
unfoldable pub log_level_int : Bytes → ℤ
log_level_int s =
    if equal_nocase s (codes "debug")
    then log_level_debug
    else if equal_nocase s (codes "info")
    then log_level_info
    else if equal_nocase s (codes "warn")
    then log_level_warn
    else if equal_nocase s (codes "error")
    then log_level_error
    else minus_one
