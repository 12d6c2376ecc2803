-- ===== src/Agent.antt =====
-- src/agent/sync_agent.c: the start of the program. The results of system calls and of `getopt` are
-- arguments; what the code logs is left out here, but for `lthread_log`.
pub mod Main
pub mod Start
pub mod Laws
pub mod Modes
pub mod Program
pub mod Outcomes
mod Tests
use sync_agent.Base.{
  ℕ, ◌-◌, Bool, true, false, not, ◌||◌, ◌&&◌, Option, none, some, List, [], ◌∷◌, ◌++◌, ◌==◌,
  if◌then◌else◌, length, Bytes, codes, equal_nocase,
}
use sync_agent.Base.Int.{ℤ, pos, minus_one, ltb_ℤ, eq_ℤ}
use sync_agent.Effect.{Effect}
use sync_agent.Log.{Log, Env, Args, log_by_level, log_set_level, log_set_file, printed}
use sync_agent.Config.{Config, LogDst, dst_file, dst_console}
use sync_agent.Config.Lists.{SetOps}

-- What `getopt` returns before -1: `c` with its argument, `v`, `h`, or `?`.
pub data Opt : Type 0 where
  opt_c : Bytes → Opt
  opt_v opt_h opt_unknown : Opt

-- How `parse_args` ends: it returns 1 or 0 with the name of the file, or the program exits.
pub data Parsed : Type 0 where
  returned : Bool → Bytes → Parsed
  exited : Parsed

-- The loop of `parse_args`.
unfoldable pub parse_loop : List Opt → Bool → Bytes → Parsed
parse_loop [] parsed config_file = returned parsed config_file
parse_loop (opt_c arg ∷ opts) parsed config_file = parse_loop opts true arg
parse_loop (opt_v ∷ opts) parsed config_file = exited
parse_loop (opt_h ∷ opts) parsed config_file = exited
parse_loop (opt_unknown ∷ opts) parsed config_file = returned false config_file

-- `parse_args`
unfoldable pub parse_args : ℕ → List Opt → Bytes → Parsed
unfolding parse_loop
parse_args argc opts config_file = parse_loop opts (if argc == 1 then true else false) config_file

-- What `create_daemon_process` does to the process.
pub data Step : Type 0 where
  free_config : Step
  set_session change_dir clear_umask open_null : Step
  dup_to : ℤ → ℕ → Step

-- The results of its system calls; `dup2` may depend on the descriptor.
pub record Calls : Type 0 where
  pub fork : ℤ
  pub setsid : ℤ
  pub null_fd : ℤ
  pub dup2 : ℕ → ℤ

-- How it ends: the parent exits, or it returns 1 or 0.
pub data Daemon : Type 0 where
  parent : Daemon
  child : Bool → Daemon

-- The calls of `dup2`, up to the first that fails.
unfoldable pub redirect : Calls → List ℕ → Daemon × List Step
redirect calls [] = (child true, [])
redirect calls (fd ∷ fds) =
    let (result, steps) = redirect calls fds in
    if eq_ℤ (calls.dup2 fd) minus_one
    then (child false, dup_to calls.null_fd fd ∷ [])
    else (result, dup_to calls.null_fd fd ∷ steps)

-- The branch of the child.
unfoldable pub child_process : Calls → Daemon × List Step
unfolding redirect
child_process calls =
    let (result, steps) = redirect calls (0 ∷ 1 ∷ 2 ∷ []) in
    if eq_ℤ calls.setsid minus_one
    then (child false, set_session ∷ [])
    else if eq_ℤ calls.null_fd minus_one
    then (child false, set_session ∷ change_dir ∷ clear_umask ∷ open_null ∷ [])
    else (result, set_session ∷ change_dir ∷ clear_umask ∷ open_null ∷ steps)

-- `create_daemon_process`
unfoldable pub create_daemon_process : Calls → Daemon × List Step
unfolding child_process
create_daemon_process calls =
    if ltb_ℤ calls.fork (pos 0)
    then (child false, [])
    else if ltb_ℤ (pos 0) calls.fork
    then (parent, free_config ∷ [])
    else child_process calls

-- The signals of the program.
pub data Signal : Type 0 where
  sigterm sigusr1 sigint sigsegv sigbus sigquit sigchld : Signal

-- `install_signals`, where `signal` says whether a call succeeds: its result, and the signals whose
-- handler it has set.
unfoldable pub install_from : (signal : Signal → Bool) → List Signal → Bool × List Signal
install_from signal [] = (true, [])
install_from signal (s ∷ rest) =
    let (result, set) = install_from signal rest in
    if signal s then (result, s ∷ set) else (false, [])

unfoldable pub install_signals : (signal : Signal → Bool) → Bool × List Signal
unfolding install_from
install_signals signal =
    install_from signal (sigterm ∷ sigusr1 ∷ sigint ∷ sigsegv ∷ sigbus ∷ sigquit ∷ sigchld ∷ [])

-- `signal_handle` on `_main_continue`; `none` is `exit(0)`.
unfoldable pub signal_handle : Signal → Bool → Option Bool
signal_handle sigterm main_continue = some false
signal_handle sigusr1 main_continue = some false
signal_handle sigint main_continue = some false
signal_handle sigchld main_continue = some main_continue
signal_handle _ main_continue = none

abbrev pub log_buffer_size : ℕ
log_buffer_size = 8096

-- `lthread_log` outside its calls of the thread library. The line goes to `log_by_level` as a format:
-- `args` is the text of the first format, `rest` what `vsnprintf` makes of the line with no arguments.
unfoldable pub lthread_log :
    Log → Env → ℤ → Bytes → Args → Args → Option (Option (Bool × List Effect))
lthread_log log env level fmt args rest = elim (args fmt) [
  | none ↦ some none
  | some text ↦
      if length text == 0
      then some none
      else elim (log_by_level log env level (printed (log_buffer_size - 2) text) rest) [
        | none ↦ none
        | some done ↦ some (some done)
      ]
]

-- How `main` runs.
pub data Run : Type 0 where
  server client neither : Run

-- `set_contains`; `none` is a NULL pointer followed.
unfoldable pub contained : {S : Type 0} → SetOps S → Option S → Bytes → Option Bool
contained sets none ip = none
contained sets (some s) ip = some (sets.set_contains ip s)

-- `0 == strcasecmp(mode, name) || …`, where the rest is a test of what `set_contains` returns.
unfoldable pub is_mode : Bytes → Bytes → Option Bool → Option Bool
is_mode mode name listed = if equal_nocase mode name then some true else listed

unfoldable pub negated : Option Bool → Option Bool
negated none = none
negated (some b) = some (not b)

-- The branches at the end of `main`.
unfoldable pub choose : Option Bool → Option Bool → Option Run
choose none second = none
choose (some true) second = some server
choose (some false) none = none
choose (some false) (some true) = some client
choose (some false) (some false) = some neither

-- The choice of the mode at the end of `main`.
unfoldable pub run_mode : {M S : Type 0} → SetOps S → Config M S → Bytes → Option Run
unfolding contained is_mode choose negated
run_mode sets config ip = elim config.mode [
  | none ↦ none
  | some mode ↦
      choose (is_mode mode (codes "server") (contained sets config.server_list ip))
        (is_mode mode (codes "client") (negated (contained sets config.server_list ip)))
]

-- The start of the log in `main`: the level, and the file where the destination is one.
unfoldable pub start_log :
    {M S : Type 0} → (opened : ℤ) → Config M S → Log → Bool × List Effect × Log
start_log opened config log =
    let log₁ = log_set_level config.log_level log in
    elim config.log_dst [ dst_console ↦ (true, [], log₁) | dst_file ↦ log_set_file opened log₁ ]
