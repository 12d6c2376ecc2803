-- ===== src/Agent/Main.antt =====
-- `main` of src/agent/sync_agent.c: its parts in order. What the server does once it runs is in the
-- module of the server.
use sync_agent.Base.{ℕ, Bool, true, false, none, some, Option, List, Bytes, if◌then◌else◌}
use sync_agent.Base.Int.{ℤ}
use sync_agent.Log.{initial}
use sync_agent.Config.{Config, Host, sync_config_load}
use sync_agent.Agent.{
  Opt, Parsed, returned, exited, parse_args, Calls, Daemon, parent, child, create_daemon_process,
  Run, run_mode, start_log,
}

-- How `main` ends, or runs: `aborted` is a failed `assert`, `fault` an access out of bounds or a NULL
-- pointer followed.
pub data Outcome : Type 0 where
  exit_success return_failure aborted fault : Outcome
  runs : Run → Outcome

-- What the program finds when it starts: its arguments, the files, the results of `open` for the log and
-- of the calls for a daemon, and the address that `get_ip` gives.
pub record World (M S : Type 0) : Type 0 where
  pub host : Host M S
  pub argc : ℕ
  pub opts : List Opt
  pub config_file : Bytes
  pub comment : ℕ
  pub fopen : Bytes → Option Bytes
  pub stat : Bytes → Bool
  pub memory : Bool
  pub log_opened : ℤ
  pub calls : Calls
  pub address : Option Bytes

module _ {M S : Type 0} (w : World M S) where
  unfoldable pub run_outcome : Option Run → Outcome
  run_outcome none = fault
  run_outcome (some run) = runs run

  -- From `get_ip` on.
  unfoldable pub run_from : Config M S → Option Bytes → Outcome
  unfolding run_outcome
  run_from config none = aborted
  run_from config (some ip) = run_outcome (run_mode w.host.sets config ip)

  -- The branch of the daemon.
  unfoldable pub after_daemon : Config M S → Daemon → Outcome
  unfolding run_from
  after_daemon config parent = exit_success
  after_daemon config (child false) = return_failure
  after_daemon config (child true) = run_from config w.address

  -- From the start of the log on.
  unfoldable pub after_load : Option (Option (Config M S)) → Outcome
  unfolding after_daemon
  after_load none = fault
  after_load (some none) = return_failure
  after_load (some (some config)) =
      if (start_log w.log_opened config initial).0
      then (if config.daemon
          then after_daemon config (create_daemon_process w.calls).0
          else run_from config w.address)
      else return_failure

  -- From the configuration on.
  unfoldable pub after_args : Parsed → Outcome
  unfolding after_load
  after_args exited = exit_success
  after_args (returned false file) = return_failure
  after_args (returned true file) =
      after_load (sync_config_load w.host w.comment w.fopen (w.stat file) w.memory file)

  -- `main`
  unfoldable pub main : Outcome
  unfolding after_args
  main = after_args (parse_args w.argc w.opts w.config_file)
