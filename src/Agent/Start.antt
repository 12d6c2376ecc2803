-- ===== src/Agent/Start.antt =====
-- When `main` comes to run as a server or a client.
use sync_agent.Base.{
  ◌≡◌, ◌≢◌, ◌⊎◌, refl, true, false, none, some, Option, Bytes, Bool-cases, inl, inr,
}
use sync_agent.Log.{initial}
use sync_agent.Config.{Config, sync_config_load}
use sync_agent.Agent.{
  Parsed, returned, exited, parse_args, Daemon, parent, child, create_daemon_process, Run, run_mode,
  start_log,
}
use sync_agent.Agent.Main.{
  World, return_failure, runs, run_outcome, run_from, after_daemon, after_load, after_args, main,
}

not_run : {run : Run} → return_failure ≢ runs run
not_run e = cc

module _ {M S : Type 0} (w : World M S) where
  -- A configuration with which `main` has come to run in the given way.
  pub record Ready (run : Run) (config : Config M S) : Type 0 where
    pub logged : (start_log w.log_opened config initial).0 ≡ true
    pub detached : (config.daemon ≡ false) ⊎ ((create_daemon_process w.calls).0 ≡ child true)
    pub ip : Bytes
    pub address : w.address ≡ some ip
    pub mode : run_mode w.host.sets config ip ≡ some run

  run_outcome-runs : (o : Option Run) (run : Run) → run_outcome w o ≡ runs run → o ≡ some run
  unfolding run_outcome
  run_outcome-runs none run h = cc
  run_outcome-runs (some r) run h = cc

  run_from-runs :
      (config : Config M S) (a : Option Bytes) (run : Run)
      → run_from w config a ≡ runs run
      → (ip : Bytes) × (a ≡ some ip) × (run_mode w.host.sets config ip ≡ some run)
  unfolding run_from
  run_from-runs config none run h = cc
  run_from-runs config (some ip) run h =
      (ip, refl, run_outcome-runs (run_mode w.host.sets config ip) run h)

  after_daemon-runs :
      (config : Config M S) (d : Daemon) (run : Run)
      → after_daemon w config d ≡ runs run
      → (d ≡ child true) × (run_from w config w.address ≡ runs run)
  unfolding after_daemon
  after_daemon-runs config parent run h = cc
  after_daemon-runs config (child false) run h = cc
  after_daemon-runs config (child true) run h = (refl, h)

  ready :
      (config : Config M S) (run : Run)
      → (start_log w.log_opened config initial).0 ≡ true
      → (config.daemon ≡ false) ⊎ ((create_daemon_process w.calls).0 ≡ child true)
      → run_from w config w.address ≡ runs run
      → Ready run config
  ready config run l d h =
      let (ip, a, m) = run_from-runs config w.address run h in
      record { logged = l; detached = d; ip = ip; address = a; mode = m }

  configured-runs :
      (config : Config M S) (run : Run)
      → after_load w (some (some config)) ≡ runs run
      → Ready run config
  unfolding after_load run_mode
  configured-runs config run h = elim (Bool-cases (start_log w.log_opened config initial).0) [
    | inr n ↦ absurd (not_run (rw n at h))
    | inl l ↦ elim (Bool-cases config.daemon) [
      | inr n ↦ ready config run l (inl n) (rw (l, n) at h)
      | inl d ↦
          let (c, g) =
            after_daemon-runs config (create_daemon_process w.calls).0 run (rw (l, d) at h) in
          ready config run l (inr c) g
    ]
  ]

  after_load-runs :
      (o : Option (Option (Config M S))) (run : Run)
      → after_load w o ≡ runs run
      → (config : Config M S) × (o ≡ some (some config)) × Ready run config
  unfolding after_load
  after_load-runs none run h = cc
  after_load-runs (some none) run h = cc
  after_load-runs (some (some config)) run h = (config, refl, configured-runs config run h)

  after_args-runs :
      (p : Parsed) (run : Run)
      → after_args w p ≡ runs run
      → (file : Bytes) × (config : Config M S) × (p ≡ returned true file)
        × (sync_config_load w.host w.comment w.fopen (w.stat file) w.memory file
            ≡ some (some config))
        × Ready run config
  unfolding after_args
  after_args-runs exited run h = cc
  after_args-runs (returned false file) run h = cc
  after_args-runs (returned true file) run h =
      let (config, e, r) =
        after_load-runs (sync_config_load w.host w.comment w.fopen (w.stat file) w.memory file) run
          h in
      (file, config, refl, e, r)

  -- If `main` comes to run as a server or a client, `parse_args` has returned 1 with a file name, the
  -- configuration has been loaded from that file, the log has been started, the process is the child of
  -- `create_daemon_process` if the configuration asks for a daemon, and `get_ip` has given the address
  -- by which, with the configuration, the mode is chosen.
  pub main-runs :
      (run : Run)
      → main w ≡ runs run
      → (file : Bytes) × (config : Config M S) × (parse_args w.argc w.opts w.config_file
          ≡ returned true file)
        × (sync_config_load w.host w.comment w.fopen (w.stat file) w.memory file
            ≡ some (some config))
        × Ready run config
  unfolding main
  main-runs run h = after_args-runs (parse_args w.argc w.opts w.config_file) run h
