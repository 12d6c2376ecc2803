-- ===== src/Agent/Modes.antt =====
-- From the text of the configuration file to the mode in which `main` runs.
use sync_agent.Base.{
  ◌≡◌, ◌≢◌, ◌∙◌, ◌⊎◌, ap, refl, ◌||◌, true, false, none, some, List, ◌∷◌, Bytes, codes,
  equal_nocase, if◌then◌else◌, inl, inr,
}
use sync_agent.Log.{initial}
use sync_agent.Property.{Line}
use sync_agent.Property.Loop.{Holds}
use sync_agent.Config.{Config, zeroed, sync_config_load}
use sync_agent.Config.Lists.{IsReadySet, watch_set_handler}
use sync_agent.Config.Sets.{Plain, joined, member, watch_set_handler_lem}
use sync_agent.Config.Load.{configured, sync_config_load_lem}
use sync_agent.Config.Fields.{any_value, last_value, by_value}
use sync_agent.Config.Keys.{Says, configured-Says}
use sync_agent.Agent.{
  returned, parse_args, child, create_daemon_process, run_mode, start_log, server, client,
}
use sync_agent.Agent.Main.{World, runs, run_outcome, after_load, after_args, main}
use sync_agent.Agent.Laws.{run_mode_lem}

module _ {M S : Type 0} (w : World M S) where
  -- A file whose items give a configuration, and a system on which the program comes up with it.
  pub record ComesUp (file content : Bytes) (ls : List Line) (config : Config M S) (ip : Bytes)
      : Type 0 where
    pub parsed : parse_args w.argc w.opts w.config_file ≡ returned true file
    pub comment : w.comment ≢ 0
    pub exists : w.stat file ≡ true
    pub memory : w.memory ≡ true
    pub opened : w.fopen file ≡ some content
    pub lines : Holds w.comment content ls
    pub accepted : configured w.host ls false zeroed ≡ some (some config)
    pub logged : (start_log w.log_opened config initial).0 ≡ true
    pub detached :
        (config.daemon ≡ false)
        ⊎ ((config.daemon ≡ true) × ((create_daemon_process w.calls).0 ≡ child true))
    pub address : w.address ≡ some ip

  module _ {file content : Bytes} {ls : List Line} {config : Config M S} {ip : Bytes}
      (up : ComesUp file content ls config ip) where
    loads :
        sync_config_load w.host w.comment w.fopen (w.stat file) w.memory file ≡ some (some config)
    loads =
        rw (up.exists, up.memory)
          (sync_config_load_lem w.host w.comment w.fopen file content ls up.comment up.opened
              up.lines
            ∙ up.accepted)

    pub main-run_mode : main w ≡ run_outcome w (run_mode w.host.sets config ip)
    unfolding main after_args
    main-run_mode = ap (after_args w) up.parsed ∙ ap (after_load w) loads ∙ elim up.detached [
      | inl d ↦ rw (up.logged, d, up.address, after_load) refl
      | inr d ↦ rw (up.logged, d.0, d.1, up.address, after_load) refl
    ]

    -- If the program comes up with a file that has an item `mode` and an item `server_list` whose last
    -- value is a list of parts without commas, joined by commas, then `main` runs as a server exactly if
    -- the last `mode` is `server`, upper and lower case alike, or the address of the machine is one of the parts; and
    -- else as a client.
    pub main_mode :
        (mode p : Bytes) (ps : List Bytes)
        → IsReadySet w.host.sets
        → last_value (codes "mode") any_value ls ≡ some mode
        → last_value (codes "server_list") any_value ls ≡ some (joined p ps)
        → Plain (p ∷ ps)
        → main w
          ≡ runs
              (if equal_nocase mode (codes "server") || member ip (p ∷ ps) then server else client)
    unfolding run_outcome by_value
    main_mode mode p ps sets m servers plain =
        let says : Says w.host ls config = configured-Says w.host ls config up.accepted in
        let (s, made, holds) = watch_set_handler_lem w.host.sets sets p ps plain in
        let listed : config.server_list ≡ some s =
          says.server_list
          ∙ ap (λ o. by_value (watch_set_handler w.host.sets) o none) servers
          ∙ made in
        main-run_mode
        ∙ ap (run_outcome w) (run_mode_lem w.host.sets config mode ip s (says.mode ∙ m) listed)
        ∙ ap (λ b. runs (if equal_nocase mode (codes "server") || b then server else client))
            (holds ip)
