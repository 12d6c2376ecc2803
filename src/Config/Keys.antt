-- ===== src/Config/Keys.antt =====
-- The fields of the configuration, key by key.
use sync_agent.Base.{
  ℕ, ◌≡◌, ◌≢◌, ◌∙◌, sym, refl, true, false, none, some, Option, Bytes, arith, codes, equal_nocase,
  if◌then◌else◌, List,
}
use sync_agent.Base.Int.{pos}
use sync_agent.Log.{log_level_int}
use sync_agent.Property.{Line}
use sync_agent.Property.Loop.{Holds}
use sync_agent.Config.{
  Config, LogDst, dst_console, dst_file, Host, sync_config_item_handler, set_daemon, set_level,
  set_dst, set_file, set_mode, set_watch, set_subscribe, set_servers, zeroed, sync_config_load,
}
use sync_agent.Config.Lists.{watch_set_handler, subscribe_map_handler}
use sync_agent.Config.Load.{configured, sync_config_load_lem}
use sync_agent.Config.Fields.{IsField, any_value, not_empty, last_value, by_value, configured_field}

abbrev pub dst_of : Bytes → LogDst
dst_of v = if equal_nocase v (codes "console") then dst_console else dst_file

module _ {M S : Type 0} (host : Host M S) where
  daemon-IsField :
      IsField host (codes "daemon") any_value (λ c. c.daemon) (λ v. equal_nocase v (codes "yes"))
  unfolding sync_config_item_handler set_daemon set_level set_dst set_file set_mode set_watch
      set_subscribe set_servers equal_nocase
  daemon-IsField = record {
    changed = λ v config config' h n. ground arith;
    kept = λ k v config config' h n. ground arith;
  }

  log_level-IsField : IsField host (codes "log_level") any_value (λ c. c.log_level) log_level_int
  unfolding sync_config_item_handler set_daemon set_level set_dst set_file set_mode set_watch
      set_subscribe set_servers equal_nocase
  log_level-IsField = record {
    changed = λ v config config' h n. ground arith;
    kept = λ k v config config' h n. ground arith;
  }

  log_dst-IsField : IsField host (codes "log_dst") any_value (λ c. c.log_dst) dst_of
  unfolding sync_config_item_handler set_daemon set_level set_dst set_file set_mode set_watch
      set_subscribe set_servers equal_nocase
  log_dst-IsField = record {
    changed = λ v config config' h n. ground arith;
    kept = λ k v config config' h n. ground arith;
  }

  log_file-IsField : IsField host (codes "log_file") any_value (λ c. c.log_file) some
  unfolding sync_config_item_handler set_daemon set_level set_dst set_file set_mode set_watch
      set_subscribe set_servers equal_nocase
  log_file-IsField = record {
    changed = λ v config config' h n. ground arith;
    kept = λ k v config config' h n. ground arith;
  }

  mode-IsField : IsField host (codes "mode") any_value (λ c. c.mode) some
  unfolding sync_config_item_handler set_daemon set_level set_dst set_file set_mode set_watch
      set_subscribe set_servers equal_nocase
  mode-IsField = record {
    changed = λ v config config' h n. ground arith;
    kept = λ k v config config' h n. ground arith;
  }

  port-IsField : IsField host (codes "port") any_value (λ c. c.port) host.atoi
  unfolding sync_config_item_handler set_daemon set_level set_dst set_file set_mode set_watch
      set_subscribe set_servers equal_nocase
  port-IsField = record {
    changed = λ v config config' h n. ground arith;
    kept = λ k v config config' h n. ground arith;
  }

  watch_path-IsField : IsField host (codes "watch_path") any_value (λ c. c.watch_path) some
  unfolding sync_config_item_handler set_daemon set_level set_dst set_file set_mode set_watch
      set_subscribe set_servers equal_nocase
  watch_path-IsField = record {
    changed = λ v config config' h n. ground arith;
    kept = λ k v config config' h n. ground arith;
  }

  subscribe_path-IsField :
      IsField host (codes "subscribe_path") any_value (λ c. c.subscribe_path) some
  unfolding sync_config_item_handler set_daemon set_level set_dst set_file set_mode set_watch
      set_subscribe set_servers equal_nocase
  subscribe_path-IsField = record {
    changed = λ v config config' h n. ground arith;
    kept = λ k v config config' h n. ground arith;
  }

  watch_set-IsField :
      IsField host (codes "watch_path") not_empty (λ c. c.watch_set) (watch_set_handler host.sets)
  unfolding sync_config_item_handler set_daemon set_level set_dst set_file set_mode set_watch
      set_subscribe set_servers equal_nocase
  watch_set-IsField = record {
    changed = λ v config config' h n. ground arith;
    kept = λ k v config config' h n. ground arith;
  }

  subscribe_map-IsField :
      IsField host
        (codes "subscribe_path")
        not_empty
        (λ c. c.subscribe_map)
        (subscribe_map_handler host.maps host.sets)
  unfolding sync_config_item_handler set_daemon set_level set_dst set_file set_mode set_watch
      set_subscribe set_servers equal_nocase
  subscribe_map-IsField = record {
    changed = λ v config config' h n. ground arith;
    kept = λ k v config config' h n. ground arith;
  }

  server_list-IsField :
      IsField host
        (codes "server_list")
        any_value
        (λ c. c.server_list)
        (watch_set_handler host.sets)
  unfolding sync_config_item_handler set_daemon set_level set_dst set_file set_mode set_watch
      set_subscribe set_servers equal_nocase
  server_list-IsField = record {
    changed = λ v config config' h n. ground arith;
    kept = λ k v config config' h n. ground arith;
  }

  -- What the lines of a file say of each field, over a zeroed configuration.
  pub record Says (ls : List Line) (config : Config M S) : Type 0 where
    pub daemon :
        config.daemon
        ≡ by_value
            (λ v. equal_nocase v (codes "yes"))
            (last_value (codes "daemon") any_value ls)
            false
    pub log_level :
        config.log_level
        ≡ by_value log_level_int (last_value (codes "log_level") any_value ls) (pos 0)
    pub log_dst :
        config.log_dst ≡ by_value dst_of (last_value (codes "log_dst") any_value ls) dst_console
    pub log_file : config.log_file ≡ last_value (codes "log_file") any_value ls
    pub mode : config.mode ≡ last_value (codes "mode") any_value ls
    pub port : config.port ≡ by_value host.atoi (last_value (codes "port") any_value ls) (pos 0)
    pub watch_path : config.watch_path ≡ last_value (codes "watch_path") any_value ls
    pub subscribe_path : config.subscribe_path ≡ last_value (codes "subscribe_path") any_value ls
    pub watch_set :
        config.watch_set
        ≡ by_value (watch_set_handler host.sets) (last_value (codes "watch_path") not_empty ls) none
    pub subscribe_map :
        config.subscribe_map
        ≡ by_value
            (subscribe_map_handler host.maps host.sets)
            (last_value (codes "subscribe_path") not_empty ls)
            none
    pub server_list :
        config.server_list
        ≡ by_value
            (watch_set_handler host.sets)
            (last_value (codes "server_list") any_value ls)
            none

  by_value-some : (o : Option Bytes) → by_value some o none ≡ o
  unfolding by_value
  by_value-some none = refl
  by_value-some (some v) = refl

  pub configured-Says :
      (ls : List Line) (config : Config M S)
      → configured host ls false zeroed ≡ some (some config)
      → Says ls config
  configured-Says ls config h = record {
    daemon = configured_field host daemon-IsField ls false zeroed config h;
    log_level = configured_field host log_level-IsField ls false zeroed config h;
    log_dst = configured_field host log_dst-IsField ls false zeroed config h;
    log_file = configured_field host log_file-IsField ls false zeroed config h ∙ by_value-some _;
    mode = configured_field host mode-IsField ls false zeroed config h ∙ by_value-some _;
    port = configured_field host port-IsField ls false zeroed config h;
    watch_path =
        configured_field host watch_path-IsField ls false zeroed config h ∙ by_value-some _;
    subscribe_path =
        configured_field host subscribe_path-IsField ls false zeroed config h ∙ by_value-some _;
    watch_set = configured_field host watch_set-IsField ls false zeroed config h;
    subscribe_map = configured_field host subscribe_map-IsField ls false zeroed config h;
    server_list = configured_field host server_list-IsField ls false zeroed config h;
  }

  -- On a file that can be opened and whose lines are blank, comments or items, with a comment character,
  -- each field of the configuration that `sync_config_load` returns is what the last item with its key
  -- says, and zero if there is none; the watched set and the map of subscriptions are those of the last
  -- item with their key whose value is not empty.
  pub sync_config_load-Says :
      (c : ℕ) (fopen : Bytes → Option Bytes) (path content : Bytes) (ls : List Line)
      (config : Config M S)
      → c ≢ 0
      → fopen path ≡ some content
      → Holds c content ls
      → sync_config_load host c fopen true true path ≡ some (some config)
      → Says ls config
  sync_config_load-Says c fopen path content ls config nz e holds h =
      configured-Says ls config
        (sym (sync_config_load_lem host c fopen path content ls nz e holds) ∙ h)
