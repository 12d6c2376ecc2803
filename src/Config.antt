-- ===== src/Config.antt =====
-- src/agent/sync_config.c and sync_config.h: the configuration, read by `property_read`. The hash set,
-- the hash map and `atoi` are interfaces. What the handlers log is left out.
-- The byte that the list parsers store one past their arrays is left out too; the calls of `malloc` that
-- the code does not check are taken not to fail.
pub mod Lists
pub mod Sets
pub mod Parts
pub mod Entries
pub mod Subscribe
pub mod Subscribed
pub mod Listing
pub mod Served
pub mod Reference
pub mod Reading
pub mod Order
pub mod Load
pub mod Fields
pub mod Keys
pub mod Accept
pub mod Verdict
pub mod Ending
pub mod Dump
pub mod Stores
mod Runs
mod Tests
use sync_agent.Base.{
  ℕ, zero, suc, ◌+◌, ◌-◌, Bool, true, false, Option, none, some, List, [], ◌∷◌, ◌++◌, ltb, leb,
  ◌==◌, if◌then◌else◌, length, take, drop, set, get_elem?, Bytes, codes, equal, equal_nocase, ◌≡◌,
  ◌||◌, ◌&&◌,
}
use sync_agent.Base.Int.{ℤ, pos, negsuc, minus_one, eq_ℤ}
use sync_agent.Property.{Callback, property_read, ◌>>=◌}
use sync_agent.Log.{log_level_int}
use sync_agent.Config.Lists.{
  SetOps, MapOps, Subscriptions, watch_set_handler, subscribe_map_handler,
}

-- The values of `log_dst` that a file can set.
pub data LogDst : Type 0 where
  dst_console dst_file : LogDst

-- `sync_config_t`. Pointers are options.
pub record Config (M S : Type 0) : Type 0 where
  pub daemon : Bool
  pub log_level : ℤ
  pub log_dst : LogDst
  pub log_file : Option Bytes
  pub mode : Option Bytes
  pub port : ℤ
  pub watch_path : Option Bytes
  pub subscribe_path : Option Bytes
  pub watch_set : Option S
  pub subscribe_map : Option (Subscriptions M S)
  pub server_list : Option S

-- A configuration after `bzero`.
abbrev pub zeroed : {M S : Type 0} → Config M S
zeroed = record {
  daemon = false;
  log_level = pos 0;
  log_dst = dst_console;
  log_file = none;
  mode = none;
  port = pos 0;
  watch_path = none;
  subscribe_path = none;
  watch_set = none;
  subscribe_map = none;
  server_list = none;
}

-- What the handler is given by its surroundings: the set and the map, `atoi`, and whether `malloc` of a
-- number of bytes succeeds.
pub record Host (M S : Type 0) : Type 0 where
  pub sets : SetOps S
  pub maps : MapOps M
  pub atoi : Bytes → ℤ
  pub malloc : ℕ → Bool

module _ {M S : Type 0} (host : Host M S) where
  -- The copy of a value, and whether there was memory for it.
  abbrev pub copy_of : Bytes → Option Bytes
  copy_of value = if host.malloc (length value + 1) then some value else none

  -- The branch of `daemon`.
  unfoldable pub set_daemon : Bytes → Config M S → Bool × Config M S
  unfolding equal_nocase
  set_daemon value config =
      if equal_nocase value (codes "yes")
      then (true, record config { daemon = true })
      else if equal_nocase value (codes "no")
      then (true, record config { daemon = false })
      else (false, config)

  -- The branch of `log_level`.
  unfoldable pub set_level : Bytes → Config M S → Bool × Config M S
  set_level value config = (
    if eq_ℤ (log_level_int value) minus_one then false else true,
    record config { log_level = log_level_int value },
  )

  -- The branch of `log_dst`.
  unfoldable pub set_dst : Bytes → Config M S → Bool × Config M S
  set_dst value config =
      if equal_nocase value (codes "console")
      then (true, record config { log_dst = dst_console })
      else if equal_nocase value (codes "file")
      then (true, record config { log_dst = dst_file })
      else (false, config)

  -- The branches of the other strings.
  unfoldable pub set_file : Option Bytes → Config M S → Bool × Config M S
  set_file none config = (false, record config { log_file = none })
  set_file (some value) config = (true, record config { log_file = some value })

  unfoldable pub set_mode : Option Bytes → Config M S → Bool × Config M S
  set_mode none config = (false, record config { mode = none })
  set_mode (some value) config = (true, record config { mode = some value })

  -- The branch of `watch_path`; `none` is a fault.
  unfoldable pub set_watch : Option Bytes → Config M S → Option (Bool × Config M S)
  set_watch none config = some (false, record config { watch_path = none })
  set_watch (some []) config = some (true, record config { watch_path = some [] })
  set_watch (some (x ∷ xs)) config = do
    s ← watch_set_handler host.sets (x ∷ xs)
    some (true, record config { watch_path = some (x ∷ xs); watch_set = some s })

  -- The branch of `subscribe_path`.
  unfoldable pub set_subscribe : Option Bytes → Config M S → Option (Bool × Config M S)
  set_subscribe none config = some (false, record config { subscribe_path = none })
  set_subscribe (some []) config = some (true, record config { subscribe_path = some [] })
  set_subscribe (some (x ∷ xs)) config = do
    subs ← subscribe_map_handler host.maps host.sets (x ∷ xs)
    some (true, record config { subscribe_path = some (x ∷ xs); subscribe_map = some subs })

  -- The branch of `server_list`.
  unfoldable pub set_servers : Bytes → Config M S → Option (Bool × Config M S)
  set_servers value config = do
    s ← watch_set_handler host.sets value
    some (true, record config { server_list = some s })

  -- `sync_config_item_handler`; `none` is a fault of the list parsers.
  unfoldable pub sync_config_item_handler : Bytes → Bytes → Config M S → Option (Bool × Config M S)
  unfolding set_daemon set_level set_dst set_file set_mode set_watch set_subscribe set_servers
  sync_config_item_handler key value config =
      if equal_nocase key (codes "daemon")
      then some (set_daemon value config)
      else if equal_nocase key (codes "log_level")
      then some (set_level value config)
      else if equal_nocase key (codes "log_dst")
      then some (set_dst value config)
      else if equal_nocase key (codes "log_file")
      then some (set_file (copy_of value) config)
      else if equal_nocase key (codes "mode")
      then some (set_mode (copy_of value) config)
      else if equal_nocase key (codes "port")
      then some (true, record config { port = host.atoi value })
      else if equal_nocase key (codes "watch_path")
      then set_watch (copy_of value) config
      else if equal_nocase key (codes "subscribe_path")
      then set_subscribe (copy_of value) config
      else if equal_nocase key (codes "server_list")
      then set_servers value config
      else some (false, config)

  -- The handler as a callback of `property_read`, on a configuration or a fault.
  unfoldable pub handler : Callback (Option (Config M S))
  unfolding sync_config_item_handler
  handler key value none = (false, none)
  handler key value (some config) = elim (sync_config_item_handler key value config) [
    | none ↦ (false, none)
    | some (more, config') ↦ (more, some config')
  ]

  -- The end of `sync_config_load`: NULL, the configuration, or a fault.
  unfoldable pub loaded : Option (Bool × Option (Config M S)) → Option (Option (Config M S))
  loaded none = none
  loaded (some (result, none)) = none
  loaded (some (true, some config)) = some (some config)
  loaded (some (false, some config)) = some none

  -- `sync_config_load` with the comment character `c`, where `stat` says whether the file exists and
  -- `malloc_config` whether there is memory.
  unfoldable pub sync_config_load :
      (c : ℕ) (fopen : Bytes → Option Bytes) (stat malloc_config : Bool)
      → Bytes
      → Option (Option (Config M S))
  unfolding handler loaded
  sync_config_load c fopen stat malloc_config path =
      if stat && malloc_config
      then loaded (property_read c fopen (some path) (some handler) (some zeroed))
      else some none

-- What `sync_config_free` releases besides the configuration itself.
pub data Part : Type 0 where
  string_of : Bytes → Part
  watch_set subscribe_map server_list : Part

abbrev pub when : {A : Type 0} → Option A → Part → List Part
when none p = []
when (some a) p = p ∷ []

abbrev pub string_parts : Option Bytes → List Part
string_parts none = []
string_parts (some s) = string_of s ∷ []

-- `sync_config_free`: what it releases, in order.
unfoldable pub sync_config_free : {M S : Type 0} → Option (Config M S) → List Part
sync_config_free none = []
sync_config_free (some config) =
    string_parts config.log_file
    ++ (string_parts config.mode
        ++ (string_parts config.watch_path
            ++ (string_parts config.subscribe_path
                ++ (when config.watch_set watch_set
                    ++ (when config.subscribe_map subscribe_map
                        ++ when config.server_list server_list)))))
