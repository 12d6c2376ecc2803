-- ===== src/Agent/Outcomes.antt =====
-- How the program ends, by the configuration file and the address of the machine.
mod Tests
use mathlib.Core.Path.{subst}
use sync_agent.Base.{
  ◌≡◌, ◌≢◌, ◌∙◌, sym, ap, refl, Bool, true, false, Option, none, some, List, [], ◌∷◌, ◌||◌, ◌&&◌,
  Bytes, codes, equal_nocase, if◌then◌else◌, Bool-cases, inl, inr, ℕ,
}
use sync_agent.Property.{Line, property_read}
use sync_agent.Property.Loop.{Holds}
use sync_agent.Config.{Config, sync_config_load, loaded}
use sync_agent.Config.Lists.{IsReadySet, IsReadyMap, watch_set_handler}
use sync_agent.Config.Sets.{member}
use sync_agent.Config.Parts.{parts, watch_set_handler-parts}
use sync_agent.Config.Fields.{any_value, last_value, by_value}
use sync_agent.Config.Keys.{Says, configured-Says}
use sync_agent.Config.Ending.{null, ending, Comes, sync_config_load-Comes}
use sync_agent.Agent.{server, client, returned, parse_args, run_mode, choose}
use sync_agent.Agent.Main.{
  World, Outcome, return_failure, exit_success, fault, runs, main, run_outcome, after_args,
  after_load,
}
use sync_agent.Agent.Laws.{run_mode_lem}
use sync_agent.Agent.Modes.{ComesUp, main-run_mode}
use sync_agent.Agent.Program.{program, finish, server_end, served_lem, finish_mode}
use sync_agent.Server.Run.{Resources, sync_server_run}

-- The end of the program where the mode is not `server`, by the last `server_list`.
abbrev pub by_list : Option Bytes → Bytes → Resources → Outcome
by_list none ip r = fault
by_list (some servers) ip r = if member ip (parts b',' servers) then server_end r else exit_success

-- By the last `mode` and the last `server_list`.
abbrev pub by_mode : Option Bytes → Option Bytes → Bytes → Resources → Outcome
by_mode none servers ip r = fault
by_mode (some mode) servers ip r =
    if equal_nocase mode (codes "server") then server_end r else by_list servers ip r

module _ {M S : Type 0} (w : World M S) (r : Resources) where
  by_set :
      (config : Config M S) (mode text ip : Bytes)
      → IsReadySet w.host.sets
      → config.mode ≡ some mode
      → equal_nocase mode (codes "server") ≡ false
      → config.server_list ≡ watch_set_handler w.host.sets text
      → finish (sync_server_run r) (run_outcome w (run_mode w.host.sets config ip))
        ≡ by_list (some text) ip r
  unfolding run_outcome
  by_set config mode text ip sets m n l =
      let (s, made, holds) = watch_set_handler-parts w.host.sets text sets in
      ap (λ o. finish (sync_server_run r) (run_outcome w o))
        (run_mode_lem w.host.sets config mode ip s m (l ∙ made))
      ∙ finish_mode (equal_nocase mode (codes "server") || w.host.sets.set_contains ip s) r
      ∙ rw (n, holds ip)

  not_server :
      (config : Config M S) (mode : Bytes) (servers : Option Bytes) (ip : Bytes)
      → IsReadySet w.host.sets
      → config.mode ≡ some mode
      → equal_nocase mode (codes "server") ≡ false
      → config.server_list ≡ by_value (watch_set_handler w.host.sets) servers none
      → finish (sync_server_run r) (run_outcome w (run_mode w.host.sets config ip))
        ≡ by_mode (some mode) servers ip r
  unfolding run_outcome run_mode finish by_value choose
  not_server config mode none ip sets m n l = rw (m, n, l, run_mode)
  not_server config mode (some text) ip sets m n l = by_set config mode text ip sets m n l ∙ rw n

  run_mode-end :
      (config : Config M S) (mode servers : Option Bytes) (ip : Bytes)
      → IsReadySet w.host.sets
      → config.mode ≡ mode
      → config.server_list ≡ by_value (watch_set_handler w.host.sets) servers none
      → finish (sync_server_run r) (run_outcome w (run_mode w.host.sets config ip))
        ≡ by_mode mode servers ip r
  unfolding run_outcome run_mode finish by_value choose
  run_mode-end config none servers ip sets m l = rw (m, run_mode)
  run_mode-end config (some mode) servers ip sets m l =
      elim (Bool-cases (equal_nocase mode (codes "server"))) [
        | inl e ↦ rw (m, e, run_mode) (served_lem r)
        | inr n ↦ not_server config mode servers ip sets m n l
      ]

  -- If the program comes up with a file, with memory for its sets and where the byte behind each array of
  -- `watch_set_handler` can be written, then the last `mode` and the last `server_list` say how it ends.
  -- Without a `mode` it faults. Where the last `mode` is `server`, upper and lower case alike, it runs as
  -- a server. Else without a `server_list` it faults; it runs as a server if the address of the machine
  -- is one of the parts between the commas of the last one, and if not as a client, which returns 0. As a
  -- server: without memory for it an `assert` ends the program; if the socket cannot be made, set up or
  -- bound, it returns 0; and else it faults at the array of threads.
  pub program_end :
      {file content : Bytes} {ls : List Line} {config : Config M S} {ip : Bytes}
      → ComesUp w file content ls config ip
      → IsReadySet w.host.sets
      → program w r
        ≡ by_mode
            (last_value (codes "mode") any_value ls)
            (last_value (codes "server_list") any_value ls)
            ip
            r
  unfolding program
  program_end {ls = ls} {config = config} {ip = ip} up sets =
      let says : Says w.host ls config = configured-Says w.host ls config up.accepted in
      ap (finish (sync_server_run r)) (main-run_mode w up)
      ∙ run_mode-end config (last_value (codes "mode") any_value ls)
          (last_value (codes "server_list") any_value ls) ip sets says.mode says.server_list

-- Why no configuration is loaded from a file: it is missing, there is no memory for the configuration, it
-- cannot be opened, or it has lines of which one is not accepted, or no items.
pub data NoConfig {M S : Type 0} (w : World M S) (file : Bytes) : Type 0 where
  missing : w.stat file ≡ false → NoConfig w file
  no_memory : w.memory ≡ false → NoConfig w file
  unreadable : w.fopen file ≡ none → NoConfig w file
  rejected :
      (content : Bytes) (ls : List Line)
      → IsReadyMap w.host.maps
      → IsReadySet w.host.sets
      → ((n : ℕ) → w.host.malloc n ≡ true)
      → w.stat file ≡ true
      → w.memory ≡ true
      → w.comment ≢ 0
      → w.fopen file ≡ some content
      → Holds w.comment content ls
      → ending ls false ≡ null
      → NoConfig w file

NoConfig-sync_config_load :
    {M S : Type 0} (w : World M S) (file : Bytes)
    → NoConfig w file
    → sync_config_load w.host w.comment w.fopen (w.stat file) w.memory file ≡ some none
unfolding sync_config_load property_read loaded
NoConfig-sync_config_load w file (missing e) = rw e
NoConfig-sync_config_load w file (no_memory e) = elim (Bool-cases (w.stat file)) [
  | inl s ↦ rw (s, e, property_read)
  | inr s ↦ rw s
]
NoConfig-sync_config_load w file (unreadable e) = elim (Bool-cases (w.stat file && w.memory)) [
  | inl s ↦ rw (s, e, property_read)
  | inr s ↦ rw s
]
NoConfig-sync_config_load w file
      (rejected content ls maps sets mallocs exists memory nz opened holds e) =
    rw (exists, memory)
      (subst (λ o. Comes o (sync_config_load w.host w.comment w.fopen true true file)) e
        (sync_config_load-Comes w.host maps sets mallocs w.comment w.fopen file content ls nz opened
          holds))

-- If the arguments are taken and no configuration can be loaded from the file that they name, the program
-- returns -1: where the file is missing, there is no memory for the configuration, or the file cannot be
-- opened; and where its lines are blank, comments or items, with a comment character, no `malloc` fails,
-- and the file has no item, or one whose key and value are not in the table of keys and before which no
-- value of `subscribe_path` has an entry without a colon, the byte behind each array of
-- `watch_set_handler` and `subscribe_map_handler` being writable.
pub program_rejects :
    {M S : Type 0} (w : World M S) (r : Resources) (file : Bytes)
    → parse_args w.argc w.opts w.config_file ≡ returned true file
    → NoConfig w file
    → program w r ≡ return_failure
unfolding program finish main after_args after_load
program_rejects w r file parsed none_loaded =
    ap (λ p. finish (sync_server_run r) (after_args w p)) parsed
    ∙ ap (λ o. finish (sync_server_run r) (after_load w o))
        (NoConfig-sync_config_load w file none_loaded)
