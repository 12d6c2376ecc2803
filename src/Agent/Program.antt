-- ===== src/Agent/Program.antt =====
-- The whole of `main`: the choice of the mode, then `sync_server_run` or `sync_client_run`.
use sync_agent.Base.{
  ◌≡◌, ◌∙◌, ap, refl, Bool, true, false, some, List, [], ◌∷◌, ◌||◌, ◌&&◌, Bytes, codes,
  equal_nocase, if◌then◌else◌,
}
use sync_agent.Property.{Line}
use sync_agent.Config.{Config}
use sync_agent.Config.Lists.{IsReadySet}
use sync_agent.Config.Sets.{Plain, joined, member}
use sync_agent.Config.Fields.{any_value, last_value}
use sync_agent.Agent.{server, client, neither}
use sync_agent.Agent.Main.{World, Outcome, exit_success, aborted, fault, runs, main}
use sync_agent.Agent.Modes.{ComesUp, main_mode}
use sync_agent.Server.{delete_map, free_server}
use sync_agent.Server.Run.{
  Ended, assert_failed, faulted, ended, Resources, sync_server_run, refused, sync_server_run_lem,
}

-- `sync_server_run`, and the end of `main` behind it.
unfoldable pub served : Ended → Outcome
served assert_failed = aborted
served faulted = fault
served (ended releases) = exit_success

-- The branch that the mode takes. `sync_client_run` and the report of a wrong mode only print.
unfoldable pub finish : Ended → Outcome → Outcome
unfolding served
finish e (runs server) = served e
finish e (runs client) = exit_success
finish e (runs neither) = exit_success
finish e o = o

-- `main` with the calls of the server.
unfoldable pub program : {M S : Type 0} → World M S → Resources → Outcome
unfolding finish
program w r = finish (sync_server_run r) (main w)

-- How the program ends as a server.
abbrev pub server_end : Resources → Outcome
server_end r =
    if r.malloc && r.map_new then (if refused r.sockets then exit_success else fault) else aborted

pub served_lem : (r : Resources) → served (sync_server_run r) ≡ server_end r
unfolding served
served_lem r =
    ap served (sync_server_run_lem r) ∙ by_tests (r.malloc && r.map_new) (refused r.sockets)
  where
    by_tests :
        (memory refuses : Bool)
        → served (
            if memory
            then (if refuses then ended (delete_map true ∷ free_server ∷ []) else faulted)
            else assert_failed)
          ≡ (if memory then (if refuses then exit_success else fault) else aborted)
    by_tests false refuses = refl
    by_tests true true = refl
    by_tests true false = refl

pub finish_mode :
    (b : Bool) (r : Resources)
    → finish (sync_server_run r) (runs (if b then server else client))
      ≡ (if b then server_end r else exit_success)
unfolding finish
finish_mode true r = served_lem r
finish_mode false r = refl

-- If the program comes up with a file that has an item `mode` and an item `server_list` whose last value
-- is a list of parts without commas, joined by commas: where the last `mode` is not `server` and the
-- address of the machine is none of the parts, it runs as a client and returns 0. Else it runs as a
-- server: without memory for the server an `assert` ends it; if the socket cannot be made, set up or
-- bound, it returns 0; and else it faults at the array of threads.
pub program_lem :
    {M S : Type 0} (w : World M S) (r : Resources) {file content : Bytes} {ls : List Line}
    {config : Config M S} {ip : Bytes} (mode p : Bytes) (ps : List Bytes)
    → ComesUp w file content ls config ip
    → IsReadySet w.host.sets
    → last_value (codes "mode") any_value ls ≡ some mode
    → last_value (codes "server_list") any_value ls ≡ some (joined p ps)
    → Plain (p ∷ ps)
    → program w r ≡ (
        if equal_nocase mode (codes "server") || member ip (p ∷ ps)
        then server_end r
        else exit_success)
unfolding program
program_lem w r {ip = ip} mode p ps up sets m servers plain =
    ap (finish (sync_server_run r)) (main_mode w up mode p ps sets m servers plain)
    ∙ finish_mode (equal_nocase mode (codes "server") || member ip (p ∷ ps)) r
