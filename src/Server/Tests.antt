-- ===== src/Server/Tests.antt =====
-- The theorems of the server at concrete calls.
use sync_agent.Base.{some, ◌≡◌, refl, true, false, none, [], ◌∷◌, ◌++◌, inl}
use sync_agent.Base.Int.{pos}
use sync_agent.Server.{
  cpu_count, client_connection_handler, Round, sync_server_listen, Sockets, sync_server_start,
}
use sync_agent.Server.Held.{act_all, held}
use sync_agent.Server.Run.{Resources, faulted, sync_server_run, sync_server_run_lem}
use sync_agent.Server.Laws.{
  sync_server_start_faults, connections, sync_server_listen_lem, client_connection_handler_lem,
}

abbrev sockets : Sockets
sockets = record { socket = pos 3; setsockopt = pos 0; bind = pos 0 }

sync_server_start_faults_example : sync_server_start sockets (cpu_count (pos 4)) ≡ none
sync_server_start_faults_example = sync_server_start_faults sockets (pos 4) refl refl refl

abbrev last_round : Round
last_round = record { main_continue = false; accepted = pos 9 }

sync_server_listen_lem_example :
    sync_server_listen (connections (pos 5 ∷ pos 6 ∷ []) ++ last_round ∷ [])
    ≡ (pos 5 ∷ pos 6 ∷ [], true)
sync_server_listen_lem_example =
    sync_server_listen_lem (pos 5 ∷ pos 6 ∷ []) last_round [] (refl, (refl, tt)) (inl refl)

client_connection_handler_lem_example :
    (act_all (client_connection_handler true (pos 7) (pos 5)) (held (pos 5) true true true)
      ≡ some (held (pos 5) false false false))
    × (act_all (client_connection_handler false (pos 7) (pos 5)) (held (pos 5) true false true)
        ≡ some (held (pos 5) true false true))
client_connection_handler_lem_example = client_connection_handler_lem (pos 7) (pos 5)

abbrev resources : Resources
resources = record { sysconf = pos 4; malloc = true; map_new = true; sockets = sockets }

sync_server_run_lem_example : sync_server_run resources ≡ faulted
sync_server_run_lem_example = sync_server_run_lem resources
