-- ===== src/Agent/Tests.antt =====
-- Runs of the start of the program, and its theorems at concrete values.
use sync_agent.Base.{List, arith, inl, some}
use sync_agent.Base.{
  c_string, none, ℕ, ◌≡◌, ◌≢◌, refl, true, false, some, [], ◌∷◌, ◌++◌, Bytes, codes, equal,
  if◌then◌else◌, map, ◌||◌, equal_nocase,
}
use sync_agent.Base.{◌<◌}
use sync_agent.Base.Int.{eq_ℤ, pos, minus_one}
use sync_agent.Config.{sync_config_load, Config, zeroed}
use sync_agent.Config.Lists.{SetOps, IsReadySet, watch_set_handler}
use sync_agent.Agent.{
  start_log, opt_c, returned, parse_args, Calls, set_session, change_dir, clear_umask, open_null,
  dup_to, create_daemon_process, server, client, run_mode, sigterm, signal_handle,
}
use sync_agent.Property.{property_read}
use sync_agent.Text.{is_blank, is_comment, trim_str, delete_comment, char_at}
use sync_agent.Agent.Main.{World, main}
use sync_agent.Agent.Start.{Ready, main-runs}
use sync_agent.Agent.Modes.{ComesUp, main_mode}
use sync_agent.Agent.Program.{program, server_end, program_lem}
use sync_agent.Agent.Outcomes.{by_mode, program_end}
use sync_agent.Config.Fields.{any_value}
use sync_agent.Server.Run.{Resources}
use sync_agent.Text.{all_space, leading}
use sync_agent.Text.Scan.{until}
use sync_agent.Text.Strip.{trimmed, skip_spaces}
use sync_agent.Property.{Line, item}
use sync_agent.Property.Loop.{Holds, ended, unended, entry}
use sync_agent.Config.{sync_config_item_handler}
use sync_agent.Config.Sets.{member}
use sync_agent.Config.Load.{configured}
use sync_agent.Config.Fields.{last_value}
use sync_agent.Agent.Main.{runs, exit_success}
use sync_agent.Agent.Laws.{run_mode_lem, create_daemon_process_lem, parse_args_lem}

abbrev one_server : SetOps Bytes
one_server = record {
  set_malloc = true;
  spare = λ n. true;
  set_init = [];
  set_add = λ x s. x;
  set_contains = equal;
}

abbrev config : Config ℕ Bytes
config = record zeroed { mode = some (codes "auto"); server_list = some (codes "10.0.0.1") }

run_mode_lem_example :
    run_mode one_server config (codes "10.0.0.1")
    ≡ some (
        if equal_nocase (codes "auto") (codes "server")
          || equal (codes "10.0.0.1") (codes "10.0.0.1")
        then server
        else client)
run_mode_lem_example =
    run_mode_lem one_server config (codes "auto") (codes "10.0.0.1") (codes "10.0.0.1") refl refl

abbrev calls : Calls
calls = record { fork = pos 0; setsid = pos 1; null_fd = pos 4; dup2 = λ fd. pos fd }

create_daemon_process_lem_example :
    (calls.fork ≡ pos 0)
    × (eq_ℤ calls.setsid minus_one ≡ false)
    × (eq_ℤ calls.null_fd minus_one ≡ false)
    × ((fd : ℕ) → fd < 3 → eq_ℤ (calls.dup2 fd) minus_one ≡ false)
    × (set_session
          ∷ change_dir
          ∷ clear_umask
          ∷ open_null
          ∷ dup_to (pos 4) 0
          ∷ dup_to (pos 4) 1
          ∷ dup_to (pos 4) 2
          ∷ []
        ≡ set_session
          ∷ change_dir
          ∷ clear_umask
          ∷ open_null
          ∷ dup_to calls.null_fd 0
          ∷ dup_to calls.null_fd 1
          ∷ dup_to calls.null_fd 2
          ∷ [])
unfolding create_daemon_process
create_daemon_process_lem_example =
    create_daemon_process_lem calls
      (set_session
        ∷ change_dir
        ∷ clear_umask
        ∷ open_null
        ∷ dup_to (pos 4) 0
        ∷ dup_to (pos 4) 1
        ∷ dup_to (pos 4) 2
        ∷ [])
      refl

parse_args_lem_example :
    (parse_args 5 (map opt_c (codes "a" ∷ [] ++ codes "b" ∷ [])) (codes "d")
      ≡ returned true (codes "b"))
    × (parse_args 1 [] (codes "d") ≡ returned true (codes "d"))
    × (◌≢◌ {A = ℕ} 5 1 → parse_args 5 [] (codes "d") ≡ returned false (codes "d"))
parse_args_lem_example = parse_args_lem 5 (codes "a" ∷ []) (codes "b") (codes "d")

stops : signal_handle sigterm true ≡ some false
unfolding signal_handle
stops = refl

-- A program that is started as a server by its configuration.
abbrev world : World ℕ Bytes
world = record {
  host = record {
    sets = one_server;
    maps = record {
      host_malloc = λ n. true;
      set_malloc = true;
      spare = λ n. true;
      hashmap_new = 0;
      hashmap_find = λ k m. none;
      hashmap_add = λ k v m. m;
    };
    atoi = λ s. pos 9901;
    malloc = λ n. true;
  };
  argc = 1;
  opts = [];
  config_file = codes "sync.conf";
  comment = b'#';
  fopen = λ file. some (codes "daemon = yes\nmode = server");
  stat = λ file. true;
  memory = true;
  log_opened = pos 5;
  calls = calls;
  address = some (codes "10.0.0.1");
}

main-runs_example :
    (file : Bytes) × (config : Config ℕ Bytes) × (parse_args 1 [] (codes "sync.conf")
      ≡ returned true file)
    × (sync_config_load world.host b'#' world.fopen true true file ≡ some (some config))
    × Ready world server config
unfolding main create_daemon_process run_mode property_read is_blank c_string is_comment trim_str
    delete_comment char_at start_log parse_args sync_config_load
main-runs_example = main-runs world server refl

-- A program whose file names its servers.
abbrev content : Bytes
content = codes "mode=auto\nserver_list=10.0.0.1,10.0.0.2"

abbrev listed_world : World (List ℕ) (List Bytes)
listed_world = record {
  host = record {
    sets = record {
      set_malloc = true;
      spare = λ n. true;
      set_init = [];
      set_add = λ x s. x ∷ s;
      set_contains = member;
    };
    maps = record {
      host_malloc = λ n. true;
      set_malloc = true;
      spare = λ n. true;
      hashmap_new = [];
      hashmap_find = λ k m. none;
      hashmap_add = λ k v m. m;
    };
    atoi = λ s. pos 9901;
    malloc = λ n. true;
  };
  argc = 1;
  opts = [];
  config_file = codes "sync.conf";
  comment = b'#';
  fopen = λ file. some content;
  stat = λ file. true;
  memory = true;
  log_opened = pos 5;
  calls = calls;
  address = some (codes "10.0.0.2");
}

abbrev lines : List Line
lines =
    item (trimmed (codes "mode")) (trimmed (codes "auto\n"))
    ∷ item (trimmed (codes "server_list")) (trimmed (codes "10.0.0.1,10.0.0.2"))
    ∷ []

content-Holds : Holds b'#' content lines
unfolding until all_space
content-Holds =
    ended (codes "mode=auto") refl (omega arith) (omega arith) (omega arith)
      (entry (codes "mode") (codes "auto\n") refl (omega arith) refl)
      (unended (cc) (omega arith) (omega arith) (omega arith)
        (entry (codes "server_list") (codes "10.0.0.1,10.0.0.2") refl (omega arith) refl))

abbrev listed_config : Config (List ℕ) (List Bytes)
listed_config = record zeroed {
  mode = some (codes "auto");
  server_list = some (codes "10.0.0.2" ∷ codes "10.0.0.1" ∷ []);
}

listed_ComesUp :
    ComesUp listed_world (codes "sync.conf") content lines listed_config (codes "10.0.0.2")
unfolding parse_args configured start_log sync_config_item_handler all_space leading skip_spaces
    watch_set_handler
listed_ComesUp = record {
  parsed = refl;
  comment = omega arith;
  exists = refl;
  memory = refl;
  opened = refl;
  lines = content-Holds;
  accepted = refl;
  logged = refl;
  detached = inl refl;
  address = refl;
}

listed_set-IsReadySet : IsReadySet listed_world.host.sets
unfolding member
listed_set-IsReadySet = record {
  hash_set = record { contains-init = λ x. refl; contains-add = λ x y s. refl };
  set_mallocs = refl;
  spares = λ n. refl;
}

main_mode_example :
    main listed_world
    ≡ runs (
        if equal_nocase (codes "auto") (codes "server")
          || member (codes "10.0.0.2") (codes "10.0.0.1" ∷ codes "10.0.0.2" ∷ [])
        then server
        else client)
unfolding last_value all_space leading skip_spaces equal_nocase
main_mode_example =
    main_mode listed_world listed_ComesUp (codes "auto") (codes "10.0.0.1") (codes "10.0.0.2" ∷ [])
      listed_set-IsReadySet refl refl (omega arith)

abbrev resources : Resources
resources = record {
  sysconf = pos 4;
  malloc = true;
  map_new = true;
  sockets = record { socket = pos 3; setsockopt = pos 0; bind = minus_one };
}

program_lem_example : program listed_world resources ≡ (
    if equal_nocase (codes "auto") (codes "server")
      || member (codes "10.0.0.2") (codes "10.0.0.1" ∷ codes "10.0.0.2" ∷ [])
    then server_end resources
    else exit_success)
unfolding last_value all_space leading skip_spaces equal_nocase
program_lem_example =
    program_lem listed_world resources (codes "auto") (codes "10.0.0.1") (codes "10.0.0.2" ∷ [])
      listed_ComesUp listed_set-IsReadySet refl refl (omega arith)

program_end_example :
    program listed_world resources
    ≡ by_mode
        (last_value (codes "mode") any_value lines)
        (last_value (codes "server_list") any_value lines)
        (codes "10.0.0.2")
        resources
program_end_example = program_end listed_world resources listed_ComesUp listed_set-IsReadySet
