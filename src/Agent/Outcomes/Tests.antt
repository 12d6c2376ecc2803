-- ===== src/Agent/Outcomes/Tests.antt =====
-- The program on a file that is rejected.
use sync_agent.Base.{List, arith, some}
use sync_agent.Base.{◌≡◌, refl, true, some, [], ◌∷◌, Bytes, codes, equal_nocase}
use sync_agent.Base.Int.{pos, minus_one}
use sync_agent.Agent.{parse_args}
use sync_agent.Agent.Main.{World}
use sync_agent.Agent.Program.{program}
use sync_agent.Agent.Outcomes.{rejected, program_rejects}
use sync_agent.Config.Accept.{accepts}
use sync_agent.Agent.Main.{return_failure}
use sync_agent.Server.Run.{Resources}
use sync_agent.Text.{all_space, leading}
use sync_agent.Text.Scan.{until}
use sync_agent.Text.Strip.{trimmed, skip_spaces}
use sync_agent.Property.{Line, item}
use sync_agent.Property.Loop.{Holds, ended, unended, entry}
use sync_agent.Config.Stores.{list_set, list_set-IsReadySet, Table, table_map, table_map-IsReadyMap}

-- A file with a key that is not in the table.
abbrev bad_content : Bytes
bad_content = codes "mode=auto\nservers=10.0.0.1"

abbrev bad_lines : List Line
bad_lines =
    item (trimmed (codes "mode")) (trimmed (codes "auto\n"))
    ∷ item (trimmed (codes "servers")) (trimmed (codes "10.0.0.1"))
    ∷ []

bad_content-Holds : Holds b'#' bad_content bad_lines
unfolding until all_space
bad_content-Holds =
    ended (codes "mode=auto") refl (omega arith) (omega arith) (omega arith)
      (entry (codes "mode") (codes "auto\n") refl (omega arith) refl)
      (unended (cc) (omega arith) (omega arith) (omega arith)
        (entry (codes "servers") (codes "10.0.0.1") refl (omega arith) refl))

abbrev bad_world : World Table (List Bytes)
bad_world = record {
  host = record { sets = list_set; maps = table_map; atoi = λ s. pos 9901; malloc = λ n. true };
  argc = 1;
  opts = [];
  config_file = codes "sync.conf";
  comment = b'#';
  fopen = λ file. some bad_content;
  stat = λ file. true;
  memory = true;
  log_opened = pos 5;
  calls = record { fork = pos 0; setsid = pos 1; null_fd = pos 4; dup2 = λ fd. pos fd };
  address = some (codes "10.0.0.2");
}

abbrev resources : Resources
resources = record {
  sysconf = pos 4;
  malloc = true;
  map_new = true;
  sockets = record { socket = pos 3; setsockopt = pos 0; bind = minus_one };
}

program_rejects_example : program bad_world resources ≡ return_failure
unfolding parse_args skip_spaces equal_nocase leading accepts
program_rejects_example = program_rejects bad_world resources (codes "sync.conf") refl (
    rejected bad_content bad_lines table_map-IsReadyMap list_set-IsReadySet (λ n. refl) refl refl
      (omega arith) refl bad_content-Holds refl)
