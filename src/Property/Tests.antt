-- ===== src/Property/Tests.antt =====
-- Runs of `property_read`, and its theorems at concrete files.
use sync_agent.Base.{
  ◌≢◌, Bool, ◌⊎◌, ◌↔◌, ℕ, ◌≡◌, refl, true, false, none, some, List, Option, ◌++◌, [], ◌∷◌, arith,
  codes, c_string, Bytes,
}
use sync_agent.Text.{is_comment, is_blank, all_space, trim_str, char_at, delete_comment, leading}
use sync_agent.Text.Scan.{until}
use sync_agent.Text.Strip.{trimmed}
use sync_agent.Property.{skipped, item, read_line, property_read, Callback}
use sync_agent.Property.Parse.{read_line_lem, read_line_no_equals}
use sync_agent.Property.Termination.{Faulty, property_read_returns, default_read_faults}
use sync_agent.Property.Failing.{
  running, returned, property_read_failing, property_read_failing_lem,
}
use sync_agent.Property.Loop.{
  blank, comment, entry, Holds, ended, unended, run_items, property_read_lem,
}

-- Collects the items, newest first.
abbrev collect : Callback (List (Bytes × Bytes))
collect key value items = (true, (key, value) ∷ items)

abbrev config : Bytes
config = codes "# mode\n\n mode = server # or client\nport=9901"

abbrev disk : Bytes → Option Bytes
disk name = some config

reads_config :
    property_read b'#' disk (some (codes "sync.conf")) (some collect) []
    ≡ some (true, (codes "port", codes "9901") ∷ (codes "mode", codes "server") ∷ [])
unfolding property_read trim_str char_at delete_comment is_comment is_blank c_string
reads_config = refl

no_file : property_read {S = ℕ} b'#' (λ n. none) (some (codes "x")) none 3 ≡ some (false, 3)
unfolding property_read
no_file = refl

read_line_lem_example :
    read_line b'#' (codes " mode = server # x\n" ++ 0 ∷ [])
    ≡ some (item (trimmed (codes " mode ")) (trimmed (codes " server ")))
unfolding until all_space
read_line_lem_example =
    read_line_lem b'#' (codes " mode = server # x\n") (codes " mode ") (codes " server ") []
      (omega arith) (omega arith) refl (omega arith) refl

read_line_no_equals_example : read_line b'#' (codes "daemon\n" ++ 0 ∷ []) ≡ none
unfolding until all_space leading
read_line_no_equals_example =
    read_line_no_equals b'#' (codes "daemon\n") [] (omega arith) (omega arith) (omega arith) refl
      refl

config-Holds : Holds b'#' config (
    skipped
    ∷ skipped
    ∷ item (trimmed (codes " mode ")) (trimmed (codes " server "))
    ∷ item (trimmed (codes "port")) (trimmed (codes "9901"))
    ∷ [])
unfolding until all_space is_comment is_blank
config-Holds =
    ended (codes "# mode") refl (omega arith) (omega arith) (omega arith) (comment refl) (
      ended [] refl (omega arith) (omega arith) (omega arith) (blank refl) (
        ended (codes " mode = server # or client") refl (omega arith) (omega arith) (omega arith)
          (entry (codes " mode ") (codes " server ") refl (omega arith) refl)
          (unended (cc) (omega arith) (omega arith) (omega arith)
            (entry (codes "port") (codes "9901") refl (omega arith) refl))))

property_read_lem_example :
    property_read b'#' disk (some (codes "sync.conf")) (some collect) []
    ≡ some (
        run_items collect
          (skipped
            ∷ skipped
            ∷ item (trimmed (codes " mode ")) (trimmed (codes " server "))
            ∷ item (trimmed (codes "port")) (trimmed (codes "9901"))
            ∷ [])
          false
          [])
property_read_lem_example =
    property_read_lem b'#' disk (codes "sync.conf") config (some collect) _ [] (omega arith) refl
      config-Holds

property_read_returns_example :
    Faulty b'#' config
    ⊎ ((r : Bool × List (Bytes × Bytes)) × (property_read b'#' disk
            (some (codes "sync.conf"))
            (some collect)
            []
          ≡ some r))
property_read_returns_example =
    property_read_returns b'#' disk (codes "sync.conf") config (some collect) [] refl

default_read_faults_example :
    property_read {S = ℕ} b'#' (λ n. some (codes "daemon\n")) (some (codes "sync.conf")) none 0
      ≡ none
    ↔ Faulty b'#' (codes "daemon\n")
default_read_faults_example =
    default_read_faults b'#' (λ n. some (codes "daemon\n")) (codes "sync.conf") (codes "daemon\n") 0
      refl

property_read_failing_lem_example :
    let disk : Bytes → Option Bytes = λ n. some [] in
    ((r : Bool) (s' : ℕ)
      → property_read_failing {S = ℕ} b'#' disk 9 (some (codes "conf")) none 3 ≢ returned r s')
    × (◌≡◌ {A = Bytes} [] []
        → property_read_failing {S = ℕ} b'#' disk 9 (some (codes "conf")) none 3 ≡ running)
property_read_failing_lem_example =
    property_read_failing_lem b'#' (λ n. some []) 9 (codes "conf") [] none 3 refl (λ k v t. refl)

-- A directory can be opened and not be read.
directory_hangs :
    property_read_failing {S = ℕ} b'#' (λ n. some []) 100 (some (codes "conf")) none 3 ≡ running
unfolding property_read_failing
directory_hangs = refl
