-- ===== src/Agent/Laws.antt =====
-- The mode that `main` chooses, `create_daemon_process`, and the arguments.
use sync_agent.Base.{
  map, ◌==◌, ℕ, ◌≡◌, ◌≢◌, refl, Bool, true, false, not, some, List, [], ◌∷◌, ◌++◌, arith, ◌<◌, ◌⊎◌,
  inl, inr, zero, suc, if◌then◌else◌, ◌||◌, Bytes, codes, equal_nocase,
}
use sync_agent.Base.Int.{pos, minus_one, eq_ℤ}
use sync_agent.Config.{Config}
use sync_agent.Config.Lists.{SetOps}
use sync_agent.Agent.{
  opt_c, returned, parse_loop, parse_args, Step, set_session, change_dir, clear_umask, open_null,
  dup_to, Calls, child, create_daemon_process, server, client, run_mode, choose,
}

-- With a mode and a list of servers in the configuration, `main` runs as a server exactly if the mode is
-- `server` or the address is in the list, and else as a client: the third branch, which reports a wrong
-- mode, is never taken.
pub run_mode_lem :
    {M S : Type 0} (sets : SetOps S) (config : Config M S) (mode ip : Bytes) (s : S)
    → config.mode ≡ some mode
    → config.server_list ≡ some s
    → run_mode sets config ip
      ≡ some
          (if equal_nocase mode (codes "server") || sets.set_contains ip s then server else client)
unfolding run_mode choose
run_mode_lem sets config mode ip s m l =
    rw (m, l, run_mode)
      (by_tests (equal_nocase mode (codes "server")) (equal_nocase mode (codes "client"))
        (sets.set_contains ip s))
  where
    by_tests :
        (a b c : Bool)
        → choose (if a then some true else some c) (if b then some true else some (not c))
          ≡ some (if a || c then server else client)
    by_tests true b c = refl
    by_tests false b true = ground arith
    by_tests false true false = refl
    by_tests false false false = refl

below_three : (n : ℕ) → n < 3 → (n ≡ 0) ⊎ ((n ≡ 1) ⊎ (n ≡ 2))
below_three zero h = inl refl
below_three (suc zero) h = inr (inl refl)
below_three (suc (suc zero)) h = inr (inr refl)
below_three (suc (suc (suc n))) h = absurd (omega arith)

-- If `create_daemon_process` returns 1, the process is a child; `setsid`, the `open` of the null device and
-- the three calls of `dup2` have all succeeded, so that it has a session of its own and its standard
-- input, output and error go to that device; and these were its calls, in this order.
pub create_daemon_process_lem :
    (calls : Calls) (steps : List Step)
    → create_daemon_process calls ≡ (child true, steps)
    → (calls.fork ≡ pos 0)
      × (eq_ℤ calls.setsid minus_one ≡ false)
      × (eq_ℤ calls.null_fd minus_one ≡ false)
      × ((fd : ℕ) → fd < 3 → eq_ℤ (calls.dup2 fd) minus_one ≡ false)
      × (steps
          ≡ set_session
            ∷ change_dir
            ∷ clear_umask
            ∷ open_null
            ∷ dup_to calls.null_fd 0
            ∷ dup_to calls.null_fd 1
            ∷ dup_to calls.null_fd 2
            ∷ [])
unfolding create_daemon_process
create_daemon_process_lem calls steps h = (
  ground arith,
  ground arith,
  ground arith,
  (λ fd k. elim (below_three fd k) [
    | inl e ↦ rw e (ground arith)
    | inr (inl e) ↦ rw e (ground arith)
    | inr (inr e) ↦ rw e (ground arith)
  ]),
  ground arith,
)

parse_loop-files :
    (files : List Bytes) (file config_file : Bytes) (parsed : Bool)
    → parse_loop (map opt_c (files ++ file ∷ [])) parsed config_file ≡ returned true file
unfolding parse_loop
parse_loop-files [] file config_file parsed = refl
parse_loop-files (f ∷ files) file config_file parsed = parse_loop-files files file f true

-- With `-c` options only, `parse_args` returns 1 and the last file wins; with no arguments it returns 1
-- and keeps the default file; with arguments but no options it returns 0.
pub parse_args_lem :
    (argc : ℕ) (files : List Bytes) (file config_file : Bytes)
    → (parse_args argc (map opt_c (files ++ file ∷ [])) config_file ≡ returned true file)
      × (parse_args 1 [] config_file ≡ returned true config_file)
      × (argc ≢ 1 → parse_args argc [] config_file ≡ returned false config_file)
unfolding parse_args parse_loop
parse_args_lem argc files file config_file = (
  parse_loop-files files file config_file (if argc == 1 then true else false),
  refl,
  λ n. ground arith,
)
