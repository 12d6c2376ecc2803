-- ===== src/Server/Run.antt =====
-- `sync_server_run` of src/agent/sync_agent.c: the server from its start to its end.
use sync_agent.Base.{
  ◌≡◌, ◌∙◌, ap, refl, Bool, true, false, ◌&&◌, ◌||◌, Option, none, some, List, [], ◌∷◌,
  if◌then◌else◌, Bool-cases, inl, inr,
}
use sync_agent.Base.Int.{ℤ, minus_one, eq_ℤ}
use sync_agent.Server.{
  cpu_count, SyncServer, sync_server_init, Release, delete_map, free_server, sync_server_destroy,
  Sockets, sync_server_start,
}
use sync_agent.Server.Laws.{sync_server_start_faults}

-- How it ends: the `assert` fails, there is a fault, or it returns and has released something.
pub data Ended : Type 0 where
  assert_failed faulted : Ended
  ended : List Release → Ended

-- What the system gives the server.
pub record Resources : Type 0 where
  pub sysconf : ℤ
  pub malloc : Bool
  pub map_new : Bool
  pub sockets : Sockets

unfoldable pub destroyed : Option (List Release) → Ended
destroyed none = faulted
destroyed (some releases) = ended releases

unfoldable pub after_start : Option (Option (List Bool)) → Option SyncServer → Ended
unfolding destroyed sync_server_destroy
after_start none server = faulted
after_start (some threads) server = destroyed (sync_server_destroy server)

-- `sync_server_run`
unfoldable pub sync_server_run : Resources → Ended
unfolding after_start sync_server_init sync_server_start
sync_server_run r =
    let (result, server) = sync_server_init r.malloc r.map_new in
    if result
    then after_start (sync_server_start r.sockets (cpu_count r.sysconf)) server
    else assert_failed

-- Some call of `sync_server_start` for its socket fails.
abbrev pub refused : Sockets → Bool
refused s = eq_ℤ s.socket minus_one || (eq_ℤ s.setsockopt minus_one || eq_ℤ s.bind minus_one)

refused_lem :
    (sockets : Sockets) (sysconf : ℤ)
    → sync_server_start sockets (cpu_count sysconf) ≡ (if refused sockets then some none else none)
unfolding sync_server_start
refused_lem sockets sysconf = elim (Bool-cases (eq_ℤ sockets.socket minus_one)) [
  | inl a ↦ rw a
  | inr a ↦ elim (Bool-cases (eq_ℤ sockets.setsockopt minus_one)) [
    | inl b ↦ rw (a, b)
    | inr b ↦ elim (Bool-cases (eq_ℤ sockets.bind minus_one)) [
      | inl c ↦ rw (a, b, c)
      | inr c ↦ sync_server_start_faults sockets sysconf a b c ∙ rw (a, b, c)
    ]
  ]
]

by_start :
    (refuses : Bool)
    → after_start (if refuses then some none else none) (some (record { path_ip_set = true }))
      ≡ (if refuses then ended (delete_map true ∷ free_server ∷ []) else faulted)
unfolding after_start
by_start true = refl
by_start false = refl

by_memory :
    (malloc map_new : Bool) (sysconf : ℤ) (sockets : Sockets)
    → sync_server_run
        (record { sysconf = sysconf; malloc = malloc; map_new = map_new; sockets = sockets })
      ≡ (if malloc && map_new
          then (if refused sockets then ended (delete_map true ∷ free_server ∷ []) else faulted)
          else assert_failed)
unfolding sync_server_run
by_memory false map_new sysconf sockets = refl
by_memory true false sysconf sockets = refl
by_memory true true sysconf sockets =
    ap (λ o. after_start o (some (record { path_ip_set = true }))) (refused_lem sockets sysconf)
    ∙ by_start (refused sockets)

-- `sync_server_run` in all cases: without memory for `_server_t` or its map the `assert` ends the program;
-- if the socket cannot be made, set up or bound, the call returns and has released the map and
-- `_server_t`, once each, in this order; else it faults, at the array of threads.
pub sync_server_run_lem :
    (r : Resources)
    → sync_server_run r ≡ (
        if r.malloc && r.map_new
        then (if refused r.sockets then ended (delete_map true ∷ free_server ∷ []) else faulted)
        else assert_failed)
sync_server_run_lem r = by_memory r.malloc r.map_new r.sysconf r.sockets
