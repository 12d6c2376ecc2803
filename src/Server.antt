-- ===== src/Server.antt =====
-- src/agent/sync_server.c: the server. The results of system calls and of the thread library are
-- arguments; what the code logs is left out.
pub mod Held
pub mod Laws
pub mod Run
pub mod System
mod Tests
use sync_agent.Base.{
  ℕ, zero, suc, ◌+◌, Bool, true, false, Option, none, some, List, [], ◌∷◌, ◌++◌, ltb, if◌then◌else◌,
  length, set, get_elem?, replicate, Bytes, codes,
}
use sync_agent.Base.Int.{ℤ, pos, negsuc, minus_one, ltb_ℤ, eq_ℤ}

-- `cpu_num` after `sync_server_init`, from the result of `sysconf`.
unfoldable pub cpu_count : ℤ → ℕ
cpu_count (pos zero) = 1
cpu_count (pos (suc n)) = suc n
cpu_count (negsuc n) = 1

-- `sync_server_t`: whether its map is there, or NULL.
pub record SyncServer : Type 0 where
  pub path_ip_set : Bool

-- `sync_server_init`, from the results of `malloc` and `hashmap_new`: what it returns, and `_server_t`,
-- where `none` is NULL.
unfoldable pub sync_server_init : (malloc map_new : Bool) → Bool × Option SyncServer
sync_server_init malloc map_new =
    if malloc
    then (if map_new then true else false, some (record { path_ip_set = map_new }))
    else (false, none)

-- What the end of the server releases: the map of `_server_t`, and `_server_t`.
pub data Release : Type 0 where
  delete_map : Bool → Release
  free_server : Release

-- `sync_server_destroy`; `none` is a NULL pointer followed.
unfoldable pub sync_server_destroy : Option SyncServer → Option (List Release)
sync_server_destroy none = none
sync_server_destroy (some s) = some (delete_map s.path_ip_set ∷ free_server ∷ [])

-- What the server does to its sockets and its memory.
pub data Action : Type 0 where
  receive : ℤ → Action
  send : ℤ → Bytes → Action
  close : ℤ → Action
  free_buffer : Action
  free_connection : ℤ → Action

abbrev pub reply : Bytes
reply = codes "HTTP/1.0 200 OK\r\nContent-length: 11\r\n\r\nsync_server"

-- `client_connection_handler` on the connection of a descriptor, from the results of `malloc` and
-- `lthread_recv`.
unfoldable pub client_connection_handler : (malloc : Bool) (received : ℤ) → ℤ → List Action
client_connection_handler false received fd = []
client_connection_handler true received fd =
    let ending : List Action = close fd ∷ free_buffer ∷ free_connection fd ∷ [] in
    if ltb_ℤ received (pos 0) then receive fd ∷ ending else receive fd ∷ send fd reply ∷ ending

-- One round of the loop of `sync_server_listen`: the value of `_main_continue` and the result of
-- `lthread_accept`.
pub record Round : Type 0 where
  pub main_continue : Bool
  pub accepted : ℤ

-- `sync_server_listen` over the rounds that come: the descriptors of the handlers that it creates, and
-- whether it has returned.
unfoldable pub sync_server_listen : List Round → List ℤ × Bool
sync_server_listen [] = ([], false)
sync_server_listen (r ∷ rounds) =
    let (handled, ended) = sync_server_listen rounds in
    if r.main_continue
    then (if eq_ℤ r.accepted minus_one then ([], true) else (r.accepted ∷ handled, ended))
    else ([], true)

-- `pths[i]` gets a thread; `none` is a write out of bounds.
unfoldable pub store_thread : List Bool → ℕ → Option (List Bool)
store_thread pths i = if ltb i (length pths) then some (set pths i true) else none

-- The loop `while (i++ < cpu_num)` that creates the threads, with `left` rounds to go.
unfoldable pub create_threads : (left i : ℕ) → List Bool → Option (List Bool)
unfolding store_thread
create_threads zero i pths = some pths
create_threads (suc left) i pths = elim (store_thread pths (i + 1)) [
  | none ↦ none
  | some pths' ↦ create_threads left (i + 1) pths'
]

-- The loop that waits for the threads; `none` is a read out of bounds.
unfoldable pub join_threads : (left i : ℕ) → List Bool → Option (List Bool)
join_threads zero i pths = some pths
join_threads (suc left) i pths = elim (get_elem? pths (i + 1)) [
  | none ↦ none
  | some thread ↦ join_threads left (i + 1) pths
]

-- The results of the calls of `sync_server_start`.
pub record Sockets : Type 0 where
  pub socket : ℤ
  pub setsockopt : ℤ
  pub bind : ℤ

-- `sync_server_start`: the threads that it creates and waits for, `some none` where it returns before it
-- creates any, and `none` where it writes or reads out of bounds.
unfoldable pub sync_server_start : Sockets → (cpu_num : ℕ) → Option (Option (List Bool))
unfolding create_threads join_threads
sync_server_start sockets cpu_num =
    if eq_ℤ sockets.socket minus_one
    then some none
    else if eq_ℤ sockets.setsockopt minus_one
    then some none
    else if eq_ℤ sockets.bind minus_one
    then some none
    else elim (create_threads cpu_num 0 (replicate cpu_num false)) [
      | none ↦ none
      | some pths ↦ elim (join_threads cpu_num 0 pths) [ none ↦ none | some ps ↦ some (some ps) ]
    ]
