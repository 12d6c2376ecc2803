-- ===== src/Server/Laws.antt =====
-- The threads of `sync_server_start`, the loop of `sync_server_listen`, and the end of a connection.
use sync_agent.Base.{
  ℕ, zero, suc, ◌+◌, ◌<◌, ◌≡◌, ◌⊎◌, refl, Bool, true, false, none, List, [], ◌∷◌, ◌++◌, arith,
  if◌then◌else◌, some, length, replicate, length-replicate, length-set, set, Bool-cases, inl, inr,
  ltb, Bytes,
}
use sync_agent.Base.Int.{ℤ, pos, negsuc, minus_one, ltb_ℤ, eq_ℤ}
use sync_agent.Server.Held.{held, act, act_all}
use sync_agent.Server.{
  reply, receive, send, close, free_buffer, free_connection, cpu_count, client_connection_handler,
  Round, sync_server_listen, store_thread, create_threads, Sockets, sync_server_start,
}

create_threads_faults :
    (left i : ℕ) (pths : List Bool)
    → i + left ≡ length pths
    → 0 < left
    → create_threads left i pths ≡ none
unfolding create_threads
create_threads_faults zero i pths e h = absurd (omega arith)
create_threads_faults (suc zero) i pths e h =
    let out : ltb (i + 1) (length pths) ≡ false = ground arith in
    rw (out, create_threads, store_thread)
create_threads_faults (suc (suc left)) i pths e h =
    let within : ltb (i + 1) (length pths) ≡ true = ground arith in
    rw (within, create_threads, store_thread)
      (create_threads_faults (suc left) (i + 1) (set pths (i + 1) true)
        (omega (arith, length-set pths (i + 1) true)) (omega arith))

cpu_count-positive : (sysconf : ℤ) → 0 < cpu_count sysconf
unfolding cpu_count
cpu_count-positive (pos zero) = omega arith
cpu_count-positive (pos (suc n)) = omega arith
cpu_count-positive (negsuc n) = omega arith

-- `sync_server_start` whose calls succeed, on the number of processors that `sync_server_init` stores:
-- the array has one slot for each processor, and the last thread is stored behind it.
pub sync_server_start_faults :
    (sockets : Sockets) (sysconf : ℤ)
    → eq_ℤ sockets.socket minus_one ≡ false
    → eq_ℤ sockets.setsockopt minus_one ≡ false
    → eq_ℤ sockets.bind minus_one ≡ false
    → sync_server_start sockets (cpu_count sysconf) ≡ none
unfolding sync_server_start
sync_server_start_faults sockets sysconf a b c =
    let n = cpu_count sysconf in
    let faults : create_threads n 0 (replicate n false) ≡ none =
      create_threads_faults n 0 (replicate n false)
        (omega (arith, length-replicate {A = Bool} n false)) (cpu_count-positive sysconf) in
    rw (a, b, c, faults, sync_server_start)

-- The first rounds of the accept loop, each with a connection.
abbrev pub connections : List ℤ → List Round
connections [] = []
connections (fd ∷ fds) = record { main_continue = true; accepted = fd } ∷ connections fds

-- No descriptor is -1.
abbrev pub Connected : List ℤ → Type 0
Connected [] = Unit
Connected (fd ∷ fds) = (eq_ℤ fd minus_one ≡ false) × Connected fds

either_way : {A : Type 0} (b : Bool) (x : A) → (if b then x else x) ≡ x
either_way true x = refl
either_way false x = refl

-- `sync_server_listen` creates a handler for each connection that it accepts, in order, up to a round
-- whose `lthread_accept` fails or that finds `_main_continue` cleared; there it returns.
pub sync_server_listen_lem :
    (fds : List ℤ) (last : Round) (later : List Round)
    → Connected fds
    → (last.main_continue ≡ false) ⊎ (last.accepted ≡ minus_one)
    → sync_server_listen (connections fds ++ last ∷ later) ≡ (fds, true)
unfolding sync_server_listen
sync_server_listen_lem [] last later h (inl stop) = rw (stop)
sync_server_listen_lem [] last later h (inr failed) =
    rw failed (either_way last.main_continue ([], true))
sync_server_listen_lem (fd ∷ fds) last later h stop =
    rw (h.0, sync_server_listen_lem fds last later h.1 stop)

same_fd : (fd : ℤ) → eq_ℤ fd fd ≡ true
same_fd fd = ground arith

act_receive : (fd : ℤ) → act (receive fd) (held fd true true true) ≡ some (held fd true true true)
unfolding act
act_receive fd = rw (same_fd fd)

act_send :
    (fd : ℤ) (bytes : Bytes)
    → act (send fd bytes) (held fd true true true) ≡ some (held fd true true true)
unfolding act
act_send fd bytes = rw (same_fd fd)

act_close : (fd : ℤ) → act (close fd) (held fd true true true) ≡ some (held fd false true true)
unfolding act
act_close fd = rw (same_fd fd)

act_free_buffer :
    (fd : ℤ) → act free_buffer (held fd false true true) ≡ some (held fd false false true)
unfolding act
act_free_buffer fd = refl

act_free_connection :
    (fd : ℤ)
    → act (free_connection fd) (held fd false false true) ≡ some (held fd false false false)
unfolding act
act_free_connection fd = rw (same_fd fd)

-- With memory for the buffer, `client_connection_handler` uses nothing that it has released, and
-- releases its descriptor, the buffer and its connection once each, whatever `lthread_recv` returns.
-- Without it, it keeps the descriptor open and the connection allocated.
pub client_connection_handler_lem :
    (received fd : ℤ)
    → (act_all (client_connection_handler true received fd) (held fd true true true)
        ≡ some (held fd false false false))
      × (act_all (client_connection_handler false received fd) (held fd true false true)
          ≡ some (held fd true false true))
unfolding client_connection_handler act_all
client_connection_handler_lem received fd = elim (Bool-cases (ltb_ℤ received (pos 0))) [
  | inl e ↦
      rw (e, act_receive fd, act_all, act_close fd, act_free_buffer fd, act_free_connection fd)
        (refl, refl)
  | inr n ↦
      rw
        (
          n,
          act_receive fd,
          act_all,
          act_send fd reply,
          act_close fd,
          act_free_buffer fd,
          act_free_connection fd,
        )
        (refl, refl)
]
