-- ===== src/Server/System.antt =====
-- The threads of src/agent/sync_server.c and the signals of src/agent/sync_agent.c, interleaved: the
-- listeners that `sync_server_start` has created, the handlers of their connections, and the flag
-- `_main_continue`. An event is one thread going on to its next call, or a signal.
pub mod Safety
pub mod Reached
pub mod Shutdown
pub mod End
mod Tests
use sync_agent.Base.{
  ℕ, zero, suc, ◌+◌, Bool, true, false, Option, none, some, List, [], ◌∷◌, ◌++◌, if◌then◌else◌, set,
  get_elem?, replicate, ◌||◌, ◌&&◌, ◌≡◌,
}
use sync_agent.Base.Int.{ℤ, eq_ℤ}
use sync_agent.Agent.{Signal, signal_handle}
use sync_agent.Server.{Action, client_connection_handler}
use sync_agent.Server.Held.{Held, held, act}

-- Where a listener is in its loop: before the test of `_main_continue`, in `lthread_accept`, or returned.
pub data Listener : Type 0 where
  testing accepting ended : Listener

-- A connection: its descriptor, whether the handler's `malloc` succeeds, what the handler holds, and
-- what it has yet to do.
pub record Connection : Type 0 where
  pub fd : ℤ
  pub malloc : Bool
  pub holds : Held
  pub todo : List Action

pub record System : Type 0 where
  pub main_continue : Bool
  pub listeners : List Listener
  pub connections : List Connection

-- What `lthread_accept` returns, whether there is memory for the connection, and what the handler's
-- calls will return.
pub record Accepted : Type 0 where
  pub fd : ℤ
  pub made : Bool
  pub malloc : Bool
  pub received : ℤ

pub data Event : Type 0 where
  test : ℕ → Event
  accept : ℕ → Option Accepted → Event
  go_on : ℕ → Event
  signal : Signal → Event

-- The event cannot happen now, a thread uses memory that is released or was never there, the program
-- exits, or the system goes on.
pub data Outcome : Type 0 where
  blocked fault exited : Outcome
  next : System → Outcome

-- The test of the loop of `sync_server_listen`.
unfoldable pub test_at : Option Listener → ℕ → System → Outcome
test_at (some testing) i s =
    next (record s { listeners = set s.listeners i (if s.main_continue then accepting else ended) })
test_at _ i s = blocked

-- A descriptor that is open. That the kernel gives it to no other connection is an assumption on
-- `lthread_accept`.
unfoldable pub taken : ℤ → List Connection → Bool
taken fd [] = false
taken fd (c ∷ cs) = eq_ℤ c.fd fd && c.holds.descriptor || taken fd cs

-- The connection of the handler that `lthread_create` starts.
abbrev pub connection : Accepted → Connection
connection a = record {
  fd = a.fd;
  malloc = a.malloc;
  holds = held a.fd true a.malloc true;
  todo = client_connection_handler a.malloc a.received a.fd;
}

-- `lthread_accept` returns -1, or a connection; the result of its `malloc` is not tested.
unfoldable pub accept_at : Option Listener → ℕ → Option Accepted → System → Outcome
accept_at (some accepting) i none s = next (record s { listeners = set s.listeners i ended })
accept_at (some accepting) i (some a) s =
    if taken a.fd s.connections
    then blocked
    else if a.made
    then next (record s {
      listeners = set s.listeners i testing;
      connections = s.connections ++ connection a ∷ [];
    })
    else fault
accept_at _ i a s = blocked

-- A handler's next action.
unfoldable pub act_at : ℕ → Connection → List Action → System → Outcome
unfolding act
act_at i c [] s = blocked
act_at i c (a ∷ todo) s = elim (act a c.holds) [
  | none ↦ fault
  | some h ↦
      next (record s { connections = set s.connections i (record c { holds = h; todo = todo }) })
]

unfoldable pub go_on_at : Option Connection → ℕ → System → Outcome
go_on_at none i s = blocked
go_on_at (some c) i s = act_at i c c.todo s

unfoldable pub signal_at : Option Bool → System → Outcome
signal_at none s = exited
signal_at (some b) s = next (record s { main_continue = b })

unfoldable pub step : Event → System → Outcome
unfolding test_at accept_at go_on_at act_at signal_at signal_handle taken
step (test i) s = test_at (get_elem? s.listeners i) i s
step (accept i a) s = accept_at (get_elem? s.listeners i) i a s
step (go_on i) s = go_on_at (get_elem? s.connections i) i s
step (signal sig) s = signal_at (signal_handle sig s.main_continue) s

-- The listeners of `sync_server_start` on `cpu_num` processors.
abbrev pub started : ℕ → System
started cpu_num = record {
  main_continue = true;
  listeners = replicate cpu_num testing;
  connections = [];
}

-- The states that the server comes to.
pub data Reach (cpu_num : ℕ) : System → Type 0 where
  start : Reach cpu_num (started cpu_num)
  later : {s t : System} (e : Event) → Reach cpu_num s → step e s ≡ next t → Reach cpu_num t
