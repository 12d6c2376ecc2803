-- ===== src/Server/System/Reached.antt =====
-- Every step of the system keeps it safe, and when a step faults.
use mathlib.Core.Path.{subst}
use sync_agent.Base.{
  ap, ◌↔◌, ℕ, ◌≡◌, ◌≢◌, ◌∙◌, sym, refl, Bool, true, false, not, none, some, Option, List, [], ◌∷◌,
  set, get_elem?, Bool-cases, inl, inr,
}
use sync_agent.Base.Int.{ℤ}
use sync_agent.Agent.{signal_handle}
use sync_agent.Server.{Action, client_connection_handler}
use sync_agent.Server.Held.{Held, held, act, act_all}
use sync_agent.Server.Laws.{client_connection_handler_lem}
use sync_agent.Server.System.{
  Listener, testing, accepting, ended, Connection, System, Accepted, Event, test, accept, go_on,
  signal, Outcome, blocked, fault, exited, next, test_at, taken, connection, accept_at, act_at,
  go_on_at, signal_at, step, Reach, start, later,
}
use sync_agent.Server.System.Safety.{
  at_end, IsSafe, AllRun-append, AllRun-set, AllRun-get, Apart-append, Apart-set, act-descriptor,
}

pub none-ne-some : {A : Type 0} {x : A} → none ≢ some x
none-ne-some e = cc

blocked-ne-fault : blocked ≢ fault
blocked-ne-fault e = cc

same_system : {s t : System} → next s ≡ next t → s ≡ t
same_system e = cc

-- What a step from a safe state must be: a fault only where `F` holds.
abbrev pub Safely : Type 0 → Outcome → Type 0
Safely F blocked = Unit
Safely F exited = Unit
Safely F fault = F
Safely F (next t) = IsSafe t

connection-Runs :
    (m : Bool) (received fd : ℤ)
    → act_all (client_connection_handler m received fd) (held fd true m true)
      ≡ some (held fd (not m) false (not m))
connection-Runs true received fd = (client_connection_handler_lem received fd).0
connection-Runs false received fd = (client_connection_handler_lem received fd).1

test-Safely : (o : Option Listener) (i : ℕ) (s : System) → IsSafe s → Safely ⊥ (test_at o i s)
unfolding test_at
test-Safely none i s h = tt
test-Safely (some testing) i s h = record { runs = h.runs; apart = h.apart }
test-Safely (some accepting) i s h = tt
test-Safely (some ended) i s h = tt

-- The `malloc` of the connection has failed.
abbrev pub Unmade : Option Accepted → Type 0
Unmade none = ⊥
Unmade (some a) = a.made ≡ false

accept-Safely :
    (o : Option Listener) (i : ℕ) (a : Option Accepted) (s : System)
    → IsSafe s
    → Safely (Unmade a) (accept_at o i a s)
unfolding accept_at
accept-Safely none i a s h = tt
accept-Safely (some testing) i a s h = tt
accept-Safely (some ended) i a s h = tt
accept-Safely (some accepting) i none s h = record { runs = h.runs; apart = h.apart }
accept-Safely (some accepting) i (some a) s h = elim (Bool-cases (taken a.fd s.connections)) [
  | inl t ↦ rw t tt
  | inr n ↦ elim (Bool-cases a.made) [
    | inr u ↦ rw (n, u) refl
    | inl m ↦
        rw (n, m)
          (record {
            runs =
                AllRun-append s.connections (connection a) h.runs
                  (connection-Runs a.malloc a.received a.fd);
            apart = Apart-append s.connections (connection a) h.apart n;
          })
  ]
]

pub act_all-none :
    (a : Action) (todo : List Action) (h : Held) → act a h ≡ none → act_all (a ∷ todo) h ≡ none
unfolding act_all
act_all-none a todo h e = rw (e, act_all)

act_all-some :
    (a : Action) (todo : List Action) (h h' : Held)
    → act a h ≡ some h'
    → act_all (a ∷ todo) h ≡ act_all todo h'
unfolding act_all
act_all-some a todo h h' e = rw (e, act_all)

-- A connection after an action.
abbrev pub acted : Connection → Held → List Action → Connection
acted c h todo = record c { holds = h; todo = todo }

pub act_at-some :
    (i : ℕ) (c : Connection) (a : Action) (todo : List Action) (s : System) (h : Held)
    → act a c.holds ≡ some h
    → act_at i c (a ∷ todo) s
      ≡ next (record s { connections = set s.connections i (acted c h todo) })
unfolding act_at
act_at-some i c a todo s h e = rw (e, act_at)

-- The next action, by what `act` gives.
action-Safely :
    (i : ℕ) (c : Connection) (a : Action) (todo : List Action) (s : System) (o : Option Held)
    → IsSafe s
    → get_elem? s.connections i ≡ some c
    → act_all (a ∷ todo) c.holds ≡ some (at_end c)
    → act a c.holds ≡ o
    → Safely ⊥ (act_at i c (a ∷ todo) s)
action-Safely i c a todo s none h g r e =
    absurd (none-ne-some (sym (act_all-none a todo c.holds e) ∙ r))
action-Safely i c a todo s (some h') h g r e =
    subst (Safely ⊥) (sym (act_at-some i c a todo s h' e)) (record {
      runs =
          AllRun-set s.connections i (acted c h' todo) h.runs
            (sym (act_all-some a todo c.holds h' e) ∙ r);
      apart =
          Apart-set s.connections i c (acted c h' todo) g (refl, act-descriptor a c.holds h' e)
            h.apart;
    })

handler-Safely :
    (i : ℕ) (c : Connection) (todo : List Action) (s : System)
    → IsSafe s
    → get_elem? s.connections i ≡ some c
    → act_all todo c.holds ≡ some (at_end c)
    → Safely ⊥ (act_at i c todo s)
handler-Safely i c [] s h g r = unfold act_at in tt
handler-Safely i c (a ∷ todo) s h g r = action-Safely i c a todo s (act a c.holds) h g r refl

go_on-Safely :
    (o : Option Connection) (i : ℕ) (s : System)
    → IsSafe s
    → get_elem? s.connections i ≡ o
    → Safely ⊥ (go_on_at o i s)
unfolding go_on_at
go_on-Safely none i s h g = tt
go_on-Safely (some c) i s h g =
    handler-Safely i c c.todo s h g (AllRun-get s.connections i c h.runs g)

signal-Safely : (o : Option Bool) (s : System) → IsSafe s → Safely ⊥ (signal_at o s)
unfolding signal_at
signal-Safely none s h = tt
signal-Safely (some b) s h = record { runs = h.runs; apart = h.apart }

-- The event is an accepted connection for which there is no memory.
abbrev pub UnmadeEvent : Event → Type 0
UnmadeEvent (accept i a) = Unmade a
UnmadeEvent _ = ⊥

step-Safely : (e : Event) (s : System) → IsSafe s → Safely (UnmadeEvent e) (step e s)
unfolding step
step-Safely (test i) s h = test-Safely (get_elem? s.listeners i) i s h
step-Safely (accept i a) s h = accept-Safely (get_elem? s.listeners i) i a s h
step-Safely (go_on i) s h = go_on-Safely (get_elem? s.connections i) i s h refl
step-Safely (signal sig) s h = signal-Safely (signal_handle sig s.main_continue) s h

pub step-IsSafe : (e : Event) (s t : System) → IsSafe s → step e s ≡ next t → IsSafe t
step-IsSafe e s t h q = subst (Safely (UnmadeEvent e)) q (step-Safely e s h)

-- In every state that the server comes to, by any order of its threads, connections and signals: each
-- handler has left to do what releases what it holds, once each, or keeps the descriptor and the
-- connection if its `malloc` has failed, and the descriptor that it closes is its own; and, as
-- `lthread_accept` returns no descriptor that is still open, no two open connections share one.
pub Reach-IsSafe : {cpu_num : ℕ} (s : System) → Reach cpu_num s → IsSafe s
Reach-IsSafe s start = record { runs = tt; apart = tt }
Reach-IsSafe s (later {s = u} e r q) = step-IsSafe e u s (Reach-IsSafe u r) q

-- A listener in `lthread_accept` that takes a connection whose descriptor is free, and for which
-- `malloc` fails.
abbrev pub MallocFails : Event → System → Type 0
MallocFails (accept i (some a)) s =
    (get_elem? s.listeners i ≡ some accepting)
    × (taken a.fd s.connections ≡ false)
    × (a.made ≡ false)
MallocFails _ s = ⊥

unmade-MallocFails :
    (o : Option Listener) (i : ℕ) (a : Accepted) (s : System)
    → get_elem? s.listeners i ≡ o
    → a.made ≡ false
    → accept_at o i (some a) s ≡ fault
    → MallocFails (accept i (some a)) s
unfolding accept_at
unmade-MallocFails none i a s g u q = cc
unmade-MallocFails (some testing) i a s g u q = cc
unmade-MallocFails (some ended) i a s g u q = cc
unmade-MallocFails (some accepting) i a s g u q = elim (Bool-cases (taken a.fd s.connections)) [
  | inl t ↦ absurd (blocked-ne-fault (rw (t, accept_at) at q))
  | inr n ↦ (g, n, u)
]

MallocFails-fault : (e : Event) (s : System) → MallocFails e s → step e s ≡ fault
unfolding step accept_at
MallocFails-fault (accept i (some a)) s (g, n, u) =
    ap (λ o. accept_at o i (some a) s) g ∙ rw (n, u, accept_at)
MallocFails-fault (accept i none) s h = elim h [ ]
MallocFails-fault (test i) s h = elim h [ ]
MallocFails-fault (go_on i) s h = elim h [ ]
MallocFails-fault (signal sig) s h = elim h [ ]

fault-MallocFails : (e : Event) (s : System) → UnmadeEvent e → step e s ≡ fault → MallocFails e s
unfolding step
fault-MallocFails (accept i (some a)) s u q =
    unmade-MallocFails (get_elem? s.listeners i) i a s refl u q
fault-MallocFails (accept i none) s u q = elim u [ ]
fault-MallocFails (test i) s u q = elim u [ ]
fault-MallocFails (go_on i) s u q = elim u [ ]
fault-MallocFails (signal sig) s u q = elim u [ ]

-- In every state that the server comes to, a step faults exactly if it is a listener that takes a
-- connection for which `malloc` fails: its result is not tested. No thread ever uses a descriptor, a
-- buffer or a connection that it has released.
pub step-fault_iff :
    {cpu_num : ℕ} (e : Event) (s : System) → Reach cpu_num s → (step e s ≡ fault) ↔ MallocFails e s
step-fault_iff e s r = (
  (λ q.
      fault-MallocFails e s (subst (Safely (UnmadeEvent e)) q (step-Safely e s (Reach-IsSafe s r)))
        q),
  MallocFails-fault e s,
)
