-- ===== src/Server/System/Shutdown.antt =====
-- The end of the server: once `_main_continue` is cleared, only so many steps are left, and they can be
-- taken.
use mathlib.Core.Path.{subst}
use sync_agent.Base.{
  ℕ, zero, suc, ◌+◌, ◌≤◌, ◌≡◌, sym, ap, refl, Bool, true, false, none, some, Option, List, [], ◌∷◌,
  ◌++◌, arith, set, get_elem?, length, Bool-cases, inl, inr,
}
use sync_agent.Base.Int.{ℤ, pos, ltb_ℤ}
use sync_agent.Agent.{
  Signal, sigterm, sigusr1, sigint, sigsegv, sigbus, sigquit, sigchld, signal_handle,
}
use sync_agent.Server.{Action, client_connection_handler}
use sync_agent.Server.Held.{Held, act}
use sync_agent.Server.System.{
  Listener, testing, accepting, ended, Connection, System, Accepted, Event, test, accept, go_on,
  signal, Outcome, blocked, fault, exited, next, test_at, taken, connection, accept_at, act_at,
  go_on_at, signal_at, step,
}
use sync_agent.Server.System.Reached.{acted, act_at-some}

module _ {A : Type 0} (weight : A → ℕ) where
  pub total : List A → ℕ
  total [] = 0
  total (x ∷ xs) = weight x + total xs

  total-append : (xs : List A) (x : A) → total (xs ++ x ∷ []) ≡ total xs + weight x
  unfolding total
  total-append [] x = omega arith
  total-append (y ∷ xs) x = omega (arith, total-append xs x)

  total-set :
      (xs : List A) (i : ℕ) (x y : A)
      → get_elem? xs i ≡ some x
      → total (set xs i y) + weight x ≡ total xs + weight y
  unfolding total
  total-set [] i x y e = cc
  total-set (z ∷ xs) zero x y e = let q : z ≡ x = cc in rw q (omega arith)
  total-set (z ∷ xs) (suc i) x y e = omega (arith, total-set xs i x y e)

-- The steps that a listener has left at most, with those of the handler that it may yet create.
abbrev pub listener_left : Listener → ℕ
listener_left testing = 1
listener_left accepting = 8
listener_left ended = 0

abbrev pub connection_left : Connection → ℕ
connection_left c = length c.todo

pub left : System → ℕ
left s = total listener_left s.listeners + total connection_left s.connections

-- An event that is a step of a thread.
abbrev pub of_thread : Event → ℕ
of_thread (signal sig) = 0
of_thread _ = 1

pub same_system : {s t : System} → next s ≡ next t → s ≡ t
same_system e = cc

-- The listeners in `lthread_accept`.
abbrev pub waits : Listener → ℕ
waits testing = 0
waits accepting = 1
waits ended = 0

pub waiting : System → ℕ
waiting s = total waits s.listeners

-- An event that brings a connection.
abbrev pub of_client : Event → ℕ
of_client (accept i (some a)) = 1
of_client _ = 0

-- A step after which the flag is still cleared and less is left, `n` steps and `k` connections.
abbrev pub Winds : ℕ → ℕ → System → Outcome → Type 0
Winds n k s (next t) =
    (t.main_continue ≡ false) × (n + left t ≤ left s) × (k + waiting t ≤ waiting s)
Winds n k s _ = Unit

handler_length : (m : Bool) (received fd : ℤ) → length (client_connection_handler m received fd) ≤ 5
unfolding client_connection_handler
handler_length false received fd = omega arith
handler_length true received fd = elim (Bool-cases (ltb_ℤ received (pos 0))) [
  | inl e ↦ rw e (omega arith)
  | inr n ↦ rw n (omega arith)
]

handler_steps : (a : Accepted) → connection_left (connection a) ≤ 5
handler_steps a = handler_length a.malloc a.received a.fd

test-Winds :
    (o : Option Listener) (i : ℕ) (s : System)
    → s.main_continue ≡ false
    → get_elem? s.listeners i ≡ o
    → Winds 1 0 s (test_at o i s)
unfolding test_at left waiting
test-Winds none i s m g = tt
test-Winds (some testing) i s m g = rw m (
  refl,
  omega (arith, total-set listener_left s.listeners i testing ended g),
  omega (arith, total-set waits s.listeners i testing ended g),
)
test-Winds (some accepting) i s m g = tt
test-Winds (some ended) i s m g = tt

accept_none-Winds :
    (o : Option Listener) (i : ℕ) (s : System)
    → s.main_continue ≡ false
    → get_elem? s.listeners i ≡ o
    → Winds 1 0 s (accept_at o i none s)
unfolding accept_at left waiting
accept_none-Winds none i s m g = tt
accept_none-Winds (some testing) i s m g = tt
accept_none-Winds (some ended) i s m g = tt
accept_none-Winds (some accepting) i s m g = (
  m,
  omega (arith, total-set listener_left s.listeners i accepting ended g),
  omega (arith, total-set waits s.listeners i accepting ended g),
)

accept_some-Winds :
    (o : Option Listener) (i : ℕ) (a : Accepted) (s : System)
    → s.main_continue ≡ false
    → get_elem? s.listeners i ≡ o
    → Winds 1 1 s (accept_at o i (some a) s)
unfolding accept_at left waiting
accept_some-Winds none i a s m g = tt
accept_some-Winds (some testing) i a s m g = tt
accept_some-Winds (some ended) i a s m g = tt
accept_some-Winds (some accepting) i a s m g = elim (Bool-cases (taken a.fd s.connections)) [
  | inl t ↦ rw t tt
  | inr n ↦ elim (Bool-cases a.made) [
    | inr u ↦ rw (n, u) tt
    | inl made ↦
        rw (n, made)
          (
            m,
            omega (
              arith,
              total-set listener_left s.listeners i accepting testing g,
              total-append connection_left s.connections (connection a),
              handler_steps a,
            ),
            omega (arith, total-set waits s.listeners i accepting testing g),
          )
  ]
]

action-Winds :
    (i : ℕ) (c : Connection) (a : Action) (todo : List Action) (s : System) (o : Option Held)
    → s.main_continue ≡ false
    → get_elem? s.connections i ≡ some c
    → c.todo ≡ a ∷ todo
    → act a c.holds ≡ o
    → Winds 1 0 s (act_at i c (a ∷ todo) s)
unfolding left waiting
action-Winds i c a todo s none m g d e = unfold act_at in rw (e, act_at) tt
action-Winds i c a todo s (some h) m g d e =
    let l : length c.todo ≡ suc (length todo) = ap length d in
    subst (Winds 1 0 s) (sym (act_at-some i c a todo s h e)) (
      m,
      omega (arith, total-set connection_left s.connections i c (acted c h todo) g),
      omega arith,
    )

handler-Winds :
    (i : ℕ) (c : Connection) (todo : List Action) (s : System)
    → s.main_continue ≡ false
    → get_elem? s.connections i ≡ some c
    → c.todo ≡ todo
    → Winds 1 0 s (act_at i c todo s)
handler-Winds i c [] s m g d = unfold act_at in tt
handler-Winds i c (a ∷ todo) s m g d = action-Winds i c a todo s (act a c.holds) m g d refl

go_on-Winds :
    (o : Option Connection) (i : ℕ) (s : System)
    → s.main_continue ≡ false
    → get_elem? s.connections i ≡ o
    → Winds 1 0 s (go_on_at o i s)
unfolding go_on_at
go_on-Winds none i s m g = tt
go_on-Winds (some c) i s m g = handler-Winds i c c.todo s m g refl

signal-Winds :
    (sig : Signal) (b : Bool) (s : System)
    → b ≡ false
    → Winds 0 0 s (signal_at (signal_handle sig b) s)
unfolding signal_at signal_handle left waiting
signal-Winds sigterm b s m = (refl, omega arith, omega arith)
signal-Winds sigusr1 b s m = (refl, omega arith, omega arith)
signal-Winds sigint b s m = (refl, omega arith, omega arith)
signal-Winds sigsegv b s m = tt
signal-Winds sigbus b s m = tt
signal-Winds sigquit b s m = tt
signal-Winds sigchld b s m = (m, omega arith, omega arith)

pub step-Winds :
    (e : Event) (s : System)
    → s.main_continue ≡ false
    → Winds (of_thread e) (of_client e) s (step e s)
unfolding step
step-Winds (test i) s m = test-Winds (get_elem? s.listeners i) i s m refl
step-Winds (accept i none) s m = accept_none-Winds (get_elem? s.listeners i) i s m refl
step-Winds (accept i (some a)) s m = accept_some-Winds (get_elem? s.listeners i) i a s m refl
step-Winds (go_on i) s m = go_on-Winds (get_elem? s.connections i) i s m refl
step-Winds (signal sig) s m = signal-Winds sig s.main_continue s m

-- A schedule of events: each happens, or the whole stops at the first that does not.
abbrev pub and_then : Outcome → (System → Outcome) → Outcome
and_then (next t) f = f t
and_then blocked f = blocked
and_then fault f = fault
and_then exited f = exited

unfoldable pub run : List Event → System → Outcome
run [] s = next s
run (e ∷ es) s = and_then (step e s) (run es)

unfoldable pub thread_steps : List Event → ℕ
thread_steps [] = 0
thread_steps (e ∷ es) = of_thread e + thread_steps es

unfoldable pub late_connections : List Event → ℕ
late_connections [] = 0
late_connections (e ∷ es) = of_client e + late_connections es

abbrev Left : List Event → System → System → Type 0
Left es s t =
    (t.main_continue ≡ false)
    × (thread_steps es + left t ≤ left s)
    × (late_connections es + waiting t ≤ waiting s)

first_step :
    (e : Event) (es : List Event) (s t : System) (o : Outcome)
    → Winds (of_thread e) (of_client e) s o
    → and_then o (run es) ≡ next t
    → ((u : System) → u.main_continue ≡ false → run es u ≡ next t → Left es u t)
    → Left (e ∷ es) s t
unfolding thread_steps late_connections
first_step e es s t (next u) w q ih =
    let (k, l, c) = ih u w.0 q in (k, omega (arith, w.1), omega (arith, w.2))
first_step e es s t blocked w q ih = cc
first_step e es s t fault w q ih = cc
first_step e es s t exited w q ih = cc

-- Once the flag is cleared, whatever the order of events, it stays cleared; the threads take no more
-- steps than `left` says, at most 8 for a listener in `lthread_accept`, 1 for one before its test, and
-- one for each action that a handler has yet to take; and all listeners together take at most as many
-- more connections as there are listeners in `lthread_accept`.
pub shutdown_bounds :
    (es : List Event) (s t : System)
    → s.main_continue ≡ false
    → run es s ≡ next t
    → (t.main_continue ≡ false)
      × (thread_steps es + left t ≤ left s)
      × (late_connections es + waiting t ≤ waiting s)
unfolding run thread_steps late_connections
shutdown_bounds [] s t m r =
    let q = same_system r in (rw (sym q) m, rw q (omega arith), rw q (omega arith))
shutdown_bounds (e ∷ es) s t m r =
    first_step e es s t (step e s) (step-Winds e s m) r (λ u k q. shutdown_bounds es u t k q)
