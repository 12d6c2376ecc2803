-- ===== src/Server/System/End.antt =====
-- The server can always come to its end once `_main_continue` is cleared.
use mathlib.Core.Path.{subst}
use sync_agent.Base.{
  ℕ, zero, suc, ◌<◌, ◌≤◌, ◌≡◌, ◌∙◌, ◌⊎◌, sym, ap, refl, false, none, some, Option, List, [], ◌∷◌,
  arith, set, get_elem?, inl, inr,
}
use sync_agent.Server.{Action}
use sync_agent.Server.Held.{Held, act, act_all}
use sync_agent.Server.System.{
  Listener, testing, accepting, ended, Connection, System, Event, test, accept, go_on, next,
  test_at, accept_at, act_at, go_on_at, step, Reach,
}
use sync_agent.Server.System.Safety.{at_end, Runs, AllRun, IsSafe, AllRun-get, same_element}
use sync_agent.Server.System.Reached.{
  acted, act_at-some, step-IsSafe, Reach-IsSafe, act_all-none, none-ne-some,
}
use sync_agent.Server.System.Shutdown.{left, of_thread, of_client, Winds, step-Winds, run, and_then}

-- Every listener has returned.
abbrev pub AllEnded : List Listener → Type 0
AllEnded [] = Unit
AllEnded (l ∷ ls) = (l ≡ ended) × AllEnded ls

-- Every handler has returned, with what `at_end` says in its hands.
abbrev pub AllDone : List Connection → Type 0
AllDone [] = Unit
AllDone (c ∷ cs) = ((c.todo ≡ []) × (c.holds ≡ at_end c)) × AllDone cs

pub record IsFinished (s : System) : Type 0 where
  pub returned : AllEnded s.listeners
  pub released : AllDone s.connections

-- A listener that can go on.
abbrev Waiting : Option Listener → Type 0
Waiting (some testing) = Unit
Waiting (some accepting) = Unit
Waiting _ = ⊥

find_listener : (ls : List Listener) → AllEnded ls ⊎ ((i : ℕ) × Waiting (get_elem? ls i))
find_listener [] = inl tt
find_listener (testing ∷ ls) = inr (0, tt)
find_listener (accepting ∷ ls) = inr (0, tt)
find_listener (ended ∷ ls) = elim (find_listener ls) [
  | inl h ↦ inl (refl, h)
  | inr (i, w) ↦ inr (suc i, w)
]

-- A handler that has not returned.
record Pending (cs : List Connection) : Type 0 where
  index : ℕ
  handler : Connection
  action : Action
  rest : List Action
  at_index : get_elem? cs index ≡ some handler
  todo : handler.todo ≡ action ∷ rest

done_lem : (c : Connection) → c.todo ≡ [] → Runs c → (c.todo ≡ []) × (c.holds ≡ at_end c)
unfolding act_all
done_lem c e r = (e, same_element (ap (λ l. act_all l c.holds) (sym e) ∙ r))

find_connection : (cs : List Connection) → AllRun cs → AllDone cs ⊎ Pending cs
find_connection [] h = inl tt
find_connection (c ∷ cs) h = this c.todo refl (find_connection cs h.1)
  where
    this :
        (l : List Action)
        → c.todo ≡ l
        → AllDone cs ⊎ Pending cs
        → AllDone (c ∷ cs) ⊎ Pending (c ∷ cs)
    this [] e (inl h') = inl (done_lem c e h.0, h')
    this [] e (inr p) = inr (record {
      index = suc p.index;
      handler = p.handler;
      action = p.action;
      rest = p.rest;
      at_index = p.at_index;
      todo = p.todo;
    })
    this (a ∷ l) e o =
        inr (record { index = 0; handler = c; action = a; rest = l; at_index = refl; todo = e })

-- A step of some thread.
abbrev Progress : System → Type 0
Progress s = (e : Event) × (t : System) × (step e s ≡ next t) × (of_thread e ≡ 1)

listener_step :
    (o : Option Listener) (i : ℕ) (s : System)
    → get_elem? s.listeners i ≡ o
    → Waiting o
    → Progress s
unfolding step test_at accept_at
listener_step none i s g w = elim w [ ]
listener_step (some ended) i s g w = elim w [ ]
listener_step (some testing) i s g w = (test i, _, ap (λ o. test_at o i s) g, refl)
listener_step (some accepting) i s g w = (accept i none, _, ap (λ o. accept_at o i none s) g, refl)

action_step :
    (i : ℕ) (c : Connection) (a : Action) (todo : List Action) (s : System) (o : Option Held)
    → get_elem? s.connections i ≡ some c
    → c.todo ≡ a ∷ todo
    → Runs c
    → act a c.holds ≡ o
    → Progress s
unfolding step go_on_at
action_step i c a todo s none g d r e =
    absurd
      (none-ne-some (sym (act_all-none a todo c.holds e) ∙ ap (λ l. act_all l c.holds) (sym d) ∙ r))
action_step i c a todo s (some h) g d r e = (
  go_on i,
  record s { connections = set s.connections i (acted c h todo) },
  ap (λ o. go_on_at o i s) g ∙ ap (λ l. act_at i c l s) d ∙ act_at-some i c a todo s h e,
  refl,
)

progress : (s : System) → IsSafe s → IsFinished s ⊎ Progress s
progress s h = elim (find_listener s.listeners) [
  | inr (i, w) ↦ inr (listener_step (get_elem? s.listeners i) i s refl w)
  | inl ended_all ↦ elim (find_connection s.connections h.runs) [
    | inl done_all ↦ inl (record { returned = ended_all; released = done_all })
    | inr p ↦ inr (
        action_step p.index p.handler p.action p.rest s (act p.action p.handler.holds) p.at_index
          p.todo (AllRun-get s.connections p.index p.handler h.runs p.at_index) refl)
  ]
]

-- A step of a thread leaves less.
step-left :
    (e : Event) (s t : System)
    → s.main_continue ≡ false
    → step e s ≡ next t
    → of_thread e ≡ 1
    → (t.main_continue ≡ false) × (left t < left s)
step-left e s t m q o =
    let w : Winds (of_thread e) (of_client e) s (next t) =
      subst (Winds (of_thread e) (of_client e) s) q (step-Winds e s m) in
    (w.0, omega (arith, w.1))

wind_down :
    (n : ℕ) (s : System)
    → left s ≤ n
    → IsSafe s
    → s.main_continue ≡ false
    → (es : List Event) × (t : System) × (run es s ≡ next t) × IsFinished t
unfolding run
wind_down zero s l h m = elim (progress s h) [
  | inl f ↦ ([], s, refl, f)
  | inr (e, t, q, o) ↦ let k = step-left e s t m q o in absurd (omega arith)
]
wind_down (suc n) s l h m = elim (progress s h) [
  | inl f ↦ ([], s, refl, f)
  | inr (e, t, q, o) ↦
      let (k, less) = step-left e s t m q o in
      let (es, u, r, f) = wind_down n t (omega arith) (step-IsSafe e s t h q) k in
      (e ∷ es, u, ap (λ x. and_then x (run es)) q ∙ r, f)
]

-- From every state that the server comes to with `_main_continue` cleared, its threads have a schedule
-- to the end: all listeners and handlers have returned, and each handler whose `malloc` did not fail has
-- closed its descriptor and freed its buffer and connection. A listener that waits in `lthread_accept`
-- needs that call to return; here it returns -1.
pub run-IsFinished :
    {cpu_num : ℕ} (s : System)
    → Reach cpu_num s
    → s.main_continue ≡ false
    → (es : List Event) × (t : System) × (run es s ≡ next t) × IsFinished t
run-IsFinished s r m = wind_down (left s) s (omega arith) (Reach-IsSafe s r) m
