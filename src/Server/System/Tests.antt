-- ===== src/Server/System/Tests.antt =====
-- The system of the server at concrete states.
use sync_agent.Base.{◌↔◌, ◌+◌, ◌≤◌, ◌≡◌, refl, true, false, some, List, [], ◌∷◌}
use sync_agent.Base.Int.{pos}
use sync_agent.Agent.{sigterm}
use sync_agent.Server.System.{
  testing, accepting, ended, System, Accepted, Event, test, accept, signal, fault, next, connection,
  step, started, Reach, start, later,
}
use sync_agent.Server.System.Safety.{IsSafe}
use sync_agent.Server.System.Reached.{Reach-IsSafe, step-fault_iff, MallocFails}
use sync_agent.Server.System.Shutdown.{
  left, waiting, thread_steps, late_connections, run, shutdown_bounds,
}
use sync_agent.Server.System.End.{IsFinished, run-IsFinished}

abbrev client : Accepted
client = record { fd = pos 5; made = true; malloc = true; received = pos 7 }

-- Listener 0 has taken a connection and waits for the next, listener 1 has not begun, and a signal has
-- come.
abbrev stopped : System
stopped = record {
  main_continue = false;
  listeners = accepting ∷ testing ∷ [];
  connections = connection client ∷ [];
}

abbrev busy : System
busy = record stopped { main_continue = true }

abbrev taken_one : System
taken_one = record busy { listeners = testing ∷ testing ∷ [] }

abbrev waits_first : System
waits_first = record (started 2) { listeners = accepting ∷ testing ∷ [] }

stopped-Reach : Reach 2 stopped
unfolding step
stopped-Reach =
    later {s = busy} (signal sigterm)
      (later {s = taken_one} (test 0)
        (later {s = waits_first} (accept 0 (some client))
          (later {s = started 2} (test 0) start refl) refl)
        refl)
      refl

Reach-IsSafe_example : IsSafe stopped
Reach-IsSafe_example = Reach-IsSafe stopped stopped-Reach

step-fault_iff_example :
    (step (accept 0 (some (record client { fd = pos 9; made = false }))) stopped ≡ fault)
    ↔ MallocFails (accept 0 (some (record client { fd = pos 9; made = false }))) stopped
step-fault_iff_example =
    step-fault_iff (accept 0 (some (record client { fd = pos 9; made = false }))) stopped
      stopped-Reach

-- The listener takes one more connection, and returns at its next test.
abbrev schedule : List Event
schedule = test 1 ∷ accept 0 (some (record client { fd = pos 6 })) ∷ test 0 ∷ []

abbrev after : System
after = record stopped {
  listeners = ended ∷ ended ∷ [];
  connections = connection client ∷ connection (record client { fd = pos 6 }) ∷ [];
}

shutdown_bounds_example :
    (after.main_continue ≡ false)
    × (thread_steps schedule + left after ≤ left stopped)
    × (late_connections schedule + waiting after ≤ waiting stopped)
unfolding run step
shutdown_bounds_example = shutdown_bounds schedule stopped after refl refl

run-IsFinished_example : (es : List Event) × (t : System) × (run es stopped ≡ next t) × IsFinished t
run-IsFinished_example = run-IsFinished stopped stopped-Reach refl
