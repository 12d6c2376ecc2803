-- ===== src/Queue/Threads/Tests.antt =====
-- Two threads on a full queue, and the theorems about them.
use sync_agent.Base.{ℕ, ◌*◌, ◌≡◌, ◌≢◌, refl, true, none, some, [], ◌∷◌, length, inr}
use sync_agent.Queue.{full, element_count}
use sync_agent.Queue.Contents.{contents, cells_of}
use sync_agent.Queue.Session.{put, get}
use sync_agent.Queue.Tests.{fill, heap, heap-IsAllocator, wrapped, wrapped-IsValid}
use sync_agent.Queue.Threads.{
  testing_full, doubling, reallocating, enter, work, Threads, fault, set_thread, work_at, enter_at,
  run_at, run_thread, Reach, start, later,
}
use sync_agent.Queue.Threads.Linear.{Linear, Fresh, Reach-Linear, Reach-ne-fault}
use sync_agent.Queue.Threads.Progress.{GoesOn, Reach-GoesOn}

-- Every thread pushes 3 and pops.
abbrev before : Threads
before = record {
  queue = wrapped;
  threads = λ j. record { inside = none; todo = put 3 ∷ get ∷ [] };
}

before-Fresh : Fresh before
before-Fresh = record { valid = wrapped-IsValid; outside = λ j. refl }

-- Thread 1 has taken the mutex, then seen the full queue, then doubled its size.
abbrev locked : Threads
locked = record {
  queue = record wrapped { lock = true };
  threads =
      set_thread before.threads 1
        (record { inside = some (put 3, testing_full 3); todo = get ∷ [] });
}

abbrev seen : Threads
seen = record {
  queue = record wrapped { lock = true };
  threads =
      set_thread locked.threads 1 (record { inside = some (put 3, doubling 3); todo = get ∷ [] });
}

abbrev doubled : Threads
doubled = record {
  queue = record wrapped { lock = true; size = 8 };
  threads =
      set_thread seen.threads 1
        (record { inside = some (put 3, reallocating 3 4); todo = get ∷ [] });
}

doubled_reached : Reach heap before [] doubled
unfolding run_thread run_at enter_at enter work_at work full
doubled_reached = later 1 (later 1 (later 1 start refl) refl) refl

Reach-Linear_example : Linear heap (contents wrapped) [] doubled
Reach-Linear_example =
    Reach-Linear heap-IsAllocator (λ q. (fill (cells_of q.q) (q.size * 2), refl)) before-Fresh
      doubled_reached

Reach-ne-fault_example : run_thread heap 1 doubled ≢ fault
Reach-ne-fault_example =
    Reach-ne-fault heap-IsAllocator (λ q. (fill (cells_of q.q) (q.size * 2), refl)) 1 before-Fresh
      doubled_reached

Reach-GoesOn_example : (i : ℕ) × GoesOn (run_thread heap i doubled)
Reach-GoesOn_example =
    Reach-GoesOn heap-IsAllocator (λ q. (fill (cells_of q.q) (q.size * 2), refl)) 2 before-Fresh
      doubled_reached (inr nonempty)
  where
    nonempty : put 3 ∷ get ∷ [] ≢ []
    nonempty e = cc

-- `queue_element_count` takes no lock: meanwhile it says 7 of a queue that holds 3 pointers.
seen_by_others : (element_count doubled.queue ≡ 7) × (length (contents wrapped) ≡ 3)
unfolding element_count
seen_by_others = (refl, refl)
