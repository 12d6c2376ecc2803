-- ===== src/Queue/Threads.antt =====
-- Threads that call `queue_push` and `queue_pop` on one queue. A step is one thread going on: it takes the
-- mutex where it is free, or runs the next piece of its call, between two statements of the code. The
-- loop that moves the wrapped part is one piece, since the others only write with the mutex.
pub mod Phases
pub mod Locks
pub mod Linear
pub mod Progress
mod Tests
use mathlib.Core.Option
use sync_agent.Base.{
  ℕ, ◌+◌, ◌*◌, ◌%◌, ◌≡◌, Bool, true, false, Option, none, some, List, [], ◌∷◌, ◌++◌, ◌==◌,
  if◌then◌else◌,
}
use sync_agent.Queue.{
  Ptr, null, Queue, Allocator, ◌>>=◌, reallocate, mutex_unlock, load, store, full, rearrange, push,
  pop,
}
use sync_agent.Queue.Session.{Call, put, get}

-- What a call returns.
pub data Reply : Type 0 where
  pushed : Bool → Reply
  popped : Ptr → Reply

-- A call that runs alone.
unfoldable pub alone : Allocator → Call → Queue → Option (Reply × Queue)
alone al (put v) q = Option.map (λ r. (pushed r.0, r.1)) (push al q v)
alone al get q = Option.map (λ r. (popped r.0, r.1)) (pop q)

-- Where a thread stands between the lock and the unlock of its call; the number is `org_size`.
pub data Phase : Type 0 where
  testing_full doubling advancing storing : Ptr → Phase
  reallocating moving : Ptr → ℕ → Phase
  testing_empty fronting loading : Phase
  leaving : Reply → Phase

pub data Move : Type 0 where
  goes : Phase → Move
  leaves : Reply → Move

-- The first piece of a call.
unfoldable pub enter : Call → Phase
enter (put v) = testing_full v
enter get = testing_empty

-- One piece of the body of a call; `none` is a fault.
unfoldable pub work : Allocator → Phase → Queue → Option (Move × Queue)
unfolding reallocate
work al (testing_full v) q = some (goes (if full q then doubling v else advancing v), q)
work al (doubling v) q = some (goes (reallocating v q.size), record q { size = q.size * 2 })
work al (reallocating v org_size) q =
    let block = reallocate al q.q q.size in
    some (
      goes (elim block [ none ↦ leaving (pushed false) | some _ ↦ moving v org_size ]),
      record q { q = block },
    )
work al (moving v org_size) q = Option.map (λ q'. (goes (advancing v), q')) (rearrange org_size q)
work al (advancing v) q = some (goes (storing v), record q { rear = (q.rear + 1) % q.size })
work al (storing v) q = Option.map (λ q'. (goes (leaving (pushed true)), q')) (store q q.rear v)
work al testing_empty q =
    some (goes (if q.front == q.rear then leaving (popped null) else fronting), q)
work al fronting q = some (goes loading, record q { front = (q.front + 1) % q.size })
work al loading q = Option.map (λ v. (goes (leaving (popped v)), q)) (load q q.front)
work al (leaving r) q = some (leaves r, mutex_unlock q)

-- A thread: the call that it is inside of, and the calls that it has left to make.
pub record Thread : Type 0 where
  pub inside : Option (Call × Phase)
  pub todo : List Call

-- The queue and its threads, of any number.
pub record Threads : Type 0 where
  pub queue : Queue
  pub threads : ℕ → Thread

-- What a step of a thread comes to: it waits for the mutex or has no calls left, it faults, or it goes on,
-- with the calls that return.
pub data Outcome : Type 0 where
  blocked fault : Outcome
  next : List (Call × Reply) → Threads → Outcome

abbrev pub set_thread : (ℕ → Thread) → ℕ → Thread → ℕ → Thread
set_thread ts i t j = if j == i then t else ts j

-- A piece of the call that thread `i` is inside of.
unfoldable pub work_at : Option (Move × Queue) → Call → List Call → ℕ → Threads → Outcome
work_at none c todo i s = fault
work_at (some (goes p, q)) c todo i s = next [] (record {
  queue = q;
  threads = set_thread s.threads i (record { inside = some (c, p); todo = todo });
})
work_at (some (leaves r, q)) c todo i s =
    next ((c, r) ∷ []) (record {
      queue = q;
      threads = set_thread s.threads i (record { inside = none; todo = todo });
    })

-- `pthread_mutex_lock` at the start of the next call: it waits while the mutex is held.
unfoldable pub enter_at : List Call → ℕ → Threads → Outcome
enter_at [] i s = blocked
enter_at (c ∷ todo) i s =
    if s.queue.lock
    then blocked
    else next [] (record {
      queue = record s.queue { lock = true };
      threads = set_thread s.threads i (record { inside = some (c, enter c); todo = todo });
    })

-- A step of thread `i`.
unfoldable pub run_at : Allocator → Option (Call × Phase) → List Call → ℕ → Threads → Outcome
unfolding work_at work enter_at enter
run_at al none todo i s = enter_at todo i s
run_at al (some (c, p)) todo i s = work_at (work al p s.queue) c todo i s

unfoldable pub run_thread : Allocator → ℕ → Threads → Outcome
unfolding run_at
run_thread al i s = run_at al (s.threads i).inside (s.threads i).todo i s

-- The states that schedules of the threads lead to, with the calls that have returned by then, in order.
pub data Reach (al : Allocator) (s₀ : Threads) : List (Call × Reply) → Threads → Type 0 where
  start : Reach al s₀ [] s₀
  later :
      {h out : List (Call × Reply)} {s t : Threads} (i : ℕ)
      → Reach al s₀ h s
      → run_thread al i s ≡ next out t
      → Reach al s₀ (h ++ out) t
