-- ===== src/Queue/Threads/Linear.antt =====
-- However the threads are scheduled, the calls that return are those of a first-in first-out list.

use mathlib.Core.Path.{subst}
use sync_agent.Base.{
  ℕ, ◌≡◌, ◌≢◌, ◌∙◌, sym, ap, refl, true, false, Option, none, some, List, [], ◌∷◌, ◌++◌, ◌==◌,
  if◌then◌else◌, Bool-cases, inl, inr, arith,
}
use sync_agent.Queue.{Ptr, null, Queue, Allocator, ◌>>=◌}
use sync_agent.Queue.Contents.{contents, IsValid}
use sync_agent.Queue.Grow.{IsAllocator}
use sync_agent.Queue.Refine.{CanGrow, push_refines}
use sync_agent.Queue.Calls.{pop_refines, PopsTo}
use sync_agent.Queue.Session.{Call, put, get}
use sync_agent.Queue.Threads.{
  Reply, pushed, popped, alone, Phase, Move, goes, leaves, enter, work, Threads, Outcome, blocked,
  fault, next, work_at, enter_at, run_at, run_thread, Reach, start, later,
}
use sync_agent.Queue.Threads.Phases.{rest, rest_of, rest-work, alone-enter}
use sync_agent.Queue.Threads.Locks.{Locks, work-Locks}

-- A call on a list, oldest first; `none` if it would not return this.
unfoldable pub on_list : List Ptr → Call → Reply → Option (List Ptr)
on_list xs (put v) (pushed true) = some (xs ++ v ∷ [])
on_list xs (put v) (pushed false) = none
on_list xs (put v) (popped r) = none
on_list xs get (pushed b) = none
on_list [] get (popped r) = if r == null then some [] else none
on_list (x ∷ xs) get (popped r) = if r == x then some xs else none

-- The list behind calls that have returned.
unfoldable pub fifo : List Ptr → List (Call × Reply) → Option (List Ptr)
unfolding on_list
fifo xs [] = some xs
fifo xs ((c, r) ∷ h) = on_list xs c r >>= λ ys. fifo ys h

fifo_more :
    (xs : List Ptr) (o : Option (List Ptr)) (h : List (Call × Reply)) (c : Call) (r : Reply)
    → ((ys : List Ptr) → fifo ys (h ++ (c, r) ∷ []) ≡ (fifo ys h >>= λ zs. on_list zs c r))
    → (o >>= λ ys. fifo ys (h ++ (c, r) ∷ [])) ≡ ((o >>= λ ys. fifo ys h) >>= λ zs. on_list zs c r)
fifo_more xs none h c r ih = refl
fifo_more xs (some ys) h c r ih = ih ys

only : (o : Option (List Ptr)) → (o >>= λ ys. some ys) ≡ o
only none = refl
only (some ys) = refl

fifo-append :
    (xs : List Ptr) (h : List (Call × Reply)) (c : Call) (r : Reply)
    → fifo xs (h ++ (c, r) ∷ []) ≡ (fifo xs h >>= λ ys. on_list ys c r)
unfolding fifo
fifo-append xs [] c r = only (on_list xs c r)
fifo-append xs ((d, s) ∷ h) c r = fifo_more xs (on_list xs d s) h c r (λ ys. fifo-append ys h c r)

no_history : (h : List (Call × Reply)) → h ++ [] ≡ h
no_history [] = refl
no_history (e ∷ h) = ap (λ t. e ∷ t) (no_history h)

same_number : (n : ℕ) → (n == n) ≡ true
same_number n = ground arith

-- No thread is inside of a call, and the list behind the calls that have returned is the contents.
pub record Free (xs : List Ptr) (h : List (Call × Reply)) (s : Threads) : Type 0 where
  pub valid : IsValid s.queue
  pub outside : (j : ℕ) → (s.threads j).inside ≡ none
  pub listed : fifo xs h ≡ some (contents s.queue)

-- One thread is inside of a call, on a queue that it found free, and its pieces come to that call.
pub record Busy (al : Allocator) (xs : List Ptr) (h : List (Call × Reply)) (s : Threads)
    : Type 0 where
  pub i : ℕ
  pub c : Call
  pub p : Phase
  pub found : Queue
  pub at_work : (s.threads i).inside ≡ some (c, p)
  pub outside : (j : ℕ) → (j == i) ≡ false → (s.threads j).inside ≡ none
  pub locked : s.queue.lock ≡ true
  pub valid : IsValid found
  pub listed : fifo xs h ≡ some (contents found)
  pub same : rest al p s.queue ≡ alone al c found

pub data Linear (al : Allocator) (xs : List Ptr) (h : List (Call × Reply)) (s : Threads)
    : Type 0 where
  free : Free xs h s → Linear al xs h s
  busy : Busy al xs h s → Linear al xs h s

-- What a step must come to.
abbrev pub Good : Allocator → List Ptr → List (Call × Reply) → Outcome → Type 0
Good al xs h blocked = Unit
Good al xs h fault = ⊥
Good al xs h (next out t) = Linear al xs (h ++ out) t

inside_ne : {A : Type 0} {x : A} → none ≢ some x
inside_ne e = cc

same_pair :
    {A B : Type 0} {a a' : A} {b b' : B}
    → ◌≡◌ {A = Option (A × B)} (some (a, b)) (some (a', b'))
    → (a ≡ a') × (b ≡ b')
same_pair e = (cc, cc)

-- Threads before their first calls, on a valid queue.
pub record Fresh (s : Threads) : Type 0 where
  pub valid : IsValid s.queue
  pub outside : (j : ℕ) → (s.threads j).inside ≡ none

module _ {al : Allocator} (law : IsAllocator al) (can : (q : Queue) → CanGrow al q) where
  -- What a call does to a valid queue.
  abbrev Does : Call → Queue → Type 0
  Does c q =
      (r : Reply) × (q' : Queue) × (alone al c q ≡ some (r, q'))
      × IsValid q'
      × (on_list (contents q) c r ≡ some (contents q'))

  pops :
      (q q' : Queue) (r : Ptr)
      → PopsTo q r q'
      → on_list (contents q) get (popped r) ≡ some (contents q')
  unfolding on_list
  pops q q' r (inl (e, n, same)) = rw (e, n, same, e)
  pops q q' r (inr e) = rw (e, on_list, same_number r)

  alone-Does : (c : Call) (q : Queue) → IsValid q → Does c q
  unfolding alone on_list
  alone-Does (put v) q valid =
      let (q', e, valid', same) = push_refines v law valid (λ _. can q) in
      (pushed true, q', rw e, valid', ap some (sym same))
  alone-Does get q valid =
      let (r, q', e, valid', p) = pop_refines valid in (popped r, q', rw e, valid', pops q q' r p)

  module _ (xs : List Ptr) (h : List (Call × Reply)) where
    enter-Good :
        (todo : List Call) (i : ℕ) (s : Threads) → Free xs h s → Good al xs h (enter_at todo i s)
    unfolding enter_at
    enter-Good [] i s f = tt
    enter-Good (c ∷ todo) i s f =
        rw (f.valid.unlocked, enter_at)
          (busy (record {
            i = i;
            c = c;
            p = enter c;
            found = s.queue;
            at_work = rw (same_number i);
            outside = λ j n. rw n (f.outside j);
            locked = refl;
            valid = f.valid;
            listed = ap (fifo xs) (no_history h) ∙ f.listed;
            same = sym (alone-enter al c s.queue f.valid.unlocked);
          }))

    waits-Good :
        (todo : List Call) (i : ℕ) (s : Threads)
        → s.queue.lock ≡ true
        → Good al xs h (enter_at todo i s)
    unfolding enter_at
    waits-Good [] i s l = tt
    waits-Good (c ∷ todo) i s l = rw (l, enter_at) tt

    -- What is left of the call that thread `i` is inside of, behind one more piece.
    work-Good :
        (o : Option (Move × Queue)) (c : Call) (todo : List Call) (i : ℕ) (s : Threads)
        (found : Queue)
        → IsValid found
        → fifo xs h ≡ some (contents found)
        → ((j : ℕ) → (j == i) ≡ false → (s.threads j).inside ≡ none)
        → rest_of al o ≡ alone al c found
        → Locks true o
        → Good al xs h (work_at o c todo i s)
    unfolding work_at rest_of
    work-Good none c todo i s found valid listed outside same l =
        let (r, q', e, valid', listed') = alone-Does c found valid in cc
    work-Good (some (goes p, q)) c todo i s found valid listed outside same l = busy (record {
      i = i;
      c = c;
      p = p;
      found = found;
      at_work = rw (same_number i);
      outside = λ j n. rw n (outside j n);
      locked = l;
      valid = valid;
      listed = ap (fifo xs) (no_history h) ∙ listed;
      same = same;
    })
    work-Good (some (leaves r, q)) c todo i s found valid listed outside same l =
        let (r', q', e, valid', listed') = alone-Does c found valid in
        let (same_reply, same_queue) = same_pair {a = r} {a' = r'} {b = q} {b' = q'} (same ∙ e) in
        free (record {
          valid = subst IsValid (sym same_queue) valid';
          outside = λ j. elim (Bool-cases (j == i)) [ inl k ↦ rw k | inr n ↦ rw n (outside j n) ];
          listed =
              fifo-append xs h c r
              ∙ ap (λ o. o >>= λ ys. on_list ys c r) listed
              ∙ ap (on_list (contents found) c) same_reply
              ∙ listed'
              ∙ ap (λ k. some (contents k)) (sym same_queue);
        })

    run_at-Good :
        (o : Option (Call × Phase)) (i : ℕ) (s : Threads)
        → (s.threads i).inside ≡ o
        → Linear al xs h s
        → Good al xs h (run_at al o (s.threads i).todo i s)
    unfolding run_at
    run_at-Good none i s e (free f) = enter-Good (s.threads i).todo i s f
    run_at-Good none i s e (busy b) = waits-Good (s.threads i).todo i s b.locked
    run_at-Good (some (c, p)) i s e (free f) = absurd (inside_ne (sym (f.outside i) ∙ e))
    run_at-Good (some (c, p)) i s e (busy b) = elim (Bool-cases (i == b.i)) [
      | inr n ↦ absurd (inside_ne (sym (b.outside i n) ∙ e))
      | inl k ↦
          let here : i ≡ b.i = ground (arith, k) in
          let (same_call, same_phase) =
            same_pair {a = c} {a' = b.c} {b = p} {b' = b.p}
              (sym e ∙ ap (λ j. (s.threads j).inside) here ∙ b.at_work) in
          work-Good (work al p s.queue) c (s.threads i).todo i s b.found b.valid b.listed
            (λ j n. b.outside j (sym (ap (λ k'. j == k') here) ∙ n))
            (sym (rest-work al p s.queue)
              ∙ ap (λ p'. rest al p' s.queue) same_phase
              ∙ b.same
              ∙ ap (λ c'. alone al c' b.found) (sym same_call))
            (subst (λ l. Locks l (work al p s.queue)) b.locked (work-Locks al p s.queue))
    ]

    pub run_thread-Good :
        (i : ℕ) (s : Threads) → Linear al xs h s → Good al xs h (run_thread al i s)
    unfolding run_thread
    run_thread-Good i s l = run_at-Good (s.threads i).inside i s refl l

  -- In every state that any schedule of any number of threads leads to, from a valid queue and threads
  -- before their first calls, where `realloc` never fails: the calls that have returned, in the order in
  -- which they let the mutex go, are calls on a first-in first-out list that starts as the contents. If no
  -- thread is inside of a call, the queue is valid and its contents are that list; else exactly one is,
  -- with the mutex held, and the rest of its call does what the call does alone on a valid queue that
  -- holds that list.
  pub Reach-Linear :
      {s₀ s : Threads} {h : List (Call × Reply)}
      → Fresh s₀
      → Reach al s₀ h s
      → Linear al (contents s₀.queue) h s
  unfolding fifo
  Reach-Linear f start = free (record { valid = f.valid; outside = f.outside; listed = refl })
  Reach-Linear {s₀} f (later {h = h} {s = s} i r e) =
      subst (Good al (contents s₀.queue) h) e
        (run_thread-Good (contents s₀.queue) h i s (Reach-Linear f r))

  -- No step of any schedule faults.
  pub Reach-ne-fault :
      {s₀ s : Threads} {h : List (Call × Reply)} (i : ℕ)
      → Fresh s₀
      → Reach al s₀ h s
      → run_thread al i s ≢ fault
  Reach-ne-fault {s₀} {s} {h} i f r e =
      subst (Good al (contents s₀.queue) h) e
        (run_thread-Good (contents s₀.queue) h i s (Reach-Linear f r))
