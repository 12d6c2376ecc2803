-- ===== src/Queue/Threads/Progress.antt =====
-- No schedule of the threads leads to a deadlock.
use mathlib.Core.Path.{subst}
use sync_agent.Base.{
  ℕ, ◌≡◌, ◌≢◌, ◌∙◌, sym, ap, refl, false, Option, none, some, List, [], ◌∷◌, ◌⊎◌, inl, inr,
}
use sync_agent.Queue.{Queue, Allocator}
use sync_agent.Queue.Contents.{contents}
use sync_agent.Queue.Grow.{IsAllocator}
use sync_agent.Queue.Refine.{CanGrow}
use sync_agent.Queue.Session.{Call}
use sync_agent.Queue.Threads.{
  Reply, Phase, Move, goes, leaves, work, Threads, Outcome, fault, next, work_at, enter_at, run_at,
  run_thread, Reach,
}
use sync_agent.Queue.Threads.Linear.{Linear, free, busy, Fresh, Reach-Linear, Reach-ne-fault}

-- A step that goes on.
abbrev pub GoesOn : Outcome → Type 0
GoesOn o = (out : List (Call × Reply)) × (t : Threads) × (o ≡ next out t)

work_on :
    (o : Option (Move × Queue)) (c : Call) (todo : List Call) (i : ℕ) (s : Threads)
    → work_at o c todo i s ≢ fault
    → GoesOn (work_at o c todo i s)
unfolding work_at
work_on none c todo i s n = absurd (n refl)
work_on (some (goes p, q)) c todo i s n = (_, _, refl)
work_on (some (leaves r, q)) c todo i s n = (_, _, refl)

enters :
    (todo : List Call) (i : ℕ) (s : Threads)
    → todo ≢ []
    → s.queue.lock ≡ false
    → GoesOn (enter_at todo i s)
unfolding enter_at
enters [] i s n l = absurd (n refl)
enters (c ∷ todo) i s n l = rw (l, enter_at) (_, _, refl)

inside_on :
    (al : Allocator) (c : Call) (p : Phase) (i : ℕ) (s : Threads)
    → (s.threads i).inside ≡ some (c, p)
    → run_thread al i s ≢ fault
    → GoesOn (run_thread al i s)
unfolding run_thread run_at
inside_on al c p i s e n =
    let same : run_thread al i s ≡ work_at (work al p s.queue) c (s.threads i).todo i s =
      ap (λ o. run_at al o (s.threads i).todo i s) e in
    subst GoesOn (sym same)
      (work_on (work al p s.queue) c (s.threads i).todo i s (λ f. n (same ∙ f)))

outside_on :
    (al : Allocator) (i : ℕ) (s : Threads)
    → (s.threads i).inside ≡ none
    → (s.threads i).todo ≢ []
    → s.queue.lock ≡ false
    → GoesOn (run_thread al i s)
unfolding run_thread run_at
outside_on al i s e n l =
    subst GoesOn (sym (ap (λ o. run_at al o (s.threads i).todo i s) e))
      (enters (s.threads i).todo i s n l)

module _ {al : Allocator} (law : IsAllocator al) (can : (q : Queue) → CanGrow al q) where
  by_state :
      {s₀ s : Threads} {h : List (Call × Reply)} (j : ℕ)
      → Fresh s₀
      → Reach al s₀ h s
      → ((s.threads j).inside ≢ none) ⊎ ((s.threads j).todo ≢ [])
      → Linear al (contents s₀.queue) h s
      → (i : ℕ) × GoesOn (run_thread al i s)
  by_state {s₀} {s} j f r waits (busy b) =
      (b.i, inside_on al b.c b.p b.i s b.at_work (Reach-ne-fault law can b.i f r))
  by_state {s₀} {s} j f r (inl n) (free u) = absurd (n (u.outside j))
  by_state {s₀} {s} j f r (inr n) (free u) = (j, outside_on al j s (u.outside j) n u.valid.unlocked)

  -- In every state that any schedule of any number of threads leads to, from a valid queue and threads
  -- before their first calls, where `realloc` never fails: as long as some thread is inside of a call or
  -- has calls left to make, some thread can go on.
  pub Reach-GoesOn :
      {s₀ s : Threads} {h : List (Call × Reply)} (j : ℕ)
      → Fresh s₀
      → Reach al s₀ h s
      → ((s.threads j).inside ≢ none) ⊎ ((s.threads j).todo ≢ [])
      → (i : ℕ) × GoesOn (run_thread al i s)
  Reach-GoesOn j f r waits = by_state j f r waits (Reach-Linear law can f r)
