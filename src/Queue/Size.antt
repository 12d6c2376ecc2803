-- ===== src/Queue/Size.antt =====
-- The size of the array in a session of calls, and the `int`s that the code computes from it.

use sync_agent.Base.{
  ℕ, suc, ◌+◌, ◌*◌, ◌^◌, ◌≤◌, ◌<◌, ◌≡◌, ap, refl, true, false, some, none, Option, List, [], ◌∷◌,
  arith, length, length-append, inl, inr, Bool-cases,
}
use sync_agent.Queue.{Ptr, Queue, Allocator, full, push, pop, take_front, ◌>>=◌}
use sync_agent.Queue.Contents.{count, contents, length-contents, mod-eq-wrap, Fits, IsValid}
use sync_agent.Queue.Grow.{IsAllocator}
use sync_agent.Queue.Refine.{CanGrow, push_sized}
use sync_agent.Queue.Calls.{pop_refines, PopsTo}
use sync_agent.Queue.Session.{Call, put, get}

pop-size : (q q' : Queue) (r : Ptr) → pop q ≡ some (r, q') → q'.size ≡ q.size
unfolding pop take_front
pop-size q q' r h = ground arith

-- A full queue holds all but one of the pointers that its array has room for.
full-count : {q : Queue} → Fits q → full q ≡ true → suc (count q) ≡ q.size
unfolding full
full-count {q} f h = ground (arith, mod-eq-wrap (q.rear + 1) q.size)

popped-length :
    (q q' : Queue) (r : Ptr) → PopsTo q r q' → length (contents q') ≤ length (contents q)
popped-length q q' r (inl (e, n, same)) = rw same (omega arith)
popped-length q q' r (inr e) = rw e (omega arith)

-- The queue after a session of calls; `none` is a fault, or a `queue_push` that returned 0.
unfoldable pub run_queue : Allocator → Queue → List Call → Option Queue
run_queue al q [] = some q
run_queue al q (put v ∷ calls) = do
  (ok, q') ← push al q v
  elim ok [ true ↦ run_queue al q' calls | false ↦ none ]
run_queue al q (get ∷ calls) = do (r, q') ← pop q; run_queue al q' calls

-- The calls of `queue_push`.
abbrev pub puts : List Call → ℕ
puts [] = 0
puts (put v ∷ calls) = suc (puts calls)
puts (get ∷ calls) = puts calls

-- The `int`s that the functions compute from a queue, but for its double, are below 2 ^ 31.
pub record IntFits (q : Queue) : Type 0 where
  pub size : q.size < 2 ^ 31
  pub next_rear : q.rear + 1 < 2 ^ 31
  pub next_front : q.front + 1 < 2 ^ 31
  pub moved : q.rear + q.size < 2 ^ 31

Fits-IntFits : {q : Queue} → Fits q → q.size ≤ 2 ^ 30 → IntFits q
Fits-IntFits f h = record {
  size = omega (arith, f.two);
  next_rear = omega (arith, f.rear_in);
  next_front = omega (arith, f.front_in);
  moved = omega (arith, f.rear_in);
}

module _ {al : Allocator} (law : IsAllocator al) (can : (q : Queue) → CanGrow al q) where
  -- After a session the size is the old one, or at most twice what the queue can have come to hold.
  run_queue-size :
      (calls : List Call) {q : Queue} (bound : ℕ)
      → IsValid q
      → q.size ≤ bound
      → 2 * (length (contents q) + puts calls) ≤ bound
      → (q' : Queue) × (run_queue al q calls ≡ some q') × IsValid q' × (q'.size ≤ bound)
  unfolding run_queue
  run_queue-size [] {q} bound valid s c = (q, refl, valid, s)
  run_queue-size (put v ∷ calls) {q} bound valid s c =
      let (q₁, e, valid₁, holds, sized) = push_sized v law valid (λ _. can q) in
      let l : length (contents q₁) ≡ length (contents q) + 1 =
        omega (arith, ap length holds, length-append (contents q) (v ∷ [])) in
      let s₁ : q₁.size ≤ bound = elim (Bool-cases (full q)) [
        | inl f ↦
            let big : q₁.size ≡ q.size * 2 = rw f at sized in
            omega (arith, full-count valid.fits f, length-contents q)
        | inr n ↦ let same : q₁.size ≡ q.size = rw n at sized in omega arith
      ] in
      let (q', runs, valid', fits) = run_queue-size calls bound valid₁ s₁ (omega arith) in
      (q', rw e runs, valid', fits)
  run_queue-size (get ∷ calls) {q} bound valid s c =
      let (r, q₁, e, valid₁, p) = pop_refines valid in
      let same : q₁.size ≡ q.size = pop-size q q₁ r e in
      let l = popped-length q q₁ r p in
      let (q', runs, valid', fits) =
        run_queue-size calls bound valid₁ (omega arith) (omega arith) in
      (q', rw e runs, valid', fits)

  -- If `realloc` never fails and a valid queue starts with at most 2 ^ 30 cells, and what it holds and
  -- what the calls push are together at most 2 ^ 29 pointers, then no session of calls faults, and the
  -- `int`s of the queue that it comes to, its doubled size included where it grew, do not overflow.
  pub run_queue_bounds :
      (calls : List Call) {q : Queue}
      → IsValid q
      → q.size ≤ 2 ^ 30
      → length (contents q) + puts calls ≤ 2 ^ 29
      → (q' : Queue) × (run_queue al q calls ≡ some q')
        × IsValid q'
        × (q'.size ≤ 2 ^ 30)
        × IntFits q'
  run_queue_bounds calls valid s c =
      let (q', runs, valid', fits) = run_queue-size calls (2 ^ 30) valid s (omega arith) in
      (q', runs, valid', fits, Fits-IntFits valid'.fits fits)
