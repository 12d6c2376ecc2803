-- ===== src/Queue/Threads/Locks.antt =====
-- No piece of a call but the last touches the mutex.
use mathlib.Core.Option
use mathlib.Core.Path.{subst}
use sync_agent.Base.{
  ℕ, zero, suc, ◌+◌, ◌≡◌, refl, Bool, true, false, Option, none, some, if◌then◌else◌, Bool-cases,
  inl, inr, ltb, length, List, set,
}
use sync_agent.Queue.{Ptr, Queue, Allocator, ◌>>=◌, load, store, rearrange, move_wrapped}
use sync_agent.Queue.Threads.{
  pushed, popped, Phase, testing_full, doubling, advancing, storing, reallocating, moving,
  testing_empty, fronting, loading, leaving, Move, goes, leaves, work,
}

-- The mutex behind a piece that starts with it as given.
abbrev pub Locks : Bool → Option (Move × Queue) → Type 0
Locks l none = Unit
Locks l (some (goes p, q)) = q.lock ≡ l
Locks l (some (leaves r, q)) = q.lock ≡ false

abbrev KeepsLock : Bool → Option Queue → Type 0
KeepsLock l none = Unit
KeepsLock l (some q) = q.lock ≡ l

store_cells :
    (q : Queue) (i : ℕ) (v : Ptr) (o : Option (List Ptr))
    → KeepsLock q.lock (
        o >>= λ cells.
        if ltb i (length cells) then some (record q { q = some (set cells i v) }) else none)
store_cells q i v none = tt
store_cells q i v (some cells) = elim (Bool-cases (ltb i (length cells))) [
  | inl e ↦ rw e refl
  | inr n ↦ rw n tt
]

store-KeepsLock : (q : Queue) (i : ℕ) (v : Ptr) → KeepsLock q.lock (store q i v)
store-KeepsLock q i v = store_cells q i v q.q

then_keeps :
    (l : Bool) (o : Option Queue) (f : Queue → Option Queue)
    → KeepsLock l o
    → ((q : Queue) → KeepsLock q.lock (f q))
    → KeepsLock l (o >>= f)
then_keeps l none f k g = tt
then_keeps l (some q) f k g = subst (λ b. KeepsLock b (f q)) k (g q)

loaded_keeps :
    (l : Bool) (o : Option Ptr) (f : Ptr → Option Queue)
    → ((v : Ptr) → KeepsLock l (f v))
    → KeepsLock l (o >>= f)
loaded_keeps l none f g = tt
loaded_keeps l (some v) f g = g v

move_wrapped-KeepsLock :
    (n i org_size : ℕ) (q : Queue) → KeepsLock q.lock (move_wrapped n i org_size q)
unfolding move_wrapped
move_wrapped-KeepsLock zero i org_size q = refl
move_wrapped-KeepsLock (suc n) i org_size q = loaded_keeps q.lock (load q i) _ λ v.
    then_keeps q.lock (store q (org_size + i) v) _ (store-KeepsLock q (org_size + i) v)
      (move_wrapped-KeepsLock n (i + 1) org_size)

rearrange-KeepsLock : (org_size : ℕ) (q : Queue) → KeepsLock q.lock (rearrange org_size q)
unfolding rearrange
rearrange-KeepsLock org_size q = elim (Bool-cases (ltb q.rear q.front)) [
  | inl e ↦ rw e (
      then_keeps q.lock (move_wrapped (q.rear + 1) 0 org_size q) _
        (move_wrapped-KeepsLock (q.rear + 1) 0 org_size q) (λ q'. refl))
  | inr n ↦ rw n refl
]

goes_on :
    (l : Bool) (p : Phase) (o : Option Queue)
    → KeepsLock l o
    → Locks l (Option.map (λ q. (goes p, q)) o)
goes_on l p none k = tt
goes_on l p (some q) k = k

module _ (al : Allocator) where
  loaded :
      (q : Queue) (o : Option Ptr)
      → Locks q.lock (Option.map (λ v. (goes (leaving (popped v)), q)) o)
  loaded q none = tt
  loaded q (some v) = refl

  pub work-Locks : (p : Phase) (q : Queue) → Locks q.lock (work al p q)
  unfolding work
  work-Locks (testing_full v) q = refl
  work-Locks (doubling v) q = refl
  work-Locks (reallocating v org_size) q = refl
  work-Locks (moving v org_size) q =
      goes_on q.lock (advancing v) (rearrange org_size q) (rearrange-KeepsLock org_size q)
  work-Locks (advancing v) q = refl
  work-Locks (storing v) q =
      goes_on q.lock (leaving (pushed true)) (store q q.rear v) (store-KeepsLock q q.rear v)
  work-Locks testing_empty q = refl
  work-Locks fronting q = refl
  work-Locks loading q = loaded q (load q q.front)
  work-Locks (leaving r) q = refl
