-- ===== src/Queue/Contents.antt =====
-- What a queue holds, oldest first, and when a `queue_t` is well formed.
use native.Mathlib.Nat.{mod-eq_of_lt, mod-eq-sub-mod}
use native.Mathlib.Decide.{dec_lt}
use sync_agent.Base.{
  ℕ, suc, ◌+◌, ◌-◌, ◌%◌, ◌≤◌, ◌<◌, ◌≡◌, false, Option, none, some, List, [], arith, ltb, leb,
  if◌then◌else◌, length, get_or,
}
use sync_agent.Queue.{Ptr, null, Queue}
use sync_agent.Queue.Window.{segment, length-segment}

abbrev pub cells_of : Option (List Ptr) → List Ptr
cells_of none = []
cells_of (some cells) = cells

-- A position below twice the size, taken round the end of the array.
abbrev pub wrap : ℕ → ℕ → ℕ
wrap size i = if ltb i size then i else i - size

pub mod-eq-wrap : (i size : ℕ) → i < size + size → i % size ≡ wrap size i
mod-eq-wrap i size h = elim (dec_lt i size) [
  | yes p ↦ ground (arith, mod-eq_of_lt p)
  | no p ↦ ground (
    arith,
    mod-eq-sub-mod {n = i} {m = size} (omega arith),
    mod-eq_of_lt {n = i - size} {m = size} (omega arith),
  )
]

abbrev pub cell_at : List Ptr → ℕ → ℕ → Ptr
cell_at cells size i = get_or cells (wrap size i) null

-- The number of steps from `front` round to `rear`.
abbrev pub count : Queue → ℕ
count q = if leb q.front q.rear then q.rear - q.front else q.rear + q.size - q.front

-- The pointers behind `front`, up to `rear`: what the queue holds, oldest first.
abbrev pub contents : Queue → List Ptr
contents q = segment (cell_at (cells_of q.q) q.size) (suc q.front) (count q)

-- The array has `size` cells, at least two, and both indices lie in it.
pub record Fits (q : Queue) : Type 0 where
  pub array : q.q ≡ some (cells_of q.q)
  pub storage : length (cells_of q.q) ≡ q.size
  pub two : 2 ≤ q.size
  pub front_in : q.front < q.size
  pub rear_in : q.rear < q.size

-- The invariant of a queue between two calls: moreover the mutex is free.
pub record IsValid (q : Queue) : Type 0 where
  pub fits : Fits q
  pub unlocked : q.lock ≡ false

pub length-contents : (q : Queue) → length (contents q) ≡ count q
length-contents q = length-segment (cell_at (cells_of q.q) q.size) (suc q.front) (count q)
