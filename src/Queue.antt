-- ===== src/Queue.antt =====
-- src/core/base/equeue.c and equeue.h: a growing ring buffer of `void *` under a mutex.
-- `none` is a fault of the C program: a mutex locked twice, a NULL array, an index out of range.

pub mod Window
pub mod Contents
pub mod Grow
pub mod Refine
pub mod Calls
pub mod Session
pub mod Size
pub mod Threads
mod Tests
use mathlib.Core.Option
use sync_agent.Base.{
  ℕ, zero, suc, ◌+◌, ◌-◌, ◌*◌, ◌%◌, Bool, true, false, ◌||◌, Option, none, some, List, ltb, ◌==◌,
  if◌then◌else◌, length, get_elem?, set,
}
use sync_agent.Base.Int.{ℤ, pos, negsuc}

-- A `void *` is a number; NULL is 0.
abbrev pub Ptr : Type 0
Ptr = ℕ

abbrev pub null : Ptr
null = 0

abbrev pub init_queue_size : ℕ
init_queue_size = 1024

-- `malloc` and `realloc` at the element type `void *`: a size is a number of pointers, and a block
-- is the list of what its cells hold.
pub record Allocator : Type 0 where
  pub malloc_header : Bool
  pub malloc : ℕ → Option (List Ptr)
  pub realloc : List Ptr → ℕ → Option (List Ptr)

-- `queue_t`. `q` is `none` for NULL, and `lock` says whether the mutex is held.
pub record Queue : Type 0 where
  pub q : Option (List Ptr)
  pub front : ℕ
  pub rear : ℕ
  pub size : ℕ
  pub lock : Bool

infixl 5 ◌>>=◌
abbrev pub ◌>>=◌ {ℓ κ} : {A : Type ℓ} {B : Type κ} → Option A → (A → Option B) → Option B
none >>= f = none
some a >>= f = f a

-- The size that `queue_create` gives to the array.
abbrev pub start_size : ℕ → ℕ
start_size n = if n == 0 || n == 1 then init_queue_size else n

-- The part of `queue_create` behind the test of the sign. The allocation of the `queue_t` may fail,
-- then that of the array.
create_of_size : Allocator → ℕ → Option Queue
create_of_size al n =
    if al.malloc_header
    then (do
      q ← al.malloc (start_size n)
      some (record { q = some q; front = 0; rear = 0; size = start_size n; lock = false }))
    else none

-- `queue_create`; `none` is the NULL that it returns.
unfoldable pub create : Allocator → ℤ → Option Queue
unfolding create_of_size
create al (negsuc n) = none
create al (pos n) = create_of_size al n

-- `queue_destroy`, on the pointer behind `queue`: both blocks are freed, and it becomes NULL.
unfoldable pub destroy : Option Queue → Option Queue
destroy none = none
destroy (some q) = none

-- `pthread_mutex_lock`: locking a mutex that is held never returns.
abbrev pub mutex_lock : Queue → Option Queue
mutex_lock q = if q.lock then none else some (record q { lock = true })

abbrev pub mutex_unlock : Queue → Queue
mutex_unlock q = record q { lock = false }

-- `queue->q[i]`
abbrev pub load : Queue → ℕ → Option Ptr
load q i = do cells ← q.q; get_elem? cells i

-- `queue->q[i] = v`
abbrev pub store : Queue → ℕ → Ptr → Option Queue
store q i v = do
  cells ← q.q
  if ltb i (length cells) then some (record q { q = some (set cells i v) }) else none

-- `queue_full`
unfoldable pub full : Queue → Bool
full q = (q.rear + 1) % q.size == q.front

-- `for (i = 0; i <= queue->rear; i++) queue->q[org_size + i] = queue->q[i]`, by the rounds left.
unfoldable pub move_wrapped : ℕ → ℕ → ℕ → Queue → Option Queue
move_wrapped zero i org_size q = some q
move_wrapped (suc n) i org_size q = do
  v ← load q i
  q' ← store q (org_size + i) v
  move_wrapped n (i + 1) org_size q'

-- After a successful `realloc`: what stood before the front goes behind the old end.
unfoldable pub rearrange : ℕ → Queue → Option Queue
unfolding move_wrapped
rearrange org_size q =
    if ltb q.rear q.front
    then (do
      q' ← move_wrapped (q.rear + 1) 0 org_size q
      some (record q' { rear = org_size + q'.rear }))
    else some q

-- `realloc` on the array of a queue: on a NULL pointer it is `malloc`.
unfoldable pub reallocate : Allocator → Option (List Ptr) → ℕ → Option (List Ptr)
reallocate al none n = al.malloc n
reallocate al (some cells) n = al.realloc cells n

-- The branch of `queue_push` for a full queue. The Boolean is false if `realloc` failed; by then
-- `size` is doubled and `q` is NULL.
unfoldable pub grow : Allocator → Queue → Option (Bool × Queue)
unfolding rearrange reallocate
grow al q =
    let block = reallocate al q.q (q.size * 2) in
    let q' = record q { size = q.size * 2; q = block } in
    elim block [
      | none ↦ some (false, q')
      | some _ ↦ Option.map (λ r. (true, r)) (rearrange q.size q')
    ]

-- The last two writes of `queue_push`.
unfoldable pub append : Queue → Ptr → Option Queue
append q v = let r = (q.rear + 1) % q.size in store (record q { rear = r }) r v

-- The end of `queue_push`: the flag says whether the array has room now.
pub push_into : Bool → Queue → Ptr → Option (Bool × Queue)
unfolding append
push_into false q v = some (false, mutex_unlock q)
push_into true q v = Option.map (λ r. (true, mutex_unlock r)) (append q v)

-- `queue_push`: the result is 1 or 0, and the queue after the call.
unfoldable pub push : Allocator → Queue → Ptr → Option (Bool × Queue)
unfolding full grow push_into
push al q v = do
  q₁ ← mutex_lock q
  (room, q₂) ← (if full q₁ then grow al q₁ else some (true, q₁))
  push_into room q₂ v

-- `queue_pop` behind the test for an empty queue, with the lock held.
pub take_front : Queue → Option (Ptr × Queue)
take_front q =
    let front' = (q.front + 1) % q.size in
    Option.map (λ v. (v, mutex_unlock (record q { front = front' }))) (load q front')

-- `queue_pop`: NULL on an empty queue.
unfoldable pub pop : Queue → Option (Ptr × Queue)
unfolding take_front
pop q = do
  q₁ ← mutex_lock q
  if q₁.front == q₁.rear then some (null, mutex_unlock q₁) else take_front q₁

-- `queue_head`: it does not test for an empty queue.
unfoldable pub head : Queue → Option (Ptr × Queue)
head q = do q₁ ← mutex_lock q; v ← load q₁ ((q₁.front + 1) % q₁.size); some (v, mutex_unlock q₁)

-- `queue_empty`
unfoldable pub empty : Queue → Bool
empty q = q.front == q.rear

-- `queue_element_count`; the sum is not negative while `front` is below `size`.
unfoldable pub element_count : Queue → ℕ
element_count q = (q.rear + q.size - q.front) % q.size

-- `queue_size`
unfoldable pub size_of : Queue → ℕ
size_of q = q.size
