-- ===== src/Queue/Threads/Phases.antt =====
-- The pieces of a call, taken one after the other, are the call.
use mathlib.Core.Option
use sync_agent.Base.{
  ℕ, ◌+◌, ◌*◌, ◌%◌, ◌≡◌, refl, Bool, true, false, Option, none, some, ◌==◌, if◌then◌else◌,
  Bool-cases, inl, inr, List,
}
use sync_agent.Queue.{
  Ptr, null, Queue, Allocator, ◌>>=◌, reallocate, mutex_unlock, load, store, full, rearrange, push,
  pop, grow, push_into, take_front, append,
}
use sync_agent.Queue.Session.{Call, put, get}
use sync_agent.Queue.Threads.{
  Reply, pushed, popped, alone, Phase, testing_full, doubling, advancing, storing, reallocating,
  moving, testing_empty, fronting, loading, leaving, Move, goes, leaves, enter, work,
}

module _ (al : Allocator) where
  -- The rest of a call, from each piece on.
  abbrev rest_storing : Ptr → Queue → Option (Reply × Queue)
  rest_storing v q = Option.map (λ q'. (pushed true, mutex_unlock q')) (store q q.rear v)

  abbrev rest_advancing : Ptr → Queue → Option (Reply × Queue)
  rest_advancing v q = rest_storing v (record q { rear = (q.rear + 1) % q.size })

  abbrev rest_moving : Ptr → ℕ → Queue → Option (Reply × Queue)
  rest_moving v org_size q = rearrange org_size q >>= rest_advancing v

  rest_block : Ptr → ℕ → Queue → Option (List Ptr) → Option (Reply × Queue)
  rest_block v org_size q none = some (pushed false, mutex_unlock (record q { q = none }))
  rest_block v org_size q (some cells) = rest_moving v org_size (record q { q = some cells })

  abbrev rest_reallocating : Ptr → ℕ → Queue → Option (Reply × Queue)
  rest_reallocating v org_size q = rest_block v org_size q (reallocate al q.q q.size)

  abbrev rest_doubling : Ptr → Queue → Option (Reply × Queue)
  rest_doubling v q = rest_reallocating v q.size (record q { size = q.size * 2 })

  abbrev rest_loading : Queue → Option (Reply × Queue)
  rest_loading q = Option.map (λ v. (popped v, mutex_unlock q)) (load q q.front)

  abbrev rest_fronting : Queue → Option (Reply × Queue)
  rest_fronting q = rest_loading (record q { front = (q.front + 1) % q.size })

  unfoldable pub rest : Phase → Queue → Option (Reply × Queue)
  unfolding rest_block
  rest (testing_full v) q = if full q then rest_doubling v q else rest_advancing v q
  rest (doubling v) q = rest_doubling v q
  rest (reallocating v org_size) q = rest_reallocating v org_size q
  rest (moving v org_size) q = rest_moving v org_size q
  rest (advancing v) q = rest_advancing v q
  rest (storing v) q = rest_storing v q
  rest testing_empty q =
      if q.front == q.rear then some (popped null, mutex_unlock q) else rest_fronting q
  rest fronting q = rest_fronting q
  rest loading q = rest_loading q
  rest (leaving r) q = some (r, mutex_unlock q)

  -- What is left after a piece.
  unfoldable pub rest_of : Option (Move × Queue) → Option (Reply × Queue)
  rest_of none = none
  rest_of (some (goes p, q)) = rest p q
  rest_of (some (leaves r, q)) = some (r, q)

  moved_on :
      (v : Ptr) (o : Option Queue)
      → (o >>= rest_advancing v) ≡ rest_of (Option.map (λ q'. (goes (advancing v), q')) o)
  unfolding rest_of rest
  moved_on v none = refl
  moved_on v (some q) = refl

  stored :
      (o : Option Queue)
      → Option.map (λ q'. (pushed true, mutex_unlock q')) o
        ≡ rest_of (Option.map (λ q'. (goes (leaving (pushed true)), q')) o)
  unfolding rest_of rest
  stored none = refl
  stored (some q) = refl

  loaded :
      (q : Queue) (o : Option Ptr)
      → Option.map (λ v. (popped v, mutex_unlock q)) o
        ≡ rest_of (Option.map (λ v. (goes (leaving (popped v)), q)) o)
  unfolding rest_of rest
  loaded q none = refl
  loaded q (some v) = refl

  block_given :
      (v : Ptr) (org_size : ℕ) (q : Queue) (block : Option (List Ptr))
      → rest_block v org_size q block
        ≡ rest
            (elim block [ none ↦ leaving (pushed false) | some _ ↦ moving v org_size ])
            (record q { q = block })
  unfolding rest rest_block
  block_given v org_size q none = refl
  block_given v org_size q (some cells) = refl

  pub rest-work : (p : Phase) (q : Queue) → rest p q ≡ rest_of (work al p q)
  unfolding rest rest_of work rest_block
  rest-work (testing_full v) q = elim (Bool-cases (full q)) [ inl e ↦ rw e | inr n ↦ rw n ]
  rest-work (doubling v) q = refl
  rest-work (reallocating v org_size) q = block_given v org_size q (reallocate al q.q q.size)
  rest-work (moving v org_size) q = moved_on v (rearrange org_size q)
  rest-work (advancing v) q = refl
  rest-work (storing v) q = stored (store q q.rear v)
  rest-work testing_empty q = elim (Bool-cases (q.front == q.rear)) [ inl e ↦ rw e | inr n ↦ rw n ]
  rest-work fronting q = refl
  rest-work loading q = loaded q (load q q.front)
  rest-work (leaving r) q = refl

  abbrev as_pushed : Bool × Queue → Reply × Queue
  as_pushed r = (pushed r.0, r.1)

  abbrev as_popped : Ptr × Queue → Reply × Queue
  as_popped r = (popped r.0, r.1)

  abbrev done : Queue → Bool × Queue
  done q = (true, q)

  abbrev given : Ptr → Queue → Ptr × Queue
  given v q = (v, q)

  -- The end of `queue_push`, where there is room.
  appends :
      (o : Option Queue)
      → Option.map as_pushed (Option.map (λ q'. done (mutex_unlock q')) o)
        ≡ Option.map (λ q'. as_pushed (done (mutex_unlock q'))) o
  appends none = refl
  appends (some q) = refl

  moves :
      (v : Ptr) (o : Option Queue)
      → Option.map as_pushed (Option.map done o >>= λ (r : Bool × Queue). push_into r.0 r.1 v)
        ≡ (o >>= rest_advancing v)
  unfolding push_into append
  moves v none = refl
  moves v (some q) =
      appends (store (record q { rear = (q.rear + 1) % q.size }) ((q.rear + 1) % q.size) v)

  by_block :
      (v : Ptr) (org_size : ℕ) (q : Queue) (block : Option (List Ptr))
      → Option.map as_pushed (
          (let q' = record q { q = block } in
            elim block [
              | none ↦ some (false, q')
              | some _ ↦ Option.map done (rearrange org_size q')
            ])
          >>= λ (r : Bool × Queue). push_into r.0 r.1 v)
        ≡ rest_block v org_size q block
  unfolding push_into rest_block
  by_block v org_size q none = refl
  by_block v org_size q (some cells) = moves v (rearrange org_size (record q { q = some cells }))

  taken :
      (q : Queue) (o : Option Ptr)
      → Option.map as_popped (Option.map (λ v. given v (mutex_unlock q)) o)
        ≡ Option.map (λ v. as_popped (given v (mutex_unlock q))) o
  taken q none = refl
  taken q (some v) = refl

  takes : (q : Queue) → Option.map as_popped (take_front q) ≡ rest_fronting q
  unfolding take_front
  takes q = taken (record q { front = (q.front + 1) % q.size }) (load q ((q.front + 1) % q.size))

  push_call :
      (v : Ptr) (q : Queue)
      → q.lock ≡ false
      → alone al (put v) q ≡ rest (testing_full v) (record q { lock = true })
  unfolding alone push full append rest grow
  push_call v q free = elim (Bool-cases (full q)) [
    | inl e ↦
        rw (free, e, push)
          (by_block v q.size (record q { size = q.size * 2; lock = true })
            (reallocate al q.q (q.size * 2)))
    | inr n ↦
        rw (free, n, push)
          (appends (
            store (record q { rear = (q.rear + 1) % q.size; lock = true }) ((q.rear + 1) % q.size)
              v))
  ]

  pop_call :
      (q : Queue) → q.lock ≡ false → alone al get q ≡ rest testing_empty (record q { lock = true })
  unfolding alone pop rest
  pop_call q free = elim (Bool-cases (q.front == q.rear)) [
    | inl e ↦ rw (free, e, pop)
    | inr n ↦ rw (free, n, pop) (takes (record q { lock = true }))
  ]

  -- A call on a free queue is its pieces behind the lock.
  pub alone-enter :
      (c : Call) (q : Queue)
      → q.lock ≡ false
      → alone al c q ≡ rest (enter c) (record q { lock = true })
  unfolding enter
  alone-enter (put v) q free = push_call v q free
  alone-enter get q free = pop_call q free
