-- ===== src/Queue/Calls.antt =====
-- `queue_create`, `queue_pop`, `queue_head` and the observers against the contents; the failure of
-- `realloc` in `queue_push`.
use sync_agent.Base.{
  ℕ, zero, suc, ◌+◌, ◌-◌, ◌%◌, ◌<◌, ◌≡◌, ◌≢◌, ◌∙◌, ◌⊎◌, inl, inr, ◌↔◌, sym, ap, refl, true, false,
  some, List, [], ◌∷◌, arith, length, get_or, get_elem?, get_elem?-eq-get_or, Bool-cases, ◌==◌,
}
use sync_agent.Base.Int.{pos}
use sync_agent.Queue.{
  Ptr, null, Queue, Allocator, create, start_size, pop, head, empty, element_count,
}
use sync_agent.Queue.Window.{segment, segment_ext}
use sync_agent.Queue.Contents.{
  cells_of, wrap, mod-eq-wrap, cell_at, count, contents, Fits, IsValid, length-contents,
}
use sync_agent.Queue.Grow.{IsAllocator}

-- `queue_create` with a size that is not negative: if the two allocations succeed, the queue is
-- valid and empty, and has the size asked for, 0 and 1 standing for the default size.
pub create_lem :
    {al : Allocator} (n : ℕ) (c : List Ptr)
    → IsAllocator al
    → al.malloc_header ≡ true
    → al.malloc (start_size n) ≡ some c
    → (q : Queue) × (create al (pos n) ≡ some q)
      × IsValid q
      × (contents q ≡ [])
      × (q.size ≡ start_size n)
unfolding create
create_lem {al} n c law header block =
    let l = law.malloc_length (start_size n) c block in
    (
      record { q = some c; front = 0; rear = 0; size = start_size n; lock = false },
      rw (header, block),
      record {
        fits = record {
          array = refl;
          storage = l;
          two = ground arith;
          front_in = ground arith;
          rear_in = ground arith;
        };
        unlocked = refl;
      },
      refl,
      refl,
    )

-- The queue without its oldest pointer.
abbrev popped : Queue → Queue
popped q = record q { front = wrap q.size (suc q.front) }

segment-nil : (f : ℕ → Ptr) (s n : ℕ) → n ≡ 0 → segment f s n ≡ []
segment-nil f s n h = rw h

segment-pos : (f : ℕ → Ptr) (s n : ℕ) → 0 < n → segment f s n ≡ f s ∷ segment f (suc s) (n - 1)
segment-pos f s zero h = absurd (omega arith)
segment-pos f s (suc n) h = ap (λ k. f s ∷ segment f (suc s) k) (omega arith)

module _ {q : Queue} (f : Fits q) (some_left : q.front ≢ q.rear) where
  segment-popped :
      segment (cell_at (cells_of q.q) q.size) (suc (suc q.front)) (count q - 1)
      ≡ contents (popped q)
  segment-popped =
      let c : count (popped q) ≡ count q - 1 = ground arith in
      rw c (
        segment_ext (cell_at (cells_of q.q) q.size) (cell_at (cells_of q.q) q.size)
          (suc (suc q.front)) (suc (wrap q.size (suc q.front))) (count q - 1)
          (λ k h. ap (λ i. get_or (cells_of q.q) i null) (ground arith)))

  contents-popped :
      contents q ≡ get_or (cells_of q.q) (wrap q.size (suc q.front)) null ∷ contents (popped q)
  contents-popped =
      segment-pos (cell_at (cells_of q.q) q.size) (suc q.front) (count q) (ground arith)
      ∙ ap (◌∷◌ (get_or (cells_of q.q) (wrap q.size (suc q.front)) null)) segment-popped

-- What `queue_pop` returns, on the contents before and after.
abbrev pub PopsTo : Queue → Ptr → Queue → Type 0
PopsTo q r q' = ((contents q ≡ []) × (r ≡ null) × (q' ≡ q)) ⊎ (contents q ≡ r ∷ contents q')

front_load :
    {q : Queue}
    → Fits q
    → get_elem? (cells_of q.q) ((q.front + 1) % q.size)
      ≡ some (get_or (cells_of q.q) (wrap q.size (suc q.front)) null)
front_load {q} f =
    let e : (q.front + 1) % q.size ≡ wrap q.size (suc q.front) =
      ground (arith, mod-eq-wrap (q.front + 1) q.size) in
    rw (e, get_elem?-eq-get_or (cells_of q.q) (wrap q.size (suc q.front)) null (ground arith))

pop-empty : (q : Queue) → q.lock ≡ false → q.front ≡ q.rear → pop q ≡ some (null, q)
unfolding pop
pop-empty q h e = ground arith

pop-some :
    (q : Queue) (v : Ptr)
    → q.lock ≡ false
    → q.front ≢ q.rear
    → q.q ≡ some (cells_of q.q)
    → get_elem? (cells_of q.q) ((q.front + 1) % q.size) ≡ some v
    → pop q ≡ some (v, record q { front = (q.front + 1) % q.size; lock = false })
unfolding pop
pop-some q v h ne a l = ground arith

-- `queue_pop` on a valid queue does not fault and keeps it valid. On an empty one it returns NULL
-- and changes nothing; on any other it returns the oldest pointer and removes it alone.
pub pop_refines :
    {q : Queue}
    → IsValid q
    → (r : Ptr) × (q' : Queue) × (pop q ≡ some (r, q')) × IsValid q' × PopsTo q r q'
pop_refines {q} valid = elim (Bool-cases (q.front == q.rear)) [
  | inl e ↦ (
    null,
    q,
    pop-empty q valid.unlocked (ground arith),
    valid,
    inl (segment-nil _ (suc q.front) (count q) (ground arith), refl, refl),
  )
  | inr e ↦
      let f = valid.fits in
      let w : (q.front + 1) % q.size ≡ wrap q.size (suc q.front) =
        ground (arith, mod-eq-wrap (q.front + 1) q.size) in
      (
        get_or (cells_of q.q) (wrap q.size (suc q.front)) null,
        record (popped q) { lock = false },
        pop-some q _ valid.unlocked (ground arith) f.array (front_load f)
            ∙ ap
                (λ i. some (
                  get_or (cells_of q.q) (wrap q.size (suc q.front)) null,
                  record q { front = i; lock = false },
                ))
                w,
        record { fits = ground arith; unlocked = refl },
        inr (contents-popped f (ground arith)),
      )
]

-- On a valid queue that is not empty, `queue_head` returns the oldest pointer and changes nothing.
pub head_refines :
    {q : Queue} (x : Ptr) (xs : List Ptr) → IsValid q → contents q ≡ x ∷ xs → head q ≡ some (x, q)
head_refines {q} x xs valid e =
    let f = valid.fits in
    let ne : q.front ≢ q.rear =
      λ h. cc (sym e ∙ segment-nil _ (suc q.front) (count q) (ground arith)) in
    let same : get_or (cells_of q.q) (wrap q.size (suc q.front)) null ≡ x =
      ground (arith, contents-popped f ne) in
    unfold head in ground (arith, front_load f)

-- On a valid queue `queue_element_count` is the number of pointers held, and `queue_empty` is true
-- exactly when there are none; there are always fewer than `size`.
pub observers_lem :
    {q : Queue}
    → IsValid q
    → (element_count q ≡ length (contents q))
      × ((empty q ≡ true) ↔ (contents q ≡ []))
      × (length (contents q) < q.size)
unfolding element_count empty
observers_lem {q} valid =
    let f = valid.fits in
    (
      ground (arith, length-contents q, mod-eq-wrap (q.rear + q.size - q.front) q.size),
      (
        λ h. segment-nil _ (suc q.front) (count q) (ground arith),
        λ h. let l : count q ≡ 0 = omega (arith, length-contents q, ap length h) in ground arith,
      ),
      ground (arith, length-contents q),
    )
