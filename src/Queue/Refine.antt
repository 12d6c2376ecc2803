-- ===== src/Queue/Refine.antt =====
-- The operations of the queue against the list of what it holds.
use sync_agent.Base.{
  ℕ, suc, ◌+◌, ◌*◌, ◌<◌, ◌≡◌, ◌∙◌, inl, inr, sym, ap, refl, Bool, true, false, some, List, [], ◌∷◌,
  ◌++◌, arith, set, get_or-set_self, get_or-set_ne, length-set, if◌then◌else◌, Bool-cases,
}
use sync_agent.Queue.{Ptr, null, Queue, Allocator, full, grow, append, push, mutex_unlock}
use sync_agent.Queue.Window.{segment_ext, segment-suc}
use sync_agent.Queue.Contents.{cells_of, wrap, mod-eq-wrap, cell_at, count, contents, Fits, IsValid}
use sync_agent.Queue.Grow.{IsAllocator, grown, grow-eq, Fits-grown, full-grown, contents-grown}

-- The queue after `append`.
abbrev appended : Queue → Ptr → Queue
appended q v =
    let r = wrap q.size (suc q.rear) in record q { q = some (set (cells_of q.q) r v); rear = r }

module _ {q : Queue} (f : Fits q) (room : full q ≡ false) (v : Ptr) where
  append-eq : append q v ≡ some (appended q v)
  unfolding append full
  append-eq = ground (arith, mod-eq-wrap (q.rear + 1) q.size)

  count-appended : count (appended q v) ≡ suc (count q)
  unfolding full
  count-appended = ground (arith, mod-eq-wrap (q.rear + 1) q.size)

  Fits-appended : Fits (appended q v)
  Fits-appended = ground (arith, length-set (cells_of q.q) (wrap q.size (suc q.rear)) v)

  old_cell :
      (k : ℕ)
      → k < count q
      → cell_at (cells_of (appended q v).q) q.size (suc q.front + k)
        ≡ cell_at (cells_of q.q) q.size (suc q.front + k)
  unfolding full
  old_cell k h =
      get_or-set_ne (cells_of q.q) _ _ v null (ground (arith, mod-eq-wrap (q.rear + 1) q.size))

  new_cell : cell_at (cells_of (appended q v).q) q.size (suc q.front + count q) ≡ v
  new_cell =
      let e : wrap q.size (suc q.front + count q) ≡ wrap q.size (suc q.rear) = ground arith in
      rw (e, get_or-set_self (cells_of q.q) (wrap q.size (suc q.rear)) v null (ground arith))

  contents-appended : contents (appended q v) ≡ contents q ++ (v ∷ [])
  contents-appended =
      rw (count-appended, segment-suc, new_cell)
        (ap (λ xs. xs ++ (v ∷ []))
          (segment_ext (cell_at (cells_of (appended q v).q) q.size) (cell_at (cells_of q.q) q.size)
            (suc q.front) (suc q.front) (count q) old_cell))

-- `grow` on a full queue gives one with room and the same contents.
record Roomy (q r : Queue) : Type 0 where
  fits : Fits r
  room : full r ≡ false
  same : contents r ≡ contents q
  sized : r.size ≡ (if full q then q.size * 2 else q.size)

-- The allocator can enlarge the array of a full queue.
abbrev pub CanGrow : Allocator → Queue → Type 0
CanGrow al q = (c : List Ptr) × (al.realloc (cells_of q.q) (q.size * 2) ≡ some c)

grown-size : (q : Queue) (c : List Ptr) → (grown q c).size ≡ q.size * 2
grown-size q c = ground arith

make_room :
    {al : Allocator} {q : Queue}
    → IsAllocator al
    → Fits q
    → (full q ≡ true → CanGrow al q)
    → (r : Queue) × ((if full q then grow al q else some (true, q)) ≡ some (true, r)) × Roomy q r
make_room {al} {q} law f can = elim (Bool-cases (full q)) [
  | inl e ↦
      let (c, block) = can e in
      (
        grown q c,
        rw e (grow-eq law f e c block),
        record {
          fits = Fits-grown law f e c block;
          room = full-grown law f e c block;
          same = contents-grown law f e c block;
          sized = rw e (grown-size q c);
        },
      )
  | inr e ↦ (q, rw e, record { fits = f; room = e; same = refl; sized = rw e })
]

Fits-mutex : {q : Queue} (b : Bool) → Fits q → Fits (record q { lock = b })
Fits-mutex b f = ground arith

full-mutex : (q : Queue) (b : Bool) → full (record q { lock = b }) ≡ full q
unfolding full
full-mutex q b = refl

-- `queue_push` from the results of its two stages.
push_stages :
    (al : Allocator) (q r r' : Queue) (v : Ptr)
    → q.lock ≡ false
    → (if full (record q { lock = true })
        then grow al (record q { lock = true })
        else some (true, record q { lock = true }))
      ≡ some (true, r)
    → append r v ≡ some r'
    → push al q v ≡ some (true, mutex_unlock r')
push_stages al q r r' v free grows stores = unfold push in rw (free, grows, stores)

-- `queue_push` with what becomes of the size of the array.
pub push_sized :
    {al : Allocator} {q : Queue} (v : Ptr)
    → IsAllocator al
    → IsValid q
    → (full q ≡ true → CanGrow al q)
    → (q' : Queue) × (push al q v ≡ some (true, q'))
      × IsValid q'
      × (contents q' ≡ contents q ++ (v ∷ []))
      × (q'.size ≡ (if full q then q.size * 2 else q.size))
unfolding full
push_sized {al} {q} v law valid can =
    let q₁ = record q { lock = true } in
    let (r, grows, roomy) =
      make_room {q = q₁} law (Fits-mutex true valid.fits)
        (λ e. can (sym (full-mutex q true) ∙ e)) in
    (
      mutex_unlock (appended r v),
      push_stages al q r (appended r v) v valid.unlocked grows (append-eq roomy.fits roomy.room v),
      record { fits = Fits-mutex false (Fits-appended roomy.fits roomy.room v); unlocked = refl },
      contents-appended roomy.fits roomy.room v ∙ ap (λ xs. xs ++ (v ∷ [])) roomy.same,
      roomy.sized,
    )

-- `queue_push` on a valid queue that has room, or that `realloc` can enlarge, succeeds: it returns
-- 1, the queue is valid and unlocked again, and it holds its old contents followed by the new
-- pointer, also where the array was doubled.
pub push_refines :
    {al : Allocator} {q : Queue} (v : Ptr)
    → IsAllocator al
    → IsValid q
    → (full q ≡ true → CanGrow al q)
    → (q' : Queue) × (push al q v ≡ some (true, q'))
      × IsValid q'
      × (contents q' ≡ contents q ++ (v ∷ []))
push_refines v law valid can =
    let (q', pushes, valid', holds, sized) = push_sized v law valid can in
    (q', pushes, valid', holds)
