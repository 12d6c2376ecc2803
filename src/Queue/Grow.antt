-- ===== src/Queue/Grow.antt =====
-- Growing a full queue: the doubled array holds the same pointers in the same order.
use mathlib.Core.Option
use sync_agent.Base.{
  ℕ, zero, suc, ◌+◌, ◌*◌, ◌-◌, ◌<◌, ◌≤◌, ◌≡◌, ◌∙◌, ap, refl, true, false, inl, inr, some, List,
  arith, length, get_or, set, get_elem?-eq-get_or, get_or-set_self, get_or-set_ne, length-set, ltb,
  if◌then◌else◌, Bool-cases,
}
use sync_agent.Queue.{Ptr, null, Queue, Allocator, reallocate, full, grow, move_wrapped, rearrange}
use sync_agent.Queue.Window.{segment_ext}
use sync_agent.Queue.Contents.{cells_of, mod-eq-wrap, cell_at, count, contents, Fits}

-- What the code relies on of `realloc`: the block has the size asked for, and keeps the old cells.
pub record IsAllocator (al : Allocator) : Type 0 where
  pub malloc_length : (n : ℕ) (c : List Ptr) → al.malloc n ≡ some c → length c ≡ n
  pub realloc_length :
      (old : List Ptr) (n : ℕ) (c : List Ptr) → al.realloc old n ≡ some c → length c ≡ n
  pub realloc_keeps :
      (old : List Ptr) (n : ℕ) (c : List Ptr)
      → al.realloc old n ≡ some c
      → (i : ℕ) → i < length old
      → i < n
      → get_or c i null ≡ get_or old i null

-- The cells after the loop of `move_wrapped`.
abbrev moved : ℕ → ℕ → ℕ → List Ptr → List Ptr
moved zero i m c = c
moved (suc n) i m c = moved n (i + 1) m (set c (m + i) (get_or c i null))

length-moved : (n i m : ℕ) (c : List Ptr) → length (moved n i m c) ≡ length c
length-moved zero i m c = refl
length-moved (suc n) i m c =
    length-moved n (i + 1) m (set c (m + i) (get_or c i null))
    ∙ length-set c (m + i) (get_or c i null)

-- Cells before the written range keep their values.
moved_below :
    (n i m : ℕ) (c : List Ptr) (j : ℕ) → j < m + i → get_or (moved n i m c) j null ≡ get_or c j null
moved_below zero i m c j h = refl
moved_below (suc n) i m c j h =
    moved_below n (i + 1) m (set c (m + i) (get_or c i null)) j (omega arith)
    ∙ get_or-set_ne c (m + i) j (get_or c i null) null (omega arith)

-- Cell `m + j` gets what cell `j` held.
moved_copies :
    (n i m : ℕ) (c : List Ptr) (j : ℕ)
    → i + n ≤ m
    → m + m ≤ length c
    → i ≤ j
    → j < i + n
    → get_or (moved n i m c) (m + j) null ≡ get_or c j null
moved_copies zero i m c j b l h k = absurd (omega arith)
moved_copies (suc n) i m c j b l h k = elim (Bool-cases (ltb i j)) [
  | inl later ↦
      moved_copies n (i + 1) m (set c (m + i) (get_or c i null)) j (omega arith)
        (omega (arith, length-set c (m + i) (get_or c i null))) (ground arith) (omega arith)
      ∙ get_or-set_ne c (m + i) j (get_or c i null) null (omega arith)
  | inr now ↦
      let e : j ≡ i = ground arith in
      rw e (
        moved_below n (i + 1) m (set c (m + i) (get_or c i null)) (m + i) (omega arith)
        ∙ get_or-set_self c (m + i) (get_or c i null) null (omega arith))
]

move_wrapped_lem :
    (n i m : ℕ) (q : Queue) (c : List Ptr)
    → q.q ≡ some c
    → i + n ≤ m
    → m + m ≤ length c
    → move_wrapped n i m q ≡ some (record q { q = some (moved n i m c) })
unfolding move_wrapped
move_wrapped_lem zero i m q c e b l = ground arith
move_wrapped_lem (suc n) i m q c e b l =
    rw (e, get_elem?-eq-get_or c i null (omega arith))
      (ground (
        arith,
        move_wrapped_lem n (i + 1) m (record q { q = some (set c (m + i) (get_or c i null)) })
            (set c (m + i) (get_or c i null)) refl (omega arith)
            (omega (arith, length-set c (m + i) (get_or c i null))),
      ))

-- The queue after a successful `grow` into the block `c`.
abbrev pub grown : Queue → List Ptr → Queue
grown q c =
    if ltb q.rear q.front
    then record q {
      size = q.size * 2;
      q = some (moved (q.rear + 1) 0 q.size c);
      rear = q.size + q.rear;
    }
    else record q { size = q.size * 2; q = some c }

module _ {al : Allocator} (law : IsAllocator al) {q : Queue} (f : Fits q) (is_full : full q ≡ true)
    (c : List Ptr) (block : al.realloc (cells_of q.q) (q.size * 2) ≡ some c) where
  length-block : length c ≡ q.size * 2
  length-block = law.realloc_length (cells_of q.q) (q.size * 2) c block

  rearrange-eq : rearrange q.size (record q { size = q.size * 2; q = some c }) ≡ some (grown q c)
  unfolding rearrange
  rearrange-eq = ground (
    arith,
    length-block,
    move_wrapped_lem (q.rear + 1) 0 q.size (record q { size = q.size * 2; q = some c }) c,
  )

  reallocates : reallocate al q.q (q.size * 2) ≡ some c
  unfolding reallocate
  reallocates = ap (λ o. reallocate al o (q.size * 2)) f.array ∙ block

  pub grow-eq : grow al q ≡ some (true, grown q c)
  unfolding grow
  grow-eq = rw (grow, reallocates, reallocates) (ap (Option.map (λ r. (true, r))) rearrange-eq)

  pub Fits-grown : Fits (grown q c)
  Fits-grown = ground (arith, length-block, length-moved (q.rear + 1) 0 q.size c)

  pub full-grown : full (grown q c) ≡ false
  unfolding full
  full-grown = ground (
    arith,
    mod-eq-wrap (q.rear + 1) q.size,
    mod-eq-wrap (q.rear + 1) (q.size * 2),
    mod-eq-wrap (q.size + q.rear + 1) (q.size * 2),
  )

  count-grown : count (grown q c) ≡ count q
  count-grown = ground arith

  kept_cell :
      (k : ℕ)
      → k < count q
      → cell_at (cells_of (grown q c).q) (grown q c).size (suc (grown q c).front + k)
        ≡ cell_at (cells_of q.q) q.size (suc q.front + k)
  unfolding full
  kept_cell k h = ground (
    arith,
    mod-eq-wrap (q.rear + 1) q.size,
    moved_below (q.rear + 1) 0 q.size c (suc q.front + k),
    moved_copies (q.rear + 1) 0 q.size c (suc q.front + k - q.size),
    length-block,
    law.realloc_keeps (cells_of q.q) (q.size * 2) c block (suc q.front + k),
    law.realloc_keeps (cells_of q.q) (q.size * 2) c block (suc q.front + k - q.size),
  )

  pub contents-grown : contents (grown q c) ≡ contents q
  contents-grown = rw count-grown (
      segment_ext (cell_at (cells_of (grown q c).q) (grown q c).size)
        (cell_at (cells_of q.q) q.size) (suc (grown q c).front) (suc q.front) (count q) kept_cell)
