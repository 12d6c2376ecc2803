-- ===== src/Queue/Tests.antt =====
-- Runs of the queue, and its theorems at concrete queues.
use sync_agent.Base.{
  ◌∙◌, ap, sym, length-take, get_or-take, get_or-append, ℕ, ◌*◌, ◌≡◌, ◌<◌, ◌↔◌, refl, true, false,
  none, some, List, ◌++◌, take, replicate, length, get_or, [], ◌∷◌, arith, length-append,
  length-replicate,
}
use sync_agent.Base.Int.{pos, negsuc}
use sync_agent.Queue.{
  Ptr, Queue, Allocator, push, pop, head, create, destroy, empty, element_count, size_of,
}
use sync_agent.Queue.Contents.{contents, cells_of, IsValid}
use sync_agent.Queue.Grow.{IsAllocator}
use sync_agent.Queue.Refine.{push_refines}
use sync_agent.Queue.Calls.{pop_refines, PopsTo, create_lem, head_refines, observers_lem}
use sync_agent.Base.{◌^◌, ◌≤◌}
use sync_agent.Queue.Contents.{length-contents}
use sync_agent.Queue.Size.{run_queue, IntFits, run_queue_bounds}
use sync_agent.Queue.Session.{put, get, run, run_list, run_refines}

abbrev pub fill : List Ptr → ℕ → List Ptr
fill old n = take n (old ++ replicate n 0)

-- An allocator that never fails.
abbrev pub heap : Allocator
heap = record {
  malloc_header = true;
  malloc = λ n. some (replicate n 0);
  realloc = λ old n. some (fill old n);
}

-- An allocator that cannot enlarge a block.
abbrev tight : Allocator
tight = record { malloc_header = true; malloc = λ n. none; realloc = λ old n. none }

length-fill : (old : List Ptr) (n : ℕ) → length (fill old n) ≡ n
length-fill old n = omega (
  arith,
  length-take n (old ++ replicate n 0),
  length-append old (replicate n 0),
  length-replicate {A = Ptr} n 0,
)

get_or-fill :
    (old : List Ptr) (n i : ℕ) → i < length old → i < n → get_or (fill old n) i 0 ≡ get_or old i 0
get_or-fill old n i h k =
    get_or-take n (old ++ replicate n 0) i 0 k ∙ get_or-append old (replicate n 0) i 0 h

same_block : {b c : List Ptr} → some b ≡ some c → b ≡ c
same_block e = cc

block-is : {n : ℕ} {b c : List Ptr} → some b ≡ some c → length b ≡ n → length c ≡ n
block-is e l = ap length (sym (same_block e)) ∙ l

pub heap-IsAllocator : IsAllocator heap
heap-IsAllocator = record {
  malloc_length = λ n c e. block-is e (length-replicate n 0);
  realloc_length = λ old n c e. block-is e (length-fill old n);
  realloc_keeps =
      λ old n c e i h k. ap (λ b. get_or b i 0) (sym (same_block e)) ∙ get_or-fill old n i h k;
}

-- Full, with its contents 7, 8, 9 going round the end of the array.
abbrev pub wrapped : Queue
wrapped = record { q = some (8 ∷ 9 ∷ 5 ∷ 7 ∷ []); front = 2; rear = 1; size = 4; lock = false }

pub wrapped-IsValid : IsValid wrapped
wrapped-IsValid = record {
  fits = record {
    array = refl;
    storage = refl;
    two = omega arith;
    front_in = omega arith;
    rear_in = omega arith;
  };
  unlocked = refl;
}

contents-wrapped : contents wrapped ≡ 7 ∷ 8 ∷ 9 ∷ []
contents-wrapped = refl

-- The doubled array after a push of 3.
push-wrapped :
    push heap wrapped 3
    ≡ some (
      true,
      record {
        q = some (8 ∷ 9 ∷ 5 ∷ 7 ∷ 8 ∷ 9 ∷ 3 ∷ 0 ∷ []);
        front = 2;
        rear = 6;
        size = 8;
        lock = false;
      },
    )
unfolding push
push-wrapped = refl

create-negative : create heap (negsuc 4) ≡ none
unfolding create
create-negative = refl

create-small :
    create heap (pos 3)
    ≡ some (record { q = some (0 ∷ 0 ∷ 0 ∷ []); front = 0; rear = 0; size = 3; lock = false })
unfolding create
create-small = refl

destroy-wrapped : destroy (some wrapped) ≡ none
unfolding destroy
destroy-wrapped = refl

size_of-wrapped : size_of wrapped ≡ 4
unfolding size_of
size_of-wrapped = refl

push_refines_example :
    (q' : Queue) × (push heap wrapped 3 ≡ some (true, q'))
    × IsValid q'
    × (contents q' ≡ 7 ∷ 8 ∷ 9 ∷ 3 ∷ [])
push_refines_example =
    push_refines 3 heap-IsAllocator wrapped-IsValid (λ _. (fill (8 ∷ 9 ∷ 5 ∷ 7 ∷ []) 8, refl))

pop_refines_example :
    (r : Ptr) × (q' : Queue) × (pop wrapped ≡ some (r, q')) × IsValid q' × PopsTo wrapped r q'
pop_refines_example = pop_refines wrapped-IsValid

head_refines_example : head wrapped ≡ some (7, wrapped)
head_refines_example = head_refines 7 (8 ∷ 9 ∷ []) wrapped-IsValid refl

observers_lem_example :
    (element_count wrapped ≡ length (contents wrapped))
    × ((empty wrapped ≡ true) ↔ (contents wrapped ≡ []))
    × (length (contents wrapped) < 4)
observers_lem_example = observers_lem wrapped-IsValid

create_lem_example :
    (q : Queue) × (create heap (pos 3) ≡ some q) × IsValid q × (contents q ≡ []) × (q.size ≡ 3)
create_lem_example = create_lem 3 (0 ∷ 0 ∷ 0 ∷ []) heap-IsAllocator refl refl

run_refines_example :
    run heap wrapped (get ∷ put 3 ∷ put 4 ∷ get ∷ [])
    ≡ some (run_list (contents wrapped) (get ∷ put 3 ∷ put 4 ∷ get ∷ []))
run_refines_example =
    run_refines heap-IsAllocator (λ q. (fill (cells_of q.q) (q.size * 2), refl))
      (get ∷ put 3 ∷ put 4 ∷ get ∷ []) wrapped-IsValid

run-wrapped : run heap wrapped (get ∷ put 3 ∷ put 4 ∷ get ∷ get ∷ []) ≡ some (7 ∷ 8 ∷ 9 ∷ [])
unfolding run push pop
run-wrapped = refl

run_queue_bounds_example :
    (q' : Queue) × (run_queue heap wrapped (put 4 ∷ get ∷ put 5 ∷ []) ≡ some q')
    × IsValid q'
    × (q'.size ≤ 2 ^ 30)
    × IntFits q'
run_queue_bounds_example =
    run_queue_bounds heap-IsAllocator (λ q. (fill (cells_of q.q) (q.size * 2), refl))
      (put 4 ∷ get ∷ put 5 ∷ []) wrapped-IsValid (omega arith)
      (omega (arith, length-contents wrapped))
