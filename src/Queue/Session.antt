-- ===== src/Queue/Session.antt =====
-- A whole session of calls against a plain list.
use sync_agent.Base.{
  ◌≡◌, ◌∙◌, ap, sym, refl, true, false, none, some, List, Option, [], ◌∷◌, ◌++◌, inl, inr,
}
use sync_agent.Queue.{Ptr, null, Queue, Allocator, push, pop, ◌>>=◌}
use sync_agent.Queue.Contents.{contents, IsValid}
use sync_agent.Queue.Grow.{IsAllocator}
use sync_agent.Queue.Refine.{CanGrow, push_refines}
use sync_agent.Queue.Calls.{pop_refines, PopsTo}

-- The calls of a client.
pub data Call : Type 0 where
  put : Ptr → Call
  get : Call

-- The pointers that a client gets back from its `queue_pop` calls; `none` is a fault, or a
-- `queue_push` that returned 0.
unfoldable pub run : Allocator → Queue → List Call → Option (List Ptr)
run al q [] = some []
run al q (put v ∷ calls) = do
  (ok, q') ← push al q v
  elim ok [ true ↦ run al q' calls | false ↦ none ]
run al q (get ∷ calls) = do (r, q') ← pop q; rest ← run al q' calls; some (r ∷ rest)

-- The same calls on a list, oldest first, of any length.
unfoldable pub run_list : List Ptr → List Call → List Ptr
run_list xs [] = []
run_list xs (put v ∷ calls) = run_list (xs ++ (v ∷ [])) calls
run_list [] (get ∷ calls) = null ∷ run_list [] calls
run_list (x ∷ xs) (get ∷ calls) = x ∷ run_list xs calls

run-get :
    (al : Allocator) (q q' : Queue) (r : Ptr) (calls : List Call) (rest : List Ptr)
    → pop q ≡ some (r, q')
    → run al q' calls ≡ some rest
    → run al q (get ∷ calls) ≡ some (r ∷ rest)
unfolding run
run-get al q q' r calls rest e h = rw (e, h)

run_list-get :
    (q q' : Queue) (r : Ptr) (calls : List Call)
    → PopsTo q r q'
    → run_list (contents q) (get ∷ calls) ≡ r ∷ run_list (contents q') calls
unfolding run_list
run_list-get q q' r calls (inl (e, n, same)) = rw (e, n, same, e)
run_list-get q q' r calls (inr e) = rw e

module _ {al : Allocator} (law : IsAllocator al) (can : (q : Queue) → CanGrow al q) where
  -- If `realloc` never fails, no sequence of `queue_push` and `queue_pop` faults, and none tells a
  -- valid queue from the unbounded first-in first-out list of its contents.
  pub run_refines :
      (calls : List Call) {q : Queue}
      → IsValid q
      → run al q calls ≡ some (run_list (contents q) calls)
  unfolding run run_list
  run_refines [] valid = refl
  run_refines (put v ∷ calls) {q} valid =
      let (q', e, valid', c) = push_refines v law valid (λ _. can q) in
      rw (e, ← c) (run_refines calls valid')
  run_refines (get ∷ calls) {q} valid =
      let (r, q', e, valid', p) = pop_refines valid in
      run-get al q q' r calls _ e (run_refines calls valid')
      ∙ ap some (sym (run_list-get q q' r calls p))
