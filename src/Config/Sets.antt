-- ===== src/Config/Sets.antt =====
-- `watch_set_handler` against the set of the parts of a list with commas.
use sync_agent.Base.{
  ℕ, zero, suc, ◌<◌, ◌≡◌, ◌∙◌, refl, Bool, true, false, none, some, List, [], ◌∷◌, ◌++◌, arith,
  length, ◌==◌, ◌||◌, Bytes, equal, length-append, take-length-append, drop-length_add,
}
use sync_agent.Text.Scan.{Without}
use sync_agent.Config.Lists.{SetOps, IsReadySet, index_of, add_elements, watch_set_handler}

pub index_of-Without : (c : ℕ) (a : Bytes) → Without c a → index_of c a ≡ none
unfolding index_of
index_of-Without c [] h = refl
index_of-Without c (x ∷ a) h =
    let n : (x == c) ≡ false = ground (arith, h.0) in rw (n, index_of-Without c a h.1)

pub index_of-append :
    (c : ℕ) (a b : Bytes) → Without c a → index_of c (a ++ c ∷ b) ≡ some (length a)
unfolding index_of
index_of-append c [] b h = ground arith
index_of-append c (x ∷ a) b h =
    let n : (x == c) ≡ false = ground (arith, h.0) in rw (n, index_of-append c a b h.1)

-- The parts of a list, with a separator between them.
abbrev pub joined_by : ℕ → Bytes → List Bytes → Bytes
joined_by c p [] = p
joined_by c p (q ∷ ps) = p ++ c ∷ joined_by c q ps

abbrev pub joined : Bytes → List Bytes → Bytes
joined p ps = joined_by b',' p ps

-- No part has the separator.
abbrev pub AllWithout : ℕ → List Bytes → Type 0
AllWithout c [] = Unit
AllWithout c (p ∷ ps) = Without c p × AllWithout c ps

abbrev pub Plain : List Bytes → Type 0
Plain ps = AllWithout b',' ps

unfoldable pub member : Bytes → List Bytes → Bool
member x [] = false
member x (p ∷ ps) = equal x p || member x ps

abbrev pub add_all : {S : Type 0} → SetOps S → List Bytes → S → S
add_all ops [] s = s
add_all ops (p ∷ ps) s = add_all ops ps (ops.set_add p s)

module _ {S : Type 0} (ops : SetOps S) (ok : IsReadySet ops) where
  pub contains-add_all :
      (x : Bytes) (ps : List Bytes) (s : S)
      → ops.set_contains x (add_all ops ps s) ≡ (member x ps || ops.set_contains x s)
  unfolding member
  contains-add_all x [] s = refl
  contains-add_all x (p ∷ ps) s =
      contains-add_all x ps (ops.set_add p s)
      ∙ rw (ok.hash_set.contains-add x p s) (swap (member x ps) (equal x p) (ops.set_contains x s))
    where
      swap : (a b c : Bool) → (a || (b || c)) ≡ ((b || a) || c)
      swap true true c = refl
      swap true false c = refl
      swap false true c = refl
      swap false false c = refl

  add_elements-joined :
      (fuel : ℕ) (p : Bytes) (ps : List Bytes) (s : S)
      → length (joined p ps) < fuel
      → Plain (p ∷ ps)
      → add_elements ops fuel (joined p ps) s ≡ some (add_all ops (p ∷ ps) s)
  unfolding add_elements
  add_elements-joined zero p ps s f h = absurd (omega arith)
  add_elements-joined (suc fuel) p [] s f h =
      rw (index_of-Without b',' p h.0, add_elements, ok.spares (length p))
  add_elements-joined (suc fuel) p (q ∷ ps) s f h =
      rw
        (
          index_of-append b',' p (joined q ps) h.0,
          add_elements,
          drop-length_add p (b',' ∷ joined q ps) 1,
          take-length-append p (b',' ∷ joined q ps),
          ok.spares (length p),
        )
        (add_elements-joined fuel q ps (ops.set_add p s)
          (omega (arith, length-append p (b',' ∷ joined q ps))) h.1)

  -- On parts without commas, with commas between them, `watch_set_handler` ends, with a set that holds
  -- exactly the parts, empty ones included.
  pub watch_set_handler_lem :
      (p : Bytes) (ps : List Bytes)
      → Plain (p ∷ ps)
      → (s : S) × (watch_set_handler ops (joined p ps) ≡ some s)
        × ((x : Bytes) → ops.set_contains x s ≡ member x (p ∷ ps))
  unfolding watch_set_handler
  watch_set_handler_lem p ps h = (
    add_all ops (p ∷ ps) ops.set_init,
    rw ok.set_mallocs
        (add_elements-joined (suc (length (joined p ps))) p ps ops.set_init (omega arith) h),
    λ x.
        contains-add_all x (p ∷ ps) ops.set_init
        ∙ rw (ok.hash_set.contains-init x) (or-false (member x (p ∷ ps))),
  )
    where
      or-false : (a : Bool) → (a || false) ≡ a
      or-false true = refl
      or-false false = refl
