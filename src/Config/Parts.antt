-- ===== src/Config/Parts.antt =====
-- Texts cut at a byte, and `watch_set_handler` on every text: the parts between its commas.
use sync_agent.Base.{
  ℕ, ◌≡◌, ◌∙◌, ap, refl, some, List, [], ◌∷◌, arith, ◌==◌, Bytes, if◌then◌else◌, Bool-cases, inl,
  inr,
}
use sync_agent.Text.Scan.{Without}
use sync_agent.Config.Lists.{SetOps, IsReadySet, watch_set_handler}
use sync_agent.Config.Sets.{joined_by, AllWithout, member, watch_set_handler_lem}

-- The part before the first place of the byte, and the others.
unfoldable pub split_by : ℕ → Bytes → Bytes × List Bytes
split_by c [] = ([], [])
split_by c (x ∷ xs) =
    let (first, others) = split_by c xs in
    if x == c then ([], first ∷ others) else (x ∷ first, others)

abbrev pub parts : ℕ → Bytes → List Bytes
parts c text = (split_by c text).0 ∷ (split_by c text).1

joined_cons :
    (c x : ℕ) (p : Bytes) (ps : List Bytes) → joined_by c (x ∷ p) ps ≡ x ∷ joined_by c p ps
joined_cons c x p [] = refl
joined_cons c x p (q ∷ ps) = refl

pub joined-split_by :
    (c : ℕ) (text : Bytes) → joined_by c (split_by c text).0 (split_by c text).1 ≡ text
unfolding split_by
joined-split_by c [] = refl
joined-split_by c (x ∷ xs) = elim (Bool-cases (x == c)) [
  | inl e ↦ let same : x ≡ c = ground (arith, e) in rw (e, split_by, joined-split_by c xs, same)
  | inr n ↦
      rw (n, split_by)
        (joined_cons c x (split_by c xs).0 (split_by c xs).1
          ∙ ap (λ t. x ∷ t) (joined-split_by c xs))
]

pub parts-Without : (c : ℕ) (text : Bytes) → AllWithout c (parts c text)
unfolding split_by
parts-Without c [] = (tt, tt)
parts-Without c (x ∷ xs) = elim (Bool-cases (x == c)) [
  | inl e ↦ rw (e, split_by) (tt, parts-Without c xs)
  | inr n ↦ rw (n, split_by) ((ground (arith, n), (parts-Without c xs).0), (parts-Without c xs).1)
]

-- What is not in the text is not in its parts.
pub parts_keep : (c d : ℕ) (text : Bytes) → Without d text → AllWithout d (parts c text)
unfolding split_by
parts_keep c d [] h = (tt, tt)
parts_keep c d (x ∷ xs) h = elim (Bool-cases (x == c)) [
  | inl e ↦ rw (e, split_by) (tt, parts_keep c d xs h.1)
  | inr n ↦ rw (n, split_by) ((h.0, (parts_keep c d xs h.1).0), (parts_keep c d xs h.1).1)
]

-- On every text, with memory for the set and where the byte behind each array of `watch_set_handler`,
-- which it stores a NUL in, can be written: `watch_set_handler` ends, with a set that holds exactly the
-- parts between the commas, empty ones included.
pub watch_set_handler-parts :
    {S : Type 0} (ops : SetOps S) (text : Bytes)
    → IsReadySet ops
    → (s : S) × (watch_set_handler ops text ≡ some s)
      × ((x : Bytes) → ops.set_contains x s ≡ member x (parts b',' text))
watch_set_handler-parts ops text ok =
    let (s, made, holds) =
      watch_set_handler_lem ops ok (split_by b',' text).0 (split_by b',' text).1
        (parts-Without b',' text) in
    (s, rw (joined-split_by b',' text) at made, holds)
