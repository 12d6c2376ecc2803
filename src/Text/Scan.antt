-- ===== src/Text/Scan.antt =====
-- `is_blank`, `is_comment`, `char_at` and `delete_comment` against what they mean of the string.
use mathlib.Core.Path.{subst}
use sync_agent.Base.{
  ℕ, ◌+◌, ◌≡◌, ◌≢◌, ◌∙◌, ◌⊎◌, inl, inr, ap, refl, false, some, [], ◌∷◌, ◌++◌, arith, length,
  if◌then◌else◌, Bool-cases, ◌==◌, Bytes, Memory, c_string, NoNul, NoNul-split,
}
use sync_agent.Base.Int.{pos, minus_one}
use sync_agent.Text.{is_comment, all_space, delete_comment, char_at_from, char_at}

-- No byte is `c`.
abbrev pub Without : ℕ → Bytes → Type 0
Without c [] = Unit
Without c (x ∷ xs) = (x ≢ c) × Without c xs

-- The part of a string before the first `c`.
unfoldable pub until : ℕ → Bytes → Bytes
until c [] = []
until c (x ∷ xs) = let rest = until c xs in if x == c then [] else x ∷ rest

-- `delete_comment` keeps the length of the block, and the string that is left is the part before
-- the first comment byte.
pub delete_comment_lem :
    (s : Bytes) (post : Memory) (c : ℕ)
    → NoNul s
    → (c_string (delete_comment s c ++ 0 ∷ post) ≡ until c s)
      × (length (delete_comment s c) ≡ length s)
unfolding delete_comment c_string until
delete_comment_lem [] post c h = (refl, refl)
delete_comment_lem (x ∷ xs) post c h = ground (arith, delete_comment_lem xs post c h.1)

-- The string splits at its first `c`.
pub record SplitsAt (c : ℕ) (s : Bytes) : Type 0 where
  pub before : Bytes
  pub after : Bytes
  pub splits : s ≡ before ++ c ∷ after
  pub first : Without c before

char_at_from-append :
    (a b : Bytes) (c i : ℕ) → Without c a → char_at_from i (a ++ c ∷ b) c ≡ pos (i + length a)
unfolding char_at_from
char_at_from-append [] b c i h = ground arith
char_at_from-append (x ∷ a) b c i h = ground (arith, char_at_from-append a b c (i + 1) h.1)

char_at_from-Without : (s : Bytes) (c i : ℕ) → Without c s → char_at_from i s c ≡ minus_one
unfolding char_at_from
char_at_from-Without [] c i h = refl
char_at_from-Without (x ∷ s) c i h = ground (arith, char_at_from-Without s c (i + 1) h.1)

pub char_at-append :
    (a b : Bytes) (c : ℕ) → Without c a → char_at (some (a ++ c ∷ b)) c ≡ pos (length a)
unfolding char_at
char_at-append a b c h = char_at_from-append a b c 0 h ∙ ap pos (omega arith)

pub SplitsAt-cases : (c : ℕ) (s : Bytes) → Without c s ⊎ SplitsAt c s
SplitsAt-cases c [] = inl tt
SplitsAt-cases c (x ∷ s) = elim (Bool-cases (x == c)) [
  | inl e ↦
      inr (record { before = []; after = s; splits = ap (λ y. y ∷ s) (ground arith); first = tt })
  | inr n ↦ elim (SplitsAt-cases c s) [
    | inl w ↦ inl (ground arith, w)
    | inr p ↦ inr (record {
      before = x ∷ p.before;
      after = p.after;
      splits = ap (◌∷◌ x) p.splits;
      first = (ground arith, p.first);
    })
  ]
]

-- `char_at` returns the index of the first byte equal to `c`, and -1 exactly when there is none.
pub char_at_lem :
    (s : Bytes) (c : ℕ)
    → (Without c s × (char_at (some s) c ≡ minus_one))
      ⊎ ((p : SplitsAt c s) × (char_at (some s) c ≡ pos (length p.before)))
char_at_lem s c = elim (SplitsAt-cases c s) [
  | inl w ↦ inl (w, (unfold char_at in char_at_from-Without s c 0 w))
  | inr p ↦
      inr (p, ap (λ t. char_at (some t) c) p.splits ∙ char_at-append p.before p.after c p.first)
]

-- `delete_comment` leaves the part before the comment, a NUL, and more.
pub delete_comment-until :
    (s : Bytes) (post : Memory) (c : ℕ)
    → (more : Memory) × (delete_comment s c ++ 0 ∷ post ≡ until c s ++ 0 ∷ more)
unfolding delete_comment until
delete_comment-until [] post c = (post, refl)
delete_comment-until (x ∷ s) post c = elim (Bool-cases (x == c)) [
  | inl e ↦ (delete_comment s c ++ 0 ∷ post, rw e)
  | inr e ↦ let (more, h) = delete_comment-until s post c in (more, rw e (ap (λ t. x ∷ t) h))
]

pub until-prefix : (c : ℕ) (s : Bytes) → (more : Bytes) × (s ≡ until c s ++ more)
unfolding until
until-prefix c [] = ([], refl)
until-prefix c (x ∷ s) = elim (Bool-cases (x == c)) [
  | inl e ↦ (x ∷ s, rw e)
  | inr e ↦ let (more, h) = until-prefix c s in (more, rw e (ap (λ t. x ∷ t) h))
]

-- A line with something besides white space before its comment is no comment line.
pub is_comment-until :
    (c : ℕ) (s : Bytes) → all_space (until c s) ≡ false → is_comment (some s) c ≡ false
unfolding is_comment until all_space
is_comment-until c [] h = refl
is_comment-until c (x ∷ s) h = ground (arith, is_comment-until c s)

pub until-NoNul : (c : ℕ) (s : Bytes) → NoNul s → NoNul (until c s)
until-NoNul c s h =
    let (more, e) = until-prefix c s in (NoNul-split (until c s) more (subst NoNul e h)).0
