-- ===== src/Other/Files.antt =====
-- The operations on files: what holds when they return 1, and when they return 0.
use sync_agent.Base.{
  ℕ, ◌≡◌, ◌⊎◌, inl, inr, refl, Bool, true, false, none, some, Option, Bytes, Bool-cases, ◌≤◌,
  length, List, [], ◌∷◌, arith, length-take, ◌++◌, ◌||◌, equal, codes,
}
use sync_agent.Other.{
  FileSystem, IsFileSystem, on_success, create_file, remove_file, file_exist, file_get_length,
  listed,
}

-- The outcome of a call: 1 in a state that has `P`, or 0 in a state that has `Q`.
abbrev pub Ends : {S : Type 0} → (S → Type 0) → (S → Type 0) → Bool × S → Type 0
Ends P Q (true, s) = P s
Ends P Q (false, s) = Q s

module _ {S : Type 0} (fs : FileSystem S) (ok : IsFileSystem fs) where
  truncated :
      (name : Bytes) (size : ℕ) (Q : S → Type 0) (s₁ : S) (o : Option S)
      → fs.truncate name size s₁ ≡ o
      → Q s₁
      → Ends (λ s'. fs.stat_size name s' ≡ some size) Q (on_success s₁ (λ s₂. (true, s₂)) o)
  truncated name size Q s₁ none e q = q
  truncated name size Q s₁ (some s₂) e q = ok.truncate_sets name size s₁ s₂ e

  opened :
      (name : Bytes) (size : ℕ) (s : S) (o : Option S)
      → fs.fopen_write name s ≡ o
      → Ends
          (λ s'. fs.stat_size name s' ≡ some size)
          (λ s'. (s' ≡ s) ⊎ (fs.fopen_write name s ≡ some s'))
          (on_success s (λ s₁. on_success s₁ (λ s₂. (true, s₂)) (fs.truncate name size s₁)) o)
  opened name size s none e = inl refl
  opened name size s (some s₁) e =
      truncated name size (λ s'. (s' ≡ s) ⊎ (fs.fopen_write name s ≡ some s')) s₁
        (fs.truncate name size s₁) refl (inr e)

  -- `create_file` returns 1 with a file of the size asked for. It returns 0 if the file cannot be
  -- opened for writing, and nothing has changed; or if `truncate` fails on the file opened, which stays
  -- as `fopen` has left it.
  pub create_file_lem :
      (name : Bytes) (size : ℕ) (s : S)
      → Ends
          (λ s'. file_get_length fs name s' ≡ some size)
          (λ s'. (s' ≡ s) ⊎ (fs.fopen_write name s ≡ some s'))
          (create_file fs name size s)
  unfolding create_file file_get_length
  create_file_lem name size s = opened name size s (fs.fopen_write name s) refl

  unreadable : (name : Bytes) (s : S) → fs.readable name s ≡ false → file_exist fs name s ≡ false
  unfolding file_exist
  unreadable name s n = rw n

  removed :
      (name : Bytes) (s : S) (o : Option S)
      → fs.unlink name s ≡ o
      → Ends
          (λ s'. file_exist fs name s' ≡ false)
          (λ s'. s' ≡ s)
          (on_success s (λ s'. (true, s')) o)
  unfolding file_exist
  removed name s none e = refl
  removed name s (some s') e = rw (ok.unlink_removes name s s' e)

  -- `remove_file` returns 1 with no readable file of the name, or 0 with nothing changed.
  pub remove_file_lem :
      (name : Bytes) (s : S)
      → Ends (λ s'. file_exist fs name s' ≡ false) (λ s'. s' ≡ s) (remove_file fs name s)
  unfolding remove_file file_exist
  remove_file_lem name s = elim (Bool-cases (fs.readable name s)) [
    | inl e ↦ rw e (removed name s (fs.unlink name s) refl)
    | inr n ↦ rw n (unreadable name s n)
  ]

-- No string of a list is longer than `n`.
abbrev pub Within : ℕ → List Bytes → Type 0
Within n [] = Unit
Within n (s ∷ rest) = (length s ≤ n) × Within n rest

-- The paths of a directory that are left for the callback fit `file_path`.
listed_bounds :
    {S : Type 0} (fs : FileSystem S) (path : Bytes) (names : List Bytes)
    → Within 126 (listed fs path names)
unfolding listed
listed_bounds fs path [] = tt
listed_bounds fs path (name ∷ names) =
    let rest = listed_bounds fs path names in
    elim (Bool-cases (equal name (codes ".") || equal name (codes ".."))) [
      | inl e ↦ rw e rest
      | inr n ↦ rw n (omega (arith, length-take 126 (path ++ name)), rest)
    ]
