-- ===== src/Other/Dir.antt =====
-- `create_dir`: what exists after it.
use mathlib.Core.Path.{subst}
use sync_agent.Base.{
  ℕ, ◌≡◌, ◌≢◌, ◌∙◌, ◌⊎◌, inl, inr, sym, refl, Bool, true, false, none, some, Option, [], ◌∷◌, ◌++◌,
  arith, length, take, Bool-cases, ◌==◌, Bytes, ◌&&◌, not,
}
use sync_agent.Other.{FileSystem, IsFileSystem, make_missing, make_dirs, create_dir, on_success}

-- The directories of a path: what stands before a slash that is not its first byte, and the path
-- itself, given the part before an index and the rest.
pub data DirOf : Bytes → Bytes → Bytes → Type 0 where
  whole : {before : Bytes} → before ≢ [] → DirOf before [] before
  here : {before after : Bytes} → before ≢ [] → DirOf before (b'/' ∷ after) before
  later :
      {before after d : Bytes} {x : ℕ}
      → DirOf (before ++ x ∷ []) after d
      → DirOf before (x ∷ after) d

nonempty : (s : Bytes) → s ≢ [] → (length s == 0) ≢ true
nonempty [] ne = λ e. ne refl
nonempty (x ∷ s) ne = λ e. absurd (ground arith)

filled : (s : Bytes) → (length s == 0) ≡ false → s ≢ []
filled [] z = λ e. absurd (ground arith)
filled (x ∷ s) z = λ e. cc

end_dir : {before d : Bytes} → DirOf before [] d → (before ≢ []) × (d ≡ before)
end_dir (whole ne) = (ne, refl)

slash_dir :
    {x : ℕ} {before after d : Bytes}
    → DirOf before (x ∷ after) d
    → ((x ≡ b'/') × (d ≡ before) × (before ≢ [])) ⊎ DirOf (before ++ x ∷ []) after d
slash_dir (here ne) = inl (refl, refl, ne)
slash_dir (later t) = inr t

slash_here :
    (x : ℕ) (before after : Bytes)
    → (x == b'/' && not (length before == 0)) ≡ true
    → DirOf before (x ∷ after) before
slash_here x before after e =
    let ne : before ≢ [] = filled before (ground arith) in
    let same : x ≡ b'/' = ground arith in
    subst (λ y. DirOf before (y ∷ after) before) (sym same) (here ne)

same_state : {S : Type 0} {s s' : S} → ◌≡◌ {A = Bool × S} (true, s) (true, s') → s ≡ s'
same_state e = cc

module _ {S : Type 0} (fs : FileSystem S) (ok : IsFileSystem fs) where
  -- What has been there is there.
  abbrev pub Keeps : S → S → Type 0
  Keeps s s' = (q : Bytes) → fs.exists q s ≡ true → fs.exists q s' ≡ true

  -- A step that succeeds has made its path, and goes on from a state that keeps the rest.
  pub record Made (path : Bytes) (s : S) (next : S → Bool × S) (s' : S) : Type 0 where
    pub between : S
    pub made : fs.exists path between ≡ true
    pub keeps : Keeps s between
    pub goes_on : next between ≡ (true, s')

  on_success_lem :
      (s s' : S) (next : S → Bool × S) (o : Option S)
      → on_success s next o ≡ (true, s')
      → (s₁ : S) × (o ≡ some s₁) × (next s₁ ≡ (true, s'))
  on_success_lem s s' next none h = cc
  on_success_lem s s' next (some s₁) h = (s₁, refl, h)

  make_missing_lem :
      (path : Bytes) (s s' : S) (next : S → Bool × S)
      → make_missing fs path s next ≡ (true, s')
      → Made path s next s'
  unfolding make_missing
  make_missing_lem path s s' next h = elim (Bool-cases (fs.exists path s)) [
    | inl e ↦ record { between = s; made = e; keeps = λ q k. k; goes_on = (rw e at h) }
    | inr n ↦
        let (s₁, e, g) = on_success_lem s s' next (fs.mkdir path s) (rw n at h) in
        record {
          between = s₁;
          made = ok.mkdir_makes path s s₁ e;
          keeps = λ q k. ok.mkdir_keeps path q s s₁ e k;
          goes_on = g;
        }
  ]

  make_dirs_lem :
      (before after : Bytes) (s s' : S)
      → make_dirs fs before after s ≡ (true, s')
      → Keeps s s' × ((d : Bytes) → DirOf before after d → fs.exists d s' ≡ true)
  unfolding make_dirs
  make_dirs_lem before [] s s' h = elim (Bool-cases (length before == 0)) [
    | inl z ↦
        let e : s ≡ s' = same_state (rw z at h) in
        (λ q k. rw (sym e) k, λ d t. absurd (nonempty before (end_dir t).0 z))
    | inr n ↦
        let m = make_missing_lem before s s' (λ t. (true, t)) (rw n at h) in
        let e : m.between ≡ s' = same_state m.goes_on in
        (λ q k. rw (sym e) (m.keeps q k), λ d t. rw (sym e, (end_dir t).1) m.made)
  ]
  make_dirs_lem before (x ∷ after) s s' h =
      elim (Bool-cases (x == b'/' && not (length before == 0))) [
        | inl e ↦
            let m =
              make_missing_lem before s s' (make_dirs fs (before ++ x ∷ []) after) (rw e at h) in
            let (keeps, dirs) = make_dirs_lem (before ++ x ∷ []) after m.between s' m.goes_on in
            (
              λ q k. keeps q (m.keeps q k),
              λ d t. elim (slash_dir t) [
                | inl c ↦ rw (c.1) (keeps before m.made)
                | inr later_dir ↦ dirs d later_dir
              ],
            )
        | inr n ↦
            let (keeps, dirs) = make_dirs_lem (before ++ x ∷ []) after s s' (rw n at h) in
            (
              keeps,
              λ d t. elim (slash_dir t) [
                | inl c ↦ absurd (nonempty before c.2 (ground (arith, c.0)))
                | inr later_dir ↦ dirs d later_dir
              ],
            )
      ]

  -- When `create_dir` returns 1, the path, cut at 1023 bytes, and every directory on it exist, and
  -- what existed still does.
  pub create_dir_lem :
      (path_name : Bytes) (s s' : S)
      → create_dir fs path_name s ≡ (true, s')
      → Keeps s s' × ((d : Bytes) → DirOf [] (take 1023 path_name) d → fs.exists d s' ≡ true)
  unfolding create_dir
  create_dir_lem path_name s s' h = make_dirs_lem [] (take 1023 path_name) s s' h

module _ {S : Type 0} (fs : FileSystem S) where
  make_missing-exists :
      (path : Bytes) (s : S) (next : S → Bool × S)
      → fs.exists path s ≡ true
      → make_missing fs path s next ≡ next s
  unfolding make_missing
  make_missing-exists path s next e = rw e

  make_dirs-exist :
      (before after : Bytes) (s : S)
      → ((d : Bytes) → DirOf before after d → fs.exists d s ≡ true)
      → make_dirs fs before after s ≡ (true, s)
  unfolding make_dirs
  make_dirs-exist before [] s all = elim (Bool-cases (length before == 0)) [
    | inl z ↦ rw z
    | inr n ↦
        rw n (make_missing-exists before s (λ t. (true, t)) (all before (whole (filled before n))))
  ]
  make_dirs-exist before (x ∷ after) s all =
      let rest = make_dirs-exist (before ++ x ∷ []) after s (λ d t. all d (later t)) in
      elim (Bool-cases (x == b'/' && not (length before == 0))) [
        | inl e ↦ rw e (
            make_missing-exists before s (make_dirs fs (before ++ x ∷ []) after)
              (all before (slash_here x before after e))
            ∙ rest)
        | inr n ↦ rw n rest
      ]

  -- If every directory of the path exists, `create_dir` returns 1 and changes nothing.
  pub create_dir-exist :
      (path_name : Bytes) (s : S)
      → ((d : Bytes) → DirOf [] (take 1023 path_name) d → fs.exists d s ≡ true)
      → create_dir fs path_name s ≡ (true, s)
  unfolding create_dir
  create_dir-exist path_name s all = make_dirs-exist [] (take 1023 path_name) s all
