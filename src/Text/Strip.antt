-- ===== src/Text/Strip.antt =====
-- Trimming of strings: what `trim_str` keeps of a string, and what it takes off.
use mathlib.Core.List.{reverse, reverse-append, reverse-reverse, reverse-cons}
use sync_agent.Base.{
  ℕ, zero, suc, ◌+◌, ◌≤◌, ◌≡◌, ◌∙◌, inl, inr, sym, ap, refl, Bool, true, false, [], ◌∷◌, ◌++◌,
  arith, length, drop, if◌then◌else◌, Bool-cases, ◌==◌, Bytes, NoNul, ◌||◌, ◌&&◌,
  drop-length-append,
}
use sync_agent.Text.{is_space, all_space, leading}

-- Without the white space that it starts with.
unfoldable pub skip_spaces : Bytes → Bytes
skip_spaces [] = []
skip_spaces (x ∷ xs) = let rest = skip_spaces xs in if is_space x then rest else x ∷ xs

-- Without the white space that it ends with.
abbrev pub strip_right : Bytes → Bytes
strip_right s = reverse (skip_spaces (reverse s))

-- What `trim_str` keeps: no space or tab in front, no space, tab or line end behind.
abbrev pub trimmed : Bytes → Bytes
trimmed s = drop (leading s) (strip_right s)

-- How many bytes of white space a string starts with.
abbrev pub spaces : Bytes → ℕ
spaces [] = 0
spaces (x ∷ xs) = if is_space x then suc (spaces xs) else 0

pub all_space-append : (a b : Bytes) → all_space (a ++ b) ≡ (all_space a && all_space b)
unfolding all_space
all_space-append [] b = refl
all_space-append (x ∷ a) b = ground (arith, all_space-append a b)

pub all_space-reverse : (s : Bytes) → all_space (reverse s) ≡ all_space s
unfolding all_space
all_space-reverse [] = refl
all_space-reverse (x ∷ s) =
    rw (reverse-cons, all_space-append, all_space-reverse s) (unfold all_space in ground arith)

pub skip_spaces-append :
    (a b : Bytes)
    → all_space a ≡ false
    → (skip_spaces (a ++ b) ≡ skip_spaces a ++ b) × (spaces (a ++ b) ≡ spaces a)
unfolding all_space skip_spaces
skip_spaces-append [] b h = cc
skip_spaces-append (x ∷ a) b h = ground (arith, skip_spaces-append a b)

-- The white space that a string starts with.
unfoldable pub space_prefix : Bytes → Bytes
space_prefix [] = []
space_prefix (x ∷ xs) = let rest = space_prefix xs in if is_space x then x ∷ rest else []

space_prefix_lem :
    (s : Bytes) → (s ≡ space_prefix s ++ skip_spaces s) × (all_space (space_prefix s) ≡ true)
unfolding space_prefix skip_spaces all_space
space_prefix_lem [] = (refl, refl)
space_prefix_lem (x ∷ s) = ground (arith, space_prefix_lem s)

-- The white space that a string ends with.
abbrev pub space_suffix : Bytes → Bytes
space_suffix s = reverse (space_prefix (reverse s))

-- `strip_right` takes off white space only.
pub strip_right_lem :
    (s : Bytes) → (s ≡ strip_right s ++ space_suffix s) × (all_space (space_suffix s) ≡ true)
strip_right_lem s =
    let (e, h) = space_prefix_lem (reverse s) in
    (
      sym (reverse-reverse s)
          ∙ ap reverse e
          ∙ reverse-append (space_prefix (reverse s)) (skip_spaces (reverse s)),
      all_space-reverse (space_prefix (reverse s)) ∙ h,
    )

pub all_space-strip_right : (s : Bytes) → all_space (strip_right s) ≡ all_space s
all_space-strip_right s =
    let (e, h) = strip_right_lem s in
    sym (
      ap all_space e
      ∙ all_space-append (strip_right s) (space_suffix s)
      ∙ ap (λ b. all_space (strip_right s) && b) h
      ∙ and-true (all_space (strip_right s)))
  where
    and-true : (b : Bool) → (b && true) ≡ b
    and-true true = refl
    and-true false = refl

pub leading-append :
    (a b : Bytes) → all_space a ≡ false → (leading (a ++ b) ≡ leading a) × (leading a ≤ length a)
unfolding leading all_space
leading-append [] b h = cc
leading-append (x ∷ a) b h = ground (arith, leading-append a b)

pub NoNul-drop : (n : ℕ) (s : Bytes) → NoNul s → NoNul (drop n s)
NoNul-drop zero s h = h
NoNul-drop (suc n) [] h = tt
NoNul-drop (suc n) (x ∷ s) h = NoNul-drop n s h.1

pub skip_spaces-all : (s : Bytes) → all_space s ≡ true → skip_spaces s ≡ []
unfolding skip_spaces all_space
skip_spaces-all [] h = refl
skip_spaces-all (x ∷ s) h = ground (arith, skip_spaces-all s)

skip_spaces-skip_spaces : (s : Bytes) → skip_spaces (skip_spaces s) ≡ skip_spaces s
unfolding skip_spaces
skip_spaces-skip_spaces [] = refl
skip_spaces-skip_spaces (x ∷ s) = ground (arith, skip_spaces-skip_spaces s)

pub length-skip_spaces : (s : Bytes) → length (skip_spaces s) + spaces s ≡ length s
unfolding skip_spaces
length-skip_spaces [] = omega arith
length-skip_spaces (x ∷ s) = ground (arith, length-skip_spaces s)

pub strip_right-append :
    (a s : Bytes) → all_space s ≡ false → strip_right (a ++ s) ≡ a ++ strip_right s
strip_right-append a s h =
    ap (λ t. reverse (skip_spaces t)) (reverse-append a s)
    ∙ ap reverse (skip_spaces-append (reverse s) (reverse a) (all_space-reverse s ∙ h)).0
    ∙ reverse-append (skip_spaces (reverse s)) (reverse a)
    ∙ ap (λ t. t ++ strip_right s) (reverse-reverse a)

pub strip_right-all : (s : Bytes) → all_space s ≡ true → strip_right s ≡ []
strip_right-all s h = ap reverse (skip_spaces-all (reverse s) (all_space-reverse s ∙ h))

pub strip_right-cons :
    (x : ℕ) (s : Bytes) → is_space x ≡ false → strip_right (x ∷ s) ≡ x ∷ strip_right s
strip_right-cons x s h = elim (Bool-cases (all_space s)) [
  | inl e ↦
      ap (λ t. reverse (skip_spaces t)) (reverse-cons x s)
      ∙ ap reverse (skip_one (reverse s) (all_space-reverse s ∙ e))
      ∙ ap (λ t. x ∷ t) (sym (strip_right-all s e))
  | inr e ↦ strip_right-append (x ∷ []) s e
]
  where
    skip_one : (r : Bytes) → all_space r ≡ true → skip_spaces (r ++ x ∷ []) ≡ x ∷ []
    skip_one [] e = unfold skip_spaces in rw h
    skip_one (y ∷ r) e = skip_step y r e (skip_one r)
      where
        skip_step :
            (y : ℕ) (r : Bytes)
            → all_space (y ∷ r) ≡ true
            → (all_space r ≡ true → skip_spaces (r ++ x ∷ []) ≡ x ∷ [])
            → skip_spaces (y ∷ (r ++ x ∷ [])) ≡ x ∷ []
        skip_step y r e ih = unfold skip_spaces all_space in ground (arith, ih)

pub strip_right-strip_right : (s : Bytes) → strip_right (strip_right s) ≡ strip_right s
strip_right-strip_right s =
    ap (λ t. reverse (skip_spaces t)) (reverse-reverse (skip_spaces (reverse s)))
    ∙ ap reverse (skip_spaces-skip_spaces (reverse s))

pub leading-strip_right : (s : Bytes) → all_space s ≡ false → leading (strip_right s) ≡ leading s
leading-strip_right s h =
    let t = strip_right s in
    sym (
      ap leading (strip_right_lem s).0
      ∙ (leading-append t (space_suffix s) (all_space-strip_right s ∙ h)).0)

drop-nil : (n : ℕ) → drop {A = ℕ} n [] ≡ []
drop-nil zero = refl
drop-nil (suc n) = refl

pub trimmed-all : (s : Bytes) → all_space s ≡ true → trimmed s ≡ []
trimmed-all s h = ap (drop (leading s)) (strip_right-all s h) ∙ drop-nil (leading s)

-- Trimming after the white space at the end is gone changes nothing more than trimming at once.
pub trimmed-strip_right : (s : Bytes) → trimmed (strip_right s) ≡ trimmed s
trimmed-strip_right s = elim (Bool-cases (all_space s)) [
  | inl e ↦ trimmed-all (strip_right s) (all_space-strip_right s ∙ e) ∙ sym (trimmed-all s e)
  | inr e ↦ rw (leading-strip_right s e, strip_right-strip_right s)
]

-- Every byte passes the test.
abbrev pub all_bytes : (ℕ → Bool) → Bytes → Bool
all_bytes p [] = true
all_bytes p (x ∷ xs) = p x && all_bytes p xs

-- A space or a tab.
abbrev pub is_blank_byte : ℕ → Bool
is_blank_byte x = x == b' ' || x == b'\t'

-- A string is the blanks and tabs in front, and the rest.
pub record Led (a : Bytes) : Type 0 where
  pub blanks : Bytes
  pub rest : Bytes
  pub whole : blanks ++ rest ≡ a
  pub count : length blanks ≡ leading a
  pub all_blank : all_space blanks ≡ true
  pub only_blanks : all_bytes is_blank_byte blanks ≡ true
  pub none_left : leading rest ≡ 0

pub Led_lem : (a : Bytes) → Led a
unfolding leading all_space
Led_lem [] = record {
  blanks = [];
  rest = [];
  whole = refl;
  count = refl;
  all_blank = refl;
  only_blanks = refl;
  none_left = refl;
}
Led_lem (x ∷ a) = elim (Bool-cases (x == b' ' || x == b'\t')) [
  | inl e ↦
      let l = Led_lem a in
      record {
        blanks = x ∷ l.blanks;
        rest = l.rest;
        whole = ap (◌∷◌ x) l.whole;
        count = ground (arith, l.count);
        all_blank = ground (arith, l.all_blank);
        only_blanks = rw (e, l.only_blanks);
        none_left = l.none_left;
      }
  | inr e ↦ record {
    blanks = [];
    rest = x ∷ a;
    whole = refl;
    count = ground arith;
    all_blank = refl;
    only_blanks = refl;
    none_left = ground arith;
  }
]

-- Trimming in two steps: first the front, then the end.
pub trimmed-Led :
    (a : Bytes) (l : Led a)
    → all_space a ≡ false
    → (all_space l.rest ≡ false) × (trimmed l.rest ≡ trimmed a)
trimmed-Led a l h =
    let ne : all_space l.rest ≡ false =
      sym (ap (λ b. b && all_space l.rest) l.all_blank)
      ∙ sym (all_space-append l.blanks l.rest)
      ∙ ap all_space l.whole
      ∙ h in
    (
      ne,
      ap (λ n. drop n (strip_right l.rest)) l.none_left
          ∙ sym (
              ap (λ t. drop (leading a) (strip_right t)) (sym l.whole)
              ∙ ap (drop (leading a)) (strip_right-append l.blanks l.rest ne)
              ∙ ap (λ n. drop n (l.blanks ++ strip_right l.rest)) (sym l.count)
              ∙ drop-length-append l.blanks (strip_right l.rest)),
    )
