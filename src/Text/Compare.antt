-- ===== src/Text/Compare.antt =====
-- `str_cmp` against the lexicographic order.
use sync_agent.Base.{ℕ, ◌≡◌, ◌∙◌, ◌↔◌, sym, ap, refl, [], ◌∷◌, arith, ltb, if◌then◌else◌, Bytes}
use sync_agent.Base.Int.{ℤ, pos, minus_one}
use sync_agent.Text.{str_cmp}

-- The lexicographic order of byte strings, a proper prefix coming first.
unfoldable pub lexicographic : Bytes → Bytes → ℤ
lexicographic [] [] = pos 0
lexicographic [] (y ∷ ys) = minus_one
lexicographic (x ∷ xs) [] = pos 1
lexicographic (x ∷ xs) (y ∷ ys) =
    let rest = lexicographic xs ys in if ltb x y then minus_one else if ltb y x then pos 1 else rest

str_cmp-cons :
    (x y : ℕ) (xs ys : Bytes)
    → str_cmp (x ∷ xs) (y ∷ ys)
      ≡ (if ltb x y then minus_one else if ltb y x then pos 1 else str_cmp xs ys)
unfolding str_cmp
str_cmp-cons x y xs ys = ground arith

-- `str_cmp` is the lexicographic comparison of the two strings.
pub str_cmp-lexicographic : (a b : Bytes) → str_cmp a b ≡ lexicographic a b
unfolding lexicographic
str_cmp-lexicographic [] [] = unfold str_cmp in refl
str_cmp-lexicographic [] (y ∷ ys) = unfold str_cmp in ground arith
str_cmp-lexicographic (x ∷ xs) [] = unfold str_cmp in ground arith
str_cmp-lexicographic (x ∷ xs) (y ∷ ys) =
    str_cmp-cons x y xs ys
    ∙ ap (λ r. if ltb x y then minus_one else if ltb y x then pos 1 else r)
        (str_cmp-lexicographic xs ys)

lexicographic-zero : (a b : Bytes) → lexicographic a b ≡ pos 0 → a ≡ b
unfolding lexicographic
lexicographic-zero [] [] h = refl
lexicographic-zero [] (y ∷ b) h = cc
lexicographic-zero (x ∷ a) [] h = ground arith
lexicographic-zero (x ∷ a) (y ∷ b) h = ground (arith, lexicographic-zero a b)

lexicographic_self : (a : Bytes) → lexicographic a a ≡ pos 0
unfolding lexicographic
lexicographic_self [] = refl
lexicographic_self (x ∷ a) = ground (arith, lexicographic_self a)

-- `str_cmp` returns 0 exactly on equal strings.
pub str_cmp-zero : (a b : Bytes) → (str_cmp a b ≡ pos 0) ↔ (a ≡ b)
str_cmp-zero a b = (
  λ h. lexicographic-zero a b (sym (str_cmp-lexicographic a b) ∙ h),
  λ e. ap (str_cmp a) (sym e) ∙ str_cmp-lexicographic a a ∙ lexicographic_self a,
)
