-- ===== src/Queue/Window.antt =====
-- Runs of a sequence: the elements of a function on positions, from a start.
use sync_agent.Base.{ℕ, zero, suc, ◌+◌, ◌<◌, ◌≡◌, refl, ap, ◌∙◌, List, [], ◌∷◌, ◌++◌, arith, length}

module _ {A : Type 0} where
  -- f s, f (s + 1), …, n of them.
  abbrev pub segment : (ℕ → A) → ℕ → ℕ → List A
  segment f s zero = []
  segment f s (suc n) = f s ∷ segment f (suc s) n

  pub length-segment : (f : ℕ → A) (s n : ℕ) → length (segment f s n) ≡ n
  length-segment f s zero = refl
  length-segment f s (suc n) = ap suc (length-segment f (suc s) n)

  pub segment_ext :
      (f g : ℕ → A) (s t n : ℕ)
      → ((k : ℕ) → k < n → f (s + k) ≡ g (t + k))
      → segment f s n ≡ segment g t n
  segment_ext f g s t zero h = refl
  segment_ext f g s t (suc n) h =
      let head : f s ≡ g t = ap f (omega arith) ∙ h 0 (omega arith) ∙ ap g (omega arith) in
      let tail : segment f (suc s) n ≡ segment g (suc t) n =
        segment_ext f g (suc s) (suc t) n
          (λ k lt. ap f (omega arith) ∙ h (suc k) (omega arith) ∙ ap g (omega arith)) in
      λ i. head i ∷ tail i

  pub segment-suc : (f : ℕ → A) (s n : ℕ) → segment f s (suc n) ≡ segment f s n ++ (f (s + n) ∷ [])
  segment-suc f s zero = ap (λ k. f k ∷ []) (omega arith)
  segment-suc f s (suc n) =
      ap (◌∷◌ (f s))
        (segment-suc f (suc s) n ∙ ap (λ k. segment f (suc s) n ++ (f k ∷ [])) (omega arith))
