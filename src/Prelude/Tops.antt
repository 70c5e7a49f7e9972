-- ===== src/Prelude/Tops.antt =====
-- In a list with a preorder, the last of the elements that are above all that come before them.
use mathlib.Core.Path.{◌≡◌}
use mathlib.Core.Logic.{inl, inr}
use mathlib.Core.Bool.{Bool, true}
use mathlib.Core.List.{List, [], ◌∷◌}
use native.Mathlib.Omega.{arith}
use sn_consensus.Prelude.Maps.{All}
use sn_consensus.Prelude.Tests.{if◌then◌else◌, Bool-cases}

module _ {ℓ} {A : Type ℓ} (above : A → A → Bool) where
  unfoldable pub best : A → List A → A
  best w [] = w
  best w (u ∷ us) = best (if above u w then u else w) us

  module _ (reflexive : (a : A) → above a a ≡ true)
      (transitive : (a b c : A) → above a b ≡ true → above b c ≡ true → above a c ≡ true) where
    pub best_above : (w : A) (xs : List A) → above (best w xs) w ≡ true
    unfolding best
    best_above w [] = reflexive w
    best_above w (u ∷ us) = elim (Bool-cases (above u w)) [
      | inl e ↦ rw e (transitive _ u w (best_above u us) e)
      | inr e ↦ rw e (best_above w us)
    ]

    -- What is above it is below it as well.
    best_head :
        (u w : A) (us : List A)
        → above u (best w (u ∷ us)) ≡ true
        → above (best w (u ∷ us)) u ≡ true
    unfolding best
    best_head u w us = elim (Bool-cases (above u w)) [
      | inl e ↦ rw e (λ _. best_above u us)
      | inr e ↦
          rw e (λ h. absurd (ground (arith, e, transitive u (best w us) w h (best_above w us))))
    ]

    pub best_top :
        (w : A) (xs : List A)
        → All (λ u. above u (best w xs) ≡ true → above (best w xs) u ≡ true) xs
    unfolding best
    best_top w [] = tt
    best_top w (u ∷ us) = (best_head u w us, best_top (if above u w then u else w) us)

  pub best-All : (P : A → Type 0) (w : A) (xs : List A) → P w → All P xs → P (best w xs)
  unfolding best
  best-All P w [] p h = p
  best-All P w (u ∷ us) p h = elim (Bool-cases (above u w)) [
    | inl e ↦ rw e (best-All P u us h.0 h.1)
    | inr e ↦ rw e (best-All P w us p h.1)
  ]
