-- ===== src/Prelude/Subsets.antt =====
-- Membership and inclusion of the sets of `Ordered`.
use Prim.Native.Nat.{Ordering}
use mathlib.Core.Path.{◌≡◌, refl, subst, sym}
use mathlib.Core.Logic.{inl, inr}
use mathlib.Core.Bool.{Bool, true, false}
use mathlib.Core.List.{List, [], ◌∷◌, ◌++◌}
use native.Mathlib.Omega.{arith}
use sn_consensus.Prelude.Maps.{any, keep, All}
use sn_consensus.Prelude.Tests.{if◌then◌else◌, Bool-cases}
use sn_consensus.Prelude.Ordered.{
  IsFaithful, eq_of_is_eq, is_eq, has, is_subset, add, extend, place,
}

module _ {ℓ} {A : Type ℓ} where
  pub any-++ :
      (p : A → Bool) (xs ys : List A) → any p (xs ++ ys) ≡ (if any p xs then true else any p ys)
  any-++ p [] ys = refl
  any-++ p (x ∷ xs) ys = ground (arith, any-++ p xs ys)

  module _ (cmp : A → A → Ordering) (law : IsFaithful cmp) where
    pub has-is_subset :
        (x : A) (xs ys : List A)
        → is_subset cmp xs ys ≡ true
        → has cmp x xs ≡ true
        → has cmp x ys ≡ true
    has-is_subset x [] ys s h = cc
    has-is_subset x (z ∷ xs) ys s h = ground (arith, has-is_subset x xs ys, law.separates x z)

    pub is_subset_trans :
        (xs ys zs : List A)
        → is_subset cmp xs ys ≡ true
        → is_subset cmp ys zs ≡ true
        → is_subset cmp xs zs ≡ true
    is_subset_trans [] ys zs s t = refl
    is_subset_trans (x ∷ xs) ys zs s t =
        ground (arith, has-is_subset x ys zs, is_subset_trans xs ys zs)

    is_subset_grow :
        (y : A) (xs ys : List A) → is_subset cmp xs ys ≡ true → is_subset cmp xs (y ∷ ys) ≡ true
    is_subset_grow y [] ys s = refl
    is_subset_grow y (x ∷ xs) ys s = ground (arith, is_subset_grow y xs ys)

    pub is_subset_refl : (xs : List A) → is_subset cmp xs xs ≡ true
    is_subset_refl [] = refl
    is_subset_refl (x ∷ xs) =
        ground (arith, law.reflexive x, is_subset_grow x xs xs (is_subset_refl xs))

module _ {ℓ} {A : Type ℓ} (cmp : A → A → Ordering) (law : IsFaithful cmp) where
  has-place_self : (a : A) (s : List A) → has cmp a (place cmp a s) ≡ true
  has-place_self a [] = ground (arith, law.reflexive a)
  has-place_self a (b ∷ s) = ground (arith, law.reflexive a, has-place_self a s)

  has-place : (a b : A) (s : List A) → has cmp b s ≡ true → has cmp b (place cmp a s) ≡ true
  has-place a b [] h = cc
  has-place a b (d ∷ s) h = ground (arith, has-place a b s)

  -- `insert` adds the element and loses none.
  pub has-add_self : (a : A) (s : List A) → has cmp a (add cmp a s) ≡ true
  has-add_self a s = ground (arith, has-place_self a s)

  pub has-add : (a b : A) (s : List A) → has cmp b s ≡ true → has cmp b (add cmp a s) ≡ true
  has-add a b s h = ground (arith, has-place a b s h)

module _ {ℓ} {A : Type ℓ} where
  pub any-keep-false :
      (p q : A → Bool) (xs : List A)
      → All (λ u. p u ≡ true → q u ≡ false) xs
      → any q (keep p xs) ≡ false
  any-keep-false p q [] h = refl
  any-keep-false p q (x ∷ xs) h = ground (arith, any-keep-false p q xs h.1)

  module _ (cmp : A → A → Ordering) (law : IsFaithful cmp) where
    pub All-has :
        (xs ys : List A)
        → ((a : A) → has cmp a xs ≡ true → has cmp a ys ≡ true)
        → All (λ a. has cmp a ys ≡ true) xs
    All-has [] ys h = tt
    All-has (x ∷ xs) ys h =
        (h x (ground (arith, law.reflexive x)), All-has xs ys (λ a k. h a (ground (arith, k))))

    pub has-keep :
        (p : A → Bool) (a : A) (xs : List A)
        → p a ≡ true
        → has cmp a xs ≡ true
        → has cmp a (keep p xs) ≡ true
    has-keep p a [] e h = cc
    has-keep p a (x ∷ xs) e h = elim (Bool-cases (is_eq (cmp a x))) [
      | inl same ↦
          rw (subst (λ z. p z ≡ true) (eq_of_is_eq cmp law a x same) e) (ground (arith, same))
      | inr other ↦ ground (arith, has-keep p a xs e)
    ]

    has-extend_kept :
        (a : A) (s xs : List A) → has cmp a s ≡ true → has cmp a (extend cmp s xs) ≡ true
    has-extend_kept a s [] h = h
    has-extend_kept a s (x ∷ xs) h = has-extend_kept a (add cmp x s) xs (has-add cmp law x a s h)

    pub has-extend :
        (a : A) (s xs : List A) → has cmp a xs ≡ true → has cmp a (extend cmp s xs) ≡ true
    has-extend a s [] h = cc
    has-extend a s (x ∷ xs) h = elim (Bool-cases (is_eq (cmp a x))) [
      | inl same ↦ has-extend_kept a (add cmp x s) xs (
          subst (λ z. has cmp z (add cmp x s) ≡ true) (sym (eq_of_is_eq cmp law a x same))
            (has-add_self cmp law x s))
      | inr other ↦ has-extend a (add cmp x s) xs (ground (arith, other, h))
    ]

    pub has-any :
        (q : A → Bool) (a : A) (xs : List A) → has cmp a xs ≡ true → q a ≡ true → any q xs ≡ true
    has-any q a [] h e = cc
    has-any q a (x ∷ xs) h e = elim (Bool-cases (is_eq (cmp a x))) [
      | inl same ↦ ground (arith, eq_of_is_eq cmp law a x same)
      | inr other ↦ ground (arith, has-any q a xs)
    ]
