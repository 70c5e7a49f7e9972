-- ===== src/Prelude/Totals.antt =====
-- The sum of the entries of a map of `Ordered`.
use Prim.Native.Nat.{ℕ, Ordering, ◌+◌, ◌≤◌}
use mathlib.Core.Path.{◌≡◌}
use mathlib.Core.Logic.{inl, inr}
use mathlib.Core.Bool.{false}
use mathlib.Core.List.{List, [], ◌∷◌}
use mathlib.Core.Option.{Option, none, some}
use native.Mathlib.Omega.{arith}
use sn_consensus.Prelude.Maps.{All}
use sn_consensus.Prelude.Tests.{Option-cases}
use sn_consensus.Prelude.Ordered.{IsFaithful, get, put, replace, place_entry, is_eq}

module _ {κ} {V : Type κ} (f : V → ℕ) where
  abbrev pub value_or_zero : Option V → ℕ
  value_or_zero none = 0
  value_or_zero (some v) = f v

module _ {ℓ κ} {K : Type ℓ} {V : Type κ} (f : V → ℕ) where
  abbrev pub total : List (K × V) → ℕ
  total [] = 0
  total ((_, v) ∷ m) = f v + total m

  module _ (cmp : K → K → Ordering) where
    total-replace :
        (k : K) (v w : V) (m : List (K × V))
        → get cmp k m ≡ some w
        → total (replace cmp k v m) + f w ≡ total m + f v
    total-replace k v w [] e = cc
    total-replace k v w ((j, u) ∷ m) e = grind (arith, total-replace k v w m)

    total-place_entry :
        (k : K) (v : V) (m : List (K × V)) → total (place_entry cmp k v m) ≡ total m + f v
    total-place_entry k v [] = omega arith
    total-place_entry k v ((j, u) ∷ m) = ground (arith, total-place_entry k v m)

    -- `insert` trades the old value for the new one.
    pub total-put :
        (k : K) (v : V) (m : List (K × V))
        → total (put cmp k v m) + value_or_zero f (get cmp k m) ≡ total m + f v
    total-put k v m = elim (Option-cases (get cmp k m)) [
      | inl e ↦ rw e (omega (arith, total-place_entry k v m))
      | inr (w, e) ↦ rw e (total-replace k v w m e)
    ]

    -- A value that is one more than the old one adds one.
    pub total-put_next :
        (k : K) (v : V) (m : List (K × V))
        → f v ≡ value_or_zero f (get cmp k m) + 1
        → total (put cmp k v m) ≡ total m + 1
    total-put_next k v m h = omega (arith, total-put k v m)

    total-get : (k : K) (v : V) (m : List (K × V)) → get cmp k m ≡ some v → f v ≤ total m
    total-get k v [] e = cc
    total-get k v ((j, u) ∷ m) e = grind (arith, total-get k v m)

    -- Two keys that differ share the sum.
    pub total-get_two :
        IsFaithful cmp
        → (k j : K) (v w : V) (m : List (K × V)) → get cmp k m ≡ some v
        → get cmp j m ≡ some w
        → is_eq (cmp k j) ≡ false
        → f v + f w ≤ total m
    total-get_two law k j v w [] e d n = cc
    total-get_two law k j v w ((i, u) ∷ m) e d n = grind (
      arith,
      total-get_two law k j v w m,
      total-get k v m,
      total-get j w m,
      law.separates k i,
      law.separates j i,
      law.reflexive i,
    )

  -- Each value is at most the sum.
  pub entries-le-total : (n : ℕ) (m : List (K × V)) → total m ≤ n → All (λ e. f e.1 ≤ n) m
  entries-le-total n [] h = tt
  entries-le-total n ((k, v) ∷ m) h = (omega arith, entries-le-total n m (omega arith))
