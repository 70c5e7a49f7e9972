-- ===== src/Prelude/Entries.antt =====
-- Lemmas on the entries of the maps of `Maps`.
use Prim.Native.Nat.{ℕ}
use native.Mathlib.Omega.{arith}
use mathlib.Core.Path.{◌≡◌}
use mathlib.Core.Logic.{◌≢◌}
use mathlib.Core.List.{[], ◌∷◌}
use mathlib.Core.Option.{some}
use sn_consensus.Prelude.Maps.{Map, All, lookup, insert}

module _ {V : Type 0} where
  pub insert-All :
      (P : ℕ × V → Type 0) (k : ℕ) (v : V) (m : Map V) → P (k, v) → All P m → All P (insert k v m)
  insert-All P k v [] p a = (p, tt)
  insert-All P k v ((j, w) ∷ m) p a = ground (arith, insert-All P k v m)

  pub lookup-All :
      (P : ℕ × V → Type 0) (k : ℕ) (m : Map V) (v : V) → All P m → lookup k m ≡ some v → P (k, v)
  lookup-All P k [] v a e = cc
  lookup-All P k ((j, w) ∷ m) v a e = ground (arith, lookup-All P k m v)

  pub lookup-insert_self : (k : ℕ) (v : V) (m : Map V) → lookup k (insert k v m) ≡ some v
  lookup-insert_self k v [] = ground arith
  lookup-insert_self k v ((j, w) ∷ m) = ground (arith, lookup-insert_self k v m)

  pub lookup-insert_ne :
      (k j : ℕ) (v : V) (m : Map V) → k ≢ j → lookup j (insert k v m) ≡ lookup j m
  lookup-insert_ne k j v [] n = ground arith
  lookup-insert_ne k j v ((i, w) ∷ m) n = ground (arith, lookup-insert_ne k j v m)
