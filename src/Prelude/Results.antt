-- ===== src/Prelude/Results.antt =====
-- Results without a state: Rust's `?` and `collect` into a `Result`.
use mathlib.Core.Path.{◌≡◌, refl}
use mathlib.Core.Logic.{◌↔◌, ◌≢◌}
use mathlib.Core.List.{List, [], ◌∷◌}
use sn_consensus.Prelude.Maps.{All}
use sn_consensus.Prelude.Methods.{Outcome, ok, stop, raised, panicked, out_of_fuel}

-- `?`
abbrev pub and_then {ℓ κ μ} :
    {E : Type ℓ} → {A : Type κ} → {B : Type μ} → Outcome E A → (A → Outcome E B) → Outcome E B
and_then (ok a) f = f a
and_then (stop x) f = stop x

-- `iter().map(f).collect::<Result<_>>()`, which stops at the first error.
abbrev pub collect_results {ℓ κ μ} :
    {E : Type ℓ} → {A : Type κ} → {B : Type μ} → (A → Outcome E B) → List A → Outcome E (List B)
collect_results f [] = ok []
collect_results f (a ∷ more) =
    let rest = collect_results f more in and_then (f a) λ b. and_then rest λ bs. ok (b ∷ bs)

-- `for a in more { f(a)? }`
abbrev pub for_each {ℓ κ} :
    {E : Type ℓ} → {A : Type κ} → (A → Outcome E (Unit {0})) → List A → Outcome E (Unit {0})
for_each f [] = ok tt
for_each f (a ∷ more) = let rest = for_each f more in and_then (f a) λ _. rest

-- A result of a chain is the result of its steps.
pub and_then-ok {ℓ κ μ} :
    {E : Type ℓ} {A : Type κ} {B : Type μ} (r : Outcome E A) (f : A → Outcome E B) (b : B)
    → and_then r f ≡ ok b
    → (a : A) × (r ≡ ok a) × (f a ≡ ok b)
and_then-ok (ok a) f b h = (a, refl, h)
and_then-ok (stop e) f b h = cc

module _ {ℓ κ} {E : Type ℓ} {A : Type κ} (f : A → Outcome E (Unit {0})) where
  -- A loop returns exactly if it does so on every element.
  pub for_each-All : (xs : List A) → (for_each f xs ≡ ok tt) ↔ All (λ a. f a ≡ ok tt) xs
  for_each-All [] = (λ _. tt, λ _. refl)
  for_each-All (a ∷ xs) = (
    λ h. let (u, e, k) = and_then-ok (f a) (λ _. for_each f xs) tt h in (e, (for_each-All xs).0 k),
    λ (e, k). rw e ((for_each-All xs).1 k),
  )

-- A chain panics only where a step does.
pub and_then-never {ℓ κ μ} :
    {E : Type ℓ} {A : Type κ} {B : Type μ} (r : Outcome E A) (f : A → Outcome E B)
    → r ≢ stop panicked
    → ((a : A) → r ≡ ok a → f a ≢ stop panicked)
    → and_then r f ≢ stop panicked
and_then-never (ok a) f h k = k a refl
and_then-never (stop (raised e)) f h k = λ p. cc
and_then-never (stop panicked) f h k = λ p. h refl
and_then-never (stop out_of_fuel) f h k = λ p. cc

pub for_each-never {ℓ κ} :
    {E : Type ℓ} {A : Type κ} (f : A → Outcome E (Unit {0})) (xs : List A)
    → ((a : A) → f a ≢ stop panicked)
    → for_each f xs ≢ stop panicked
for_each-never f [] h = λ p. cc
for_each-never f (a ∷ more) h =
    and_then-never (f a) (λ _. for_each f more) (h a) (λ _ _. for_each-never f more h)
