-- ===== src/Prelude/Ordered.antt =====
-- Rust's `BTreeSet` and `BTreeMap` as lists in ascending order of a comparison, and the derived
-- comparisons of pairs and sequences.
use Prim.Native.Nat.{ℕ, compare, Ordering}
use Prim.Native.Nat.Ordering.{lt, eq, gt}
use mathlib.Core.Path.{◌≡◌, refl, subst}
use mathlib.Core.Logic.{inl, inr}
use mathlib.Core.Bool.{Bool, true, false}
use mathlib.Core.List.{List, [], ◌∷◌}
use mathlib.Core.Option.{Option, none, some}
use native.Mathlib.Omega.{arith}
use sn_consensus.Prelude.Maps.{All}
use sn_consensus.Prelude.Tests.{if◌then◌else◌, leb, is_some, Option-cases, Bool-cases}

-- What the source relies on in a `cmp`: it answers `Equal` on equal values only. The derived
-- `PartialEq` is then `is_eq` of the derived `cmp`.
pub record IsFaithful {ℓ} {A : Type ℓ} (order : A → A → Ordering) : Type ℓ where
  pub separates : (x y : A) → order x y ≡ eq → x ≡ y
  pub reflexive : (x : A) → order x x ≡ eq

pub compare-IsFaithful : IsFaithful compare
compare-IsFaithful = ground arith

abbrev pub is_eq : Ordering → Bool
is_eq eq = true
is_eq _ = false

abbrev pub is_lt : Ordering → Bool
is_lt lt = true
is_lt _ = false

-- Lexicographic: the second comparison counts when the first is a tie.
abbrev pub then_cmp : Ordering → Ordering → Ordering
then_cmp lt _ = lt
then_cmp gt _ = gt
then_cmp eq o = o

module _ {ℓ} {A : Type ℓ} (cmp : A → A → Ordering) where
  -- BTreeSet::contains
  abbrev pub has : A → List A → Bool
  has x [] = false
  has x (y ∷ ys) = if is_eq (cmp x y) then true else has x ys

  -- In front of the first greater element.
  abbrev pub place : A → List A → List A
  place x [] = x ∷ []
  place x (y ∷ ys) = if is_lt (cmp x y) then x ∷ y ∷ ys else y ∷ place x ys

  -- BTreeSet::insert; an equal element stays.
  abbrev pub add : A → List A → List A
  add x s = if has x s then s else place x s

  -- BTreeSet::remove
  abbrev pub remove : A → List A → List A
  remove x [] = []
  remove x (y ∷ ys) = if is_eq (cmp x y) then ys else y ∷ remove x ys

  -- BTreeSet::extend, and BTreeSet::from_iter
  abbrev pub extend : List A → List A → List A
  extend s [] = s
  extend s (x ∷ xs) = extend (add x s) xs

  abbrev pub collect : List A → List A
  collect xs = extend [] xs

  -- BTreeSet::is_subset
  abbrev pub is_subset : List A → List A → Bool
  is_subset [] ys = true
  is_subset (x ∷ xs) ys = if has x ys then is_subset xs ys else false

  -- The derived `cmp` of a sequence.
  abbrev pub cmp_list : List A → List A → Ordering
  cmp_list [] [] = eq
  cmp_list [] (_ ∷ _) = lt
  cmp_list (_ ∷ _) [] = gt
  cmp_list (x ∷ xs) (y ∷ ys) = then_cmp (cmp x y) (cmp_list xs ys)

module _ {ℓ κ} {K : Type ℓ} {V : Type κ} (cmp : K → K → Ordering) where
  -- BTreeMap::get
  abbrev pub get : K → List (K × V) → Option V
  get k [] = none
  get k ((j, v) ∷ m) = if is_eq (cmp k j) then some v else get k m

  -- An equal key stays and takes the new value.
  abbrev pub replace : K → V → List (K × V) → List (K × V)
  replace k v [] = []
  replace k v ((j, w) ∷ m) = if is_eq (cmp k j) then (j, v) ∷ m else (j, w) ∷ replace k v m

  -- In front of the first greater key.
  abbrev pub place_entry : K → V → List (K × V) → List (K × V)
  place_entry k v [] = (k, v) ∷ []
  place_entry k v ((j, w) ∷ m) =
      if is_lt (cmp k j) then (k, v) ∷ (j, w) ∷ m else (j, w) ∷ place_entry k v m

  -- BTreeMap::insert
  abbrev pub put : K → V → List (K × V) → List (K × V)
  put k v m = if is_some (get k m) then replace k v m else place_entry k v m

  abbrev pub put_all : List (K × V) → List (K × V) → List (K × V)
  put_all m [] = m
  put_all m ((k, v) ∷ more) = put_all (put k v m) more

abbrev pub keys {ℓ κ} : {K : Type ℓ} {V : Type κ} → List (K × V) → List K
keys [] = []
keys ((k, _) ∷ m) = k ∷ keys m

abbrev pub values {ℓ κ} : {K : Type ℓ} {V : Type κ} → List (K × V) → List V
values [] = []
values ((_, v) ∷ m) = v ∷ values m

-- Iterator::max_by_key, which returns the last of several maxima.
module _ {ℓ} {A : Type ℓ} (f : A → ℕ) where
  abbrev pub max_from : A → List A → A
  max_from a [] = a
  max_from a (b ∷ bs) = max_from (if leb (f a) (f b) then b else a) bs

  abbrev pub max_by_key : List A → Option A
  max_by_key [] = none
  max_by_key (a ∷ more) = some (max_from a more)

module _ {ℓ} {A : Type ℓ} (cmp : A → A → Ordering) (law : IsFaithful cmp) where
  pub is_eq-reflexive : (a : A) → is_eq (cmp a a) ≡ true
  is_eq-reflexive a = rw (law.reflexive a) refl

  pub eq_of_is_eq : (a b : A) → is_eq (cmp a b) ≡ true → a ≡ b
  eq_of_is_eq a b h = ground (arith, law.separates a b)

  pub cmp_list-IsFaithful : IsFaithful (cmp_list cmp)
  cmp_list-IsFaithful = record { reflexive = same; separates = only }
    where
      same : (xs : List A) → cmp_list cmp xs xs ≡ eq
      same [] = refl
      same (x ∷ xs) = rw (law.reflexive x) (same xs)

      only : (xs ys : List A) → cmp_list cmp xs ys ≡ eq → xs ≡ ys
      only [] [] h = refl
      only [] (y ∷ ys) h = cc
      only (x ∷ xs) [] h = cc
      only (x ∷ xs) (y ∷ ys) h = ground (arith, law.separates x y, only xs ys)

module _ {ℓ κ} {K : Type ℓ} {V : Type κ} (cmp : K → K → Ordering) (law : IsFaithful cmp) where
  get-replace :
      (k j : K) (v w : V) (m : List (K × V))
      → get cmp k m ≡ some w
      → get cmp j (replace cmp k v m) ≡ (if is_eq (cmp j k) then some v else get cmp j m)
  get-replace k j v w [] e = cc
  get-replace k j v w ((i, u) ∷ m) e =
      ground (arith, get-replace k j v w m, law.separates j k, law.separates k i, law.reflexive k)

  get-place_entry :
      (k j : K) (v : V) (m : List (K × V))
      → get cmp k m ≡ none
      → get cmp j (place_entry cmp k v m) ≡ (if is_eq (cmp j k) then some v else get cmp j m)
  get-place_entry k j v [] e = refl
  get-place_entry k j v ((i, u) ∷ m) e =
      ground (arith, get-place_entry k j v m, law.separates j k, law.separates k i, law.reflexive k)

  -- A map after `insert`, as a function.
  pub get-put :
      (k j : K) (v : V) (m : List (K × V))
      → get cmp j (put cmp k v m) ≡ (if is_eq (cmp j k) then some v else get cmp j m)
  get-put k j v m = elim (Option-cases (get cmp k m)) [
    | inl e ↦ rw e (get-place_entry k j v m e)
    | inr (w, e) ↦ rw e (get-replace k j v w m e)
  ]

  pub put-All :
      (P : K × V → Type 0) (k : K) (v : V) (m : List (K × V))
      → P (k, v)
      → All P m
      → All P (put cmp k v m)
  put-All P k v m p a = elim (Option-cases (get cmp k m)) [
    | inl e ↦ rw e (placed m a)
    | inr (w, e) ↦ rw e (replaced m a)
  ]
    where
      placed : (m : List (K × V)) → All P m → All P (place_entry cmp k v m)
      placed [] a = (p, tt)
      placed ((j, w) ∷ m) a = ground (arith, placed m)

      replaced : (m : List (K × V)) → All P m → All P (replace cmp k v m)
      replaced [] a = tt
      replaced ((j, w) ∷ m) a = elim (Bool-cases (is_eq (cmp k j))) [
        | inl e ↦ rw e (subst (λ i. P (i, v)) (eq_of_is_eq cmp law k j e) p, a.1)
        | inr e ↦ rw e (a.0, replaced m a.1)
      ]

  pub get-All :
      (P : K × V → Type 0) (k : K) (m : List (K × V)) (v : V)
      → All P m
      → get cmp k m ≡ some v
      → P (k, v)
  get-All P k [] v a e = cc
  get-All P k ((j, w) ∷ m) v a e = elim (Bool-cases (is_eq (cmp k j))) [
    | inl h ↦ ground (arith, law.separates k j)
    | inr h ↦ ground (arith, get-All P k m v a.1)
  ]

module _ {ℓ} {A : Type ℓ} (f : A → ℕ) (P : A → Type 0) where
  max_from-All : (more : List A) (a : A) → P a → All P more → P (max_from f a more)
  max_from-All [] a p h = p
  max_from-All (b ∷ more) a p h = max_from-All more _ (greater (leb (f a) (f b))) h.1
    where
      greater : (c : Bool) → P (if c then b else a)
      greater true = h.0
      greater false = p

  -- The maximum is one of the elements.
  pub max_by_key-All : (xs : List A) (a : A) → All P xs → max_by_key f xs ≡ some a → P a
  max_by_key-All [] a h e = cc
  max_by_key-All (b ∷ more) a h e = subst P (some-inj e) (max_from-All more b h.0 h.1)
    where
      some-inj : {c d : A} → some c ≡ some d → c ≡ d
      some-inj e = cc
