-- ===== src/Prelude/Methods.antt =====
-- A method of the source: it changes an object, returns a result, and may stop early. What was
-- written before an early stop stays written, so the state comes back on every path.
use mathlib.Core.Path.{◌≡◌, refl}
use mathlib.Core.Logic.{◌≢◌}
use mathlib.Core.Bool.{Bool, true, false}
use mathlib.Core.Option.{Option, none, some}
use sn_consensus.Prelude.Tests.{if◌then◌else◌}

-- `raised` is the source's `Err`, `panicked` its panic; `out_of_fuel` is the model's own.
pub data Stop {ℓ} (E : Type ℓ) : Type ℓ where
  raised : E → Stop E
  panicked out_of_fuel : Stop E

pub data Outcome {ℓ κ} (E : Type ℓ) (A : Type κ) : Type (ℓ ⊔ κ) where
  ok : A → Outcome E A
  stop : Stop E → Outcome E A

abbrev pub Exec : Type 0 → Type 0 → Type 0 → Type 0
Exec S E A = S → Outcome E A × S

module _ {S E A : Type 0} where
  abbrev pub pure : A → Exec S E A
  pure a s = (ok a, s)

  abbrev pub halt : Stop E → Exec S E A
  halt x s = (stop x, s)

  abbrev pub raise : E → Exec S E A
  raise e = halt (raised e)

  -- A result that is computed without touching the object.
  abbrev pub lift : Outcome E A → Exec S E A
  lift r s = (r, s)

  -- `?` on a call that either returns or fails with one error.
  abbrev pub or_raise : E → Option A → Exec S E A
  or_raise e none = raise e
  or_raise e (some a) = pure a

  -- The body reads the object as it is when the body starts.
  abbrev pub reading : (S → Exec S E A) → Exec S E A
  reading f s = f s s

module _ {S E : Type 0} where
  abbrev pub modify : (S → S) → Exec S E (Unit {0})
  modify f s = (ok tt, f s)

  -- An `if` with no `else`.
  abbrev pub when : Bool → (S → S) → Exec S E (Unit {0})
  when b f s = (ok tt, if b then f s else s)

  abbrev pub done : Exec S E (Unit {0})
  done s = (ok tt, s)

module _ {S E A B : Type 0} where
  abbrev pub continue : Outcome E A → (A → Exec S E B) → Exec S E B
  continue (ok a) f s = f a s
  continue (stop x) f s = (stop x, s)

  infixl 10 ◌>>=◌ ◌>>◌
  abbrev pub ◌>>=◌ : Exec S E A → (A → Exec S E B) → Exec S E B
  ◌>>=◌ m f s = continue (m s).0 f (m s).1

  abbrev pub ◌>>◌ : Exec S E A → Exec S E B → Exec S E B
  m >> n = m >>= λ _. n

-- `match` on an option.
module _ {ℓ κ} {A : Type ℓ} {B : Type κ} where
  abbrev pub on_option : Option B → A → (B → A) → A
  on_option none n f = n
  on_option (some b) n f = f b

-- What holds of an outcome that is not a normal return.
abbrev pub Stops : {E A : Type 0} → (Stop E → Type 0) → Outcome E A → Type 0
Stops X (ok _) = Unit
Stops X (stop x) = X x

-- From a state in `P` the method ends in a state in `P`, and stops early only as `X` allows.
pub record Keeps {S : Type 0} {E : Type 0} {A : Type 0} (P : S → Type 0) (X : Stop E → Type 0)
    (m : Exec S E A) : Type 0 where
  pub at : (s : S) → P s → P (m s).1 × Stops X (m s).0

module _ {S E A : Type 0} {P : S → Type 0} {X : Stop E → Type 0} where
  pub Keeps-pure : (a : A) → Keeps P X (pure {S = S} {E = E} a)
  Keeps-pure a = record { at = λ s h. (h, tt) }

  pub Keeps-halt : (x : Stop E) → X x → Keeps P X (halt {S = S} {A = A} x)
  Keeps-halt x k = record { at = λ s h. (h, k) }

  pub Keeps-or_raise : (e : E) (o : Option A) → X (raised e) → Keeps P X (or_raise {S = S} e o)
  Keeps-or_raise e none k = Keeps-halt _ k
  Keeps-or_raise e (some a) k = Keeps-pure a

  pub Keeps-if :
      (b : Bool) (m n : Exec S E A)
      → (b ≡ true → Keeps P X m)
      → (b ≡ false → Keeps P X n)
      → Keeps P X (if b then m else n)
  Keeps-if true m n km kn = km refl
  Keeps-if false m n km kn = kn refl

  -- The body may be judged at the state that it reads, or at any state.
  pub Keeps-reading : (f : S → Exec S E A) → ((v : S) → Keeps P X (f v)) → Keeps P X (reading f)
  Keeps-reading f k = record { at = λ s h. (k s).at s h }

module _ {S E : Type 0} {P : S → Type 0} {X : Stop E → Type 0} where
  pub Keeps-modify : (f : S → S) → ((s : S) → P s → P (f s)) → Keeps P X (modify {E = E} f)
  Keeps-modify f k = record { at = λ s h. (k s h, tt) }

module _ {S E A B : Type 0} (P : S → Type 0) (X : Stop E → Type 0) where
  -- A match at one state, where the branches may use what the option is.
  pub on_option_at :
      (o : Option B) (n : Exec S E A) (f : B → Exec S E A) (s : S)
      → (o ≡ none → P (n s).1 × Stops X (n s).0)
      → ((b : B) → o ≡ some b → P (f b s).1 × Stops X (f b s).0)
      → P (on_option o n f s).1 × Stops X (on_option o n f s).0
  on_option_at none n f s hn hf = hn refl
  on_option_at (some b) n f s hn hf = hf b refl

  -- A first step that changes nothing: what follows may use the value that it returned.
  pub bind_at :
      (m : Exec S E B) (f : B → Exec S E A) (s : S)
      → (m s).1 ≡ s
      → P s
      → Stops X (m s).0
      → ((b : B) → (m s).0 ≡ ok b → P (f b s).1 × Stops X (f b s).0)
      → P ((m >>= f) s).1 × Stops X ((m >>= f) s).0
  bind_at m f s same_state h k kf = go (m s).0 (m s).1 same_state refl k
    where
      go :
          (o : Outcome E B) (t : S)
          → t ≡ s
          → (m s).0 ≡ o
          → Stops X o
          → P (continue o f t).1 × Stops X (continue o f t).0
      go (ok b) t e r q = rw e (kf b r)
      go (stop z) t e r q = rw e (h, q)

  -- A first step that is known to keep the state good: what follows may use where it ended.
  pub bind_from :
      (m : Exec S E B) (f : B → Exec S E A) (s : S)
      → P (m s).1 × Stops X (m s).0
      → ((b : B) → P (f b (m s).1).1 × Stops X (f b (m s).1).0)
      → P ((m >>= f) s).1 × Stops X ((m >>= f) s).0
  bind_from m f s h kf = go (m s).0 (m s).1 h kf
    where
      go :
          (o : Outcome E B) (t : S)
          → P t × Stops X o
          → ((b : B) → P (f b t).1 × Stops X (f b t).0)
          → P (continue o f t).1 × Stops X (continue o f t).0
      go (ok b) t q k = k b
      go (stop z) t q k = q

module _ {S E A B : Type 0} {P : S → Type 0} {X : Stop E → Type 0} where
  Keeps-continue :
      (r : Outcome E A) (f : A → Exec S E B)
      → Stops X r
      → ((a : A) → Keeps P X (f a))
      → Keeps P X (continue r f)
  Keeps-continue (ok a) f k kf = kf a
  Keeps-continue (stop x) f k kf = Keeps-halt x k

  pub Keeps-bind :
      (m : Exec S E A) (f : A → Exec S E B)
      → Keeps P X m
      → ((a : A) → Keeps P X (f a))
      → Keeps P X (m >>= f)
  Keeps-bind m f km kf = record {
    at = λ s h. let (p, k) = km.at s h in (Keeps-continue (m s).0 f k kf).at (m s).1 p;
  }

  -- The first step is judged at one state only.
  pub bind_then :
      (m : Exec S E A) (f : A → Exec S E B) (s : S)
      → P (m s).1 × Stops X (m s).0
      → ((a : A) → Keeps P X (f a))
      → P ((m >>= f) s).1 × Stops X ((m >>= f) s).0
  bind_then m f s h kf = (Keeps-continue (m s).0 f h.1 kf).at (m s).1 h.0

  pub Keeps-option :
      (o : Option B) (n : Exec S E A) (f : B → Exec S E A)
      → Keeps P X n
      → ((b : B) → o ≡ some b → Keeps P X (f b))
      → Keeps P X (on_option o n f)
  Keeps-option none n f kn kf = kn
  Keeps-option (some b) n f kn kf = kf b refl

  -- And for an option that the object holds.
  pub Keeps-known :
      (n : Exec S E A) (g : S → Option B) (f : B → Exec S E A)
      → Keeps P X n
      → ((b : B) (s : S) → g s ≡ some b → P s → P (f b s).1 × Stops X (f b s).0)
      → Keeps P X (reading λ s. on_option (g s) n f)
  Keeps-known n g f kn kf = record {
    at = λ s h. on_option_at P X (g s) n f s (λ _. kn.at s h) (λ b e. kf b s e h);
  }

-- The only claim about an early stop is that the state is still good.
abbrev pub Anyhow : {E : Type 0} → Stop E → Type 0
Anyhow _ = Unit

pub Stops-Anyhow : {E A : Type 0} (o : Outcome E A) → Stops Anyhow o
Stops-Anyhow (ok a) = tt
Stops-Anyhow (stop e) = tt

-- A result of its own keeps the state.
pub Keeps-lift :
    {S E A : Type 0} {P : S → Type 0} (r : Outcome E A) → Keeps P Anyhow (lift {S = S} r)
Keeps-lift r = record { at = λ s h. (h, Stops-Anyhow r) }

abbrev pub NoPanic : {E : Type 0} → Stop E → Type 0
NoPanic e = e ≢ panicked

pub Stops-NoPanic : {E A : Type 0} (o : Outcome E A) → Stops NoPanic o → o ≢ stop panicked
Stops-NoPanic (ok a) k = λ e. cc
Stops-NoPanic (stop (raised e)) k = λ p. cc
Stops-NoPanic (stop panicked) k = λ _. k refl
Stops-NoPanic (stop out_of_fuel) k = λ p. cc

abbrev pub InFuel : {E : Type 0} → Stop E → Type 0
InFuel e = e ≢ out_of_fuel

pub raised_InFuel : {E : Type 0} (e : E) → InFuel (raised e)
raised_InFuel e = λ p. cc

pub panicked_InFuel : {E : Type 0} → InFuel {E = E} panicked
panicked_InFuel = λ p. cc

pub Stops-InFuel : {E A : Type 0} (o : Outcome E A) → Stops InFuel o → o ≢ stop out_of_fuel
Stops-InFuel (ok a) k = λ e. cc
Stops-InFuel (stop (raised e)) k = λ p. cc
Stops-InFuel (stop panicked) k = λ p. cc
Stops-InFuel (stop out_of_fuel) k = λ _. k refl

pub ruleset keeps_rules = (
  Keeps-pure, Keeps-halt, Keeps-or_raise, Keeps-if, Keeps-reading, Keeps-modify, Keeps-bind,
  Keeps-option,
)
