-- ===== src/Prelude/Fuel.antt =====
-- Methods that do not run out of fuel, where the last step may leave what the others keep.
use mathlib.Core.Bool.{Bool, true, false}
use mathlib.Core.Option.{Option, none, some}
use sn_consensus.Prelude.Tests.{if◌then◌else◌}
use sn_consensus.Prelude.Methods.{
  Exec, Outcome, ok, stop, Stops, InFuel, Keeps, reading, modify, on_option, continue, ◌>>=◌,
}

-- From a state in `P` the method does not run out of fuel, wherever it ends.
pub record Ends {S : Type 0} {E : Type 0} {A : Type 0} (P : S → Type 0) (m : Exec S E A)
    : Type 0 where
  pub at : (s : S) → P s → Stops InFuel (m s).0

module _ {S E A : Type 0} {P : S → Type 0} where
  pub Ends-Keeps : (m : Exec S E A) → Keeps P InFuel m → Ends P m
  Ends-Keeps m k = record { at = λ s h. (k.at s h).1 }

  pub Ends-if : (b : Bool) (m n : Exec S E A) → Ends P m → Ends P n → Ends P (if b then m else n)
  Ends-if true m n km kn = km
  Ends-if false m n km kn = kn

  pub Ends-reading : (f : S → Exec S E A) → ((v : S) → Ends P (f v)) → Ends P (reading f)
  Ends-reading f k = record { at = λ s h. (k s).at s h }

module _ {S E : Type 0} {P : S → Type 0} where
  pub Ends-modify : (f : S → S) → Ends P (modify {E = E} f)
  Ends-modify f = record { at = λ s h. tt }

module _ {S E A B : Type 0} {P : S → Type 0} where
  pub Ends-option :
      (o : Option B) (n : Exec S E A) (f : B → Exec S E A)
      → Ends P n
      → ((b : B) → Ends P (f b))
      → Ends P (on_option o n f)
  Ends-option none n f kn kf = kn
  Ends-option (some b) n f kn kf = kf b

  Ends-continue :
      (r : Outcome E B) (f : B → Exec S E A)
      → Stops InFuel r
      → ((b : B) → Ends P (f b))
      → Ends P (continue r f)
  Ends-continue (ok b) f k kf = kf b
  Ends-continue (stop x) f k kf = record { at = λ s h. k }

  -- Only the last step may leave `P`.
  pub Ends-bind :
      (m : Exec S E B) (f : B → Exec S E A)
      → Keeps P InFuel m
      → ((b : B) → Ends P (f b))
      → Ends P (m >>= f)
  Ends-bind m f km kf = record {
    at = λ s h. (Ends-continue (m s).0 f (km.at s h).1 kf).at (m s).1 (km.at s h).0;
  }

pub ruleset ends_rules = (Ends-if, Ends-reading, Ends-option, Ends-bind, Ends-modify)
