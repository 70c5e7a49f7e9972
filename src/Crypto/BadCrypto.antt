-- ===== src/Crypto/BadCrypto.antt =====
-- src/bad_crypto.rs: keys for tests. The hasher of the standard library is a parameter, and so is
-- what a random source generates.
use Prim.Native.Nat.{compare, Ordering}
use sn_consensus.Prelude.{ℕ, String, ok, stop, raised, ◌==◌, if◌then◌else◌, Outcome}
use sn_consensus.Keys.{Bytes}
use sn_consensus.Crypto.Text.{le_bytes, key_text}

-- `DefaultHasher`, and how a `u64` and a slice of bytes feed it.
pub record Hasher {ℓ} (H : Type ℓ) : Type ℓ where
  pub new : H
  pub hash_number : ℕ → H → H
  pub hash_bytes : Bytes → H → H
  pub finish : H → ℕ

pub data Error : Type 0 where
  failed_verification : Error

-- A `u64` each.
pub record PublicKey : Type 0 where
  pub number : ℕ

pub record SecretKey : Type 0 where
  pub number : ℕ

pub record Signature : Type 0 where
  pub number : ℕ

-- `SecretKey::random`; `generated` is `rng.gen()`.
unfoldable pub random_secret : ℕ → SecretKey
random_secret generated = record { number = generated }

unfoldable pub public_key : SecretKey → PublicKey
public_key sk = record { number = sk.number }

-- `PublicKey::random`
unfoldable pub random_public : ℕ → PublicKey
random_public generated = public_key (random_secret generated)

module _ {ℓ} {H : Type ℓ} (h : Hasher H) where
  unfoldable pub sign : SecretKey → Bytes → Signature
  sign sk msg = record { number = h.finish (h.hash_bytes msg (h.hash_number sk.number h.new)) }

  unfoldable pub verify : PublicKey → Bytes → Signature → Outcome Error (Unit {0})
  verify pk msg signature =
      if h.finish (h.hash_bytes msg (h.hash_number pk.number h.new)) == signature.number
      then ok tt
      else stop (raised failed_verification)

-- The derived comparisons.
unfoldable pub cmp_public : PublicKey → PublicKey → Ordering
cmp_public a b = compare a.number b.number

unfoldable pub cmp_signature : Signature → Signature → Ordering
cmp_signature a b = compare a.number b.number

-- `Display` and `Debug`
unfoldable pub display : (Bytes → String) → PublicKey → String
display hex pk = key_text hex (le_bytes 8 pk.number)
