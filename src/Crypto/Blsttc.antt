-- ===== src/Crypto/Blsttc.antt =====
-- src/blsttc.rs: wrappers of the third-party key shares of `blsttc`, whose methods are parameters.
use Prim.Native.Nat.{Ordering}
use sn_consensus.Prelude.{
  String, Bool, Option, some, ok, stop, raised, on_option, if◌then◌else◌, Outcome,
}
use sn_consensus.Keys.{Bytes}
use sn_consensus.Crypto.Text.{cmp_bytes, key_text}

-- The methods that the source calls on `SecretKeyShare`, `PublicKeyShare` and `SignatureShare`, and
-- `blsttc::PublicKey::from_bytes`, where `none` is its error.
pub record Library {ℓ} (Secret Share Sig Combined : Type ℓ) : Type ℓ where
  pub public_key_share : Secret → Share
  pub sign : Secret → Bytes → Sig
  pub verify : Share → Sig → Bytes → Bool
  pub key_bytes : Share → Bytes
  pub sig_bytes : Sig → Bytes
  pub key_from_bytes : Bytes → Option Combined

pub data Error : Type 0 where
  invalid_signature blsttc : Error

pub record PublicKey {ℓ} (Share : Type ℓ) : Type ℓ where
  pub share : Share

pub record SecretKey {ℓ} (Secret : Type ℓ) : Type ℓ where
  pub share : Secret

pub record Signature {ℓ} (Sig : Type ℓ) : Type ℓ where
  pub share : Sig

module _ {ℓ} {Secret Share Sig Combined : Type ℓ} (lib : Library Secret Share Sig Combined) where
  -- `SecretKey::from`
  unfoldable pub from_share : Secret → SecretKey Secret
  from_share secret_key_share = record { share = secret_key_share }

  -- `SecretKey::random`; `generated` is `rng.gen()`.
  unfoldable pub random_secret : Secret → SecretKey Secret
  random_secret generated = record { share = generated }

  -- `SecretKey::public_key`
  unfoldable pub public_key : SecretKey Secret → PublicKey Share
  public_key sk = record { share = lib.public_key_share sk.share }

  -- `PublicKey::random`
  unfoldable pub random_public : Secret → PublicKey Share
  random_public generated = public_key (random_secret generated)

  unfoldable pub sign : SecretKey Secret → Bytes → Signature Sig
  sign sk msg = record { share = lib.sign sk.share msg }

  unfoldable pub verify : PublicKey Share → Bytes → Signature Sig → Outcome Error (Unit {0})
  verify pk msg signature =
      if lib.verify pk.share signature.share msg then ok tt else stop (raised invalid_signature)

  -- `PublicKey::public_key`
  unfoldable pub to_combined : PublicKey Share → Outcome Error Combined
  to_combined pk = on_option (lib.key_from_bytes (lib.key_bytes pk.share)) (stop (raised blsttc)) ok

  unfoldable pub cmp_public : PublicKey Share → PublicKey Share → Ordering
  cmp_public a b = cmp_bytes (lib.key_bytes a.share) (lib.key_bytes b.share)

  unfoldable pub partial_cmp_public : PublicKey Share → PublicKey Share → Option Ordering
  partial_cmp_public a b = some (cmp_public a b)

  unfoldable pub cmp_signature : Signature Sig → Signature Sig → Ordering
  cmp_signature a b = cmp_bytes (lib.sig_bytes a.share) (lib.sig_bytes b.share)

  unfoldable pub partial_cmp_signature : Signature Sig → Signature Sig → Option Ordering
  partial_cmp_signature a b = some (cmp_signature a b)

  -- `Display`
  unfoldable pub display : (Bytes → String) → PublicKey Share → String
  display hex pk = key_text hex (lib.key_bytes pk.share)
