-- ===== src/Crypto/Ed25519.antt =====
-- src/ed25519.rs: wrappers of the third-party keys of `ed25519` and its signatures, whose methods
-- are parameters.
use Prim.Native.Nat.{Ordering}
use sn_consensus.Prelude.{String, Option, some, Outcome}
use sn_consensus.Keys.{Bytes}
use sn_consensus.Crypto.Text.{cmp_bytes, key_text}

-- The methods that the source calls on `ed25519::Keypair`, `PublicKey` and `Signature`.
pub record Library {ℓ} (Pair Key Sig Error : Type ℓ) : Type ℓ where
  pub public : Pair → Key
  pub sign : Pair → Bytes → Sig
  pub verify : Key → Bytes → Sig → Outcome Error (Unit {0})
  pub key_bytes : Key → Bytes
  pub sig_bytes : Sig → Bytes

pub record PublicKey {ℓ} (Key : Type ℓ) : Type ℓ where
  pub key : Key

pub record SecretKey {ℓ} (Pair : Type ℓ) : Type ℓ where
  pub pair : Pair

pub record Signature {ℓ} (Sig : Type ℓ) : Type ℓ where
  pub sig : Sig

module _ {ℓ} {Pair Key Sig Error : Type ℓ} (lib : Library Pair Key Sig Error) where
  -- `SecretKey::random`; `generated` is `Keypair::generate`.
  unfoldable pub random_secret : Pair → SecretKey Pair
  random_secret generated = record { pair = generated }

  unfoldable pub public_key : SecretKey Pair → PublicKey Key
  public_key sk = record { key = lib.public sk.pair }

  -- `PublicKey::random`
  unfoldable pub random_public : Pair → PublicKey Key
  random_public generated = public_key (random_secret generated)

  unfoldable pub sign : SecretKey Pair → Bytes → Signature Sig
  sign sk msg = record { sig = lib.sign sk.pair msg }

  unfoldable pub verify : PublicKey Key → Bytes → Signature Sig → Outcome Error (Unit {0})
  verify pk msg signature = lib.verify pk.key msg signature.sig

  unfoldable pub cmp_public : PublicKey Key → PublicKey Key → Ordering
  cmp_public a b = cmp_bytes (lib.key_bytes a.key) (lib.key_bytes b.key)

  unfoldable pub partial_cmp_public : PublicKey Key → PublicKey Key → Option Ordering
  partial_cmp_public a b = some (cmp_public a b)

  unfoldable pub cmp_signature : Signature Sig → Signature Sig → Ordering
  cmp_signature a b = cmp_bytes (lib.sig_bytes a.sig) (lib.sig_bytes b.sig)

  unfoldable pub partial_cmp_signature : Signature Sig → Signature Sig → Option Ordering
  partial_cmp_signature a b = some (cmp_signature a b)

  -- `Display` and `Debug`
  unfoldable pub display : (Bytes → String) → PublicKey Key → String
  display hex pk = key_text hex (lib.key_bytes pk.key)
