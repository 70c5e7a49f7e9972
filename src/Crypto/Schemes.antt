-- ===== src/Crypto/Schemes.antt =====
-- What the three kinds of keys of src/bad_crypto.rs, src/ed25519.rs and src/blsttc.rs promise alike,
-- so that any of them can be selected: one interface, and its three implementations.
use Prim.Native.Nat.{Ordering, ◌%◌, ◌^◌}
use Prim.Native.Nat.Ordering.{lt, eq, gt}
use text.Mathlib.TextLemmas.{append_cancel_left}
use sn_consensus.Prelude.{ℕ, ◌≡◌, refl, ◌↔◌, String, [], ◌∷◌, true, ok, Outcome, arith}
use sn_consensus.Prelude.Ordered.{IsFaithful}
use sn_consensus.Keys.{Bytes}
use sn_consensus.Crypto.Text.{le_bytes, first_three, key_text}
use sn_consensus.Crypto.BadCrypto.{Hasher}
use sn_consensus.Crypto.BadCrypto
use sn_consensus.Crypto.Ed25519
use sn_consensus.Crypto.Blsttc

pub record Scheme (PublicKey SecretKey Signature Error : Type 0) : Type 0 where
  pub public_key : SecretKey → PublicKey
  pub sign : SecretKey → Bytes → Signature
  pub verify : PublicKey → Bytes → Signature → Outcome Error (Unit {0})
  pub cmp_public : PublicKey → PublicKey → Ordering
  pub cmp_signature : Signature → Signature → Ordering

abbrev pub bad_scheme :
    {H : Type 0}
    → Hasher H
    → Scheme BadCrypto.PublicKey BadCrypto.SecretKey BadCrypto.Signature BadCrypto.Error
bad_scheme h = record {
  public_key = BadCrypto.public_key;
  sign = BadCrypto.sign h;
  verify = BadCrypto.verify h;
  cmp_public = BadCrypto.cmp_public;
  cmp_signature = BadCrypto.cmp_signature;
}

abbrev pub ed25519_scheme :
    {Pair Key Sig Error : Type 0}
    → Ed25519.Library Pair Key Sig Error
    → Scheme (Ed25519.PublicKey Key) (Ed25519.SecretKey Pair) (Ed25519.Signature Sig) Error
ed25519_scheme lib = record {
  public_key = Ed25519.public_key lib;
  sign = Ed25519.sign lib;
  verify = Ed25519.verify lib;
  cmp_public = Ed25519.cmp_public lib;
  cmp_signature = Ed25519.cmp_signature lib;
}

abbrev pub blsttc_scheme :
    {Secret Share Sig Combined : Type 0}
    → Blsttc.Library Secret Share Sig Combined
    → Scheme (Blsttc.PublicKey Share) (Blsttc.SecretKey Secret) (Blsttc.Signature Sig) Blsttc.Error
blsttc_scheme lib = record {
  public_key = Blsttc.public_key lib;
  sign = Blsttc.sign lib;
  verify = Blsttc.verify lib;
  cmp_public = Blsttc.cmp_public lib;
  cmp_signature = Blsttc.cmp_signature lib;
}

-- What a key signs, its public key verifies.
abbrev pub SignsVerifiably :
    {PublicKey SecretKey Signature Error : Type 0}
    → Scheme PublicKey SecretKey Signature Error
    → Type 0
SignsVerifiably {SecretKey} k =
    (sk : SecretKey) (msg : Bytes) → k.verify (k.public_key sk) msg (k.sign sk msg) ≡ ok tt

abbrev pub flip : Ordering → Ordering
flip lt = gt
flip eq = eq
flip gt = lt

-- A total order: `Equal` on equal values only, turned round with its arguments, and transitive.
pub record IsOrder {A : Type 0} (cmp : A → A → Ordering) : Type 0 where
  pub faithful : IsFaithful cmp
  pub flips : (x y : A) → cmp y x ≡ flip (cmp x y)
  pub chains : (x y z : A) → cmp x y ≡ lt → cmp y z ≡ lt → cmp x z ≡ lt

module _ {H : Type 0} (h : Hasher H) where
  -- A signature of src/bad_crypto.rs verifies exactly if it is the one that the secret key with the
  -- public key's own number makes: whoever has the public key can sign.
  pub bad_verify_iff :
      (pk : BadCrypto.PublicKey) (msg : Bytes) (s : BadCrypto.Signature)
      → (BadCrypto.verify h pk msg s ≡ ok tt)
        ↔ (s ≡ BadCrypto.sign h (record { number = pk.number }) msg)
  unfolding BadCrypto.verify BadCrypto.sign
  bad_verify_iff pk msg s = ground arith

module _ {H : Type 0} (h : Hasher H) {Pair Key Sig EdError : Type 0}
    (ed : Ed25519.Library Pair Key Sig EdError) {Secret Share ShareSig Combined : Type 0}
    (bls : Blsttc.Library Secret Share ShareSig Combined) where
  -- With each of the three kinds of keys, what a secret key signs verifies under its public key,
  -- where this holds of the third-party keys.
  pub signed_messages_verify :
      ((pair : Pair) (msg : Bytes) → ed.verify (ed.public pair) msg (ed.sign pair msg) ≡ ok tt)
      → ((sk : Secret) (msg : Bytes)
          → bls.verify (bls.public_key_share sk) (bls.sign sk msg) msg ≡ true)
      → SignsVerifiably (bad_scheme h)
        × SignsVerifiably (ed25519_scheme ed)
        × SignsVerifiably (blsttc_scheme bls)
  unfolding BadCrypto.sign BadCrypto.public_key Ed25519.verify Ed25519.sign Ed25519.public_key
      Blsttc.verify Blsttc.sign Blsttc.public_key
  signed_messages_verify ed_law bls_law = (
    λ sk msg. (bad_verify_iff h _ msg _).1 refl,
    λ sk msg. ed_law sk.pair msg,
    λ sk msg. rw (bls_law sk.share msg) refl,
  )

three_equal :
    {a b c d e f : ℕ}
    → (◌≡◌ {A = Bytes} (a ∷ b ∷ c ∷ []) (d ∷ e ∷ f ∷ [])) ↔ ((a ≡ d) × (b ≡ e) × (c ≡ f))
three_equal = ground arith

low_bytes_iff :
    (m n : ℕ)
    → (first_three (le_bytes 8 m) ≡ first_three (le_bytes 8 n)) ↔ (m % 2 ^ 24 ≡ n % 2 ^ 24)
unfolding first_three le_bytes
low_bytes_iff m n = (
  λ e. omega (arith, three_equal.0 e),
  λ e. three_equal.1 (omega (arith, e), omega (arith, e), omega (arith, e)),
)

-- The text of a key of src/bad_crypto.rs tells its number up to a multiple of 2 ^ 24, and no more,
-- where the hexadecimal text tells the bytes.
pub same_text_iff :
    (hex : Bytes → String)
    → ((xs ys : Bytes) → hex xs ≡ hex ys → xs ≡ ys)
    → (a b : BadCrypto.PublicKey)
    → (BadCrypto.display hex a ≡ BadCrypto.display hex b) ↔ (a.number % 2 ^ 24 ≡ b.number % 2 ^ 24)
unfolding BadCrypto.display key_text first_three le_bytes
same_text_iff hex inj a b = (
  λ e. (low_bytes_iff a.number b.number).0 (inj _ _ (append_cancel_left "i:" _ _ e)),
  λ e. rw ((low_bytes_iff a.number b.number).1 e) refl,
)
