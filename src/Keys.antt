-- ===== src/Keys.antt =====
-- The third-party code that src/mvba calls: the threshold keys of `blsttc`, `bincode`, and the
-- hash of `tiny_keccak`. None of it is defined here. A key is a record of the methods that the
-- source calls on it; the types of signatures and of signature shares are parameters throughout.
use sn_consensus.Prelude.{ℕ, List, Option, Bool, Map}

-- Vec<u8>
abbrev pub Bytes : Type 0
Bytes = List ℕ

-- blsttc::PublicKeySet. `verify_share i s b` is `public_key_share(i).verify(s, b)`, `verify s b`
-- is `public_key().verify(s, b)`; `none` of `combine_signatures` is its error.
pub record PublicKeySet (Sig : Type 0) (Share : Type 0) : Type 0 where
  pub threshold : ℕ
  pub verify_share : ℕ → Share → Bytes → Bool
  pub verify : Sig → Bytes → Bool
  pub combine_signatures : Map Share → Option Sig

-- blsttc::SecretKeyShare.
pub record SecretKeyShare (Share : Type 0) : Type 0 where
  pub sign : Bytes → Share

-- bincode at one type; `none` is its error.
pub record Format (A : Type 0) : Type 0 where
  pub serialize : A → Option Bytes
  pub deserialize : Bytes → Option A

-- The derived `PartialEq` of the two types of signatures.
pub record SigEq (Sig : Type 0) (Share : Type 0) : Type 0 where
  pub sig_eq : Discrete Sig
  pub share_eq : Discrete Share
