-- ===== src/Crypto/Text.antt =====
-- What the wrappers of keys share: bytes of numbers, the order of byte arrays, and the text of a
-- key. `hex::encode` is a parameter.
use Prim.Native.Nat.{compare, Ordering, ◌/◌, ◌%◌}
use Prim.Native.String.{◌++◌ as push_str}
use sn_consensus.Prelude.{ℕ, zero, suc, String, [], ◌∷◌}
use sn_consensus.Prelude.Ordered.{cmp_list}
use sn_consensus.Keys.{Bytes}

-- `to_le_bytes` of a number of k bytes
unfoldable pub le_bytes : ℕ → ℕ → Bytes
le_bytes zero n = []
le_bytes (suc k) n = n % 256 ∷ le_bytes k (n / 256)

-- `cmp` of two byte arrays
unfoldable pub cmp_bytes : Bytes → Bytes → Ordering
cmp_bytes = cmp_list compare

-- `&bytes[..3]`
unfoldable pub first_three : Bytes → Bytes
first_three (a ∷ b ∷ c ∷ _) = a ∷ b ∷ c ∷ []
first_three short = short

-- `write!(f, "i:{}", hex::encode(&bytes[..3]))`
unfoldable pub key_text : (Bytes → String) → Bytes → String
key_text hex bytes = push_str "i:" (hex (first_three bytes))
