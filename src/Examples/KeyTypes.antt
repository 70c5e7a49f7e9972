-- ===== src/Examples/KeyTypes.antt =====
-- The kinds of keys, on small stand-ins for the third-party ones: a key is a number, and it signs by
-- putting that number in front.
use Prim.Native.Nat.{◌*◌}
use sn_consensus.Prelude.{ℕ, ◌+◌, ◌≡◌, refl, [], ◌∷◌, none, ◌==◌, if◌then◌else◌, ok, stop, raised}
use sn_consensus.Keys.{Bytes}
use sn_consensus.Crypto.Text.{le_bytes, first_three}
use sn_consensus.Crypto.BadCrypto.{Hasher}
use sn_consensus.Crypto.BadCrypto
use sn_consensus.Crypto.Ed25519
use sn_consensus.Crypto.Blsttc

abbrev total : Bytes → ℕ
total [] = 0
total (b ∷ bs) = b + 2 * total bs

abbrev adder : Hasher ℕ
adder = record {
  new = 0;
  hash_number = λ n h. n + 3 * h;
  hash_bytes = λ bs h. total bs + 5 * h;
  finish = λ h. h;
}

abbrev toy_ed25519 : Ed25519.Library ℕ ℕ ℕ Unit
toy_ed25519 = record {
  public = λ k. k;
  sign = λ k msg. k + total msg;
  verify = λ k msg sig. if sig == k + total msg then ok tt else stop (raised tt);
  key_bytes = λ k. k ∷ [];
  sig_bytes = λ s. s ∷ [];
}

abbrev toy_blsttc : Blsttc.Library ℕ ℕ ℕ ℕ
toy_blsttc = record {
  public_key_share = λ k. k;
  sign = λ k msg. k + total msg;
  verify = λ k sig msg. sig == k + total msg;
  key_bytes = λ k. k ∷ [];
  sig_bytes = λ s. s ∷ [];
  key_from_bytes = λ _. none;
}

-- Whoever knows the number of a public key signs for it.
forged_accepted :
    BadCrypto.verify adder
      (record { number = 9 })
      (1 ∷ [])
      (BadCrypto.sign adder (record { number = 9 }) (1 ∷ []))
    ≡ ok tt
unfolding BadCrypto.verify BadCrypto.sign
forged_accepted = refl

first_bytes : first_three (le_bytes 8 0x0102_0304) ≡ 4 ∷ 3 ∷ 2 ∷ []
unfolding first_three le_bytes
first_bytes = refl
