-- ===== src/Mvba/Hash.antt =====
-- src/mvba/hash.rs. The SHA3-256 of `tiny_keccak` is a parameter.
pub mod Text
use sn_consensus.Prelude.{ℕ, length, ◌==◌, if◌then◌else◌, ℕ_discrete}
use sn_consensus.Keys.{Bytes}

abbrev pub hash32_size : ℕ
hash32_size = 32

-- [u8; 32]
pub record Hash32 : Type 0 where
  pub bytes : Bytes

pub data LengthOr (A : Type 0) : Type 0 where
  right_length : A → LengthOr A
  invalid_length : ℕ → ℕ → LengthOr A

unfoldable pub calculate : (Bytes → Bytes) → Bytes → Hash32
calculate sha3 xs = record { bytes = sha3 xs }

unfoldable pub from_bytes : Bytes → LengthOr Hash32
from_bytes xs =
    if length xs == hash32_size
    then right_length (record { bytes = xs })
    else invalid_length hash32_size (length xs)

-- `as_fixed_bytes`, and the conversion from an array.
unfoldable pub as_fixed_bytes : Hash32 → Bytes
as_fixed_bytes h = h.bytes

unfoldable pub from_array : Bytes → Hash32
from_array val = record { bytes = val }

unfoldable pub to_bytes : Hash32 → Bytes
to_bytes h = h.bytes

unfoldable pub Hash32-discrete : Discrete Hash32
Hash32-discrete = hlevel ℕ_discrete
