-- ===== src/Examples/Hashes.antt =====
-- The text of hashes of src/mvba/hash.rs.
use sn_consensus.Prelude.{ℕ, ◌+◌, ◌≡◌, refl, [], ◌∷◌, arith}
use sn_consensus.Mvba.Hash.{Hash32}
use sn_consensus.Mvba.Hash.Text.{IsHash, display_injective}

-- A hash that ends in a given byte.
abbrev hash_ending : ℕ → Hash32
hash_ending n = record {
  bytes =
      1 ∷ 2 ∷ 3 ∷ 4 ∷ 5 ∷ 6 ∷ 7 ∷ 8 ∷ 9 ∷ 10 ∷ 11 ∷ 12 ∷ 13 ∷ 14 ∷ 15 ∷ 16 ∷ 17 ∷ 18 ∷ 19 ∷ 20 ∷ 21
      ∷ 22 ∷ 23 ∷ 24 ∷ 25 ∷ 26 ∷ 27 ∷ 28 ∷ 29 ∷ 30 ∷ 31 ∷ n ∷ [];
}

ends_in-IsHash : IsHash (hash_ending 255)
ends_in-IsHash = ground arith

display_injective_example : hash_ending 255 ≡ hash_ending (254 + 1)
display_injective_example =
    display_injective (hash_ending 255) (hash_ending (254 + 1)) ends_in-IsHash ends_in-IsHash refl
