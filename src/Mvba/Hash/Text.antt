-- ===== src/Mvba/Hash/Text.antt =====
-- How src/mvba/hash.rs prints a hash, and what its bytes and its text tell. The formats `{:02x}` of
-- the standard library are written out: two digits for a byte, the higher one first.
use Prim.Native.Nat.{◌/◌, ◌%◌}
use Prim.Native.Char.{Char, code}
use Prim.Native.String.{char_at, [] as no_text, ◌∷◌ as and_char}
use sn_consensus.Prelude.{
  ℕ, zero, suc, ◌+◌, ◌<◌, ◌≡◌, refl, ap, ◌↔◌, [], ◌∷◌, true, Bool, String, All, length, ◌==◌, ltb,
  ◌&&◌, if◌then◌else◌, arith,
}
use sn_consensus.Keys.{Bytes}
use sn_consensus.Mvba.Hash.{Hash32, hash32_size, from_bytes, to_bytes, right_length}

unfoldable pub hex_digit : ℕ → Char
hex_digit d = char_at "0123456789abcdef" d

-- `{:02x}` of a byte, in front of the rest of the text
unfoldable pub write_byte : ℕ → String → String
unfolding hex_digit
write_byte v rest = and_char (hex_digit (v / 16)) (and_char (hex_digit (v % 16)) rest)

unfoldable pub write_bytes : Bytes → String
write_bytes [] = no_text
write_bytes (v ∷ vs) = write_byte v (write_bytes vs)

abbrev first_four : Bytes → Bytes
first_four (a ∷ b ∷ c ∷ d ∷ _) = a ∷ b ∷ c ∷ d ∷ []
first_four short = short

-- `Debug`: the first four bytes
unfoldable pub debug : Hash32 → String
debug h = write_bytes (first_four h.bytes)

unfoldable pub display : Hash32 → String
display h = write_bytes h.bytes

-- A `[u8; 32]`.
abbrev pub IsHash : Hash32 → Type 0
IsHash h = (length h.bytes ≡ hash32_size) × All (λ v. v < 256) h.bytes

digit_code : ℕ → ℕ
digit_code d = if ltb d 10 then 48 + d else 87 + d

check_digits : ℕ → Bool
check_digits zero = true
check_digits (suc n) = (code (hex_digit n) == digit_code n) && check_digits n

digits_checked : check_digits 16 ≡ true
unfolding check_digits digit_code hex_digit
digits_checked = refl

check_digits_sound : (n d : ℕ) → check_digits n ≡ true → d < n → code (hex_digit d) ≡ digit_code d
unfolding check_digits
check_digits_sound zero d h lt = absurd (omega arith)
check_digits_sound (suc n) d h lt = ground (arith, check_digits_sound n d)

digit_injective : (d e : ℕ) → d < 16 → e < 16 → hex_digit d ≡ hex_digit e → d ≡ e
unfolding digit_code
digit_injective d e p q h = ground (
  arith,
  check_digits_sound 16 d digits_checked p,
  check_digits_sound 16 e digits_checked q,
  ap code h,
)

byte_injective :
    (v w : ℕ) (s t : String)
    → v < 256
    → w < 256
    → write_byte v s ≡ write_byte w t
    → (v ≡ w) × (s ≡ t)
unfolding write_byte
byte_injective v w s t p q e = ground (
  arith,
  digit_injective (v / 16) (w / 16) (omega arith) (omega arith),
  digit_injective (v % 16) (w % 16) (omega arith) (omega arith),
)

bytes_injective :
    (xs ys : Bytes)
    → All (λ v. v < 256) xs
    → All (λ v. v < 256) ys
    → write_bytes xs ≡ write_bytes ys
    → xs ≡ ys
unfolding write_bytes write_byte
bytes_injective [] [] p q e = refl
bytes_injective [] (y ∷ ys) p q e = cc
bytes_injective (x ∷ xs) [] p q e = cc
bytes_injective (x ∷ xs) (y ∷ ys) p q e =
    let (h, t) = byte_injective x y _ _ p.0 q.0 e in cc (h, bytes_injective xs ys p.1 q.1 t)

-- The text of a hash tells the hash: two hashes that `Display` writes alike are equal.
pub display_injective : (a b : Hash32) → IsHash a → IsHash b → display a ≡ display b → a ≡ b
unfolding display
display_injective a b p q e = ground (arith, bytes_injective a.bytes b.bytes p.1 q.1 e)

-- `from_bytes` accepts exactly the sequences of 32 bytes, and `to_bytes` gives back the sequence
-- that it was given.
pub from_bytes-to_bytes :
    (xs : Bytes) (h : Hash32)
    → (from_bytes xs ≡ right_length h) ↔ ((length xs ≡ hash32_size) × (to_bytes h ≡ xs))
unfolding from_bytes to_bytes
from_bytes-to_bytes xs h = ground arith
