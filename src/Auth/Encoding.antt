-- ===== src/Auth/Encoding.antt =====
-- The credentials header of src/net/auth.rs: `base64_encode` and `Credentials::header_value`.
use gosub_sonar.Prelude.{
  ℕ, zero, suc, ◌+◌, ◌*◌, ◌/◌, ◌%◌, ◌^◌, Bool, false, ◌||◌, [], ◌∷◌, ◌++◌, Option, none, Text,
  codes, if◌then◌else◌, ◌==◌, any, ltb, in_range,
}

abbrev pub alphabet : Text
alphabet = codes "ABCDEFGHIJKLMNOPQRSTUVWXYZabcdefghijklmnopqrstuvwxyz0123456789+/"

-- An element of a list, by its index below the length.
abbrev pub nth : Text → ℕ → ℕ
nth [] i = 0
nth (c ∷ s) zero = c
nth (c ∷ s) (suc i) = nth s i

-- Three bytes as one number of 24 bits, and one of its four groups of 6 bits.
abbrev pub bits_of : ℕ → ℕ → ℕ → ℕ
bits_of a b c = a * 2 ^ 16 + b * 2 ^ 8 + c

unfoldable pub sextet : ℕ → ℕ → ℕ
sextet bits shift = nth alphabet (bits / 2 ^ shift % 64)

unfoldable pub base64_encode : Text → Text
unfolding sextet
base64_encode [] = []
base64_encode (a ∷ []) =
    let bits = bits_of a 0 0 in sextet bits 18 ∷ sextet bits 12 ∷ b'=' ∷ b'=' ∷ []
base64_encode (a ∷ b ∷ []) =
    let bits = bits_of a b 0 in sextet bits 18 ∷ sextet bits 12 ∷ sextet bits 6 ∷ b'=' ∷ []
base64_encode (a ∷ b ∷ c ∷ rest) =
    let bits = bits_of a b c in
    sextet bits 18 ∷ sextet bits 12 ∷ sextet bits 6 ∷ sextet bits 0 ∷ base64_encode rest

pub data Credentials : Type 0 where
  basic : (username password : Text) → Credentials
  raw : (value : Text) → Credentials

-- A `char::is_control` in UTF-8: U+0000 to U+001F, U+007F, and U+0080 to U+009F in two bytes.
unfoldable pub has_control : Text → Bool
has_control [] = false
has_control (a ∷ []) = ltb a 32 || a == 127
has_control (a ∷ b ∷ s) =
    let rest = has_control (b ∷ s) in
    ltb a 32 || a == 127 || (if a == 0xc2 then in_range 0x80 0x9f b else false) || rest

-- `from_str` is `HeaderValue::from_str`, by the value's bytes; every value is marked sensitive.
unfoldable pub header_value : (from_str : Text → Option Text) → Credentials → Option Text
unfolding base64_encode has_control
header_value from_str (basic username password) =
    if any (λ c. c == b':') username || (has_control username || has_control password)
    then none
    else from_str (codes "Basic " ++ base64_encode (username ++ b':' ∷ password))
header_value from_str (raw value) = from_str value
