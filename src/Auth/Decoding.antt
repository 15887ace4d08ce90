-- ===== src/Auth/Decoding.antt =====
-- What src/net/auth.rs encodes for `Basic` credentials is read back: the base64 by a decoder, and
-- the two parts by the first colon (RFC 7617).
use gosub_sonar.Prelude.{
  ℕ, zero, suc, ◌+◌, ◌*◌, ◌/◌, ◌%◌, ◌^◌, ◌<◌, ◌≡◌, refl, ap, ◌∙◌, Bool, true, false, not, ◌&&◌, [],
  ◌∷◌, ◌++◌, Option, some, Text, codes, if◌then◌else◌, ◌==◌, any, arith, length, All, split_once,
  Bool-cases, inl, inr, ==_iff, All-append,
}
use mathlib.Core.Path.{ap₂}
use gosub_sonar.Auth.Encoding.{alphabet, nth, bits_of, sextet, base64_encode, basic, header_value}

-- The index of a character.
abbrev pub position : ℕ → Text → ℕ
position c [] = 0
position c (d ∷ s) = if d == c then 0 else suc (position c s)

unfoldable pub value_of : ℕ → ℕ
value_of c = position c alphabet

abbrev pub join : ℕ → ℕ → ℕ → ℕ → ℕ
join i j k l = i * 2 ^ 18 + j * 2 ^ 12 + k * 2 ^ 6 + l

-- The decoding of RFC 4648 §4, of text in groups of four.
unfoldable pub decode : Text → Text
unfolding value_of
decode (a ∷ b ∷ c ∷ d ∷ rest) =
    let tail = decode rest in
    if c == b'='
    then join (value_of a) (value_of b) 0 0 / 2 ^ 16 ∷ []
    else if d == b'='
    then (let bits = join (value_of a) (value_of b) (value_of c) 0 in
        bits / 2 ^ 16 ∷ bits / 2 ^ 8 % 256 ∷ [])
    else (let bits = join (value_of a) (value_of b) (value_of c) (value_of d) in
        bits / 2 ^ 16 ∷ bits / 2 ^ 8 % 256 ∷ bits % 256 ∷ tail)
decode s = []

is_member : ℕ → Text → Bool
is_member c = any (λ d. d == c)

is_distinct : Text → Bool
unfolding is_member
is_distinct [] = true
is_distinct (c ∷ s) = not (is_member c s) && is_distinct s

nth-member : (s : Text) (i : ℕ) → i < length s → is_member (nth s i) s ≡ true
unfolding is_member
nth-member [] i h = absurd (omega (arith, h))
nth-member (c ∷ s) zero h = ground arith
nth-member (c ∷ s) (suc i) h = ground (arith, nth-member s i (omega (arith, h)))

position-nth : (s : Text) (i : ℕ) → is_distinct s ≡ true → i < length s → position (nth s i) s ≡ i
unfolding is_distinct is_member
position-nth [] i d h = absurd (omega (arith, h))
position-nth (c ∷ s) zero d h = ground arith
position-nth (c ∷ s) (suc i) d h =
    ground (arith, position-nth s i, nth-member s i (omega (arith, h)))

value_of-sextet : (bits shift : ℕ) → value_of (sextet bits shift) ≡ bits / 2 ^ shift % 64
unfolding is_distinct is_member value_of sextet
value_of-sextet bits shift = position-nth alphabet (bits / 2 ^ shift % 64) refl (omega arith)

not_padding : (bits shift : ℕ) → (sextet bits shift == b'=') ≡ false
unfolding is_member sextet
not_padding bits shift = elim (Bool-cases (sextet bits shift == b'=')) [
  | inr other ↦ other
  | inl same ↦ absurd (
      cc (
        nth-member alphabet (bits / 2 ^ shift % 64) (omega arith),
        ap (λ c. is_member c alphabet) ((==_iff (sextet bits shift) b'=').0 same),
      ))
]

sextets_join :
    (bits : ℕ)
    → bits < 2 ^ 24
    → join (bits / 2 ^ 18 % 64) (bits / 2 ^ 12 % 64) (bits / 2 ^ 6 % 64) (bits / 2 ^ 0 % 64) ≡ bits
sextets_join bits h = omega arith

-- Every list of bytes is decoded from its base64 text.
pub base64_encode-decode :
    (bytes : Text) → All (λ b. b < 256) bytes → decode (base64_encode bytes) ≡ bytes
unfolding base64_encode decode
base64_encode-decode [] h = refl
base64_encode-decode (a ∷ []) h =
    rw (value_of-sextet (bits_of a 0 0) 18, value_of-sextet (bits_of a 0 0) 12)
      (ap (λ x. x ∷ []) (omega (arith, h.0)))
base64_encode-decode (a ∷ b ∷ []) h =
    rw
      (
        not_padding (bits_of a b 0) 6,
        value_of-sextet (bits_of a b 0) 18,
        value_of-sextet (bits_of a b 0) 12,
        value_of-sextet (bits_of a b 0) 6,
      )
      (ap₂ (λ x y. x ∷ y ∷ []) (omega (arith, h.0, h.1.0)) (omega (arith, h.0, h.1.0)))
base64_encode-decode (a ∷ b ∷ c ∷ rest) h =
    rw
      (
        not_padding (bits_of a b c) 6,
        not_padding (bits_of a b c) 0,
        value_of-sextet (bits_of a b c) 18,
        value_of-sextet (bits_of a b c) 12,
        value_of-sextet (bits_of a b c) 6,
        value_of-sextet (bits_of a b c) 0,
        base64_encode-decode rest h.1.1.1,
        sextets_join (bits_of a b c) (omega (arith, h.0, h.1.0, h.1.1.0)),
      )
      (ap₂ (λ x y. x ∷ y) (omega (arith, h.0, h.1.0, h.1.1.0))
        (ap₂ (λ x y. x ∷ y ∷ rest) (omega (arith, h.0, h.1.0, h.1.1.0))
          (omega (arith, h.0, h.1.0, h.1.1.0))))

pub split_once_first :
    (sep : ℕ) (s t : Text)
    → any (λ c. c == sep) s ≡ false
    → split_once sep (s ++ sep ∷ t) ≡ (s, some t)
unfolding split_once
split_once_first sep [] t h = ground arith
split_once_first sep (c ∷ s) t h = ground (arith, split_once_first sep s t)

-- A header value made of a user name and a password, each of bytes, is `Basic` and a text that
-- decodes to the two, told apart by the first colon, whatever characters are in them.
pub header_value-decode :
    (from_str : Text → Option Text)
    → ((s t : Text) → from_str s ≡ some t → t ≡ s)
    → (username password value : Text) → All (λ b. b < 256) username
    → All (λ b. b < 256) password
    → header_value from_str (basic username password) ≡ some value
    → (text : Text) × (value ≡ codes "Basic " ++ text)
      × (split_once b':' (decode text) ≡ (username, some password))
unfolding header_value
header_value-decode from_str same username password value hu hp e =
    elim (Bool-cases (any (λ c. c == b':') username)) [
      | inl colon ↦ absurd (ground (arith, e, colon))
      | inr none_in ↦ (
        base64_encode (username ++ b':' ∷ password),
        same (codes "Basic " ++ base64_encode (username ++ b':' ∷ password)) value
            (ground (arith, e)),
        ap (split_once b':') (
              base64_encode-decode (username ++ b':' ∷ password)
                (All-append (λ b. b < 256) username (b':' ∷ password) hu (omega arith, hp)))
            ∙ split_once_first b':' username password none_in,
      )
    ]
