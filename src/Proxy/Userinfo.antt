-- ===== src/Proxy/Userinfo.antt =====
-- The percent-encoding of src/net/proxy.rs is undone by decoding.
use gosub_sonar.Prelude.{
  ℕ, ◌+◌, ◌-◌, ◌*◌, ◌/◌, ◌%◌, ◌<◌, ◌≡◌, refl, ap, inl, inr, true, false, ◌||◌, [], ◌∷◌, Text,
  if◌then◌else◌, ◌==◌, leb, arith, All, is_alphanumeric, is_digit, is_upper, Bool-cases,
}
use mathlib.Core.Path.{ap₂, ◌∙◌}
use gosub_sonar.Proxy.{hex_digit, userinfo_encoded}

-- The value of a hexadecimal digit.
abbrev pub hex_value : ℕ → ℕ
hex_value c = if leb c b'9' then c - b'0' else if leb c b'F' then c - b'A' + 10 else c - b'a' + 10

-- Percent-decoding (RFC 3986 §2.1).
unfoldable pub percent_decode : Text → Text
percent_decode (a ∷ b ∷ c ∷ s) =
    let skipped = percent_decode s in
    let rest = percent_decode (b ∷ c ∷ s) in
    if a == b'%' then (hex_value b * 16 + hex_value c) ∷ skipped else a ∷ rest
percent_decode s = s

hex_value-hex_digit : (n : ℕ) → n < 16 → hex_value (hex_digit n) ≡ n
unfolding hex_digit
hex_value-hex_digit n h = ground arith

plain_decode :
    (a : ℕ) (s : Text) → (a == b'%') ≡ false → percent_decode (a ∷ s) ≡ a ∷ percent_decode s
unfolding percent_decode
plain_decode a [] h = refl
plain_decode a (b ∷ []) h = refl
plain_decode a (b ∷ c ∷ s) h = rw h refl

no_percent :
    (b : ℕ)
    → (is_alphanumeric b || (b == b'-' || (b == b'.' || (b == b'_' || b == b'~')))) ≡ true
    → (b == b'%') ≡ false
unfolding is_alphanumeric is_digit is_upper
no_percent b h = ground arith

-- Every list of bytes, `%` among them, is decoded from its encoding in a userinfo.
pub percent_decode-userinfo_encoded :
    (s : Text) → All (λ b. b < 256) s → percent_decode (userinfo_encoded s) ≡ s
unfolding percent_decode userinfo_encoded
percent_decode-userinfo_encoded [] h = refl
percent_decode-userinfo_encoded (b ∷ s) h =
    let plain = is_alphanumeric b || (b == b'-' || (b == b'.' || (b == b'_' || b == b'~'))) in
    elim (Bool-cases plain) [
      | inl p ↦
          rw (p, userinfo_encoded)
            (plain_decode b (userinfo_encoded s) (no_percent b p)
              ∙ ap (λ r. b ∷ r) (percent_decode-userinfo_encoded s h.1))
      | inr q ↦
          rw (q, userinfo_encoded)
            (ap₂ ◌∷◌
              (rw
                (
                  hex_value-hex_digit (b / 16) (omega (arith, h.0)),
                  hex_value-hex_digit (b % 16) (omega arith),
                )
                (omega arith))
              (percent_decode-userinfo_encoded s h.1))
    ]
