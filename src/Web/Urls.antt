-- ===== src/Web/Urls.antt =====
-- `url::Url`, `url::Host` and `url::Origin`.
use gosub_sonar.Prelude.{
  ℕ, ◌≡◌, Bool, ◌↔◌, true, false, ◌&&◌, ◌==◌, Option, some, Text, text_eq, text_eq_iff, arith,
}

-- The variants of `url::Host`; an IPv6 address is its 128-bit value.
pub data Host : Type 0 where
  domain : Text → Host
  ipv4 : (a b c d : ℕ) → Host
  ipv6 : ℕ → Host

-- The variants of `url::Origin`; opaque origins are told apart by a number.
pub data Origin : Type 0 where
  opaque : ℕ → Origin
  tuple : (scheme : Text) (host : Host) (port : ℕ) → Origin

-- `Host::eq`.
unfoldable pub host_eq : Host → Host → Bool
host_eq (domain s) (domain t) = text_eq s t
host_eq (ipv4 a b c d) (ipv4 e f g h) = a == e && b == f && c == g && d == h
host_eq (ipv6 a) (ipv6 b) = a == b
host_eq _ _ = false

pub host_eq_iff : (a b : Host) → (host_eq a b ≡ true) ↔ (a ≡ b)
unfolding host_eq
host_eq_iff (domain s) (domain t) = ground (arith, text_eq_iff s t)
host_eq_iff (domain s) (ipv4 e f g h) = ground arith
host_eq_iff (domain s) (ipv6 b) = ground arith
host_eq_iff (ipv4 a b c d) (domain t) = ground arith
host_eq_iff (ipv4 a b c d) (ipv4 e f g h) = ground arith
host_eq_iff (ipv4 a b c d) (ipv6 e) = ground arith
host_eq_iff (ipv6 a) (domain t) = ground arith
host_eq_iff (ipv6 a) (ipv4 e f g h) = ground arith
host_eq_iff (ipv6 a) (ipv6 b) = ground arith

pub record UrlApi : Type 1 where
  pub Url : Type 0
  pub scheme : Url → Text
  pub host : Url → Option Host
  pub port : Url → Option ℕ
  pub origin : Url → Origin
  pub as_str : Url → Text
  pub path : Url → Text
  -- `set_scheme`, which fails for some pairs of schemes.
  pub set_scheme : Url → Text → Option Url
  -- `set_fragment(None)`; then `set_username("")` and `set_password(None)`; then `set_path("/")`
  -- and `set_query(None)`.
  pub clear_fragment : Url → Url
  pub clear_credentials : Url → Url
  pub clear_path : Url → Url
  pub clear_query : Url → Url
  -- `Origin::eq` and `Origin::ascii_serialization`.
  pub origin_eq : Origin → Origin → Bool
  pub ascii_serialization : Origin → Text
  pub origin_eq_iff : (a b : Origin) → (origin_eq a b ≡ true) ↔ (a ≡ b)
  pub scheme-set_scheme : (u v : Url) (s : Text) → set_scheme u s ≡ some v → scheme v ≡ s
  pub host-set_scheme : (u v : Url) (s : Text) → set_scheme u s ≡ some v → host v ≡ host u
  pub scheme-clear_fragment : (u : Url) → scheme (clear_fragment u) ≡ scheme u
  pub scheme-clear_credentials : (u : Url) → scheme (clear_credentials u) ≡ scheme u
  pub scheme-clear_path : (u : Url) → scheme (clear_path u) ≡ scheme u
  pub scheme-clear_query : (u : Url) → scheme (clear_query u) ≡ scheme u
