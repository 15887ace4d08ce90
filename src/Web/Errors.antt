-- ===== src/Web/Errors.antt =====
-- `NetError` of src/net/types.rs with the types it holds, from src/net/transport.rs and
-- src/net/tls.rs. An error of another crate (`anyhow::Error`, `io::Error`) is its message.
use gosub_sonar.Prelude.{ℕ, List, Option, Text}
use gosub_sonar.Cors.Kinds.{CorsError}

pub data TransportErrorKind : Type 0 where
  connect timeout redirect body decode request builder other : TransportErrorKind

pub record TransportError : Type 0 where
  pub kind : TransportErrorKind
  pub message : Text

pub data TlsErrorKind : Type 0 where
  expired not_yet_valid unknown_issuer hostname_mismatch revoked : TlsErrorKind
  invalid_certificate handshake other : TlsErrorKind

-- A fingerprint is its 32 bytes.
pub record TlsError : Type 0 where
  pub kind : TlsErrorKind
  pub host : Text
  pub message : Text
  pub certificate : Option (List ℕ)
  pub fingerprint : Option (List ℕ)

pub data BlockReason : Type 0 where
  mixed_content url_policy unsupported_scheme : BlockReason
  cors : CorsError → BlockReason
  not_cached bad_port forbidden_method : BlockReason

pub data NetError (Url : Type 0) : Type 0 where
  blocked : (reason : BlockReason) (url : Url) → NetError Url
  proxy_auth_required : (proxy url : Url) → NetError Url
  transport : TransportError → NetError Url
  tls : TlsError → NetError Url
  redirect io cancelled read other timeout : Text → NetError Url
