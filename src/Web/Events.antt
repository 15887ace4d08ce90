-- ===== src/Web/Events.antt =====
-- `NetEvent` of src/net/events.rs with the types it holds. A duration is its nanoseconds; an error
-- of another crate is its message, unless it carries a `NetError`.
use gosub_sonar.Prelude.{ℕ, Bool, true, false, List, Option, Text}
use gosub_sonar.Auth.{AuthTarget, AuthChallenge}
use gosub_sonar.Referrer.{ReferrerPolicy}
use gosub_sonar.Web.Errors.{NetError, TlsError, BlockReason}

pub data UpgradeReason : Type 0 where
  hsts mixed_content : UpgradeReason

pub data RequestChange (Url : Type 0) : Type 0 where
  url_credentials_removed origin_tainted credentials_withheld : RequestChange Url
  referrer_reduced : (from : Url) (to : Option Url) (policy : ReferrerPolicy) → RequestChange Url
  origin_hidden : (policy : ReferrerPolicy) → RequestChange Url
  sensitive_headers_stripped : (headers : List Text) → RequestChange Url
  headers_removed : (headers : List Text) → RequestChange Url
  method_downgraded : (from to : Text) → RequestChange Url

pub data CacheOutcome : Type 0 where
  hit stale validated stored invalidated : CacheOutcome

-- The error of a `Failed` event, an `anyhow::Error`.
pub data AnyError (Url : Type 0) : Type 0 where
  net_error : NetError Url → AnyError Url
  other_error : (message : Text) → AnyError Url

pub data NetEvent (Url HeaderMap : Type 0) : Type 0 where
  io : (message : Text) → NetEvent Url HeaderMap
  warning : (url : Url) (message : Text) → NetEvent Url HeaderMap
  dns_resolved : (host : Text) (elapsed addr_count : ℕ) → NetEvent Url HeaderMap
  connected : (elapsed : ℕ) → NetEvent Url HeaderMap
  request_sent : (url : Url) (method : Text) (headers : HeaderMap) → NetEvent Url HeaderMap
  body_preview : (url : Url) (body : List ℕ) (truncated : Bool) → NetEvent Url HeaderMap
  accepted : (url : Url) (joined : Bool) → NetEvent Url HeaderMap
  started : (url : Url) → NetEvent Url HeaderMap
  redirected : (from to : Url) (status : ℕ) → NetEvent Url HeaderMap
  response_headers : (url : Url) (status : ℕ) (headers : HeaderMap) → NetEvent Url HeaderMap
  progress :
      (received_bytes : ℕ) (expected_length : Option ℕ) (elapsed : ℕ) → NetEvent Url HeaderMap
  finished : (received_bytes elapsed : ℕ) (url : Url) → NetEvent Url HeaderMap
  failed : (url : Url) (error : AnyError Url) → NetEvent Url HeaderMap
  retrying : (url : Url) (attempt delay : ℕ) (reason : Text) → NetEvent Url HeaderMap
  tls_failed : (url : Url) (error : TlsError) → NetEvent Url HeaderMap
  blocked : (url : Url) (reason : BlockReason) → NetEvent Url HeaderMap
  security_upgraded : (from to : Url) (reason : UpgradeReason) → NetEvent Url HeaderMap
  request_modified : (url : Url) (change : RequestChange Url) → NetEvent Url HeaderMap
  cors_preflight : (url : Url) → NetEvent Url HeaderMap
  cors_preflight_done : (url : Url) (elapsed : ℕ) → NetEvent Url HeaderMap
  auth_required :
      (url : Url) (target : AuthTarget) (challenges : List (AuthChallenge Url)) (retried : Bool)
      → NetEvent Url HeaderMap
  cache : (url : Url) (outcome : CacheOutcome) → NetEvent Url HeaderMap
  cancelled : (url : Url) (reason : Text) → NetEvent Url HeaderMap

unfoldable pub is_terminal : {Url HeaderMap : Type 0} → NetEvent Url HeaderMap → Bool
is_terminal (finished received_bytes elapsed url) = true
is_terminal (failed url error) = true
is_terminal (cancelled url reason) = true
is_terminal _ = false
