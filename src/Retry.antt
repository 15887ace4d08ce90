-- ===== src/Retry.antt =====
-- src/net/retry.rs: the retry policy, `Retry-After`, the view that an attempt has of the request's
-- observer, and the loop of attempts. A duration is its nanoseconds.
pub mod Backoff
pub mod Ends
pub mod Loop
use gosub_sonar.Prelude.{
  ℕ, zero, suc, ◌+◌, ◌-◌, ◌*◌, ◌/◌, ◌^◌, min, Bool, true, false, not, ◌&&◌, List, [], ◌∷◌, ◌++◌,
  Option, none, some, Text, codes, if◌then◌else◌, ◌==◌, leb, any, trim, is_number,
  parse_u64_saturating, unwrap_or, ◌>>=◌,
}
use mathlib.Core.Option
use gosub_sonar.Web.Headers.{HeaderApi, get}
use gosub_sonar.Web.Errors.{NetError, transport, io, timeout, TransportErrorKind}
use gosub_sonar.Web.Events.{NetEvent, is_terminal}
use gosub_sonar.Cache.Dates.{Chrono, seconds, parse_http_date}

-- The longest `std::time::Duration`.
abbrev pub duration_max : ℕ
duration_max = seconds (2 ^ 64 - 1) + 999999999

abbrev pub checked_mul : ℕ → ℕ → Option ℕ
checked_mul d k = if leb (d * k) duration_max then some (d * k) else none

pub record RetryPolicy : Type 0 where
  pub max_retries : ℕ
  pub initial_backoff : ℕ
  pub max_backoff : ℕ
  pub statuses : List ℕ
  pub on_timeout : Bool

abbrev pub default : RetryPolicy
default = record {
  max_retries = 2;
  initial_backoff = 250 * 10 ^ 6;
  max_backoff = seconds 5;
  statuses = 502 ∷ 503 ∷ 504 ∷ [];
  on_timeout = false;
}

unfoldable pub retries_kind : RetryPolicy → TransportErrorKind → Bool
retries_kind policy TransportErrorKind.connect = true
retries_kind policy TransportErrorKind.body = true
retries_kind policy TransportErrorKind.timeout = policy.on_timeout
retries_kind policy _ = false

unfoldable pub retries_error : {Url : Type 0} → RetryPolicy → NetError Url → Bool
unfolding retries_kind
retries_error policy (transport t) = retries_kind policy t.kind
retries_error policy (io message) = true
retries_error policy (timeout message) = policy.on_timeout
retries_error policy _ = false

unfoldable pub retries_status : RetryPolicy → ℕ → Bool
retries_status policy status = any (λ s. s == status) policy.statuses

-- `random` is `half.mul_f64(random_unit())`.
unfoldable pub backoff : (random : ℕ → ℕ) → RetryPolicy → (retry : ℕ) → Option ℕ → Option ℕ
backoff random policy retry (some asked) = if leb asked policy.max_backoff then some asked else none
backoff random policy retry none =
    let exp = min (retry - 1) 31 in
    let base =
      min (unwrap_or (checked_mul policy.initial_backoff (2 ^ exp)) policy.max_backoff)
        policy.max_backoff in
    let half = base / 2 in some (half + random half)

-- `now` is `Utc::now()`, and `parse_from_rfc2822` chrono's, into an instant.
unfoldable pub retry_after :
    (H : HeaderApi) (C : Chrono) (parse_from_rfc2822 : Text → Option ℕ) (now : ℕ)
    → H.HeaderMap
    → Option ℕ
retry_after H C parse_from_rfc2822 now headers = get H headers (codes "retry-after") >>= λ raw.
    H.to_str raw >>= λ text.
    let value = trim text in
    if is_number value
    then some (seconds (parse_u64_saturating value))
    else Option.map (λ at. at - now)
        (elim (parse_http_date C value) [ some at ↦ some at | none ↦ parse_from_rfc2822 value ])

module _ (Url HeaderMap : Type 0) where
  -- What the attempt's view holds, and what has gone through it to the request's observer.
  pub record AttemptView : Type 0 where
    pub held : Option (NetEvent Url HeaderMap)
    pub last : Bool
    pub inner : List (NetEvent Url HeaderMap)

  abbrev pub new_view : List (NetEvent Url HeaderMap) → AttemptView
  new_view inner = record { held = none; last = false; inner = inner }

  unfoldable pub on_event : AttemptView → NetEvent Url HeaderMap → AttemptView
  on_event v ev =
      if is_terminal ev && not v.last
      then record v { held = some ev }
      else record v { inner = v.inner ++ ev ∷ [] }

  unfoldable pub release : AttemptView → AttemptView
  release v = record {
    held = none;
    last = true;
    inner = elim v.held [ none ↦ v.inner | some ev ↦ v.inner ++ ev ∷ [] ];
  }

  unfoldable pub on_events : AttemptView → List (NetEvent Url HeaderMap) → AttemptView
  unfolding on_event
  on_events v [] = v
  on_events v (ev ∷ evs) = on_events (on_event v ev) evs

  pub data Outcome (T : Type 0) : Type 0 where
    ok : T → Outcome T
    err : NetError Url → Outcome T
