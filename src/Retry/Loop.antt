-- ===== src/Retry/Loop.antt =====
-- `with_retries` of src/net/retry.rs: attempts until one is final, the policy gives up, or the wait
-- for the next is cancelled.
use gosub_sonar.Prelude.{
  ℕ, zero, suc, Bool, List, [], ◌∷◌, ◌++◌, Option, none, some, Text, codes, if◌then◌else◌, leb,
}
use gosub_sonar.Web.Headers.{HeaderApi}
use gosub_sonar.Web.Errors.{cancelled}
use gosub_sonar.Web.Events
use gosub_sonar.Web.Events.{NetEvent, retrying}
use gosub_sonar.Cache.Dates.{Chrono}
use gosub_sonar.Retry.{
  RetryPolicy, Outcome, ok, err, AttemptView, new_view, on_events, release, retries_status,
  retries_error, retry_after, backoff,
}

-- What the loop calls: the attempts, numbered from 0, with the events that each reports, whether
-- the wait after one is cancelled, and, for its time, the clock and the jitter. `describe` is the
-- reason that a `Retrying` event shows.
pub record Attempts (H : HeaderApi) (Url T : Type 0) : Type 0 where
  pub attempt : ℕ → List (NetEvent Url H.HeaderMap) × Outcome Url H.HeaderMap T
  pub meta : T → ℕ × H.HeaderMap
  pub wait_cancelled : ℕ → Bool
  pub now : ℕ → ℕ
  pub random : ℕ → ℕ → ℕ
  pub parse_from_rfc2822 : Text → Option ℕ
  pub describe : Outcome Url H.HeaderMap T → Text
  pub is_idempotent : Text → Bool

pub record Run (H : HeaderApi) (Url T : Type 0) : Type 0 where
  pub result : Outcome Url H.HeaderMap T
  pub events : List (NetEvent Url H.HeaderMap)
  pub attempts : ℕ

module _ (H : HeaderApi) (C : Chrono) (Url T : Type 0) (env : Attempts H Url T) (url : Url) where
  open env use {attempt, meta, wait_cancelled, now, random, parse_from_rfc2822, describe}

  -- Whether a result is retried, and if so the wait that the response asks for.
  unfoldable pub retryable : RetryPolicy → ℕ → Outcome Url H.HeaderMap T → Option (Option ℕ)
  retryable policy time (ok t) =
      if retries_status policy (meta t).0
      then some (retry_after H C parse_from_rfc2822 time (meta t).1)
      else none
  retryable policy time (err e) = if retries_error policy e then some none else none

  abbrev pub wait_reason : Text
  wait_reason = codes "cancelled while waiting to retry"

  -- The view of attempt number `retries`, once it is over, with the events passed on before it.
  abbrev pub viewed : ℕ → List (NetEvent Url H.HeaderMap) → AttemptView Url H.HeaderMap
  viewed retries inner =
      on_events Url H.HeaderMap (new_view Url H.HeaderMap inner) (attempt retries).0

  abbrev pub finish : ℕ → AttemptView Url H.HeaderMap → Run H Url T
  finish retries view = record {
    result = (attempt retries).1;
    events = (release Url H.HeaderMap view).inner;
    attempts = suc retries;
  }

  abbrev pub announce : ℕ → ℕ → AttemptView Url H.HeaderMap → List (NetEvent Url H.HeaderMap)
  announce retries delay view =
      view.inner ++ retrying url (suc retries) delay (describe (attempt retries).1) ∷ []

  -- The wait after attempt number `retries` is cancelled.
  abbrev pub stop : ℕ → List (NetEvent Url H.HeaderMap) → Run H Url T
  stop retries sent = record {
    result = err (cancelled wait_reason);
    events = sent ++ Events.cancelled url wait_reason ∷ [];
    attempts = suc retries;
  }

  -- The `loop`, for `fuel` rounds; `none` when they do not suffice.
  unfoldable pub loop :
      RetryPolicy → (fuel retries : ℕ) → List (NetEvent Url H.HeaderMap) → Option (Run H Url T)
  unfolding retryable
  loop policy zero retries inner = none
  loop policy (suc fuel) retries inner =
      let view = viewed retries inner in
      elim (retryable policy (now retries) (attempt retries).1) [
        | none ↦ some (finish retries view)
        | some asked ↦
            if leb policy.max_retries retries
            then some (finish retries view)
            else (elim (backoff (random retries) policy (suc retries) asked) [
              | none ↦ some (finish retries view)
              | some delay ↦
                  let sent = announce retries delay view in
                  if wait_cancelled retries
                  then some (stop retries sent)
                  else loop policy fuel (suc retries) sent
            ])
      ]

  abbrev pub single : Run H Url T
  single = record { result = (attempt 0).1; events = (attempt 0).0; attempts = 1 }

  -- One round more than the retries that the policy allows.
  unfoldable pub with_retries : Option RetryPolicy → (method : Text) → Option (Run H Url T)
  unfolding loop
  with_retries none method = some single
  with_retries (some policy) method =
      if env.is_idempotent method then loop policy (suc policy.max_retries) 0 [] else some single
