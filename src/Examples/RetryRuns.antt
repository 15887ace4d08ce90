-- ===== src/Examples/RetryRuns.antt =====
-- Runs of the pump of a shared body, of a retried request, and of a shared fetch.
use gosub_sonar.Prelude.{
  ℕ, suc, ◌*◌, ◌≤◌, ◌≡◌, refl, ◌⊎◌, true, false, List, [], ◌∷◌, none, some, Text, codes, arith, any,
  text_eq, text_eq_refl, zero,
}
use gosub_sonar.Web.Errors.{io}
use gosub_sonar.Web.Events.{NetEvent, is_terminal, finished, failed, net_error, started}
use gosub_sonar.Examples.Apis.{lines_api, Lines, decimal_dates}
use gosub_sonar.Body.Pump.{reads, pushed, pump}
use gosub_sonar.Body.Limits.{IsFaithful, pump-IsFaithful}
use gosub_sonar.Body.Draining.{pump-ends, end_of, undisturbed}
use gosub_sonar.Retry.{default, Outcome, ok, err, backoff}
use gosub_sonar.Retry.Loop.{Attempts, Run, with_retries}
use gosub_sonar.Retry.Ends.{IsRight, with_retries-IsRight}
use gosub_sonar.Retry.Backoff.{nominal, backoff_between}
use gosub_sonar.Lifecycle.{Lifecycle, accept, dropped, on_event}
use gosub_sonar.Lifecycle.Ends.{IsClosed, on_events, accept-IsClosed}
use gosub_sonar.Lifecycle.Fetch
use gosub_sonar.Lifecycle.Fetch.{join, report, Reach, here, next, joins, reports, member}
use gosub_sonar.Lifecycle.Settled.{Reach-ends}

abbrev hello : Text
hello = codes "hello"

pump-IsFaithful_example :
    IsFaithful Text
      (record { buf_size = 2; max_size = some 5 })
      0
      hello
      (pump Text (record { buf_size = 2; max_size = some 5 }) 0 hello ((reads 0, pushed) ∷ []))
pump-IsFaithful_example =
    pump-IsFaithful Text 2 (some 5) (omega arith) (λ m e. ground arith) 0 hello
      ((reads 0, pushed) ∷ []) (omega arith)

-- A body of five bytes with a limit of four.
pump-ends_example :
    (pump Text
      (record { buf_size = 2; max_size = some 4 })
      0
      hello
      (undisturbed Text (1 ∷ 1 ∷ 1 ∷ 1 ∷ 1 ∷ 1 ∷ []))).1
    ≡ end_of Text (some 4) 5
pump-ends_example =
    pump-ends Text 2 (some 4) (omega arith) (λ m e. ground arith) 0 hello
      (1 ∷ 1 ∷ 1 ∷ 1 ∷ 1 ∷ 1 ∷ []) (omega arith) (omega arith)

abbrev Event : Type 0
Event = NetEvent Text Lines

-- The first attempt fails with an I/O error, the second succeeds.
abbrev tries : ℕ → List Event × Outcome Text Lines ℕ
tries n = elim n [
  | zero ↦ (
    started (codes "u") ∷ failed (codes "u") (net_error (io (codes "reset"))) ∷ [],
    err (io (codes "reset")),
  )
  | suc m ↦ (started (codes "u") ∷ finished 5 7 (codes "u") ∷ [], ok 200)
]

abbrev env : Attempts lines_api Text ℕ
env = record {
  attempt = tries;
  meta = λ status. (status, []);
  wait_cancelled = λ n. false;
  now = λ n. 0;
  random = λ n half. half;
  parse_from_rfc2822 = λ t. none;
  describe = λ o. [];
  is_idempotent = λ method. text_eq method (codes "GET");
}

tries-end : (i : ℕ) → any is_terminal (tries i).0 ≡ true
unfolding is_terminal
tries-end zero = refl
tries-end (suc i) = refl

with_retries-IsRight_example :
    (r : Run lines_api Text ℕ) × (with_retries lines_api decimal_dates Text ℕ env
        (codes "u")
        (some default)
        (codes "GET")
      ≡ some r)
    × IsRight lines_api decimal_dates Text ℕ env (codes "u") default 0 r
with_retries-IsRight_example =
    with_retries-IsRight lines_api decimal_dates Text ℕ env (codes "u") default tries-end
      (codes "GET") (text_eq_refl (codes "GET"))

backoff_between_example :
    (d : ℕ) × (backoff (λ half. half) default 3 none ≡ some d)
    × (nominal default 3 ≤ suc (2 * d))
    × (d ≤ nominal default 3)
backoff_between_example =
    backoff_between (λ half. half) default 3 (λ half. omega arith) (omega arith)

abbrev two_events : List Event
two_events = started (codes "u") ∷ finished 5 7 (codes "u") ∷ finished 5 8 (codes "u") ∷ []

accept-IsClosed_example : IsClosed Text Lines ℕ (some 3) (
    dropped Text Lines ℕ
      (on_events Text Lines ℕ (accept Text Lines ℕ (codes "u") false (some 3)) two_events))
accept-IsClosed_example = accept-IsClosed Text Lines ℕ (codes "u") false (some 3) two_events

abbrev f0 : Fetch.World Text Lines ℕ
f0 = Fetch.started Text Lines ℕ (codes "u") none

-- The fetch ends, and then another request joins it.
abbrev f1 : Fetch.World Text Lines ℕ
f1 = report Text Lines ℕ (finished 5 7 (codes "u")) f0

abbrev f2 : Fetch.World Text Lines ℕ
f2 = join Text Lines ℕ 1 (codes "v") none f1

abbrev late : Lifecycle Text Lines ℕ
late = on_event Text Lines ℕ (accept Text Lines ℕ (codes "v") true none) (finished 5 7 (codes "u"))

f1-new : f1.requests 1 ≡ none
unfolding gosub_sonar.Lifecycle.shared_on_event is_terminal
f1-new = refl

f2-late : f2.requests 1 ≡ some late
unfolding gosub_sonar.Lifecycle.attach gosub_sonar.Lifecycle.shared_on_event is_terminal
f2-late = refl

reached_f2 : Reach Text Lines ℕ f0 f2
reached_f2 = next (next here (reports (finished 5 7 (codes "u")))) (joins 1 (codes "v") none f1-new)

Reach-ends_example :
    (late.ended ≡ true) ⊎ ((f2.shared.end_of ≡ none) × (member 1 f2.shared.attached ≡ true))
Reach-ends_example = Reach-ends Text Lines ℕ (codes "u") none 1 late reached_f2 refl f2-late
