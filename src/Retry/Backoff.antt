-- ===== src/Retry/Backoff.antt =====
-- The waits of a retry policy of src/net/retry.rs.
use gosub_sonar.Prelude.{
  ℕ, suc, ◌+◌, ◌-◌, ◌*◌, ◌/◌, ◌^◌, ◌≤◌, ◌≡◌, ◌↔◌, ap, min, none, some, arith, unwrap_or,
}
use gosub_sonar.Retry.{RetryPolicy, backoff, checked_mul, duration_max}

-- The wait before a retry, had it no jitter and were durations unbounded.
abbrev pub nominal : RetryPolicy → ℕ → ℕ
nominal p retry = min (p.initial_backoff * 2 ^ min (retry - 1) 31) p.max_backoff

nominal-checked :
    (p : RetryPolicy) (retry : ℕ)
    → p.max_backoff ≤ duration_max
    → min
        (unwrap_or (checked_mul p.initial_backoff (2 ^ min (retry - 1) 31)) p.max_backoff)
        p.max_backoff
      ≡ nominal p retry
nominal-checked p retry l = ground arith

-- Without a `Retry-After` there is always a wait, between half of the doubled backoff and all of it,
-- and an overflow of the product counts as the longest wait.
pub backoff_between :
    (random : ℕ → ℕ) (p : RetryPolicy) (retry : ℕ)
    → ((half : ℕ) → random half ≤ half)
    → p.max_backoff ≤ duration_max
    → (d : ℕ) × (backoff random p retry none ≡ some d)
      × (nominal p retry ≤ suc (2 * d))
      × (d ≤ nominal p retry)
unfolding backoff
backoff_between random p retry jitter l =
    let half = nominal p retry / 2 in
    (
      half + random half,
      ap (λ b. some (b / 2 + random (b / 2))) (nominal-checked p retry l),
      omega arith,
      omega (arith, jitter half),
    )

-- A `Retry-After` is waited for as asked, and one beyond the longest wait stops the retries.
pub backoff_asked :
    (random : ℕ → ℕ) (p : RetryPolicy) (retry asked d : ℕ)
    → (backoff random p retry (some asked) ≡ some d) ↔ ((d ≡ asked) × (asked ≤ p.max_backoff))
unfolding backoff
backoff_asked random p retry asked d = ground arith
