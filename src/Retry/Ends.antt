-- ===== src/Retry/Ends.antt =====
-- The loop of attempts of src/net/retry.rs comes to a result within its budget, and its observer
-- sees one end.
use gosub_sonar.Prelude.{
  ℕ, zero, suc, ◌+◌, ◌-◌, ◌≤◌, ◌<◌, ◌≡◌, refl, ap, ◌∙◌, ◌⊎◌, inl, inr, true, false, ◌||◌, List, [],
  ◌∷◌, ◌++◌, some, Text, leb, arith, All, All-append, any, Bool-cases, Option-cases, subst, is_some,
  ◌==◌, ==_iff,
}
use gosub_sonar.Web.Headers.{HeaderApi}
use gosub_sonar.Web.Errors.{cancelled}
use gosub_sonar.Web.Events
use gosub_sonar.Web.Events.{NetEvent, is_terminal, retrying}
use gosub_sonar.Cache.Dates.{Chrono}
use gosub_sonar.Retry.{
  RetryPolicy, err, AttemptView, new_view, on_event, on_events, release, backoff,
}
use gosub_sonar.Retry.Loop.{
  Attempts, Run, retryable, viewed, finish, announce, stop, loop, with_retries, wait_reason,
}

module _ (Url HeaderMap : Type 0) where
  -- No event of the list is an end.
  abbrev pub IsQuiet : List (NetEvent Url HeaderMap) → Type 0
  IsQuiet = All (λ e. is_terminal e ≡ false)

  -- The list is events that are no end, and then one end, or none.
  abbrev pub EndsOnce : List (NetEvent Url HeaderMap) → Type 0
  EndsOnce evs =
      (before : List (NetEvent Url HeaderMap)) × (ev : NetEvent Url HeaderMap) × (evs
        ≡ before ++ ev ∷ [])
      × IsQuiet before
      × (is_terminal ev ≡ true)

  record IsHolding (v : AttemptView Url HeaderMap) : Type 0 where
    unreleased : v.last ≡ false
    quiet : IsQuiet v.inner
    an_end : (ev : NetEvent Url HeaderMap) → v.held ≡ some ev → is_terminal ev ≡ true

  on_event-IsHolding :
      (v : AttemptView Url HeaderMap) (ev : NetEvent Url HeaderMap)
      → IsHolding v
      → IsHolding (on_event Url HeaderMap v ev)
  unfolding on_event
  on_event-IsHolding v ev h = elim (Bool-cases (is_terminal ev)) [
    | inl e ↦
        let kept : IsHolding (record v { held = some ev }) = record {
          unreleased = h.unreleased;
          quiet = h.quiet;
          an_end = λ d p. ground arith;
        } in
        subst IsHolding (ground (arith, h.unreleased)) kept
    | inr e ↦
        let passed : IsHolding (record v { inner = v.inner ++ ev ∷ [] }) = record {
          unreleased = h.unreleased;
          quiet = All-append (λ d. is_terminal d ≡ false) v.inner (ev ∷ []) h.quiet (e, tt);
          an_end = h.an_end;
        } in
        subst IsHolding (ground arith) passed
  ]

  on_event-held :
      (v : AttemptView Url HeaderMap) (ev : NetEvent Url HeaderMap)
      → v.last ≡ false
      → is_some (on_event Url HeaderMap v ev).held ≡ (is_some v.held || is_terminal ev)
  unfolding on_event
  on_event-held v ev e = ground arith

  on_events-IsHolding :
      (v : AttemptView Url HeaderMap) (evs : List (NetEvent Url HeaderMap))
      → IsHolding v
      → IsHolding (on_events Url HeaderMap v evs)
  unfolding on_events
  on_events-IsHolding v [] h = h
  on_events-IsHolding v (ev ∷ evs) h =
      on_events-IsHolding (on_event Url HeaderMap v ev) evs (on_event-IsHolding v ev h)

  on_events-held :
      (v : AttemptView Url HeaderMap) (evs : List (NetEvent Url HeaderMap))
      → IsHolding v
      → is_some (on_events Url HeaderMap v evs).held ≡ (is_some v.held || any is_terminal evs)
  unfolding on_events
  on_events-held v [] h = ground arith
  on_events-held v (ev ∷ evs) h =
      on_events-held (on_event Url HeaderMap v ev) evs (on_event-IsHolding v ev h)
      ∙ ground (arith, on_event-held v ev h.unreleased)

  release-EndsOnce :
      (v : AttemptView Url HeaderMap)
      → IsHolding v
      → is_some v.held ≡ true
      → EndsOnce (release Url HeaderMap v).inner
  unfolding release
  release-EndsOnce v h s = elim (Option-cases v.held) [
    | inl e ↦ absurd (ground arith)
    | inr (ev, e) ↦ (v.inner, ev, ground arith, h.quiet, h.an_end ev e)
  ]

module _ (H : HeaderApi) (C : Chrono) (Url T : Type 0) (env : Attempts H Url T) (url : Url) where
  viewed-IsHolding :
      (retries : ℕ) (inner : List (NetEvent Url H.HeaderMap))
      → IsQuiet Url H.HeaderMap inner
      → IsHolding Url H.HeaderMap (viewed H C Url T env url retries inner)
  viewed-IsHolding retries inner q =
      on_events-IsHolding Url H.HeaderMap (new_view Url H.HeaderMap inner) (env.attempt retries).0
        (record { unreleased = refl; quiet = q; an_end = λ ev e. absurd (cc e) })

  -- What is right of a run: it ends once, within the budget, with the result of its last attempt
  -- or of the cancelled wait after it, and each attempt before was to be retried.
  pub record IsRight (policy : RetryPolicy) (from : ℕ) (r : Run H Url T) : Type 0 where
    pub ends_once : EndsOnce Url H.HeaderMap r.events
    pub within : r.attempts ≤ suc policy.max_retries
    pub some_attempt : from < r.attempts
    pub of_last :
        (r.result ≡ (env.attempt (r.attempts - 1)).1)
        ⊎ ((r.result ≡ err (cancelled (wait_reason H C Url T env url)))
            × (env.wait_cancelled (r.attempts - 1) ≡ true))
    pub retried :
        (i : ℕ)
        → from ≤ i
        → suc i < r.attempts
        → (is_some (retryable H C Url T env url policy (env.now i) (env.attempt i).1) ≡ true)
          × (env.wait_cancelled i ≡ false)

  module _ (policy : RetryPolicy) (ends : (i : ℕ) → any is_terminal (env.attempt i).0 ≡ true) where
    finish-IsRight :
        (retries : ℕ) (inner : List (NetEvent Url H.HeaderMap))
        → IsQuiet Url H.HeaderMap inner
        → retries ≤ policy.max_retries
        → IsRight policy retries
            (finish H C Url T env url retries (viewed H C Url T env url retries inner))
    finish-IsRight retries inner q l = record {
      ends_once = release-EndsOnce Url H.HeaderMap _ (viewed-IsHolding retries inner q) (
          on_events-held Url H.HeaderMap (new_view Url H.HeaderMap inner) (env.attempt retries).0
            (record { unreleased = refl; quiet = q; an_end = λ ev e. absurd (cc e) })
          ∙ ends retries);
      within = omega (arith, l);
      some_attempt = omega arith;
      of_last = inl (ap (λ n. (env.attempt n).1) (omega arith));
      retried = λ i a b. absurd (omega (arith, a, b));
    }

    announce-IsQuiet :
        (retries delay : ℕ) (inner : List (NetEvent Url H.HeaderMap))
        → IsQuiet Url H.HeaderMap inner
        → IsQuiet Url H.HeaderMap
            (announce H C Url T env url retries delay (viewed H C Url T env url retries inner))
    unfolding is_terminal
    announce-IsQuiet retries delay inner q =
        All-append (λ d. is_terminal d ≡ false) _ _ (viewed-IsHolding retries inner q).quiet
          (refl, tt)

    stop-IsRight :
        (retries : ℕ) (sent : List (NetEvent Url H.HeaderMap))
        → IsQuiet Url H.HeaderMap sent
        → retries ≤ policy.max_retries
        → env.wait_cancelled retries ≡ true
        → IsRight policy retries (stop H C Url T env url retries sent)
    unfolding is_terminal
    stop-IsRight retries sent q l c = record {
      ends_once = (sent, Events.cancelled url (wait_reason H C Url T env url), refl, q, refl);
      within = omega (arith, l);
      some_attempt = omega arith;
      of_last = inr (refl, ap env.wait_cancelled (omega arith) ∙ c);
      retried = λ i a b. absurd (omega (arith, a, b));
    }

    earlier-IsRight :
        (retries : ℕ) (r : Run H Url T)
        → is_some (retryable H C Url T env url policy (env.now retries) (env.attempt retries).1)
          ≡ true
        → env.wait_cancelled retries ≡ false
        → IsRight policy (suc retries) r
        → IsRight policy retries r
    earlier-IsRight retries r again on h = record {
      ends_once = h.ends_once;
      within = h.within;
      some_attempt = omega (arith, h.some_attempt);
      of_last = h.of_last;
      retried = λ i a b. elim (Bool-cases (i == retries)) [
        | inl same ↦ rw ((==_iff i retries).0 same) (again, on)
        | inr later ↦ h.retried i (ground (arith, a, later)) b
      ];
    }

    -- With as many rounds as retries are left, and one more, the loop comes to a right result.
    loop-IsRight :
        (fuel retries : ℕ) (inner : List (NetEvent Url H.HeaderMap))
        → policy.max_retries < retries + fuel
        → retries ≤ policy.max_retries
        → IsQuiet Url H.HeaderMap inner
        → (r : Run H Url T) × (loop H C Url T env url policy fuel retries inner ≡ some r)
          × IsRight policy retries r
    unfolding loop
    loop-IsRight zero retries inner f l q = absurd (omega (arith, f, l))
    loop-IsRight (suc fuel) retries inner f l q =
        elim (Option-cases
          (retryable H C Url T env url policy (env.now retries) (env.attempt retries).1)) [
            | inl e ↦ (_, rw (e, loop) refl, finish-IsRight retries inner q l)
            | inr (asked, e) ↦ elim (Bool-cases (leb policy.max_retries retries)) [
              | inl full ↦
                  (_, rw (e, loop) (rw (full, loop) refl), finish-IsRight retries inner q l)
              | inr less ↦
                  elim (Option-cases (backoff (env.random retries) policy (suc retries) asked)) [
                    | inl b ↦ (
                      _,
                      rw (e, loop) (rw (less, loop) (rw (b, loop) refl)),
                      finish-IsRight retries inner q l,
                    )
                    | inr (delay, b) ↦ elim (Bool-cases (env.wait_cancelled retries)) [
                      | inl c ↦ (
                        stop H C Url T env url retries (
                            announce H C Url T env url retries delay
                              (viewed H C Url T env url retries inner)),
                        rw (e, loop) (rw (less, loop) (rw (b, loop) (rw (c, loop) refl))),
                        stop-IsRight retries _ (announce-IsQuiet retries delay inner q) l c,
                      )
                      | inr on ↦
                          let (r, found, right) =
                            loop-IsRight fuel (suc retries)
                              (announce H C Url T env url retries delay
                                (viewed H C Url T env url retries inner))
                              (omega (arith, f)) (ground (arith, less))
                              (announce-IsQuiet retries delay inner q) in
                          (
                            r,
                            rw (e, loop) (rw (less, loop) (rw (b, loop) (rw (on, loop) found))),
                            earlier-IsRight retries r (rw e refl) on right,
                          )
                    ]
                  ]
            ]
          ]

    -- If every attempt reports an end, a request with retries returns: after at most one attempt
    -- more than the retries allowed, each of which but the last was to be retried, with the result of the
    -- last or of the cancelled wait after it, and its observer has seen one end, after everything else.
    pub with_retries-IsRight :
        (method : Text)
        → env.is_idempotent method ≡ true
        → (r : Run H Url T) × (with_retries H C Url T env url (some policy) method ≡ some r)
          × IsRight policy 0 r
    unfolding with_retries
    with_retries-IsRight method i =
        let (r, found, right) =
          loop-IsRight (suc policy.max_retries) 0 [] (omega arith) (omega arith) tt in
        (r, rw (i, with_retries) found, right)
