-- ===== src/Cache/Freshness.antt =====
-- When `decide` of src/net/cache.rs answers from the cache, and when it must not.
use gosub_sonar.Prelude.{
  ℕ, ◌-◌, ◌≤◌, ◌≡◌, refl, ◌⊎◌, inl, inr, Bool, true, false, not, ◌&&◌, ◌||◌, List, [], ◌∷◌, none,
  some, unwrap_or, is_some, arith, retain, ltb, Option-cases, Bool-cases, subst,
}
use gosub_sonar.Web.Headers.{HeaderApi}
use gosub_sonar.Cache.Dates.{Chrono, seconds}
use gosub_sonar.Cache.Directives.{
  ResponseDirectives, RequestDirectives, response_directives, request_directives,
}
use gosub_sonar.Cache.Entry.{CacheEntry, matches}
use gosub_sonar.Cache.Age.{is_fresh, current_age, freshness_lifetime}
use gosub_sonar.Cache.Decide.{
  CacheMode, default, only_if_cached, use_stored, use_stale, not_cached, decide, decide_on,
  decide_by_age, latest, revalidate, bypasses_cache, ignores_stored, is_only_if_cached, is_default,
  is_no_cache, is_force_cache, usable_at, stale_usable_at, is_young, stays_fresh, dated,
}

module _ (H : HeaderApi) (C : Chrono) where
  open H use {HeaderMap}

  -- The stored response is one of the entries.
  abbrev pub IsEntry : CacheEntry H → List (CacheEntry H) → Type 0
  IsEntry e [] = ⊥
  IsEntry e (x ∷ xs) = (e ≡ x) ⊎ IsEntry e xs

  latest-IsEntry :
      (test : CacheEntry H → Bool) (e : CacheEntry H) (entries : List (CacheEntry H))
      → latest H C (retain test entries) ≡ some e
      → IsEntry e entries × (test e ≡ true)
  unfolding latest
  latest-IsEntry test e [] h = cc
  latest-IsEntry test e (x ∷ xs) h = elim (Bool-cases (test x)) [
    | inr f ↦ let (a, b) = latest-IsEntry test e xs (rw f at h) in (inr a, b)
    | inl t ↦ elim (Option-cases (latest H C (retain test xs))) [
      | inl f ↦ let same : x ≡ e = ground arith in (inl (cc same), cc (same, t))
      | inr (y, f) ↦ elim (Bool-cases (ltb (dated H C y) (dated H C x))) [
        | inl later ↦ let same : x ≡ e = ground arith in (inl (cc same), cc (same, t))
        | inr earlier ↦
            let same : y ≡ e = ground arith in
            let (a, b) = latest-IsEntry test e xs (cc (f, same)) in (inr a, b)
      ]
    ]
  ]

  -- A stored response that may answer a request, fresh or because it does not forbid stale use.
  abbrev pub MayAnswer : CacheEntry H → ℕ → Type 0
  MayAnswer e now =
      ((response_directives H e.headers).no_cache ≡ false)
      × ((is_fresh H C e now ≡ true) ⊎ ((response_directives H e.headers).must_revalidate ≡ false))

  -- A stale response that grants its use for some time more.
  abbrev pub MayAnswerStale : CacheEntry H → CacheMode → ℕ → Type 0
  MayAnswerStale e mode now =
      let held = response_directives H e.headers in
      (held.no_cache ≡ false)
      × (held.must_revalidate ≡ false)
      × (is_some held.stale_while_revalidate ≡ true)
      × (current_age H C e now - unwrap_or (freshness_lifetime H C e) 0
          ≤ seconds (unwrap_or held.stale_while_revalidate 0))
      × (is_default mode ≡ true)

  -- A request that lets the cache decide.
  abbrev pub IsPlain : HeaderMap → Type 0
  IsPlain request =
      let asked = request_directives H request in
      (bypasses_cache H request ≡ false)
      × (asked.no_store ≡ false)
      × (asked.no_cache ≡ false)
      × (asked.only_if_cached ≡ false)
      × (asked.max_age ≡ none)
      × (asked.min_fresh ≡ none)

  revalidate-not_used : (e x : CacheEntry H) → (revalidate H x ≡ use_stored e) → ⊥
  unfolding revalidate
  revalidate-not_used e x h = ground arith

  revalidate-not_stale : (e x : CacheEntry H) → (revalidate H x ≡ use_stale e) → ⊥
  unfolding revalidate
  revalidate-not_stale e x h = ground arith

  decide_by_age-use_stored :
      (x e : CacheEntry H) (asked : RequestDirectives) (held : ResponseDirectives)
      (mode : CacheMode) (age lifetime : ℕ)
      → decide_by_age H C x asked held mode age lifetime ≡ use_stored e
      → (x ≡ e) × ((ltb age lifetime ≡ true) ⊎ (held.must_revalidate ≡ false))
  unfolding decide_by_age usable_at
  decide_by_age-use_stored x e asked held mode age lifetime h =
      ground (arith, revalidate-not_used e x)

  decide_by_age-use_stale :
      (x e : CacheEntry H) (asked : RequestDirectives) (held : ResponseDirectives)
      (mode : CacheMode) (age lifetime : ℕ)
      → decide_by_age H C x asked held mode age lifetime ≡ use_stale e
      → (x ≡ e)
        × (is_default mode ≡ true)
        × (held.must_revalidate ≡ false)
        × (is_some held.stale_while_revalidate ≡ true)
        × (age - lifetime ≤ seconds (unwrap_or held.stale_while_revalidate 0))
        × (is_young asked age ≡ true)
        × (asked.min_fresh ≡ none)
  unfolding decide_by_age stale_usable_at
  decide_by_age-use_stale x e asked held mode age lifetime h =
      elim (Option-cases held.stale_while_revalidate) [
        | inl nothing ↦ absurd (ground (arith, revalidate-not_stale e x))
        | inr (w, f) ↦ elim (Option-cases asked.min_fresh) [
          | inl free ↦ ground (arith, revalidate-not_stale e x)
          | inr (m, g) ↦ absurd (ground (arith, revalidate-not_stale e x))
        ]
      ]

  fresh_by_age :
      (x : CacheEntry H) (now : ℕ)
      → ltb (current_age H C x now) (unwrap_or (freshness_lifetime H C x) 0) ≡ true
      → is_fresh H C x now ≡ true
  unfolding is_fresh
  fresh_by_age x now h = elim (Option-cases (freshness_lifetime H C x)) [
    | inl f ↦ absurd (ground arith)
    | inr (l, f) ↦ ground arith
  ]

  decide_on-use_stored :
      (x e : CacheEntry H) (asked : RequestDirectives) (mode : CacheMode) (now : ℕ)
      → decide_on H C x asked (response_directives H x.headers) mode now ≡ use_stored e
      → (x ≡ e) × MayAnswer x now
  unfolding decide_on
  decide_on-use_stored x e asked mode now h = ground (
    arith,
    revalidate-not_used e x,
    decide_by_age-use_stored x e asked (response_directives H x.headers) mode
        (current_age H C x now) (unwrap_or (freshness_lifetime H C x) 0),
    fresh_by_age x now,
  )

  decide_on-use_stale :
      (x e : CacheEntry H) (asked : RequestDirectives) (mode : CacheMode) (now : ℕ)
      → decide_on H C x asked (response_directives H x.headers) mode now ≡ use_stale e
      → (x ≡ e) × MayAnswerStale x mode now
  unfolding decide_on
  decide_on-use_stale x e asked mode now h = ground (
    arith,
    revalidate-not_stale e x,
    decide_by_age-use_stale x e asked (response_directives H x.headers) mode (current_age H C x now)
        (unwrap_or (freshness_lifetime H C x) 0),
  )

  decide_on-only_if_cached :
      (x : CacheEntry H) (asked : RequestDirectives) (held : ResponseDirectives) (now : ℕ)
      → (decide_on H C x asked held only_if_cached now ≡ not_cached)
        ⊎ ((e : CacheEntry H) × (decide_on H C x asked held only_if_cached now ≡ use_stored e))
  unfolding decide_on is_only_if_cached is_force_cache
  decide_on-only_if_cached x asked held now =
      elim (Bool-cases (held.no_cache || (held.must_revalidate && not (is_fresh H C x now)))) [
        | inl forbidden ↦ inl (rw forbidden refl)
        | inr allowed ↦ inr (x, rw allowed refl)
      ]

  decide_on-fresh :
      (x : CacheEntry H) (asked : RequestDirectives) (held : ResponseDirectives) (now : ℕ)
      → asked.no_cache ≡ false
      → asked.only_if_cached ≡ false
      → asked.max_age ≡ none
      → asked.min_fresh ≡ none
      → held.no_cache ≡ false
      → is_fresh H C x now ≡ true
      → decide_on H C x asked held default now ≡ use_stored x
  unfolding decide_on decide_by_age usable_at is_fresh is_young stays_fresh is_only_if_cached
      is_force_cache is_no_cache
  decide_on-fresh x asked held now a b c d n f = elim (Option-cases (freshness_lifetime H C x)) [
    | inl nothing ↦ absurd (ground arith)
    | inr (l, known) ↦
        let young : ltb (current_age H C x now) l ≡ true = rw (known, is_fresh) at f in
        rw (a, b, c, d, n, known, young) refl
  ]

  -- The first test of `decide`.
  abbrev goes_past : HeaderMap → CacheMode → Bool
  goes_past request mode =
      ignores_stored mode || (request_directives H request).no_store || bypasses_cache H request

  -- What is used without asking the server is one of the stored responses, matches the request, does
  -- not say `no-cache`, and is fresh or does not say `must-revalidate`; and the request does not ask
  -- to bypass the cache.
  pub decide-use_stored :
      (entries : List (CacheEntry H)) (request : HeaderMap) (decoded : Bool) (mode : CacheMode)
      (now : ℕ) (e : CacheEntry H)
      → decide H C entries request decoded mode now ≡ use_stored e
      → IsEntry e entries
        × (matches H e request decoded ≡ true)
        × MayAnswer e now
        × (bypasses_cache H request ≡ false)
  unfolding decide
  decide-use_stored entries request decoded mode now e h =
      let test : CacheEntry H → Bool = λ x. matches H x request decoded in
      elim (Bool-cases (goes_past request mode)) [
        | inl past ↦ absurd (ground (arith, rw (past, decide) at h))
        | inr looks ↦ elim (Option-cases (latest H C (retain test entries))) [
          | inl nothing ↦ absurd (ground (arith, rw (looks, nothing, decide) at h))
          | inr (x, found) ↦
              let (same, answers) =
                decide_on-use_stored x e (request_directives H request) mode now
                  (rw (looks, found, decide) at h) in
              let (a, b) = latest-IsEntry test x entries found in
              subst
                (λ y.
                  IsEntry y entries
                  × (test y ≡ true)
                  × MayAnswer y now
                  × (bypasses_cache H request ≡ false))
                same (a, b, answers, ground arith)
        ]
      ]

  -- What is used stale, with a revalidation behind it, is one of the stored responses, matches the
  -- request, says neither `no-cache` nor `must-revalidate`, and is past its lifetime by no more than
  -- the window that it grants; and the mode is the default one.
  pub decide-use_stale :
      (entries : List (CacheEntry H)) (request : HeaderMap) (decoded : Bool) (mode : CacheMode)
      (now : ℕ) (e : CacheEntry H)
      → decide H C entries request decoded mode now ≡ use_stale e
      → IsEntry e entries × (matches H e request decoded ≡ true) × MayAnswerStale e mode now
  unfolding decide
  decide-use_stale entries request decoded mode now e h =
      let test : CacheEntry H → Bool = λ x. matches H x request decoded in
      elim (Bool-cases (goes_past request mode)) [
        | inl past ↦ absurd (ground (arith, rw (past, decide) at h))
        | inr looks ↦ elim (Option-cases (latest H C (retain test entries))) [
          | inl nothing ↦ absurd (ground (arith, rw (looks, nothing, decide) at h))
          | inr (x, found) ↦
              let (same, answers) =
                decide_on-use_stale x e (request_directives H request) mode now
                  (rw (looks, found, decide) at h) in
              let (a, b) = latest-IsEntry test x entries found in
              subst (λ y. IsEntry y entries × (test y ≡ true) × MayAnswerStale y mode now) same
                (a, b, answers)
        ]
      ]

  -- A request that insists on a stored response never goes to the network, unless it asks for
  -- something that no stored response can answer: it uses a stored response, or there is none for it.
  pub decide-only_if_cached :
      (entries : List (CacheEntry H)) (request : HeaderMap) (decoded : Bool) (now : ℕ)
      → (request_directives H request).no_store ≡ false
      → bypasses_cache H request ≡ false
      → (decide H C entries request decoded only_if_cached now ≡ not_cached)
        ⊎ ((e : CacheEntry H) × (decide H C entries request decoded only_if_cached now
              ≡ use_stored e))
  unfolding decide ignores_stored
  decide-only_if_cached entries request decoded now h g =
      elim (Option-cases (latest H C (retain (λ x. matches H x request decoded) entries))) [
        | inl nothing ↦ inl (rw (h, g, nothing) refl)
        | inr (x, found) ↦
            rw (h, g, found)
              (decide_on-only_if_cached x (request_directives H request)
                (response_directives H x.headers) now)
      ]

  -- A request without conditions of its own is answered by the latest matching response if that is
  -- fresh and does not say `no-cache`.
  pub decide-fresh :
      (entries : List (CacheEntry H)) (request : HeaderMap) (decoded : Bool) (now : ℕ)
      (e : CacheEntry H)
      → latest H C (retain (λ x. matches H x request decoded) entries) ≡ some e
      → IsPlain request
      → is_fresh H C e now ≡ true
      → (response_directives H e.headers).no_cache ≡ false
      → decide H C entries request decoded default now ≡ use_stored e
  unfolding decide ignores_stored
  decide-fresh entries request decoded now e found plain fresh cacheable =
      let (b, n, c, o, m, f) = plain in
      rw (n, b, found)
        (decide_on-fresh e (request_directives H request) (response_directives H e.headers) now c o
          m f cacheable fresh)
