-- ===== src/Cache/Decide.antt =====
-- What a request does with the cache and whether a response is stored: `CacheMode`, `decide`,
-- `is_storable` and the tests on requests of src/net/cache.rs.
use gosub_sonar.Prelude.{
  ℕ, ◌+◌, ◌-◌, Bool, true, false, not, ◌&&◌, ◌||◌, List, [], ◌∷◌, Option, none, some, unwrap_or,
  is_some, Text, codes, text_eq, if◌then◌else◌, ◌==◌, any, retain, leb, ltb, is_empty,
}
use gosub_sonar.Web.Headers.{HeaderApi, contains_key}
use gosub_sonar.Cache.Dates.{Chrono, seconds}
use gosub_sonar.Cache.Directives.{
  ResponseDirectives, RequestDirectives, response_directives, request_directives,
}
use gosub_sonar.Cache.Entry.{CacheEntry, matches, conditional_headers, vary_names, among}
use gosub_sonar.Cache.Age.{header_date, is_fresh, current_age, freshness_lifetime}

pub data CacheMode : Type 0 where
  default no_store reload no_cache force_cache only_if_cached : CacheMode

unfoldable pub is_default : CacheMode → Bool
is_default default = true
is_default _ = false

-- The modes in which `decide` goes to the network at once.
unfoldable pub ignores_stored : CacheMode → Bool
ignores_stored no_store = true
ignores_stored reload = true
ignores_stored _ = false

unfoldable pub is_only_if_cached : CacheMode → Bool
is_only_if_cached only_if_cached = true
is_only_if_cached _ = false

unfoldable pub is_force_cache : CacheMode → Bool
is_force_cache force_cache = true
is_force_cache _ = false

unfoldable pub is_no_cache : CacheMode → Bool
is_no_cache no_cache = true
is_no_cache _ = false

unfoldable pub is_one_of : List ℕ → ℕ → Bool
is_one_of statuses status = any (λ c. c == status) statuses

abbrev pub default_cacheable : List ℕ
default_cacheable = 200 ∷ 203 ∷ 204 ∷ 300 ∷ 301 ∷ 308 ∷ 404 ∷ 405 ∷ 410 ∷ 414 ∷ 501 ∷ []

abbrev pub understood : List ℕ
understood = 200 ∷ 203 ∷ 204 ∷ 300 ∷ 301 ∷ 302 ∷ 307 ∷ 308 ∷ 404 ∷ 405 ∷ 410 ∷ 414 ∷ 501 ∷ []

unfoldable pub invalidates : Text → Bool
unfolding among
invalidates method =
    not (among (codes "GET" ∷ codes "HEAD" ∷ codes "OPTIONS" ∷ codes "TRACE" ∷ []) method)

abbrev pub condition_names : List Text
condition_names =
    codes "if-none-match"
    ∷ codes "if-modified-since"
    ∷ codes "if-match"
    ∷ codes "if-unmodified-since"
    ∷ codes "if-range"
    ∷ []

-- The two flags of `decide` on a matching response, with the age and the lifetime of the response:
-- `usable` up to the request's own limits.
unfoldable pub usable_at : RequestDirectives → ResponseDirectives → (age lifetime : ℕ) → Bool
usable_at asked stored age lifetime =
    if ltb age lifetime
    then true
    else if stored.must_revalidate
    then false
    else elim asked.max_stale [
      | none ↦ false
      | some none ↦ true
      | some (some limit) ↦ leb (age - lifetime) (seconds limit)
    ]

unfoldable pub stale_usable_at : CacheMode → Bool → ResponseDirectives → (age lifetime : ℕ) → Bool
unfolding is_default
stale_usable_at mode usable stored age lifetime =
    if not usable && is_default mode && not stored.must_revalidate
    then elim stored.stale_while_revalidate [
      | none ↦ false
      | some window ↦ leb (age - lifetime) (seconds window)
    ]
    else false

unfoldable pub is_young : RequestDirectives → ℕ → Bool
is_young asked age = elim asked.max_age [ none ↦ true | some max_age ↦ leb age (seconds max_age) ]

-- `lifetime - age >= min_fresh`, for a difference that may be negative.
unfoldable pub stays_fresh : RequestDirectives → (age lifetime : ℕ) → Bool
stays_fresh asked age lifetime = elim asked.min_fresh [
  | none ↦ true
  | some min_fresh ↦ leb (age + seconds min_fresh) lifetime
]

module _ (H : HeaderApi) where
  open H use {HeaderMap, iter}

  pub data CacheDecision : Type 0 where
    use_stored : CacheEntry H → CacheDecision
    revalidate_with : CacheEntry H → HeaderMap → CacheDecision
    use_stale : CacheEntry H → CacheDecision
    send : CacheDecision
    not_cached : CacheDecision

  unfoldable pub revalidate : CacheEntry H → CacheDecision
  unfolding conditional_headers
  revalidate entry =
      if is_empty (iter (conditional_headers H entry))
      then send
      else revalidate_with entry (conditional_headers H entry)

  unfoldable pub revalidated : CacheDecision → CacheDecision
  unfolding revalidate
  revalidated (use_stale entry) = revalidate entry
  revalidated other = other

  unfoldable pub effective_mode : CacheMode → HeaderMap → CacheMode
  unfolding is_default
  effective_mode mode request =
      if is_default mode && any (contains_key H request) condition_names then no_store else mode

  unfoldable pub bypasses_cache : HeaderMap → Bool
  bypasses_cache request = any (contains_key H request) (
      codes "range"
      ∷ codes "if-range"
      ∷ codes "if-none-match"
      ∷ codes "if-match"
      ∷ codes "if-modified-since"
      ∷ codes "if-unmodified-since"
      ∷ [])

  unfoldable pub has_freshness : HeaderMap → Bool
  unfolding response_directives
  has_freshness response =
      is_some (response_directives H response).max_age || contains_key H response (codes "expires")

  unfoldable pub has_validator : HeaderMap → Bool
  has_validator response =
      contains_key H response (codes "etag") || contains_key H response (codes "last-modified")

  unfoldable pub is_storable : Text → HeaderMap → ℕ → HeaderMap → Bool
  unfolding among request_directives bypasses_cache response_directives is_one_of vary_names
      has_freshness has_validator
  is_storable method request status response =
      let directives = response_directives H response in
      if not (text_eq method (codes "GET")) && not (text_eq method (codes "HEAD"))
      then false
      else if status == 304
      then false
      else if (request_directives H request).no_store || bypasses_cache request
      then false
      else if directives.must_understand && not (is_one_of understood status)
      then false
      else if not directives.must_understand && directives.no_store
      then false
      else if any (λ n. text_eq n (codes "*")) (vary_names H response)
      then false
      else if status == 206 || contains_key H response (codes "content-range")
      then false
      else if not (has_freshness response) && not (has_validator response)
      then false
      else is_one_of default_cacheable status || has_freshness response

  module _ (C : Chrono) where
    unfoldable pub dated : CacheEntry H → ℕ
    unfolding header_date
    dated entry = unwrap_or (header_date H C entry.headers (codes "date")) entry.received_at

    -- `max_by_key`: the last of the entries with the latest date.
    unfoldable pub latest : List (CacheEntry H) → Option (CacheEntry H)
    unfolding dated
    latest [] = none
    latest (entry ∷ entries) = elim (latest entries) [
      | none ↦ some entry
      | some best ↦ if ltb (dated best) (dated entry) then some entry else some best
    ]

    -- The end of `decide`, on a matching response that may be used without asking.
    unfoldable pub decide_by_age :
        CacheEntry H
        → RequestDirectives
        → ResponseDirectives
        → CacheMode
        → (age lifetime : ℕ) → CacheDecision
    unfolding usable_at stale_usable_at is_young stays_fresh revalidate
    decide_by_age entry asked stored mode age lifetime =
        let usable = usable_at asked stored age lifetime in
        let stale_usable = stale_usable_at mode usable stored age lifetime in
        if usable && is_young asked age && stays_fresh asked age lifetime
        then use_stored entry
        else if stale_usable && is_young asked age && not (is_some asked.min_fresh)
        then use_stale entry
        else revalidate entry

    -- `decide` on the matching response.
    unfoldable pub decide_on :
        CacheEntry H → RequestDirectives → ResponseDirectives → CacheMode → ℕ → CacheDecision
    unfolding is_force_cache is_only_if_cached is_no_cache is_fresh revalidate decide_by_age
        current_age freshness_lifetime
    decide_on entry asked stored mode now =
        let insists = is_only_if_cached mode || asked.only_if_cached in
        if is_force_cache mode || insists
        then (if stored.no_cache || (stored.must_revalidate && not (is_fresh H C entry now))
            then (if insists then not_cached else revalidate entry)
            else use_stored entry)
        else if is_no_cache mode || asked.no_cache || stored.no_cache
        then revalidate entry
        else decide_by_age entry asked stored mode (current_age H C entry now)
            (unwrap_or (freshness_lifetime H C entry) 0)

    unfoldable pub decide : List (CacheEntry H) → HeaderMap → Bool → CacheMode → ℕ → CacheDecision
    unfolding ignores_stored is_only_if_cached bypasses_cache request_directives response_directives
        latest matches decide_on
    decide entries request decoded mode now =
        let asked = request_directives H request in
        if ignores_stored mode || asked.no_store || bypasses_cache request
        then send
        else elim (latest (retain (λ e. matches H e request decoded) entries)) [
          | none ↦ if is_only_if_cached mode || asked.only_if_cached then not_cached else send
          | some entry ↦ decide_on entry asked (response_directives H entry.headers) mode now
        ]
