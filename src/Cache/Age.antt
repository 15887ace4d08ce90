-- ===== src/Cache/Age.antt =====
-- The dates of a `CacheEntry` of src/net/cache.rs: its freshness and age, and its making from a
-- response. A `TimeDelta` is its nanoseconds; each one here that the source cuts off at zero is a
-- subtraction on ℕ.
use gosub_sonar.Prelude.{
  ℕ, ◌+◌, ◌-◌, ◌/◌, ◌^◌, min, max, Bool, false, [], ◌∷◌, ◌++◌, Option, none, some, ◌>>=◌, unwrap_or,
  Text, codes, if◌then◌else◌, retain, map, ltb, split_once,
}
use gosub_sonar.Web.Headers.{HeaderApi, get, contains_key}
use gosub_sonar.Cache.Dates.{Chrono, seconds, parse_http_date, format_http_date}
use gosub_sonar.Cache.Directives.{delta_seconds, response_directives}
use gosub_sonar.Cache.Entry.{
  CacheEntry, connection_listed, heuristic_max_secs, hop_by_hop, remove_all, vary_names, vary_value,
}

module _ (H : HeaderApi) where
  open H use {HeaderMap, get_all, iter, empty, append, insert, remove, to_str, is_header_name}

  module _ (C : Chrono) where
    open C use {heuristic_fraction}

    unfoldable pub header_date : HeaderMap → Text → Option ℕ
    unfolding parse_http_date
    header_date headers name = get H headers name >>= to_str >>= parse_http_date C

    unfoldable pub heuristic_lifetime : CacheEntry H → ℕ → Option ℕ
    unfolding header_date
    heuristic_lifetime entry base =
        header_date entry.headers (codes "last-modified") >>= λ last_modified.
        some
          (seconds (min (heuristic_fraction ((base - last_modified) / 10 ^ 9)) heuristic_max_secs))

    unfoldable pub freshness_lifetime : CacheEntry H → Option ℕ
    unfolding header_date heuristic_lifetime response_directives
    freshness_lifetime entry =
        let base = unwrap_or (header_date entry.headers (codes "date")) entry.received_at in
        elim ((response_directives H entry.headers).max_age) [
          | some max_age ↦ some (seconds max_age)
          | none ↦ elim (header_date entry.headers (codes "expires")) [
            | some expires ↦ some (expires - base)
            | none ↦
                if contains_key H entry.headers (codes "expires")
                then some 0
                else heuristic_lifetime entry base
          ]
        ]

    unfoldable pub age_value : HeaderMap → ℕ
    unfolding delta_seconds split_once
    age_value headers =
        unwrap_or
          (get H headers (codes "age")
            >>= to_str
            >>= (λ v. delta_seconds (split_once b',' v).0)
            >>= (λ s. some (seconds s)))
          0

    unfoldable pub current_age : CacheEntry H → ℕ → ℕ
    unfolding header_date age_value
    current_age entry now =
        let apparent_age : ℕ = elim (header_date entry.headers (codes "date")) [
          | some date ↦ entry.received_at - date
          | none ↦ 0
        ] in
        let response_delay = entry.received_at - entry.requested_at in
        max apparent_age (age_value entry.headers + response_delay) + (now - entry.received_at)

    unfoldable pub is_fresh : CacheEntry H → ℕ → Bool
    unfolding freshness_lifetime current_age
    is_fresh entry now = elim (freshness_lifetime entry) [
      | some lifetime ↦ ltb (current_age entry now) lifetime
      | none ↦ false
    ]

    -- The headers as they are stored. The formatted date is always a header value.
    unfoldable pub stored_headers : HeaderMap → Bool → ℕ → HeaderMap
    unfolding remove_all connection_listed format_http_date
    stored_headers response decoded received_at =
        let stripped = remove_all H response (
          connection_listed H response
          ++ (hop_by_hop ++ (codes "proxy-authentication-info" ∷ codes "set-cookie" ∷ []))) in
        let dated =
          if contains_key H stripped (codes "date")
          then stripped
          else insert stripped (codes "date") (format_http_date C received_at) in
        if decoded
        then remove (remove dated (codes "content-encoding")) (codes "content-length")
        else dated

    unfoldable pub entry_from_response :
        ℕ → HeaderMap → HeaderMap → Text → Bool → ℕ → ℕ → CacheEntry H
    unfolding stored_headers vary_names vary_value
    entry_from_response status response request body decoded requested_at received_at = record {
      status = status;
      headers = stored_headers response decoded received_at;
      body = body;
      vary =
          map (λ name. (name, vary_value H request name))
            (retain is_header_name (vary_names H response));
      decoded = decoded;
      requested_at = requested_at;
      received_at = received_at;
      peer_addr = none;
    }
