-- ===== src/FetchMetadata/Rules.antt =====
-- The site of a hop, its `Sec-Fetch-*` headers and its `Origin` header, src/net/fetch_metadata.rs.
use gosub_sonar.Prelude.{
  Bool, true, false, not, ◌&&◌, ◌||◌, Option, none, some, Text, codes, text_eq, if◌then◌else◌,
}
use gosub_sonar.Web.Headers.{HeaderApi}
use gosub_sonar.Web.Urls.{UrlApi, Host, domain, host_eq, Origin, opaque, tuple}
use gosub_sonar.MixedContent.{is_potentially_trustworthy}
use gosub_sonar.Referrer.{ReferrerPolicy}
use gosub_sonar.FetchMetadata.Kinds.{
  RequestDestination, is_navigation, destination_str, RequestMode, mode_str, SecFetchSite, site_str,
}

unfoldable pub is_cors : RequestMode → Bool
is_cors RequestMode.cors = true
is_cors _ = false

unfoldable pub is_websocket : RequestMode → Bool
is_websocket RequestMode.websocket = true
is_websocket _ = false

unfoldable pub same_domain : Option Text → Option Text → Bool
same_domain (some a) (some b) = text_eq a b
same_domain _ _ = false

-- The `match` on the referrer policy.
unfoldable pub cloaked : ReferrerPolicy → (leaves_https crosses : Bool) → Bool
cloaked ReferrerPolicy.no_referrer leaves_https crosses = true
cloaked ReferrerPolicy.no_referrer_when_downgrade leaves_https crosses = leaves_https
cloaked ReferrerPolicy.strict_origin leaves_https crosses = leaves_https
cloaked ReferrerPolicy.strict_origin_when_cross_origin leaves_https crosses = leaves_https
cloaked ReferrerPolicy.same_origin leaves_https crosses = crosses
cloaked ReferrerPolicy.origin leaves_https crosses = false
cloaked ReferrerPolicy.origin_when_cross_origin leaves_https crosses = false
cloaked ReferrerPolicy.unsafe_url leaves_https crosses = false

-- `registrable_domain` is `psl::domain_str`.
module _ (registrable_domain : Text → Option Text) where
  unfoldable pub same_site_host : Host → Host → Bool
  unfolding same_domain host_eq
  same_site_host (domain a) (domain b) =
      if text_eq a b then true else same_domain (registrable_domain a) (registrable_domain b)
  same_site_host a b = host_eq a b

  module _ (U : UrlApi) where
    open U use {Url, origin as url_origin, origin_eq}

    unfoldable pub classify_tuples : Origin → Origin → SecFetchSite
    unfolding same_site_host
    classify_tuples (tuple s1 h1 p1) (tuple s2 h2 p2) =
        if text_eq s1 s2 && same_site_host h1 h2
        then SecFetchSite.same_site
        else SecFetchSite.cross_site
    classify_tuples _ _ = SecFetchSite.cross_site

    unfoldable pub classify_site : Origin → Url → SecFetchSite
    unfolding classify_tuples
    classify_site initiator target =
        if origin_eq initiator (url_origin target)
        then SecFetchSite.same_origin
        else classify_tuples initiator (url_origin target)

abbrev pub sec_fetch_dest : Text
sec_fetch_dest = codes "sec-fetch-dest"

abbrev pub sec_fetch_mode : Text
sec_fetch_mode = codes "sec-fetch-mode"

abbrev pub sec_fetch_site : Text
sec_fetch_site = codes "sec-fetch-site"

abbrev pub sec_fetch_user : Text
sec_fetch_user = codes "sec-fetch-user"

module _ (H : HeaderApi) (U : UrlApi) where
  open H use {HeaderMap, insert, remove}
  open U use {Url}

  unfoldable pub apply_sec_fetch_headers :
      HeaderMap → Url → RequestDestination → RequestMode → SecFetchSite → Bool → HeaderMap
  unfolding destination_str mode_str site_str is_navigation
  apply_sec_fetch_headers headers target destination mode site user_activated =
      if not (is_potentially_trustworthy U target)
      then remove (remove (remove (remove headers sec_fetch_dest) sec_fetch_mode) sec_fetch_site)
          sec_fetch_user
      else let with_three =
          insert
            (insert (insert headers sec_fetch_dest (destination_str destination)) sec_fetch_mode
              (mode_str mode))
            sec_fetch_site (site_str site) in
        if is_navigation destination && user_activated
        then insert with_three sec_fetch_user (codes "?1")
        else remove with_three sec_fetch_user

module _ (U : UrlApi) where
  open U use {Url, scheme, origin as url_origin, origin_eq, ascii_serialization}

  unfoldable pub origin_needed : Origin → Bool → Text → RequestMode → Url → Bool
  unfolding is_websocket is_cors
  origin_needed initiator tainted method mode target =
      not (text_eq method (codes "GET") || text_eq method (codes "HEAD"))
      || is_websocket mode
      || (is_cors mode && (tainted || not (origin_eq initiator (url_origin target))))

  -- The value for an initiator that is a tuple with this scheme.
  unfoldable pub capped_origin : Text → Origin → RequestMode → ReferrerPolicy → Url → Text
  unfolding cloaked is_websocket is_cors
  capped_origin s initiator mode policy target =
      if not (is_cors mode || is_websocket mode)
        && cloaked policy
            (text_eq s (codes "https") && not (text_eq (scheme target) (codes "https")))
            (not (origin_eq initiator (url_origin target)))
      then codes "null"
      else ascii_serialization initiator

  unfoldable pub tuple_origin : Origin → RequestMode → ReferrerPolicy → Url → Text
  unfolding capped_origin
  tuple_origin (opaque n) mode policy target = codes "null"
  tuple_origin (tuple s h p) mode policy target = capped_origin s (tuple s h p) mode policy target

  unfoldable pub origin_header_value :
      Origin → Bool → Text → RequestMode → ReferrerPolicy → Url → Option Text
  unfolding origin_needed tuple_origin
  origin_header_value initiator tainted method mode policy target =
      if not (origin_needed initiator tainted method mode target)
      then none
      else if tainted
      then some (codes "null")
      else some (tuple_origin initiator mode policy target)
