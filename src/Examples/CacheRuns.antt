-- ===== src/Examples/CacheRuns.antt =====
-- The HTTP cache of src/net/cache.rs at work.
use gosub_sonar.Prelude.{
  ℕ, ◌*◌, ◌^◌, ◌≡◌, refl, true, false, not, ◌&&◌, [], ◌∷◌, none, some, codes, text_eq,
  if◌then◌else◌, is_empty, retain,
}
use gosub_sonar.Web.Headers.{values_of}
use gosub_sonar.Cache.Directives.{request_directives, response_directives}
use gosub_sonar.Cache.Entry.{CacheEntry, updated_by_304, is_kept_by_304, matches}
use gosub_sonar.Cache.Age.{is_fresh}
use gosub_sonar.Cache.Decide.{default, use_stored, use_stale, decide, latest, bypasses_cache}
use gosub_sonar.Cache.Freshness.{
  IsEntry, MayAnswer, MayAnswerStale, IsPlain, decide-use_stored, decide-use_stale,
}
use gosub_sonar.Cache.Storable.{IsFixed, updated_by_304_lem}
use gosub_sonar.Cache.Contents.{Contents, put, empty_contents}
use gosub_sonar.Cache.Budget.{Reach, new_cache, then_step, puts, IsWithin, Reach-IsWithin}
use gosub_sonar.Examples.Apis.{lines_api, decimal_dates, Lines}

abbrev second : ℕ
second = 10 ^ 9

abbrev response : Lines
response =
    (codes "date", codes "100")
    ∷ (codes "etag", codes "e")
    ∷ (codes "cache-control", codes "max-age=60, stale-while-revalidate=30")
    ∷ (codes "set-cookie", codes "k=v")
    ∷ []

abbrev request : Lines
request = (codes "accept", codes "*/*") ∷ []

abbrev entry : CacheEntry lines_api
entry = record {
  status = 200;
  headers = response;
  body = codes "hello";
  vary = [];
  decoded = false;
  requested_at = 100 * second;
  received_at = 100 * second;
  peer_addr = none;
}

stored_is_used :
    decide lines_api decimal_dates (entry ∷ []) request false default (130 * second)
    ≡ use_stored entry
unfolding decide values_of gosub_sonar.Examples.Apis.visible
stored_is_used = refl

decide-use_stored_example :
    IsEntry lines_api decimal_dates entry (entry ∷ [])
    × (matches lines_api entry request false ≡ true)
    × MayAnswer lines_api decimal_dates entry (130 * second)
    × (bypasses_cache lines_api request ≡ false)
decide-use_stored_example =
    decide-use_stored lines_api decimal_dates (entry ∷ []) request false default (130 * second)
      entry stored_is_used

stale_is_used :
    decide lines_api decimal_dates (entry ∷ []) request false default (170 * second)
    ≡ use_stale entry
unfolding decide values_of gosub_sonar.Examples.Apis.visible
stale_is_used = refl

decide-use_stale_example :
    IsEntry lines_api decimal_dates entry (entry ∷ [])
    × (matches lines_api entry request false ≡ true)
    × MayAnswerStale lines_api decimal_dates entry default (170 * second)
decide-use_stale_example =
    decide-use_stale lines_api decimal_dates (entry ∷ []) request false default (170 * second) entry
      stale_is_used

asks_nothing : IsPlain lines_api decimal_dates request
unfolding bypasses_cache values_of text_eq request_directives
asks_nothing = (refl, refl, refl, refl, refl, refl)

is_latest :
    latest lines_api decimal_dates (retain (λ x. matches lines_api x request false) (entry ∷ []))
    ≡ some entry
unfolding latest matches
is_latest = refl

is_still_fresh : is_fresh lines_api decimal_dates entry (130 * second) ≡ true
unfolding is_fresh values_of gosub_sonar.Examples.Apis.visible
is_still_fresh = refl

is_cacheable : (response_directives lines_api response).no_cache ≡ false
unfolding response_directives values_of text_eq gosub_sonar.Examples.Apis.visible
is_cacheable = refl

abbrev not_modified : Lines
not_modified = (codes "etag", codes "f") ∷ []

updated_by_304_lem_example :
    let u = updated_by_304 lines_api entry not_modified 5 6 request in
    (values_of (codes "etag") u.headers ≡ (
      if not (is_empty (values_of (codes "etag") not_modified))
        && not (is_kept_by_304 lines_api entry not_modified (codes "etag"))
      then values_of (codes "etag") not_modified
      else values_of (codes "etag") response))
    × (IsFixed lines_api entry (codes "etag")
        → values_of (codes "etag") (updated_by_304 lines_api entry not_modified 5 6 request).headers
          ≡ values_of (codes "etag") response)
    × (u.status ≡ 200)
    × (u.body ≡ codes "hello")
    × (u.requested_at ≡ 5)
    × (u.received_at ≡ 6)
updated_by_304_lem_example =
    updated_by_304_lem lines_api entry not_modified request 5 6 (codes "etag")

not_date : text_eq (codes "date") (codes "set-cookie") ≡ false
unfolding text_eq
not_date = refl

abbrev stored_once : Contents lines_api
stored_once = put lines_api 4096 2048 (codes "GET", codes "u", []) entry (empty_contents lines_api)

reached : Reach lines_api 4096 2048 stored_once
reached = then_step new_cache (puts (codes "GET", codes "u", []) entry)

Reach-IsWithin_example : IsWithin lines_api 4096 stored_once
Reach-IsWithin_example = Reach-IsWithin lines_api 4096 2048 reached
