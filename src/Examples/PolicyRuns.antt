-- ===== src/Examples/PolicyRuns.antt =====
-- The port, mixed content and referrer policies at work.
use gosub_sonar.Prelude.{
  ◌||◌, ℕ, ◌≤◌, ◌≡◌, ◌≢◌, refl, ◌⊎◌, ◌↔◌, inl, inr, Bool, true, false, List, [], ◌∷◌, ◌++◌, Option,
  none, some, Text, codes, text_eq, text_eq_iff, length, arith,
}
use gosub_sonar.Web.Urls.{host_eq, Origin, domain, tuple}
use gosub_sonar.FetchMetadata.Kinds.{RequestDestination, RequestMode}
use gosub_sonar.FetchMetadata.Rules.{origin_header_value}
use gosub_sonar.FetchMetadata.Disclosure.{Shows, origin_header_value_discloses}
use gosub_sonar.MixedContent.{
  MixedContentPolicy, MixedContentAction, allow, upgrade, block, send_as_is, evaluate_for,
  is_potentially_trustworthy, is_document, is_origin_potentially_trustworthy,
}
use gosub_sonar.MixedContent.Outcomes.{evaluate_for_trustworthy, fetched}
use gosub_sonar.Referrer.{
  ReferrerPolicy, as_str, parse_token, parse_header, determine, origin_only, strip, never_sends,
  max_referrer_len,
}
use gosub_sonar.Web.Parts.{UrlParts}
use gosub_sonar.Referrer.Limits.{
  IsBare, IsLoose, IsStrict, determine_cross_origin, determine_downgrade, never_sends_iff,
}
use gosub_sonar.Examples.Apis.{
  lines_api, Lines, same_origin, default_port, port_of, record_api, url_at, Url, url_text,
}

abbrev on_port : Url
on_port = record (url_at (codes "http") (codes "a") []) { port = some 25 }

abbrev page : Origin
page = tuple (codes "https") (domain (codes "a")) 443

abbrev picture : Url
picture = url_at (codes "http") (codes "b") (codes "/p")

abbrev secure_picture : Url
secure_picture = record picture { scheme = codes "https" }

upgrade-not_allow : upgrade ≢ allow
upgrade-not_allow e = cc e

fetches_upgraded :
    fetched record_api picture
      (evaluate_for record_api upgrade (some page) picture RequestDestination.image)
    ≡ some secure_picture
unfolding fetched evaluate_for is_origin_potentially_trustworthy
    gosub_sonar.MixedContent.is_trustworthy_scheme text_eq is_potentially_trustworthy
    gosub_sonar.MixedContent.is_loopback_host gosub_sonar.Prelude.strip_prefix is_document
    gosub_sonar.MixedContent.apply_policy
fetches_upgraded = refl

is_trustworthy_page : is_origin_potentially_trustworthy page ≡ true
unfolding is_origin_potentially_trustworthy gosub_sonar.MixedContent.is_trustworthy_scheme text_eq
is_trustworthy_page = refl

no_document : is_document RequestDestination.image ≡ false
unfolding is_document
no_document = refl

evaluate_for_trustworthy_example : is_potentially_trustworthy record_api secure_picture ≡ true
evaluate_for_trustworthy_example =
    evaluate_for_trustworthy record_api upgrade page picture secure_picture RequestDestination.image
      upgrade-not_allow is_trustworthy_page no_document fetches_upgraded

abbrev article : Url
article = record (url_at (codes "https") (codes "a") (codes "/secret")) { query = codes "?q" }

abbrev other_site : Url
other_site = url_at (codes "https") (codes "b") []

abbrev plain_site : Url
plain_site = url_at (codes "http") (codes "b") []

abbrev strict : ReferrerPolicy
strict = ReferrerPolicy.strict_origin_when_cross_origin

abbrev article_origin : Url
article_origin = url_at (codes "https") (codes "a") (codes "/")

strict-not-IsLoose : ¬ IsLoose strict
strict-not-IsLoose (inl e) = cc e
strict-not-IsLoose (inr e) = cc e

different_hosts : record_api.origin article ≢ record_api.origin other_site
unfolding same_origin host_eq text_eq default_port port_of
different_hosts e = ground (
  arith,
  (record_api.origin_eq_iff (record_api.origin article) (record_api.origin other_site)).1 e,
)

different_schemes : record_api.origin article ≢ record_api.origin plain_site
unfolding same_origin host_eq text_eq default_port port_of
different_schemes e = ground (
  arith,
  (record_api.origin_eq_iff (record_api.origin article) (record_api.origin plain_site)).1 e,
)

sends_origin : determine record_api article strict other_site ≡ some article_origin
unfolding determine strip text_eq origin_only gosub_sonar.Referrer.choose
    gosub_sonar.Examples.Apis.same_origin gosub_sonar.Referrer.is_downgrade
    is_potentially_trustworthy gosub_sonar.MixedContent.is_trustworthy_scheme
sends_origin = refl

-- A query or a fragment that is empty is none.
abbrev when_some : Text → Option Text
when_some [] = none
when_some (c ∷ t) = some (c ∷ t)

abbrev parts : UrlParts record_api
unfolding default_port
parts = record {
  username = λ u. u.credentials;
  password = λ u. none;
  query = λ u. when_some u.query;
  fragment = λ u. when_some u.fragment;
  fragment-clear_fragment = λ u. refl;
  query-clear_query = λ u. refl;
  username-clear_credentials = λ u w. refl;
  password-clear_credentials = λ u w. refl;
  path-clear_path = λ u w. refl;
  fragment-clear_credentials = λ u. refl;
  fragment-clear_path = λ u. refl;
  fragment-clear_query = λ u. refl;
  username-clear_path = λ u. refl;
  username-clear_query = λ u. refl;
  password-clear_path = λ u. refl;
  password-clear_query = λ u. refl;
  path-clear_query = λ u. refl;
  origin-clear_fragment = λ u. refl;
  origin-clear_credentials = λ u. refl;
  origin-clear_path = λ u w. refl;
  origin-clear_query = λ u. refl;
}

determine_cross_origin_example : IsBare record_api parts article article_origin
determine_cross_origin_example =
    determine_cross_origin record_api parts article other_site article_origin strict
      strict-not-IsLoose different_hosts sends_origin

strict-IsStrict : IsStrict strict
strict-IsStrict = inr (inl refl)

trusted : is_potentially_trustworthy record_api article ≡ true
unfolding is_potentially_trustworthy gosub_sonar.MixedContent.is_trustworthy_scheme text_eq
trusted = refl

untrusted : is_potentially_trustworthy record_api plain_site ≡ false
unfolding is_potentially_trustworthy gosub_sonar.MixedContent.is_trustworthy_scheme text_eq
    gosub_sonar.MixedContent.is_loopback_host gosub_sonar.Prelude.strip_prefix
untrusted = refl

determine_downgrade_example : determine record_api article strict plain_site ≡ none
determine_downgrade_example =
    determine_downgrade record_api article plain_site strict strict-IsStrict trusted untrusted
      different_schemes

never_sends_iff_example :
    (never_sends record_api article ReferrerPolicy.no_referrer ≡ true)
    ↔ ((target : Url) → determine record_api article ReferrerPolicy.no_referrer target ≡ none)
never_sends_iff_example = never_sends_iff record_api article ReferrerPolicy.no_referrer

abbrev request : Lines
request = (codes "sec-fetch-site", codes "none") ∷ (codes "accept", codes "*/*") ∷ []

named_origin :
    origin_header_value record_api page false (codes "POST") RequestMode.no_cors strict other_site
    ≡ some (codes "https://a")
unfolding origin_header_value text_eq gosub_sonar.Examples.Apis.serialized
named_origin = refl

origin-not_null : codes "https://a" ≢ codes "null"
unfolding text_eq
origin-not_null e = ground (arith, (text_eq_iff (codes "https://a") (codes "null")).1 e)

origin_header_value_discloses_example :
    (codes "https://a" ≡ record_api.ascii_serialization page)
    × (false ≡ false)
    × (RequestMode.no_cors ≢ RequestMode.cors
        → RequestMode.no_cors ≢ RequestMode.websocket
        → Shows record_api strict page other_site)
origin_header_value_discloses_example =
    origin_header_value_discloses record_api page false (codes "POST") RequestMode.no_cors strict
      other_site (codes "https://a") named_origin origin-not_null

abbrev whole_host : Text → Option Text
whole_host d = some d
