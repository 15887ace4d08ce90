-- ===== src/Examples/CorsRuns.antt =====
-- The CORS checks of src/net/cors.rs and src/net/cors/preflight.rs at work.
use gosub_sonar.Prelude.{
  ℕ, ◌+◌, ◌≤◌, ◌<◌, ◌≡◌, refl, ◌↔◌, Bool, true, false, ◌&&◌, List, [], ◌∷◌, Option, none, some,
  Text, codes, text_eq, any, ltb, length, arith, All,
}
use gosub_sonar.Web.Headers.{values_of}
use gosub_sonar.Web.Urls.{Origin, domain, tuple}
use gosub_sonar.Cors.Kinds.{one_of, ResponseTainting}
use gosub_sonar.Cors.Headers.{
  Result, ok, unsafe_request_header_names, max_safelisted_value_bytes, readable_headers,
  is_cookie_header,
}
use gosub_sonar.Cors.Check.{
  PreflightAllows, permits, cors_check, serialize_origin, validate_preflight_response,
}
use gosub_sonar.Cors.Decisions.{
  AllowsOrigin, IsMethodAllowed, IsListed, permits_iff, cors_check_iff,
}
use gosub_sonar.Cors.Names.{unsafe_request_header_names_lem, safe_bytes, must_ask}
use gosub_sonar.Cors.Readable.{readable_headers-cookies}
use gosub_sonar.Cors.Grants.{Grants, put}
use gosub_sonar.Examples.Apis.{lines_api, record_api, url_at, Url, Lines, serialized, url_text}

abbrev origin : Origin
origin = tuple (codes "https") (domain (codes "a")) 443

abbrev response : Lines
response =
    (codes "access-control-allow-origin", codes "https://a")
    ∷ (codes "set-cookie", codes "k=v")
    ∷ (codes "etag", codes "e")
    ∷ (codes "access-control-allow-methods", codes "PUT")
    ∷ []

no_star : text_eq (serialize_origin lines_api record_api origin false) (codes "*") ≡ false
unfolding text_eq serialize_origin serialized
no_star = refl

cors_check_iff_example :
    (cors_check lines_api record_api origin false false response ≡ ok tt)
    ↔ AllowsOrigin
        (serialize_origin lines_api record_api origin false)
        false
        (values_of (codes "access-control-allow-origin") response)
        (values_of (codes "access-control-allow-credentials") response)
cors_check_iff_example = cors_check_iff lines_api record_api origin false false response no_star

abbrev allows : PreflightAllows
allows = record {
  methods = codes "PUT" ∷ [];
  methods_wildcard = false;
  headers = [];
  headers_wildcard = false;
  max_age = 5;
}

permits_iff_example : (permits allows (codes "PUT") (codes "x-a" ∷ []) true ≡ ok tt) ↔ (
    IsMethodAllowed allows true (codes "PUT")
    × All (λ name. IsListed allows true name) (codes "x-a" ∷ []))
permits_iff_example = permits_iff allows (codes "PUT") (codes "x-a" ∷ []) true

accepted :
    validate_preflight_response lines_api record_api 204 response origin false false ≡ ok allows
unfolding validate_preflight_response values_of text_eq serialized gosub_sonar.Examples.Apis.visible
    gosub_sonar.Prelude.split gosub_sonar.Cors.Headers.is_token
accepted = refl

abbrev asking : Lines
asking = (codes "x-a", codes "1") ∷ (codes "accept", codes "*/*") ∷ []

unsafe_request_header_names_lem_example :
    one_of (unsafe_request_header_names lines_api asking) (codes "x-a")
    ≡ any
        (λ line.
          text_eq (codes "x-a") line.0
          && must_ask (ltb max_safelisted_value_bytes (safe_bytes asking)) line)
        asking
unsafe_request_header_names_lem_example =
    unsafe_request_header_names_lem lines_api asking (codes "x-a")

is_cookie : is_cookie_header lines_api (codes "set-cookie") ≡ true
unfolding is_cookie_header text_eq
is_cookie = refl

readable_headers-cookies_example :
    values_of (codes "set-cookie") (readable_headers lines_api ResponseTainting.basic response true)
    ≡ []
readable_headers-cookies_example =
    readable_headers-cookies lines_api ResponseTainting.basic response true (codes "set-cookie")
      is_cookie

abbrev target : Url
target = url_at (codes "https") (codes "b") (codes "/p")

abbrev at_part : Url
at_part = record target { fragment = codes "#part" }

abbrev granted : Grants
granted = put record_api (codes "https://a") target true allows 4 []
