-- ===== src/Cors/Check.antt =====
-- The CORS check and the validation of preflight responses, src/net/cors/preflight.rs. A
-- `Duration` is its whole seconds.
use gosub_sonar.Prelude.{
  ℕ, ◌*◌, Bool, true, false, not, ◌&&◌, ◌||◌, List, [], ◌∷◌, ◌++◌, Option, none, some, min, Text,
  codes, text_eq, if◌then◌else◌, ◌==◌, leb, ltb, is_empty, in_range, is_number, trim_matches,
  parse_u64_saturating,
}
use gosub_sonar.Web.Headers.{HeaderApi}
use gosub_sonar.Web.Urls.{UrlApi, Origin}
use gosub_sonar.Cors.Kinds.{
  missing_allow_origin, origin_mismatch, wildcard_with_credentials, credentials_not_allowed,
  preflight_status, preflight_method_rejected, preflight_header_rejected, one_of,
  is_cors_safelisted_method,
}
use gosub_sonar.Cors.Headers.{Result, ok, err, ◌>>=◌, parse_token_list, Checked}

pub record PreflightAllows : Type 0 where
  pub methods : List Text
  pub methods_wildcard : Bool
  pub headers : List Text
  pub headers_wildcard : Bool
  pub max_age : ℕ

abbrev pub default_preflight_max_age : ℕ
default_preflight_max_age = 5

abbrev pub max_preflight_max_age : ℕ
max_preflight_max_age = 2 * 60 * 60

-- The loop of `permits`.
unfoldable pub permits_headers : PreflightAllows → Bool → List Text → Checked
unfolding one_of
permits_headers allows credentials_include [] = ok tt
permits_headers allows credentials_include (name ∷ names) =
    let listed = one_of allows.headers name in
    let wildcard_ok =
      allows.headers_wildcard
      && not credentials_include
      && not (text_eq name (codes "authorization")) in
    let rest = permits_headers allows credentials_include names in
    if not listed && not wildcard_ok then err preflight_header_rejected else rest

unfoldable pub permits_method : PreflightAllows → Bool → Text → Bool
unfolding one_of is_cors_safelisted_method
permits_method allows credentials_include method =
    one_of allows.methods method
    || (allows.methods_wildcard && not credentials_include)
    || is_cors_safelisted_method method

unfoldable pub permits : PreflightAllows → Text → List Text → Bool → Checked
unfolding permits_method permits_headers
permits allows method unsafe_header_names credentials_include =
    if not (permits_method allows credentials_include method)
    then err preflight_method_rejected
    else permits_headers allows credentials_include unsafe_header_names

-- `[u8]::trim_ascii`.
unfoldable pub trim_ascii : Text → Text
unfolding trim_matches
trim_ascii value = trim_matches (λ c. c == 32 || in_range 9 10 c || in_range 12 13 c) value

unfoldable pub max_age_of : List Text → ℕ
unfolding trim_ascii is_number parse_u64_saturating
max_age_of (value ∷ []) =
    if is_number (trim_ascii value)
    then parse_u64_saturating (trim_ascii value)
    else default_preflight_max_age
max_age_of _ = default_preflight_max_age

-- `unsafe_header_names.join(",")`.
unfoldable pub join : List Text → Text
join [] = []
join (t ∷ []) = t
join (t ∷ s ∷ ss) = t ++ (codes "," ++ join (s ∷ ss))

unfoldable pub credentials_allowed : List Text → Checked
credentials_allowed (v ∷ []) =
    if text_eq v (codes "true") then ok tt else err credentials_not_allowed
credentials_allowed _ = err credentials_not_allowed

-- The check on the one value of `Access-Control-Allow-Origin`, and the values of
-- `Access-Control-Allow-Credentials`.
unfoldable pub check_allowed : Text → Bool → Text → List Text → Checked
unfolding credentials_allowed
check_allowed serialized credentials_include allow credentials =
    if text_eq allow (codes "*")
    then (if credentials_include then err wildcard_with_credentials else ok tt)
    else if not (text_eq allow serialized)
    then err origin_mismatch
    else if not credentials_include
    then ok tt
    else credentials_allowed credentials

unfoldable pub check_values : Text → Bool → List Text → List Text → Checked
unfolding check_allowed
check_values serialized credentials_include [] credentials = err missing_allow_origin
check_values serialized credentials_include (allow ∷ []) credentials =
    check_allowed serialized credentials_include allow credentials
check_values serialized credentials_include (allow ∷ other ∷ more) credentials = err origin_mismatch

module _ (H : HeaderApi) where
  open H use {HeaderMap, get_all, empty, insert}

  unfoldable pub preflight_max_age : HeaderMap → ℕ
  unfolding max_age_of
  preflight_max_age response = max_age_of (get_all response (codes "access-control-max-age"))

  -- `from_str` is `str::parse::<HeaderValue>`, which takes visible text.
  unfoldable pub insert_parsed : (Text → Option Text) → HeaderMap → Text → Text → HeaderMap
  insert_parsed from_str headers name text = elim (from_str text) [
    | none ↦ headers
    | some value ↦ insert headers name value
  ]

  unfoldable pub preflight_request_headers : (Text → Option Text) → Text → List Text → HeaderMap
  unfolding insert_parsed join
  preflight_request_headers from_str method unsafe_header_names =
      let accept = insert empty (codes "accept") (codes "*/*") in
      let with_method =
        insert_parsed from_str accept (codes "access-control-request-method") method in
      if is_empty unsafe_header_names
      then with_method
      else insert_parsed from_str with_method (codes "access-control-request-headers")
          (join unsafe_header_names)

  module _ (U : UrlApi) where
    open U use {ascii_serialization}

    unfoldable pub serialize_origin : Origin → Bool → Text
    serialize_origin origin tainted = if tainted then codes "null" else ascii_serialization origin

    unfoldable pub cors_check : Origin → Bool → Bool → HeaderMap → Checked
    unfolding serialize_origin check_values
    cors_check origin tainted credentials_include response =
        check_values (serialize_origin origin tainted) credentials_include
          (get_all response (codes "access-control-allow-origin"))
          (get_all response (codes "access-control-allow-credentials"))

    unfoldable pub validate_preflight_response :
        ℕ → HeaderMap → Origin → Bool → Bool → Result PreflightAllows
    unfolding cors_check parse_token_list preflight_max_age
    validate_preflight_response status response origin tainted credentials_include =
        if not (leb 200 status && ltb status 300)
        then err preflight_status
        else cors_check origin tainted credentials_include response >>= λ _.
            parse_token_list H response (codes "access-control-allow-methods") false >>= λ methods.
            parse_token_list H response (codes "access-control-allow-headers") true >>= λ headers.
            ok record {
              methods = methods.0;
              methods_wildcard = methods.1;
              headers = headers.0;
              headers_wildcard = headers.1;
              max_age = min (preflight_max_age response) max_preflight_max_age;
            }
