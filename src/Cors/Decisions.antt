-- ===== src/Cors/Decisions.antt =====
-- When the CORS check and the preflight validation of src/net/cors/preflight.rs say yes.
use gosub_sonar.Prelude.{
  ℕ, ◌≤◌, ◌<◌, ◌≡◌, ◌≢◌, refl, ◌⊎◌, ◌↔◌, Bool, true, false, List, [], ◌∷◌, Text, codes, text_eq,
  text_eq_iff, arith, All,
}
use gosub_sonar.Web.Headers.{HeaderApi}
use gosub_sonar.Web.Urls.{UrlApi, Origin}
use gosub_sonar.Cors.Kinds.{one_of, is_cors_safelisted_method}
use gosub_sonar.Cors.Headers.{ok}
use gosub_sonar.Cors.Check.{
  PreflightAllows, permits, permits_method, permits_headers, cors_check, check_values,
  check_allowed, credentials_allowed, serialize_origin, validate_preflight_response,
  max_preflight_max_age,
}

abbrev true_value : Text
true_value = codes "true"

-- The allow headers of a response that a request with the serialized origin may pass.
abbrev pub AllowsOrigin : Text → Bool → List Text → List Text → Type 0
AllowsOrigin serialized credentials_include allow credentials =
    ((credentials_include ≡ false) × (allow ≡ codes "*" ∷ []))
    ⊎ ((allow ≡ serialized ∷ [])
        × ((credentials_include ≡ false) ⊎ (credentials ≡ true_value ∷ [])))

abbrev pub IsMethodAllowed : PreflightAllows → Bool → Text → Type 0
IsMethodAllowed a c method =
    (one_of a.methods method ≡ true)
    ⊎ ((a.methods_wildcard ≡ true) × (c ≡ false))
    ⊎ (is_cors_safelisted_method method ≡ true)

abbrev pub IsListed : PreflightAllows → Bool → Text → Type 0
IsListed a c name =
    (one_of a.headers name ≡ true)
    ⊎ ((a.headers_wildcard ≡ true) × (c ≡ false) × (name ≢ codes "authorization"))

credentials_allowed_iff :
    (vs : List Text) → (credentials_allowed vs ≡ ok tt) ↔ (vs ≡ true_value ∷ [])
unfolding credentials_allowed
credentials_allowed_iff [] = ground arith
credentials_allowed_iff (v ∷ []) = ground (arith, text_eq_iff v true_value)
credentials_allowed_iff (v ∷ w ∷ vs) = ground arith

check_values_iff :
    (s : Text) (c : Bool) (allow credentials : List Text)
    → text_eq s (codes "*") ≡ false
    → (check_values s c allow credentials ≡ ok tt) ↔ AllowsOrigin s c allow credentials
unfolding check_values check_allowed
check_values_iff s c [] credentials h = ground arith
check_values_iff s c (allow ∷ []) credentials h = ground (
  arith,
  credentials_allowed_iff credentials,
  text_eq_iff allow (codes "*"),
  text_eq_iff s (codes "*"),
  text_eq_iff allow s,
)
check_values_iff s c (allow ∷ other ∷ more) credentials h = ground arith

permits_headers_iff :
    (a : PreflightAllows) (c : Bool) (names : List Text)
    → (permits_headers a c names ≡ ok tt) ↔ All (λ name. IsListed a c name) names
unfolding permits_headers
permits_headers_iff a c [] = (λ e. tt, λ h. refl)
permits_headers_iff a c (name ∷ names) =
    ground (arith, permits_headers_iff a c names, text_eq_iff name (codes "authorization"))

-- A request passes the grants of a preflight exactly if its method is listed, safelisted, or
-- covered by a `*` while it sends no credentials, and each of its unsafe header names is listed, or
-- covered by a `*` while it sends no credentials and the name is not `authorization`.
pub permits_iff :
    (a : PreflightAllows) (method : Text) (names : List Text) (c : Bool)
    → (permits a method names c ≡ ok tt)
      ↔ (IsMethodAllowed a c method × All (λ name. IsListed a c name) names)
unfolding permits permits_method
permits_iff a method names c = ground (arith, permits_headers_iff a c names)

module _ (H : HeaderApi) (U : UrlApi) where
  open H use {HeaderMap, get_all}

  -- The CORS check passes exactly if there is one `Access-Control-Allow-Origin` line, and it is `*`
  -- and the request is not credentialed, or it is the request's serialized origin and, for a
  -- credentialed request, the one `Access-Control-Allow-Credentials` line is `true`; provided that
  -- the origin is not serialized as `*`.
  pub cors_check_iff :
      (origin : Origin) (tainted c : Bool) (response : HeaderMap)
      → text_eq (serialize_origin H U origin tainted) (codes "*") ≡ false
      → (cors_check H U origin tainted c response ≡ ok tt)
        ↔ AllowsOrigin
            (serialize_origin H U origin tainted)
            c
            (get_all response (codes "access-control-allow-origin"))
            (get_all response (codes "access-control-allow-credentials"))
  unfolding cors_check
  cors_check_iff origin tainted c response h = check_values_iff _ c _ _ h

  -- A preflight response is accepted only with a status from 200 to 299 and a CORS check that
  -- passes, and then for two hours at most.
  pub validate_preflight_response_sound :
      (status : ℕ) (response : HeaderMap) (origin : Origin) (tainted c : Bool) (a : PreflightAllows)
      → validate_preflight_response H U status response origin tainted c ≡ ok a
      → (200 ≤ status)
        × (status < 300)
        × (cors_check H U origin tainted c response ≡ ok tt)
        × (a.max_age ≤ max_preflight_max_age)
  unfolding validate_preflight_response
  validate_preflight_response_sound status response origin tainted c a e = ground arith
