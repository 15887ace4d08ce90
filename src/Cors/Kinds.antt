-- ===== src/Cors/Kinds.antt =====
-- The errors, the response tainting and the safelist predicates of src/net/cors.rs. Methods and
-- header names are text; header values are bytes.
use gosub_sonar.Prelude.{
  ℕ, Bool, true, false, not, ◌&&◌, ◌||◌, List, [], ◌∷◌, Option, none, some, Text, codes, text_eq,
  eq_ignore_ascii_case, if◌then◌else◌, ◌==◌, ltb, length, is_empty, any, all, in_range, is_digit,
  strip_prefix, split_once, trim, trim_matches, trim_start_matches, to_ascii_lowercase, split,
  is_some,
}

pub data CorsError : Type 0 where
  missing_allow_origin origin_mismatch wildcard_with_credentials credentials_not_allowed : CorsError
  same_origin_mode unsafe_method_for_no_cors unsafe_header_for_no_cors preflight_status : CorsError
  preflight_invalid_response preflight_method_rejected preflight_header_rejected : CorsError
  credentialed_redirect : CorsError

pub data ResponseTainting : Type 0 where
  basic cors opaque : ResponseTainting

-- Whether a text is one of a list of literals.
unfoldable pub one_of : List Text → Text → Bool
one_of [] t = false
one_of (s ∷ ss) t = text_eq t s || one_of ss t

unfoldable pub is_cors_safelisted_method : Text → Bool
unfolding one_of
is_cors_safelisted_method method = one_of (codes "GET" ∷ codes "HEAD" ∷ codes "POST" ∷ []) method

unfoldable pub is_cors_unsafe_header_byte : ℕ → Bool
is_cors_unsafe_header_byte b =
    ltb b 9
    || in_range 0x0a 0x1f b
    || b == 0x22
    || b == 0x28
    || b == 0x29
    || b == 0x3a
    || b == 0x3c
    || b == 0x3e
    || b == 0x3f
    || b == 0x40
    || in_range 0x5b 0x5d b
    || b == 0x7b
    || b == 0x7d
    || b == 0x7f

unfoldable pub is_language_byte : ℕ → Bool
is_language_byte b =
    in_range 0x30 0x39 b
    || in_range 0x41 0x5a b
    || in_range 0x61 0x7a b
    || b == 0x20
    || b == 0x2a
    || b == 0x2c
    || b == 0x2d
    || b == 0x2e
    || b == 0x3b
    || b == 0x3d

-- Byte strings in lexicographic order.
unfoldable pub text_gt : Text → Text → Bool
text_gt [] t = false
text_gt (a ∷ s) [] = true
text_gt (a ∷ s) (b ∷ t) = ltb b a || (a == b && text_gt s t)

unfoldable pub decimal_greater : Text → Text → Bool
unfolding trim_start_matches text_gt
decimal_greater a b =
    let a' = trim_start_matches (λ c. c == b'0') a in
    let b' = trim_start_matches (λ c. c == b'0') b in
    ltb (length b') (length a') || (length a' == length b' && text_gt a' b')

-- The part of a `Content-Type` before the first `;`.
unfoldable pub essence : Text → Text
unfolding split_once trim_matches to_ascii_lowercase
essence value =
    to_ascii_lowercase (trim_matches (λ c. c == b' ' || c == 9) (split_once b';' value).0)

-- `m-n` or `m-`. The source first checks that the bytes are UTF-8; bytes that are not have one that
-- is no digit, so the answer is the same.
unfoldable pub is_single_range : Text → Bool
unfolding split_once is_digit decimal_greater
is_single_range rest = elim (split_once b'-' rest).1 [
  | none ↦ false
  | some end ↦
      let start = (split_once b'-' rest).0 in
      not (is_empty start)
      && all is_digit start
      && all is_digit end
      && (is_empty end || not (decimal_greater start end))
]

unfoldable pub is_safe_range : Text → Bool
unfolding strip_prefix is_single_range
is_safe_range value = elim (strip_prefix (codes "bytes=") value) [
  | none ↦ false
  | some rest ↦ is_single_range rest
]

unfoldable pub is_cors_safelisted_request_header : Text → Text → Bool
unfolding is_cors_unsafe_header_byte is_language_byte essence is_safe_range one_of
is_cors_safelisted_request_header name value =
    if ltb 128 (length value)
    then false
    else if text_eq name (codes "accept")
    then not (any is_cors_unsafe_header_byte value)
    else if one_of (codes "accept-language" ∷ codes "content-language" ∷ []) name
    then all is_language_byte value
    else if text_eq name (codes "content-type")
    then not (any is_cors_unsafe_header_byte value)
      && one_of
          (codes "application/x-www-form-urlencoded"
            ∷ codes "multipart/form-data"
            ∷ codes "text/plain"
            ∷ [])
          (essence value)
    else if text_eq name (codes "range")
    then is_safe_range value
    else false

abbrev pub forbidden_names : List Text
forbidden_names =
    codes "accept-charset"
    ∷ codes "accept-encoding"
    ∷ codes "access-control-request-headers"
    ∷ codes "access-control-request-method"
    ∷ codes "connection"
    ∷ codes "content-length"
    ∷ codes "cookie"
    ∷ codes "cookie2"
    ∷ codes "date"
    ∷ codes "dnt"
    ∷ codes "expect"
    ∷ codes "host"
    ∷ codes "keep-alive"
    ∷ codes "origin"
    ∷ codes "referer"
    ∷ codes "set-cookie"
    ∷ codes "te"
    ∷ codes "trailer"
    ∷ codes "transfer-encoding"
    ∷ codes "upgrade"
    ∷ codes "via"
    ∷ []

unfoldable pub is_forbidden_request_header : Text → Bool
unfolding one_of strip_prefix
is_forbidden_request_header name =
    is_some (strip_prefix (codes "proxy-") name)
    || is_some (strip_prefix (codes "sec-") name)
    || one_of forbidden_names name

unfoldable pub is_forbidden_method : Text → Bool
unfolding eq_ignore_ascii_case
is_forbidden_method method =
    any (λ m. eq_ignore_ascii_case m method) (codes "CONNECT" ∷ codes "TRACE" ∷ codes "TRACK" ∷ [])

-- `lossy` is `String::from_utf8_lossy`; `method_from_bytes` is `http::Method::from_bytes`.
module _ (lossy : Text → Text) (method_from_bytes : Text → Option Text) where
  abbrev names_forbidden : Text → Bool
  names_forbidden token = elim (method_from_bytes (trim token)) [
    | none ↦ false
    | some method ↦ is_forbidden_method method
  ]

  unfoldable pub is_forbidden_request_header_value : Text → Text → Bool
  unfolding is_forbidden_request_header one_of split
  is_forbidden_request_header_value name value =
      if is_forbidden_request_header name
      then true
      else one_of
          (codes "x-http-method" ∷ codes "x-http-method-override" ∷ codes "x-method-override" ∷ [])
          name
        && any names_forbidden (split b',' (lossy value))
