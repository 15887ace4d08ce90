-- ===== src/Cors/Headers.antt =====
-- The header lists of src/net/cors.rs: what a preflight must ask for, the allow lists, and the
-- headers that scripts may read.
use gosub_sonar.Prelude.{
  ℕ, ◌+◌, Bool, true, false, not, ◌&&◌, ◌||◌, List, [], ◌∷◌, ◌++◌, none, some, Text, codes, text_eq,
  if◌then◌else◌, ◌==◌, ltb, length, is_empty, any, all, is_alphanumeric, trim_matches,
  to_ascii_lowercase, split,
}
use gosub_sonar.Web.Headers.{HeaderApi}
use gosub_sonar.Cors.Kinds.{
  CorsError, preflight_invalid_response, ResponseTainting, basic, cors, opaque, one_of, text_gt,
  is_cors_safelisted_method, is_cors_safelisted_request_header, is_forbidden_request_header,
}

abbrev pub max_safelisted_value_bytes : ℕ
max_safelisted_value_bytes = 1024

-- The variables of the loop of `unsafe_request_header_names`, with the latest name first.
pub record Collected : Type 0 where
  pub names : List Text
  pub safelisted : List Text
  pub safelisted_bytes : ℕ

unfoldable pub collect : Collected → List (Text × Text) → Collected
collect c [] = c
collect c ((name, value) ∷ lines) =
    collect
      (if is_forbidden_request_header name
        then c
        else if is_cors_safelisted_request_header name value
        then record c {
          safelisted = name ∷ c.safelisted;
          safelisted_bytes = c.safelisted_bytes + length value;
        }
        else record c { names = name ∷ c.names })
      lines

-- `sort_unstable`: equal names are the same text, so every sort gives this list.
unfoldable pub insert_sorted : Text → List Text → List Text
insert_sorted t [] = t ∷ []
insert_sorted t (s ∷ ss) = if text_gt t s then s ∷ insert_sorted t ss else t ∷ s ∷ ss

unfoldable pub sort : List Text → List Text
unfolding insert_sorted
sort [] = []
sort (t ∷ ts) = insert_sorted t (sort ts)

-- `dedup`: of neighbours that are equal one stays.
unfoldable pub dedup : List Text → List Text
dedup [] = []
dedup (t ∷ []) = t ∷ []
dedup (t ∷ s ∷ ss) = let rest = dedup (s ∷ ss) in if text_eq t s then rest else t ∷ rest

abbrev pub nothing_collected : Collected
nothing_collected = record { names = []; safelisted = []; safelisted_bytes = 0 }

unfoldable pub names_to_ask : Collected → List Text
names_to_ask c =
    if ltb max_safelisted_value_bytes c.safelisted_bytes then c.names ++ c.safelisted else c.names

unfoldable pub is_token_byte : ℕ → Bool
unfolding is_alphanumeric
is_token_byte b = is_alphanumeric b || any (λ c. b == c) (codes "!#$%&'*+-.^_`|~")

unfoldable pub is_token : Text → Bool
unfolding is_token_byte
is_token item = all is_token_byte item

pub data Result {ℓ} (A : Type ℓ) : Type ℓ where
  ok : A → Result A
  err : CorsError → Result A

-- `Result<(), CorsError>`.
abbrev pub Checked : Type 0
Checked = Result {0} Unit

infixl 5 ◌>>=◌
abbrev pub ◌>>=◌ {ℓ κ} : {A : Type ℓ} {B : Type κ} → Result A → (A → Result B) → Result B
ok a >>= f = f a
err e >>= f = err e

-- The items of an allow list, and whether `*` was among them.
abbrev pub TokenList : Type 0
TokenList = List Text × Bool

-- One item, in front of the ones behind it. The source stops at the first item that is no token;
-- whichever stops it, the error is the same.
unfoldable pub add_item : Bool → Text → Result TokenList → Result TokenList
add_item lowercase item (err e) = err e
add_item lowercase item (ok (items, wildcard)) =
    if is_empty item
    then ok (items, wildcard)
    else if text_eq item (codes "*")
    then ok (items, true)
    else if is_token item
    then ok ((if lowercase then to_ascii_lowercase item else item) ∷ items, wildcard)
    else err preflight_invalid_response

unfoldable pub add_items : Bool → List Text → Result TokenList → Result TokenList
unfolding add_item trim_matches
add_items lowercase [] rest = rest
add_items lowercase (item ∷ items) rest =
    add_item lowercase (trim_matches (λ c. c == b' ' || c == 9) item)
      (add_items lowercase items rest)

module _ (H : HeaderApi) where
  open H use {HeaderMap, get_all, iter, empty, append, to_str}

  unfoldable pub unsafe_request_header_names : HeaderMap → List Text
  unfolding collect names_to_ask sort dedup
  unsafe_request_header_names headers =
      dedup (sort (names_to_ask (collect nothing_collected (iter headers))))

  unfoldable pub preflight_needed : Text → HeaderMap → Bool
  unfolding unsafe_request_header_names is_cors_safelisted_method
  preflight_needed method headers =
      not (is_cors_safelisted_method method) || not (is_empty (unsafe_request_header_names headers))

  unfoldable pub parse_values : Bool → List Text → Result TokenList
  unfolding add_items
  parse_values lowercase [] = ok ([], false)
  parse_values lowercase (value ∷ values) = elim (to_str value) [
    | none ↦ err preflight_invalid_response
    | some s ↦ add_items lowercase (split b',' s) (parse_values lowercase values)
  ]

  unfoldable pub parse_token_list : HeaderMap → Text → Bool → Result TokenList
  unfolding parse_values
  parse_token_list response name lowercase = parse_values lowercase (get_all response name)

  unfoldable pub is_cookie_header : Text → Bool
  unfolding one_of
  is_cookie_header name = one_of (codes "set-cookie" ∷ codes "set-cookie2" ∷ []) name

  abbrev pub safelisted_response_headers : List Text
  safelisted_response_headers =
      codes "cache-control"
      ∷ codes "content-language"
      ∷ codes "content-length"
      ∷ codes "content-type"
      ∷ codes "expires"
      ∷ codes "last-modified"
      ∷ codes "pragma"
      ∷ []

  -- The loops of `readable_headers`: the lines whose name passes, appended to `out`.
  unfoldable pub keep_lines : (Text → Bool) → HeaderMap → List (Text × Text) → HeaderMap
  keep_lines keep out [] = out
  keep_lines keep out ((name, value) ∷ lines) =
      keep_lines keep (if keep name then append out name value else out) lines

  unfoldable pub is_exposed : List Text → Text → Bool
  unfolding one_of is_cookie_header
  is_exposed exposed name =
      one_of safelisted_response_headers name
      || (one_of exposed name && not (is_cookie_header name))

  unfoldable pub exposed_headers : HeaderMap → TokenList
  unfolding parse_token_list
  exposed_headers headers =
      elim (parse_token_list headers (codes "access-control-expose-headers") true) [
        | ok list ↦ list
        | err e ↦ ([], false)
      ]

  unfoldable pub readable_headers : ResponseTainting → HeaderMap → Bool → HeaderMap
  unfolding keep_lines
  readable_headers basic headers credentials_include =
      keep_lines (λ n. not (is_cookie_header n)) empty (iter headers)
  readable_headers opaque headers credentials_include = empty
  readable_headers cors headers credentials_include =
      let list = exposed_headers headers in
      if list.1 && not credentials_include
      then keep_lines (λ n. not (is_cookie_header n)) empty (iter headers)
      else keep_lines (is_exposed list.0) empty (iter headers)
