-- ===== src/Cache/Directives.antt =====
-- The `Cache-Control` directives of src/net/cache.rs, and `split_outside_quotes` of
-- src/net/utils.rs.
use gosub_sonar.Prelude.{
  ℕ, ◌^◌, Bool, true, false, not, ◌&&◌, List, [], ◌∷◌, ◌++◌, Option, none, some, ◌>>=◌, unwrap_or,
  min, Text, codes, text_eq, eq_ignore_ascii_case, if◌then◌else◌, ◌==◌, any, is_empty, is_number,
  decimal, trim, trim_matches, to_ascii_lowercase, split, split_once,
}
use gosub_sonar.Web.Headers.{HeaderApi, readable, contains_key}

abbrev push_part : ℕ → List Text → List Text
push_part c [] = (c ∷ []) ∷ []
push_part c (part ∷ parts) = (c ∷ part) ∷ parts

-- The loop of `split_outside_quotes`, from a byte on: whether it is inside quotes, and whether the
-- byte before it escapes it. The source walks over `char`s; the bytes that it looks for are ASCII,
-- and an escaped `char` of several bytes has none of them.
unfoldable pub split_from : (in_quotes escaped : Bool) → Text → List Text
split_from q e [] = [] ∷ []
split_from q true (c ∷ s) = push_part c (split_from q false s)
split_from q false (c ∷ s) =
    let escaped = split_from q true s in
    let toggled = split_from (not q) false s in
    let plain = split_from q false s in
    if c == b'\\' && q
    then push_part c escaped
    else if c == b'"'
    then push_part c toggled
    else if c == b',' && not q
    then [] ∷ plain
    else push_part c plain

unfoldable pub split_outside_quotes : Text → List Text
unfolding split_from
split_outside_quotes value = split_from false false value

abbrev pub max_delta_secs : ℕ
max_delta_secs = 2 ^ 31

unfoldable pub delta_seconds : Text → Option ℕ
unfolding trim is_number decimal
delta_seconds value =
    if is_number (trim value) then some (min (decimal (trim value)) max_delta_secs) else none

abbrev pub Directive : Type 0
Directive = Text × Option Text

unfoldable pub directive_of : Text → Directive
unfolding split_once trim trim_matches to_ascii_lowercase
directive_of part = elim (split_once b'=' part).1 [
  | some value ↦ (
    to_ascii_lowercase (trim (split_once b'=' part).0),
    some (trim_matches (λ c. c == b'"') (trim value)),
  )
  | none ↦ (to_ascii_lowercase part, none)
]

unfoldable pub directives_of : List Text → List Directive
unfolding directive_of trim
directives_of [] = []
directives_of (part ∷ parts) =
    let rest = directives_of parts in
    if is_empty (trim part) then rest else directive_of (trim part) ∷ rest

unfoldable pub all_parts : (Text → List Text) → List Text → List Text
all_parts cut [] = []
all_parts cut (v ∷ vs) = cut v ++ all_parts cut vs

pub record ResponseDirectives : Type 0 where
  pub no_store : Bool
  pub no_cache : Bool
  pub must_revalidate : Bool
  pub immutable : Bool
  pub private : Bool
  pub public : Bool
  pub must_understand : Bool
  pub max_age : Option ℕ
  pub stale_while_revalidate : Option ℕ

-- The variables of the loop of `ResponseDirectives::parse`.
pub record Reading : Type 0 where
  pub out : ResponseDirectives
  pub max_age_seen : Bool
  pub swr_seen : Bool

abbrev pub nothing_read : Reading
nothing_read = record {
  out = record {
    no_store = false;
    no_cache = false;
    must_revalidate = false;
    immutable = false;
    private = false;
    public = false;
    must_understand = false;
    max_age = none;
    stale_while_revalidate = none;
  };
  max_age_seen = false;
  swr_seen = false;
}

unfoldable pub read_response_directive : Reading → Directive → Reading
unfolding delta_seconds
read_response_directive r (name, value) =
    if text_eq name (codes "no-store")
    then record r { out = record r.out { no_store = true } }
    else if text_eq name (codes "no-cache")
    then record r { out = record r.out { no_cache = true } }
    else if text_eq name (codes "must-revalidate")
    then record r { out = record r.out { must_revalidate = true } }
    else if text_eq name (codes "immutable")
    then record r { out = record r.out { immutable = true } }
    else if text_eq name (codes "private")
    then record r { out = record r.out { private = true } }
    else if text_eq name (codes "public")
    then record r { out = record r.out { public = true } }
    else if text_eq name (codes "must-understand")
    then record r { out = record r.out { must_understand = true } }
    else if text_eq name (codes "stale-while-revalidate") && not r.swr_seen
    then record r {
      out = record r.out { stale_while_revalidate = value >>= delta_seconds };
      swr_seen = true;
    }
    else if text_eq name (codes "max-age") && not r.max_age_seen
    then record r {
      out = record r.out { max_age = some (unwrap_or (value >>= delta_seconds) 0) };
      max_age_seen = true;
    }
    else r

unfoldable pub read_response_directives : Reading → List Directive → Reading
unfolding read_response_directive
read_response_directives r [] = r
read_response_directives r (d ∷ ds) = read_response_directives (read_response_directive r d) ds

pub record RequestDirectives : Type 0 where
  pub no_store : Bool
  pub no_cache : Bool
  pub only_if_cached : Bool
  pub max_age : Option ℕ
  pub max_stale : Option (Option ℕ)
  pub min_fresh : Option ℕ

unfoldable pub read_request_directive : RequestDirectives → Directive → RequestDirectives
unfolding delta_seconds
read_request_directive out (name, value) =
    if text_eq name (codes "no-store")
    then record out { no_store = true }
    else if text_eq name (codes "no-cache")
    then record out { no_cache = true }
    else if text_eq name (codes "only-if-cached")
    then record out { only_if_cached = true }
    else if text_eq name (codes "max-age")
    then record out { max_age = value >>= delta_seconds }
    else if text_eq name (codes "max-stale")
    then record out { max_stale = some (value >>= delta_seconds) }
    else if text_eq name (codes "min-fresh")
    then record out { min_fresh = value >>= delta_seconds }
    else out

unfoldable pub read_request_directives : RequestDirectives → List Directive → RequestDirectives
unfolding read_request_directive
read_request_directives out [] = out
read_request_directives out (d ∷ ds) = read_request_directives (read_request_directive out d) ds

module _ (H : HeaderApi) where
  open H use {HeaderMap, get_all}

  unfoldable pub directives : HeaderMap → List Directive
  unfolding directives_of all_parts split_outside_quotes
  directives headers =
      directives_of
        (all_parts split_outside_quotes (readable H (get_all headers (codes "cache-control"))))

  unfoldable pub response_directives : HeaderMap → ResponseDirectives
  unfolding directives read_response_directives
  response_directives headers = (read_response_directives nothing_read (directives headers)).out

  -- `Pragma: no-cache` on a request without `Cache-Control`.
  unfoldable pub pragma_no_cache : HeaderMap → Bool
  unfolding all_parts split eq_ignore_ascii_case trim
  pragma_no_cache headers =
      not (contains_key H headers (codes "cache-control"))
      && any (λ d. eq_ignore_ascii_case (trim d) (codes "no-cache"))
          (all_parts (split b',') (readable H (get_all headers (codes "pragma"))))

  unfoldable pub request_directives : HeaderMap → RequestDirectives
  unfolding directives read_request_directives pragma_no_cache
  request_directives headers =
      read_request_directives
        record {
          no_store = false;
          no_cache = pragma_no_cache headers;
          only_if_cached = false;
          max_age = none;
          max_stale = none;
          min_fresh = none;
        }
        (directives headers)
