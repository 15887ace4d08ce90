-- ===== src/Cache/Entry.antt =====
-- `CacheEntry` of src/net/cache.rs: its `Vary` selection, its validators, and its update by a
-- `304`.
use gosub_sonar.Prelude.{
  ℕ, ◌+◌, ◌*◌, ◌^◌, Bool, true, false, not, ◌&&◌, ◌||◌, List, [], ◌∷◌, ◌++◌, Option, none, some,
  ◌>>=◌, unwrap_or, is_some, Text, codes, text_eq, if◌then◌else◌, ◌==◌, any, all, retain, map,
  length, is_empty, is_number, decimal, ltb, trim, strip_prefix, split, to_ascii_lowercase,
}
use gosub_sonar.Web.Headers.{HeaderApi, get, contains_key, readable}
use gosub_sonar.Cache.Directives.{all_parts, split_outside_quotes}

-- A name of `Vary` and the value that the request had for it.
abbrev pub Selector : Type 0
Selector = Text × Option Text

abbrev pub heuristic_max_secs : ℕ
heuristic_max_secs = 24 * 60 * 60

abbrev pub hop_by_hop : List Text
hop_by_hop =
    codes "connection"
    ∷ codes "proxy-authenticate"
    ∷ codes "proxy-authorization"
    ∷ codes "te"
    ∷ codes "trailer"
    ∷ codes "transfer-encoding"
    ∷ codes "upgrade"
    ∷ []

unfoldable pub among : List Text → Text → Bool
among names n = any (λ m. text_eq m n) names

unfoldable pub joined : Text → List Text → Text
joined separator [] = []
joined separator (t ∷ []) = t
joined separator (t ∷ s ∷ ss) = t ++ (separator ++ joined separator (s ∷ ss))

unfoldable pub normalize_list : Text → Text
unfolding split_outside_quotes joined trim
normalize_list value =
    joined (codes ", ") (retain (λ e. not (is_empty e)) (map trim (split_outside_quotes value)))

-- Each text once, where it occurs first.
unfoldable pub distinct : List Text → List Text
distinct [] = []
distinct (t ∷ ts) = t ∷ retain (λ u. not (text_eq t u)) (distinct ts)

-- `Option<&str>`, compared.
unfoldable pub same_value : Option Text → Option Text → Bool
same_value none none = true
same_value (some s) (some t) = text_eq s t
same_value _ _ = false

abbrev map_value : Option Text → Option Text
map_value none = none
map_value (some v) = some (normalize_list v)

-- `tag.strip_prefix("W/").unwrap_or(tag)`, and `starts_with("W/")`.
unfoldable pub opaque_tag : Text → Text
unfolding strip_prefix
opaque_tag tag = unwrap_or (strip_prefix (codes "W/") tag) tag

unfoldable pub is_weak : Text → Bool
unfolding strip_prefix
is_weak tag = is_some (strip_prefix (codes "W/") tag)

-- The `match` of `contradicted_by` on two `ETag`s and two `Last-Modified`s.
unfoldable pub contradicts : (etag sent_etag modified sent_modified : Option Text) → Bool → Bool
unfolding is_weak opaque_tag
contradicts (some stored) (some sent) modified sent_modified revalidatable =
    if is_weak sent
    then not (text_eq (opaque_tag stored) (opaque_tag sent))
    else is_weak stored || not (text_eq stored sent)
contradicts none (some sent) modified sent_modified revalidatable = true
contradicts etag none (some stored) (some sent) revalidatable = not (text_eq stored sent)
contradicts etag none none (some sent) revalidatable = true
contradicts etag none modified none revalidatable = revalidatable

module _ (H : HeaderApi) where
  open H use {HeaderMap, get_all, iter, empty, append, insert, remove, to_str, is_header_name}

  pub record CacheEntry : Type 0 where
    pub status : ℕ
    pub headers : HeaderMap
    pub body : Text
    pub vary : List Selector
    pub decoded : Bool
    pub requested_at : ℕ
    pub received_at : ℕ
    pub peer_addr : Option Text

  abbrev header_bytes : List (Text × Text) → ℕ
  header_bytes [] = 0
  header_bytes ((n, v) ∷ lines) = length n + length v + 4 + header_bytes lines

  unfoldable pub size : CacheEntry → ℕ
  size entry = length entry.body + header_bytes (iter entry.headers)

  unfoldable pub vary_value : HeaderMap → Text → Option Text
  unfolding normalize_list joined
  vary_value request name =
      let lines = readable H (get_all request name) in
      if is_empty lines then none else some (normalize_list (joined (codes ",") lines))

  unfoldable pub vary_names : HeaderMap → List Text
  unfolding all_parts split trim to_ascii_lowercase
  vary_names headers =
      retain (λ n. not (is_empty n))
        (map (λ n. to_ascii_lowercase (trim n))
          (all_parts (split b',') (readable H (get_all headers (codes "vary")))))

  -- `HeaderName::try_from(name).ok().and_then(|n| vary_value(request, &n))`. A name that `Vary`
  -- lists is in lower case, as a `HeaderName` is.
  unfoldable pub current_value : HeaderMap → Text → Option Text
  unfolding vary_value
  current_value request name = if is_header_name name then vary_value request name else none

  unfoldable pub matches : CacheEntry → HeaderMap → Bool → Bool
  unfolding current_value same_value
  matches entry request decoded =
      not (if entry.decoded then not decoded else decoded)
      && not (any (λ s. text_eq s.0 (codes "*")) entry.vary)
      && all (λ s. same_value (current_value request s.0) (map_value s.1)) entry.vary

  unfoldable pub conditional_headers : CacheEntry → HeaderMap
  conditional_headers entry =
      let with_etag : HeaderMap = elim (get H entry.headers (codes "etag")) [
        | none ↦ empty
        | some etag ↦ insert empty (codes "if-none-match") etag
      ] in
      elim (get H entry.headers (codes "last-modified")) [
        | none ↦ with_etag
        | some modified ↦ insert with_etag (codes "if-modified-since") modified
      ]

  unfoldable pub is_revalidatable : CacheEntry → Bool
  is_revalidatable entry =
      contains_key H entry.headers (codes "etag")
      || contains_key H entry.headers (codes "last-modified")

  unfoldable pub etag_of : HeaderMap → Option Text
  unfolding trim
  etag_of headers = get H headers (codes "etag") >>= to_str >>= λ tag. some (trim tag)

  unfoldable pub contradicted_by : CacheEntry → HeaderMap → Bool
  unfolding etag_of contradicts is_revalidatable
  contradicted_by entry response =
      contradicts (etag_of entry.headers) (etag_of response)
        (get H entry.headers (codes "last-modified")) (get H response (codes "last-modified"))
        (is_revalidatable entry)

  -- `parse::<usize>()` on text: an optional `+`, then digits that fit in 64 bits.
  unfoldable pub parse_usize : Text → Option ℕ
  unfolding is_number decimal strip_prefix
  parse_usize s =
      let digits = unwrap_or (strip_prefix (codes "+") s) s in
      if is_number digits && ltb (decimal digits) (2 ^ 64) then some (decimal digits) else none

  unfoldable pub length_differs : CacheEntry → HeaderMap → Bool
  unfolding parse_usize trim
  length_differs entry head =
      elim (get H head (codes "content-length") >>= to_str >>= λ v. parse_usize (trim v)) [
        | none ↦ false
        | some len ↦ not (len == length entry.body)
      ]

  unfoldable pub changed_per_head : CacheEntry → HeaderMap → Bool
  unfolding length_differs same_value
  changed_per_head entry head =
      not (same_value (get H entry.headers (codes "etag")) (get H head (codes "etag")))
      || not (
          same_value (get H entry.headers (codes "last-modified"))
            (get H head (codes "last-modified")))
      || (not entry.decoded && length_differs entry head)

  -- The names that a `Connection` header lists; a `HeaderName` is in lower case.
  unfoldable pub connection_listed : HeaderMap → List Text
  unfolding all_parts split trim to_ascii_lowercase
  connection_listed headers = map to_ascii_lowercase (
      retain is_header_name
        (map trim (all_parts (split b',') (readable H (get_all headers (codes "connection"))))))

  -- `headers.keys()`: each name once.
  unfoldable pub keys : HeaderMap → List Text
  unfolding distinct
  keys headers = distinct (map (λ line. line.0) (iter headers))

  unfoldable pub append_all : HeaderMap → Text → List Text → HeaderMap
  append_all headers name [] = headers
  append_all headers name (v ∷ vs) = append_all (append headers name v) name vs

  unfoldable pub is_kept_by_304 : CacheEntry → HeaderMap → Text → Bool
  unfolding among connection_listed
  is_kept_by_304 entry headers name =
      among hop_by_hop name
      || text_eq name (codes "proxy-authentication-info")
      || among (connection_listed headers) name
      || text_eq name (codes "content-length")
      || text_eq name (codes "set-cookie")
      || (entry.decoded && text_eq name (codes "content-encoding"))

  -- The loop of `updated_by_304` over the names of the `304`.
  unfoldable pub overwrite : (Text → Bool) → HeaderMap → HeaderMap → List Text → HeaderMap
  unfolding append_all
  overwrite kept sent stored [] = stored
  overwrite kept sent stored (name ∷ names) =
      overwrite kept sent
        (if kept name then stored else append_all (remove stored name) name (get_all sent name))
        names

  unfoldable pub updated_by_304 : CacheEntry → HeaderMap → ℕ → ℕ → HeaderMap → CacheEntry
  unfolding overwrite is_kept_by_304 keys vary_names current_value
  updated_by_304 entry headers requested_at received_at request =
      let merged = overwrite (is_kept_by_304 entry headers) headers entry.headers (keys headers) in
      record entry {
        headers = merged;
        vary =
            if contains_key H headers (codes "vary")
            then map (λ name. (name, current_value request name)) (vary_names merged)
            else entry.vary;
        requested_at = requested_at;
        received_at = received_at;
      }

  unfoldable pub remove_all : HeaderMap → List Text → HeaderMap
  remove_all headers [] = headers
  remove_all headers (name ∷ names) = remove_all (remove headers name) names
