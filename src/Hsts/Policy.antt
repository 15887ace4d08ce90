-- ===== src/Hsts/Policy.antt =====
-- `record`, `should_upgrade`, `is_known_host` and `upgrade` of src/net/hsts.rs, over the interfaces
-- of the store, of header maps and of URLs.
use gosub_sonar.Prelude.{
  ℕ, zero, suc, Bool, true, false, not, ◌&&◌, ◌||◌, [], ◌∷◌, Option, none, some, Text, codes,
  text_eq, if◌then◌else◌, ◌==◌, length, trim_end_matches, split_once, min, ◌*◌,
}
use gosub_sonar.Web.Headers.{HeaderApi, get}
use gosub_sonar.Web.Urls.{Host, domain, ipv4, ipv6, UrlApi}
use gosub_sonar.Hsts.Grammar.{StsDirectives, parse_sts}
use gosub_sonar.Hsts.Store.{HstsEntry, HstsStore, is_expired}

abbrev pub max_age_cap_secs : ℕ
max_age_cap_secs = 100 * 365 * 24 * 60 * 60

unfoldable pub normalize_host : Text → Text
unfolding trim_end_matches
normalize_host host = trim_end_matches (λ c. c == b'.') host

unfoldable pub domain_of_host : Option Host → Option Text
domain_of_host (some (domain d)) = some (normalize_host d)
domain_of_host (some (ipv4 a b c d)) = none
domain_of_host (some (ipv6 n)) = none
domain_of_host none = none

unfoldable pub has_dot : Text → Bool
has_dot [] = false
has_dot (c ∷ s) = c == b'.' || has_dot s

-- Whether the entry under a candidate makes the host known.
unfoldable pub applies : Option HstsEntry → ℕ → Bool → Bool
unfolding is_expired
applies none now is_exact = false
applies (some entry) now is_exact =
    not (is_expired entry now) && (is_exact || entry.include_subdomains)

-- The next candidate: what stands behind the first dot, if that has a dot itself.
unfoldable pub parent_of : Text → Option Text
unfolding split_once has_dot
parent_of candidate = elim (split_once b'.' candidate).1 [
  | none ↦ none
  | some parent ↦ if has_dot parent then some parent else none
]

-- The loop of `is_known_host`. Each candidate is shorter than the one before, so the length of the
-- host is fuel enough (`Hsts.Matching`).
unfoldable pub known_from : (Text → Option HstsEntry) → ℕ → ℕ → Bool → Text → Bool
known_from load now zero is_exact candidate = applies (load candidate) now is_exact
known_from load now (suc fuel) is_exact candidate =
    let rest : Bool = elim (parent_of candidate) [
      | none ↦ false
      | some parent ↦ known_from load now fuel false parent
    ] in
    if applies (load candidate) now is_exact then true else rest

unfoldable pub is_known_host : (Text → Option HstsEntry) → Text → ℕ → Bool
unfolding known_from
is_known_host load host now =
    let candidate = normalize_host host in known_from load now (length candidate) true candidate

module _ (U : UrlApi) where
  open U use {Url, host, set_scheme}

  unfoldable pub domain_of : Url → Option Text
  unfolding domain_of_host normalize_host
  domain_of url = domain_of_host (host url)

  unfoldable pub upgrade : Url → Url
  upgrade url = elim (set_scheme url (codes "https")) [ none ↦ url | some upgraded ↦ upgraded ]

module _ (H : HeaderApi) where
  open H use {HeaderMap, to_str}

  -- The directives of the first header line, where it is text and follows the grammar.
  unfoldable pub advertised : HeaderMap → Option StsDirectives
  advertised headers = elim (get H headers (codes "strict-transport-security")) [
    | none ↦ none
    | some raw ↦ elim (to_str raw) [ none ↦ none | some text ↦ parse_sts text ]
  ]

-- `expiry now secs` is the instant `secs` seconds after `now`, if the clock can represent it
-- (`try_seconds` and `checked_add_signed`).
module _ (S : HstsStore) (expiry : ℕ → ℕ → Option ℕ) where
  open S use {Store, store, remove}

  -- The part of `record` that follows the parsing.
  unfoldable pub arm : Store → Text → StsDirectives → ℕ → Store
  arm s host sts now =
      if sts.max_age == 0
      then remove s host
      else elim (expiry now (min sts.max_age max_age_cap_secs)) [
        | none ↦ s
        | some expires_at ↦
            store s host
              (record { expires_at = expires_at; include_subdomains = sts.include_subdomains })
      ]

module _ (U : UrlApi) (H : HeaderApi) (S : HstsStore) (expiry : ℕ → ℕ → Option ℕ) where
  open U use {Url, scheme}
  open H use {HeaderMap}
  open S use {Store}

  -- `record`
  unfoldable pub record_policy : Store → Url → HeaderMap → ℕ → Store
  record_policy s url headers now =
      if not (text_eq (scheme url) (codes "https")) then s else elim (domain_of U url) [
        | none ↦ s
        | some host ↦ elim (advertised H headers) [
          | none ↦ s
          | some sts ↦ arm S expiry s host sts now
        ]
      ]

module _ (U : UrlApi) (S : HstsStore) where
  open U use {Url, scheme}
  open S use {Store, load}

  unfoldable pub should_upgrade : Store → Url → ℕ → Bool
  should_upgrade s url now =
      if not (text_eq (scheme url) (codes "http"))
      then false
      else elim (domain_of U url) [ none ↦ false | some host ↦ is_known_host (load s) host now ]
