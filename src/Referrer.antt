-- ===== src/Referrer.antt =====
-- src/net/referrer.rs: the `Referer` header from a referrer policy.
pub mod Tokens
pub mod Limits
use gosub_sonar.Prelude.{
  ℕ, Bool, true, false, not, ◌&&◌, ◌||◌, List, [], ◌∷◌, Option, none, some, Text, codes, text_eq,
  if◌then◌else◌, ltb, length, trim, to_ascii_lowercase, split, ◌>>=◌, lookup, text_key,
}
use gosub_sonar.Web.Urls.{Origin, UrlApi}
use gosub_sonar.MixedContent.{is_potentially_trustworthy}

pub data ReferrerPolicy : Type 0 where
  no_referrer no_referrer_when_downgrade same_origin origin strict_origin : ReferrerPolicy
  origin_when_cross_origin strict_origin_when_cross_origin unsafe_url : ReferrerPolicy

unfoldable pub as_str : ReferrerPolicy → Text
as_str no_referrer = codes "no-referrer"
as_str no_referrer_when_downgrade = codes "no-referrer-when-downgrade"
as_str same_origin = codes "same-origin"
as_str origin = codes "origin"
as_str strict_origin = codes "strict-origin"
as_str origin_when_cross_origin = codes "origin-when-cross-origin"
as_str strict_origin_when_cross_origin = codes "strict-origin-when-cross-origin"
as_str unsafe_url = codes "unsafe-url"

-- The arms of the `match` of `parse_token`, in order.
abbrev policy_tokens : List (Text × ReferrerPolicy)
policy_tokens =
    (codes "no-referrer", no_referrer)
    ∷ (codes "no-referrer-when-downgrade", no_referrer_when_downgrade)
    ∷ (codes "same-origin", same_origin)
    ∷ (codes "origin", origin)
    ∷ (codes "strict-origin", strict_origin)
    ∷ (codes "origin-when-cross-origin", origin_when_cross_origin)
    ∷ (codes "strict-origin-when-cross-origin", strict_origin_when_cross_origin)
    ∷ (codes "unsafe-url", unsafe_url)
    ∷ []

unfoldable pub parse_token : Text → Option ReferrerPolicy
unfolding trim to_ascii_lowercase lookup text_eq
parse_token token = lookup (to_ascii_lowercase (trim token)) policy_tokens

-- `filter_map(parse_token).next_back()`: the last element that is a policy.
unfoldable pub last_policy : List Text → Option ReferrerPolicy
last_policy [] = none
last_policy (token ∷ tokens) = elim (last_policy tokens) [
  | none ↦ parse_token token
  | some later ↦ some later
]

unfoldable pub parse_header : Text → Option ReferrerPolicy
unfolding split last_policy
parse_header value = last_policy (split b',' value)

abbrev pub max_referrer_len : ℕ
max_referrer_len = 4096

abbrev is_no_referrer : ReferrerPolicy → Bool
is_no_referrer no_referrer = true
is_no_referrer _ = false

module _ (U : UrlApi) where
  open U use {
    Url, scheme, as_str as url_str, clear_fragment, clear_credentials, clear_path, clear_query,
    origin as url_origin, origin_eq,
  }

  unfoldable pub strip : Url → Option Url
  strip url =
      if text_eq (scheme url) (codes "http") || text_eq (scheme url) (codes "https")
      then some (clear_credentials (clear_fragment url))
      else none

  unfoldable pub origin_only : Url → Option Url
  unfolding strip
  origin_only url = strip url >>= λ u. some (clear_query (clear_path u))

  unfoldable pub is_downgrade : Url → Url → Bool
  is_downgrade referrer target =
      is_potentially_trustworthy U referrer && not (is_potentially_trustworthy U target)

  unfoldable pub never_sends : Url → ReferrerPolicy → Bool
  never_sends referrer policy =
      is_no_referrer policy || (elim (strip referrer) [ none ↦ true | some u ↦ false ])

  -- `b.then_some(u)`
  abbrev when : Bool → Url → Option Url
  when b u = if b then some u else none

  -- The last `match`, over the two URLs that may be sent.
  unfoldable pub choose : ReferrerPolicy → (same downgrade : Bool) → (full only : Url) → Option Url
  choose no_referrer same downgrade full only = none
  choose unsafe_url same downgrade full only = some full
  choose origin same downgrade full only = some only
  choose same_origin same downgrade full only = when same full
  choose strict_origin same downgrade full only = when (not downgrade) only
  choose origin_when_cross_origin same downgrade full only = some (if same then full else only)
  choose strict_origin_when_cross_origin same downgrade full only =
      if same then some full else if downgrade then none else some only
  choose no_referrer_when_downgrade same downgrade full only = when (not downgrade) full

  unfoldable pub capped : Url → Url → Url
  capped stripped only = if ltb max_referrer_len (length (url_str stripped)) then only else stripped

  unfoldable pub determine : Url → ReferrerPolicy → Url → Option Url
  determine referrer policy target = strip referrer >>= λ stripped. origin_only referrer >>= λ only.
      choose policy (origin_eq (url_origin referrer) (url_origin target))
        (is_downgrade referrer target) (capped stripped only) only
