-- ===== src/MixedContent.antt =====
-- src/net/mixed_content.rs: insecure subresources of a secure document.
pub mod Outcomes
use gosub_sonar.Prelude.{
  ℕ, ◌≡◌, Bool, true, false, not, ◌&&◌, ◌||◌, List, [], ◌∷◌, Option, none, some, Text, codes,
  text_eq, if◌then◌else◌, ◌==◌,
}
use mathlib.Core.List.{reverse}
use gosub_sonar.Prelude.{strip_prefix}
use gosub_sonar.Web.Urls.{Host, domain, ipv4, ipv6, Origin, opaque, tuple, UrlApi}
use gosub_sonar.FetchMetadata.Kinds.{RequestDestination, document, image, audio, video}

pub data MixedContentPolicy : Type 0 where
  allow upgrade block : MixedContentPolicy

-- `MixedContentAction`; an upgrade carries the URL to fetch instead.
pub data MixedContentAction (Url : Type 0) : Type 0 where
  send_as_is : MixedContentAction Url
  upgrade_to : Url → MixedContentAction Url
  refuse : MixedContentAction Url

-- `d.strip_suffix(s)` and `d.ends_with(s)`, on the reversed texts.
abbrev strip_suffix_or_self : Text → Text → Text
strip_suffix_or_self suffix d = elim (strip_prefix (reverse suffix) (reverse d)) [
  | none ↦ d
  | some rest ↦ reverse rest
]

abbrev ends_with : Text → Text → Bool
ends_with suffix d = elim (strip_prefix (reverse suffix) (reverse d)) [
  | none ↦ false
  | some rest ↦ true
]

unfoldable pub is_loopback_host : Host → Bool
is_loopback_host (domain d) =
    let stem = strip_suffix_or_self (codes ".") d in
    text_eq stem (codes "localhost") || ends_with (codes ".localhost") stem
is_loopback_host (ipv4 a b c d) = a == 127
is_loopback_host (ipv6 n) = n == 1

unfoldable pub is_trustworthy_scheme : Text → Bool
is_trustworthy_scheme s =
    text_eq s (codes "https") || text_eq s (codes "wss") || text_eq s (codes "file")

abbrev loopback : Option Host → Bool
loopback none = false
loopback (some h) = is_loopback_host h

unfoldable pub is_origin_potentially_trustworthy : Origin → Bool
is_origin_potentially_trustworthy (opaque n) = false
is_origin_potentially_trustworthy (tuple s h p) = is_trustworthy_scheme s || is_loopback_host h

unfoldable pub is_document : RequestDestination → Bool
is_document document = true
is_document _ = false

-- Images, audio and video.
unfoldable pub is_media : RequestDestination → Bool
is_media image = true
is_media audio = true
is_media video = true
is_media _ = false

abbrev is_block : MixedContentPolicy → Bool
is_block block = true
is_block _ = false

abbrev has_domain : Option Host → Bool
has_domain (some (domain d)) = true
has_domain (some (ipv4 a b c d)) = false
has_domain (some (ipv6 n)) = false
has_domain none = false

module _ (U : UrlApi) where
  open U use {Url, scheme, host, set_scheme}

  unfoldable pub is_potentially_trustworthy : Url → Bool
  is_potentially_trustworthy url = is_trustworthy_scheme (scheme url) || loopback (host url)

  unfoldable pub upgraded : Url → Option Url
  upgraded url = set_scheme url (codes "https")

  -- `upgrade(url).map_or(Block, Upgrade)`
  abbrev upgrade_or_refuse : Url → MixedContentAction Url
  upgrade_or_refuse url = elim (upgraded url) [ none ↦ refuse | some u ↦ upgrade_to u ]

  -- The last `match`.
  unfoldable pub apply_policy :
      MixedContentPolicy → Url → RequestDestination → MixedContentAction Url
  unfolding upgraded
  apply_policy allow url destination = send_as_is
  apply_policy upgrade url destination = upgrade_or_refuse url
  apply_policy block url destination =
      if is_media destination && has_domain (host url) then upgrade_or_refuse url else refuse

  unfoldable pub evaluate_for :
      MixedContentPolicy → Option Origin → Url → RequestDestination → MixedContentAction Url
  evaluate_for policy none url destination = send_as_is
  evaluate_for policy (some origin) url destination =
      if not (is_origin_potentially_trustworthy origin) || is_potentially_trustworthy url
      then send_as_is
      else if is_document destination && is_block policy
      then send_as_is
      else apply_policy policy url destination

  unfoldable pub evaluate : MixedContentPolicy → Option Origin → Url → MixedContentAction Url
  unfolding evaluate_for
  evaluate policy origin url = evaluate_for policy origin url RequestDestination.empty
