-- ===== src/MixedContent/Outcomes.antt =====
-- What a mixed content check lets through.
use gosub_sonar.Prelude.{
  ◌≡◌, ◌≢◌, ◌⊎◌, ◌↔◌, inl, inr, refl, Bool, true, false, Option, none, some, codes, text_eq_refl,
  arith, Bool-cases,
}
use gosub_sonar.Web.Urls.{Origin, UrlApi}
use gosub_sonar.FetchMetadata.Kinds.{RequestDestination}
use gosub_sonar.MixedContent.{
  MixedContentPolicy, allow, upgrade, block, MixedContentAction, send_as_is, upgrade_to, refuse,
  is_trustworthy_scheme, is_origin_potentially_trustworthy, is_potentially_trustworthy, is_document,
  upgraded, apply_policy, evaluate_for,
}

-- There is a trustworthy document behind the request.
abbrev pub protected_by : Option Origin → Bool
protected_by none = false
protected_by (some o) = is_origin_potentially_trustworthy o

module _ (U : UrlApi) where
  open U use {Url, scheme, host, set_scheme, scheme-set_scheme, host-set_scheme}

  -- The URL that is fetched after a check, if any.
  unfoldable pub fetched : Url → MixedContentAction Url → Option Url
  fetched url send_as_is = some url
  fetched url (upgrade_to v) = some v
  fetched url refuse = none

  upgraded_trustworthy :
      (url v : Url) → upgraded U url ≡ some v → is_potentially_trustworthy U v ≡ true
  unfolding upgraded is_potentially_trustworthy is_trustworthy_scheme
  upgraded_trustworthy url v e =
      rw (scheme-set_scheme url v (codes "https") e, text_eq_refl (codes "https")) refl

  apply_policy_trustworthy :
      (policy : MixedContentPolicy) (url v : Url) (destination : RequestDestination)
      → policy ≢ allow
      → fetched url (apply_policy U policy url destination) ≡ some v
      → is_potentially_trustworthy U v ≡ true
  unfolding apply_policy fetched
  apply_policy_trustworthy allow url v destination h e = absurd (h refl)
  apply_policy_trustworthy upgrade url v destination h e =
      ground (arith, upgraded_trustworthy url v)
  apply_policy_trustworthy block url v destination h e = ground (arith, upgraded_trustworthy url v)

  -- Unless mixed content is allowed or the request is a top-level navigation, the URL that a
  -- trustworthy document's request ends up fetching, if any, is potentially trustworthy.
  pub evaluate_for_trustworthy :
      (policy : MixedContentPolicy) (origin : Origin) (url v : Url)
      (destination : RequestDestination)
      → policy ≢ allow
      → is_origin_potentially_trustworthy origin ≡ true
      → is_document destination ≡ false
      → fetched url (evaluate_for U policy (some origin) url destination) ≡ some v
      → is_potentially_trustworthy U v ≡ true
  unfolding evaluate_for fetched
  evaluate_for_trustworthy policy origin url v destination h safe sub e =
      elim (Bool-cases (is_potentially_trustworthy U url)) [
        | inl fine ↦
            let same : url ≡ v = ground (arith, rw (fine, safe, evaluate_for) at e) in
            rw (← same) fine
        | inr bare ↦
            apply_policy_trustworthy policy url v destination h
              (rw (safe, bare, sub, evaluate_for) at e)
      ]

  -- A request is sent unchanged exactly when there is no document, the document is not trustworthy,
  -- the URL is, the policy allows mixed content, or a navigation is not held to the blocking policy.
  pub evaluate_for-send_as_is_iff :
      (policy : MixedContentPolicy) (origin : Option Origin) (url : Url)
      (destination : RequestDestination)
      → (evaluate_for U policy origin url destination ≡ send_as_is) ↔ (
          (protected_by origin ≡ false)
          ⊎ (is_potentially_trustworthy U url ≡ true)
          ⊎ (policy ≡ allow)
          ⊎ ((policy ≡ block) × (is_document destination ≡ true)))
  unfolding evaluate_for apply_policy
  evaluate_for-send_as_is_iff policy none url destination = ground arith
  evaluate_for-send_as_is_iff allow (some o) url destination = ground arith
  evaluate_for-send_as_is_iff upgrade (some o) url destination = ground arith
  evaluate_for-send_as_is_iff block (some o) url destination = ground arith
