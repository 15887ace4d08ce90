-- ===== src/Referrer/Limits.antt =====
-- How much a `Referer` header reveals.
use gosub_sonar.Prelude.{
  ◌≡◌, ◌≢◌, ◌≤◌, ◌⊎◌, inl, inr, ◌↔◌, refl, subst, [], codes, text_eq, text_eq_iff, Bool, true,
  false, none, some, arith, length, Option-cases, Bool-cases, ◌∙◌, ap, ltb,
}
use gosub_sonar.Web.Urls.{UrlApi}
use gosub_sonar.Web.Parts.{UrlParts, IsWeb}
use gosub_sonar.MixedContent.{is_potentially_trustworthy}
use gosub_sonar.Referrer.{
  ReferrerPolicy, no_referrer, no_referrer_when_downgrade, strict_origin,
  strict_origin_when_cross_origin, unsafe_url, strip, origin_only, is_downgrade, never_sends,
  choose, capped, determine, max_referrer_len, is_no_referrer,
}

-- The policies that may send a full URL to another origin.
abbrev pub IsLoose : ReferrerPolicy → Type 0
IsLoose p = (p ≡ unsafe_url) ⊎ (p ≡ no_referrer_when_downgrade)

-- The policies that send nothing on a downgrade.
abbrev pub IsStrict : ReferrerPolicy → Type 0
IsStrict p =
    (p ≡ strict_origin) ⊎ (p ≡ strict_origin_when_cross_origin) ⊎ (p ≡ no_referrer_when_downgrade)

module _ (U : UrlApi) where
  open U use {
    Url, scheme, as_str, origin as url_origin, origin_eq, origin_eq_iff, clear_fragment,
    clear_credentials, clear_path, clear_query,
  }

  choose_cross :
      (p : ReferrerPolicy) (downgrade : Bool) (full only u : Url)
      → ¬ IsLoose p
      → choose U p false downgrade full only ≡ some u
      → only ≡ u
  unfolding choose
  choose_cross unsafe_url downgrade full only u h e = absurd (h (inl refl))
  choose_cross no_referrer_when_downgrade downgrade full only u h e = absurd (h (inr refl))
  choose_cross _ downgrade full only u h e = ground arith

  choose_strict :
      (p : ReferrerPolicy) (full only : Url) → IsStrict p → choose U p false true full only ≡ none
  unfolding choose
  choose_strict strict_origin full only h = refl
  choose_strict strict_origin_when_cross_origin full only h = refl
  choose_strict no_referrer_when_downgrade full only h = refl
  choose_strict _ full only h = absurd (ground arith)

  choose_either :
      (p : ReferrerPolicy) (same downgrade : Bool) (full only u : Url)
      → choose U p same downgrade full only ≡ some u
      → (full ≡ u) ⊎ (only ≡ u)
  unfolding choose
  choose_either no_referrer same downgrade full only u e = ground arith
  choose_either _ same downgrade full only u e = ground arith

  choose_same :
      (p : ReferrerPolicy) (full only : Url)
      → p ≢ no_referrer
      → choose U p true false full only ≢ none
  unfolding choose
  choose_same no_referrer full only h = absurd (h refl)
  choose_same _ full only h = ground arith

  choose_none :
      (p : ReferrerPolicy) (same downgrade : Bool) (full only u : Url)
      → is_no_referrer p ≡ true
      → choose U p same downgrade full only ≢ some u
  unfolding choose
  choose_none no_referrer same downgrade full only u h = cc
  choose_none _ same downgrade full only u h = absurd (cc)

  sends_to_itself :
      (referrer stripped : Url) (p : ReferrerPolicy)
      → is_no_referrer p ≡ false
      → strip U referrer ≡ some stripped
      → determine U referrer p referrer ≢ none
  unfolding determine origin_only is_downgrade
  sends_to_itself referrer stripped p h e =
      rw (e, (origin_eq_iff (url_origin referrer) (url_origin referrer)).1 refl)
        (elim (Bool-cases (is_potentially_trustworthy U referrer)) [
          | inl safe ↦ rw safe (choose_same p _ _ (λ same. cc (ap is_no_referrer same, h)))
          | inr bare ↦ rw bare (choose_same p _ _ (λ same. cc (ap is_no_referrer same, h)))
        ])

  -- What `determine` sends, from the two URLs that it may choose.
  determine_cases :
      (referrer target u : Url) (policy : ReferrerPolicy)
      → determine U referrer policy target ≡ some u
      → (stripped : Url) × (only : Url) × (strip U referrer ≡ some stripped)
        × (origin_only U referrer ≡ some only)
        × (choose U policy
              (origin_eq (url_origin referrer) (url_origin target))
              (is_downgrade U referrer target)
              (capped U stripped only)
              only
            ≡ some u)
  unfolding determine
  determine_cases referrer target u policy e = elim (Option-cases (strip U referrer)) [
    | inl bare ↦ absurd (ground arith)
    | inr (stripped, f) ↦ elim (Option-cases (origin_only U referrer)) [
      | inl bare ↦ absurd (ground arith)
      | inr (only, g) ↦ (stripped, only, f, g, rw (f, g, determine) at e)
    ]
  ]

  strip-IsWeb : (url u : Url) → strip U url ≡ some u → IsWeb U url
  unfolding strip
  strip-IsWeb url u e = elim (Bool-cases (text_eq (scheme url) (codes "http"))) [
    | inl h ↦ inl ((text_eq_iff (scheme url) (codes "http")).0 h)
    | inr n ↦ elim (Bool-cases (text_eq (scheme url) (codes "https"))) [
      | inl h ↦ inr ((text_eq_iff (scheme url) (codes "https")).0 h)
      | inr m ↦ absurd (ground (arith, e, n, m))
    ]
  ]

  IsWeb-same : (u v : Url) → scheme v ≡ scheme u → IsWeb U u → IsWeb U v
  IsWeb-same u v e (inl h) = inl (e ∙ h)
  IsWeb-same u v e (inr h) = inr (e ∙ h)

  origin_only-cleared :
      (url u : Url)
      → origin_only U url ≡ some u
      → IsWeb U url × (clear_query (clear_path (clear_credentials (clear_fragment url))) ≡ u)
  unfolding origin_only strip
  origin_only-cleared url u e = elim (Option-cases (strip U url)) [
    | inl n ↦ absurd (ground (arith, e, n))
    | inr (v, f) ↦ (strip-IsWeb url v f, ground (arith, e, f))
  ]

  module _ (P : UrlParts U) where
    -- The URL `u` says no more about `referrer` than its origin.
    pub record IsBare (referrer u : Url) : Type 0 where
      pub same_origin : url_origin u ≡ url_origin referrer
      pub path : U.path u ≡ codes "/"
      pub query : P.query u ≡ none
      pub fragment : P.fragment u ≡ none
      pub username : P.username u ≡ []
      pub password : P.password u ≡ none

    origin_only-IsBare : (url u : Url) → origin_only U url ≡ some u → IsBare url u
    origin_only-IsBare url u e =
        let (web, whole) = origin_only-cleared url u e in
        let a = clear_fragment url in
        let b = clear_credentials a in
        let c = clear_path b in
        let web_a = IsWeb-same url a (U.scheme-clear_fragment url) web in
        let web_b = IsWeb-same a b (U.scheme-clear_credentials a) web_a in
        subst (IsBare url) whole (record {
          same_origin =
              P.origin-clear_query c
              ∙ P.origin-clear_path b web_b
              ∙ P.origin-clear_credentials a
              ∙ P.origin-clear_fragment url;
          path = P.path-clear_query c ∙ P.path-clear_path b web_b;
          query = P.query-clear_query c;
          fragment =
              P.fragment-clear_query c
              ∙ P.fragment-clear_path b
              ∙ P.fragment-clear_credentials a
              ∙ P.fragment-clear_fragment url;
          username =
              P.username-clear_query c
              ∙ P.username-clear_path b
              ∙ P.username-clear_credentials a web_a;
          password =
              P.password-clear_query c
              ∙ P.password-clear_path b
              ∙ P.password-clear_credentials a web_a;
        })

    -- Another origin gets at most the referrer's origin, unless the policy is one of the two loose
    -- ones: the URL sent has that origin, the path `/`, and no query, fragment, user name or password.
    pub determine_cross_origin :
        (referrer target u : Url) (policy : ReferrerPolicy)
        → ¬ IsLoose policy
        → url_origin referrer ≢ url_origin target
        → determine U referrer policy target ≡ some u
        → IsBare referrer u
    determine_cross_origin referrer target u policy strict other e =
        let (stripped, only, f, g, c) = determine_cases referrer target u policy e in
        let apart : origin_eq (url_origin referrer) (url_origin target) ≡ false =
          ground (arith, origin_eq_iff (url_origin referrer) (url_origin target)) in
        let same = choose_cross policy _ _ only u strict (rw apart at c) in
        origin_only-IsBare referrer u (g ∙ ap some same)

  -- The strict policies, and the one for no referrer when downgrading, send nothing from a
  -- potentially trustworthy referrer to a target of another origin that is not.
  pub determine_downgrade :
      (referrer target : Url) (policy : ReferrerPolicy)
      → IsStrict policy
      → is_potentially_trustworthy U referrer ≡ true
      → is_potentially_trustworthy U target ≡ false
      → url_origin referrer ≢ url_origin target
      → determine U referrer policy target ≡ none
  unfolding is_downgrade
  determine_downgrade referrer target policy strict secure plain other =
      let apart : origin_eq (url_origin referrer) (url_origin target) ≡ false =
        ground (arith, origin_eq_iff (url_origin referrer) (url_origin target)) in
      let down : is_downgrade U referrer target ≡ true = rw (is_downgrade, secure, plain) refl in
      elim (Option-cases (determine U referrer policy target)) [
        | inl nothing ↦ nothing
        | inr (u, e) ↦
            let (stripped, only, f, g, c) = determine_cases referrer target u policy e in
            absurd (
              cc (choose_strict policy (capped U stripped only) only strict, rw (apart, down) at c))
      ]

  -- A referrer that is sent is the origin alone, or the stripped URL within the length limit.
  pub determine-length :
      (referrer target u : Url) (policy : ReferrerPolicy)
      → determine U referrer policy target ≡ some u
      → (origin_only U referrer ≡ some u)
        ⊎ ((strip U referrer ≡ some u) × (length (as_str u) ≤ max_referrer_len))
  unfolding capped
  determine-length referrer target u policy e =
      let (stripped, only, f, g, c) = determine_cases referrer target u policy e in
      elim (choose_either policy _ _ (capped U stripped only) only u c) [
        | inr same ↦ inl (g ∙ ap some same)
        | inl same ↦ elim (Bool-cases (ltb max_referrer_len (length (as_str stripped)))) [
          | inl long ↦ inl (g ∙ ap some (ground (arith, same)))
          | inr short ↦
              let whole : stripped ≡ u = ground (arith, same) in
              inr (f ∙ ap some whole, rw (← whole) (ground arith))
        ]
      ]

  -- `never_sends` holds for a referrer and a policy exactly when no target at all gets a header.
  pub never_sends_iff :
      (referrer : Url) (policy : ReferrerPolicy)
      → (never_sends U referrer policy ≡ true)
        ↔ ((target : Url) → determine U referrer policy target ≡ none)
  unfolding never_sends
  never_sends_iff referrer policy = (
    λ h target. elim (Option-cases (determine U referrer policy target)) [
      | inl nothing ↦ nothing
      | inr (u, e) ↦
          let (stripped, only, f, g, c) = determine_cases referrer target u policy e in
          absurd (choose_none policy _ _ _ only u (ground (arith, f)) c)
    ],
    λ h. elim (Bool-cases (is_no_referrer policy)) [
      | inl never ↦ rw never refl
      | inr may ↦ elim (Option-cases (strip U referrer)) [
        | inl local ↦ rw (may, local) refl
        | inr (stripped, f) ↦ absurd (sends_to_itself referrer stripped policy may f (h referrer))
      ]
    ],
  )
