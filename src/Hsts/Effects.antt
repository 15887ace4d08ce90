-- ===== src/Hsts/Effects.antt =====
-- What a response's header does to the store, and to later requests for the same host.
use mathlib.Core.List.{reverse, reverse-reverse}
use gosub_sonar.Prelude.{
  trim_start_matches, trim_end_matches, [], ◌∷◌, ℕ, ◌+◌, ◌≡◌, ◌≤◌, ◌<◌, refl, inl, inr, ◌≢◌, Bool,
  true, Option, none, some, Text, codes, text_eq_iff, text_eq_refl, ◌==◌, min, Bool-cases,
  Option-cases, arith,
}
use gosub_sonar.Web.Headers.{HeaderApi}
use gosub_sonar.Web.Urls.{Host, domain, ipv4, ipv6, UrlApi}
use gosub_sonar.Hsts.Grammar.{StsDirectives}
use gosub_sonar.Hsts.Store.{HstsEntry, HstsStore}
use gosub_sonar.Hsts.Policy.{
  max_age_cap_secs, normalize_host, domain_of_host, applies, domain_of, advertised, arm,
  record_policy, should_upgrade,
}
use gosub_sonar.Hsts.Matching.{is_known_host_iff}

trim_start_idem :
    (p : ℕ → Bool) (s : Text)
    → trim_start_matches p (trim_start_matches p s) ≡ trim_start_matches p s
unfolding trim_start_matches
trim_start_idem p [] = refl
trim_start_idem p (c ∷ s) = ground (arith, trim_start_idem p s)

normalize_idem : (s : Text) → normalize_host (normalize_host s) ≡ normalize_host s
unfolding normalize_host trim_end_matches
normalize_idem s =
    rw
      (
        reverse-reverse (trim_start_matches (λ c. c == b'.') (reverse s)),
        trim_start_idem (λ c. c == b'.') (reverse s),
      )
      refl

domain_of_host-normal :
    (h : Option Host) (d : Text) → domain_of_host h ≡ some d → normalize_host d ≡ d
unfolding domain_of_host
domain_of_host-normal none d e = absurd (cc)
domain_of_host-normal (some (ipv4 x y z w)) d e = absurd (cc)
domain_of_host-normal (some (ipv6 n)) d e = absurd (cc)
domain_of_host-normal (some (domain t)) d e =
    let same : normalize_host t ≡ d = cc in rw (← same) (normalize_idem t)

domain_of-normal :
    (U : UrlApi) (url : U.Url) (host : Text)
    → domain_of U url ≡ some host
    → normalize_host host ≡ host
unfolding domain_of
domain_of-normal U url host e = domain_of_host-normal (U.host url) host e

applies_live :
    (entry : HstsEntry) (later : ℕ)
    → later < entry.expires_at
    → applies (some entry) later true ≡ true
unfolding applies
applies_live entry later h = ground arith

module _ (U : UrlApi) (H : HeaderApi) (S : HstsStore) (expiry : ℕ → ℕ → Option ℕ) where
  open U use {Url, scheme}
  open H use {HeaderMap}
  open S use {Store, load, remove, load-store, load-remove}

  -- A response over any other scheme than `https` leaves the HSTS store as it is.
  pub record_policy_plaintext :
      (s : Store) (url : Url) (headers : HeaderMap) (now : ℕ)
      → scheme url ≢ codes "https"
      → record_policy U H S expiry s url headers now ≡ s
  unfolding record_policy
  record_policy_plaintext s url headers now h =
      ground (arith, text_eq_iff (scheme url) (codes "https"))

  module _ (s : Store) (url : Url) (headers : HeaderMap) (now : ℕ) (host : Text)
      (sts : StsDirectives) (secure : scheme url ≡ codes "https")
      (named : domain_of U url ≡ some host) (sent : advertised H headers ≡ some sts) where
    record_policy-arm : record_policy U H S expiry s url headers now ≡ arm S expiry s host sts now
    unfolding record_policy
    record_policy-arm = rw (secure, named, sent, text_eq_refl (codes "https")) refl

    load-arm :
        (expires_at : ℕ)
        → sts.max_age ≢ 0
        → expiry now (min sts.max_age max_age_cap_secs) ≡ some expires_at
        → load (arm S expiry s host sts now) host
          ≡ some (record { expires_at = expires_at; include_subdomains = sts.include_subdomains })
    unfolding arm
    load-arm expires_at aged lasts = elim (Bool-cases (sts.max_age == 0)) [
      | inl none_left ↦ absurd (aged (ground arith))
      | inr some_left ↦ rw (some_left, lasts) (load-store s host _)
    ]

    -- A response over `https` from a domain, whose header is readable and says `max-age=0`, removes the
    -- domain's entry.
    pub record_policy_disarms :
        sts.max_age ≡ 0 → load (record_policy U H S expiry s url headers now) host ≡ none
    unfolding arm
    record_policy_disarms zero_age = rw (record_policy-arm, zero_age, arm) (load-remove s host)

    -- After a response over `https` from a domain, whose header is readable and gives an age above 0, a
    -- plain `http` request for that domain is upgraded until the age, or 100 years of 365 days if that
    -- is less, has passed since the response; provided that the clock adds seconds to an instant, and
    -- can represent the next 100 years.
    pub record_policy-should_upgrade :
        (later : ℕ) (next_url : Url)
        → ((d t : ℕ) → expiry now d ≡ some t → t ≡ now + d)
        → ((d : ℕ) → d ≤ 3153600000 → expiry now d ≢ none)
        → sts.max_age ≢ 0
        → later < now + min sts.max_age 3153600000
        → scheme next_url ≡ codes "http"
        → domain_of U next_url ≡ some host
        → should_upgrade U S (record_policy U H S expiry s url headers now) next_url later ≡ true
    unfolding should_upgrade
    record_policy-should_upgrade later next_url adds represents aged before plain same_host =
        elim (Option-cases (expiry now (min sts.max_age max_age_cap_secs))) [
          | inl e ↦ absurd (represents (min sts.max_age max_age_cap_secs) (omega arith) e)
          | inr (expires_at, lasts) ↦
              let entry : HstsEntry = record {
                expires_at = expires_at;
                include_subdomains = sts.include_subdomains;
              } in
              let stored : load (record_policy U H S expiry s url headers now) host ≡ some entry =
                rw record_policy-arm (load-arm expires_at aged lasts) in
              let soon : later < expires_at =
                omega (arith, before, adds (min sts.max_age max_age_cap_secs) expires_at lasts) in
              rw (should_upgrade, plain, same_host, text_eq_refl (codes "http"))
                ((is_known_host_iff _ host later).0.1 (
                  inl (
                    rw (domain_of-normal U url host named, stored)
                      (applies_live entry later soon))))
        ]
