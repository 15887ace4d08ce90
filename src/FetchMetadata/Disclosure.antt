-- ===== src/FetchMetadata/Disclosure.antt =====
-- What the headers of src/net/fetch_metadata.rs tell a server, and when.
use gosub_sonar.Prelude.{
  ℕ, subst, none, sym, ◌∙◌, inl, text_eq_iff, ◌≡◌, ◌≢◌, refl, ◌⊎◌, ◌↔◌, inr, Bool, false, not, ◌&&◌,
  ◌||◌, List, [], ◌∷◌, Option, some, Text, codes, text_eq, if◌then◌else◌, arith,
}
use gosub_sonar.Web.Headers.{HeaderApi}
use gosub_sonar.Web.Urls.{UrlApi, Host, Origin, opaque, tuple}
use gosub_sonar.MixedContent.{is_potentially_trustworthy}
use gosub_sonar.Referrer.{ReferrerPolicy}
use gosub_sonar.FetchMetadata.Kinds.{
  RequestDestination, is_navigation, destination_str, RequestMode, mode_str, SecFetchSite, site_str,
}
use gosub_sonar.FetchMetadata.Rules.{
  is_cors, is_websocket, cloaked, classify_tuples, classify_site, sec_fetch_dest, sec_fetch_mode,
  sec_fetch_site, sec_fetch_user, apply_sec_fetch_headers, capped_origin, tuple_origin,
  origin_header_value,
}

-- The values that a hop has for the headers about it; other headers keep theirs.
abbrev pub told :
    Bool → RequestDestination → RequestMode → SecFetchSite → Bool → Text → List Text → List Text
told trusted destination mode site user_activated n before =
    if text_eq sec_fetch_user n
    then (if trusted && is_navigation destination && user_activated then codes "?1" ∷ [] else [])
    else if text_eq sec_fetch_site n
    then (if trusted then site_str site ∷ [] else [])
    else if text_eq sec_fetch_mode n
    then (if trusted then mode_str mode ∷ [] else [])
    else if text_eq sec_fetch_dest n
    then (if trusted then destination_str destination ∷ [] else [])
    else before

module _ (H : HeaderApi) (U : UrlApi) where
  open H use {HeaderMap, get_all, insert, remove, get_all-insert, get_all-remove}
  open U use {Url}

  get_all-removed :
      (h : HeaderMap) (n : Text)
      → get_all
          (remove
            (remove (remove (remove h sec_fetch_dest) sec_fetch_mode) sec_fetch_site)
            sec_fetch_user)
          n
        ≡ (if text_eq sec_fetch_user n
              || text_eq sec_fetch_site n
              || text_eq sec_fetch_mode n
              || text_eq sec_fetch_dest n
            then []
            else get_all h n)
  get_all-removed h n =
      let a = remove h sec_fetch_dest in
      let b = remove a sec_fetch_mode in
      let c = remove b sec_fetch_site in
      ground (
        arith,
        get_all-remove h sec_fetch_dest n,
        get_all-remove a sec_fetch_mode n,
        get_all-remove b sec_fetch_site n,
        get_all-remove c sec_fetch_user n,
      )

  get_all-inserted :
      (h : HeaderMap) (x y z n : Text)
      → get_all (insert (insert (insert h sec_fetch_dest x) sec_fetch_mode y) sec_fetch_site z) n
        ≡ (if text_eq sec_fetch_site n
            then z ∷ []
            else if text_eq sec_fetch_mode n
            then y ∷ []
            else if text_eq sec_fetch_dest n
            then x ∷ []
            else get_all h n)
  get_all-inserted h x y z n =
      let a = insert h sec_fetch_dest x in
      let b = insert a sec_fetch_mode y in
      ground (
        arith,
        get_all-insert h sec_fetch_dest x n,
        get_all-insert a sec_fetch_mode y n,
        get_all-insert b sec_fetch_site z n,
      )

  -- Only a potentially trustworthy target is told the destination, the mode and the site of a request,
  -- and whether a user's action led to a navigation; for any other the four headers are absent, even
  -- if an earlier hop had them. No other header changes.
  pub apply_sec_fetch_headers_lem :
      (headers : HeaderMap) (target : Url) (destination : RequestDestination) (mode : RequestMode)
      (site : SecFetchSite) (user_activated : Bool) (n : Text)
      → get_all (apply_sec_fetch_headers H U headers target destination mode site user_activated) n
        ≡ told
            (is_potentially_trustworthy U target)
            destination
            mode
            site
            user_activated
            n
            (get_all headers n)
  unfolding apply_sec_fetch_headers
  apply_sec_fetch_headers_lem headers target destination mode site user_activated n =
      let three =
        insert
          (insert (insert headers sec_fetch_dest (destination_str destination)) sec_fetch_mode
            (mode_str mode))
          sec_fetch_site (site_str site) in
      ground (
        arith,
        get_all-removed headers n,
        get_all-inserted headers (destination_str destination) (mode_str mode) (site_str site) n,
        get_all-insert three sec_fetch_user (codes "?1") n,
        get_all-remove three sec_fetch_user n,
      )

module _ (U : UrlApi) where
  open U use {Url, scheme, origin as url_origin, origin_eq, origin_eq_iff, ascii_serialization}

  abbrev pub scheme_of : Origin → Option Text
  scheme_of (opaque n) = none
  scheme_of (tuple s h port) = some s

  -- The policies that mind a downgrade.
  abbrev pub MindsDowngrade : ReferrerPolicy → Type 0
  MindsDowngrade policy =
      (policy ≡ ReferrerPolicy.no_referrer_when_downgrade)
      ⊎ (policy ≡ ReferrerPolicy.strict_origin)
      ⊎ (policy ≡ ReferrerPolicy.strict_origin_when_cross_origin)

  -- The referrer policy lets a target see an origin: `no-referrer` shows it to none, `same-origin`
  -- to targets of that origin, and the policies that mind a downgrade show an `https` origin to
  -- `https` targets alone.
  pub record Shows (policy : ReferrerPolicy) (initiator : Origin) (target : Url) : Type 0 where
    pub some_referrer : policy ≢ ReferrerPolicy.no_referrer
    pub same : policy ≡ ReferrerPolicy.same_origin → initiator ≡ url_origin target
    pub no_downgrade :
        MindsDowngrade policy
        → scheme_of initiator ≡ some (codes "https")
        → scheme target ≡ codes "https"

  abbrev leaves_https : Text → Url → Bool
  leaves_https s target = text_eq s (codes "https") && not (text_eq (scheme target) (codes "https"))

  abbrev leaves_origin : Origin → Url → Bool
  leaves_origin initiator target = not (origin_eq initiator (url_origin target))

  minds-cloaked :
      (policy : ReferrerPolicy) (leaves crosses : Bool)
      → MindsDowngrade policy
      → cloaked policy leaves crosses ≡ leaves
  unfolding cloaked
  minds-cloaked policy leaves crosses (inl e) = rw e refl
  minds-cloaked policy leaves crosses (inr (inl e)) = rw e refl
  minds-cloaked policy leaves crosses (inr (inr e)) = rw e refl

  stays :
      (s : Text) (target : Url)
      → leaves_https s target ≡ false
      → s ≡ codes "https"
      → scheme target ≡ codes "https"
  stays s target e same =
      (text_eq_iff (scheme target) (codes "https")).0
        (ground (arith, e, (text_eq_iff s (codes "https")).1 same))

  cloaked-Shows :
      (policy : ReferrerPolicy) (s : Text) (h : Host) (port : ℕ) (target : Url)
      → cloaked policy (leaves_https s target) (leaves_origin (tuple s h port) target) ≡ false
      → Shows policy (tuple s h port) target
  unfolding cloaked
  cloaked-Shows policy s h port target e = record {
    some_referrer = λ p. cc (
        subst
          (λ x. cloaked x (leaves_https s target) (leaves_origin (tuple s h port) target) ≡ false) p
          e);
    same = λ p.
        let crosses : leaves_origin (tuple s h port) target ≡ false =
          subst
            (λ x. cloaked x (leaves_https s target) (leaves_origin (tuple s h port) target) ≡ false)
            p e in
        (origin_eq_iff (tuple s h port) (url_origin target)).0 (ground (arith, crosses));
    no_downgrade =
        λ m same. stays s target (sym (minds-cloaked policy _ _ m) ∙ e) (ground (arith, same));
  }

  is_cors_iff : (mode : RequestMode) → mode ≢ RequestMode.cors → is_cors mode ≡ false
  unfolding is_cors
  is_cors_iff RequestMode.cors n = absurd (n refl)
  is_cors_iff _ n = refl

  is_websocket_iff : (mode : RequestMode) → mode ≢ RequestMode.websocket → is_websocket mode ≡ false
  unfolding is_websocket
  is_websocket_iff RequestMode.websocket n = absurd (n refl)
  is_websocket_iff _ n = refl

  -- A hop that names the initiating origin, by a value other than `null`, has not been tainted by a
  -- redirect, and its initiator is the origin that it names; and unless the mode is cors or
  -- websocket, the referrer policy lets that target see it: it is not `no-referrer`; the target has
  -- that origin if it is `same-origin`; and if it is one of the three that mind a downgrade, an
  -- `https` origin is named to `https` targets alone.
  pub origin_header_value_discloses :
      (initiator : Origin) (tainted : Bool) (method : Text) (mode : RequestMode)
      (policy : ReferrerPolicy) (target : Url) (v : Text)
      → origin_header_value U initiator tainted method mode policy target ≡ some v
      → v ≢ codes "null"
      → (v ≡ ascii_serialization initiator)
        × (tainted ≡ false)
        × (mode ≢ RequestMode.cors → mode ≢ RequestMode.websocket → Shows policy initiator target)
  unfolding origin_header_value tuple_origin capped_origin
  origin_header_value_discloses (opaque n) tainted method mode policy target v e named =
      absurd (ground (arith, named))
  origin_header_value_discloses (tuple s h p) tainted method mode policy target v e named = (
    ground (arith, named),
    ground (arith, named),
    λ c w.
        cloaked-Shows policy s h p target
          (ground (arith, named, is_cors_iff mode c, is_websocket_iff mode w)),
  )

  classify_tuples-cases :
      (registrable_domain : Text → Option Text) (a b : Origin)
      → (classify_tuples registrable_domain U a b ≡ SecFetchSite.same_site)
        ⊎ (classify_tuples registrable_domain U a b ≡ SecFetchSite.cross_site)
  unfolding classify_tuples
  classify_tuples-cases registrable_domain (opaque n) b = inr refl
  classify_tuples-cases registrable_domain (tuple s h p) (opaque n) = inr refl
  classify_tuples-cases registrable_domain (tuple s h p) (tuple t i q) = ground arith

  -- The site of a hop is the same origin exactly if the target has the initiator's origin, and a hop
  -- is never reported as one without an initiator.
  pub classify_site_iff :
      (registrable_domain : Text → Option Text) (initiator : Origin) (target : Url)
      → ((classify_site registrable_domain U initiator target ≡ SecFetchSite.same_origin)
          ↔ (initiator ≡ url_origin target))
        × (classify_site registrable_domain U initiator target ≢ SecFetchSite.no_site)
  unfolding classify_site
  classify_site_iff registrable_domain initiator target = ground (
    arith,
    origin_eq_iff initiator (url_origin target),
    classify_tuples-cases registrable_domain initiator (url_origin target),
  )
