-- ===== src/Proxy/Credentials.antt =====
-- Whose credentials src/net/proxy.rs sends: those of the proxy that a request goes through.
use gosub_sonar.Prelude.{
  ◌≡◌, refl, ap, ◌∙◌, subst, ◌⊎◌, inl, inr, true, false, List, [], ◌∷◌, ◌++◌, Option, none, some,
  Text, codes, any, text_eq, text_eq_iff, ◌>>=◌, All, arith, Bool-cases,
}
use gosub_sonar.Proxy.{ProxyAuth, basic, custom, userinfo_encoded, ProxyRule, Destination}
use gosub_sonar.Proxy.Routes.{
  is_http, intercept_any, intercept, with_auth, answer, MatcherApi, ProxyRoutes, by_system,
  none_at_all, by_rules, routes, find_rule, non_tunnel_authorization, proxy_authorization,
  http_proxy, routes_through_proxy, only_http, proxy_of,
}

>>=-some :
    {A B : Type 0} (o : Option A) (k : A → Option B) (b : B)
    → (o >>= k) ≡ some b
    → (a : A) × (o ≡ some a) × (k a ≡ some b)
>>=-some none k b e = absurd (cc e)
>>=-some (some a) k b e = (a, refl, e)

module _ (M : MatcherApi) where
  -- The rule is the first one that routes the request.
  pub record IsFirst (dst : Destination) (given : List ProxyRule) (rule : ProxyRule) : Type 0 where
    pub before : List ProxyRule
    pub behind : List ProxyRule
    pub split_as : given ≡ before ++ rule ∷ behind
    pub passed : All (λ r. routes M r dst ≡ false) before
    pub routed : routes M rule dst ≡ true

  find_rule-IsFirst :
      (dst : Destination) (given : List ProxyRule) (rule : ProxyRule)
      → find_rule M dst given ≡ some rule
      → IsFirst dst given rule
  unfolding find_rule
  find_rule-IsFirst dst [] rule e = absurd (cc e)
  find_rule-IsFirst dst (r ∷ given) rule e = elim (Bool-cases (routes M r dst)) [
    | inl yes_it ↦ record {
      before = [];
      behind = given;
      split_as = ground arith;
      passed = tt;
      routed = ground arith;
    }
    | inr passes ↦
        let f = find_rule-IsFirst dst given rule (ground arith) in
        record {
          before = r ∷ f.before;
          behind = f.behind;
          split_as = ap (λ l. r ∷ l) f.split_as;
          passed = (passes, f.passed);
          routed = f.routed;
        }
  ]

  -- The proxy's URL that the matcher is given, with the user name and the password if there are any.
  abbrev pub IsProxyUrl : ProxyAuth → (parsed proxy_url : M.Url) → Type 0
  IsProxyUrl (basic username password) parsed proxy_url =
      M.with_credentials parsed (userinfo_encoded username) (userinfo_encoded password)
      ≡ some proxy_url
  IsProxyUrl (custom value) parsed proxy_url = parsed ≡ proxy_url

  -- What is sent: the matcher's `Basic` credentials of that URL, or the configured value.
  abbrev pub IsAnswer : ProxyAuth → M.Intercept → Text → Type 0
  IsAnswer (basic username password) i sent = M.basic_auth i ≡ some sent
  IsAnswer (custom value) i sent = M.parse_value value ≡ some sent

  -- The value is made of the credentials of the rule, whose proxy is an http proxy that the request
  -- goes through.
  pub record IsMadeOf (rule : ProxyRule) (dst : Destination) (value : Text) : Type 0 where
    pub auth : ProxyAuth
    pub configured : rule.auth ≡ some auth
    pub parsed : M.Url
    pub named : M.parse_url rule.url ≡ some parsed
    pub proxy_url : M.Url
    pub with_them : IsProxyUrl auth parsed proxy_url
    pub taken : M.Intercept
    pub through : intercept_any M rule proxy_url dst ≡ some taken
    pub http_proxy :
        (M.uri_scheme taken ≡ some (codes "http")) ⊎ (M.uri_scheme taken ≡ some (codes "https"))
    pub answered : IsAnswer auth taken value

  is_http_sound :
      (o : Option Text)
      → is_http M o ≡ true
      → (o ≡ some (codes "http")) ⊎ (o ≡ some (codes "https"))
  is_http_sound none e = absurd (cc e)
  is_http_sound (some s) e = elim (Bool-cases (text_eq s (codes "http"))) [
    | inl h ↦ inl (ap some ((text_eq_iff s (codes "http")).0 h))
    | inr n ↦ inr (ap some ((text_eq_iff s (codes "https")).0 (ground (arith, e, n))))
  ]

  only_http_sound :
      (i j : M.Intercept)
      → only_http M i ≡ some j
      → (i ≡ j) × ((M.uri_scheme j ≡ some (codes "http")) ⊎ (M.uri_scheme j ≡ some (codes "https")))
  only_http_sound i j e = elim (Bool-cases (is_http M (M.uri_scheme i))) [
    | inl h ↦
        let same : i ≡ j = ground (arith, e, h) in
        (
          same,
          is_http_sound (M.uri_scheme j) (subst (λ k. is_http M (M.uri_scheme k) ≡ true) same h),
        )
    | inr n ↦ absurd (ground (arith, e, n))
  ]

  with_auth-IsProxyUrl :
      (auth : ProxyAuth) (parsed proxy_url : M.Url)
      → with_auth M auth parsed ≡ some proxy_url
      → IsProxyUrl auth parsed proxy_url
  unfolding with_auth
  with_auth-IsProxyUrl (basic username password) parsed proxy_url e = e
  with_auth-IsProxyUrl (custom value) parsed proxy_url e = ground (arith, e)

  answer-IsAnswer :
      (auth : ProxyAuth) (i : M.Intercept) (value : Text)
      → answer M auth i ≡ some value
      → IsAnswer auth i value
  unfolding answer
  answer-IsAnswer (basic username password) i value e = e
  answer-IsAnswer (custom given) i value e = e

  non_tunnel_authorization-IsMadeOf :
      (rule : ProxyRule) (dst : Destination) (value : Text)
      → non_tunnel_authorization M rule dst ≡ some value
      → IsMadeOf rule dst value
  unfolding non_tunnel_authorization intercept
  non_tunnel_authorization-IsMadeOf rule dst value e =
      let (auth, a, e1) = >>=-some rule.auth _ value e in
      let (parsed, p, e2) = >>=-some (M.parse_url rule.url) _ value e1 in
      let (proxy_url, w, e3) = >>=-some (with_auth M auth parsed) _ value e2 in
      let (j, n, e4) = >>=-some (intercept_any M rule proxy_url dst >>= only_http M) _ value e3 in
      let (i, t, k) = >>=-some (intercept_any M rule proxy_url dst) (only_http M) j n in
      let (same, http) = only_http_sound i j k in
      record {
        auth = auth;
        configured = a;
        parsed = parsed;
        named = p;
        proxy_url = proxy_url;
        with_them = with_auth-IsProxyUrl auth parsed proxy_url w;
        taken = j;
        through = t ∙ ap some same;
        http_proxy = http;
        answered = answer-IsAnswer auth j value e4;
      }

  -- A `Proxy-Authorization` is sent on `http` requests only, and it is made of the credentials of the
  -- first rule that routes the request, and only if the proxy that this rule puts the request
  -- through is an http or https one: a rule without credentials, or with another kind of proxy, sends
  -- none, whatever the rules behind it have.
  pub proxy_authorization-IsFirst :
      (given : List ProxyRule) (url : M.Url) (value : Text)
      → proxy_authorization M (by_rules given) url ≡ some value
      → (M.scheme url ≡ codes "http")
        × ((dst : Destination) × (rule : ProxyRule) × (M.destination url ≡ some dst)
            × IsFirst dst given rule
            × IsMadeOf rule dst value)
  unfolding proxy_authorization
  proxy_authorization-IsFirst given url value e =
      elim (Bool-cases (text_eq (M.scheme url) (codes "http"))) [
        | inr other ↦ absurd (ground (arith, e, other))
        | inl plain ↦
            let (dst, d, e1) =
              >>=-some (M.destination url)
                (λ dst. find_rule M dst given >>= λ rule. non_tunnel_authorization M rule dst) value
                (ground (arith, e, plain)) in
            let (rule, f, e2) = >>=-some (find_rule M dst given) _ value e1 in
            (
              (text_eq_iff (M.scheme url) (codes "http")).0 plain,
              (
                dst,
                rule,
                d,
                find_rule-IsFirst dst given rule f,
                non_tunnel_authorization-IsMadeOf rule dst value e2,
              ),
            )
      ]

  any_found :
      (dst : Destination) (given : List ProxyRule) (rule : ProxyRule)
      → find_rule M dst given ≡ some rule
      → any (λ r. routes M r dst) given ≡ true
  unfolding find_rule
  any_found dst [] rule e = absurd (cc e)
  any_found dst (r ∷ given) rule e = ground (arith, any_found dst given rule)

  -- A request that has an http proxy counts as one that goes through a proxy, whatever the routes.
  pub http_proxy-routes_through_proxy :
      (r : ProxyRoutes M) (url proxy : M.Url)
      → http_proxy M r url ≡ some proxy
      → routes_through_proxy M r url ≡ true
  unfolding http_proxy routes_through_proxy
  http_proxy-routes_through_proxy (by_rules given) url proxy e =
      let (dst, d, e1) = >>=-some (M.destination url) _ proxy e in
      let (rule, f, e2) = >>=-some (find_rule M dst given) _ proxy e1 in
      rw (d, routes_through_proxy) (any_found dst given rule f)
  http_proxy-routes_through_proxy (by_system m) url proxy e =
      let (dst, d, e1) = >>=-some (M.destination url) _ proxy e in
      let (i, o, e2) = >>=-some (M.intercept m dst >>= only_http M) (proxy_of M) proxy e1 in
      let (j, t, e0) = >>=-some (M.intercept m dst) _ i o in
      rw (d, routes_through_proxy) (rw (t, routes_through_proxy) refl)
  http_proxy-routes_through_proxy none_at_all url proxy e = absurd (cc e)
