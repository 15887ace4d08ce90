-- ===== src/Proxy/Routes.antt =====
-- The routes of src/net/proxy.rs: which rule answers for a request, and with which credentials.
use gosub_sonar.Prelude.{
  Bool, true, false, ◌||◌, List, [], ◌∷◌, Option, none, some, Text, codes, if◌then◌else◌, any,
  is_some, text_eq, unwrap_or, ◌>>=◌,
}
use gosub_sonar.Proxy.{
  ProxyScope, ProxyRule, ProxyAuth, basic, custom, Destination, bypassed_by_port, bypass_list,
  userinfo_encoded,
}

-- The parts of `url`, `http` and `hyper-util` that the routes use: URLs and their credentials, the
-- destination that a URL is as an `http::Uri`, header values, and the matcher of proxies.
pub record MatcherApi : Type 1 where
  pub Url : Type 0
  pub parse_url : Text → Option Url
  pub as_str : Url → Text
  pub scheme : Url → Text
  pub with_credentials : Url → (username password : Text) → Option Url
  pub clear_credentials : Url → Url
  pub destination : Url → Option Destination
  pub parse_value : Text → Option Text
  pub is_ip_addr : Text → Bool
  pub Matcher : Type 0
  pub Intercept : Type 0
  pub build : ProxyScope → (proxy_url no : Text) → Matcher
  pub from_system : Matcher
  pub intercept : Matcher → Destination → Option Intercept
  pub uri : Intercept → Text
  pub uri_scheme : Intercept → Option Text
  pub basic_auth : Intercept → Option Text

pub data ProxyConfig : Type 0 where
  system disabled : ProxyConfig
  rules : List ProxyRule → ProxyConfig

module _ (M : MatcherApi) where
  open M use {Url, Intercept, Matcher}

  pub data ProxyRoutes : Type 0 where
    by_system : Matcher → ProxyRoutes
    none_at_all : ProxyRoutes
    by_rules : List ProxyRule → ProxyRoutes

  -- `environment` is what `env_rules` reads.
  unfoldable pub resolve : (environment : Option (List ProxyRule)) → ProxyConfig → ProxyRoutes
  resolve (some found) system = by_rules found
  resolve none system = by_system M.from_system
  resolve environment disabled = none_at_all
  resolve environment (rules given) = by_rules given

  unfoldable pub intercept_any : ProxyRule → Url → Destination → Option Intercept
  unfolding bypassed_by_port bypass_list
  intercept_any rule proxy_url dst =
      if bypassed_by_port rule dst
      then none
      else M.intercept
          (M.build rule.scope (M.as_str proxy_url) (unwrap_or (bypass_list M.is_ip_addr rule) []))
          dst

  abbrev pub is_http : Option Text → Bool
  is_http none = false
  is_http (some s) = text_eq s (codes "http") || text_eq s (codes "https")

  abbrev pub only_http : Intercept → Option Intercept
  only_http i = if is_http (M.uri_scheme i) then some i else none

  unfoldable pub intercept : ProxyRule → Url → Destination → Option Intercept
  unfolding intercept_any
  intercept rule proxy_url dst = intercept_any rule proxy_url dst >>= only_http

  unfoldable pub routes : ProxyRule → Destination → Bool
  unfolding intercept_any
  routes rule dst = is_some (M.parse_url rule.url >>= λ u. intercept_any rule u dst)

  unfoldable pub with_auth : ProxyAuth → Url → Option Url
  unfolding userinfo_encoded
  with_auth (basic username password) u =
      M.with_credentials u (userinfo_encoded username) (userinfo_encoded password)
  with_auth (custom value) u = some u

  unfoldable pub answer : ProxyAuth → Intercept → Option Text
  answer (basic username password) i = M.basic_auth i
  answer (custom value) i = M.parse_value value

  unfoldable pub non_tunnel_authorization : ProxyRule → Destination → Option Text
  unfolding with_auth answer intercept
  non_tunnel_authorization rule dst = rule.auth >>= λ auth. M.parse_url rule.url >>= λ parsed.
      with_auth auth parsed >>= λ proxy_url. intercept rule proxy_url dst >>= λ i. answer auth i

  unfoldable pub proxy_of : Intercept → Option Url
  proxy_of i = M.parse_url (M.uri i) >>= λ u. some (M.clear_credentials u)

  unfoldable pub non_tunnel_proxy : ProxyRule → Destination → Option Url
  unfolding intercept proxy_of
  non_tunnel_proxy rule dst =
      M.parse_url rule.url >>= λ proxy_url. intercept rule proxy_url dst >>= proxy_of

  -- `rules.iter().find(|rule| rule.routes(&dst))`.
  unfoldable pub find_rule : Destination → List ProxyRule → Option ProxyRule
  unfolding routes
  find_rule dst [] = none
  find_rule dst (rule ∷ rest) = if routes rule dst then some rule else find_rule dst rest

  unfoldable pub proxy_authorization : ProxyRoutes → Url → Option Text
  unfolding find_rule non_tunnel_authorization
  proxy_authorization (by_rules given) url =
      if text_eq (M.scheme url) (codes "http")
      then (M.destination url >>= λ dst.
          find_rule dst given >>= λ rule. non_tunnel_authorization rule dst)
      else none
  proxy_authorization (by_system m) url = none
  proxy_authorization none_at_all url = none

  unfoldable pub http_proxy : ProxyRoutes → Url → Option Url
  unfolding find_rule non_tunnel_proxy proxy_of
  http_proxy (by_rules given) url =
      M.destination url >>= λ dst. find_rule dst given >>= λ rule. non_tunnel_proxy rule dst
  http_proxy (by_system m) url =
      M.destination url >>= λ dst. M.intercept m dst >>= only_http >>= proxy_of
  http_proxy none_at_all url = none

  unfoldable pub routes_through_proxy : ProxyRoutes → Url → Bool
  unfolding routes
  routes_through_proxy (by_rules given) url = elim (M.destination url) [
    | none ↦ true
    | some dst ↦ any (λ rule. routes rule dst) given
  ]
  routes_through_proxy (by_system m) url = elim (M.destination url) [
    | none ↦ true
    | some dst ↦ is_some (M.intercept m dst)
  ]
  routes_through_proxy none_at_all url = elim (M.destination url) [ none ↦ true | some dst ↦ false ]
