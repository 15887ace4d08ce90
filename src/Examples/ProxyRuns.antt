-- ===== src/Examples/ProxyRuns.antt =====
-- The proxy rules of src/net/proxy.rs at work, with a matcher that takes every request.
use gosub_sonar.Prelude.{
  ℕ, ◌<◌, ◌≡◌, refl, Bool, true, false, List, [], ◌∷◌, ◌++◌, Option, none, some, Text, codes, arith,
  is_some,
}
use gosub_sonar.Proxy.{ProxyRule, basic, all, new, Destination, userinfo_encoded}
use gosub_sonar.Proxy.Userinfo.{percent_decode, percent_decode-userinfo_encoded}
use gosub_sonar.Proxy.Routes.{MatcherApi, proxy_authorization}
use gosub_sonar.Proxy.Credentials.{IsFirst, IsMadeOf, proxy_authorization-IsFirst}

percent_decode-userinfo_encoded_example :
    percent_decode (userinfo_encoded (codes "a%")) ≡ codes "a%"
percent_decode-userinfo_encoded_example =
    percent_decode-userinfo_encoded (codes "a%") (omega arith, (omega arith, tt))

-- A URL is its text, on host `h`; a matcher is the text of its proxy, which holds the credentials.
abbrev api : MatcherApi
api = record {
  Url = Text;
  parse_url = some;
  as_str = λ u. u;
  scheme = λ u. codes "http";
  with_credentials = λ u name word. some (name ++ word);
  clear_credentials = λ u. u;
  destination =
      λ u. some (record { scheme = some (codes "http"); host = some (codes "h"); port = none });
  parse_value = some;
  is_ip_addr = λ t. false;
  Matcher = Text;
  Intercept = Text;
  build = λ scope u no. u;
  from_system = [];
  intercept = λ m dst. some m;
  uri = λ i. i;
  uri_scheme = λ i. some (codes "http");
  basic_auth = some;
}

abbrev with_pair : ProxyRule
with_pair = record (new all (codes "p")) { auth = some (basic (codes "u") (codes "w")) }

abbrev given : List ProxyRule
given = with_pair ∷ new all (codes "q") ∷ []

proxy_authorization-IsFirst_example :
    (codes "http" ≡ codes "http")
    × ((dst : Destination) × (rule : ProxyRule) × (api.destination (codes "x") ≡ some dst)
        × IsFirst api dst given rule
        × IsMadeOf api rule dst (codes "uw"))
unfolding proxy_authorization gosub_sonar.Prelude.text_eq
proxy_authorization-IsFirst_example =
    proxy_authorization-IsFirst api given (codes "x") (codes "uw") refl
