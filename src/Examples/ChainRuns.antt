-- ===== src/Examples/ChainRuns.antt =====
-- A redirect of src/net/fetch/chain.rs to another origin.
use gosub_sonar.Prelude.{
  ℕ, ◌+◌, ◌≡◌, refl, inl, inr, Bool, true, false, List, [], ◌∷◌, ◌++◌, Option, none, some, Text,
  codes,
}
use gosub_sonar.Web.Urls.{domain}
use gosub_sonar.Examples.Apis.{record_api, lines_api, Url}
use gosub_sonar.Cors.Kinds.{ResponseTainting}
use gosub_sonar.FetchMetadata.Kinds.{RequestMode, SecFetchSite}
use gosub_sonar.Referrer.{ReferrerPolicy}
use gosub_sonar.Chain.{RedirectApi, HopChain, HopResponse, Init, from_of}
use gosub_sonar.Chain.Crossing.{
  IsLeft, HasMethodAfter, follow_redirect-leaves, follow_redirect-downgrades,
}

-- A `Location` is a host here.
abbrev joins : RedirectApi record_api
joins = record {
  join = λ u t. inr (record u { host = domain t });
  fragment = λ u. some u.fragment;
  set_fragment = λ u f. u;
  username = λ u. u.credentials;
  password = λ u. none;
  is_utf8 = λ t. true;
  Body = Text;
  username-clear_credentials = λ u. refl;
  password-clear_credentials = λ u. refl;
}

abbrev url_at : Text → Url
url_at name = record {
  scheme = codes "https";
  host = domain name;
  port = none;
  credentials = [];
  path = codes "/";
  query = [];
  fragment = [];
}

abbrev login : HopChain record_api lines_api joins
login = record {
  url = url_at (codes "a");
  method = codes "POST";
  headers =
      (codes "authorization", codes "k")
      ∷ (codes "content-type", codes "t")
      ∷ (codes "x", codes "y")
      ∷ [];
  body = some (codes "b");
  url_list = [];
  referrer = none;
  referrer_policy = ReferrerPolicy.no_referrer;
  site = SecFetchSite.same_origin;
  origin_tainted = false;
  taint_reported = false;
  cookie_from_jar = false;
  tainting = ResponseTainting.basic;
  redirects = 0;
  redirect_deadline = none;
}

abbrev to_c : HopResponse record_api lines_api joins
to_c = record {
  answered_at = some (url_at (codes "a"));
  status = 302;
  headers = (codes "location", codes "c") ∷ [];
}

abbrev init : Init record_api lines_api joins
init = record { mode = RequestMode.navigate; origin = none; referrer = none }

abbrev landed : HopChain record_api lines_api joins
landed = record login {
  url = url_at (codes "c");
  method = codes "GET";
  headers = (codes "x", codes "y") ∷ [];
  body = none;
  url_list = url_at (codes "a") ∷ [];
  redirects = 1;
}

follow_redirect-leaves_example :
    IsLeft record_api lines_api joins login
      (record_api.origin (from_of record_api lines_api joins to_c login))
      landed
unfolding gosub_sonar.Chain.follow_redirect gosub_sonar.Web.Headers.values_of
    gosub_sonar.Prelude.text_eq gosub_sonar.Examples.Apis.same_origin
    gosub_sonar.Examples.Apis.drop_name
follow_redirect-leaves_example =
    follow_redirect-leaves record_api lines_api joins init to_c true login landed refl

follow_redirect-downgrades_example : HasMethodAfter record_api lines_api joins 302 login landed
unfolding gosub_sonar.Chain.follow_redirect gosub_sonar.Web.Headers.values_of
    gosub_sonar.Prelude.text_eq gosub_sonar.Examples.Apis.same_origin
    gosub_sonar.Examples.Apis.drop_name
follow_redirect-downgrades_example =
    follow_redirect-downgrades record_api lines_api joins init to_c true login landed refl
