-- ===== src/Web/Parts.antt =====
-- The parts of a `url::Url` that can say something about its owner, and what clearing some of them
-- does to an `http` or `https` URL.
use gosub_sonar.Prelude.{◌≡◌, ◌⊎◌, [], Option, none, Text, codes}
use gosub_sonar.Web.Urls.{UrlApi}

-- An `http` or `https` URL, which has a host and a path.
abbrev pub IsWeb : (U : UrlApi) → U.Url → Type 0
IsWeb U u = (U.scheme u ≡ codes "http") ⊎ (U.scheme u ≡ codes "https")

pub record UrlParts (U : UrlApi) : Type 1 where
  pub username : U.Url → Text
  pub password : U.Url → Option Text
  pub query : U.Url → Option Text
  pub fragment : U.Url → Option Text
  -- What is cleared is gone.
  pub fragment-clear_fragment : (u : U.Url) → fragment (U.clear_fragment u) ≡ none
  pub query-clear_query : (u : U.Url) → query (U.clear_query u) ≡ none
  pub username-clear_credentials : (u : U.Url) → IsWeb U u → username (U.clear_credentials u) ≡ []
  pub password-clear_credentials : (u : U.Url) → IsWeb U u → password (U.clear_credentials u) ≡ none
  pub path-clear_path : (u : U.Url) → IsWeb U u → U.path (U.clear_path u) ≡ codes "/"
  -- And the rest stays.
  pub fragment-clear_credentials : (u : U.Url) → fragment (U.clear_credentials u) ≡ fragment u
  pub fragment-clear_path : (u : U.Url) → fragment (U.clear_path u) ≡ fragment u
  pub fragment-clear_query : (u : U.Url) → fragment (U.clear_query u) ≡ fragment u
  pub username-clear_path : (u : U.Url) → username (U.clear_path u) ≡ username u
  pub username-clear_query : (u : U.Url) → username (U.clear_query u) ≡ username u
  pub password-clear_path : (u : U.Url) → password (U.clear_path u) ≡ password u
  pub password-clear_query : (u : U.Url) → password (U.clear_query u) ≡ password u
  pub path-clear_query : (u : U.Url) → U.path (U.clear_query u) ≡ U.path u
  pub origin-clear_fragment : (u : U.Url) → U.origin (U.clear_fragment u) ≡ U.origin u
  pub origin-clear_credentials : (u : U.Url) → U.origin (U.clear_credentials u) ≡ U.origin u
  pub origin-clear_path : (u : U.Url) → IsWeb U u → U.origin (U.clear_path u) ≡ U.origin u
  pub origin-clear_query : (u : U.Url) → U.origin (U.clear_query u) ≡ U.origin u
