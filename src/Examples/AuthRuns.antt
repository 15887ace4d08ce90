-- ===== src/Examples/AuthRuns.antt =====
-- Credentials and challenges of src/net/auth.rs at work.
use gosub_sonar.Prelude.{
  ℕ, ◌<◌, ◌≡◌, refl, inl, inr, Bool, true, false, List, [], ◌∷◌, ◌++◌, Option, none, some, Text,
  codes, arith, all, All, split_once, to_ascii_lowercase,
}
use gosub_sonar.Auth.{server}
use gosub_sonar.Auth
use gosub_sonar.Auth.Encoding.{Credentials, basic, header_value}
use gosub_sonar.Auth.Decoding.{decode, header_value-decode}
use gosub_sonar.Auth.Challenges.{as_param, is_token_char}
use gosub_sonar.Auth.Quoting.{escape, as_param-escape}
use gosub_sonar.Auth.Store.{ProtectionSpace, store, upfront_for}
use gosub_sonar.Auth.Upfront.{World, Reach, here, next, stores, accepts, accept, empty}
use gosub_sonar.Auth.Sent.{IsDue, Reach-upfront_for}
use gosub_sonar.Examples.Apis.{record_api, url_at, Url}

abbrev user : Text
user = codes "Al"

abbrev secret : Text
secret = codes "a:b"

header_value-decode_example :
    (text : Text) × (codes "Basic QWw6YTpi" ≡ codes "Basic " ++ text)
    × (split_once b':' (decode text) ≡ (user, some secret))
unfolding header_value
header_value-decode_example =
    header_value-decode some (λ s t e. ground arith) user secret (codes "Basic QWw6YTpi")
      (omega arith, (omega arith, tt)) (omega arith, (omega arith, (omega arith, tt))) refl

as_param-escape_example :
    as_param ((b'Q' ∷ codes "op") ++ b'=' ∷ b'"' ∷ (escape (codes "a\"b") ++ b'"' ∷ []))
    ≡ some (to_ascii_lowercase (b'Q' ∷ codes "op"), codes "a\"b")
unfolding is_token_char
as_param-escape_example = as_param-escape b'Q' (codes "op") (codes "a\"b") refl

abbrev page : Url
page = url_at (codes "https") (codes "a.example") (codes "/docs/page")

abbrev space : ProtectionSpace
space = record {
  target = server;
  scheme = Auth.basic;
  origin = some (record_api.ascii_serialization (record_api.origin page));
  realm = codes "docs";
}

abbrev pair : Credentials
pair = basic user secret

abbrev a1 : World record_api
a1 = record (empty record_api) { credentials = store space pair (empty record_api).credentials }

abbrev a2 : World record_api
a2 = accept record_api space page a1

reached_a2 : Reach record_api (empty record_api) a2
reached_a2 = next (next here (stores space pair)) (accepts space page)

a2-upfront : upfront_for record_api page a2.credentials ≡ some (space, pair)
unfolding upfront_for gosub_sonar.Auth.Store.accepted_at gosub_sonar.Auth.Store.target_eq
    gosub_sonar.Auth.Store.scheme_eq gosub_sonar.Prelude.lookup store gosub_sonar.Prelude.insert
    gosub_sonar.Auth.Store.space_eq gosub_sonar.Prelude.text_eq gosub_sonar.Examples.Apis.serialized
    gosub_sonar.Auth.Store.directory_of
a2-upfront = refl

Reach-upfront_for_example : IsDue record_api a2 page space pair
Reach-upfront_for_example = Reach-upfront_for record_api page space pair reached_a2 a2-upfront
