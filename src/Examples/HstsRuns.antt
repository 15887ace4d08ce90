-- ===== src/Examples/HstsRuns.antt =====
-- The HSTS store of src/net/hsts.rs at work.
use gosub_sonar.Prelude.{
  ℕ, ◌+◌, ◌≤◌, ◌≡◌, ◌≢◌, refl, Bool, true, false, List, [], ◌∷◌, Option, none, some, Text, codes,
  arith, length, lookup, text_key, IsMap, All, text_eq, text_eq_iff, min,
}
use gosub_sonar.Hsts.Grammar.{
  is_tchar, directives_from, directives, Directive, parse_sts, StsDirectives,
}
use gosub_sonar.Hsts.RoundTrip.{render, IsWritable, directives-render}
use gosub_sonar.Hsts.Fuel.{Runs, directives-Runs}
use gosub_sonar.Hsts.Store.{HstsEntry, Entries, store_in, lookup-store_in}
use gosub_sonar.Hsts.Policy.{record_policy, should_upgrade, domain_of, advertised}
use gosub_sonar.Hsts.Effects.{record_policy-should_upgrade}
use gosub_sonar.Examples.Apis.{lines_api, record_api, entries_store, url_at, Url, Lines}

abbrev sts_value : Text
sts_value = codes "max-age=31; includeSubDomains"

abbrev written : List Directive
written = (codes "a", some (codes "x;y")) ∷ (codes "b", none) ∷ []

written-IsWritable : All IsWritable written
unfolding is_tchar
written-IsWritable = ((refl, tt), ((refl, tt), tt))

directives-render_example : directives (render written) ≡ some written
directives-render_example = directives-render written written-IsWritable

directives-Runs_example : Runs (codes "a;b") (directives (codes "a;b"))
directives-Runs_example = directives-Runs (codes "a;b")

abbrev sts : StsDirectives
sts = record { max_age = 31; include_subdomains = true }

abbrev host : Text
host = codes "a.b"

abbrev entry : HstsEntry
entry = record { expires_at = 9; include_subdomains = true }

abbrev one_entry : Entries
one_entry = (host, entry) ∷ []

lookup-store_in_example : lookup (codes "c") (store_in 3 one_entry (codes "c") entry) ≡ some entry
lookup-store_in_example = lookup-store_in 3 one_entry (codes "c") entry

abbrev expiry : ℕ → ℕ → Option ℕ
expiry now secs = some (now + secs)

abbrev plain_url : Url
plain_url = url_at (codes "http") host []

abbrev secure_url : Url
secure_url = url_at (codes "https") host []

abbrev headers : Lines
headers = (codes "strict-transport-security", sts_value) ∷ []

named : domain_of record_api secure_url ≡ some host
unfolding domain_of
named = refl

named_plain : domain_of record_api plain_url ≡ some host
unfolding domain_of
named_plain = refl

sent : advertised lines_api headers ≡ some sts
unfolding advertised gosub_sonar.Web.Headers.values_of gosub_sonar.Prelude.text_eq
    gosub_sonar.Examples.Apis.visible parse_sts directives gosub_sonar.Hsts.Grammar.round
    gosub_sonar.Hsts.Grammar.skip_ws gosub_sonar.Hsts.Grammar.read_directive
    gosub_sonar.Hsts.Grammar.split_token gosub_sonar.Hsts.Grammar.is_tchar
    gosub_sonar.Hsts.Grammar.read_value gosub_sonar.Hsts.Grammar.parse_directive
    gosub_sonar.Prelude.eq_ignore_ascii_case gosub_sonar.Prelude.is_number
    gosub_sonar.Prelude.parse_u64_saturating
sent = refl

record_policy-should_upgrade_example :
    should_upgrade record_api entries_store
      (record_policy record_api lines_api entries_store expiry [] secure_url headers 5)
      plain_url
      20
    ≡ true
record_policy-should_upgrade_example =
    record_policy-should_upgrade record_api lines_api entries_store expiry [] secure_url headers 5
      host sts refl named sent 20 plain_url (λ d t e. ground arith) (λ d l e. absurd (cc e))
      (ground arith) (omega arith) refl named_plain

abbrev no_age : StsDirectives
no_age = record { max_age = 0; include_subdomains = false }

abbrev disarming : Lines
disarming = (codes "strict-transport-security", codes "max-age=0") ∷ []

sent_no_age : advertised lines_api disarming ≡ some no_age
unfolding advertised gosub_sonar.Web.Headers.values_of gosub_sonar.Prelude.text_eq
    gosub_sonar.Examples.Apis.visible parse_sts directives gosub_sonar.Hsts.Grammar.round
    gosub_sonar.Hsts.Grammar.skip_ws gosub_sonar.Hsts.Grammar.read_directive
    gosub_sonar.Hsts.Grammar.split_token gosub_sonar.Hsts.Grammar.is_tchar
    gosub_sonar.Hsts.Grammar.read_value gosub_sonar.Hsts.Grammar.parse_directive
    gosub_sonar.Prelude.eq_ignore_ascii_case gosub_sonar.Prelude.is_number
    gosub_sonar.Prelude.parse_u64_saturating
sent_no_age = refl
