-- ===== src/Auth.antt =====
-- The challenges of src/net/auth.rs: targets, schemes, and what a challenge holds.
pub mod Challenges
pub mod Decoding
pub mod Earned
pub mod Encoding
pub mod Quoting
pub mod Sent
pub mod Store
pub mod Upfront
use gosub_sonar.Prelude.{
  ℕ, List, Option, none, some, Text, codes, eq_ignore_ascii_case, if◌then◌else◌, ◌==◌,
}

pub data AuthTarget : Type 0 where
  server proxy : AuthTarget

unfoldable pub for_status : ℕ → Option AuthTarget
for_status status =
    if status == 401 then some server else if status == 407 then some proxy else none

unfoldable pub challenge_header : AuthTarget → Text
challenge_header server = codes "www-authenticate"
challenge_header proxy = codes "proxy-authenticate"

unfoldable pub credentials_header : AuthTarget → Text
credentials_header server = codes "authorization"
credentials_header proxy = codes "proxy-authorization"

pub data AuthScheme : Type 0 where
  basic digest bearer negotiate ntlm : AuthScheme
  other : Text → AuthScheme

unfoldable pub parse_scheme : Text → AuthScheme
parse_scheme name =
    if eq_ignore_ascii_case name (codes "basic")
    then basic
    else if eq_ignore_ascii_case name (codes "digest")
    then digest
    else if eq_ignore_ascii_case name (codes "bearer")
    then bearer
    else if eq_ignore_ascii_case name (codes "negotiate")
    then negotiate
    else if eq_ignore_ascii_case name (codes "ntlm")
    then ntlm
    else other name

unfoldable pub scheme_str : AuthScheme → Text
scheme_str basic = codes "Basic"
scheme_str digest = codes "Digest"
scheme_str bearer = codes "Bearer"
scheme_str negotiate = codes "Negotiate"
scheme_str ntlm = codes "NTLM"
scheme_str (other name) = name

pub record AuthChallenge (Url : Type 0) : Type 0 where
  pub url : Url
  pub target : AuthTarget
  pub scheme : AuthScheme
  pub realm : Option Text
  pub params : List (Text × Text)
  pub token68 : Option Text
  pub attempt : ℕ
  pub proxy : Option Url
