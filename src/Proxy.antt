-- ===== src/Proxy.antt =====
-- src/net/proxy.rs: the rules, their bypass lists, and which rule a request goes through. A rule's
-- matching by scope and host is the matcher's, of the crate `hyper-util`.
pub mod Credentials
pub mod Routes
pub mod Userinfo
use gosub_sonar.Prelude.{
  ℕ, ◌+◌, ◌-◌, ◌*◌, ◌/◌, ◌%◌, Bool, true, false, not, ◌||◌, ◌&&◌, List, [], ◌∷◌, ◌++◌, Option, none,
  some, Text, codes, if◌then◌else◌, ◌==◌, leb, any, map, is_empty, is_number, decimal, is_some,
  text_eq, trim, trim_start_matches, trim_end_matches, to_ascii_lowercase, strip_prefix, split_once,
  split, unwrap_or, is_alphanumeric, ltb, ◌>>=◌,
}
use mathlib.Core.Option
use mathlib.Core.List.{reverse}

pub data ProxyScope : Type 0 where
  http https all : ProxyScope

pub data ProxyAuth : Type 0 where
  basic : (username password : Text) → ProxyAuth
  custom : Text → ProxyAuth

pub record ProxyRule : Type 0 where
  pub scope : ProxyScope
  pub url : Text
  pub auth : Option ProxyAuth
  pub no_proxy : Option Text

abbrev pub new : ProxyScope → Text → ProxyRule
new scope url = record { scope = scope; url = url; auth = none; no_proxy = none }

unfoldable pub strip_dot : Text → Text
strip_dot host = elim (reverse host) [ [] ↦ host | c ∷ s ↦ if c == b'.' then reverse s else host ]

unfoldable pub normalize_host : Text → Text
unfolding strip_dot trim_start_matches trim_end_matches to_ascii_lowercase
normalize_host host =
    to_ascii_lowercase
      (strip_dot (trim_end_matches (λ c. c == b']') (trim_start_matches (λ c. c == b'[') host)))

pub data BypassEntry : Type 0 where
  everything : BypassEntry
  host_entry : (host : Text) (port : Option ℕ) → BypassEntry
  verbatim : Text → BypassEntry

abbrev pub contains_byte : ℕ → Text → Bool
contains_byte b = any (λ c. c == b)

-- `str::parse::<u16>()`, which takes a sign `+` in front of the digits.
unfoldable pub parse_u16 : Text → Option ℕ
parse_u16 s =
    let digits = unwrap_or (strip_prefix (codes "+") s) s in
    if is_number digits && leb (decimal digits) 65535 then some (decimal digits) else none

-- `host:port` with one colon, or the host alone.
unfoldable pub plain_entry : Text → BypassEntry
unfolding normalize_host parse_u16 split_once
plain_entry entry =
    let parts = split_once b':' entry in
    elim parts.1 [
      | none ↦ host_entry (normalize_host entry) none
      | some behind ↦
          if contains_byte b':' behind
          then host_entry (normalize_host entry) none
          else (elim (parse_u16 behind) [
            | none ↦ host_entry (normalize_host entry) none
            | some port ↦ host_entry (normalize_host parts.0) (some port)
          ])
    ]

unfoldable pub bypass_entry : Text → BypassEntry
unfolding plain_entry
bypass_entry entry =
    if text_eq entry (codes "*")
    then everything
    else if contains_byte b'/' entry
    then verbatim entry
    else (elim (strip_prefix (codes "[") entry) [
      | none ↦ plain_entry entry
      | some rest ↦
          let parts = split_once b']' rest in
          elim parts.1 [
            | none ↦ plain_entry entry
            | some after ↦
                host_entry (normalize_host parts.0) (strip_prefix (codes ":") after >>= parse_u16)
          ]
    ])

abbrev pub entries_of : List Text → List BypassEntry
entries_of [] = []
entries_of (part ∷ parts) =
    let entry = trim part in
    let rest = entries_of parts in if is_empty entry then rest else bypass_entry entry ∷ rest

unfoldable pub bypass_entries : Text → List BypassEntry
unfolding bypass_entry split
bypass_entries list = entries_of (split b',' list)

-- The entries as they are handed to the matcher. `is_ip_addr` is whether `IpAddr` parses.
abbrev pub matcher_entries : (is_ip_addr : Text → Bool) → List BypassEntry → List Text
matcher_entries is_ip_addr [] = []
matcher_entries is_ip_addr (everything ∷ es) =
    codes "*" ∷ codes "0.0.0.0/0" ∷ codes "::/0" ∷ matcher_entries is_ip_addr es
matcher_entries is_ip_addr (host_entry host none ∷ es) =
    let rest = matcher_entries is_ip_addr es in
    if is_ip_addr host then host ∷ rest else (host ++ codes ".") ∷ host ∷ rest
matcher_entries is_ip_addr (host_entry host (some port) ∷ es) = matcher_entries is_ip_addr es
matcher_entries is_ip_addr (verbatim entry ∷ es) = entry ∷ matcher_entries is_ip_addr es

abbrev pub join_commas : List Text → Text
join_commas [] = []
join_commas (t ∷ []) = t
join_commas (t ∷ u ∷ ts) = t ++ b',' ∷ join_commas (u ∷ ts)

unfoldable pub bypass_list : (is_ip_addr : Text → Bool) → ProxyRule → Option Text
unfolding bypass_entries
bypass_list is_ip_addr rule =
    Option.map (λ list. join_commas (matcher_entries is_ip_addr (bypass_entries list)))
      rule.no_proxy

abbrev pub with_ports : List BypassEntry → List (Text × ℕ)
with_ports [] = []
with_ports (host_entry host (some port) ∷ es) = (host, port) ∷ with_ports es
with_ports (_ ∷ es) = with_ports es

unfoldable pub port_entries : ProxyRule → List (Text × ℕ)
unfolding bypass_entries
port_entries rule = with_ports (unwrap_or (Option.map bypass_entries rule.no_proxy) [])

-- What is read of an `http::Uri`.
pub record Destination : Type 0 where
  pub scheme : Option Text
  pub host : Option Text
  pub port : Option ℕ

unfoldable pub ends_with : Text → Text → Bool
unfolding strip_prefix
ends_with text suffix = is_some (strip_prefix (reverse suffix) (reverse text))

unfoldable pub covers : (host : Text) (port : ℕ) → Text × ℕ → Bool
unfolding ends_with
covers host port (entry, entry_port) =
    let name = trim_start_matches (λ c. c == b'.') entry in
    entry_port == port && (text_eq host name || ends_with host (b'.' ∷ name))

unfoldable pub port_of : Destination → ℕ
port_of dst =
    unwrap_or dst.port
      (elim dst.scheme [ none ↦ 80 | some s ↦ if text_eq s (codes "https") then 443 else 80 ])

unfoldable pub bypassed_by_port : ProxyRule → Destination → Bool
unfolding covers port_of port_entries normalize_host
bypassed_by_port rule dst = elim dst.host [
  | none ↦ false
  | some host ↦ any (covers (normalize_host host) (port_of dst)) (port_entries rule)
]

unfoldable pub hex_digit : ℕ → ℕ
hex_digit n = if ltb n 10 then b'0' + n else b'A' + (n - 10)

unfoldable pub userinfo_encoded : Text → Text
unfolding hex_digit is_alphanumeric
userinfo_encoded [] = []
userinfo_encoded (b ∷ s) =
    let rest = userinfo_encoded s in
    if is_alphanumeric b || (b == b'-' || (b == b'.' || (b == b'_' || b == b'~')))
    then b ∷ rest
    else b'%' ∷ hex_digit (b / 16) ∷ hex_digit (b % 16) ∷ rest

-- The first value of the variables that is not blank, trimmed.
unfoldable pub first : (var : Text → Option Text) → List Text → Option Text
first var [] = none
first var (name ∷ names) = elim (var name) [
  | none ↦ first var names
  | some value ↦
      let rest = first var names in if is_empty (trim value) then rest else some (trim value)
]

-- `url.contains("://")`.
unfoldable pub has_scheme : Text → Bool
unfolding strip_prefix
has_scheme [] = false
has_scheme (c ∷ s) = is_some (strip_prefix (codes "://") (c ∷ s)) || has_scheme s

unfoldable pub with_scheme : Text → Text
unfolding has_scheme
with_scheme url = if has_scheme url then url else codes "http://" ++ url

-- `is_usable` is whether `to_reqwest` gives a proxy.
unfoldable pub rule_of :
    (is_usable : ProxyRule → Bool) → Option Text → ProxyScope → Option Text → List ProxyRule
unfolding with_scheme
rule_of is_usable no_proxy scope none = []
rule_of is_usable no_proxy scope (some url) =
    let rule : ProxyRule = record (new scope (with_scheme url)) { no_proxy = no_proxy } in
    if is_usable rule then rule ∷ [] else []

unfoldable pub env_rules :
    (is_usable : ProxyRule → Bool) → (var : Text → Option Text) → Option (List ProxyRule)
unfolding first rule_of
env_rules is_usable var =
    let http_url =
      if is_some (var (codes "REQUEST_METHOD"))
      then first var (codes "http_proxy" ∷ [])
      else first var (codes "HTTP_PROXY" ∷ codes "http_proxy" ∷ []) in
    let https_url = first var (codes "HTTPS_PROXY" ∷ codes "https_proxy" ∷ []) in
    let all_url = first var (codes "ALL_PROXY" ∷ codes "all_proxy" ∷ []) in
    let no_proxy = first var (codes "NO_PROXY" ∷ codes "no_proxy" ∷ []) in
    if not (is_some http_url) && (not (is_some https_url) && not (is_some all_url))
    then none
    else some (
        rule_of is_usable no_proxy http http_url
        ++ (rule_of is_usable no_proxy https https_url ++ rule_of is_usable no_proxy all all_url))
