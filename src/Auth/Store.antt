-- ===== src/Auth/Store.antt =====
-- The in-memory credential store of src/net/auth.rs. The map is an association list.
use gosub_sonar.Prelude.{
  ℕ, ◌+◌, ◌≡◌, ◌↔◌, Bool, true, false, not, ◌&&◌, List, [], ◌∷◌, ◌++◌, Option, none, some, Text,
  codes, if◌then◌else◌, ◌==◌, leb, ltb, arith, any, retain, length, KeyType, lookup, remove, insert,
  contains, text_eq, text_eq_iff, to_ascii_lowercase, unwrap_or, is_some, strip_prefix, max,
}
use gosub_sonar.Auth.{AuthTarget, server, proxy, AuthScheme, AuthChallenge}
use gosub_sonar.Auth
use mathlib.Core.Option
use gosub_sonar.Auth.Encoding.{Credentials, basic, raw}
use gosub_sonar.Web.Urls.{UrlApi}

pub record ProtectionSpace : Type 0 where
  pub target : AuthTarget
  pub scheme : AuthScheme
  pub origin : Option Text
  pub realm : Text

-- The derived `PartialEq`s.
unfoldable pub target_eq : AuthTarget → AuthTarget → Bool
target_eq server server = true
target_eq proxy proxy = true
target_eq _ _ = false

unfoldable pub scheme_eq : AuthScheme → AuthScheme → Bool
scheme_eq Auth.basic Auth.basic = true
scheme_eq Auth.digest Auth.digest = true
scheme_eq Auth.bearer Auth.bearer = true
scheme_eq Auth.negotiate Auth.negotiate = true
scheme_eq Auth.ntlm Auth.ntlm = true
scheme_eq (Auth.other s) (Auth.other t) = text_eq s t
scheme_eq _ _ = false

unfoldable pub option_eq : Option Text → Option Text → Bool
option_eq none none = true
option_eq (some s) (some t) = text_eq s t
option_eq _ _ = false

unfoldable pub credentials_eq : Credentials → Credentials → Bool
credentials_eq (basic u p) (basic v q) = text_eq u v && text_eq p q
credentials_eq (raw s) (raw t) = text_eq s t
credentials_eq _ _ = false

unfoldable pub space_eq : ProtectionSpace → ProtectionSpace → Bool
unfolding target_eq scheme_eq option_eq
space_eq a b =
    target_eq a.target b.target
    && scheme_eq a.scheme b.scheme
    && option_eq a.origin b.origin
    && text_eq a.realm b.realm

pub target_eq_iff : (a b : AuthTarget) → (target_eq a b ≡ true) ↔ (a ≡ b)
unfolding target_eq
target_eq_iff a b = ground arith

pub scheme_eq_iff : (a b : AuthScheme) → (scheme_eq a b ≡ true) ↔ (a ≡ b)
unfolding scheme_eq
scheme_eq_iff (Auth.other s) (Auth.other t) = ground (arith, text_eq_iff s t)
scheme_eq_iff a b = ground arith

pub option_eq_iff : (a b : Option Text) → (option_eq a b ≡ true) ↔ (a ≡ b)
unfolding option_eq
option_eq_iff none none = ground arith
option_eq_iff (some s) (some t) = ground (arith, text_eq_iff s t)
option_eq_iff none (some t) = ground arith
option_eq_iff (some s) none = ground arith

pub space_eq_iff : (a b : ProtectionSpace) → (space_eq a b ≡ true) ↔ (a ≡ b)
unfolding space_eq
space_eq_iff a b = ground (
  arith,
  target_eq_iff a.target b.target,
  scheme_eq_iff a.scheme b.scheme,
  option_eq_iff a.origin b.origin,
  text_eq_iff a.realm b.realm,
)

instance abbrev pub space_key : KeyType ProtectionSpace
space_key = record { is_same = space_eq; is_same_iff = space_eq_iff }

abbrev pub max_upfront_directories : ℕ
max_upfront_directories = 8

abbrev pub max_credential_entries : ℕ
max_credential_entries = 256

pub record StoredCredentials : Type 0 where
  pub credentials : Credentials
  pub stamp : ℕ
  pub directories : List Text

pub record CredentialStore : Type 0 where
  pub entries : List (ProtectionSpace × StoredCredentials)
  pub clock : ℕ

abbrev pub new : CredentialStore
new = record { entries = []; clock = 0 }

unfoldable pub clear : CredentialStore → CredentialStore
clear s = record s { entries = [] }

unfoldable pub credentials_for : ProtectionSpace → CredentialStore → Option Credentials
unfolding lookup
credentials_for space s = Option.map (λ stored. stored.credentials) (lookup space s.entries)

-- `min_by_key` on the stamps.
unfoldable pub oldest : List (ProtectionSpace × StoredCredentials) → Option (ProtectionSpace × ℕ)
oldest [] = none
oldest ((space, stored) ∷ m) = elim (oldest m) [
  | none ↦ some (space, stored.stamp)
  | some best ↦ if leb stored.stamp best.1 then some (space, stored.stamp) else some best
]

unfoldable pub make_room :
    ProtectionSpace
    → List (ProtectionSpace × StoredCredentials)
    → List (ProtectionSpace × StoredCredentials)
unfolding oldest
make_room space m =
    if leb max_credential_entries (length m) && not (contains space m)
    then (elim (oldest m) [ none ↦ m | some best ↦ remove best.0 m ])
    else m

-- The directories of the old credentials, if the new ones are the same.
unfoldable pub kept_directories : Option StoredCredentials → Credentials → List Text
unfolding credentials_eq
kept_directories none credentials = []
kept_directories (some old) credentials =
    if credentials_eq old.credentials credentials then old.directories else []

unfoldable pub store : ProtectionSpace → Credentials → CredentialStore → CredentialStore
unfolding make_room kept_directories
store space credentials s =
    let entries = make_room space s.entries in
    record {
      clock = s.clock + 1;
      entries =
          insert space
            (record {
              credentials = credentials;
              stamp = s.clock;
              directories = kept_directories (lookup space entries) credentials;
            })
            entries;
    }

unfoldable pub forget : ProtectionSpace → CredentialStore → CredentialStore
forget space s = record s { entries = remove space s.entries }

unfoldable pub starts_with : Text → Text → Bool
unfolding strip_prefix
starts_with prefix text = is_some (strip_prefix prefix text)

-- The text up to and including its last `/`, or nothing when it has none.
unfoldable pub up_to_last_slash : Text → Option Text
up_to_last_slash [] = none
up_to_last_slash (c ∷ s) = elim (up_to_last_slash s) [
  | some t ↦ some (c ∷ t)
  | none ↦ if c == b'/' then some (c ∷ []) else none
]

abbrev pub without_first : List Text → List Text
without_first [] = []
without_first (d ∷ ds) = ds

-- The directories with one more, none of them below another.
unfoldable pub add_directory : Text → List Text → List Text
unfolding starts_with
add_directory directory known =
    if any (λ k. starts_with k directory) known
    then known
    else (let rest = retain (λ k. not (starts_with directory k)) known in
        (if leb max_upfront_directories (length rest) then without_first rest else rest)
        ++ directory ∷ [])

abbrev pub is_basic_server : ProtectionSpace → Bool
is_basic_server space = target_eq space.target server && scheme_eq space.scheme Auth.basic

abbrev pub is_basic : Credentials → Bool
is_basic (basic username password) = true
is_basic (raw value) = false

-- The length of the longest directory that covers the path.
unfoldable pub depth_of : Text → List Text → Option ℕ
unfolding starts_with
depth_of path [] = none
depth_of path (d ∷ ds) = elim (depth_of path ds) [
  | none ↦ if starts_with d path then some (length d) else none
  | some n ↦ some (if starts_with d path then max (length d) n else n)
]

-- The entries that may be sent to `origin` for `path`, and of those the deepest; of several the
-- last, as `max_by_key` gives.
unfoldable pub deepest :
    (origin path : Text)
    → List (ProtectionSpace × StoredCredentials)
    → Option (ℕ × ProtectionSpace × Credentials)
unfolding depth_of
deepest origin path [] = none
deepest origin path ((space, stored) ∷ m) =
    let rest = deepest origin path m in
    if is_basic_server space && option_eq space.origin (some origin) && is_basic stored.credentials
    then (elim (depth_of path stored.directories) [
      | none ↦ rest
      | some depth ↦ elim rest [
        | none ↦ some (depth, space, stored.credentials)
        | some best ↦
            if ltb best.0 depth then some (depth, space, stored.credentials) else some best
      ]
    ])
    else rest

module _ (U : UrlApi) where
  open U use {Url}

  -- `url.path()`.
  unfoldable pub directory_of : Url → Text
  unfolding up_to_last_slash
  directory_of url = unwrap_or (up_to_last_slash (U.path url)) (codes "/")

  unfoldable pub accepted_at : ProtectionSpace → Url → CredentialStore → CredentialStore
  unfolding add_directory
  accepted_at space url s =
      if is_basic_server space
      then (elim (lookup space s.entries) [
        | none ↦ s
        | some stored ↦ record s {
          entries =
              insert space
                (record stored {
                  directories = add_directory (directory_of url) stored.directories;
                })
                s.entries;
        }
      ])
      else s

  unfoldable pub upfront_for : Url → CredentialStore → Option (ProtectionSpace × Credentials)
  unfolding deepest
  upfront_for url s =
      Option.map (λ best. (best.1, best.2))
        (deepest (U.ascii_serialization (U.origin url)) (U.path url) s.entries)

  unfoldable pub protection_space : AuthChallenge Url → ProtectionSpace
  protection_space c = record {
    target = c.target;
    scheme = elim c.scheme [
      | Auth.other name ↦ Auth.other (to_ascii_lowercase name)
      | known ↦ known
    ];
    origin = elim c.target [
      | server ↦ some (U.ascii_serialization (U.origin c.url))
      | proxy ↦ Option.map (λ p. U.ascii_serialization (U.origin p)) c.proxy
    ];
    realm = unwrap_or c.realm [];
  }
