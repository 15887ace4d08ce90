-- ===== src/Auth/Challenges.antt =====
-- The parser of challenges in src/net/auth.rs. A text here is the list of its characters, as code
-- points, once a header value has been decoded.
use gosub_sonar.Prelude.{
  ℕ, Bool, not, ◌||◌, List, [], ◌∷◌, ◌++◌, Option, none, some, Text, codes, if◌then◌else◌, ◌==◌,
  all, any, is_empty, is_alphanumeric, in_range, trim_matches, to_ascii_lowercase, split_once,
  ◌>>=◌, text_eq, map,
}
use gosub_sonar.Auth.{AuthTarget, AuthChallenge, challenge_header, parse_scheme}
use gosub_sonar.Cache.Directives.{split_outside_quotes}
use gosub_sonar.Web.Headers.{HeaderApi}
use mathlib.Core.List.{reverse}
use mathlib.Core.Option

unfoldable pub is_token_char : ℕ → Bool
unfolding is_alphanumeric
is_token_char c = is_alphanumeric c || any (λ d. d == c) (codes "!#$%&'*+-.^_`|~")

-- `char::is_whitespace`, Unicode's `White_Space`.
unfoldable pub is_white_space : ℕ → Bool
is_white_space c =
    in_range 0x09 0x0d c
    || c == 0x20
    || c == 0x85
    || c == 0xa0
    || c == 0x1680
    || in_range 0x2000 0x200a c
    || c == 0x2028
    || c == 0x2029
    || c == 0x202f
    || c == 0x205f
    || c == 0x3000

-- `str::trim`.
unfoldable pub trim_space : Text → Text
unfolding trim_matches is_white_space
trim_space s = trim_matches is_white_space s

-- A backslash stands for the character behind it; one at the end stands for nothing.
unfoldable pub unquote : Text → Text
unquote [] = []
unquote (c ∷ []) = if c == b'\\' then [] else c ∷ []
unquote (c ∷ d ∷ s) =
    let skipped = unquote s in
    let rest = unquote (d ∷ s) in if c == b'\\' then d ∷ skipped else c ∷ rest

-- `strip_suffix('"')`.
unfoldable pub strip_quote : Text → Option Text
strip_quote [] = none
strip_quote (c ∷ []) = if c == b'"' then some [] else none
strip_quote (c ∷ d ∷ s) = strip_quote (d ∷ s) >>= λ r. some (c ∷ r)

-- The value behind the `=`, trimmed.
unfoldable pub param_value : Text → Option Text
unfolding strip_quote unquote is_token_char
param_value [] = none
param_value (c ∷ s) =
    if c == b'"'
    then Option.map unquote (strip_quote s)
    else if not (all is_token_char (c ∷ s))
    then none
    else some (c ∷ s)

unfoldable pub as_param : Text → Option (Text × Text)
unfolding param_value split_once trim_space
as_param text =
    let parts = split_once b'=' text in
    parts.1 >>= λ behind.
    let name = trim_space parts.0 in
    if is_empty name || not (all is_token_char name)
    then none
    else param_value (trim_space behind) >>= λ value. some (to_ascii_lowercase name, value)

pub record RawChallenge : Type 0 where
  pub scheme : Text
  pub params : List (Text × Text)
  pub token68 : Option Text

-- The text in front of the first white space, and the text from it on.
unfoldable pub split_word : Text → Text × Text
unfolding is_white_space
split_word [] = ([], [])
split_word (c ∷ s) =
    let r = split_word s in if is_white_space c then ([], c ∷ s) else (c ∷ r.0, r.1)

unfoldable pub start_challenge : Text → RawChallenge
unfolding split_word as_param trim_space
start_challenge element =
    let word = split_word element in
    let rest = trim_space word.1 in
    let bare : RawChallenge = record { scheme = word.0; params = []; token68 = none } in
    if is_empty rest then bare else (elim (as_param rest) [
      | some p ↦ record bare { params = p ∷ [] }
      | none ↦ record bare { token68 = some rest }
    ])

-- One element of the list, with the challenges so far, the latest first.
unfoldable pub add_element : Text → List RawChallenge → List RawChallenge
unfolding start_challenge as_param
add_element element out = if is_empty element then out else (elim (as_param element) [
  | none ↦ start_challenge element ∷ out
  | some p ↦ elim out [
    | [] ↦ []
    | current ∷ done ↦ record current { params = current.params ++ p ∷ [] } ∷ done
  ]
])

unfoldable pub add_elements : List Text → List RawChallenge → List RawChallenge
unfolding add_element trim_space
add_elements [] out = out
add_elements (e ∷ es) out = add_elements es (add_element (trim_space e) out)

unfoldable pub parse_challenge_list : Text → List RawChallenge
unfolding add_elements split_outside_quotes
parse_challenge_list value = reverse (add_elements (split_outside_quotes value) [])

abbrev pub find_realm : List (Text × Text) → Option Text
find_realm [] = none
find_realm ((n, v) ∷ params) = if text_eq n (codes "realm") then some v else find_realm params

-- `from_utf8_lossy` is `String::from_utf8_lossy`, with the characters of its result.
unfoldable pub parse_challenges :
    (H : HeaderApi) (Url : Type 0) (from_utf8_lossy : Text → Text)
    → H.HeaderMap
    → AuthTarget
    → Url
    → (attempt : ℕ) → (proxy : Option Url) → List (AuthChallenge Url)
unfolding parse_challenge_list
parse_challenges H Url from_utf8_lossy headers target url attempt proxy =
    challenges_of (H.get_all headers (challenge_header target))
  where
    challenge_of : RawChallenge → AuthChallenge Url
    challenge_of raw = record {
      url = url;
      target = target;
      scheme = parse_scheme raw.scheme;
      realm = find_realm raw.params;
      params = raw.params;
      token68 = raw.token68;
      attempt = attempt;
      proxy = proxy;
    }

    challenges_of : List Text → List (AuthChallenge Url)
    challenges_of [] = []
    challenges_of (v ∷ vs) =
        map challenge_of (parse_challenge_list (from_utf8_lossy v)) ++ challenges_of vs
