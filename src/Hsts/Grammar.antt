-- ===== src/Hsts/Grammar.antt =====
-- The grammar of `Strict-Transport-Security` in src/net/hsts.rs: `directives`, `parse_sts`.
-- A header value is a list of bytes; `to_str` has made sure that it is ASCII, so bytes are
-- characters.
use gosub_sonar.Prelude.{
  ℕ, zero, suc, Bool, true, false, ◌||◌, List, [], ◌∷◌, Option, none, some, Text, codes,
  eq_ignore_ascii_case, if◌then◌else◌, ◌==◌, length, is_empty, any, is_alphanumeric,
  trim_start_matches, is_number, parse_u64_saturating, ◌>>=◌, is_some,
}

contains_byte : Text → ℕ → Bool
contains_byte [] c = false
contains_byte (b ∷ bs) c = b == c || contains_byte bs c

unfoldable pub is_tchar : ℕ → Bool
unfolding is_alphanumeric contains_byte
is_tchar c = is_alphanumeric c || contains_byte (codes "!#$%&'*+-.^_`|~") c

unfoldable pub is_blank : ℕ → Bool
is_blank c = c == b' ' || c == 9

unfoldable pub skip_ws : Text → Text
unfolding trim_start_matches is_blank
skip_ws s = trim_start_matches is_blank s

-- `rest.find(|c| !is_tchar(c))`: the text in front of the first byte that is no `tchar`, and the
-- rest from there on.
unfoldable pub split_token : Text → Text × Text
split_token [] = ([], [])
split_token (c ∷ s) =
    let (token, rest) = split_token s in if is_tchar c then (c ∷ token, rest) else ([], c ∷ s)

-- The loop over the characters of a quoted-string: its unescaped text, and what follows the closing
-- quote; `none` if there is none.
unfoldable pub read_quoted : Text → Option (Text × Text)
read_quoted [] = none
read_quoted (c ∷ []) = if c == b'"' then some ([], []) else none
read_quoted (c ∷ d ∷ s) =
    let escaped = (read_quoted s >>= λ r. some (d ∷ r.0, r.1)) in
    let plain = (read_quoted (d ∷ s) >>= λ r. some (c ∷ r.0, r.1)) in
    if c == b'"' then some ([], d ∷ s) else if c == b'\\' then escaped else plain

-- The value behind an `=`: quoted or a token, and what follows it.
unfoldable pub read_value : Text → Option (Text × Text)
unfolding read_quoted split_token
read_value [] = none
read_value (c ∷ s) =
    if c == b'"'
    then read_quoted s
    else (let (token, rest) = split_token (c ∷ s) in
        if is_empty token then none else some (token, rest))

abbrev pub Directive : Type 0
Directive = Text × Option Text

-- What one round of the loop of `directives` comes to, with the text left to read.
pub data Round : Type 0 where
  finished invalid : Round
  blank : Text → Round
  found : Directive → Text → Round
  last : Directive → Round

-- The end of a round: a `;`, the end of the text, or anything else.
unfoldable pub close : Directive → Text → Round
close d [] = last d
close d (c ∷ s) = if c == b';' then found d s else invalid

-- The optional value behind the name.
unfoldable pub read_rest : Text → Text → Round
unfolding close
read_rest name [] = close (name, none) []
read_rest name (c ∷ s) =
    if c == b'='
    then elim (read_value (skip_ws s)) [
      | none ↦ invalid
      | some r ↦ close (name, some r.0) (skip_ws r.1)
    ]
    else close (name, none) (c ∷ s)

unfoldable pub read_directive : Text → Round
unfolding read_rest
read_directive s =
    let (name, rest) = split_token s in
    if is_empty name then invalid else read_rest name (skip_ws rest)

unfoldable pub start_round : Text → Round
start_round [] = finished
start_round (c ∷ s) = if c == b';' then blank s else read_directive (c ∷ s)

unfoldable pub round : Text → Round
unfolding start_round
round s = start_round (skip_ws s)

abbrev pub push : Directive → Option (List Directive) → Option (List Directive)
push d none = none
push d (some ds) = some (d ∷ ds)

-- The loop, with fuel; `Hsts.Fuel` shows that one more than the length is enough.
unfoldable pub directives_from : ℕ → Text → Option (List Directive)
directives_from zero s = none
directives_from (suc fuel) s = elim (round s) [
  | finished ↦ some []
  | invalid ↦ none
  | blank rest ↦ directives_from fuel rest
  | found d rest ↦ push d (directives_from fuel rest)
  | last d ↦ some (d ∷ [])
]

unfoldable pub directives : Text → Option (List Directive)
unfolding directives_from
directives s = directives_from (suc (length s)) s

unfoldable pub delta_seconds : Text → Option ℕ
delta_seconds s = if is_number s then some (parse_u64_saturating s) else none

pub record StsDirectives : Type 0 where
  pub max_age : ℕ
  pub include_subdomains : Bool

-- The variables of the loop of `parse_sts`; `seen` has the latest name first.
pub record Parsed : Type 0 where
  pub max_age : Option ℕ
  pub include_subdomains : Bool
  pub seen : List Text

unfoldable pub parse_directive : Parsed → Directive → Option Parsed
unfolding delta_seconds
parse_directive p (name, value) =
    if any (λ s. eq_ignore_ascii_case s name) p.seen
    then none
    else (let seen = name ∷ p.seen in
        if eq_ignore_ascii_case name (codes "max-age")
        then (value >>= λ v.
            delta_seconds v >>= λ n. some (record p { max_age = some n; seen = seen }))
        else if eq_ignore_ascii_case name (codes "includeSubDomains")
        then (if is_some value
            then none
            else some (record p { include_subdomains = true; seen = seen }))
        else some (record p { seen = seen }))

unfoldable pub parse_all : Parsed → List Directive → Option Parsed
parse_all p [] = some p
parse_all p (d ∷ ds) = parse_directive p d >>= λ q. parse_all q ds

abbrev pub nothing_parsed : Parsed
nothing_parsed = record { max_age = none; include_subdomains = false; seen = [] }

unfoldable pub parse_sts : Text → Option StsDirectives
unfolding parse_all
parse_sts value = directives value >>= λ ds. parse_all nothing_parsed ds >>= λ p.
    p.max_age >>= λ n. some (record { max_age = n; include_subdomains = p.include_subdomains })
