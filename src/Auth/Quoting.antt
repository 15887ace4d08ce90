-- ===== src/Auth/Quoting.antt =====
-- A challenge parameter of src/net/auth.rs with a quoted value is read as it was written.
use gosub_sonar.Prelude.{
  ℕ, ◌≡◌, refl, sym, ap, ◌∙◌, inl, inr, Bool, true, false, ◌||◌, [], ◌∷◌, ◌++◌, some, Text,
  if◌then◌else◌, ◌==◌, all, any, is_alphanumeric, is_digit, is_upper, trim_matches,
  trim_end_matches, trim_start_matches, to_ascii_lowercase, arith, Bool-cases,
}
use mathlib.Core.List.{reverse, reverse_aux, append-nil}
use mathlib.Core.Option
use gosub_sonar.Auth.Decoding.{split_once_first}
use gosub_sonar.Auth.Challenges.{
  is_white_space, trim_space, is_token_char, unquote, strip_quote, param_value, as_param,
}

-- The quoted form of a value: a backslash in front of each quote and backslash.
abbrev pub escape : Text → Text
escape [] = []
escape (c ∷ s) = if c == b'"' || c == b'\\' then b'\\' ∷ c ∷ escape s else c ∷ escape s

unquote_plain : (c : ℕ) (s : Text) → (c == b'\\') ≡ false → unquote (c ∷ s) ≡ c ∷ unquote s
unfolding unquote
unquote_plain c [] h = ground arith
unquote_plain c (d ∷ s) h = ground arith

unquote-escape : (v : Text) → unquote (escape v) ≡ v
unfolding unquote
unquote-escape [] = refl
unquote-escape (c ∷ v) = elim (Bool-cases (c == b'"' || c == b'\\')) [
  | inl special ↦ rw (special, escape) (ap (λ r. c ∷ r) (unquote-escape v))
  | inr plain ↦
      rw (plain, escape)
        (unquote_plain c (escape v) (ground arith) ∙ ap (λ r. c ∷ r) (unquote-escape v))
]

strip_quote-append : (s : Text) → strip_quote (s ++ b'"' ∷ []) ≡ some s
unfolding strip_quote
strip_quote-append [] = refl
strip_quote-append (c ∷ []) = refl
strip_quote-append (c ∷ d ∷ s) = rw (strip_quote-append (d ∷ s)) refl

reverse_aux-append :
    (m : Text) (d : ℕ) (acc : Text) → reverse_aux (m ++ d ∷ []) acc ≡ d ∷ reverse_aux m acc
reverse_aux-append [] d acc = refl
reverse_aux-append (c ∷ m) d acc = reverse_aux-append m d (c ∷ acc)

reverse_aux-reverse_aux :
    (l acc r : Text) → reverse_aux (reverse_aux l acc) r ≡ reverse_aux acc (l ++ r)
reverse_aux-reverse_aux [] acc r = refl
reverse_aux-reverse_aux (c ∷ l) acc r = reverse_aux-reverse_aux l (c ∷ acc) r

start_stays :
    (c : ℕ) (s : Text)
    → is_white_space c ≡ false
    → trim_start_matches is_white_space (c ∷ s) ≡ c ∷ s
unfolding trim_start_matches
start_stays c s h = rw h refl

-- No byte at either end is white space.
trim_ends :
    (c d : ℕ) (s m : Text)
    → is_white_space c ≡ false
    → is_white_space d ≡ false
    → c ∷ s ≡ m ++ d ∷ []
    → trim_space (c ∷ s) ≡ c ∷ s
unfolding trim_space trim_matches trim_end_matches
trim_ends c d s m hc hd e =
    let back : reverse (c ∷ s) ≡ d ∷ reverse_aux m [] = ap reverse e ∙ reverse_aux-append m d [] in
    ap (λ t. reverse (trim_start_matches is_white_space (reverse t))) (start_stays c s hc)
    ∙ ap (λ t. reverse (trim_start_matches is_white_space t)) back
    ∙ ap reverse (start_stays d (reverse_aux m []) hd ∙ sym back)
    ∙ reverse_aux-reverse_aux (c ∷ s) [] []
    ∙ append-nil (c ∷ s)

last_of : (c : ℕ) (s : Text) → (m : Text) × (d : ℕ) × (c ∷ s ≡ m ++ d ∷ [])
last_of c [] = ([], c, refl)
last_of c (b ∷ s) = let (m, d, e) = last_of b s in (c ∷ m, d, ap (λ t. c ∷ t) e)

all-last : (p : ℕ → Bool) (m : Text) (d : ℕ) → all p (m ++ d ∷ []) ≡ true → p d ≡ true
all-last p [] d h = ground arith
all-last p (c ∷ m) d h = all-last p m d (ground arith)

token_plain : (c : ℕ) → is_token_char c ≡ true → (is_white_space c ≡ false) × ((c == b'=') ≡ false)
unfolding is_token_char is_alphanumeric is_digit is_upper is_white_space
token_plain c h = ground arith

token_no_equals : (s : Text) → all is_token_char s ≡ true → any (λ c. c == b'=') s ≡ false
token_no_equals [] h = refl
token_no_equals (c ∷ s) h = ground (arith, token_plain c, token_no_equals s)

trim-token : (c : ℕ) (s : Text) → all is_token_char (c ∷ s) ≡ true → trim_space (c ∷ s) ≡ c ∷ s
trim-token c s h =
    let (m, d, e) = last_of c s in
    trim_ends c d s m (token_plain c (ground arith)).0
      (token_plain d (all-last is_token_char m d (ap (all is_token_char) (sym e) ∙ h))).0 e

quoted : Text → Text
quoted v = b'"' ∷ (escape v ++ b'"' ∷ [])

trim-quoted : (v : Text) → trim_space (quoted v) ≡ quoted v
unfolding quoted is_white_space
trim-quoted v = trim_ends b'"' b'"' (escape v ++ b'"' ∷ []) (b'"' ∷ escape v) refl refl refl

param_value-quoted : (v : Text) → param_value (quoted v) ≡ some v
unfolding quoted param_value
param_value-quoted v =
    ap (Option.map unquote) (strip_quote-append (escape v)) ∙ ap some (unquote-escape v)

-- A parameter that is a name of token characters, `=`, and a quoted value, in which each quote and
-- backslash has a backslash in front, is read as the name in lower case and the value.
pub as_param-escape :
    (c : ℕ) (name value : Text)
    → all is_token_char (c ∷ name) ≡ true
    → as_param ((c ∷ name) ++ b'=' ∷ b'"' ∷ (escape value ++ b'"' ∷ []))
      ≡ some (to_ascii_lowercase (c ∷ name), value)
unfolding as_param quoted
as_param-escape c name value h =
    rw (split_once_first b'=' (c ∷ name) (quoted value) (token_no_equals (c ∷ name) h), as_param)
      (rw (trim-token c name h)
        (rw (trim-quoted value) (rw (param_value-quoted value) (ground arith))))
