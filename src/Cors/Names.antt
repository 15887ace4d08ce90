-- ===== src/Cors/Names.antt =====
-- The header names that a preflight asks for, `unsafe_request_header_names` of src/net/cors.rs.
use gosub_sonar.Prelude.{
  ℕ, ◌+◌, ◌≡◌, refl, Bool, true, false, not, ◌&&◌, ◌||◌, List, [], ◌∷◌, ◌++◌, Text, text_eq,
  text_eq_iff, if◌then◌else◌, ltb, arith, length, any,
}
use gosub_sonar.Web.Headers.{HeaderApi}
use gosub_sonar.Cors.Kinds.{one_of, is_cors_safelisted_request_header, is_forbidden_request_header}
use gosub_sonar.Cors.Headers.{
  Collected, collect, nothing_collected, names_to_ask, insert_sorted, sort, dedup,
  unsafe_request_header_names, max_safelisted_value_bytes,
}

-- A line that the fetcher does not own, and whose value is safe.
abbrev is_safe : Text × Text → Bool
is_safe (name, value) =
    not (is_forbidden_request_header name) && is_cors_safelisted_request_header name value

-- The bytes of all the safe values.
abbrev pub safe_bytes : List (Text × Text) → ℕ
safe_bytes [] = 0
safe_bytes (line ∷ lines) =
    if is_safe line then length line.1 + safe_bytes lines else safe_bytes lines

-- Whether a line needs the server's approval.
abbrev pub must_ask : Bool → Text × Text → Bool
must_ask over (name, value) =
    not (is_forbidden_request_header name)
    && (over || not (is_cors_safelisted_request_header name value))

abbrev with_safe : Collected → Text → Text → Collected
with_safe c name value = record c {
  safelisted = name ∷ c.safelisted;
  safelisted_bytes = c.safelisted_bytes + length value;
}

abbrev with_name : Collected → Text → Collected
with_name c name = record c { names = name ∷ c.names }

collect-names :
    (c : Collected) (t : Text) (lines : List (Text × Text))
    → one_of (collect c lines).names t
      ≡ (one_of c.names t || any (λ line. text_eq t line.0 && must_ask false line) lines)
unfolding collect one_of
collect-names c t [] = ground arith
collect-names c t ((name, value) ∷ lines) = ground (
  arith,
  collect-names c t lines,
  collect-names (with_safe c name value) t lines,
  collect-names (with_name c name) t lines,
)

collect-safelisted :
    (c : Collected) (t : Text) (lines : List (Text × Text))
    → one_of (collect c lines).safelisted t
      ≡ (one_of c.safelisted t || any (λ line. text_eq t line.0 && is_safe line) lines)
unfolding collect one_of
collect-safelisted c t [] = ground arith
collect-safelisted c t ((name, value) ∷ lines) = ground (
  arith,
  collect-safelisted c t lines,
  collect-safelisted (with_safe c name value) t lines,
  collect-safelisted (with_name c name) t lines,
)

collect-bytes :
    (c : Collected) (lines : List (Text × Text))
    → (collect c lines).safelisted_bytes ≡ c.safelisted_bytes + safe_bytes lines
unfolding collect
collect-bytes c [] = omega arith
collect-bytes c ((name, value) ∷ lines) = ground (
  arith,
  collect-bytes c lines,
  collect-bytes (with_safe c name value) lines,
  collect-bytes (with_name c name) lines,
)

one_of-append : (t : Text) (xs ys : List Text) → one_of (xs ++ ys) t ≡ (one_of xs t || one_of ys t)
unfolding one_of
one_of-append t [] ys = refl
one_of-append t (x ∷ xs) ys = ground (arith, one_of-append t xs ys)

one_of-insert_sorted :
    (t s : Text) (xs : List Text) → one_of (insert_sorted s xs) t ≡ (text_eq t s || one_of xs t)
unfolding insert_sorted one_of
one_of-insert_sorted t s [] = refl
one_of-insert_sorted t s (x ∷ xs) = ground (arith, one_of-insert_sorted t s xs)

one_of-sort : (t : Text) (xs : List Text) → one_of (sort xs) t ≡ one_of xs t
unfolding sort one_of
one_of-sort t [] = refl
one_of-sort t (x ∷ xs) = ground (arith, one_of-insert_sorted t x (sort xs), one_of-sort t xs)

one_of-dedup : (t : Text) (xs : List Text) → one_of (dedup xs) t ≡ one_of xs t
unfolding dedup one_of
one_of-dedup t [] = refl
one_of-dedup t (x ∷ []) = refl
one_of-dedup t (x ∷ y ∷ ys) = ground (arith, one_of-dedup t (y ∷ ys), text_eq_iff x y)

any-split :
    (t : Text) (lines : List (Text × Text))
    → (any (λ line. text_eq t line.0 && must_ask false line) lines
        || any (λ line. text_eq t line.0 && is_safe line) lines)
      ≡ any (λ line. text_eq t line.0 && must_ask true line) lines
any-split t [] = refl
any-split t (line ∷ lines) = ground (arith, any-split t lines)

module _ (H : HeaderApi) where
  open H use {HeaderMap, iter}

  -- The names that a preflight asks for are those of the lines that the fetcher does not own and
  -- that are not safelisted; or, if the safelisted values come to more than 1024 bytes together, of
  -- all the lines that the fetcher does not own.
  pub unsafe_request_header_names_lem :
      (headers : HeaderMap) (t : Text)
      → one_of (unsafe_request_header_names H headers) t
        ≡ any
            (λ line.
              text_eq t line.0
              && must_ask (ltb max_safelisted_value_bytes (safe_bytes (iter headers))) line)
            (iter headers)
  unfolding unsafe_request_header_names names_to_ask one_of
  unsafe_request_header_names_lem headers t =
      let c = collect nothing_collected (iter headers) in
      ground (
        arith,
        one_of-dedup t (sort (names_to_ask c)),
        one_of-sort t (names_to_ask c),
        one_of-append t c.names c.safelisted,
        collect-names nothing_collected t (iter headers),
        collect-safelisted nothing_collected t (iter headers),
        collect-bytes nothing_collected (iter headers),
        any-split t (iter headers),
      )
