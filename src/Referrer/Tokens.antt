-- ===== src/Referrer/Tokens.antt =====
-- Policies and their header tokens.
use gosub_sonar.Prelude.{
  ◌≡◌, refl, inl, inr, Bool-cases, List, [], ◌∷◌, ◌++◌, Option, none, some, Text, arith, ◌==◌,
  split,
}
use gosub_sonar.Referrer.{
  ReferrerPolicy, no_referrer, as_str, parse_token, last_policy, parse_header,
}

-- Every policy is read back from its token.
pub parse_token-as_str : (p : ReferrerPolicy) → parse_token (as_str p) ≡ some p
unfolding parse_token as_str
parse_token-as_str no_referrer = refl
parse_token-as_str _ = refl

-- The later of two policies, if there is a later one.
abbrev pub later_of : Option ReferrerPolicy → Option ReferrerPolicy → Option ReferrerPolicy
later_of a none = a
later_of a (some p) = some p

last_policy-append :
    (xs ys : List Text) → last_policy (xs ++ ys) ≡ later_of (last_policy xs) (last_policy ys)
unfolding last_policy
last_policy-append [] ys = ground arith
last_policy-append (x ∷ xs) ys = ground (arith, last_policy-append xs ys)

split_cons : (s : Text) → (p : Text) × (ps : List Text) × (split b',' s ≡ p ∷ ps)
unfolding split
split_cons [] = ([], [], refl)
split_cons (c ∷ s) =
    let (p, ps, e) = split_cons s in
    elim (Bool-cases (c == b',')) [
      | inl comma ↦ ([], split b',' s, rw comma)
      | inr other ↦ (c ∷ p, ps, rw (other, e))
    ]

split-append : (s t : Text) → split b',' (s ++ b',' ∷ t) ≡ split b',' s ++ split b',' t
unfolding split
split-append [] t = refl
split-append (c ∷ s) t =
    let (p, ps, e) = split_cons s in
    elim (Bool-cases (c == b',')) [
      | inl comma ↦ rw (comma, split-append s t) refl
      | inr other ↦ rw (other, split-append s t, e) refl
    ]

-- In a list of tokens the last one that names a policy decides, and what names none is passed over.
pub parse_header_last :
    (earlier value : Text)
    → parse_header (earlier ++ b',' ∷ value) ≡ later_of (parse_header earlier) (parse_header value)
unfolding parse_header
parse_header_last earlier value =
    rw (split-append earlier value) (last_policy-append (split b',' earlier) (split b',' value))
