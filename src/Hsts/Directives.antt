-- ===== src/Hsts/Directives.antt =====
-- What `parse_sts` of src/net/hsts.rs accepts.
use gosub_sonar.Prelude.{
  ℕ, ◌≡◌, refl, true, false, List, [], ◌∷◌, Option, none, some, Text, codes, if◌then◌else◌, arith,
  any, eq_ignore_ascii_case,
}
use gosub_sonar.Hsts.Grammar.{Directive, Parsed, parse_directive, delta_seconds}

-- Two names that agree up to the case of ASCII letters.
abbrev pub SameName : Text → Text → Type 0
SameName a b = eq_ignore_ascii_case a b ≡ true

-- No directive of the list has a name of `seen`, and no two have the same name.
abbrev pub IsFresh : List Text → List Directive → Type 0
IsFresh seen [] = Unit
IsFresh seen (d ∷ ds) =
    (any (λ s. eq_ignore_ascii_case s d.0) seen ≡ false) × IsFresh (d.0 ∷ seen) ds

-- The value of the first directive of that name.
unfoldable pub value_of : Text → List Directive → Option (Option Text)
value_of name [] = none
value_of name (d ∷ ds) = if eq_ignore_ascii_case d.0 name then some d.1 else value_of name ds

-- The age that a directive list states, and otherwise the one known before.
unfoldable pub stated_age : Option ℕ → Option (Option Text) → Option ℕ
stated_age before none = before
stated_age before (some none) = none
stated_age before (some (some v)) = delta_seconds v

abbrev pub age_name : Text
age_name = codes "max-age"

abbrev pub sub_name : Text
sub_name = codes "includeSubDomains"

-- The valueless directive carries no value.
parse_directive-bare :
    (p q : Parsed) (name : Text) (value : Option Text)
    → parse_directive p (name, value) ≡ some q
    → eq_ignore_ascii_case name age_name ≡ false
    → eq_ignore_ascii_case name sub_name ≡ true
    → value ≡ none
unfolding parse_directive
parse_directive-bare p q name none h k e = refl
parse_directive-bare p q name (some v) h k e = absurd (ground arith)
