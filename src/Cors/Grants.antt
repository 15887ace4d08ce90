-- ===== src/Cors/Grants.antt =====
-- `InMemoryPreflightCache` of src/net/cors/preflight.rs. The map is an association list by key;
-- instants and durations are whole seconds.
use gosub_sonar.Prelude.{
  ℕ, ◌+◌, ◌≡◌, ◌↔◌, Bool, true, false, not, ◌&&◌, List, [], ◌∷◌, Option, none, some, ◌>>=◌, Text,
  text_eq, text_eq_iff, if◌then◌else◌, ltb, leb, arith, length, retain, KeyType, lookup, contains,
  remove, insert,
}
use gosub_sonar.Web.Urls.{UrlApi}
use gosub_sonar.Cors.Check.{PreflightAllows}

abbrev pub max_preflight_entries : ℕ
max_preflight_entries = 1024

-- The serialized origin, the URL without its fragment, and the credentials flag.
abbrev pub PreflightKey : Type 0
PreflightKey = Text × Text × Bool

abbrev pub PreflightEntry : Type 0
PreflightEntry = PreflightAllows × ℕ

abbrev pub Grants : Type 0
Grants = List (PreflightKey × PreflightEntry)

abbrev same_flag : Bool → Bool → Bool
same_flag true b = b
same_flag false b = not b

unfoldable pub same_key : PreflightKey → PreflightKey → Bool
same_key j k = text_eq j.0 k.0 && text_eq j.1 k.1 && same_flag j.2 k.2

same_flag_iff : (a b : Bool) → (same_flag a b ≡ true) ↔ (a ≡ b)
same_flag_iff true b = ground arith
same_flag_iff false b = ground arith

pub same_key_iff : (j k : PreflightKey) → (same_key j k ≡ true) ↔ (j ≡ k)
unfolding same_key
same_key_iff j k = ground (arith, text_eq_iff j.0 k.0, text_eq_iff j.1 k.1, same_flag_iff j.2 k.2)

instance abbrev pub key_eq : KeyType PreflightKey
key_eq = record { is_same = same_key; is_same_iff = same_key_iff }

-- `iter().min_by_key(exp)`: the first key with the least expiry, and that expiry.
unfoldable pub soonest : Grants → Option (PreflightKey × ℕ)
soonest [] = none
soonest ((k, entry) ∷ m) = elim (soonest m) [
  | none ↦ some (k, entry.1)
  | some best ↦ if leb entry.1 best.1 then some (k, entry.1) else some best
]

abbrev pub drop_key : Option (PreflightKey × ℕ) → Grants → Grants
drop_key none m = m
drop_key (some best) m = remove best.0 m

unfoldable pub make_room : PreflightKey → Grants → Grants
unfolding soonest
make_room key m =
    if leb max_preflight_entries (length m) && not (contains key m)
    then drop_key (soonest m) m
    else m

unfoldable pub get_at : PreflightKey → ℕ → Grants → Option PreflightAllows
get_at key now m = lookup key m >>= λ entry. if ltb now entry.1 then some entry.0 else none

unfoldable pub put_at : PreflightKey → PreflightAllows → ℕ → Grants → Grants
unfolding make_room
put_at key allows now m =
    insert key (allows, now + allows.max_age) (make_room key (retain (λ p. ltb now p.1.1) m))

module _ (U : UrlApi) where
  open U use {Url, clear_fragment, as_str}

  unfoldable pub key_of : Text → Url → Bool → PreflightKey
  key_of origin url credentials = (origin, as_str (clear_fragment url), credentials)

  unfoldable pub get : Text → Url → Bool → ℕ → Grants → Option PreflightAllows
  unfolding key_of get_at
  get origin url credentials now m = get_at (key_of origin url credentials) now m

  unfoldable pub put : Text → Url → Bool → PreflightAllows → ℕ → Grants → Grants
  unfolding key_of put_at
  put origin url credentials allows now m = put_at (key_of origin url credentials) allows now m

  unfoldable pub clear : Text → Url → Grants → Grants
  unfolding key_of
  clear origin url m = remove (key_of origin url true) (remove (key_of origin url false) m)
