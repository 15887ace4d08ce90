-- ===== src/Cors/Expiry.antt =====
-- What the preflight cache of src/net/cors/preflight.rs holds on to: expiry, the bound and clearing.
use gosub_sonar.Prelude.{
  ℕ, ◌+◌, ◌≤◌, ◌<◌, ◌≡◌, refl, inl, inr, Bool, true, false, ◌&&◌, [], ◌∷◌, none, some, Text,
  text_eq, if◌then◌else◌, ltb, arith, length, retain, length-retain-le, contains, remove, insert,
  lookup-insert, lookup-remove, length-remove-le, length-remove-lt, Option-cases, Bool-cases,
}
use gosub_sonar.Web.Urls.{UrlApi}
use gosub_sonar.Cors.Check.{PreflightAllows}
use gosub_sonar.Cors.Grants.{
  PreflightKey, PreflightEntry, Grants, key_eq, same_key, soonest, drop_key, make_room, get_at,
  put_at, max_preflight_entries, get, put, clear, key_of,
}

soonest-contains :
    (m : Grants) (k : PreflightKey) (t : ℕ) → soonest m ≡ some (k, t) → contains k m ≡ true
unfolding soonest contains
soonest-contains [] k t e = cc
soonest-contains ((j, x) ∷ m) k t e =
    ground (arith, soonest-contains m k t, (key_eq.is_same_iff k k).1 refl, key_eq.is_same_iff j k)

soonest-none : (m : Grants) → soonest m ≡ none → length m ≡ 0
unfolding soonest
soonest-none [] e = refl
soonest-none ((k, x) ∷ m) e = absurd (ground arith)

drop_key-lt : (m : Grants) → 0 < length m → length (drop_key (soonest m) m) < length m
drop_key-lt m h = elim (Option-cases (soonest m)) [
  | inl e ↦ absurd (omega (arith, soonest-none m e))
  | inr ((k, t), e) ↦ rw e (length-remove-lt k m (soonest-contains m k t e))
]

length-put_at :
    (key : PreflightKey) (allows : PreflightAllows) (now : ℕ) (m : Grants)
    → length m ≤ max_preflight_entries
    → length (put_at key allows now m) ≤ max_preflight_entries
unfolding put_at make_room insert
length-put_at key allows now m h =
    let live = retain (λ (p : PreflightKey × PreflightEntry). ltb now p.1.1) m in
    ground (
      arith,
      length-retain-le (λ (p : PreflightKey × PreflightEntry). ltb now p.1.1) m,
      drop_key-lt live,
      length-remove-le key (drop_key (soonest live) live),
      length-remove-le key live,
      length-remove-lt key live,
    )

get_at-put_at :
    (key : PreflightKey) (allows : PreflightAllows) (now later : ℕ) (m : Grants)
    → get_at key later (put_at key allows now m)
      ≡ (if ltb later (now + allows.max_age) then some allows else none)
unfolding get_at put_at
get_at-put_at key allows now later m =
    let live = retain (λ (p : PreflightKey × PreflightEntry). ltb now p.1.1) m in
    ground (
      arith,
      (key_eq.is_same_iff key key).1 refl,
      lookup-insert key key (allows, now + allows.max_age) (make_room key live),
    )

module _ (U : UrlApi) where
  open U use {Url, clear_fragment, as_str}

  -- A grant that has been put is found until its `max_age` is over, and not from then on, under
  -- every URL that differs in the fragment alone.
  pub get-put :
      (origin : Text) (u v : Url) (c : Bool) (allows : PreflightAllows) (now later : ℕ) (m : Grants)
      → as_str (clear_fragment u) ≡ as_str (clear_fragment v)
      → get U origin v c later (put U origin u c allows now m)
        ≡ (if ltb later (now + allows.max_age) then some allows else none)
  unfolding get put
  get-put origin u v c allows now later m e = rw e (get_at-put_at _ allows now later m)

  -- Putting a grant keeps the preflight cache within its bound.
  pub length-put :
      (origin : Text) (u : Url) (c : Bool) (allows : PreflightAllows) (now : ℕ) (m : Grants)
      → length m ≤ max_preflight_entries
      → length (put U origin u c allows now m) ≤ max_preflight_entries
  unfolding put
  length-put origin u c allows now m h = length-put_at _ allows now m h

  -- Clearing drops the grants of an origin and a URL, with credentials and without, and leaves
  -- every other grant.
  pub get-clear :
      (origin other : Text) (u v : Url) (c : Bool) (now : ℕ) (m : Grants)
      → get U other v c now (clear U origin u m) ≡ (
          if text_eq origin other && text_eq (as_str (clear_fragment u)) (as_str (clear_fragment v))
          then none
          else get U other v c now m)
  unfolding get clear get_at same_key key_of
  get-clear origin other u v c now m = ground (
    arith,
    Bool-cases c,
    lookup-remove (key_of U origin u true) (key_of U other v c)
        (remove (key_of U origin u false) m),
    lookup-remove (key_of U origin u false) (key_of U other v c) m,
  )
