-- ===== src/Hsts/Eviction.antt =====
-- Which entries the in-memory store of src/net/hsts.rs gives up when it is full.
use gosub_sonar.Prelude.{
  ℕ, ◌≤◌, ◌≡◌, refl, ap, ◌∙◌, subst, ◌⊎◌, inl, inr, not, ◌&&◌, [], ◌∷◌, none, some, Text, text_eq,
  text_eq_iff, if◌then◌else◌, ltb, leb, arith, length, lookup, contains, lookup-insert,
  lookup-remove, text_key, IsMap, retain-IsMap, lookup-retain, lookup-cons_self, lookup-cons_fresh,
  Bool-cases, Option-cases, All,
}
use gosub_sonar.Hsts.Store.{
  HstsEntry, Entries, max_hsts_entries, soonest, unexpired, make_room, store_in, soonest-none,
}

least_mono :
    (s t : ℕ) (m : Entries)
    → s ≤ t
    → All (λ p. t ≤ p.1.expires_at) m
    → All (λ p. s ≤ p.1.expires_at) m
least_mono s t [] h a = tt
least_mono s t (p ∷ m) h a = (omega arith, least_mono s t m h a.1)

soonest-least :
    (m : Entries) (h : Text) (t : ℕ) → soonest m ≡ some (h, t) → All (λ p. t ≤ p.1.expires_at) m
unfolding soonest
soonest-least [] h t e = cc
soonest-least ((k, x) ∷ []) h t e = ground arith
soonest-least ((k, x) ∷ y ∷ m) h t e = elim (Option-cases (soonest (y ∷ m))) [
  | inl none_left ↦ absurd (omega (arith, soonest-none (y ∷ m) none_left))
  | inr ((b, u), f) ↦
      let all_rest = soonest-least (y ∷ m) b u f in
      let bound : (t ≤ x.expires_at) × (t ≤ u) = ground (arith, rw (f, soonest) at e) in
      (bound.0, least_mono t u (y ∷ m) bound.1 all_rest)
]

soonest-lookup :
    (m : Entries) (h : Text) (t : ℕ)
    → IsMap m
    → soonest m ≡ some (h, t)
    → (x : HstsEntry) × (lookup h m ≡ some x) × (x.expires_at ≡ t)
unfolding soonest
soonest-lookup [] h t u e = cc
soonest-lookup ((k, x) ∷ m) h t u e = elim (Option-cases (soonest m)) [
  | inl nothing_left ↦ (x, ground (arith, lookup-cons_self k x m), ground arith)
  | inr ((b, s), f) ↦ elim (Bool-cases (leb x.expires_at s)) [
    | inl sooner ↦ (x, ground (arith, lookup-cons_self k x m), ground arith)
    | inr later ↦
        let (y, found, age) = soonest-lookup m b s u.1 f in
        let same : h ≡ b = ground arith in
        (y, rw same (lookup-cons_fresh k b x y m u.0 found), ground arith)
  ]
]

-- The entry has expired, or no unexpired entry expires before it.
abbrev pub IsLeast : ℕ → Entries → HstsEntry → Type 0
IsLeast now m entry =
    (entry.expires_at ≤ now) ⊎ All (λ p. entry.expires_at ≤ p.1.expires_at) (unexpired now m)

-- The room made in a full map costs only an expired entry, or the one that expires first.
module _ (now : ℕ) (m : Entries) (host : Text) (entry : HstsEntry) (u : IsMap m)
    (e : lookup host m ≡ some entry) where
  kept : lookup host (unexpired now m) ≡ (if ltb now entry.expires_at then some entry else none)
  kept = lookup-retain (λ (x : HstsEntry). ltb now x.expires_at) host entry m u e

  soonest-IsLeast :
      (t : ℕ)
      → lookup host (unexpired now m) ≡ some entry
      → soonest (unexpired now m) ≡ some (host, t)
      → IsLeast now m entry
  soonest-IsLeast t live f =
      let rest : IsMap (unexpired now m) =
        retain-IsMap (λ (p : Text × HstsEntry). ltb now p.1.expires_at) m u in
      let (x, found, age) = soonest-lookup (unexpired now m) host t rest f in
      let same : x ≡ entry = cc (found, live) in
      inr (
        least_mono _ t _ (omega (arith, age, ap (λ y. y.expires_at) same))
          (soonest-least (unexpired now m) host t f))

  lookup-make_room : lookup host (make_room now m) ≡ none → IsLeast now m entry
  unfolding make_room
  lookup-make_room gone = elim (Option-cases (soonest (unexpired now m))) [
    | inl nobody ↦ inl (ground (arith, kept, nobody))
    | inr ((b, t), f) ↦ elim (Bool-cases (text_eq b host)) [
      | inl same ↦ elim (Bool-cases (ltb now entry.expires_at)) [
        | inr dead ↦ inl (ground arith)
        | inl live ↦
            soonest-IsLeast t (kept ∙ rw live refl)
              (subst (λ k. soonest (unexpired now m) ≡ some (k, t)) ((text_eq_iff b host).0 same) f)
      ]
      | inr other ↦ inl (ground (arith, kept, f, lookup-remove b host (unexpired now m)))
    ]
  ]

-- Storing a host's entry loses another host's only if that one had expired, or the map was full and
-- no unexpired entry of it expires sooner.
pub store_in-evicts :
    (now : ℕ) (m : Entries) (new_host host : Text) (new_entry entry : HstsEntry)
    → IsMap m
    → lookup host m ≡ some entry
    → lookup host (store_in now m new_host new_entry) ≡ none
    → (max_hsts_entries ≤ length m) × IsLeast now m entry
unfolding store_in
store_in-evicts now m new_host host new_entry entry u e gone =
    elim (Bool-cases (leb max_hsts_entries (length m) && not (contains new_host m))) [
      | inl full ↦ (
        ground arith,
        lookup-make_room now m host entry u e (
            ground (
              arith,
              rw (full, store_in) at gone,
              lookup-insert new_host host new_entry (make_room now m),
            )),
      )
      | inr room ↦
          absurd
            (ground (arith, rw (room, store_in) at gone, lookup-insert new_host host new_entry m))
    ]
