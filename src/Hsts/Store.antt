-- ===== src/Hsts/Store.antt =====
-- `HstsEntry`, the contract of `HstsStore`, and `InMemoryHstsStore` of src/net/hsts.rs. The map is
-- an association list by host; `now` stands for the clock that `store` reads.
use gosub_sonar.Prelude.{
  ℕ, ◌≤◌, ◌<◌, ◌≡◌, refl, inl, inr, Bool, true, not, ◌&&◌, List, [], ◌∷◌, Option, none, some, Text,
  text_eq_refl, if◌then◌else◌, ltb, leb, arith, length, retain, length-retain-le, lookup, contains,
  remove, insert, lookup-insert, length-remove-le, length-remove-lt, text_key, IsMap, insert-IsMap,
  remove-IsMap, retain-IsMap, Option-cases,
}

pub record HstsEntry : Type 0 where
  pub expires_at : ℕ
  pub include_subdomains : Bool

unfoldable pub is_expired : HstsEntry → ℕ → Bool
is_expired entry now = leb entry.expires_at now

-- The trait: a plain map by host. It promises nothing about other hosts, since a store may evict.
pub record HstsStore : Type 1 where
  pub Store : Type 0
  pub load : Store → Text → Option HstsEntry
  pub store : Store → Text → HstsEntry → Store
  pub remove : Store → Text → Store
  pub load-store : (s : Store) (h : Text) (e : HstsEntry) → load (store s h e) h ≡ some e
  pub load-remove : (s : Store) (h : Text) → load (remove s h) h ≡ none

abbrev pub Entries : Type 0
Entries = List (Text × HstsEntry)

abbrev pub max_hsts_entries : ℕ
max_hsts_entries = 4096

-- `iter().min_by_key(expires_at)`: the key of the first entry with the least expiry.
unfoldable pub soonest : Entries → Option (Text × ℕ)
soonest [] = none
soonest ((h, e) ∷ m) = elim (soonest m) [
  | none ↦ some (h, e.expires_at)
  | some best ↦ if leb e.expires_at best.1 then some (h, e.expires_at) else some best
]

abbrev pub drop_key : Option (Text × ℕ) → Entries → Entries
drop_key none m = m
drop_key (some best) m = remove best.0 m

abbrev pub unexpired : ℕ → Entries → Entries
unexpired now m = retain (λ p. ltb now p.1.expires_at) m

-- The room that `store` makes in a full map.
unfoldable pub make_room : ℕ → Entries → Entries
unfolding soonest
make_room now m =
    let rest = unexpired now m in
    if leb max_hsts_entries (length rest) then drop_key (soonest rest) rest else rest

unfoldable pub store_in : ℕ → Entries → Text → HstsEntry → Entries
unfolding make_room
store_in now m host entry =
    if leb max_hsts_entries (length m) && not (contains host m)
    then insert host entry (make_room now m)
    else insert host entry m

contains_cons :
    (h k : Text) (e : HstsEntry) (m : Entries)
    → contains k m ≡ true
    → contains k ((h, e) ∷ m) ≡ true
unfolding contains
contains_cons h k e m c = ground arith

soonest-contains : (m : Entries) (h : Text) (t : ℕ) → soonest m ≡ some (h, t) → contains h m ≡ true
unfolding soonest contains
soonest-contains [] h t e = cc
soonest-contains ((k, x) ∷ m) h t e = ground (arith, soonest-contains m h t, text_eq_refl h)

pub soonest-none : (m : Entries) → soonest m ≡ none → length m ≡ 0
unfolding soonest
soonest-none [] e = refl
soonest-none ((k, x) ∷ m) e = absurd (ground arith)

drop_key-lt : (m : Entries) → 0 < length m → length (drop_key (soonest m) m) < length m
drop_key-lt m h = elim (Option-cases (soonest m)) [
  | inl e ↦ absurd (omega (arith, soonest-none m e))
  | inr ((k, t), e) ↦ rw e (length-remove-lt k m (soonest-contains m k t e))
]

make_room-lt :
    (now : ℕ) (m : Entries)
    → length m ≤ max_hsts_entries
    → length (make_room now m) < max_hsts_entries
unfolding make_room
make_room-lt now m h = ground (
  arith,
  drop_key-lt (unexpired now m),
  length-retain-le (λ (p : Text × HstsEntry). ltb now p.1.expires_at) m,
)

-- Storing an entry in the in-memory HSTS store keeps it within its bound.
pub length-store_in :
    (now : ℕ) (m : Entries) (host : Text) (entry : HstsEntry)
    → length m ≤ max_hsts_entries
    → length (store_in now m host entry) ≤ max_hsts_entries
unfolding store_in insert
length-store_in now m host entry h = ground (
  arith,
  make_room-lt now m h,
  length-remove-le host (make_room now m),
  length-remove-le host m,
  length-remove-lt host m,
)

-- What is stored is loaded again.
pub lookup-store_in :
    (now : ℕ) (m : Entries) (host : Text) (entry : HstsEntry)
    → lookup host (store_in now m host entry) ≡ some entry
unfolding store_in
lookup-store_in now m host entry = ground (
  arith,
  text_eq_refl host,
  lookup-insert host host entry m,
  lookup-insert host host entry (make_room now m),
)

drop_key-IsMap : (o : Option (Text × ℕ)) (m : Entries) → IsMap m → IsMap (drop_key o m)
drop_key-IsMap none m h = h
drop_key-IsMap (some best) m h = remove-IsMap best.0 m h

make_room-IsMap : (now : ℕ) (m : Entries) → IsMap m → IsMap (make_room now m)
unfolding make_room
make_room-IsMap now m h =
    let kept = retain-IsMap (λ (p : Text × HstsEntry). ltb now p.1.expires_at) m h in
    ground (arith, kept, drop_key-IsMap (soonest (unexpired now m)) _ kept)

-- If the in-memory HSTS store has at most one entry for each host, it has so after an entry is
-- stored.
pub store_in-IsMap :
    (now : ℕ) (m : Entries) (host : Text) (entry : HstsEntry)
    → IsMap m
    → IsMap (store_in now m host entry)
unfolding store_in
store_in-IsMap now m host entry h = ground (
  arith,
  insert-IsMap host entry m h,
  insert-IsMap host entry (make_room now m) (make_room-IsMap now m h),
)
