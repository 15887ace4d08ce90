-- ===== src/Cache/Charges.antt =====
-- The accounting of the in-memory cache of src/net/cache.rs: what is charged is what is held, and
-- each key has its slot in the order of use.
use gosub_sonar.Prelude.{
  ℕ, suc, ◌+◌, ◌≤◌, ◌≡◌, refl, ap, subst, inl, inr, false, List, [], ◌∷◌, some, if◌then◌else◌, ◌==◌,
  arith, lookup, contains, remove, insert, lookup-insert, lookup-remove, lookup-eq-none, IsMap,
  insert-IsMap, Bool-cases, Option-cases,
}
use gosub_sonar.Web.Headers.{HeaderApi}
use gosub_sonar.Cache.Contents.{
  CacheKey, cache_key, clock_key, Lru, insert_slot, Stored, Keyed, Contents, charged_all,
  charged_at, touch, put_variant, use_key, store_variant, same_cache_key_iff,
}

module _ (H : HeaderApi) where
  abbrev pub total : List (CacheKey × Keyed H) → ℕ
  total [] = 0
  total ((k, keyed) ∷ keys) = charged_all H keyed.variants + total keys

  remove-absent :
      (key : CacheKey) (keys : List (CacheKey × Keyed H))
      → contains key keys ≡ false
      → remove key keys ≡ keys
  unfolding remove contains
  remove-absent key [] h = refl
  remove-absent key ((k, keyed) ∷ keys) h = ground (arith, remove-absent key keys)

  -- A key takes its charge with it.
  pub total-remove :
      (key : CacheKey) (keys : List (CacheKey × Keyed H))
      → IsMap keys
      → total (remove key keys) + charged_at H (lookup key keys) ≡ total keys
  unfolding remove lookup
  total-remove key [] u = refl
  total-remove key ((k, keyed) ∷ keys) u = elim (Bool-cases (cache_key.is_same k key)) [
    | inl same ↦
        let e : k ≡ key = (same_cache_key_iff k key).0 same in
        rw (same, remove-absent key keys (subst (λ j. contains j keys ≡ false) e u.0)) (omega arith)
    | inr other ↦ rw other (omega (arith, total-remove key keys u.1))
  ]

  -- The charges add up, each key has one entry, and its slot is where it was last used.
  pub record IsExact (c : Contents H) : Type 0 where
    pub adds_up : c.bytes ≡ total c.keys
    pub map : IsMap c.keys
    pub slots :
        (k : CacheKey) (keyed : Keyed H)
        → lookup k c.keys ≡ some keyed
        → lookup keyed.last_used c.lru ≡ some k
    pub ticked : (t : ℕ) (k : CacheKey) → lookup t c.lru ≡ some k → t ≤ c.clock

  lookup-insert_slot :
      (t s : ℕ) (k : CacheKey) (l : Lru)
      → lookup s (insert_slot t k l) ≡ (if t == s then some k else lookup s l)
  unfolding lookup insert_slot
  lookup-insert_slot t s k [] = refl
  lookup-insert_slot t s k ((r, j) ∷ l) = ground (arith, lookup-insert_slot t s k l)

  total-insert :
      (key : CacheKey) (keyed : Keyed H) (keys : List (CacheKey × Keyed H))
      → IsMap keys
      → total (insert key keyed keys) + charged_at H (lookup key keys)
        ≡ charged_all H keyed.variants + total keys
  unfolding insert
  total-insert key keyed keys u = omega (arith, total-remove key keys u)

  pub touch-IsExact : (key : CacheKey) (c : Contents H) → IsExact c → IsExact (touch H key c)
  unfolding touch
  touch-IsExact key c x = elim (Option-cases (lookup key c.keys)) [
    | inl absent ↦
        rw (absent, touch)
          record {
            adds_up = x.adds_up;
            map = x.map;
            slots = x.slots;
            ticked = λ t k e. ground (arith, x.ticked t k e);
          }
    | inr (keyed, found) ↦
        rw (found, touch)
          record {
            adds_up = ground (
              arith,
              x.adds_up,
              total-insert key (record keyed { last_used = suc c.clock }) c.keys x.map,
            );
            map = insert-IsMap key (record keyed { last_used = suc c.clock }) c.keys x.map;
            slots = λ k kd e. ground (
              arith,
              lookup-insert key k (record keyed { last_used = suc c.clock }) c.keys,
              lookup-insert_slot (suc c.clock) kd.last_used key (remove keyed.last_used c.lru),
              lookup-remove keyed.last_used kd.last_used c.lru,
              x.slots k kd,
              x.slots key keyed found,
              x.ticked kd.last_used k,
              same_cache_key_iff key k,
            );
            ticked = λ t k e. ground (
              arith,
              lookup-insert_slot (suc c.clock) t key (remove keyed.last_used c.lru),
              lookup-remove keyed.last_used t c.lru,
              x.ticked t k,
            );
          }
  ]

  -- The clock alone may move on.
  tick-IsExact : (c : Contents H) → IsExact c → IsExact (record c { clock = suc c.clock })
  tick-IsExact c x = record {
    adds_up = x.adds_up;
    map = x.map;
    slots = x.slots;
    ticked = λ t k e. ground (arith, x.ticked t k e);
  }

  pub use_key-IsExact : (key : CacheKey) (c : Contents H) → IsExact c → IsExact (use_key H key c)
  unfolding use_key
  use_key-IsExact key c x = elim (Bool-cases (contains key c.keys)) [
    | inl known ↦ rw known (touch-IsExact key (record c { clock = suc c.clock }) (tick-IsExact c x))
    | inr fresh ↦
        let new : Keyed H = record { variants = []; last_used = suc c.clock } in
        rw fresh record {
          adds_up = ground (
            arith,
            x.adds_up,
            total-insert key new c.keys x.map,
            lookup-eq-none key c.keys fresh,
          );
          map = insert-IsMap key new c.keys x.map;
          slots = λ k kd e. ground (
            arith,
            lookup-insert key k new c.keys,
            lookup-insert_slot (suc c.clock) kd.last_used key c.lru,
            x.slots k kd,
            x.ticked kd.last_used k,
            same_cache_key_iff key k,
          );
          ticked =
              λ t k e. ground (arith, lookup-insert_slot (suc c.clock) t key c.lru, x.ticked t k);
        }
  ]

  charged_all-put_variant :
      (new : Stored H) (ss : List (Stored H))
      → charged_all H (put_variant H new ss).0 + (put_variant H new ss).1
        ≡ charged_all H ss + new.charged
  unfolding put_variant
  charged_all-put_variant new [] = omega arith
  charged_all-put_variant new (s ∷ ss) = ground (arith, charged_all-put_variant new ss)

  freed-put_variant :
      (new : Stored H) (ss : List (Stored H)) → (put_variant H new ss).1 ≤ charged_all H ss
  unfolding put_variant
  freed-put_variant new [] = omega arith
  freed-put_variant new (s ∷ ss) = ground (arith, freed-put_variant new ss)

  pub store_variant-IsExact :
      (key : CacheKey) (new : Stored H) (c : Contents H)
      → IsExact c
      → IsExact (store_variant H key new c)
  unfolding store_variant
  store_variant-IsExact key new c x = elim (Option-cases (lookup key c.keys)) [
    | inl absent ↦ rw (absent, store_variant) x
    | inr (keyed, found) ↦
        let updated : Keyed H = record keyed { variants = (put_variant H new keyed.variants).0 } in
        rw (found, store_variant)
          record {
            adds_up = ground (
              arith,
              x.adds_up,
              charged_all-put_variant new keyed.variants,
              freed-put_variant new keyed.variants,
              ap (charged_at H) found,
              total-insert key updated c.keys x.map,
              total-remove key c.keys x.map,
            );
            map = insert-IsMap key updated c.keys x.map;
            slots = λ k kd e. ground (
              arith,
              lookup-insert key k updated c.keys,
              x.slots k kd,
              x.slots key keyed found,
              same_cache_key_iff key k,
            );
            ticked = x.ticked;
          }
  ]
