-- ===== src/Cache/Budget.antt =====
-- The byte budget of the in-memory cache of src/net/cache.rs: what is charged is what is held.
use gosub_sonar.Prelude.{
  text_eq, ℕ, ◌-◌, ◌≤◌, ◌≡◌, refl, ap, inl, inr, ◌&&◌, List, [], ◌∷◌, none, some, ==_iff, ltb,
  arith, lookup, remove, lookup-remove, lookup-cons_self, remove-IsMap, Bool-cases, Option-cases,
}
use gosub_sonar.Web.Headers.{HeaderApi}
use gosub_sonar.Cache.Entry.{CacheEntry, size}
use gosub_sonar.Cache.Contents.{
  CacheKey, cache_key, clock_key, Lru, Stored, Keyed, Contents, empty_contents, charged_at, touch,
  remove_key, evict_from, evict, use_key, store_variant, put, get, invalidate, remove_matching,
  clear, charge, same_cache_key_iff,
}
use gosub_sonar.Cache.Charges.{
  IsExact, total, total-remove, touch-IsExact, use_key-IsExact, store_variant-IsExact,
}

module _ (H : HeaderApi) where
  -- The contents after the oldest slot has gone, with its key.
  abbrev popped : Contents H → CacheKey → Lru → Contents H
  popped c key slots = record c {
    keys = remove key c.keys;
    bytes = c.bytes - charged_at H (lookup key c.keys);
    lru = slots;
  }

  popped-IsExact :
      (c : Contents H) (t : ℕ) (key : CacheKey) (slots : Lru)
      → IsExact H (record c { lru = (t, key) ∷ slots })
      → IsExact H (popped c key slots)
  unfolding lookup
  popped-IsExact c t key slots x = record {
    adds_up = ground (arith, x.adds_up, total-remove H key c.keys x.map);
    map = remove-IsMap key c.keys x.map;
    slots = λ k kd e. ground (
      arith,
      lookup-remove key k c.keys,
      x.slots k kd,
      same_cache_key_iff key k,
      ==_iff t kd.last_used,
    );
    ticked = λ s k e. ground (arith, x.ticked s k, x.ticked t key, ==_iff t s);
  }

  no_keys :
      (keys : List (CacheKey × Keyed H))
      → ((k : CacheKey) (keyed : Keyed H) → lookup k keys ≡ some keyed → none ≡ some k)
      → total H keys ≡ 0
  no_keys [] f = refl
  no_keys ((k, keyed) ∷ keys) f = absurd (cc (f k keyed (lookup-cons_self k keyed keys)))

  -- With no slots left there are no keys left.
  no_slots : (c : Contents H) → IsExact H (record c { lru = [] }) → total H c.keys ≡ 0
  unfolding lookup
  no_slots c x = no_keys c.keys x.slots

  evict_from-IsExact :
      (max_bytes : ℕ) (c : Contents H) (slots : Lru)
      → IsExact H (record c { lru = slots })
      → IsExact H (evict_from H max_bytes c slots)
        × ((evict_from H max_bytes c slots).bytes ≤ max_bytes)
  unfolding evict_from
  evict_from-IsExact max_bytes c [] x = elim (Bool-cases (ltb max_bytes c.bytes)) [
    | inl over ↦ absurd (ground (arith, no_slots c x, x.adds_up))
    | inr fits ↦ rw fits (x, ground arith)
  ]
  evict_from-IsExact max_bytes c ((t, key) ∷ slots) x = elim (Bool-cases (ltb max_bytes c.bytes)) [
    | inl over ↦ rw over (
        evict_from-IsExact max_bytes
          (record c {
            keys = remove key c.keys;
            bytes = c.bytes - charged_at H (lookup key c.keys);
          })
          slots (popped-IsExact c t key slots x))
    | inr fits ↦ rw fits (x, ground arith)
  ]

  -- Storing a response keeps the charges exact and within the budget, if they were so.
  pub put-IsExact :
      (max_bytes max_entry_bytes : ℕ) (key : CacheKey) (entry : CacheEntry H) (c : Contents H)
      → IsExact H c
      → c.bytes ≤ max_bytes
      → IsExact H (put H max_bytes max_entry_bytes key entry c)
        × ((put H max_bytes max_entry_bytes key entry c).bytes ≤ max_bytes)
  unfolding put evict
  put-IsExact max_bytes max_entry_bytes key entry c x h =
      let new : Stored H = record { entry = entry; charged = charge H key entry } in
      let kept = store_variant-IsExact H key new (use_key H key c) (use_key-IsExact H key c x) in
      elim (Bool-cases (ltb max_entry_bytes (size H entry))) [
        | inl large ↦ rw large (x, h)
        | inr small ↦
            rw small
              (evict_from-IsExact max_bytes (store_variant H key new (use_key H key c)) _ kept)
      ]

  remove_key-IsExact :
      (key : CacheKey) (c : Contents H) → IsExact H c → IsExact H (remove_key H key c)
  unfolding remove_key
  remove_key-IsExact key c x = elim (Option-cases (lookup key c.keys)) [
    | inl absent ↦ rw (absent, remove_key) x
    | inr (keyed, found) ↦
        rw (found, remove_key)
          record {
            adds_up =
                ground (arith, x.adds_up, total-remove H key c.keys x.map, ap (charged_at H) found);
            map = remove-IsMap key c.keys x.map;
            slots = λ k kd e. ground (
              arith,
              lookup-remove key k c.keys,
              lookup-remove keyed.last_used kd.last_used c.lru,
              x.slots k kd,
              x.slots key keyed found,
              same_cache_key_iff key k,
            );
            ticked = λ t k e. ground (arith, lookup-remove keyed.last_used t c.lru, x.ticked t k);
          }
  ]

  bytes-remove_key : (key : CacheKey) (c : Contents H) → (remove_key H key c).bytes ≤ c.bytes
  unfolding remove_key
  bytes-remove_key key c = ground arith

  -- The charges are exact and within the budget.
  abbrev pub IsWithin : ℕ → Contents H → Type 0
  IsWithin max_bytes c = IsExact H c × (c.bytes ≤ max_bytes)

  remove_matching-IsWithin :
      (max_bytes : ℕ) (key : CacheKey) (keys : List (CacheKey × Keyed H)) (c : Contents H)
      → IsWithin max_bytes c
      → IsWithin max_bytes (remove_matching H key keys c)
  unfolding remove_matching
  remove_matching-IsWithin max_bytes key [] c h = h
  remove_matching-IsWithin max_bytes key ((k, keyed) ∷ others) c h =
      elim (Bool-cases (text_eq k.0 key.0 && text_eq k.1 key.1)) [
        | inr other ↦
            rw (other, remove_matching) (remove_matching-IsWithin max_bytes key others c h)
        | inl same ↦
            rw (same, remove_matching)
              (remove_matching-IsWithin max_bytes key others (remove_key H k c)
                (remove_key-IsExact k c h.0, omega (arith, bytes-remove_key k c, h.1)))
      ]

  -- What the fetcher does with a cache of these limits.
  pub data Step (max_bytes max_entry_bytes : ℕ) (c : Contents H) : Contents H → Type 0 where
    puts :
        (key : CacheKey) (entry : CacheEntry H)
        → Step max_bytes max_entry_bytes c (put H max_bytes max_entry_bytes key entry c)
    gets : (key : CacheKey) → Step max_bytes max_entry_bytes c (get H key c).0
    invalidates : (key : CacheKey) → Step max_bytes max_entry_bytes c (invalidate H key c)
    clears : Step max_bytes max_entry_bytes c (clear H c)

  pub data Reach (max_bytes max_entry_bytes : ℕ) : Contents H → Type 0 where
    new_cache : Reach max_bytes max_entry_bytes (empty_contents H)
    then_step :
        {c d : Contents H}
        → Reach max_bytes max_entry_bytes c
        → Step max_bytes max_entry_bytes c d
        → Reach max_bytes max_entry_bytes d

  bytes-touch : (key : CacheKey) (c : Contents H) → (touch H key c).bytes ≡ c.bytes
  unfolding touch
  bytes-touch key c = ground arith

  empty-IsExact : (now : ℕ) → IsExact H (record { keys = []; lru = []; bytes = 0; clock = now })
  unfolding lookup
  empty-IsExact now = record {
    adds_up = refl;
    map = tt;
    slots = λ k keyed e. ground arith;
    ticked = λ t k e. ground arith;
  }

  Step-IsWithin :
      (max_bytes max_entry_bytes : ℕ) {c d : Contents H}
      → Step max_bytes max_entry_bytes c d
      → IsWithin max_bytes c
      → IsWithin max_bytes d
  unfolding get invalidate clear
  Step-IsWithin max_bytes max_entry_bytes {c} (puts key entry) h =
      put-IsExact max_bytes max_entry_bytes key entry c h.0 h.1
  Step-IsWithin max_bytes max_entry_bytes {c} (gets key) h =
      (touch-IsExact H key c h.0, omega (arith, bytes-touch key c, h.1))
  Step-IsWithin max_bytes max_entry_bytes {c} (invalidates key) h =
      remove_matching-IsWithin max_bytes key c.keys c h
  Step-IsWithin max_bytes max_entry_bytes {c} clears h = (empty-IsExact c.clock, omega arith)

  -- Whatever is put, asked for, invalidated and cleared, starting from an empty cache: the bytes that
  -- the cache counts are the sum of the charges of what it holds, and never more than its budget;
  -- each key has one entry, and its slot in the order of use.
  pub Reach-IsWithin :
      (max_bytes max_entry_bytes : ℕ) {c : Contents H}
      → Reach max_bytes max_entry_bytes c
      → IsWithin max_bytes c
  Reach-IsWithin max_bytes max_entry_bytes new_cache = (empty-IsExact 0, omega arith)
  Reach-IsWithin max_bytes max_entry_bytes (then_step r st) =
      Step-IsWithin max_bytes max_entry_bytes st (Reach-IsWithin max_bytes max_entry_bytes r)
