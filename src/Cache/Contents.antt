-- ===== src/Cache/Contents.antt =====
-- `InMemoryHttpCache` of src/net/cache.rs: the map of keys, the order of their use, and the bytes
-- that are charged. The two maps are association lists; the one by clock is sorted, oldest first.
use gosub_sonar.Prelude.{
  ℕ, suc, ◌+◌, ◌-◌, ◌≡◌, ◌↔◌, Bool, true, false, not, ◌&&◌, List, [], ◌∷◌, Option, none, some, Text,
  text_eq, text_eq_iff, if◌then◌else◌, ◌==◌, ==_iff, ltb, length, map, arith, KeyType, lookup,
  contains, remove, insert,
}
use gosub_sonar.Web.Headers.{HeaderApi}
use gosub_sonar.Web.Urls.{UrlApi}
use gosub_sonar.Cache.Entry.{CacheEntry, Selector, size, same_value}

-- The method, the URL without its fragment, as it is written, and the partition.
abbrev pub CacheKey : Type 0
CacheKey = Text × Text × Text

unfoldable pub same_cache_key : CacheKey → CacheKey → Bool
same_cache_key j k = text_eq j.0 k.0 && text_eq j.1 k.1 && text_eq j.2 k.2

pub same_cache_key_iff : (j k : CacheKey) → (same_cache_key j k ≡ true) ↔ (j ≡ k)
unfolding same_cache_key
same_cache_key_iff j k =
    ground (arith, text_eq_iff j.0 k.0, text_eq_iff j.1 k.1, text_eq_iff j.2 k.2)

instance abbrev pub cache_key : KeyType CacheKey
cache_key = record { is_same = same_cache_key; is_same_iff = same_cache_key_iff }

instance abbrev pub clock_key : KeyType ℕ
clock_key = record { is_same = λ a b. a == b; is_same_iff = ==_iff }

abbrev pub Lru : Type 0
Lru = List (ℕ × CacheKey)

-- `BTreeMap::insert`.
unfoldable pub insert_slot : ℕ → CacheKey → Lru → Lru
insert_slot t k [] = (t, k) ∷ []
insert_slot t k ((s, j) ∷ slots) =
    let rest = insert_slot t k slots in
    if ltb t s then (t, k) ∷ (s, j) ∷ slots else if t == s then (t, k) ∷ slots else (s, j) ∷ rest

abbrev pub stored_overhead : ℕ
stored_overhead = 256

abbrev vary_bytes : List Selector → ℕ
vary_bytes [] = 0
vary_bytes ((name, none) ∷ vary) = length name + vary_bytes vary
vary_bytes ((name, some value) ∷ vary) = length name + length value + vary_bytes vary

unfoldable pub same_vary : List Selector → List Selector → Bool
unfolding same_value
same_vary [] [] = true
same_vary ((n, v) ∷ s) ((m, w) ∷ t) = text_eq n m && same_value v w && same_vary s t
same_vary _ _ = false

abbrev same_bool : Bool → Bool → Bool
same_bool true b = b
same_bool false b = not b

unfoldable pub key_of : (U : UrlApi) → Text → U.Url → CacheKey
key_of U method url = (method, U.as_str (U.clear_fragment url), [])

unfoldable pub in_partition : CacheKey → Text → CacheKey
in_partition key partition = (key.0, key.1, partition)

module _ (H : HeaderApi) where
  pub record Stored : Type 0 where
    pub entry : CacheEntry H
    pub charged : ℕ

  pub record Keyed : Type 0 where
    pub variants : List Stored
    pub last_used : ℕ

  pub record Contents : Type 0 where
    pub keys : List (CacheKey × Keyed)
    pub lru : Lru
    pub bytes : ℕ
    pub clock : ℕ

  abbrev pub empty_contents : Contents
  empty_contents = record { keys = []; lru = []; bytes = 0; clock = 0 }

  unfoldable pub charge : CacheKey → CacheEntry H → ℕ
  unfolding size
  charge key entry =
      size H entry + length key.1 + length key.2 + vary_bytes entry.vary + stored_overhead

  -- What the variants under a key were charged.
  abbrev pub charged_all : List Stored → ℕ
  charged_all [] = 0
  charged_all (s ∷ ss) = s.charged + charged_all ss

  abbrev pub charged_at : Option Keyed → ℕ
  charged_at none = 0
  charged_at (some keyed) = charged_all keyed.variants

  unfoldable pub touch : CacheKey → Contents → Contents
  unfolding insert_slot
  touch key c = elim (lookup key c.keys) [
    | none ↦ record c { clock = suc c.clock }
    | some keyed ↦ record c {
      clock = suc c.clock;
      lru = insert_slot (suc c.clock) key (remove keyed.last_used c.lru);
      keys = insert key (record keyed { last_used = suc c.clock }) c.keys;
    }
  ]

  unfoldable pub remove_key : CacheKey → Contents → Contents
  remove_key key c = elim (lookup key c.keys) [
    | none ↦ c
    | some keyed ↦ record c {
      keys = remove key c.keys;
      lru = remove keyed.last_used c.lru;
      bytes = c.bytes - charged_all keyed.variants;
    }
  ]

  -- The loop of `evict`, down the slots from the oldest.
  unfoldable pub evict_from : ℕ → Contents → Lru → Contents
  evict_from max_bytes c [] =
      if ltb max_bytes c.bytes then record c { lru = []; bytes = 0 } else record c { lru = [] }
  evict_from max_bytes c ((t, key) ∷ slots) =
      let rest =
        evict_from max_bytes
          (record c { keys = remove key c.keys; bytes = c.bytes - charged_at (lookup key c.keys) })
          slots in
      if ltb max_bytes c.bytes then rest else record c { lru = (t, key) ∷ slots }

  unfoldable pub evict : ℕ → Contents → Contents
  unfolding evict_from
  evict max_bytes c = evict_from max_bytes c c.lru

  -- The variant is put in the place of the one for the same request headers, or at the end; with the
  -- bytes that the replaced one was charged.
  unfoldable pub put_variant : Stored → List Stored → List Stored × ℕ
  unfolding same_vary
  put_variant new [] = (new ∷ [], 0)
  put_variant new (s ∷ ss) =
      let rest = put_variant new ss in
      if same_vary s.entry.vary new.entry.vary && same_bool s.entry.decoded new.entry.decoded
      then (new ∷ ss, s.charged)
      else (s ∷ rest.0, rest.1)

  -- The key is used: it moves to the young end, or gets a slot there.
  unfoldable pub use_key : CacheKey → Contents → Contents
  unfolding touch insert_slot
  use_key key c =
      let ticked = record c { clock = suc c.clock } in
      if contains key c.keys then touch key ticked else record ticked {
        lru = insert_slot (suc c.clock) key c.lru;
        keys = insert key (record { variants = []; last_used = suc c.clock }) c.keys;
      }

  unfoldable pub store_variant : CacheKey → Stored → Contents → Contents
  unfolding put_variant
  store_variant key new c = elim (lookup key c.keys) [
    | none ↦ c
    | some keyed ↦
        let (variants, freed) = put_variant new keyed.variants in
        record c {
          keys = insert key (record keyed { variants = variants }) c.keys;
          bytes = c.bytes - freed + new.charged;
        }
  ]

  unfoldable pub put :
      (max_bytes max_entry_bytes : ℕ) → CacheKey → CacheEntry H → Contents → Contents
  unfolding charge use_key store_variant evict
  put max_bytes max_entry_bytes key entry c =
      if ltb max_entry_bytes (size H entry)
      then c
      else evict max_bytes
          (store_variant key (record { entry = entry; charged = charge key entry }) (use_key key c))

  unfoldable pub get : CacheKey → Contents → Contents × List (CacheEntry H)
  unfolding touch
  get key c = (
    touch key c,
    elim (lookup key c.keys) [ none ↦ [] | some keyed ↦ map (λ s. s.entry) keyed.variants ],
  )

  -- The loop of `invalidate` over the keys.
  unfoldable pub remove_matching : CacheKey → List (CacheKey × Keyed) → Contents → Contents
  unfolding remove_key
  remove_matching key [] c = c
  remove_matching key ((k, keyed) ∷ others) c =
      remove_matching key others
        (if text_eq k.0 key.0 && text_eq k.1 key.1 then remove_key k c else c)

  unfoldable pub invalidate : CacheKey → Contents → Contents
  unfolding remove_matching
  invalidate key c = remove_matching key c.keys c

  unfoldable pub clear : Contents → Contents
  clear c = record c { keys = []; lru = []; bytes = 0 }
