-- ===== src/Cache/Storable.antt =====
-- Which responses src/net/cache.rs stores, which headers an entry keeps, and what a `304` changes.
use gosub_sonar.Prelude.{
  ◌⊎◌, inl, inr, ℕ, ◌≡◌, refl, ◌∙◌, Bool, true, false, not, ◌&&◌, ◌||◌, List, [], ◌∷◌, ◌++◌, Text,
  codes, text_eq, text_eq_iff, if◌then◌else◌, map, retain, is_empty, arith,
}
use gosub_sonar.Web.Headers.{HeaderApi, contains_key, values_of}
use gosub_sonar.Cache.Dates.{Chrono, format_http_date}
use gosub_sonar.Cache.Entry.{
  CacheEntry, among, distinct, keys, append_all, overwrite, is_kept_by_304, updated_by_304,
  remove_all, connection_listed, hop_by_hop,
}
use gosub_sonar.Cache.Age.{stored_headers, entry_from_response}

among-append : (xs ys : List Text) (n : Text) → among (xs ++ ys) n ≡ (among xs n || among ys n)
unfolding among
among-append [] ys n = refl
among-append (x ∷ xs) ys n = ground (arith, among-append xs ys n)

among-retain :
    (t n : Text) (xs : List Text)
    → (text_eq t n || among (retain (λ u. not (text_eq t u)) xs) n) ≡ (text_eq t n || among xs n)
unfolding among
among-retain t n [] = refl
among-retain t n (x ∷ xs) =
    ground (arith, among-retain t n xs, text_eq_iff t x, text_eq_iff x n, text_eq_iff t n)

among-distinct : (xs : List Text) (n : Text) → among (distinct xs) n ≡ among xs n
unfolding among distinct
among-distinct [] n = refl
among-distinct (x ∷ xs) n = ground (arith, among-retain x n (distinct xs), among-distinct xs n)

among-map :
    (lines : List (Text × Text)) (n : Text)
    → among (map (λ line. line.0) lines) n ≡ not (is_empty (values_of n lines))
unfolding among values_of
among-map [] n = refl
among-map (line ∷ lines) n = ground (arith, among-map lines n)

append-one : (xs ys : List Text) (v : Text) → (xs ++ (v ∷ [])) ++ ys ≡ xs ++ (v ∷ ys)
append-one [] ys v = refl
append-one (x ∷ xs) ys v = cc (append-one xs ys v)

append-nil : (xs : List Text) → xs ++ [] ≡ xs
append-nil [] = refl
append-nil (x ∷ xs) = cc (append-nil xs)

module _ (H : HeaderApi) where
  open H use {
    HeaderMap, get_all, iter, append, insert, remove, get_all-append, get_all-insert,
    get_all-remove, values_of-iter,
  }

  get_all-remove_all :
      (names : List Text) (h : HeaderMap) (n : Text)
      → get_all (remove_all H h names) n ≡ (if among names n then [] else get_all h n)
  unfolding remove_all among
  get_all-remove_all [] h n = refl
  get_all-remove_all (m ∷ names) h n =
      ground (arith, get_all-remove_all names (remove h m) n, get_all-remove h m n)

  get_all-append_all :
      (h : HeaderMap) (m n : Text) (vs : List Text)
      → get_all (append_all H h m vs) n ≡ (if text_eq m n then get_all h n ++ vs else get_all h n)
  unfolding append_all
  get_all-append_all h m n [] = ground (arith, append-nil (get_all h n))
  get_all-append_all h m n (v ∷ vs) = ground (
    arith,
    get_all-append_all (append h m v) m n vs,
    get_all-append h m v n,
    append-one (get_all h n) vs v,
  )

  get_all-overwrite :
      (kept : Text → Bool) (sent stored : HeaderMap) (names : List Text) (n : Text)
      → get_all (overwrite H kept sent stored names) n
        ≡ (if among names n && not (kept n) then get_all sent n else get_all stored n)
  unfolding overwrite among
  get_all-overwrite kept sent stored [] n = refl
  get_all-overwrite kept sent stored (m ∷ names) n = ground (
    arith,
    get_all-overwrite kept sent stored names n,
    get_all-overwrite kept sent (append_all H (remove stored m) m (get_all sent m)) names n,
    get_all-append_all (remove stored m) m n (get_all sent m),
    get_all-remove stored m n,
    text_eq_iff m n,
  )

  among-keys : (h : HeaderMap) (n : Text) → among (keys H h) n ≡ not (is_empty (get_all h n))
  unfolding keys
  among-keys h n =
      among-distinct (map (λ line. line.0) (iter h)) n
      ∙ among-map (iter h) n
      ∙ rw (values_of-iter h n) refl

  -- The headers that a `304` never replaces, of those that it may name on purpose.
  abbrev pub IsFixed : CacheEntry H → Text → Type 0
  IsFixed e n =
      (n ≡ codes "set-cookie")
      ⊎ (n ≡ codes "content-length")
      ⊎ (n ≡ codes "connection")
      ⊎ (n ≡ codes "transfer-encoding")
      ⊎ ((n ≡ codes "content-encoding") × (e.decoded ≡ true))

  fixed-is_kept_by_304 :
      (e : CacheEntry H) (sent : HeaderMap) (n : Text)
      → IsFixed e n
      → is_kept_by_304 H e sent n ≡ true
  unfolding is_kept_by_304 among text_eq
  fixed-is_kept_by_304 e sent n (inl f) = rw f (ground arith)
  fixed-is_kept_by_304 e sent n (inr (inl f)) = rw f (ground arith)
  fixed-is_kept_by_304 e sent n (inr (inr (inl f))) = rw f (ground arith)
  fixed-is_kept_by_304 e sent n (inr (inr (inr (inl f)))) = rw f (ground arith)
  fixed-is_kept_by_304 e sent n (inr (inr (inr (inr (f, d))))) = rw (f, d) (ground arith)

  -- A `304` replaces each stored header that it carries itself, except those of the connection, the
  -- body's length, cookies and a decoded body's encoding; it leaves the others, the status and the
  -- body, and restarts the clock.
  pub updated_by_304_lem :
      (e : CacheEntry H) (sent request : HeaderMap) (asked_at got_at : ℕ) (n : Text)
      → let u = updated_by_304 H e sent asked_at got_at request in
        (get_all u.headers n ≡ (
          if not (is_empty (get_all sent n)) && not (is_kept_by_304 H e sent n)
          then get_all sent n
          else get_all e.headers n))
        × (IsFixed e n → get_all u.headers n ≡ get_all e.headers n)
        × (u.status ≡ e.status)
        × (u.body ≡ e.body)
        × (u.requested_at ≡ asked_at)
        × (u.received_at ≡ got_at)
  unfolding updated_by_304
  updated_by_304_lem e sent request asked_at got_at n = (
    get_all-overwrite (is_kept_by_304 H e sent) sent e.headers (keys H sent) n
        ∙ rw (among-keys sent n) refl,
    λ f.
        get_all-overwrite (is_kept_by_304 H e sent) sent e.headers (keys H sent) n
        ∙ ground (arith, fixed-is_kept_by_304 e sent n f),
    refl,
    refl,
    refl,
    refl,
  )

  -- The headers of a response that are not stored with it.
  abbrev pub is_dropped : HeaderMap → Bool → Text → Bool
  is_dropped response decoded n =
      among (connection_listed H response) n
      || among hop_by_hop n
      || text_eq (codes "proxy-authentication-info") n
      || text_eq (codes "set-cookie") n
      || (decoded && (text_eq (codes "content-encoding") n || text_eq (codes "content-length") n))

  abbrev extra_names : List Text
  extra_names = codes "proxy-authentication-info" ∷ codes "set-cookie" ∷ []

  get_all-stripped :
      (response : HeaderMap) (n : Text)
      → get_all
          (remove_all H response (connection_listed H response ++ (hop_by_hop ++ extra_names)))
          n
        ≡ (if is_dropped response false n then [] else get_all response n)
  unfolding among
  get_all-stripped response n = ground (
    arith,
    get_all-remove_all (connection_listed H response ++ (hop_by_hop ++ extra_names)) response n,
    among-append (connection_listed H response) (hop_by_hop ++ extra_names) n,
  )

  -- An entry has the headers of its response, except `Date`, which may be added, and those that
  -- describe the connection or the proxy, set cookies, or describe the encoding of a body that has
  -- been decoded, which are dropped.
  pub entry_from_response-headers :
      (C : Chrono) (status : ℕ) (response request : HeaderMap) (body : Text) (decoded : Bool)
      (asked_at got_at : ℕ) (n : Text)
      → text_eq (codes "date") n ≡ false
      → get_all
          (entry_from_response H C status response request body decoded asked_at got_at).headers
          n
        ≡ (if is_dropped response decoded n then [] else get_all response n)
  unfolding entry_from_response stored_headers
  entry_from_response-headers C status response request body decoded asked_at got_at n h =
      let stripped =
        remove_all H response (connection_listed H response ++ (hop_by_hop ++ extra_names)) in
      let date = format_http_date C got_at in
      let dated =
        if contains_key H stripped (codes "date")
        then stripped
        else insert stripped (codes "date") date in
      ground (
        arith,
        h,
        get_all-stripped response n,
        get_all-insert stripped (codes "date") date n,
        get_all-remove dated (codes "content-encoding") n,
        get_all-remove (remove dated (codes "content-encoding")) (codes "content-length") n,
      )
