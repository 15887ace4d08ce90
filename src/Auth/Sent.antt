-- ===== src/Auth/Sent.antt =====
-- What `upfront_for` of src/net/auth.rs finds, in every reachable state of the store.
use gosub_sonar.Prelude.{
  ℕ, ◌≡◌, refl, sym, ap, ◌∙◌, ◌⊎◌, inl, inr, true, ◌&&◌, List, [], ◌∷◌, some, Text, length, arith,
  Bool-cases, Option-cases, lookup, contains, IsMap, subst, ltb,
}
use mathlib.Core.Option
use gosub_sonar.Auth.{server}
use gosub_sonar.Auth
use gosub_sonar.Auth.Encoding.{Credentials}
use gosub_sonar.Web.Urls.{UrlApi}
use gosub_sonar.Auth.Store.{
  ProtectionSpace, StoredCredentials, space_key, space_eq_iff, starts_with, depth_of, deepest,
  is_basic_server, is_basic, option_eq, option_eq_iff, target_eq_iff, scheme_eq_iff, upfront_for,
  credentials_for,
}
use gosub_sonar.Auth.Earned.{IsDirectory, IsIn, All-IsIn, Entry, WasAccepted, IsEarned}
use gosub_sonar.Auth.Upfront.{World, Reach, empty, IsSound, Reach-IsSound}

depth_of-covers :
    (path : Text) (ds : List Text) (n : ℕ)
    → depth_of path ds ≡ some n
    → (d : Text) × IsIn d ds × (starts_with d path ≡ true) × (length d ≡ n)
unfolding depth_of
depth_of-covers path [] n e = absurd (cc e)
depth_of-covers path (d ∷ ds) n e = elim (Option-cases (depth_of path ds)) [
  | inl f ↦ (d, inl refl, ground arith, ground arith)
  | inr (k, f) ↦
      let (b, i, covers, l) = depth_of-covers path ds k f in
      elim (Bool-cases (starts_with d path)) [
        | inr it_does_not ↦ (b, inr i, covers, ground arith)
        | inl it_does ↦ elim (Bool-cases (ltb k (length d))) [
          | inl longer ↦ (d, inl refl, it_does, ground arith)
          | inr shorter ↦ (b, inr i, covers, ground arith)
        ]
      ]
]

-- The entry that the search settled on.
record IsFound (origin path : Text) (m : List Entry) (best : ℕ × ProtectionSpace × Credentials)
    : Type 0 where
  stored : StoredCredentials
  is_in : IsIn (best.1, stored) m
  same : best.2 ≡ stored.credentials
  may_send : is_basic_server best.1 ≡ true
  at_origin : option_eq best.1.origin (some origin) ≡ true
  with_basic : is_basic stored.credentials ≡ true
  depth : depth_of path stored.directories ≡ some best.0

-- The first entry is passed over, or is the one found.
deepest-cases :
    (origin path : Text) (space : ProtectionSpace) (stored : StoredCredentials) (m : List Entry)
    → (deepest origin path ((space, stored) ∷ m) ≡ deepest origin path m)
      ⊎ ((depth : ℕ) × (is_basic_server space ≡ true)
          × (option_eq space.origin (some origin) ≡ true)
          × (is_basic stored.credentials ≡ true)
          × (depth_of path stored.directories ≡ some depth)
          × (deepest origin path ((space, stored) ∷ m) ≡ some (depth, space, stored.credentials)))
unfolding deepest
deepest-cases origin path space stored m =
    let fits =
      is_basic_server space
      && option_eq space.origin (some origin)
      && is_basic stored.credentials in
    elim (Bool-cases fits) [
      | inr unfit ↦ inl (rw (unfit, deepest) refl)
      | inl fit ↦ elim (Option-cases (depth_of path stored.directories)) [
        | inl d ↦ inl (rw (fit, deepest) (rw (d, deepest) refl))
        | inr (depth, d) ↦ elim (Option-cases (deepest origin path m)) [
          | inl r ↦ inr (
            depth,
            ground arith,
            ground arith,
            ground arith,
            d,
            rw (fit, deepest) (rw (d, deepest) (rw (r, deepest) refl)),
          )
          | inr (best, r) ↦ elim (Bool-cases (ltb best.0 depth)) [
            | inl deeper ↦ inr (
              depth,
              ground arith,
              ground arith,
              ground arith,
              d,
              rw (fit, deepest) (rw (d, deepest) (rw (r, deepest) (rw (deeper, deepest) refl))),
            )
            | inr other ↦ inl (
                rw (fit, deepest)
                  (rw (d, deepest) (rw (r, deepest) (rw (other, deepest) (ground (arith, r))))))
          ]
        ]
      ]
    ]

deepest-IsFound :
    (origin path : Text) (m : List Entry) (best : ℕ × ProtectionSpace × Credentials)
    → deepest origin path m ≡ some best
    → IsFound origin path m best
unfolding deepest
deepest-IsFound origin path [] best e = absurd (cc e)
deepest-IsFound origin path ((space, stored) ∷ m) best e =
    elim (deepest-cases origin path space stored m) [
      | inl same ↦
          let f = deepest-IsFound origin path m best (sym same ∙ e) in
          record {
            stored = f.stored;
            is_in = inr f.is_in;
            same = f.same;
            may_send = f.may_send;
            at_origin = f.at_origin;
            with_basic = f.with_basic;
            depth = f.depth;
          }
      | inr (depth, a, b, c, d, found) ↦
          subst (IsFound origin path ((space, stored) ∷ m)) (ground (arith, found, e))
            (first depth a b c d)
    ]
  where
    first :
        (depth : ℕ)
        → is_basic_server space ≡ true
        → option_eq space.origin (some origin) ≡ true
        → is_basic stored.credentials ≡ true
        → depth_of path stored.directories ≡ some depth
        → IsFound origin path ((space, stored) ∷ m) (depth, space, stored.credentials)
    first depth a b c d = record {
      stored = stored;
      is_in = inl refl;
      same = refl;
      may_send = a;
      at_origin = b;
      with_basic = c;
      depth = d;
    }

contains-IsIn : (e : Entry) (m : List Entry) → IsIn e m → contains e.0 m ≡ true
unfolding contains
contains-IsIn e [] i = absurd i
contains-IsIn e ((k, v) ∷ m) (inl p) = ground (arith, space_eq_iff k e.0, ap (λ x. x.0) p)
contains-IsIn e ((k, v) ∷ m) (inr i) = ground (arith, contains-IsIn e m i)

lookup-IsIn :
    (space : ProtectionSpace) (stored : StoredCredentials) (m : List Entry)
    → IsMap m
    → IsIn (space, stored) m
    → lookup space m ≡ some stored
unfolding lookup
lookup-IsIn space stored [] h i = absurd i
lookup-IsIn space stored ((k, v) ∷ m) h (inl p) =
    ground (arith, space_eq_iff k space, ap (λ x. x.0) p, ap (λ x. x.1) p)
lookup-IsIn space stored ((k, v) ∷ m) h (inr i) = elim (Bool-cases (space_key.is_same k space)) [
  | inr other ↦ ground (arith, lookup-IsIn space stored m h.1 i)
  | inl same ↦ absurd (cc (h.0, contains-IsIn (space, stored) m i, (space_eq_iff k space).0 same))
]

module _ (U : UrlApi) where
  -- A `Basic` pair that is stored for a server's space of the URL's own origin, and that a server
  -- took for that space in a directory that the URL's path begins with.
  pub record IsDue (w : World U) (url : U.Url) (space : ProtectionSpace) (credentials : Credentials)
      : Type 0 where
    pub to_server : space.target ≡ server
    pub as_basic : space.scheme ≡ Auth.basic
    pub own_origin : space.origin ≡ some (U.ascii_serialization (U.origin url))
    pub is_pair : is_basic credentials ≡ true
    pub is_stored : credentials_for space w.credentials ≡ some credentials
    pub path : Text
    pub directory : Text
    pub was_accepted : IsIn (record { space = space; credentials = credentials; path = path }) w.log
    pub of_path : IsDirectory path directory
    pub covers : starts_with directory (U.path url) ≡ true

  found-IsDue :
      (w : World U) (url : U.Url) (best : ℕ × ProtectionSpace × Credentials)
      → IsSound U w
      → IsFound (U.ascii_serialization (U.origin url)) (U.path url) w.credentials.entries best
      → IsDue w url best.1 best.2
  unfolding credentials_for
  found-IsDue w url best h f =
      let (d, i, covers, l) = depth_of-covers (U.path url) f.stored.directories best.0 f.depth in
      let earned =
        All-IsIn (IsEarned w.log) (best.1, f.stored) w.credentials.entries h.earned f.is_in in
      let accepted =
        All-IsIn (WasAccepted w.log (best.1, f.stored)) d f.stored.directories earned i in
      record {
        to_server = (target_eq_iff best.1.target server).0 (ground (arith, f.may_send));
        as_basic = (scheme_eq_iff best.1.scheme Auth.basic).0 (ground (arith, f.may_send));
        own_origin = (option_eq_iff best.1.origin _).0 f.at_origin;
        is_pair = ap is_basic f.same ∙ f.with_basic;
        is_stored =
            ap (Option.map (λ (s : StoredCredentials). s.credentials))
              (lookup-IsIn best.1 f.stored w.credentials.entries h.is_map f.is_in)
            ∙ ap some (sym f.same);
        path = accepted.0;
        directory = d;
        was_accepted =
            subst (λ c. IsIn (record { space = best.1; credentials = c; path = accepted.0 }) w.log)
              (sym f.same) accepted.1;
        of_path = accepted.2;
        covers = covers;
      }

  -- Whatever was stored, forgotten and accepted before: credentials that are sent to a URL without
  -- a challenge are a `Basic` pair that is stored for a server's space of the URL's own origin, and a
  -- server took this very pair for that space at a path whose directory, up to its last `/`, the
  -- URL's path begins with.
  pub Reach-upfront_for :
      {w : World U} (url : U.Url) (space : ProtectionSpace) (credentials : Credentials)
      → Reach U (empty U) w
      → upfront_for U url w.credentials ≡ some (space, credentials)
      → IsDue w url space credentials
  unfolding upfront_for
  Reach-upfront_for {w} url space credentials r e =
      let origin = U.ascii_serialization (U.origin url) in
      elim (Option-cases (deepest origin (U.path url) w.credentials.entries)) [
        | inl n ↦ absurd (ground (arith, e, n))
        | inr (best, n) ↦
            let found = deepest-IsFound origin (U.path url) w.credentials.entries best n in
            subst (λ (p : ProtectionSpace × Credentials). IsDue w url p.0 p.1)
              (ground (arith, e, n)) (found-IsDue w url best (Reach-IsSound U r) found)
      ]
