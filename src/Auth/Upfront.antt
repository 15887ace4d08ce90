-- ===== src/Auth/Upfront.antt =====
-- Credentials that the in-memory store of src/net/auth.rs sends before a challenge: only those that
-- were accepted, on the same origin, in a directory that covers the path.
use gosub_sonar.Prelude.{
  ℕ, ◌≡◌, refl, sym, ◌∙◌, ◌⊎◌, inl, inr, not, ◌&&◌, List, [], ◌∷◌, none, some, if◌then◌else◌, leb,
  length, arith, All, Bool-cases, Option-cases, lookup, remove, insert, contains, IsMap,
  insert-IsMap, remove-IsMap, subst,
}
use gosub_sonar.Auth.Encoding.{Credentials}
use gosub_sonar.Web.Urls.{UrlApi}
use gosub_sonar.Auth.Store.{
  ProtectionSpace, StoredCredentials, CredentialStore, space_key, credentials_eq, make_room, oldest,
  kept_directories, store, forget, clear, new, add_directory, is_basic_server, directory_of,
  accepted_at, max_credential_entries,
}
use gosub_sonar.Auth.Earned.{
  directory_of-IsDirectory, Entry, Acceptance, WasAccepted, IsEarned, All-remove, All-lookup,
  All-mono, credentials_eq_sound, add_directory-All,
}

module _ (U : UrlApi) where
  pub record World : Type 0 where
    pub credentials : CredentialStore
    pub log : List Acceptance

  abbrev pub accept : ProtectionSpace → U.Url → World → World
  accept space url w = record {
    credentials = accepted_at U space url w.credentials;
    log = elim (lookup space w.credentials.entries) [
      | none ↦ w.log
      | some stored ↦
          record { space = space; credentials = stored.credentials; path = U.path url } ∷ w.log
    ];
  }

  pub data Step (w : World) : World → Type 0 where
    stores :
        (space : ProtectionSpace) (credentials : Credentials)
        → Step w (record w { credentials = store space credentials w.credentials })
    forgets :
        (space : ProtectionSpace) → Step w (record w { credentials = forget space w.credentials })
    clears : Step w (record w { credentials = clear w.credentials })
    accepts : (space : ProtectionSpace) (url : U.Url) → Step w (accept space url w)

  pub data Reach (start : World) : World → Type 0 where
    here : Reach start start
    next : {v w : World} → Reach start v → Step v w → Reach start w

  abbrev pub empty : World
  empty = record { credentials = new; log = [] }

  pub record IsSound (w : World) : Type 0 where
    pub earned : All (IsEarned w.log) w.credentials.entries
    pub is_map : IsMap w.credentials.entries

  make_room-cases :
      (space : ProtectionSpace) (m : List Entry)
      → (make_room space m ≡ m) ⊎ ((k : ProtectionSpace) × (make_room space m ≡ remove k m))
  unfolding make_room
  make_room-cases space m =
      let is_full = leb max_credential_entries (length m) && not (contains space m) in
      elim (Bool-cases is_full) [
        | inr room ↦ inl (rw (room, make_room) refl)
        | inl full ↦ elim (Option-cases (oldest m)) [
          | inl e ↦ inl (rw (full, make_room) (rw (e, make_room) refl))
          | inr (best, e) ↦ inr (best.0, rw (full, make_room) (rw (e, make_room) refl))
        ]
      ]

  make_room-earned :
      (P : Entry → Type 0) (space : ProtectionSpace) (m : List Entry)
      → All P m
      → IsMap m
      → All P (make_room space m) × IsMap (make_room space m)
  make_room-earned P space m h i = elim (make_room-cases space m) [
    | inl e ↦ rw e (h, i)
    | inr (k, e) ↦ rw e (All-remove P k m h, remove-IsMap k m i)
  ]

  kept_directories-IsEarned :
      (log : List Acceptance) (space : ProtectionSpace) (credentials : Credentials) (n : ℕ)
      (m : List Entry)
      → All (IsEarned log) m
      → IsEarned log (
        space,
        record {
          credentials = credentials;
          stamp = n;
          directories = kept_directories (lookup space m) credentials;
        },
      )
  unfolding kept_directories
  kept_directories-IsEarned log space credentials n m h = elim (Option-cases (lookup space m)) [
    | inl e ↦ rw (e, kept_directories) tt
    | inr (old, e) ↦ elim (Bool-cases (credentials_eq old.credentials credentials)) [
      | inr other ↦ rw (e, kept_directories) (rw (other, kept_directories) tt)
      | inl same ↦
          rw (e, kept_directories)
            (rw (same, kept_directories)
              (subst
                (λ c.
                  All
                    (WasAccepted log
                      (space, record { credentials = c; stamp = n; directories = old.directories }))
                    old.directories)
                (credentials_eq_sound old.credentials credentials same)
                (All-lookup (IsEarned log) space old m h e)))
    ]
  ]

  module _ (w : World) (h : IsSound w) where
    store-IsSound :
        (space : ProtectionSpace) (credentials : Credentials)
        → IsSound (record w { credentials = store space credentials w.credentials })
    unfolding store insert
    store-IsSound space credentials =
        let (earned, is_map) =
          make_room-earned (IsEarned w.log) space w.credentials.entries h.earned h.is_map in
        record {
          earned = (
            kept_directories-IsEarned w.log space credentials w.credentials.clock _ earned,
            All-remove (IsEarned w.log) space _ earned,
          );
          is_map =
              insert-IsMap space
                (record {
                  credentials = credentials;
                  stamp = w.credentials.clock;
                  directories =
                      kept_directories (lookup space (make_room space w.credentials.entries))
                        credentials;
                })
                _ is_map;
        }

    forget-IsSound :
        (space : ProtectionSpace) → IsSound (record w { credentials = forget space w.credentials })
    unfolding forget
    forget-IsSound space = record {
      earned = All-remove (IsEarned w.log) space w.credentials.entries h.earned;
      is_map = remove-IsMap space w.credentials.entries h.is_map;
    }

    accept_unknown :
        (space : ProtectionSpace) (url : U.Url)
        → lookup space w.credentials.entries ≡ none
        → accept space url w ≡ w
    unfolding accepted_at
    accept_unknown space url e = ground arith

    module _ (space : ProtectionSpace) (url : U.Url) (stored : StoredCredentials) where
      abbrev taken : List Acceptance
      taken = record { space = space; credentials = stored.credentials; path = U.path url } ∷ w.log

      abbrev with_directory : StoredCredentials
      with_directory = record stored {
        directories = add_directory (directory_of U url) stored.directories;
      }

      abbrev grown : CredentialStore
      grown = record w.credentials { entries = insert space with_directory w.credentials.entries }

      accept_known :
          lookup space w.credentials.entries ≡ some stored
          → accept space url w ≡ record {
            credentials = if is_basic_server space then grown else w.credentials;
            log = taken;
          }
      unfolding accepted_at
      accept_known e = ground arith

      IsEarned-still : All (IsEarned taken) w.credentials.entries
      IsEarned-still =
          All-mono (IsEarned w.log) (IsEarned taken)
            (λ x y.
              All-mono (WasAccepted w.log x) (WasAccepted taken x) (λ d a. (a.0, inr a.1, a.2))
                x.1.directories y)
            w.credentials.entries h.earned

      unchanged-IsSound : IsSound (record { credentials = w.credentials; log = taken })
      unchanged-IsSound = record { earned = IsEarned-still; is_map = h.is_map }

      grown-IsSound :
          lookup space w.credentials.entries ≡ some stored
          → IsSound (record { credentials = grown; log = taken })
      unfolding insert
      grown-IsSound e = record {
        earned = (
          add_directory-All (WasAccepted taken (space, stored)) (directory_of U url)
              stored.directories (U.path url, inl refl, directory_of-IsDirectory U url)
              (All-lookup (IsEarned taken) space stored w.credentials.entries IsEarned-still e),
          All-remove (IsEarned taken) space w.credentials.entries IsEarned-still,
        );
        is_map = insert-IsMap space with_directory w.credentials.entries h.is_map;
      }

    accept-IsSound : (space : ProtectionSpace) (url : U.Url) → IsSound (accept space url w)
    accept-IsSound space url = elim (Option-cases (lookup space w.credentials.entries)) [
      | inl e ↦ subst IsSound (sym (accept_unknown space url e)) h
      | inr (stored, e) ↦ elim (Bool-cases (is_basic_server space)) [
        | inl b ↦
            subst IsSound (sym (accept_known space url stored e ∙ rw b refl))
              (grown-IsSound space url stored e)
        | inr b ↦
            subst IsSound (sym (accept_known space url stored e ∙ rw b refl))
              (unchanged-IsSound space url stored)
      ]
    ]

  Step-IsSound : {v w : World} → Step v w → IsSound v → IsSound w
  unfolding clear
  Step-IsSound {v} (stores space credentials) h = store-IsSound v h space credentials
  Step-IsSound {v} (forgets space) h = forget-IsSound v h space
  Step-IsSound {v} clears h = record { earned = tt; is_map = tt }
  Step-IsSound {v} (accepts space url) h = accept-IsSound v h space url

  pub Reach-IsSound : {w : World} → Reach empty w → IsSound w
  Reach-IsSound here = record { earned = tt; is_map = tt }
  Reach-IsSound (next r s) = Step-IsSound s (Reach-IsSound r)
