-- ===== src/Auth/Earned.antt =====
-- What it means that the directories of a stored entry of src/net/auth.rs were accepted, and that
-- the operations on lists and maps keep it.
use gosub_sonar.Prelude.{
  refl, none, codes, ◌==◌, ◌++◌, false, ap, ◌∙◌, Option-cases, ◌≡◌, sym, ◌⊎◌, inl, inr, true, not,
  List, [], ◌∷◌, some, Text, leb, length, arith, All, All-append, All-retain, Bool-cases, lookup,
  remove, text_eq_iff, any, retain, subst,
}
use gosub_sonar.Auth.Encoding.{Credentials, basic, raw}
use gosub_sonar.Web.Urls.{UrlApi}
use gosub_sonar.Auth.Store.{
  up_to_last_slash, directory_of, ProtectionSpace, StoredCredentials, space_key, space_eq_iff,
  credentials_eq, add_directory, without_first, starts_with, max_upfront_directories,
}

abbrev pub IsIn : {A : Type 0} → A → List A → Type 0
IsIn x [] = ⊥
IsIn x (y ∷ l) = (x ≡ y) ⊎ IsIn x l

pub All-IsIn {κ} : {A : Type 0} (P : A → Type κ) (x : A) (l : List A) → All P l → IsIn x l → P x
All-IsIn P x [] h i = absurd i
All-IsIn P x (y ∷ l) h (inl e) = subst P (sym e) h.0
All-IsIn P x (y ∷ l) h (inr i) = All-IsIn P x l h.1 i

abbrev pub Entry : Type 0
Entry = ProtectionSpace × StoredCredentials

-- The directory of a path: what it begins with up to its last `/`, or `/` if it has none.
abbrev pub IsDirectory : (path directory : Text) → Type 0
IsDirectory path directory =
    ((parent : Text) × (name : Text) × (directory ≡ parent ++ b'/' ∷ [])
      × (path ≡ directory ++ name)
      × (any (λ c. c == b'/') name ≡ false))
    ⊎ ((any (λ c. c == b'/') path ≡ false) × (directory ≡ codes "/"))

-- That a server took the credentials at a path.
pub record Acceptance : Type 0 where
  pub space : ProtectionSpace
  pub credentials : Credentials
  pub path : Text

abbrev pub WasAccepted : List Acceptance → Entry → Text → Type 0
WasAccepted log e d =
    (path : Text) × IsIn (record { space = e.0; credentials = e.1.credentials; path = path }) log
    × IsDirectory path d

no_slash : (s : Text) → up_to_last_slash s ≡ none → any (λ c. c == b'/') s ≡ false
unfolding up_to_last_slash
no_slash [] e = refl
no_slash (c ∷ s) e = elim (Option-cases (up_to_last_slash s)) [
  | inl n ↦ ground (arith, e, n, no_slash s n)
  | inr (t, n) ↦ absurd (ground (arith, e, n))
]

up_to_last_slash-cuts :
    (s d : Text)
    → up_to_last_slash s ≡ some d
    → (parent : Text) × (name : Text) × (d ≡ parent ++ b'/' ∷ [])
      × (s ≡ d ++ name)
      × (any (λ c. c == b'/') name ≡ false)
unfolding up_to_last_slash
up_to_last_slash-cuts [] d e = absurd (cc e)
up_to_last_slash-cuts (c ∷ s) d e = elim (Option-cases (up_to_last_slash s)) [
  | inr (t, n) ↦
      let (parent, name, f, g, h) = up_to_last_slash-cuts s t n in
      let same : c ∷ t ≡ d = ground (arith, e, n) in
      (
        c ∷ parent,
        name,
        sym same ∙ ap (λ x. c ∷ x) f,
        ap (λ x. c ∷ x) g ∙ ap (λ x. x ++ name) same,
        h,
      )
  | inl n ↦ elim (Bool-cases (c == b'/')) [
    | inr other ↦ absurd (ground (arith, e, n, other))
    | inl slash ↦
        let same : c ∷ [] ≡ d = ground (arith, e, n, slash) in
        (
          [],
          s,
          sym same ∙ ap (λ x. x ∷ []) (ground (arith, slash)),
          ap (λ x. x ++ s) same,
          no_slash s n,
        )
  ]
]

pub directory_of-IsDirectory :
    (U : UrlApi) (url : U.Url) → IsDirectory (U.path url) (directory_of U url)
unfolding directory_of
directory_of-IsDirectory U url = elim (Option-cases (up_to_last_slash (U.path url))) [
  | inl n ↦ inr (no_slash (U.path url) n, rw (n, directory_of) refl)
  | inr (d, n) ↦ inl (rw (n, directory_of) (up_to_last_slash-cuts (U.path url) d n))
]

-- Every directory of the entry was accepted for its space and its very credentials.
abbrev pub IsEarned : List Acceptance → Entry → Type 0
IsEarned log e = All (WasAccepted log e) e.1.directories

pub All-remove {κ} :
    (P : Entry → Type κ) (space : ProtectionSpace) (m : List Entry)
    → All P m
    → All P (remove space m)
unfolding remove
All-remove P space [] h = tt
All-remove P space ((k, v) ∷ m) h = ground (arith, All-remove P space m h.1)

pub All-lookup {κ} :
    (P : Entry → Type κ) (space : ProtectionSpace) (stored : StoredCredentials) (m : List Entry)
    → All P m
    → lookup space m ≡ some stored
    → P (space, stored)
unfolding lookup
All-lookup P space stored [] h e = absurd (cc e)
All-lookup P space stored ((k, v) ∷ m) h e = elim (Bool-cases (space_key.is_same k space)) [
  | inl same ↦ subst P (ground (arith, (space_eq_iff k space).0 same)) h.0
  | inr other ↦ All-lookup P space stored m h.1 (ground arith)
]

pub All-mono {ℓ κ} :
    {A : Type ℓ} (P Q : A → Type κ) → ((x : A) → P x → Q x) → (l : List A) → All P l → All Q l
All-mono P Q f [] h = tt
All-mono P Q f (x ∷ l) h = (f x h.0, All-mono P Q f l h.1)

pub All-without_first {κ} :
    (P : Text → Type κ) (ds : List Text) → All P ds → All P (without_first ds)
All-without_first P [] h = tt
All-without_first P (d ∷ ds) h = h.1

pub credentials_eq_sound : (a b : Credentials) → credentials_eq a b ≡ true → a ≡ b
unfolding credentials_eq
credentials_eq_sound (basic u p) (basic v q) h = ground (arith, text_eq_iff u v, text_eq_iff p q)
credentials_eq_sound (raw s) (raw t) h = ground (arith, text_eq_iff s t)
credentials_eq_sound (basic u p) (raw t) h = absurd (cc h)
credentials_eq_sound (raw s) (basic v q) h = absurd (cc h)

pub add_directory-All {κ} :
    (P : Text → Type κ) (d : Text) (known : List Text)
    → P d
    → All P known
    → All P (add_directory d known)
unfolding add_directory
add_directory-All P d known p h =
    let rest = retain (λ k. not (starts_with d k)) known in
    let kept = All-retain P (λ k. not (starts_with d k)) known h in
    elim (Bool-cases (any (λ k. starts_with k d) known)) [
      | inl covered ↦ rw (covered, add_directory) h
      | inr new_one ↦ elim (Bool-cases (leb max_upfront_directories (length rest))) [
        | inl full ↦
            rw (new_one, add_directory)
              (rw (full, add_directory)
                (All-append P (without_first rest) (d ∷ []) (All-without_first P rest kept)
                  (p, tt)))
        | inr room ↦
            rw (new_one, add_directory)
              (rw (room, add_directory) (All-append P rest (d ∷ []) kept (p, tt)))
      ]
    ]
