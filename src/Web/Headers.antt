-- ===== src/Web/Headers.antt =====
-- `http::HeaderMap`, a multimap from header names (lower-case text) to values (bytes).
use gosub_sonar.Prelude.{
  ◌≡◌, Bool, not, List, [], ◌∷◌, ◌++◌, Option, none, some, Text, text_eq, if◌then◌else◌, is_empty,
}

-- The values that a list of header lines holds under a name, in order.
unfoldable pub values_of : Text → List (Text × Text) → List Text
values_of name [] = []
values_of name ((n, v) ∷ lines) =
    if text_eq n name then v ∷ values_of name lines else values_of name lines

pub record HeaderApi : Type 1 where
  pub HeaderMap : Type 0
  -- `HeaderMap::new`, `get_all`, iteration, `append`, `insert` and `remove`.
  pub empty : HeaderMap
  pub get_all : HeaderMap → Text → List Text
  pub iter : HeaderMap → List (Text × Text)
  pub append : HeaderMap → Text → Text → HeaderMap
  pub insert : HeaderMap → Text → Text → HeaderMap
  pub remove : HeaderMap → Text → HeaderMap
  -- `HeaderValue::to_str`: the value as text, if it is visible ASCII.
  pub to_str : Text → Option Text
  -- `HeaderName::try_from` succeeds: the text is a header name.
  pub is_header_name : Text → Bool
  pub get_all-empty : (n : Text) → get_all empty n ≡ []
  pub get_all-append :
      (h : HeaderMap) (k v n : Text)
      → get_all (append h k v) n ≡ (if text_eq k n then get_all h n ++ v ∷ [] else get_all h n)
  pub get_all-insert :
      (h : HeaderMap) (k v n : Text)
      → get_all (insert h k v) n ≡ (if text_eq k n then v ∷ [] else get_all h n)
  pub get_all-remove :
      (h : HeaderMap) (k n : Text)
      → get_all (remove h k) n ≡ (if text_eq k n then [] else get_all h n)
  pub values_of-iter : (h : HeaderMap) (n : Text) → values_of n (iter h) ≡ get_all h n
  pub to_str-same : (v s : Text) → to_str v ≡ some s → s ≡ v

abbrev pub head_of {ℓ} : {A : Type ℓ} → List A → Option A
head_of [] = none
head_of (x ∷ xs) = some x

module _ (H : HeaderApi) where
  open H use {HeaderMap, get_all, to_str}

  -- `HeaderMap::get` and `contains_key`.
  abbrev pub get : HeaderMap → Text → Option Text
  get h name = head_of (get_all h name)

  abbrev pub contains_key : HeaderMap → Text → Bool
  contains_key h name = not (is_empty (get_all h name))

  -- `.filter_map(|v| v.to_str().ok())`.
  abbrev pub readable : List Text → List Text
  readable [] = []
  readable (v ∷ vs) = elim (to_str v) [ none ↦ readable vs | some s ↦ s ∷ readable vs ]
