-- ===== src/Cors/Readable.antt =====
-- Which response headers a script may read, `readable_headers` of src/net/cors.rs.
use gosub_sonar.Prelude.{
  ◌≡◌, refl, ◌∙◌, Bool, true, false, not, ◌&&◌, List, [], ◌∷◌, ◌++◌, Text, text_eq, text_eq_iff,
  if◌then◌else◌, arith, Bool-cases, inl, inr, codes,
}
use gosub_sonar.Web.Headers.{HeaderApi, values_of}
use gosub_sonar.Cors.Kinds.{ResponseTainting, basic, cors, opaque, one_of}
use gosub_sonar.Cors.Headers.{
  readable_headers, keep_lines, is_exposed, is_cookie_header, exposed_headers,
  safelisted_response_headers,
}

append-cons : (xs ys : List Text) (v : Text) → (xs ++ (v ∷ [])) ++ ys ≡ xs ++ (v ∷ ys)
append-cons [] ys v = refl
append-cons (x ∷ xs) ys v = cc (append-cons xs ys v)

append-nil : (xs : List Text) → xs ++ [] ≡ xs
append-nil [] = refl
append-nil (x ∷ xs) = cc (append-nil xs)

module _ (H : HeaderApi) where
  open H use {
    HeaderMap, get_all, iter, empty, append, get_all-empty, get_all-append, values_of-iter,
  }

  get_all-keep_lines :
      (keep : Text → Bool) (n : Text) (out : HeaderMap) (lines : List (Text × Text))
      → get_all (keep_lines H keep out lines) n
        ≡ get_all out n ++ (if keep n then values_of n lines else [])
  unfolding keep_lines values_of
  get_all-keep_lines keep n out [] = ground (arith, append-nil (get_all out n))
  get_all-keep_lines keep n out ((name, value) ∷ lines) = ground (
    arith,
    get_all-keep_lines keep n out lines,
    get_all-keep_lines keep n (append out name value) lines,
    get_all-append out name value n,
    append-cons (get_all out n) (values_of n lines) value,
    text_eq_iff name n,
  )

  get_all-kept :
      (keep : Text → Bool) (n : Text) (headers : HeaderMap)
      → get_all (keep_lines H keep empty (iter headers)) n
        ≡ (if keep n then get_all headers n else [])
  get_all-kept keep n headers = ground (
    arith,
    get_all-keep_lines keep n empty (iter headers),
    get_all-empty n,
    values_of-iter headers n,
  )

  -- Whether a script may read a header, by the response's tainting.
  abbrev pub may_read : ResponseTainting → HeaderMap → Bool → Text → Bool
  may_read basic headers credentials_include n = not (is_cookie_header H n)
  may_read opaque headers credentials_include n = false
  may_read cors headers credentials_include n =
      if (exposed_headers H headers).1 && not credentials_include
      then not (is_cookie_header H n)
      else is_exposed H (exposed_headers H headers).0 n

  pub readable_headers_lem :
      (tainting : ResponseTainting) (headers : HeaderMap) (c : Bool) (n : Text)
      → get_all (readable_headers H tainting headers c) n
        ≡ (if may_read tainting headers c n then get_all headers n else [])
  unfolding readable_headers
  readable_headers_lem basic headers c n = get_all-kept _ n headers
  readable_headers_lem opaque headers c n = get_all-empty n
  readable_headers_lem cors headers c n = ground (
    arith,
    get_all-kept (λ m. not (is_cookie_header H m)) n headers,
    get_all-kept (is_exposed H (exposed_headers H headers).0) n headers,
  )

  cookie-not_safelisted :
      (n : Text) → is_cookie_header H n ≡ true → one_of (safelisted_response_headers H) n ≡ false
  unfolding is_cookie_header one_of text_eq
  cookie-not_safelisted n h = elim (Bool-cases (text_eq n (codes "set-cookie"))) [
    | inl e ↦ rw ((text_eq_iff n (codes "set-cookie")).0 e) refl
    | inr e ↦ elim (Bool-cases (text_eq n (codes "set-cookie2"))) [
      | inl f ↦ rw ((text_eq_iff n (codes "set-cookie2")).0 f) refl
      | inr f ↦ absurd (cc)
    ]
  ]

  may_read-cookies :
      (tainting : ResponseTainting) (headers : HeaderMap) (c : Bool) (n : Text)
      → is_cookie_header H n ≡ true
      → may_read tainting headers c n ≡ false
  unfolding is_exposed
  may_read-cookies basic headers c n h = rw h refl
  may_read-cookies opaque headers c n h = refl
  may_read-cookies cors headers c n h = ground (arith, cookie-not_safelisted n h)

  -- No cookie that a response sets is readable, whatever its tainting and the headers it exposes.
  pub readable_headers-cookies :
      (tainting : ResponseTainting) (headers : HeaderMap) (c : Bool) (n : Text)
      → is_cookie_header H n ≡ true
      → get_all (readable_headers H tainting headers c) n ≡ []
  readable_headers-cookies tainting headers c n h =
      readable_headers_lem tainting headers c n ∙ rw (may_read-cookies tainting headers c n h) refl
