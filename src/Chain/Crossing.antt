-- ===== src/Chain/Crossing.antt =====
-- What a redirect of src/net/fetch/chain.rs takes along, and what it leaves behind.
use gosub_sonar.Prelude.{
  ℕ, ◌+◌, ◌≡◌, refl, sym, ap, ◌∙◌, ◌⊎◌, inl, inr, Bool, true, false, not, ◌||◌, List, [], ◌∷◌, ◌++◌,
  none, Text, codes, arith, All, Bool-cases, Option-cases, subst, is_empty, text_eq, text_eq_iff,
}
use gosub_sonar.Web.Headers.{HeaderApi, get}
use gosub_sonar.Web.Urls.{UrlApi, Origin}
use gosub_sonar.Chain.Methods.{IsDowngrade, downgrades-IsDowngrade, downgrades_sound}
use gosub_sonar.Chain.{
  cookies_of, RedirectApi, HopChain, HopResponse, Init, follow_redirect, from_of, move_to,
  before_moving, without_jar_cookie, refuses, has_credentials, strip_url_credentials, strip_headers,
  cross, downgrade, downgrades, remove_all, body_headers, is_reported, sensitive_redirect_headers,
  with_fragment, location_text,
}

join-cases : {A B : Type 0} (s : A ⊎ B) → ((a : A) × (s ≡ inl a)) ⊎ ((b : B) × (s ≡ inr b))
join-cases (inl a) = inl (a, refl)
join-cases (inr b) = inr (b, refl)

module _ (U : UrlApi) (H : HeaderApi) (R : RedirectApi U) where
  abbrev pub Lacks : H.HeaderMap → Text → Type 0
  Lacks h n = H.get_all h n ≡ []

  remove-Lacks : (h : H.HeaderMap) (k n : Text) → Lacks h n → Lacks (H.remove h k) n
  remove-Lacks h k n e = elim (Bool-cases (text_eq k n)) [
    | inl b ↦ H.get_all-remove h k n ∙ rw b refl
    | inr b ↦ H.get_all-remove h k n ∙ rw b e
  ]

  removed-Lacks : (h : H.HeaderMap) (n : Text) → Lacks (H.remove h n) n
  removed-Lacks h n = H.get_all-remove h n n ∙ rw ((text_eq_iff n n).1 refl) refl

  strip_headers-still :
      (reported : Text → Bool) (ns : List Text) (h : H.HeaderMap) (n : Text)
      → Lacks h n
      → Lacks (strip_headers U H R reported ns h).0 n
  unfolding strip_headers
  strip_headers-still reported [] h n e = e
  strip_headers-still reported (k ∷ ns) h n e =
      strip_headers-still reported ns (H.remove h k) n (remove-Lacks h k n e)

  strip_headers-Lacks :
      (reported : Text → Bool) (ns : List Text) (h : H.HeaderMap)
      → All (Lacks (strip_headers U H R reported ns h).0) ns
  unfolding strip_headers
  strip_headers-Lacks reported [] h = tt
  strip_headers-Lacks reported (k ∷ ns) h = (
    strip_headers-still reported ns (H.remove h k) k (removed-Lacks h k),
    strip_headers-Lacks reported ns (H.remove h k),
  )

  stripped_url-IsBare :
      (u : U.Url) → has_credentials U H R (strip_url_credentials U H R u).0 ≡ false
  unfolding has_credentials strip_url_credentials
  stripped_url-IsBare u = elim (Bool-cases (has_credentials U H R u)) [
    | inl b ↦
        rw (b, strip_url_credentials)
          (rw (R.username-clear_credentials u, has_credentials)
            (rw (R.password-clear_credentials u) refl))
    | inr b ↦ rw (b, strip_url_credentials) b
  ]

  cross-Lacks :
      (init : Init U H R) (c : HopChain U H R)
      → All (Lacks (cross U H R init true c).0.headers) sensitive_redirect_headers
  unfolding cross
  cross-Lacks init c =
      strip_headers-Lacks (is_reported U H R init c.cookie_from_jar) sensitive_redirect_headers
        c.headers

  cross-keeps :
      (init : Init U H R) (crosses : Bool) (c : HopChain U H R)
      → ((cross U H R init crosses c).0.url ≡ c.url)
        × ((cross U H R init crosses c).0.url_list ≡ c.url_list)
        × ((cross U H R init crosses c).0.redirects ≡ c.redirects)
        × ((cross U H R init crosses c).0.method ≡ c.method)
        × ((cross U H R init crosses c).0.body ≡ c.body)
  unfolding cross
  cross-keeps init true c = (refl, refl, refl, refl, refl)
  cross-keeps init false c = (refl, refl, refl, refl, refl)

  cross-still :
      (init : Init U H R) (crosses : Bool) (c : HopChain U H R) (n : Text)
      → Lacks c.headers n
      → Lacks (cross U H R init crosses c).0.headers n
  unfolding cross
  cross-still init true c n e =
      strip_headers-still (is_reported U H R init c.cookie_from_jar) sensitive_redirect_headers
        c.headers n e
  cross-still init false c n e = e

  downgrade-keeps :
      (status : ℕ) (c : HopChain U H R)
      → ((downgrade U H R status c).url ≡ c.url)
        × ((downgrade U H R status c).url_list ≡ c.url_list)
        × ((downgrade U H R status c).redirects ≡ c.redirects)
  unfolding downgrade
  downgrade-keeps status c = elim (Bool-cases (downgrades status c.method)) [
    | inl b ↦ rw (b, downgrade) (refl, refl, refl)
    | inr b ↦ rw (b, downgrade) (refl, refl, refl)
  ]

  before_moving-keeps :
      (hop : HopResponse U H R) (attach : Bool) (c : HopChain U H R)
      → ((before_moving U H R hop attach c).url ≡ c.url)
        × ((before_moving U H R hop attach c).url_list ≡ c.url_list)
        × ((before_moving U H R hop attach c).redirects ≡ c.redirects)
        × ((before_moving U H R hop attach c).method ≡ c.method)
        × ((before_moving U H R hop attach c).body ≡ c.body)
  unfolding before_moving without_jar_cookie
  before_moving-keeps hop attach c =
      elim (Bool-cases (c.cookie_from_jar || not (is_empty (cookies_of U H R hop attach c)))) [
        | inl b ↦ rw (b, before_moving) (refl, refl, refl, refl, refl)
        | inr b ↦ rw (b, before_moving) (refl, refl, refl, refl, refl)
      ]

  remove_all-still :
      (ns : List Text) (h : H.HeaderMap) (n : Text) → Lacks h n → Lacks (remove_all U H R ns h) n
  remove_all-still [] h n e = e
  remove_all-still (k ∷ ns) h n e = remove_all-still ns (H.remove h k) n (remove-Lacks h k n e)

  remove_all-Lacks : (ns : List Text) (h : H.HeaderMap) → All (Lacks (remove_all U H R ns h)) ns
  remove_all-Lacks [] h = tt
  remove_all-Lacks (k ∷ ns) h =
      (remove_all-still ns (H.remove h k) k (removed-Lacks h k), remove_all-Lacks ns (H.remove h k))

  All-map :
      (P Q : Text → Type 0) → ((n : Text) → P n → Q n) → (ns : List Text) → All P ns → All Q ns
  All-map P Q f [] h = tt
  All-map P Q f (n ∷ ns) h = (f n h.0, All-map P Q f ns h.1)

  -- The chain `c` is what `chain` should be after a redirect from a hop of origin `from`.
  abbrev pub IsLeft : HopChain U H R → Origin → HopChain U H R → Type 0
  IsLeft chain from c =
      (has_credentials U H R c.url ≡ false)
      × (U.origin_eq from (U.origin c.url) ≡ false
          → All (Lacks c.headers) (
              codes "authorization"
              ∷ codes "cookie"
              ∷ codes "referer"
              ∷ codes "origin"
              ∷ codes "proxy-authorization"
              ∷ []))
      × (c.redirects ≡ chain.redirects + 1)
      × (c.url_list ≡ chain.url_list ++ chain.url ∷ [])

  -- The chain `c` goes on from `chain` after a redirect of a status as the Fetch standard asks.
  abbrev pub HasMethodAfter : ℕ → HopChain U H R → HopChain U H R → Type 0
  HasMethodAfter status chain c =
      (IsDowngrade status chain.method
        → (c.method ≡ codes "GET")
          × (c.body ≡ none)
          × All (Lacks c.headers) (
              codes "content-encoding"
              ∷ codes "content-language"
              ∷ codes "content-location"
              ∷ codes "content-type"
              ∷ codes "content-length"
              ∷ codes "transfer-encoding"
              ∷ []))
      × ((IsDowngrade status chain.method → ⊥) → (c.method ≡ chain.method) × (c.body ≡ chain.body))

  downgrade-HasMethodAfter :
      (status : ℕ) (c : HopChain U H R) → HasMethodAfter status c (downgrade U H R status c)
  unfolding downgrade
  downgrade-HasMethodAfter status c = (
    λ is_get.
        rw (downgrades-IsDowngrade status c.method is_get, downgrade)
          (refl, refl, remove_all-Lacks body_headers c.headers),
    λ same. elim (Bool-cases (downgrades status c.method)) [
      | inl b ↦ absurd (same (downgrades_sound status c.method b))
      | inr b ↦ rw (b, downgrade) (refl, refl)
    ],
  )

  module _ (init : Init U H R) (hop : HopResponse U H R) (attach : Bool) (chain c : HopChain U H R)
      (followed : (follow_redirect U H R init hop attach chain).outcome ≡ inr c) where
    moved :
        (target : U.Url) × (c
          ≡ (move_to U H R init hop.status
              (from_of U H R hop chain)
              target
              (before_moving U H R hop attach chain)).1)
    unfolding follow_redirect
    moved = elim (Option-cases (get H hop.headers (codes "location"))) [
      | inl e ↦ absurd (ground (arith, followed, e))
      | inr (value, e) ↦
          elim (join-cases (R.join (from_of U H R hop chain) (location_text U H R value))) [
            | inl (message, j) ↦ absurd (ground (arith, followed, e, j))
            | inr (joined, j) ↦
                let target = with_fragment U H R chain.url joined in
                elim (Bool-cases (refuses U H R init (from_of U H R hop chain) target)) [
                  | inl r ↦ absurd (ground (arith, followed, e, j, r))
                  | inr r ↦ (target, ground (arith, followed, e, j, r))
                ]
          ]
    ]

    -- However a redirect is followed: the chain goes on without credentials in its URL, and if it
    -- goes to another origin, then without the headers `Authorization`, `Cookie`, `Referer`,
    -- `Origin` and `Proxy-Authorization` that the hop had; and it counts one redirect more, and
    -- keeps the URL that it leaves at the end of its list.
    pub follow_redirect-leaves : IsLeft chain (U.origin (from_of U H R hop chain)) c
    unfolding move_to
    follow_redirect-leaves =
        let (target, e) = moved in
        let b = before_moving U H R hop attach chain in
        let from = U.origin (from_of U H R hop chain) in
        let to = (strip_url_credentials U H R target).0 in
        let d = downgrade U H R hop.status b in
        let crosses = not (U.origin_eq from (U.origin to)) in
        let keeps = cross-keeps init crosses d in
        let early = downgrade-keeps hop.status b in
        let first = before_moving-keeps hop attach chain in
        subst (IsLeft chain from) (sym e) (
          stripped_url-IsBare target,
          λ other.
              subst (λ x. All (Lacks (cross U H R init x d).0.headers) sensitive_redirect_headers)
                (ap not (sym other)) (cross-Lacks init d),
          ap (λ n. n + 1) (keeps.2 ∙ early.2 ∙ first.2),
          (ap (λ l. l ++ (cross U H R init crosses d).0.url ∷ []) (keeps.1 ∙ early.1 ∙ first.1)
              ∙ ap (λ u. chain.url_list ++ u ∷ []) (keeps.0 ∙ early.0 ∙ first.0)),
        )

    -- A followed redirect that downgrades the method, a 301 or 302 of a `POST` or a 303 of anything
    -- but `GET` and `HEAD`, goes on as a `GET` without a body and without the headers that describe
    -- one; any other goes on with its method and its body.
    pub follow_redirect-downgrades : HasMethodAfter hop.status chain c
    unfolding move_to
    follow_redirect-downgrades =
        let (target, e) = moved in
        let b = before_moving U H R hop attach chain in
        let to = (strip_url_credentials U H R target).0 in
        let d = downgrade U H R hop.status b in
        let crosses = not (U.origin_eq (U.origin (from_of U H R hop chain)) (U.origin to)) in
        let keeps = cross-keeps init crosses d in
        let first = before_moving-keeps hop attach chain in
        let after = downgrade-HasMethodAfter hop.status b in
        subst (HasMethodAfter hop.status chain) (sym e) (
          (λ is_get.
              let got = after.0 (subst (IsDowngrade hop.status) (sym first.3) is_get) in
              (
                keeps.3 ∙ got.0,
                keeps.4 ∙ got.1,
                All-map (Lacks d.headers) (Lacks (cross U H R init crosses d).0.headers)
                    (cross-still init crosses d) body_headers got.2,
              )),
          λ same.
              let got = after.1 (λ i. same (subst (IsDowngrade hop.status) first.3 i)) in
              (keeps.3 ∙ got.0 ∙ first.3, keeps.4 ∙ got.1 ∙ first.4),
        )
