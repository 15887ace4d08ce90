-- ===== src/Chain.antt =====
-- src/net/fetch/chain.rs: a request as its redirects carry it from hop to hop, and
-- `follow_redirect`, which moves it on; with what that uses of src/net/fetch.rs.
pub mod Crossing
pub mod Methods
use gosub_sonar.Prelude.{
  ℕ, ◌+◌, ◌*◌, ◌/◌, ◌%◌, ◌≡◌, ◌⊎◌, inl, inr, Bool, true, false, not, ◌&&◌, ◌||◌, List, [], ◌∷◌,
  ◌++◌, Option, none, some, Text, codes, if◌then◌else◌, ◌==◌, ltb, is_empty, is_some, text_eq,
}
use gosub_sonar.Web.Headers.{HeaderApi, get, contains_key, readable, head_of}
use gosub_sonar.Web.Urls.{UrlApi, Origin}
use gosub_sonar.Web.Errors.{NetError, BlockReason}
use gosub_sonar.Web.Events.{
  NetEvent, RequestChange, url_credentials_removed, method_downgraded, sensitive_headers_stripped,
}
use gosub_sonar.Cors.Kinds.{CorsError, credentialed_redirect, ResponseTainting}
use gosub_sonar.FetchMetadata.Kinds.{RequestMode, SecFetchSite}
use gosub_sonar.Referrer.{ReferrerPolicy, parse_header}

-- What redirects use of the crate `url` besides `UrlApi`, and of `std::str`.
pub record RedirectApi (U : UrlApi) : Type 1 where
  -- `Url::join`, with the error's text; `fragment`, `set_fragment`, `username` and `password`.
  pub join : U.Url → Text → Text ⊎ U.Url
  pub fragment : U.Url → Option Text
  pub set_fragment : U.Url → Option Text → U.Url
  pub username : U.Url → Text
  pub password : U.Url → Option Text
  -- `from_utf8` gives a text.
  pub is_utf8 : Text → Bool
  -- The embedder's type of request bodies.
  pub Body : Type 0
  pub username-clear_credentials : (u : U.Url) → username (U.clear_credentials u) ≡ []
  pub password-clear_credentials : (u : U.Url) → password (U.clear_credentials u) ≡ none

abbrev pub sensitive_redirect_headers : List Text
sensitive_redirect_headers =
    codes "authorization"
    ∷ codes "cookie"
    ∷ codes "referer"
    ∷ codes "origin"
    ∷ codes "proxy-authorization"
    ∷ []

-- The names that describe a body, and its framing.
abbrev pub body_headers : List Text
body_headers =
    codes "content-encoding"
    ∷ codes "content-language"
    ∷ codes "content-location"
    ∷ codes "content-type"
    ∷ codes "content-length"
    ∷ codes "transfer-encoding"
    ∷ []

unfoldable pub downgrades : (status : ℕ) (method : Text) → Bool
downgrades status method =
    if status == 301 || status == 302
    then text_eq method (codes "POST")
    else if status == 303
    then not (text_eq method (codes "GET")) && not (text_eq method (codes "HEAD"))
    else false

-- A byte as a `char`, in UTF-8.
abbrev pub as_char : ℕ → Text
as_char b = if ltb b 128 then b ∷ [] else (192 + b / 64) ∷ (128 + b % 64) ∷ []

abbrev pub as_chars : Text → Text
as_chars [] = []
as_chars (b ∷ bytes) = as_char b ++ as_chars bytes

-- A status code, which has three digits.
abbrev pub status_text : ℕ → Text
status_text n = (b'0' + n / 100) ∷ (b'0' + n / 10 % 10) ∷ (b'0' + n % 10) ∷ []

module _ (U : UrlApi) (H : HeaderApi) (R : RedirectApi U) where
  open U use {Url}
  open H use {HeaderMap}

  pub record HopChain : Type 0 where
    pub url : Url
    pub method : Text
    pub headers : HeaderMap
    pub body : Option R.Body
    pub url_list : List Url
    pub referrer : Option Url
    pub referrer_policy : ReferrerPolicy
    pub site : SecFetchSite
    pub origin_tainted : Bool
    pub taint_reported : Bool
    pub cookie_from_jar : Bool
    pub tainting : ResponseTainting
    pub redirects : ℕ
    pub redirect_deadline : Option ℕ

  -- What is read of the request as it began.
  pub record Init : Type 0 where
    pub mode : RequestMode
    pub origin : Option Origin
    pub referrer : Option Url

  -- The response of a hop: from the network, at a URL, or from the cache.
  pub record HopResponse : Type 0 where
    pub answered_at : Option Url
    pub status : ℕ
    pub headers : HeaderMap

  -- What following a redirect does: the cookies handed to the jar, the events, and the chain.
  pub record Move : Type 0 where
    pub cookies : List (Url × List Text)
    pub events : List (NetEvent Url HeaderMap)
    pub outcome : NetError Url ⊎ HopChain

  unfoldable pub location_text : Text → Text
  location_text bytes = if R.is_utf8 bytes then bytes else as_chars bytes

  -- `filter_map(ReferrerPolicy::parse_header).next_back()`.
  abbrev pub last_parsed : List Text → Option ReferrerPolicy
  last_parsed [] = none
  last_parsed (v ∷ vs) = elim (last_parsed vs) [ some p ↦ some p | none ↦ parse_header v ]

  unfoldable pub updated_policy : HeaderMap → ReferrerPolicy → ReferrerPolicy
  updated_policy headers policy =
      elim (last_parsed (readable H (H.get_all headers (codes "referrer-policy")))) [
        | some updated ↦ updated
        | none ↦ policy
      ]

  abbrev pub utf8_values : List Text → List Text
  utf8_values [] = []
  utf8_values (v ∷ vs) = let rest = utf8_values vs in if R.is_utf8 v then v ∷ rest else rest

  unfoldable pub report_set_cookie : Url → HeaderMap → List (Url × List Text)
  report_set_cookie url headers =
      let values = utf8_values (H.get_all headers (codes "set-cookie")) in
      if is_empty values then [] else (url, values) ∷ []

  -- The chain after the jar has seen the hop's cookies.
  unfoldable pub without_jar_cookie : (cookies_set : Bool) → HopChain → HopChain
  without_jar_cookie cookies_set c =
      if c.cookie_from_jar || cookies_set
      then record c { headers = H.remove c.headers (codes "cookie"); cookie_from_jar = false }
      else c

  unfoldable pub has_credentials : Url → Bool
  has_credentials u = not (is_empty (R.username u)) || is_some (R.password u)

  unfoldable pub strip_url_credentials : Url → Url × Bool
  unfolding has_credentials
  strip_url_credentials u = if has_credentials u then (U.clear_credentials u, true) else (u, false)

  abbrev pub remove_all : List Text → HeaderMap → HeaderMap
  remove_all [] headers = headers
  remove_all (n ∷ ns) headers = remove_all ns (H.remove headers n)

  unfoldable pub downgrade : (status : ℕ) → HopChain → HopChain
  unfolding downgrades
  downgrade status c =
      if downgrades status c.method
      then record c {
        method = codes "GET";
        body = none;
        headers = remove_all body_headers c.headers;
      }
      else c

  -- Only what the caller set and nothing puts back.
  unfoldable pub is_reported : Init → (cookie_from_jar : Bool) → Text → Bool
  is_reported init cookie_from_jar name =
      if text_eq name (codes "cookie")
      then not cookie_from_jar
      else if text_eq name (codes "referer")
      then not (is_some init.referrer)
      else if text_eq name (codes "origin")
      then not (is_some init.origin)
      else true

  -- The headers without the names, and which of those that were there are reported.
  unfoldable pub strip_headers :
      (reported : Text → Bool) → List Text → HeaderMap → HeaderMap × List Text
  strip_headers reported [] headers = (headers, [])
  strip_headers reported (n ∷ ns) headers =
      let r = strip_headers reported ns (H.remove headers n) in
      (r.0, if contains_key H headers n && reported n then n ∷ r.1 else r.1)

  unfoldable pub cross : Init → (crosses : Bool) → HopChain → HopChain × List Text
  unfolding strip_headers is_reported
  cross init crosses c =
      if crosses
      then (let r =
            strip_headers (is_reported init c.cookie_from_jar) sensitive_redirect_headers
              c.headers in
          (record c { headers = r.0; cookie_from_jar = false }, r.1))
      else (c, [])

  unfoldable pub taints : Init → (crosses : Bool) → (from : Url) → Bool
  taints init crosses from = elim init.origin [
    | none ↦ false
    | some o ↦ crosses && not (U.origin_eq o (U.origin from))
  ]

  -- The target of a `Location`, with the fragment of the request if it has none.
  unfoldable pub with_fragment : (url to : Url) → Url
  with_fragment url to = if is_some (R.fragment to) then to else R.set_fragment to (R.fragment url)

  abbrev pub is_cors : RequestMode → Bool
  is_cors RequestMode.cors = true
  is_cors _ = false

  abbrev pub changed : Url → (if_so : Bool) → RequestChange Url → List (NetEvent Url HeaderMap)
  changed to if_so change = if if_so then NetEvent.request_modified to change ∷ [] else []

  -- The part of `follow_redirect` behind the checks of the target.
  unfoldable pub move_to :
      Init → (status : ℕ) → (from to : Url) → HopChain → List (NetEvent Url HeaderMap) × HopChain
  unfolding strip_url_credentials downgrade cross taints
  move_to init status from target c =
      let (to, removed) = strip_url_credentials target in
      let crosses = not (U.origin_eq (U.origin from) (U.origin to)) in
      let d = downgrade status c in
      let (e, stripped) = cross init crosses d in
      (
        NetEvent.redirected from to status ∷ changed to removed url_credentials_removed
            ++ (changed to (not (text_eq c.method d.method)) (method_downgraded c.method d.method)
                ++ changed to (not (is_empty stripped)) (sensitive_headers_stripped stripped)),
        record e {
          url = to;
          url_list = e.url_list ++ e.url ∷ [];
          redirects = e.redirects + 1;
          origin_tainted = e.origin_tainted || taints init crosses from;
        },
      )

  -- Whether the target is refused for its credentials.
  unfoldable pub refuses : Init → (from target : Url) → Bool
  unfolding has_credentials
  refuses init from target =
      has_credentials target
      && (is_cors init.mode || not (U.origin_eq (U.origin from) (U.origin target)))

  unfoldable pub from_of : HopResponse → HopChain → Url
  from_of hop chain = elim hop.answered_at [ some u ↦ u | none ↦ chain.url ]

  unfoldable pub cookies_of :
      HopResponse → (attach_credentials : Bool) → HopChain → List (Url × List Text)
  unfolding from_of report_set_cookie
  cookies_of hop attach_credentials chain =
      if attach_credentials then report_set_cookie (from_of hop chain) hop.headers else []

  -- The chain with the policy that the hop announces, and without a cookie that the jar gave.
  unfoldable pub before_moving : HopResponse → (attach_credentials : Bool) → HopChain → HopChain
  unfolding cookies_of updated_policy without_jar_cookie
  before_moving hop attach_credentials chain =
      without_jar_cookie (not (is_empty (cookies_of hop attach_credentials chain)))
        (record chain { referrer_policy = updated_policy hop.headers chain.referrer_policy })

  unfoldable pub follow_redirect :
      Init → HopResponse → (attach_credentials : Bool) → HopChain → Move
  unfolding before_moving cookies_of from_of location_text with_fragment refuses move_to
  follow_redirect init hop attach_credentials chain =
      let from = from_of hop chain in
      let cookies = cookies_of hop attach_credentials chain in
      let c = before_moving hop attach_credentials chain in
      elim (get H hop.headers (codes "location")) [
        | none ↦ record {
          cookies = cookies;
          events = [];
          outcome = inl (
              NetError.redirect (
                codes "redirect status "
                ++ (status_text hop.status ++ codes " without Location header")));
        }
        | some value ↦ elim (R.join from (location_text value)) [
          | inl e ↦ record {
            cookies = cookies;
            events = [];
            outcome = inl (
                NetError.redirect
                  (codes "invalid redirect URL '" ++ (location_text value ++ (codes "': " ++ e))));
          }
          | inr joined ↦
              let target = with_fragment chain.url joined in
              let reason = BlockReason.cors credentialed_redirect in
              let moved = move_to init hop.status from target c in
              if refuses init from target
              then record {
                cookies = cookies;
                events = NetEvent.blocked target reason ∷ [];
                outcome = inl (NetError.blocked reason target);
              }
              else record { cookies = cookies; events = moved.0; outcome = inr moved.1 }
        ]
      ]
