-- ===== src/Examples/Apis.antt =====
-- Instances of the interfaces that the theorems are stated over: headers as a list of lines, a URL
-- as a record, an association list of HSTS entries, and dates as decimals.
use gosub_sonar.Prelude.{
  ℕ, ◌*◌, ◌/◌, ◌^◌, ◌≡◌, refl, ◌↔◌, Bool, true, false, not, ◌&&◌, List, [], ◌∷◌, ◌++◌, Option, none,
  some, Text, codes, text_eq, text_eq_iff, text_eq_refl, if◌then◌else◌, ◌==◌, all, in_range,
  is_empty, is_number, decimal, arith, lookup, insert, remove, lookup-insert, lookup-remove,
  text_key,
}
use gosub_sonar.Web.Headers.{HeaderApi, values_of}
use gosub_sonar.Web.Urls.{host_eq, host_eq_iff, UrlApi, Host, domain, Origin, opaque, tuple}
use gosub_sonar.Hsts.Store.{HstsStore, HstsEntry, Entries}
use gosub_sonar.Cache.Dates.{Chrono}

abbrev pub Lines : Type 0
Lines = List (Text × Text)

unfoldable pub drop_name : Lines → Text → Lines
drop_name [] k = []
drop_name ((n, v) ∷ lines) k = if text_eq k n then drop_name lines k else (n, v) ∷ drop_name lines k

pub values_of-append :
    (h : Lines) (k v n : Text)
    → values_of n (h ++ (k, v) ∷ [])
      ≡ (if text_eq k n then values_of n h ++ v ∷ [] else values_of n h)
unfolding values_of
values_of-append [] k v n = ground arith
values_of-append ((m, w) ∷ h) k v n = ground (arith, values_of-append h k v n)

pub values_of-drop_name :
    (h : Lines) (k n : Text)
    → values_of n (drop_name h k) ≡ (if text_eq k n then [] else values_of n h)
unfolding values_of drop_name
values_of-drop_name [] k n = ground arith
values_of-drop_name ((m, w) ∷ h) k n =
    ground (arith, values_of-drop_name h k n, text_eq_iff k m, text_eq_iff k n, text_eq_iff m n)

pub values_of-insert :
    (h : Lines) (k v n : Text)
    → values_of n ((k, v) ∷ drop_name h k) ≡ (if text_eq k n then v ∷ [] else values_of n h)
unfolding values_of
values_of-insert h k v n = ground (arith, values_of-drop_name h k n)

unfoldable pub visible : Text → Option Text
visible v = if all (in_range 32 126) v then some v else none

pub visible-same : (v s : Text) → visible v ≡ some s → s ≡ v
unfolding visible
visible-same v s e = ground arith

pub values_of-nil : (n : Text) → values_of n [] ≡ []
unfolding values_of
values_of-nil n = refl

abbrev pub lines_api : HeaderApi
lines_api = record {
  HeaderMap = Lines;
  empty = [];
  get_all = λ h n. values_of n h;
  iter = λ h. h;
  append = λ h k v. h ++ (k, v) ∷ [];
  insert = λ h k v. (k, v) ∷ drop_name h k;
  remove = drop_name;
  to_str = visible;
  is_header_name = λ n. not (is_empty n);
  get_all-empty = values_of-nil;
  get_all-append = values_of-append;
  get_all-insert = values_of-insert;
  get_all-remove = values_of-drop_name;
  values_of-iter = λ h n. refl;
  to_str-same = visible-same;
}

pub record Url : Type 0 where
  pub scheme : Text
  pub host : Host
  pub port : Option ℕ
  pub credentials : Text
  pub path : Text
  pub query : Text
  pub fragment : Text

unfoldable pub same_origin : Origin → Origin → Bool
unfolding host_eq
same_origin (opaque a) (opaque b) = a == b
same_origin (tuple s h p) (tuple t i q) = text_eq s t && host_eq h i && p == q
same_origin _ _ = false

pub same_origin_iff : (a b : Origin) → (same_origin a b ≡ true) ↔ (a ≡ b)
unfolding same_origin
same_origin_iff (opaque a) (opaque b) = ground arith
same_origin_iff (opaque a) (tuple t i q) = ground arith
same_origin_iff (tuple s h p) (opaque b) = ground arith
same_origin_iff (tuple s h p) (tuple t i q) = ground (arith, text_eq_iff s t, host_eq_iff h i)

unfoldable pub host_text : Host → Text
host_text (domain s) = s
host_text _ = codes "ip"

unfoldable pub serialized : Origin → Text
unfolding host_text
serialized (opaque a) = codes "null"
serialized (tuple s h p) = s ++ (codes "://" ++ host_text h)

unfoldable pub default_port : Url → ℕ
default_port u = if text_eq u.scheme (codes "https") then 443 else 80

unfoldable pub port_of : Option ℕ → ℕ → ℕ
port_of none d = d
port_of (some p) d = p

unfoldable pub url_text : Url → Text
unfolding host_text
url_text u =
    u.scheme
    ++ (codes "://" ++ (u.credentials ++ (host_text u.host ++ (u.path ++ (u.query ++ u.fragment)))))

pub set_scheme-scheme :
    (u v : Url) (s : Text) → some (record u { scheme = s }) ≡ some v → v.scheme ≡ s
set_scheme-scheme u v s e = ground arith

pub set_scheme-host :
    (u v : Url) (s : Text) → some (record u { scheme = s }) ≡ some v → some v.host ≡ some u.host
set_scheme-host u v s e = ground arith

abbrev pub record_api : UrlApi
record_api = record {
  Url = Url;
  scheme = λ u. u.scheme;
  host = λ u. some u.host;
  port = λ u. u.port;
  origin = λ u. tuple u.scheme u.host (port_of u.port (default_port u));
  as_str = url_text;
  set_scheme = λ u s. some (record u { scheme = s });
  clear_fragment = λ u. record u { fragment = [] };
  clear_credentials = λ u. record u { credentials = [] };
  path = λ u. u.path;
  clear_path = λ u. record u { path = codes "/" };
  clear_query = λ u. record u { query = [] };
  origin_eq = same_origin;
  ascii_serialization = serialized;
  origin_eq_iff = same_origin_iff;
  scheme-set_scheme = set_scheme-scheme;
  host-set_scheme = set_scheme-host;
  scheme-clear_fragment = λ u. refl;
  scheme-clear_credentials = λ u. refl;
  scheme-clear_path = λ u. refl;
  scheme-clear_query = λ u. refl;
}

pub insert_then_lookup : (s : Entries) (h : Text) (e : HstsEntry) → lookup h (insert h e s) ≡ some e
insert_then_lookup s h e = ground (arith, lookup-insert h h e s, text_eq_refl h)

pub remove_then_lookup : (s : Entries) (h : Text) → lookup h (remove h s) ≡ none
remove_then_lookup s h = ground (arith, lookup-remove h h s, text_eq_refl h)

abbrev pub entries_store : HstsStore
entries_store = record {
  Store = Entries;
  load = λ s h. lookup h s;
  store = λ s h e. insert h e s;
  remove = λ s h. remove h s;
  load-store = insert_then_lookup;
  load-remove = remove_then_lookup;
}

abbrev pub decimal_dates : Chrono
decimal_dates = record {
  parse_from_str = λ value form. if is_number value then some (decimal value * 10 ^ 9) else none;
  format = λ time form. [];
  heuristic_fraction = λ s. s / 10;
}

-- A URL of `https` or `http` on a domain, with a path.
abbrev pub url_at : Text → Text → Text → Url
url_at s h p = record {
  scheme = s;
  host = domain h;
  port = none;
  credentials = [];
  path = p;
  query = [];
  fragment = [];
}
