-- ===== src/Ports.antt =====
-- src/net/port_blocking.rs: the ports that are never fetched from.
use gosub_sonar.Prelude.{
  ℕ, ◌≡◌, ◌⊎◌, ◌↔◌, refl, Bool, true, false, not, ◌&&◌, ◌||◌, List, [], ◌∷◌, Option, none, some,
  codes, text_eq, text_eq_iff, ◌==◌, arith, ltb,
}
use gosub_sonar.Web.Urls.{UrlApi}

abbrev pub bad_ports : List ℕ
bad_ports =
    0 ∷ 1 ∷ 7 ∷ 9 ∷ 11 ∷ 13 ∷ 15 ∷ 17 ∷ 19 ∷ 20 ∷ 21 ∷ 22 ∷ 23 ∷ 25 ∷ 37 ∷ 42 ∷ 43 ∷ 53 ∷ 69 ∷ 77
    ∷ 79 ∷ 87 ∷ 95 ∷ 101 ∷ 102 ∷ 103 ∷ 104 ∷ 109 ∷ 110 ∷ 111 ∷ 113 ∷ 115 ∷ 117 ∷ 119 ∷ 123 ∷ 135
    ∷ 137 ∷ 139 ∷ 143 ∷ 161 ∷ 179 ∷ 389 ∷ 427 ∷ 465 ∷ 512 ∷ 513 ∷ 514 ∷ 515 ∷ 526 ∷ 530 ∷ 531 ∷ 532
    ∷ 540 ∷ 548 ∷ 554 ∷ 556 ∷ 563 ∷ 587 ∷ 601 ∷ 636 ∷ 989 ∷ 990 ∷ 993 ∷ 995 ∷ 1719 ∷ 1720 ∷ 1723
    ∷ 2049 ∷ 3659 ∷ 4045 ∷ 4190 ∷ 5060 ∷ 5061 ∷ 6000 ∷ 6566 ∷ 6665 ∷ 6666 ∷ 6667 ∷ 6668 ∷ 6669
    ∷ 6679 ∷ 6697 ∷ 10080 ∷ []

unfoldable pub has_port : List ℕ → ℕ → Bool
has_port [] port = false
has_port (p ∷ ps) port = p == port || has_port ps port

-- `binary_search` on a sorted list finds exactly its members; `bad_ports-ascending` is its premise.
unfoldable pub is_bad_port : ℕ → Bool
unfolding has_port
is_bad_port port = has_port bad_ports port

unfoldable pub ascending : List ℕ → Bool
ascending [] = true
ascending (p ∷ []) = true
ascending (p ∷ q ∷ ps) = ltb p q && ascending (q ∷ ps)

pub bad_ports-ascending : ascending bad_ports ≡ true
unfolding ascending
bad_ports-ascending = refl

unfoldable pub blocked_port : Option ℕ → List ℕ → Bool
unfolding is_bad_port
blocked_port none allowed = false
blocked_port (some port) allowed = is_bad_port port && not (has_port allowed port)

abbrev IsBlocked : Option ℕ → List ℕ → Type 0
IsBlocked o allowed = (p : ℕ) × (o ≡ some p) × (is_bad_port p ≡ true) × (has_port allowed p ≡ false)

blocked_port_sound :
    (o : Option ℕ) (allowed : List ℕ) → blocked_port o allowed ≡ true → IsBlocked o allowed
unfolding blocked_port
blocked_port_sound none allowed h = absurd (cc)
blocked_port_sound (some p) allowed h = (p, refl, ground arith, ground arith)

blocked_port_complete :
    (o : Option ℕ) (allowed : List ℕ) → IsBlocked o allowed → blocked_port o allowed ≡ true
unfolding blocked_port
blocked_port_complete o allowed (p, e, bad, new) = rw (e, bad, new) refl

module _ (U : UrlApi) where
  open U use {Url, scheme, port}

  unfoldable pub should_block : Url → List ℕ → Bool
  should_block url allowed =
      (text_eq (scheme url) (codes "http") || text_eq (scheme url) (codes "https"))
      && blocked_port (port url) allowed

  -- A URL is blocked exactly when it is an `http` or `https` URL whose explicit port is a bad one
  -- that the embedder has not allowed.
  pub should_block_iff :
      (url : Url) (allowed : List ℕ)
      → (should_block url allowed ≡ true) ↔ (
          ((scheme url ≡ codes "http") ⊎ (scheme url ≡ codes "https"))
          × ((p : ℕ) × (port url ≡ some p) × (is_bad_port p ≡ true) × (has_port allowed p ≡ false)))
  unfolding should_block
  should_block_iff url allowed = (
    λ h. (
      ground (
        arith,
        text_eq_iff (scheme url) (codes "http"),
        text_eq_iff (scheme url) (codes "https"),
      ),
      blocked_port_sound (port url) allowed (ground arith),
    ),
    λ h.
        let blocked = blocked_port_complete (port url) allowed h.1 in
        ground (
          arith,
          blocked,
          h.0,
          text_eq_iff (scheme url) (codes "http"),
          text_eq_iff (scheme url) (codes "https"),
        ),
  )
