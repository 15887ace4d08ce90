-- ===== src/Hsts/Matching.antt =====
-- Which hosts are known, stated without the loop, and what a recorded policy does to later requests.
use mathlib.Core.List.{append_assoc}
use gosub_sonar.Prelude.{
  ℕ, zero, suc, ◌≡◌, ◌≤◌, ◌<◌, refl, ap, sym, ◌∙◌, subst, ◌⊎◌, inl, inr, ◌↔◌, Bool, true, false, [],
  ◌∷◌, ◌++◌, Option, none, some, Text, ◌==◌, length, length-append, split_once, Bool-cases,
  Option-cases, arith,
}
use gosub_sonar.Hsts.Store.{HstsEntry}
use gosub_sonar.Hsts.Policy.{normalize_host, has_dot, applies, parent_of, known_from, is_known_host}

-- `parent` is a domain above `host`: a dot stands in front of it.
pub record IsAbove (host parent : Text) : Type 0 where
  pub label : Text
  pub split : host ≡ label ++ b'.' ∷ parent

-- `name` has more than one label.
abbrev pub HasLabels : Text → Type 0
HasLabels name = (first : Text) × (others : Text) × (name ≡ first ++ b'.' ∷ others)

-- RFC 6797, 8.2: an unexpired entry of the host itself, or an unexpired one with
-- `includeSubDomains` of a superdomain, of those that `counts` admits.
abbrev pub IsKnown : (counts : Text → Type 0) → (Text → Option HstsEntry) → ℕ → Text → Type 0
IsKnown counts load now host =
    (applies (load host) now true ≡ true)
    ⊎ ((parent : Text) × IsAbove host parent
        × counts parent
        × (applies (load parent) now false ≡ true))

-- A superdomain as the loop counts them.
record IsSuperdomain (host parent : Text) : Type 0 where
  pub label : Text
  pub split : host ≡ label ++ b'.' ∷ parent
  pub dotted : has_dot parent ≡ true

has_dot-append : (s t : Text) → has_dot t ≡ true → has_dot (s ++ t) ≡ true
unfolding has_dot
has_dot-append [] t h = h
has_dot-append (c ∷ s) t h = ground (arith, has_dot-append s t h)

has_dot-dot : (t : Text) → has_dot (b'.' ∷ t) ≡ true
unfolding has_dot
has_dot-dot t = refl

has_dot-cons : (t : Text) → has_dot t ≡ true → has_dot (b'.' ∷ t) ≡ true
unfolding has_dot
has_dot-cons t h = refl

-- The first dot of a text is in front of every other.
split_once-first :
    (label parent : Text)
    → (rest : Text) × ((split_once b'.' (label ++ b'.' ∷ parent)).1 ≡ some rest)
      × ((rest ≡ parent) ⊎ ((more : Text) × (rest ≡ more ++ b'.' ∷ parent)))
unfolding split_once
split_once-first [] parent = (parent, refl, inl refl)
split_once-first (c ∷ label) parent = elim (Bool-cases (c == b'.')) [
  | inl dot ↦ (label ++ b'.' ∷ parent, rw dot refl, inr (label, refl))
  | inr other ↦
      let (rest, e, where_it_is) = split_once-first label parent in (rest, rw other e, where_it_is)
]

split_once-some :
    (s rest : Text)
    → (split_once b'.' s).1 ≡ some rest
    → (label : Text) × (s ≡ label ++ b'.' ∷ rest)
unfolding split_once
split_once-some [] rest e = absurd (cc)
split_once-some (c ∷ s) rest e = elim (Bool-cases (c == b'.')) [
  | inl dot ↦ ([], ground arith)
  | inr other ↦
      let (label, f) = split_once-some s rest (rw (other, split_once) at e) in
      (c ∷ label, ap (◌∷◌ c) f)
]

IsSuperdomain-trans : {a b c : Text} → IsSuperdomain a b → IsSuperdomain b c → IsSuperdomain a c
IsSuperdomain-trans {a} {b} {c} x y = record {
  label = x.label ++ b'.' ∷ y.label;
  split =
      x.split
      ∙ ap (λ t. x.label ++ b'.' ∷ t) y.split
      ∙ sym (append_assoc x.label (b'.' ∷ y.label) (b'.' ∷ c));
  dotted = y.dotted;
}

superdomain_length : {a b : Text} → IsSuperdomain a b → length b < length a
superdomain_length {a} {b} x = omega (arith, ap length x.split, length-append x.label (b'.' ∷ b))

parent_of-IsSuperdomain : (s parent : Text) → parent_of s ≡ some parent → IsSuperdomain s parent
unfolding parent_of
parent_of-IsSuperdomain s parent e = elim (Option-cases (split_once b'.' s).1) [
  | inl whole ↦ absurd (ground arith)
  | inr (rest, f) ↦ elim (Bool-cases (has_dot rest)) [
    | inr bare ↦ absurd (ground arith)
    | inl dotted ↦
        let same : rest ≡ parent = ground arith in
        let (label, split) = split_once-some s rest f in
        subst (IsSuperdomain s) same (record { label = label; split = split; dotted = dotted })
  ]
]

parent_of-some :
    (s rest : Text)
    → (split_once b'.' s).1 ≡ some rest
    → has_dot rest ≡ true
    → parent_of s ≡ some rest
unfolding parent_of
parent_of-some s rest f dotted = ground arith

-- The loop's next candidate lies on the way to every superdomain.
parent_of-reaches :
    (s q : Text)
    → IsSuperdomain s q
    → (p : Text) × (parent_of s ≡ some p) × ((p ≡ q) ⊎ IsSuperdomain p q)
parent_of-reaches s q x =
    let (rest, e, place) = split_once-first x.label q in
    let f : (split_once b'.' s).1 ≡ some rest = rw x.split e in
    elim place [
      | inl same ↦ (rest, parent_of-some s rest f (rw same x.dotted), inl same)
      | inr (more, split) ↦
          let dotted : has_dot rest ≡ true =
            rw split (has_dot-append more _ (has_dot-cons q x.dotted)) in
          (
            rest,
            parent_of-some s rest f dotted,
            inr (record { label = more; split = split; dotted = x.dotted }),
          )
    ]

abbrev KnownFrom : (Text → Option HstsEntry) → ℕ → Bool → Text → Type 0
KnownFrom load now is_exact s =
    (applies (load s) now is_exact ≡ true)
    ⊎ ((parent : Text) × IsSuperdomain s parent × (applies (load parent) now false ≡ true))

module _ (load : Text → Option HstsEntry) (now : ℕ) where
  no_parent : (s q : Text) → parent_of s ≡ none → ¬ IsSuperdomain s q
  no_parent s q e x = let (p, f, place) = parent_of-reaches s q x in cc (e, f)

  known_from_sound :
      (fuel : ℕ) (is_exact : Bool) (s : Text)
      → known_from load now fuel is_exact s ≡ true
      → KnownFrom load now is_exact s
  unfolding known_from
  known_from_sound zero is_exact s h = inl h
  known_from_sound (suc fuel) is_exact s h = elim (Bool-cases (applies (load s) now is_exact)) [
    | inl here ↦ inl here
    | inr not_here ↦ elim (Option-cases (parent_of s)) [
      | inl top ↦ absurd (ground arith)
      | inr (p, e) ↦
          let above = parent_of-IsSuperdomain s p e in
          elim (known_from_sound fuel false p (rw (not_here, known_from, e) at h)) [
            | inl here ↦ inr (p, above, here)
            | inr (q, further, here) ↦ inr (q, IsSuperdomain-trans above further, here)
          ]
    ]
  ]

  known_from-here :
      (fuel : ℕ) (is_exact : Bool) (s : Text)
      → applies (load s) now is_exact ≡ true
      → known_from load now fuel is_exact s ≡ true
  unfolding known_from
  known_from-here zero is_exact s h = h
  known_from-here (suc fuel) is_exact s h = rw h

  known_from-parent :
      (fuel : ℕ) (is_exact : Bool) (s p : Text)
      → parent_of s ≡ some p
      → known_from load now fuel false p ≡ true
      → known_from load now (suc fuel) is_exact s ≡ true
  unfolding known_from
  known_from-parent fuel is_exact s p e h = ground arith

  known_from_complete :
      (fuel : ℕ) (is_exact : Bool) (s : Text)
      → length s ≤ fuel
      → KnownFrom load now is_exact s
      → known_from load now fuel is_exact s ≡ true
  known_from_complete fuel is_exact s h (inl here) = known_from-here fuel is_exact s here
  known_from_complete zero is_exact s h (inr (q, x, k)) =
      absurd (omega (arith, superdomain_length x))
  known_from_complete (suc fuel) is_exact s h (inr (q, x, k)) =
      let (p, e, place) = parent_of-reaches s q x in
      let shorter = superdomain_length (parent_of-IsSuperdomain s p e) in
      known_from-parent fuel is_exact s p e (
        known_from_complete fuel false p (omega (arith, shorter))
          (elim place [ inl same ↦ inl (rw same k) | inr further ↦ inr (q, further, k) ]))

has_dot-HasLabels : (t : Text) → has_dot t ≡ true → HasLabels t
unfolding has_dot
has_dot-HasLabels [] h = absurd (cc h)
has_dot-HasLabels (c ∷ t) h = elim (Bool-cases (c == b'.')) [
  | inl dot ↦ ([], t, ap (λ x. x ∷ t) (ground arith))
  | inr other ↦
      let (first, others, e) = has_dot-HasLabels t (ground (arith, h, other)) in
      (c ∷ first, others, ap (λ r. c ∷ r) e)
]

HasLabels-has_dot : (t : Text) → HasLabels t → has_dot t ≡ true
unfolding has_dot
HasLabels-has_dot t (first, others, e) = rw e (has_dot-append first _ (has_dot-dot others))

pub is_known_host_iff :
    (load : Text → Option HstsEntry) (host : Text) (now : ℕ)
    → ((is_known_host load host now ≡ true) ↔ IsKnown HasLabels load now (normalize_host host))
      × (is_known_host load host now ≡ true → IsKnown (λ _. Unit) load now (normalize_host host))
unfolding is_known_host
is_known_host_iff load host now =
    let s = normalize_host host in
    let sound : is_known_host load host now ≡ true → IsKnown HasLabels load now s = λ h.
      elim (known_from_sound load now (length s) true s h) [
        | inl here ↦ inl here
        | inr (q, x, k) ↦
            inr (q, record { label = x.label; split = x.split }, has_dot-HasLabels q x.dotted, k)
      ] in
    (
      (
        sound,
        λ k. known_from_complete load now (length s) true s (omega arith) (elim k [
          | inl here ↦ inl here
          | inr (q, above, several, found) ↦ inr (
            q,
            record {
              label = above.label;
              split = above.split;
              dotted = HasLabels-has_dot q several;
            },
            found,
          )
        ]),
      ),
      λ h. elim (sound h) [
        | inl here ↦ inl here
        | inr (q, above, several, found) ↦ inr (q, above, tt, found)
      ],
    )
