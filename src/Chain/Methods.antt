-- ===== src/Chain/Methods.antt =====
-- The redirects of src/net/fetch/chain.rs that change the method.
use gosub_sonar.Prelude.{
  ℕ, ◌≡◌, ◌≢◌, ◌==◌, ◌⊎◌, inl, inr, true, false, Text, codes, arith, Bool-cases, text_eq,
  text_eq_iff,
}
use gosub_sonar.Chain.{downgrades}

-- The redirects that turn a method into `GET` (Fetch, HTTP-redirect fetch, step 12).
abbrev pub IsDowngrade : ℕ → Text → Type 0
IsDowngrade status method =
    (((status ≡ 301) ⊎ (status ≡ 302)) × (method ≡ codes "POST"))
    ⊎ ((status ≡ 303) × (method ≢ codes "GET") × (method ≢ codes "HEAD"))

unequal : (a b : Text) → a ≢ b → text_eq a b ≡ false
unequal a b n = elim (Bool-cases (text_eq a b)) [
  | inl e ↦ absurd (n ((text_eq_iff a b).0 e))
  | inr e ↦ e
]

different : (a b : Text) → text_eq a b ≡ false → a ≢ b
different a b n e = absurd (cc (n, (text_eq_iff a b).1 e))

pub downgrades-IsDowngrade :
    (status : ℕ) (method : Text) → IsDowngrade status method → downgrades status method ≡ true
unfolding downgrades
downgrades-IsDowngrade status method (inl (inl s, m)) =
    rw (s, downgrades) ((text_eq_iff method (codes "POST")).1 m)
downgrades-IsDowngrade status method (inl (inr s, m)) =
    rw (s, downgrades) ((text_eq_iff method (codes "POST")).1 m)
downgrades-IsDowngrade status method (inr (s, g, h)) =
    rw (s, downgrades)
      (ground (arith, unequal method (codes "GET") g, unequal method (codes "HEAD") h))

pub downgrades_sound :
    (status : ℕ) (method : Text) → downgrades status method ≡ true → IsDowngrade status method
unfolding downgrades
downgrades_sound status method e = elim (Bool-cases (status == 301)) [
  | inl s ↦
      inl (inl (ground (arith, s)), (text_eq_iff method (codes "POST")).0 (ground (arith, e, s)))
  | inr s ↦ elim (Bool-cases (status == 302)) [
    | inl t ↦
        inl (inr (ground (arith, t)), (text_eq_iff method (codes "POST")).0 (ground (arith, e, t)))
    | inr t ↦ elim (Bool-cases (status == 303)) [
      | inl u ↦ inr (
        ground (arith, u),
        different method (codes "GET") (ground (arith, e, s, t, u)),
        different method (codes "HEAD") (ground (arith, e, s, t, u)),
      )
      | inr u ↦ absurd (ground (arith, e, s, t, u))
    ]
  ]
]
