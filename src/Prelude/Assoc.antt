-- ===== src/Prelude/Assoc.antt =====
-- A hash map as a list of pairs, over keys with a Boolean equality. `insert` and `remove` leave no
-- second pair of the key, as in a map; the order of the pairs stands for the iteration order.
use Prim.Native.Nat.{suc, ◌≤◌}
use mathlib.Core.Path.{◌≡◌, refl, ◌∙◌}
use mathlib.Core.Logic.{◌↔◌, inl, inr}
use mathlib.Core.Bool.{Bool, true, false}
use mathlib.Core.List.{List, [], ◌∷◌}
use mathlib.Core.Option.{Option, none, some}
use native.Mathlib.Omega.{arith}
use gosub_sonar.Prelude.Tests.{if◌then◌else◌, Bool-cases}
use gosub_sonar.Prelude.Lists.{length, retain}

pub record KeyType {ℓ} (A : Type ℓ) : Type ℓ where
  pub is_same : A → A → Bool
  pub is_same_iff : (a b : A) → (is_same a b ≡ true) ↔ (a ≡ b)

module _ {ℓ κ} {K : Type ℓ} {V : Type κ} ⦃e : KeyType K⦄ where
  unfoldable pub lookup : K → List (K × V) → Option V
  lookup k [] = none
  lookup k ((j, v) ∷ m) = if e.is_same j k then some v else lookup k m

  unfoldable pub contains : K → List (K × V) → Bool
  contains k [] = false
  contains k ((j, v) ∷ m) = if e.is_same j k then true else contains k m

  unfoldable pub remove : K → List (K × V) → List (K × V)
  remove k [] = []
  remove k ((j, v) ∷ m) = if e.is_same j k then remove k m else (j, v) ∷ remove k m

  unfoldable pub insert : K → V → List (K × V) → List (K × V)
  unfolding remove
  insert k v m = (k, v) ∷ remove k m

  pub lookup-remove :
      (k j : K) (m : List (K × V))
      → lookup j (remove k m) ≡ (if e.is_same k j then none else lookup j m)
  unfolding lookup remove
  lookup-remove k j [] = ground arith
  lookup-remove k j ((i, v) ∷ m) =
      ground (arith, lookup-remove k j m, e.is_same_iff i k, e.is_same_iff i j, e.is_same_iff k j)

  pub lookup-insert :
      (k j : K) (v : V) (m : List (K × V))
      → lookup j (insert k v m) ≡ (if e.is_same k j then some v else lookup j m)
  unfolding insert lookup
  lookup-insert k j v m = ground (arith, lookup-remove k j m)

  pub length-remove-le : (k : K) (m : List (K × V)) → length (remove k m) ≤ length m
  unfolding remove
  length-remove-le k [] = omega arith
  length-remove-le k ((i, v) ∷ m) = ground (arith, length-remove-le k m)

  pub length-remove-lt :
      (k : K) (m : List (K × V)) → contains k m ≡ true → suc (length (remove k m)) ≤ length m
  unfolding remove contains
  length-remove-lt k [] h = cc
  length-remove-lt k ((i, v) ∷ m) h = ground (arith, length-remove-lt k m, length-remove-le k m)

  -- Every key occurs once, as in a map.
  abbrev pub IsMap : List (K × V) → Type 0
  IsMap [] = Unit
  IsMap ((k, v) ∷ m) = (contains k m ≡ false) × IsMap m

  pub contains-remove :
      (k j : K) (m : List (K × V))
      → contains j (remove k m) ≡ (if e.is_same k j then false else contains j m)
  unfolding contains remove
  contains-remove k j [] = ground arith
  contains-remove k j ((i, v) ∷ m) =
      ground (arith, contains-remove k j m, e.is_same_iff i k, e.is_same_iff i j, e.is_same_iff k j)

  pub remove-IsMap : (k : K) (m : List (K × V)) → IsMap m → IsMap (remove k m)
  unfolding remove
  remove-IsMap k [] h = tt
  remove-IsMap k ((i, v) ∷ m) h = ground (arith, remove-IsMap k m h.1, contains-remove k i m)

  pub insert-IsMap : (k : K) (v : V) (m : List (K × V)) → IsMap m → IsMap (insert k v m)
  unfolding insert
  insert-IsMap k v m h =
      (contains-remove k k m ∙ rw ((e.is_same_iff k k).1 refl) refl, remove-IsMap k m h)

  pub contains-retain :
      (p : K × V → Bool) (k : K) (m : List (K × V))
      → contains k m ≡ false
      → contains k (retain p m) ≡ false
  unfolding contains
  contains-retain p k [] h = refl
  contains-retain p k ((i, v) ∷ m) h = ground (arith, contains-retain p k m)

  pub retain-IsMap : (p : K × V → Bool) (m : List (K × V)) → IsMap m → IsMap (retain p m)
  retain-IsMap p [] h = tt
  retain-IsMap p ((i, v) ∷ m) h = ground (arith, retain-IsMap p m h.1, contains-retain p i m h.0)

  pub lookup-eq-none : (k : K) (m : List (K × V)) → contains k m ≡ false → lookup k m ≡ none
  unfolding lookup contains
  lookup-eq-none k [] h = refl
  lookup-eq-none k ((i, v) ∷ m) h = ground (arith, lookup-eq-none k m)

  -- A test on the values alone keeps exactly the entries that pass.
  pub lookup-retain :
      (test : V → Bool) (k : K) (v : V) (m : List (K × V))
      → IsMap m
      → lookup k m ≡ some v
      → lookup k (retain (λ p. test p.1) m) ≡ (if test v then some v else none)
  unfolding lookup
  lookup-retain test k v [] h l = cc
  lookup-retain test k v ((i, w) ∷ m) h l = ground (
    arith,
    lookup-retain test k v m h.1,
    e.is_same_iff i k,
    lookup-eq-none k (retain (λ p. test p.1) m),
    contains-retain (λ p. test p.1) i m h.0,
  )

  pub lookup-cons_self : (k : K) (v : V) (m : List (K × V)) → lookup k ((k, v) ∷ m) ≡ some v
  unfolding lookup
  lookup-cons_self k v m = ground (arith, e.is_same_iff k k)

  -- A new pair in front does not hide the other keys.
  pub lookup-cons_fresh :
      (i k : K) (v w : V) (m : List (K × V))
      → contains i m ≡ false
      → lookup k m ≡ some w
      → lookup k ((i, v) ∷ m) ≡ some w
  unfolding lookup
  lookup-cons_fresh i k v w m h l = elim (Bool-cases (e.is_same i k)) [
    | inr other ↦ rw other l
    | inl same ↦ absurd (cc (l, lookup-eq-none k m (rw (← (e.is_same_iff i k).0 same) h)))
  ]
