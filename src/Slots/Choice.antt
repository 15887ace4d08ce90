-- ===== src/Slots/Choice.antt =====
-- Which waiter `next_waiter` picks, and what `pick` does with it.
use gosub_sonar.Prelude.{
  ℕ, suc, ◌<◌, ◌≡◌, refl, ap, ◌⊎◌, inl, inr, Bool, true, false, List, [], ◌∷◌, ◌++◌, none, some,
  arith, length, All, Option-cases, Bool-cases, ◌≢◌, sym, ◌∙◌, subst, ltb, ltb→lt,
}
use gosub_sonar.Slots.{
  SlotPool, State, Waiter, position, remove_at, next_in, next_waiter, lane_order, can_go, pick,
  set_lane,
}

module _ {ℓ} {A : Type ℓ} (test : A → Bool) where
  -- `position` splits its list at the first element that passes.
  pub record IsFirst (xs : List A) (i : ℕ) : Type ℓ where
    pub before : List A
    pub hit : A
    pub after : List A
    pub split : xs ≡ before ++ hit ∷ after
    pub index : length before ≡ i
    pub passes : test hit ≡ true
    pub skipped : All (λ x. test x ≡ false) before

  IsFirst-cons :
      (x : A) (xs : List A) (i : ℕ) → test x ≡ false → IsFirst xs i → IsFirst (x ∷ xs) (suc i)
  IsFirst-cons x xs i h f = record {
    before = x ∷ f.before;
    hit = f.hit;
    after = f.after;
    split = ap (◌∷◌ x) f.split;
    index = ap suc f.index;
    passes = f.passes;
    skipped = (h, f.skipped);
  }

  pub position-IsFirst : (xs : List A) (i : ℕ) → position test xs ≡ some i → IsFirst xs i
  unfolding position
  position-IsFirst [] i e = cc
  position-IsFirst (x ∷ xs) i e = elim (Bool-cases (test x)) [
    | inl passes ↦ record {
      before = [];
      hit = x;
      after = xs;
      split = refl;
      index = ground arith;
      passes = passes;
      skipped = tt;
    }
    | inr fails ↦ elim (Option-cases (position test xs)) [
      | inl missed ↦ absurd (ground arith)
      | inr (j, found) ↦
          let same : i ≡ suc j = ground arith in
          rw same (IsFirst-cons x xs j fails (position-IsFirst xs j found))
    ]
  ]

  pub position-none : (xs : List A) → position test xs ≡ none → All (λ x. test x ≡ false) xs
  unfolding position
  position-none [] e = tt
  position-none (x ∷ xs) e = ground (arith, position-none xs)

pub remove_at-append {ℓ} :
    {A : Type ℓ} (before after : List A) (x : A)
    → remove_at (length before) (before ++ x ∷ after) ≡ some (x, before ++ after)
unfolding remove_at
remove_at-append [] after x = refl
remove_at-append (y ∷ before) after x = rw (remove_at-append before after x)

abbrev pub NoneCanGo : SlotPool → State → ℕ → Type 0
NoneCanGo p s l = All (λ w. can_go p s w ≡ false) (s.lanes l)

-- The lanes in front of `l` in an order, and `l` itself in it.
abbrev pub IsReached : SlotPool → State → List ℕ → ℕ → Type 0
IsReached p s [] l = ⊥
IsReached p s (k ∷ ks) l = (k ≡ l) ⊎ (NoneCanGo p s k × IsReached p s ks l)

-- What a successful pick comes to: `w` stood in lane `lane` and leaves it.
pub record IsNext (p : SlotPool) (s : State) (w : Waiter) (t : State) : Type 0 where
  pub lane : ℕ
  pub before : List Waiter
  pub after : List Waiter
  pub free : 0 < s.global_free
  pub goes : can_go p s w ≡ true
  pub split : s.lanes lane ≡ before ++ w ∷ after
  pub skipped : All (λ v. can_go p s v ≡ false) before
  pub preferred : IsReached p s (lane_order s.turn) lane
  pub left : t.lanes lane ≡ before ++ after
  pub others : (l : ℕ) → l ≢ lane → t.lanes l ≡ s.lanes l
  pub rest : (t.global_free ≡ s.global_free) × (t.origins ≡ s.origins) × (t.turn ≡ s.turn)

next_in-some :
    (p : SlotPool) (s : State) (order : List ℕ) (l i : ℕ)
    → next_in p s order ≡ some (l, i)
    → IsReached p s order l × (position (can_go p s) (s.lanes l) ≡ some i)
unfolding next_in
next_in-some p s [] l i e = cc
next_in-some p s (k ∷ ks) l i e = elim (Option-cases (position (can_go p s) (s.lanes k))) [
  | inl missed ↦
      let rest = next_in-some p s ks l i (rw (missed, next_in) at e) in
      (inr (position-none _ _ missed, rest.0), rest.1)
  | inr (j, found) ↦
      let here : k ≡ l = ground arith in
      let index : j ≡ i = ground arith in (inl here, rw (← here, ← index) found)
]

next_in-none :
    (p : SlotPool) (s : State) (order : List ℕ)
    → next_in p s order ≡ none
    → All (NoneCanGo p s) order
unfolding next_in
next_in-none p s [] e = tt
next_in-none p s (k ∷ ks) e = elim (Option-cases (position (can_go p s) (s.lanes k))) [
  | inl missed ↦ (position-none _ _ missed, next_in-none p s ks (rw (missed, next_in) at e))
  | inr (j, found) ↦ absurd (ground arith)
]

set_lane_self : (lanes : ℕ → List Waiter) (l : ℕ) (ws : List Waiter) → set_lane lanes l ws l ≡ ws
unfolding set_lane
set_lane_self lanes l ws = ground arith

set_lane_ne :
    (lanes : ℕ → List Waiter) (l : ℕ) (ws : List Waiter) (k : ℕ)
    → k ≢ l
    → set_lane lanes l ws k ≡ lanes k
unfolding set_lane
set_lane_ne lanes l ws k h = ground arith

removed :
    (p : SlotPool) (s : State) (l i : ℕ) (f : IsFirst (can_go p s) (s.lanes l) i)
    → remove_at i (s.lanes l) ≡ some (f.hit, f.before ++ f.after)
removed p s l i f = rw (f.split, ← f.index) (remove_at-append f.before f.after f.hit)

-- What `pick` returns at a waiter that `next_waiter` names.
picked :
    (p : SlotPool) (s : State) (l i : ℕ)
    → 0 < s.global_free
    → next_waiter p s ≡ some (l, i)
    → (f : IsFirst (can_go p s) (s.lanes l) i)
    → pick p s ≡ some (f.hit, record s { lanes = set_lane s.lanes l (f.before ++ f.after) })
unfolding pick
picked p s l i free e f = ground (arith, removed p s l i f)

module _ (p : SlotPool) (s : State) (l i : ℕ) (free : 0 < s.global_free) where
  first_found :
      next_waiter p s ≡ some (l, i)
      → IsReached p s (lane_order s.turn) l × IsFirst (can_go p s) (s.lanes l) i
  unfolding next_waiter
  first_found e =
      let r = next_in-some p s (lane_order s.turn) l i e in (r.0, position-IsFirst _ _ i r.1)

  picked-IsNext :
      (found : next_waiter p s ≡ some (l, i))
      → let f = (first_found found).1 in
        IsNext p s f.hit (record s { lanes = set_lane s.lanes l (f.before ++ f.after) })
  picked-IsNext found =
      let (reached, f) = first_found found in
      record {
        lane = l;
        before = f.before;
        after = f.after;
        free = free;
        goes = f.passes;
        split = f.split;
        skipped = f.skipped;
        preferred = reached;
        left = set_lane_self s.lanes l _;
        others = λ k h. set_lane_ne s.lanes l _ k h;
        rest = (refl, refl, refl);
      }

-- `pick` takes out the first waiter that can go of the first lane, in this turn's order, that has
-- one; no other lane and no count changes.
pub pick-IsNext :
    (p : SlotPool) (s t : State) (w : Waiter) → pick p s ≡ some (w, t) → IsNext p s w t
unfolding pick
pick-IsNext p s t w e = elim (Option-cases (next_waiter p s)) [
  | inl missed ↦ absurd (ground arith)
  | inr ((l, i), found) ↦
      let free : 0 < s.global_free = ground arith in
      let f = (first_found p s l i free found).1 in
      let same = sym e ∙ picked p s l i free found f in
      let hit : f.hit ≡ w = cc same in
      let state : record s { lanes = set_lane s.lanes l (f.before ++ f.after) } ≡ t = cc same in
      subst (λ v. IsNext p s v t) hit
        (subst (IsNext p s f.hit) state (picked-IsNext p s l i free found))
]

lane_order-All : (P : ℕ → Type 0) (turn : ℕ) → All P (lane_order turn) → All P (0 ∷ 1 ∷ 2 ∷ 3 ∷ [])
unfolding lane_order
lane_order-All P turn h = ground arith

-- `pick` fails only when no global slot is free, or no waiter of any lane can go.
pub pick-none :
    (p : SlotPool) (s : State)
    → pick p s ≡ none
    → (s.global_free ≡ 0) ⊎ All (NoneCanGo p s) (0 ∷ 1 ∷ 2 ∷ 3 ∷ [])
unfolding pick next_waiter
pick-none p s e = elim (Bool-cases (ltb 0 s.global_free)) [
  | inr full ↦ inl (ground arith)
  | inl free ↦ elim (Option-cases (next_waiter p s)) [
    | inl missed ↦ inr (lane_order-All (NoneCanGo p s) s.turn (next_in-none p s _ missed))
    | inr ((l, i), found) ↦
        let f = (first_found p s l i (ltb→lt _ _ free) found).1 in
        absurd (cc (e, picked p s l i (ltb→lt _ _ free) found f))
  ]
]
