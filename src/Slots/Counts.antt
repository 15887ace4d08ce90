-- ===== src/Slots/Counts.antt =====
-- The accounting of the slots: the pool's counts against the `Slots` values that are alive.
use mathlib.Core.List.{map-append}
use gosub_sonar.Prelude.{
  ℕ, zero, suc, ◌+◌, ◌-◌, ◌<◌, ◌≤◌, ◌≡◌, inl, inr, Bool, true, List, [], ◌∷◌, ◌++◌, arith, length,
  length-append, Option-cases, map, ◌∙◌, Text, text_eq, text_eq_iff, if◌then◌else◌,
}
use gosub_sonar.Slots.{
  SlotPool, State, Waiter, Slots, can_go, pick, in_use_of, limit_of, take_slot, give_back, serve,
  grant_loop, grant, drop_closed, set_origin,
}
use gosub_sonar.Slots.Choice.{IsNext, pick-IsNext}

-- How often a key occurs.
unfoldable pub count : Text → List Text → ℕ
count k [] = 0
count k (j ∷ js) = (if text_eq k j then 1 else 0) + count k js

pub count-append : (k : Text) (xs ys : List Text) → count k (xs ++ ys) ≡ count k xs + count k ys
unfolding count
count-append k [] ys = omega arith
count-append k (x ∷ xs) ys = omega (arith, count-append k xs ys)

-- `held` are the origins of the live `Slots` values, and `capacity` is the configured `global_slots`:
-- every slot is free or held, an origin's count is what it holds, and no origin is past its limit.
pub record Inv (p : SlotPool) (capacity : ℕ) (s : State) (held : List Text) : Type 0 where
  pub total : s.global_free + length held ≡ capacity
  pub counts : (k : Text) → in_use_of s k ≡ count k held
  pub bounded : (k : Text) → in_use_of s k ≤ limit_of p s k
  pub in_cycle : s.turn < 15

in_use_of-take_slot :
    (s : State) (k j : Text)
    → in_use_of (take_slot s k) j ≡ (if text_eq j k then 1 else 0) + in_use_of s j
unfolding in_use_of take_slot set_origin
in_use_of-take_slot s k j = ground (arith, text_eq_iff j k)

limit_of-take_slot :
    (p : SlotPool) (s : State) (k j : Text) → limit_of p (take_slot s k) j ≡ limit_of p s j
unfolding limit_of take_slot set_origin
limit_of-take_slot p s k j = ground (arith, text_eq_iff j k)

in_use_of-give_back :
    (s : State) (k j : Text)
    → in_use_of (give_back s k) j ≡ (if text_eq j k then in_use_of s j - 1 else in_use_of s j)
unfolding in_use_of give_back set_origin
in_use_of-give_back s k j = ground (arith, text_eq_iff j k)

limit_of-give_back :
    (p : SlotPool) (s : State) (k j : Text) → limit_of p (give_back s k) j ≡ limit_of p s j
unfolding limit_of give_back set_origin
limit_of-give_back p s k j = ground (arith, text_eq_iff j k)

module _ {p : SlotPool} {capacity : ℕ} where
  pub take_slot-Inv :
      (s : State) (held : List Text) (w : Waiter)
      → 0 < s.global_free
      → can_go p s w ≡ true
      → Inv p capacity s held
      → Inv p capacity (take_slot s w.origin) (w.origin ∷ held)
  unfolding count can_go
  take_slot-Inv s held w free goes v = record {
    total = unfold take_slot in omega (arith, v.total);
    counts = λ j. ground (arith, in_use_of-take_slot s w.origin j, v.counts j);
    bounded = λ j. ground (
      arith,
      in_use_of-take_slot s w.origin j,
      limit_of-take_slot p s w.origin j,
      text_eq_iff j w.origin,
      v.bounded j,
    );
    in_cycle = unfold take_slot in omega arith;
  }

  pub give_back-Inv :
      (s : State) (held : List Text) (k : Text)
      → Inv p capacity s (k ∷ held)
      → Inv p capacity (give_back s k) held
  unfolding count
  give_back-Inv s held k v = record {
    total = unfold give_back in ground (arith, v.total);
    counts = λ j. ground (arith, in_use_of-give_back s k j, v.counts j, text_eq_iff j k);
    bounded =
        λ j. ground (arith, in_use_of-give_back s k j, limit_of-give_back p s k j, v.bounded j);
    in_cycle = unfold give_back in ground (arith, v.in_cycle);
  }

  -- The order of the live values does not matter.
  pub Inv-same :
      (s : State) (xs ys : List Text)
      → ((k : Text) → count k xs ≡ count k ys)
      → length xs ≡ length ys
      → Inv p capacity s xs
      → Inv p capacity s ys
  Inv-same s xs ys same len v = record {
    total = omega (arith, v.total);
    counts = λ k. v.counts k ∙ same k;
    bounded = v.bounded;
    in_cycle = v.in_cycle;
  }

abbrev pub origins_of : List Slots → List Text
origins_of = map (λ x. x.origin)

count-regroup :
    (xs ys : List Slots) (held : List Text) (k : Text)
    → count k (origins_of ys ++ (origins_of xs ++ held)) ≡ count k (origins_of (xs ++ ys) ++ held)
count-regroup xs ys held k = rw (map-append (λ x. x.origin) xs ys) (
    omega (
      arith,
      count-append k (origins_of ys) (origins_of xs ++ held),
      count-append k (origins_of xs) held,
      count-append k (origins_of xs ++ origins_of ys) held,
      count-append k (origins_of xs) (origins_of ys),
    ))

length-regroup :
    (xs ys : List Slots) (held : List Text)
    → length (origins_of ys ++ (origins_of xs ++ held)) ≡ length (origins_of (xs ++ ys) ++ held)
length-regroup xs ys held = rw (map-append (λ x. x.origin) xs ys) (
    omega (
      arith,
      length-append (origins_of ys) (origins_of xs ++ held),
      length-append (origins_of xs) held,
      length-append (origins_of xs ++ origins_of ys) held,
      length-append (origins_of xs) (origins_of ys),
    ))

module _ (p : SlotPool) (capacity : ℕ) (accepts : ℕ → Bool) where
  serve-Inv :
      (s : State) (held : List Text) (w : Waiter)
      → 0 < s.global_free
      → can_go p s w ≡ true
      → Inv p capacity s held
      → Inv p capacity (serve accepts w s).0 (origins_of (serve accepts w s).1 ++ held)
  unfolding serve
  serve-Inv s held w free goes v =
      let taken = take_slot-Inv s held w free goes v in
      ground (arith, taken, give_back-Inv (take_slot s w.origin) held w.origin taken)

  picked-Inv :
      (s t : State) (held : List Text) (w : Waiter)
      → IsNext p s w t
      → Inv p capacity s held
      → Inv p capacity t held × (0 < t.global_free) × (can_go p t w ≡ true)
  unfolding in_use_of limit_of can_go
  picked-Inv s t held w n v = (
    record {
      total = omega (arith, n.rest.0, v.total);
      counts = λ k. ground (arith, n.rest.1, v.counts k);
      bounded = λ k. ground (arith, n.rest.1, v.bounded k);
      in_cycle = omega (arith, n.rest.2, v.in_cycle);
    },
    omega (arith, n.rest.0, n.free),
    ground (arith, n.rest.1, n.goes),
  )

  grant_loop-Inv :
      (fuel : ℕ) (s : State) (held : List Text)
      → Inv p capacity s held
      → Inv p capacity
          (grant_loop p accepts fuel s).0
          (origins_of (grant_loop p accepts fuel s).1 ++ held)
  unfolding grant_loop
  grant_loop-Inv zero s held v = v
  grant_loop-Inv (suc fuel) s held v = elim (Option-cases (pick p s)) [
    | inl nobody ↦ rw (nobody, grant_loop) v
    | inr ((w, t), found) ↦
        let moved = picked-Inv s t held w (pick-IsNext p s t w found) v in
        let served = serve-Inv t held w moved.1 moved.2 moved.0 in
        let rest = grant_loop-Inv fuel _ _ served in
        let out = (serve accepts w t).1 in
        let later = (grant_loop p accepts fuel (serve accepts w t).0).1 in
        rw (found, grant_loop)
          (Inv-same _ _ _ (count-regroup out later held) (length-regroup out later held) rest)
  ]

  pub grant-Inv :
      (is_closed : ℕ → Bool) (s : State) (held : List Text)
      → Inv p capacity s held
      → Inv p capacity
          (grant p is_closed accepts s).0
          (origins_of (grant p is_closed accepts s).1 ++ held)
  unfolding grant drop_closed in_use_of limit_of
  grant-Inv is_closed s held v =
      grant_loop-Inv _ (drop_closed is_closed s) held
        (record { total = v.total; counts = v.counts; bounded = v.bounded; in_cycle = v.in_cycle })
