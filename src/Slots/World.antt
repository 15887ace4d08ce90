-- ===== src/Slots/World.antt =====
-- The slot pool under any sequence of operations: what every reachable state has in common.
use mathlib.Core.Path.{fun_ext}
use gosub_sonar.Prelude.{
  ℕ, ◌<◌, ◌≡◌, refl, ap, ◌∙◌, inl, inr, Bool, true, false, List, [], ◌∷◌, ◌++◌, arith, length,
  length-append, Bool-cases, Text, text_eq_iff, text_eq_refl, unwrap_or, subst, sym, ◌⊎◌, All,
}
use gosub_sonar.Slots.{
  SlotPool, State, Waiter, Slots, Priority, in_use_of, limit_of, grant, enqueue, release,
  drop_slots, observe, new, set_origin, new_origin, can_go,
}
use gosub_sonar.Slots.Choice.{pick-none}
use gosub_sonar.Slots.Progress.{grant-settles}
use gosub_sonar.Slots.Counts.{
  Inv, count, count-append, give_back-Inv, Inv-same, grant-Inv, origins_of,
}

-- The pool with the origins of the `Slots` values that are alive.
pub record World : Type 0 where
  pub pool : SlotPool
  pub held : List Text

abbrev pub after : List Text → SlotPool × List Slots → World
after held r = record { pool = r.0; held = origins_of r.1 ++ held }

-- Any task may join the line, drop a `Slots` value that is alive, or report a response; what the
-- receivers do meanwhile (`is_closed`, `accepts`) is anyone's choice.
pub data Step (w : World) : World → Type 0 where
  enqueues :
      (is_closed accepts : ℕ → Bool) (key : Text) (priority : Priority) (tx : ℕ)
      → Step w (after w.held (enqueue is_closed accepts w.pool key priority tx))
  drops :
      (is_closed accepts : ℕ → Bool) (before after_it : List Text) (slots : Slots)
      → slots.armed ≡ true
      → w.held ≡ before ++ slots.origin ∷ after_it
      → Step w (after (before ++ after_it) (drop_slots is_closed accepts w.pool slots))
  observes :
      (is_closed accepts : ℕ → Bool) (key : Text) (multiplexed : Bool)
      → Step w (after w.held (observe is_closed accepts w.pool key multiplexed))

pub data Reach (start : World) : World → Type 0 where
  here : Reach start start
  next : {v w : World} → Reach start v → Step v w → Reach start w

abbrev pub IsSound : ℕ → World → Type 0
IsSound capacity w = Inv w.pool capacity w.pool.state w.held

Inv-with_state :
    (p : SlotPool) (capacity : ℕ) (s t : State) (held : List Text)
    → Inv p capacity s held
    → Inv (record p { state = t }) capacity s held
unfolding limit_of
Inv-with_state p capacity s t held v = record {
  total = v.total;
  counts = v.counts;
  bounded = v.bounded;
  in_cycle = v.in_cycle;
}

module _ (p : SlotPool) (capacity : ℕ) where
  set_h2-Inv :
      (s : State) (held : List Text) (key : Text)
      → Inv p capacity s held
      → Inv p capacity
          (record s {
            origins =
                set_origin s.origins key
                  (record (unwrap_or (s.origins key) new_origin) { h2 = true });
          })
          held
  unfolding set_origin in_use_of limit_of
  set_h2-Inv s held key v = record {
    total = v.total;
    counts = λ k. ground (arith, v.counts k, text_eq_iff k key);
    bounded = λ k. ground (arith, v.bounded k, text_eq_iff k key);
    in_cycle = v.in_cycle;
  }

  touch-Inv :
      (s : State) (held : List Text) (key : Text)
      → Inv p capacity s held
      → Inv p capacity
          (record s { origins = set_origin s.origins key (unwrap_or (s.origins key) new_origin) })
          held
  unfolding set_origin in_use_of limit_of
  touch-Inv s held key v = record {
    total = v.total;
    counts = λ k. ground (arith, v.counts k, text_eq_iff k key);
    bounded = λ k. ground (arith, v.bounded k, text_eq_iff k key);
    in_cycle = v.in_cycle;
  }

module _ (p : SlotPool) (capacity : ℕ) (is_closed accepts : ℕ → Bool) where
  granted-IsSound :
      (s : State) (held : List Text)
      → Inv p capacity s held
      → let r = grant p is_closed accepts s in
        IsSound capacity (after held (record p { state = r.0 }, r.1))
  granted-IsSound s held v =
      let r = grant p is_closed accepts s in
      Inv-with_state p capacity r.0 r.0 (origins_of r.1 ++ held)
        (grant-Inv p capacity accepts is_closed s held v)

count-middle : (j k : Text) (xs ys : List Text) → count k (xs ++ j ∷ ys) ≡ count k (j ∷ xs ++ ys)
unfolding count
count-middle j k xs ys = omega (arith, count-append k xs (j ∷ ys), count-append k xs ys)

lanes-Inv :
    (p : SlotPool) (capacity : ℕ) (s : State) (lanes : ℕ → List Waiter) (held : List Text)
    → Inv p capacity s held
    → Inv p capacity (record s { lanes = lanes }) held
unfolding in_use_of limit_of
lanes-Inv p capacity s lanes held v = record {
  total = v.total;
  counts = v.counts;
  bounded = v.bounded;
  in_cycle = v.in_cycle;
}

module _ (capacity : ℕ) (w : World) (is_closed accepts : ℕ → Bool) (h : IsSound capacity w) where
  drop-IsSound :
      (before after_it : List Text) (slots : Slots)
      → slots.armed ≡ true
      → w.held ≡ before ++ slots.origin ∷ after_it
      → IsSound capacity (after (before ++ after_it) (drop_slots is_closed accepts w.pool slots))
  unfolding drop_slots release
  drop-IsSound before after_it slots armed e =
      rw (armed, drop_slots)
        (granted-IsSound w.pool capacity is_closed accepts _ (before ++ after_it) (
          give_back-Inv w.pool.state (before ++ after_it) slots.origin (
            Inv-same w.pool.state w.held (slots.origin ∷ before ++ after_it)
              (λ k. ap (count k) e ∙ count-middle slots.origin k before after_it)
              (omega (
                arith,
                ap length e,
                length-append before (slots.origin ∷ after_it),
                length-append before after_it,
              ))
              h)))

  observe-IsSound :
      (key : Text) → IsSound capacity (after w.held (observe is_closed accepts w.pool key true))
  unfolding observe
  observe-IsSound key =
      let o = unwrap_or (w.pool.state.origins key) new_origin in
      elim (Bool-cases o.h2) [
        | inl already ↦
            rw (already, observe)
              (Inv-with_state w.pool capacity _ _ w.held
                (touch-Inv w.pool capacity w.pool.state w.held key h))
        | inr first ↦
            rw (first, observe)
              (granted-IsSound w.pool capacity is_closed accepts _ w.held
                (set_h2-Inv w.pool capacity w.pool.state w.held key h))
      ]

-- Every step keeps the accounting.
pub Step-IsSound : (capacity : ℕ) {v w : World} → Step v w → IsSound capacity v → IsSound capacity w
unfolding enqueue observe
Step-IsSound capacity {v} (enqueues is_closed accepts key priority tx) h =
    granted-IsSound v.pool capacity is_closed accepts _ v.held
      (lanes-Inv v.pool capacity _ _ v.held h)
Step-IsSound capacity {v} (drops is_closed accepts before after_it slots armed e) h =
    drop-IsSound capacity v is_closed accepts h before after_it slots armed e
Step-IsSound capacity {v} (observes is_closed accepts key false) h = h
Step-IsSound capacity {v} (observes is_closed accepts key true) h =
    observe-IsSound capacity v is_closed accepts h key

abbrev pub fresh : ℕ → ℕ → ℕ → World
fresh capacity h1 h2 = record { pool = new capacity h1 h2; held = [] }

fresh-IsSound : (capacity h1 h2 : ℕ) → IsSound capacity (fresh capacity h1 h2)
unfolding new in_use_of limit_of count
fresh-IsSound capacity h1 h2 = record {
  total = omega arith;
  counts = λ k. refl;
  bounded = λ k. omega arith;
  in_cycle = omega arith;
}

-- In every state that a new pool of `capacity` global slots can reach, each origin's count is the
-- number of live `Slots` values for it and at most its limit, and the free global slots and the
-- live values add up to `capacity`.
pub Reach-IsSound :
    (capacity h1 h2 : ℕ) {w : World} → Reach (fresh capacity h1 h2) w → IsSound capacity w
Reach-IsSound capacity h1 h2 here = fresh-IsSound capacity h1 h2
Reach-IsSound capacity h1 h2 (next r st) = Step-IsSound capacity st (Reach-IsSound capacity h1 h2 r)

-- A value that is dropped while it is alive finds its origin's count above 0, so the subtraction of
-- `release` does not underflow.
pub Reach-drop_pos :
    (capacity h1 h2 : ℕ) {w : World} (before after_it : List Text) (key : Text)
    → Reach (fresh capacity h1 h2) w
    → w.held ≡ before ++ key ∷ after_it
    → 0 < in_use_of w.pool.state key
unfolding count
Reach-drop_pos capacity h1 h2 {w} before after_it key r e =
    let v = Reach-IsSound capacity h1 h2 r in
    ground (
      arith,
      v.counts key,
      ap (count key) e,
      count-append key before (key ∷ after_it),
      text_eq_refl key,
    )

-- No waiter could be served: no global slot is free, or every waiter's origin is at its limit.
abbrev pub IsSettled : World → Type 0
IsSettled w =
    (w.pool.state.global_free ≡ 0)
    ⊎ All (λ l. All (λ v. can_go w.pool w.pool.state v ≡ false) (w.pool.state.lanes l))
        (0 ∷ 1 ∷ 2 ∷ 3 ∷ [])

grant-IsSettled :
    (p : SlotPool) (is_closed accepts : ℕ → Bool) (s : State) (held : List Text)
    → let r = grant p is_closed accepts s in IsSettled (after held (record p { state = r.0 }, r.1))
unfolding can_go in_use_of limit_of
grant-IsSettled p is_closed accepts s held = pick-none p _ (grant-settles p is_closed accepts s)

touch_same :
    (s : State) (key : Text)
    → (unwrap_or (s.origins key) new_origin).h2 ≡ true
    → set_origin s.origins key (unwrap_or (s.origins key) new_origin) ≡ s.origins
unfolding set_origin
touch_same s key h = fun_ext λ k. ground (arith, text_eq_iff k key, ap s.origins)

-- Every operation leaves the pool settled if it was so before.
Step-IsSettled : {v w : World} → Step v w → IsSettled v → IsSettled w
unfolding enqueue observe drop_slots release
Step-IsSettled {v} (enqueues is_closed accepts key priority tx) h =
    grant-IsSettled v.pool is_closed accepts _ v.held
Step-IsSettled {v} (drops is_closed accepts before after_it slots armed e) h =
    rw (armed, drop_slots) (grant-IsSettled v.pool is_closed accepts _ (before ++ after_it))
Step-IsSettled (observes is_closed accepts key false) h = h
Step-IsSettled {v} (observes is_closed accepts key true) h =
    let s = v.pool.state in
    elim (Bool-cases (unwrap_or (s.origins key) new_origin).h2) [
      | inl already ↦
          rw (already, observe)
            (subst
              (λ m. IsSettled (record {
                pool = record v.pool { state = record s { origins = m } };
                held = v.held;
              }))
              (sym (touch_same s key already)) h)
      | inr first ↦ rw (first, observe) (grant-IsSettled v.pool is_closed accepts _ v.held)
    ]

fresh-IsSettled : (capacity h1 h2 : ℕ) → IsSettled (fresh capacity h1 h2)
unfolding new
fresh-IsSettled capacity h1 h2 = inr (tt, (tt, (tt, (tt, tt))))

-- No slot is left idle: in every reachable state either no global slot is free, or each waiter of
-- each lane is for an origin that is at its limit.
pub Reach-IsSettled :
    (capacity h1 h2 : ℕ) {w : World} → Reach (fresh capacity h1 h2) w → IsSettled w
Reach-IsSettled capacity h1 h2 here = fresh-IsSettled capacity h1 h2
Reach-IsSettled capacity h1 h2 (next r st) = Step-IsSettled st (Reach-IsSettled capacity h1 h2 r)
