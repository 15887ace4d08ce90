-- ===== src/Slots/Progress.antt =====
-- `grant` goes on until no waiter can be served, and its fuel is enough for that.
use gosub_sonar.Prelude.{
  ℕ, zero, suc, ◌<◌, ◌≤◌, ◌≡◌, refl, ap, inl, inr, Bool, List, ◌∷◌, ◌++◌, none, arith, length,
  length-append, Option-cases,
}
use gosub_sonar.Slots.{
  SlotPool, State, Waiter, lane_order, pick, serve, take_slot, give_back, grant_loop, grant,
  waiting,
}
use gosub_sonar.Slots.Choice.{IsNext, IsReached, pick-IsNext}

lane-lt : (p : SlotPool) (s : State) (turn l : ℕ) → IsReached p s (lane_order turn) l → l < 4
unfolding lane_order
lane-lt p s turn l h = ground arith

length-middle {ℓ} :
    {A : Type ℓ} (xs ys : List A) (x : A) → length (xs ++ x ∷ ys) ≡ suc (length (xs ++ ys))
length-middle xs ys x = omega (arith, length-append xs (x ∷ ys), length-append xs ys)

-- A pick takes one waiter out of the lanes.
IsNext-waiting :
    (p : SlotPool) (s t : State) (w : Waiter) → IsNext p s w t → suc (waiting t) ≡ waiting s
unfolding waiting
IsNext-waiting p s t w n = ground (
  arith,
  lane-lt p s s.turn n.lane n.preferred,
  ap length n.left,
  ap length n.split,
  length-middle n.before n.after w,
  n.others 0,
  n.others 1,
  n.others 2,
  n.others 3,
)

serve-lanes : (accepts : ℕ → Bool) (w : Waiter) (s : State) → (serve accepts w s).0.lanes ≡ s.lanes
unfolding serve take_slot give_back
serve-lanes accepts w s = ground arith

waiting-lanes : (s t : State) → s.lanes ≡ t.lanes → waiting s ≡ waiting t
unfolding waiting
waiting-lanes s t e = rw e refl

module _ (p : SlotPool) (accepts : ℕ → Bool) where
  grant_loop-settles :
      (fuel : ℕ) (s : State) → waiting s ≤ fuel → pick p (grant_loop p accepts fuel s).0 ≡ none
  unfolding grant_loop
  grant_loop-settles zero s h = elim (Option-cases (pick p s)) [
    | inl nobody ↦ nobody
    | inr ((w, t), found) ↦
        absurd (omega (arith, IsNext-waiting p s t w (pick-IsNext p s t w found)))
  ]
  grant_loop-settles (suc fuel) s h = elim (Option-cases (pick p s)) [
    | inl nobody ↦ rw (nobody, grant_loop) nobody
    | inr ((w, t), found) ↦
        rw (found, grant_loop)
          (grant_loop-settles fuel (serve accepts w t).0 (
            omega (
              arith,
              waiting-lanes (serve accepts w t).0 t (serve-lanes accepts w t),
              IsNext-waiting p s t w (pick-IsNext p s t w found),
            )))
  ]

-- The loop of `grant` ends with no waiter left that could be served: the fuel is enough.
pub grant-settles :
    (p : SlotPool) (is_closed accepts : ℕ → Bool) (s : State)
    → pick p (grant p is_closed accepts s).0 ≡ none
unfolding grant
grant-settles p is_closed accepts s = grant_loop-settles p accepts _ _ (omega arith)
