-- ===== src/Examples/SlotsRuns.antt =====
-- The slot pool of src/net/slots.rs at work.
use gosub_sonar.Prelude.{
  ℕ, ◌≡◌, refl, Bool, true, false, List, [], ◌∷◌, ◌++◌, none, some, Text, codes, arith,
  if◌then◌else◌, ◌==◌,
}
use gosub_sonar.Slots.{
  SlotPool, State, Waiter, Slots, high, low, enqueue, grant, new, pick, in_use_of, lane_order,
  grant_loop, serve, take_slot, set_lane, next_waiter, next_in, position, can_go, limit_of,
  remove_at,
}
use gosub_sonar.Slots.Choice.{IsNext, pick-IsNext}
use gosub_sonar.Slots.Turns.{occurrences, lane_order-once}
use gosub_sonar.Slots.World.{
  World, after, Reach, here, next, enqueues, fresh, IsSound, IsSettled, Reach-IsSound,
  Reach-IsSettled,
}

abbrev key : Text
key = codes "a"

abbrev nobody : ℕ → Bool
nobody c = false

abbrev everyone : ℕ → Bool
everyone c = true

-- One global slot: the first fetch takes it, and the second one waits.
abbrev one_served : World
one_served = after [] (enqueue nobody everyone (new 1 6 32) key high 7)

abbrev one_waits : World
one_waits = after one_served.held (enqueue nobody everyone one_served.pool key low 8)

reached_one : Reach (fresh 1 6 32) one_served
reached_one = next here (enqueues nobody everyone key high 7)

reached_two : Reach (fresh 1 6 32) one_waits
reached_two = next reached_one (enqueues nobody everyone key low 8)

one_served-held : one_served.held ≡ [] ++ key ∷ []
unfolding enqueue grant grant_loop gosub_sonar.Slots.waiting gosub_sonar.Slots.drop_closed set_lane
    gosub_sonar.Slots.lane new pick next_waiter next_in lane_order position can_go in_use_of
    limit_of remove_at serve
one_served-held = refl

Reach-IsSound_example : IsSound 1 one_waits
Reach-IsSound_example = Reach-IsSound 1 6 32 reached_two

Reach-IsSettled_example : IsSettled one_waits
Reach-IsSettled_example = Reach-IsSettled 1 6 32 reached_two

abbrev waiter : Waiter
waiter = record { origin = key; tx = 3 }

abbrev lanes_with : List Waiter → ℕ → List Waiter
lanes_with ws i = if i == 2 then ws else []

-- A waiter of the lane of `low`, and one global slot.
abbrev waiting_state : State
waiting_state = record {
  global_free = 1;
  origins = λ k. none;
  lanes = lanes_with (waiter ∷ []);
  turn = 0;
}

abbrev emptied : State
emptied = record waiting_state { lanes = set_lane waiting_state.lanes 2 [] }

picked : pick (new 1 6 32) waiting_state ≡ some (waiter, emptied)
unfolding pick next_waiter next_in lane_order position can_go in_use_of limit_of new remove_at
picked = refl

pick-IsNext_example : IsNext (new 1 6 32) waiting_state waiter emptied
pick-IsNext_example = pick-IsNext (new 1 6 32) waiting_state emptied waiter picked

lane_order-once_example : occurrences 2 (lane_order 9) ≡ 1
lane_order-once_example = lane_order-once 9 2 (omega arith)
