-- ===== src/Slots.antt =====
-- src/net/slots.rs: the global and per-origin connection slots, and the fetches that wait for them.
--
-- An operation takes the pool's state and returns the new one with the `Slots` values that it
-- handed out. The map of origins is a function to `Option`; a lane is a list with its front first;
-- a waiter's channel is a number, and what the receiving side has done meanwhile is an argument:
-- `is_closed` answers the first test of `grant`, `accepts` the later `send`.
-- The lock is held throughout each operation, so the operations are atomic steps.
pub mod Choice
pub mod Counts
pub mod Progress
pub mod Turns
pub mod World
use gosub_sonar.Prelude.{
  ℕ, zero, suc, ◌+◌, ◌-◌, ◌%◌, ◌≡◌, Bool, true, false, not, ◌&&◌, List, [], ◌∷◌, ◌++◌, Option, none,
  some, Text, text_eq, if◌then◌else◌, ltb, leb, ◌==◌, max, length, retain, ◌>>=◌, unwrap_or,
  is_some,
}

pub data Priority : Type 0 where
  high normal low idle : Priority

pub record Origin : Type 0 where
  pub in_use : ℕ
  pub h2 : Bool

pub record Waiter : Type 0 where
  pub origin : Text
  pub tx : ℕ

pub record State : Type 0 where
  pub global_free : ℕ
  pub origins : Text → Option Origin
  pub lanes : ℕ → List Waiter
  pub turn : ℕ

pub record SlotPool : Type 0 where
  pub h1_per_origin : ℕ
  pub h2_per_origin : ℕ
  pub state : State

pub record Slots : Type 0 where
  pub origin : Text
  pub armed : Bool

unfoldable pub lane_order : ℕ → List ℕ
lane_order turn =
    if leb turn 7
    then 0 ∷ 1 ∷ 2 ∷ 3 ∷ []
    else if leb turn 11
    then 1 ∷ 0 ∷ 2 ∷ 3 ∷ []
    else if leb turn 13
    then 2 ∷ 1 ∷ 0 ∷ 3 ∷ []
    else 3 ∷ 2 ∷ 1 ∷ 0 ∷ []

unfoldable pub lane : Priority → ℕ
lane high = 0
lane normal = 1
lane low = 2
lane idle = 3

abbrev pub new_origin : Origin
new_origin = record { in_use = 0; h2 = false }

unfoldable pub new : ℕ → ℕ → ℕ → SlotPool
new global_slots h1 h2 = record {
  h1_per_origin = h1;
  h2_per_origin = h2;
  state = record { global_free = global_slots; origins = λ k. none; lanes = λ i. []; turn = 0 };
}

unfoldable pub limit : SlotPool → Origin → ℕ
limit p o = if o.h2 then max p.h2_per_origin p.h1_per_origin else p.h1_per_origin

-- The two `map_or`s of `next_waiter`.
unfoldable pub in_use_of : State → Text → ℕ
in_use_of s k = elim (s.origins k) [ none ↦ 0 | some o ↦ o.in_use ]

unfoldable pub limit_of : SlotPool → State → Text → ℕ
unfolding limit
limit_of p s k = elim (s.origins k) [ none ↦ p.h1_per_origin | some o ↦ limit p o ]

unfoldable pub can_go : SlotPool → State → Waiter → Bool
can_go p s w = ltb (in_use_of s w.origin) (limit_of p s w.origin)

module _ {ℓ} {A : Type ℓ} where
  unfoldable pub position : (A → Bool) → List A → Option ℕ
  position test [] = none
  position test (x ∷ xs) = if test x then some 0 else (position test xs >>= λ i. some (suc i))

  unfoldable pub remove_at : ℕ → List A → Option (A × List A)
  remove_at i [] = none
  remove_at zero (x ∷ xs) = some (x, xs)
  remove_at (suc i) (x ∷ xs) = remove_at i xs >>= λ r. some (r.0, x ∷ r.1)

-- The loop of `next_waiter` over the lanes still to try.
unfoldable pub next_in : SlotPool → State → List ℕ → Option (ℕ × ℕ)
next_in p s [] = none
next_in p s (l ∷ ls) = elim (position (can_go p s) (s.lanes l)) [
  | some index ↦ some (l, index)
  | none ↦ next_in p s ls
]

unfoldable pub next_waiter : SlotPool → State → Option (ℕ × ℕ)
next_waiter p s = next_in p s (lane_order s.turn)

unfoldable pub set_lane : (ℕ → List Waiter) → ℕ → List Waiter → ℕ → List Waiter
set_lane lanes l ws i = if i == l then ws else lanes i

unfoldable pub set_origin : (Text → Option Origin) → Text → Origin → Text → Option Origin
set_origin origins k o j = if text_eq j k then some o else origins j

-- The head of the loop of `grant`: the waiter taken out of its lane, if one can go.
unfoldable pub pick : SlotPool → State → Option (Waiter × State)
unfolding set_lane
pick p s =
    if ltb 0 s.global_free
    then (next_waiter p s >>= λ found. remove_at found.1 (s.lanes found.0) >>= λ r.
        some (r.0, record s { lanes = set_lane s.lanes found.0 r.1 }))
    else none

-- The turn moves on, and one global slot and one of the origin are taken.
unfoldable pub take_slot : State → Text → State
unfolding set_origin
take_slot s k =
    let o = unwrap_or (s.origins k) new_origin in
    record s {
      turn = (s.turn + 1) % 15;
      global_free = s.global_free - 1;
      origins = set_origin s.origins k (record o { in_use = o.in_use + 1 });
    }

-- What `release` and a failed `send` do; `in_use` is above 0 there (`Slots.Counts`), so the
-- source's subtraction does not underflow.
unfoldable pub give_back : State → Text → State
unfolding set_origin
give_back s k = elim (s.origins k) [
  | none ↦ record s { global_free = s.global_free + 1 }
  | some o ↦ record s {
    global_free = s.global_free + 1;
    origins = set_origin s.origins k (record o { in_use = o.in_use - 1 });
  }
]

-- The rest of a round: the slots are taken and sent, and taken back if the waiter has gone.
unfoldable pub serve : (ℕ → Bool) → Waiter → State → State × List Slots
serve accepts w s =
    let taken = take_slot s w.origin in
    if accepts w.tx
    then (taken, record { origin = w.origin; armed = true } ∷ [])
    else (give_back taken w.origin, [])

-- The `while` loop of `grant`, with fuel; `Slots.Progress` shows that the number of waiters is
-- enough, since each round takes one out of a lane.
unfoldable pub grant_loop : SlotPool → (ℕ → Bool) → ℕ → State → State × List Slots
grant_loop p accepts zero s = (s, [])
grant_loop p accepts (suc fuel) s = elim (pick p s) [
  | none ↦ (s, [])
  | some r ↦
      let served = serve accepts r.0 r.1 in
      let rest = grant_loop p accepts fuel served.0 in (rest.0, served.1 ++ rest.1)
]

unfoldable pub waiting : State → ℕ
waiting s = length (s.lanes 0) + length (s.lanes 1) + length (s.lanes 2) + length (s.lanes 3)

unfoldable pub drop_closed : (ℕ → Bool) → State → State
drop_closed is_closed s = record s { lanes = λ i. retain (λ w. not (is_closed w.tx)) (s.lanes i) }

unfoldable pub grant : SlotPool → (ℕ → Bool) → (ℕ → Bool) → State → State × List Slots
grant p is_closed accepts s =
    let open_state = drop_closed is_closed s in grant_loop p accepts (waiting open_state) open_state

abbrev with_state : SlotPool → State × List Slots → SlotPool × List Slots
with_state p r = (record p { state = r.0 }, r.1)

module _ (is_closed accepts : ℕ → Bool) where
  -- `key` is the serialized origin of the URL, and `tx` the new channel.
  unfoldable pub enqueue : SlotPool → Text → Priority → ℕ → SlotPool × List Slots
  enqueue p key priority tx =
      let l = lane priority in
      let s = p.state in
      let joined = s.lanes l ++ record { origin = key; tx = tx } ∷ [] in
      with_state p (grant p is_closed accepts (record s { lanes = set_lane s.lanes l joined }))

  unfoldable pub release : SlotPool → Text → SlotPool × List Slots
  release p key = with_state p (grant p is_closed accepts (give_back p.state key))

  -- `Drop for Slots`.
  unfoldable pub drop_slots : SlotPool → Slots → SlotPool × List Slots
  drop_slots p slots = if slots.armed then release p slots.origin else (p, [])

  -- `multiplexed` says that the response came over HTTP/2 or HTTP/3.
  unfoldable pub observe : SlotPool → Text → Bool → SlotPool × List Slots
  observe p key false = (p, [])
  observe p key true =
      let s = p.state in
      let o = unwrap_or (s.origins key) new_origin in
      if o.h2
      then (record p { state = record s { origins = set_origin s.origins key o } }, [])
      else with_state p (
          grant p is_closed accepts
            (record s { origins = set_origin s.origins key (record o { h2 = true }) }))

unfoldable pub speaks_h2 : SlotPool → Text → Bool
speaks_h2 p key = elim (p.state.origins key) [ none ↦ false | some o ↦ o.h2 ]
