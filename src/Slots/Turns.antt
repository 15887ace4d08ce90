-- ===== src/Slots/Turns.antt =====
-- The order of the lanes over the 15-step cycle.
use gosub_sonar.Prelude.{
  ℕ, zero, suc, ◌+◌, ◌%◌, ◌<◌, ◌≡◌, refl, Bool, true, ◌&&◌, List, [], ◌∷◌, all, arith, ◌==◌,
  if◌then◌else◌,
}
use gosub_sonar.Slots.{lane_order}

-- How often `l` occurs in a list of lanes.
unfoldable pub occurrences : ℕ → List ℕ → ℕ
occurrences l [] = 0
occurrences l (k ∷ ks) = (if k == l then 1 else 0) + occurrences l ks

preferred : ℕ → List ℕ → ℕ
preferred l [] = 0
preferred l (k ∷ ks) = if k == l then 1 else 0

-- How many of the `n` turns from `turn` on try lane `l` first.
unfoldable pub first_tries : ℕ → ℕ → ℕ → ℕ
unfolding preferred lane_order
first_tries l turn zero = 0
first_tries l turn (suc n) = preferred l (lane_order turn) + first_tries l ((turn + 1) % 15) n

-- Every turn tries each of the four lanes exactly once.
pub lane_order-once : (turn l : ℕ) → l < 4 → occurrences l (lane_order turn) ≡ 1
unfolding lane_order occurrences
lane_order-once turn l h = ground arith

-- The numbers under a bound, the largest first.
numbers_under : ℕ → List ℕ
numbers_under zero = []
numbers_under (suc b) = b ∷ numbers_under b

all-numbers_under :
    (test : ℕ → Bool) {i : ℕ} (b : ℕ) → i < b → all test (numbers_under b) ≡ true → test i ≡ true
unfolding numbers_under
all-numbers_under test zero i_lt e = absurd (omega arith)
all-numbers_under test {i} (suc b) i_lt e = ground (arith, all-numbers_under test {i = i} b)

weights_at : ℕ → Bool
weights_at turn =
    (first_tries 0 turn 15 == 8)
    && (first_tries 1 turn 15 == 4)
    && (first_tries 2 turn 15 == 2)
    && (first_tries 3 turn 15 == 1)

weights_table : all weights_at (numbers_under 15) ≡ true
unfolding numbers_under weights_at first_tries
weights_table = refl

four_tests :
    (a b c d : ℕ)
    → ((a == 8) && (b == 4) && (c == 2) && (d == 1)) ≡ true
    → (a ≡ 8) × (b ≡ 4) × (c ≡ 2) × (d ≡ 1)
four_tests a b c d h = ground arith

-- From any turn of the cycle, the next fifteen turns prefer High, Normal, Low and Idle eight, four,
-- two and one times.
pub first_tries_weights :
    (turn : ℕ)
    → turn < 15
    → (first_tries 0 turn 15 ≡ 8)
      × (first_tries 1 turn 15 ≡ 4)
      × (first_tries 2 turn 15 ≡ 2)
      × (first_tries 3 turn 15 ≡ 1)
unfolding weights_at
first_tries_weights turn h =
    four_tests _ _ _ _ (all-numbers_under weights_at {i = turn} 15 h weights_table)
