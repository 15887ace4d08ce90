-- ===== src/Examples/BodyRuns.antt =====
-- Runs of a shared body, of the pump that fills one, of retried requests and of a shared fetch.
use gosub_sonar.Prelude.{
  ℕ, ◌+◌, ◌≤◌, ◌≡◌, ◌≢◌, refl, sym, ◌⊎◌, inl, inr, Bool, true, false, List, [], ◌∷◌, ◌++◌, Option,
  none, some, Text, codes, arith,
}
use gosub_sonar.Examples.Queues.{queue_api}
use gosub_sonar.Body.{State, Subscription, subscribe, poll_next, pending, Target}
use gosub_sonar.Body.World.{
  World, Reader, from_start, Reach, here, next, fresh, attach, begin, deliver, end_push, poll,
  begins, delivers, ends_push, attaches, polls, finishes, has_sender,
}
use gosub_sonar.Body.Reachable.{Reach-clean_end, Reach-prefix, Reach-poll_ready}
use gosub_sonar.Body.Replay.{Gives, Reach-Gives}
use gosub_sonar.Body

abbrev BodyWorld : Type 0
BodyWorld = World Text queue_api

abbrev b0 : BodyWorld
b0 = fresh Text queue_api 4 100

-- One subscriber, a chunk pushed to it, and a second subscriber that gets it from the replay.
abbrev b1 : BodyWorld
b1 = attach Text queue_api 4 true true b0

abbrev b2 : BodyWorld
b2 = begin Text queue_api false (codes "hi") b1

abbrev hearer : Target
hearer = record { id = 1; lossless = true }

abbrev b3 : BodyWorld
b3 = deliver Text queue_api hearer [] b2

abbrev b4 : BodyWorld
b4 = end_push Text queue_api b3

abbrev b5 : BodyWorld
b5 = record b4 { body = Body.finish Text queue_api b4.body }

abbrev newcomer : Reader Text queue_api
newcomer = record {
  stream = record { prefix = []; done = false };
  joined = from_start;
  passed = [];
  outcome = none;
}

abbrev b6 : BodyWorld
b6 = poll Text queue_api 1 newcomer b5

abbrev served : Reader Text queue_api
served = record newcomer { passed = codes "hi" }

abbrev b7 : BodyWorld
b7 = poll Text queue_api 1 served b6

abbrev finished_reader : Reader Text queue_api
finished_reader = record {
  stream = record { prefix = []; done = true };
  joined = from_start;
  passed = codes "hi";
  outcome = some none;
}

b2-targets : b2.push.targets ≡ hearer ∷ []
unfolding begin Body.record_chunk attach subscribe Body.with_replay_limit gosub_sonar.Prelude.insert
b2-targets = refl

b5-reader : b5.readers 1 ≡ some newcomer
unfolding begin Body.record_chunk attach subscribe Body.with_replay_limit
b5-reader = refl

b6-reader : b6.readers 1 ≡ some served
unfolding poll_next gosub_sonar.Examples.Queues.pull Body.try_deliver
    gosub_sonar.Examples.Queues.put begin Body.record_chunk attach subscribe Body.with_replay_limit
b6-reader = refl

b7-reader : b7.readers 1 ≡ some finished_reader
unfolding poll_next gosub_sonar.Examples.Queues.pull Body.try_deliver
    gosub_sonar.Examples.Queues.put begin Body.record_chunk attach subscribe Body.with_replay_limit
    gosub_sonar.Prelude.contains Body.finish Body.remove_ids
b7-reader = refl

reached_b5 : Reach Text queue_api b0 b5
unfolding attach subscribe Body.with_replay_limit begin Body.record_chunk
reached_b5 =
    next
      (next
        (next (next (next here (attaches 4 true true)) (begins false (codes "hi") refl))
          (delivers hearer [] b2-targets))
        (ends_push refl refl))
      finishes

reached_b7 : Reach Text queue_api b0 b7
reached_b7 = next (next reached_b5 (polls 1 newcomer b5-reader)) (polls 1 served b6-reader)

Reach-clean_end_example : (b7.body.closed ≡ true) × (codes "hi" ≡ b7.pushed)
unfolding begin Body.record_chunk attach subscribe Body.with_replay_limit
Reach-clean_end_example =
    Reach-clean_end Text queue_api 4 100 1 finished_reader reached_b7 refl b7-reader refl

Reach-prefix_example : (rest : Text) × ([] ++ [] ++ rest ≡ b5.pushed)
unfolding begin Body.record_chunk attach subscribe Body.with_replay_limit
Reach-prefix_example = Reach-prefix Text queue_api 4 100 1 newcomer reached_b5 refl b5-reader

Reach-Gives_example :
    Gives Text queue_api b5.body b5.pushed (subscribe Text queue_api b5.body true true).1
Reach-Gives_example = Reach-Gives Text queue_api 4 100 true reached_b5

Reach-poll_ready_example :
    (poll_next Text queue_api b5.body.error
      (b5.store.lagged 1)
      (has_sender Text queue_api b5 1)
      newcomer.stream
      (b5.store.channels 1)).0
    ≢ pending
unfolding Body.finish Body.remove_ids begin Body.record_chunk attach subscribe
    Body.with_replay_limit
Reach-poll_ready_example =
    Reach-poll_ready Text queue_api 4 100 1 newcomer reached_b5 b5-reader refl refl

b7-runs : (b7.pushed ≡ codes "hi") × (b7.body.closed ≡ true)
unfolding begin Body.record_chunk attach subscribe Body.with_replay_limit Body.finish
    Body.remove_ids
b7-runs = (refl, refl)
