-- ===== src/Body/Replay.antt =====
-- What a shared body of src/net/shared_body.rs keeps for late subscribers, and what one of them is
-- given.
use gosub_sonar.Prelude.{
  ℕ, ◌≤◌, ◌<◌, ◌≡◌, refl, sym, ◌∙◌, inl, inr, Bool, true, false, List, ◌++◌, none, some, Text,
  arith, min, length, length-append, Option-cases, Bool-cases,
}
use gosub_sonar.Web.Errors.{NetError}
use gosub_sonar.Web.Channels.{ChannelApi}
use gosub_sonar.Body.{
  State, usize_max, keep, subscribe, register, error, finish, remove_ids, too_late,
  replay_overflow_error, ended, attached, Subscription, with_replay_limit,
}
use gosub_sonar.Body.World.{
  World, Step, Reach, fresh, begins, delivers, sends, ends_push, gives_up, abandons, errors,
  finishes, attaches, polls, drops, here, next, begin, attach,
}
use gosub_sonar.Body.Standing.{flat}
use gosub_sonar.Body.Reachable.{Reach-IsSound}
use gosub_sonar.Body.Delivery.{begin_closed, begin_live}
use gosub_sonar.Body.Attaching.{
  start, subscribe_late, subscribe_ended, subscribe_live, attach_late, attach_ended, attach_live,
}

-- The length of a body as a `usize`, which saturates.
abbrev pub measure : Text → ℕ
measure t = min (length t) usize_max

module _ (Url : Type 0) (Chan : ChannelApi) where
  pub record IsKept (st : State Url Chan) (pushed : Text) : Type 0 where
    pub whole :
        (k : List Text)
        → st.replay ≡ some k
        → (st.replay_bytes ≡ measure pushed) × (measure pushed ≤ st.replay_limit)
    pub dropped : st.replay ≡ none → st.replay_limit < measure pushed

  keep-IsKept :
      (st : State Url Chan) (chunk pushed : Text)
      → IsKept st pushed
      → IsKept (keep Url Chan st chunk) (pushed ++ chunk)
  unfolding keep
  keep-IsKept st chunk pushed h = elim (Option-cases st.replay) [
    | inl e ↦ record {
      whole = λ k f. ground (arith, e);
      dropped = λ f. ground (arith, h.dropped e, length-append pushed chunk);
    }
    | inr (k, e) ↦ record {
      whole = λ j f. ground (arith, h.whole k e, length-append pushed chunk);
      dropped = λ f. ground (arith, h.whole k e, length-append pushed chunk);
    }
  ]

  IsKept-same :
      (st su : State Url Chan) (pushed : Text)
      → su.replay ≡ st.replay
      → su.replay_bytes ≡ st.replay_bytes
      → su.replay_limit ≡ st.replay_limit
      → IsKept st pushed
      → IsKept su pushed
  IsKept-same st su pushed r b l h = record {
    whole = λ k f. ground (arith, h.whole k (sym r ∙ f));
    dropped = λ f. ground (arith, h.dropped (sym r ∙ f));
  }

  error-IsKept :
      (st : State Url Chan) (e : NetError Url) (pushed : Text)
      → IsKept st pushed
      → IsKept (error Url Chan st e) pushed
  unfolding error
  error-IsKept st e pushed h =
      IsKept-same st (error Url Chan st e) pushed (ground arith) (ground arith) (ground arith) h

  finish-IsKept :
      (st : State Url Chan) (pushed : Text) → IsKept st pushed → IsKept (finish Url Chan st) pushed
  unfolding finish
  finish-IsKept st pushed h =
      IsKept-same st (finish Url Chan st) pushed (ground arith) (ground arith) (ground arith) h

  begin-IsKept :
      (w : World Url Chan) (wait : Bool) (chunk : Text)
      → IsKept w.body w.pushed
      → let v = begin Url Chan wait chunk w in IsKept v.body v.pushed
  begin-IsKept w wait chunk h = elim (Bool-cases w.body.closed) [
    | inl over ↦ rw (begin_closed Url Chan w wait chunk over) h
    | inr live ↦ rw (begin_live Url Chan w wait chunk live) (
        keep-IsKept (record w.body { delivering = wait }) chunk w.pushed
          (IsKept-same w.body _ w.pushed refl refl refl h))
  ]

  attach-IsKept :
      (w : World Url Chan) (n : ℕ) (replay lossless : Bool)
      → IsKept w.body w.pushed
      → let v = attach Url Chan n replay lossless w in IsKept v.body v.pushed
  unfolding register
  attach-IsKept w n replay lossless h =
      elim (Option-cases (start Url Chan w.body replay lossless)) [
        | inl e ↦ rw (attach_late Url Chan w n replay lossless e) h
        | inr (k, e) ↦ elim (Bool-cases w.body.closed) [
          | inl over ↦ rw (attach_ended Url Chan w n replay lossless k e over) h
          | inr live ↦
              rw (attach_live Url Chan w n replay lossless k e live)
                (IsKept-same w.body _ w.pushed refl refl refl h)
        ]
      ]

  pub Step-IsKept :
      {v w : World Url Chan} → Step Url Chan v w → IsKept v.body v.pushed → IsKept w.body w.pushed
  unfolding remove_ids
  Step-IsKept {v} (begins wait chunk e) h = begin-IsKept v wait chunk h
  Step-IsKept {v} (delivers t ts e) h = h
  Step-IsKept {v} (sends t ts e f room) h = h
  Step-IsKept {v} (ends_push e f) h = IsKept-same v.body _ v.pushed refl refl refl h
  Step-IsKept {v} (abandons busy) h = IsKept-same v.body _ v.pushed refl refl refl h
  Step-IsKept {v} (gives_up e busy) h =
      error-IsKept (record v.body { delivering = false }) e v.pushed
        (IsKept-same v.body _ v.pushed refl refl refl h)
  Step-IsKept {v} (errors e) h = error-IsKept v.body e v.pushed h
  Step-IsKept {v} finishes h = finish-IsKept v.body v.pushed h
  Step-IsKept {v} (attaches n replay lossless) h = attach-IsKept v n replay lossless h
  Step-IsKept {v} (polls id c e) h = h
  Step-IsKept {v} (drops id c e) h = IsKept-same v.body _ v.pushed refl refl refl h

  Reach-IsKept :
      (max_queue replay_limit : ℕ) {w : World Url Chan}
      → Reach Url Chan (fresh Url Chan max_queue replay_limit) w
      → IsKept w.body w.pushed
  unfolding with_replay_limit
  Reach-IsKept max_queue replay_limit here = record {
    whole = λ k e. ground arith;
    dropped = λ e. absurd (cc e);
  }
  Reach-IsKept max_queue replay_limit (next r s) =
      Step-IsKept s (Reach-IsKept max_queue replay_limit r)

  -- What a subscriber to the whole body is given, when `pushed` is what was pushed before it.
  abbrev pub Gives : State Url Chan → Text → Subscription Url Chan → Type 0
  Gives st pushed (too_late e) =
      (e ≡ replay_overflow_error Url Chan) × (st.replay_limit < measure pushed)
  Gives st pushed (ended k e) =
      (flat k ≡ pushed) × (e ≡ st.error) × (st.closed ≡ true) × (measure pushed ≤ st.replay_limit)
  Gives st pushed (attached id s) =
      (flat s.prefix ≡ pushed)
      × (s.done ≡ false)
      × (st.closed ≡ false)
      × (measure pushed ≤ st.replay_limit)

  subscribe-Gives :
      (st : State Url Chan) (pushed : Text) (lossless : Bool)
      → IsKept st pushed
      → ((k : List Text) → st.replay ≡ some k → flat k ≡ pushed)
      → Gives st pushed (subscribe Url Chan st true lossless).1
  unfolding register
  subscribe-Gives st pushed lossless h whole = elim (Option-cases st.replay) [
    | inl e ↦ rw (subscribe_late Url Chan st true lossless e) (refl, h.dropped e)
    | inr (k, e) ↦ elim (Bool-cases st.closed) [
      | inl over ↦
          rw (subscribe_ended Url Chan st true lossless k e over)
            (whole k e, refl, over, (h.whole k e).1)
      | inr live ↦
          rw (subscribe_live Url Chan st true lossless k e live)
            (whole k e, refl, live, (h.whole k e).1)
    ]
  ]

  -- In every reachable state, a new subscriber to the whole body is refused exactly when more bytes
  -- were pushed than the replay limit, and otherwise starts with all that was pushed: as a
  -- registered stream while the body is open, and followed by the body's error or a clean end once
  -- it is closed.
  pub Reach-Gives :
      (max_queue replay_limit : ℕ) {w : World Url Chan} (lossless : Bool)
      → Reach Url Chan (fresh Url Chan max_queue replay_limit) w
      → Gives w.body w.pushed (subscribe Url Chan w.body true lossless).1
  Reach-Gives max_queue replay_limit {w} lossless r =
      subscribe-Gives w.body w.pushed lossless (Reach-IsKept max_queue replay_limit r)
        (Reach-IsSound Url Chan max_queue replay_limit r).kept
