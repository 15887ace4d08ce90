-- ===== src/Web/Channels.antt =====
-- `tokio::sync::mpsc` with a bounded queue, whose receiver is read as a stream.
use gosub_sonar.Prelude.{
  ℕ, ◌≤◌, ◌≡◌, Bool, true, false, List, [], ◌∷◌, ◌++◌, Option, none, some, Text, length,
}

-- What `try_send` returns: `Ok`, `TrySendError::Full` or `TrySendError::Closed`.
pub data TrySend (C : Type 0) : Type 0 where
  sent : C → TrySend C
  full closed : TrySend C

pub record ChannelApi : Type 1 where
  pub Channel : Type 0
  pub channel : ℕ → Channel
  pub try_send : Channel → Text → TrySend Channel
  -- The next queued item, or `none` when the queue is drained.
  pub recv : Channel → Option (Text × Channel)
  pub drop_receiver : Channel → Channel
  -- What the queue holds, oldest first, the most it may hold, and whether its receiver is alive.
  pub queued : Channel → List Text
  pub capacity : Channel → ℕ
  pub has_receiver : Channel → Bool
  pub queued-channel : (n : ℕ) → queued (channel n) ≡ []
  pub has_receiver-channel : (n : ℕ) → has_receiver (channel n) ≡ true
  pub queued-sent :
      (c d : Channel) (x : Text) → try_send c x ≡ sent d → queued d ≡ queued c ++ x ∷ []
  pub has_receiver-sent :
      (c d : Channel) (x : Text) → try_send c x ≡ sent d → has_receiver d ≡ has_receiver c
  pub full_at_capacity :
      (c : Channel) (x : Text) → try_send c x ≡ full → capacity c ≤ length (queued c)
  pub closed_without_receiver :
      (c : Channel) (x : Text) → try_send c x ≡ closed → has_receiver c ≡ false
  pub recv-some : (c d : Channel) (x : Text) → recv c ≡ some (x, d) → queued c ≡ x ∷ queued d
  pub recv-none : (c : Channel) → recv c ≡ none → queued c ≡ []
  pub has_receiver-recv :
      (c d : Channel) (x : Text) → recv c ≡ some (x, d) → has_receiver d ≡ has_receiver c
