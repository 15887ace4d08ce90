-- ===== src/Body.antt =====
-- src/net/shared_body.rs: the state of a shared body, its operations, and a subscriber's stream.
-- A subscriber's queue and its `lagged` flag are shared between the body and the stream, so they
-- stand in a store under the subscriber's id.
pub mod Attaching
pub mod Delivery
pub mod Handing
pub mod Polling
pub mod Draining
pub mod Limits
pub mod Pump
pub mod Reachable
pub mod Reading
pub mod Replay
pub mod Standing
pub mod World
use gosub_sonar.Prelude.{
  ℕ, suc, ◌+◌, ◌-◌, ◌^◌, min, Bool, true, false, not, List, [], ◌∷◌, ◌++◌, Option, none, some, Text,
  codes, map, if◌then◌else◌, ◌==◌, leb, length, is_empty, lookup, remove, insert, KeyType, ==_iff,
}
use gosub_sonar.Web.Errors.{NetError, read}
use gosub_sonar.Web.Channels.{ChannelApi, sent, full, closed}

instance abbrev pub id_key : KeyType ℕ
id_key = record { is_same = ◌==◌; is_same_iff = ==_iff }

abbrev pub usize_max : ℕ
usize_max = 2 ^ 64 - 1

pub record Subscriber : Type 0 where
  pub lossless : Bool

pub record Target : Type 0 where
  pub id : ℕ
  pub lossless : Bool

pub record SubStream : Type 0 where
  pub prefix : List Text
  pub done : Bool

abbrev pub set_at {ℓ} : {A : Type ℓ} → (ℕ → A) → ℕ → A → ℕ → A
set_at f k v j = if j == k then v else f j

unfoldable pub remove_all : List ℕ → List (ℕ × Subscriber) → List (ℕ × Subscriber)
remove_all [] subs = subs
remove_all (id ∷ ids) subs = remove_all ids (remove id subs)

module _ (Url : Type 0) (Chan : ChannelApi) where
  open Chan use {Channel, try_send, recv}

  -- `first_subscriber` is signalled exactly when `has_subscriber` is set, and `abandoned` when the
  -- state is dropped, so neither is a field.
  pub record State : Type 0 where
    pub subs : List (ℕ × Subscriber)
    pub next_id : ℕ
    pub max_queue : ℕ
    pub closed : Bool
    pub has_subscriber : Bool
    pub delivering : Bool
    pub error : Option (NetError Url)
    pub replay_limit : ℕ
    pub replay : Option (List Text)
    pub replay_bytes : ℕ

  pub record Store : Type 0 where
    pub channels : ℕ → Channel
    pub lagged : ℕ → Bool

  -- What `subscribe` returns: the single error of a late subscriber, the kept chunks of a body
  -- that ended and the error it ended with, or a stream that is registered under an id.
  pub data Subscription : Type 0 where
    too_late : NetError Url → Subscription
    ended : List Text → Option (NetError Url) → Subscription
    attached : ℕ → SubStream → Subscription

  pub data Poll : Type 0 where
    pending finished : Poll
    item : Text → Poll
    failed : NetError Url → Poll

  unfoldable pub with_replay_limit : ℕ → ℕ → State
  with_replay_limit max_queue replay_limit = record {
    subs = [];
    next_id = 1;
    max_queue = max_queue;
    closed = false;
    has_subscriber = false;
    delivering = false;
    error = none;
    replay_limit = replay_limit;
    replay = some [];
    replay_bytes = 0;
  }

  -- The kept chunks after one more, which fits in the limit or does not.
  abbrev pub kept_with : Bool → Option (List Text) → Text → Option (List Text)
  kept_with true (some kept) chunk = some (if is_empty chunk then kept else kept ++ chunk ∷ [])
  kept_with true none chunk = none
  kept_with false kept chunk = none

  -- The part of `record` that keeps the chunk.
  unfoldable pub keep : State → Text → State
  keep st chunk =
      let total = min (st.replay_bytes + length chunk) usize_max in
      record st {
        replay = kept_with (leb total st.replay_limit) st.replay chunk;
        replay_bytes =
            if leb total st.replay_limit
            then (elim st.replay [ none ↦ st.replay_bytes | some kept ↦ total ])
            else 0;
      }

  unfoldable pub record_chunk : State → Text → Bool → Option (State × List Target)
  unfolding keep
  record_chunk st chunk waiting =
      if st.closed
      then none
      else some (
        keep (record st { delivering = waiting }) chunk,
        map (λ (p : ℕ × Subscriber). record { id = p.0; lossless = p.1.lossless }) st.subs,
      )

  unfoldable pub try_deliver : Store → Target → Text → List ℕ → Store × List ℕ
  try_deliver s target chunk to_remove = elim (try_send (s.channels target.id) chunk) [
    | sent c ↦ (record s { channels = set_at s.channels target.id c }, to_remove)
    | full ↦ (record s { lagged = set_at s.lagged target.id true }, to_remove ++ target.id ∷ [])
    | closed ↦ (s, to_remove ++ target.id ∷ [])
  ]

  unfoldable pub remove_ids : State → List ℕ → State
  unfolding remove_all
  remove_ids st ids = record st { subs = remove_all ids st.subs }

  unfoldable pub error : State → NetError Url → State
  error st e = if st.closed then st else record st { closed = true; error = some e; subs = [] }

  unfoldable pub finish : State → State
  finish st = if st.closed then st else record st { closed = true; subs = [] }

  -- The message, less the number of bytes of the limit.
  abbrev pub replay_overflow_error : NetError Url
  replay_overflow_error = read (codes "body subscribed too late")

  abbrev pub lag_error : NetError Url
  lag_error =
      read
        (codes "body subscriber fell behind the producer and was dropped; the body is incomplete")

  unfoldable pub register : State → Bool → List Text → State × Subscription
  register st lossless prefix = (
    record st {
      subs = insert st.next_id (record { lossless = lossless }) st.subs;
      next_id = suc st.next_id;
      has_subscriber = true;
    },
    attached st.next_id (record { prefix = prefix; done = false }),
  )

  -- The queue of the new stream is made by the caller, with the capacity that it asks for.
  unfoldable pub subscribe : State → Bool → Bool → State × Subscription
  unfolding register
  subscribe st replay lossless =
      let prefix = (if replay then st.replay else some []) in
      elim prefix [
        | none ↦ (st, too_late replay_overflow_error)
        | some kept ↦ if st.closed then (st, ended kept st.error) else register st lossless kept
      ]

  -- The channel is closed once no sender of it is left.
  unfoldable pub poll_next :
      Option (NetError Url) → Bool → Bool → SubStream → Channel → Poll × SubStream × Channel
  poll_next error lagged has_sender s c = elim s.prefix [
    | chunk ∷ chunks ↦ (item chunk, record s { prefix = chunks }, c)
    | [] ↦ if s.done then (finished, s, c) else (elim (recv c) [
      | some (chunk, d) ↦ (item chunk, s, d)
      | none ↦ if has_sender then (pending, s, c) else (
        (if lagged then failed lag_error else (elim error [ none ↦ finished | some e ↦ failed e ])),
        record s { done = true },
        c,
      )
    ])
  ]
