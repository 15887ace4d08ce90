-- ===== src/Body/World.antt =====
-- A shared body of src/net/shared_body.rs with its one producer and its readers, which take turns
-- at the lock in any order: a push is recorded, handed to one target after the other, and its
-- dropped subscribers are removed, and any reader or handle may act in between.
use gosub_sonar.Prelude.{
  ℕ, ◌≡◌, ◌≢◌, Bool, true, false, not, ◌||◌, List, [], ◌∷◌, ◌++◌, Option, none, some, Text,
  if◌then◌else◌, retain, contains, remove, ◌==◌, any,
}
use gosub_sonar.Web.Errors.{NetError}
use gosub_sonar.Web.Channels.{ChannelApi, full}
use gosub_sonar.Body.{
  State, Store, SubStream, Target, Subscription, attached, Poll, pending, finished, item, failed,
  set_at, id_key, record_chunk, try_deliver, remove_ids, error, finish, subscribe, poll_next,
  with_replay_limit,
}

-- A push under way: its chunk, the targets that it has still to serve, those that `push_wait`
-- waits for, and the subscribers to remove.
pub record Push : Type 0 where
  pub chunk : Text
  pub targets : List Target
  pub waiting : List Target
  pub to_remove : List ℕ

abbrev pub no_push : Push
no_push = record { chunk = []; targets = []; waiting = []; to_remove = [] }

module _ (Url : Type 0) (Chan : ChannelApi) where
  open Chan use {channel, try_send, drop_receiver}

  -- Where a stream begins: with the whole body, or, for a live subscriber, behind what was pushed
  -- before it.
  pub data Joined : Type 0 where
    from_start : Joined
    from_then_on : (before : Text) → Joined

  abbrev pub missed : Joined → Text
  missed from_start = []
  missed (from_then_on before) = before

  -- A stream in a reader's hands, with where it began, the bytes that it has passed and what it ended
  -- with, `some none` for a clean end.
  pub record Reader : Type 0 where
    pub stream : SubStream
    pub joined : Joined
    pub passed : Text
    pub outcome : Option (Option (NetError Url))

  -- The part of the body up to where the stream stands.
  abbrev pub seen : Reader → Text
  seen c = missed c.joined ++ c.passed

  -- `pushed` is every byte recorded so far; `abandoned` is whether a `push_wait` was ever dropped
  -- over a body that was not ended with an error there and then.
  pub record World : Type 0 where
    pub body : State Url Chan
    pub store : Store Url Chan
    pub producing : Bool
    pub push : Push
    pub readers : ℕ → Option Reader
    pub pushed : Text
    pub abandoned : Bool

  -- The lossless targets of a `push_wait` come last.
  abbrev pub begun : Bool → Text → State Url Chan → List Target → World → World
  begun wait chunk body targets w = record w {
    body = body;
    producing = true;
    push = record {
      chunk = chunk;
      targets = if wait then retain (λ t. not t.lossless) targets else targets;
      waiting = if wait then retain (λ t. t.lossless) targets else [];
      to_remove = [];
    };
    pushed = w.pushed ++ chunk;
  }

  -- `push` and `push_wait` up to the release of the lock.
  unfoldable pub begin : Bool → Text → World → World
  begin wait chunk w = elim (record_chunk Url Chan w.body chunk wait) [
    | none ↦ w
    | some (body, targets) ↦ begun wait chunk body targets w
  ]

  -- One target is served without waiting.
  abbrev pub deliver : Target → List Target → World → World
  deliver t ts w =
      let r = try_deliver Url Chan w.store t w.push.chunk w.push.to_remove in
      record w { store = r.0; push = record w.push { targets = ts; to_remove = r.1 } }

  -- `send` has returned for a lossless target: there was room, or the stream is gone.
  abbrev pub send : Target → List Target → World → World
  send t ts w =
      let r = try_deliver Url Chan w.store t w.push.chunk w.push.to_remove in
      record w { store = r.0; push = record w.push { waiting = ts; to_remove = r.1 } }

  abbrev pub end_push : World → World
  end_push w = record w {
    body = record (remove_ids Url Chan w.body w.push.to_remove) { delivering = false };
    producing = false;
    push = no_push;
  }

  -- A `push_wait` is dropped before it is done.
  abbrev pub abandon : World → World
  abandon w = record w {
    body = record w.body { delivering = false };
    producing = false;
    push = no_push;
    abandoned = true;
  }

  -- A `push_wait` is dropped and `error` called, as the pump of `from_reader` does on a cancel or a
  -- deadline. `error` does nothing if another handle has ended the body meanwhile. Other steps
  -- between the two are `abandon` and `error` on their own.
  abbrev pub give_up : NetError Url → World → World
  give_up e w = record w {
    body = error Url Chan (record w.body { delivering = false }) e;
    producing = false;
    push = no_push;
    abandoned = w.abandoned || w.body.closed;
  }

  -- The stream that `subscribe` registered, if it did, with its new queue.
  abbrev pub joins : ℕ → Joined → World → State Url Chan × Subscription Url Chan → World
  joins capacity place w (body, attached id s) = record w {
    body = body;
    store = record {
      channels = set_at w.store.channels id (channel capacity);
      lagged = set_at w.store.lagged id false;
    };
    readers =
        set_at w.readers id
          (some (record { stream = s; joined = place; passed = []; outcome = none }));
  }
  joins capacity place w _ = w

  unfoldable pub attach : ℕ → Bool → Bool → World → World
  attach capacity replay lossless w =
      joins capacity (if replay then from_start else from_then_on w.pushed) w
        (subscribe Url Chan w.body replay lossless)

  -- A sender of the queue is held by the body, or by a push that has not served it yet.
  abbrev pub has_sender : World → ℕ → Bool
  has_sender w id =
      contains id w.body.subs
      || any (λ (t : Target). t.id == id) w.push.targets
      || any (λ (t : Target). t.id == id) w.push.waiting

  abbrev pub after_poll : Reader → SubStream → Poll Url Chan → Reader
  after_poll c s pending = record c { stream = s }
  after_poll c s (item chunk) = record c { stream = s; passed = c.passed ++ chunk }
  after_poll c s (failed e) = record c { stream = s; outcome = some (some e) }
  after_poll c s finished = record c {
    stream = s;
    outcome = if c.stream.done then c.outcome else some none;
  }

  abbrev pub poll : ℕ → Reader → World → World
  poll id c w =
      let r =
        poll_next Url Chan w.body.error (w.store.lagged id) (has_sender w id) c.stream
          (w.store.channels id) in
      record w {
        store = record w.store { channels = set_at w.store.channels id r.2 };
        readers = set_at w.readers id (some (after_poll c r.1 r.0));
      }

  abbrev pub drop_stream : ℕ → World → World
  drop_stream id w = record w {
    body = record w.body { subs = remove id w.body.subs };
    store = record w.store {
      channels = set_at w.store.channels id (drop_receiver (w.store.channels id));
    };
    readers = set_at w.readers id none;
  }

  -- The producer starts a push only when the last one is over.
  pub data Step (w : World) : World → Type 0 where
    begins : (wait : Bool) (chunk : Text) → w.producing ≡ false → Step w (begin wait chunk w)
    delivers : (t : Target) (ts : List Target) → w.push.targets ≡ t ∷ ts → Step w (deliver t ts w)
    sends :
        (t : Target) (ts : List Target)
        → w.push.targets ≡ []
        → w.push.waiting ≡ t ∷ ts
        → try_send (w.store.channels t.id) w.push.chunk ≢ full
        → Step w (send t ts w)
    ends_push : w.push.targets ≡ [] → w.push.waiting ≡ [] → Step w (end_push w)
    gives_up : (e : NetError Url) → w.producing ≡ true → Step w (give_up e w)
    abandons : w.producing ≡ true → Step w (abandon w)
    errors : (e : NetError Url) → Step w (record w { body = error Url Chan w.body e })
    finishes : Step w (record w { body = finish Url Chan w.body })
    attaches : (capacity : ℕ) (replay lossless : Bool) → Step w (attach capacity replay lossless w)
    polls : (id : ℕ) (c : Reader) → w.readers id ≡ some c → Step w (poll id c w)
    drops : (id : ℕ) (c : Reader) → w.readers id ≡ some c → Step w (drop_stream id w)

  pub data Reach (start : World) : World → Type 0 where
    here : Reach start start
    next : {v w : World} → Reach start v → Step v w → Reach start w

  abbrev pub fresh : ℕ → ℕ → World
  fresh max_queue replay_limit = record {
    body = with_replay_limit Url Chan max_queue replay_limit;
    store = record { channels = λ id. channel max_queue; lagged = λ id. false };
    producing = false;
    push = no_push;
    readers = λ id. none;
    pushed = [];
    abandoned = false;
  }
