-- ===== src/Body/Attaching.antt =====
-- A subscriber that attaches to a shared body, and one that polls or drops its stream.
use gosub_sonar.Prelude.{
  ℕ, ◌≡◌, refl, sym, ap, ◌∙◌, inl, inr, Bool, true, false, not, ◌||◌, List, [], ◌++◌, Option, none,
  some, Text, if◌then◌else◌, ◌==◌, arith, Bool-cases, Option-cases, ==_iff, subst, contains, remove,
  insert, contains-remove, remove-IsMap, insert-IsMap,
}
use mathlib.Core.List.{append-nil}
use gosub_sonar.Web.Channels.{ChannelApi}
use gosub_sonar.Body.{
  Subscriber, State, id_key, set_at, subscribe, register, too_late, ended, replay_overflow_error,
}
use gosub_sonar.Body.World.{
  World, Reader, Joined, from_start, from_then_on, missed, joins, attach, poll, drop_stream,
  has_sender,
}
use gosub_sonar.Body.Standing.{IsServed, IsServed-same, flat}
use gosub_sonar.Body.Polling.{poll-IsServed, attached-IsServed}
use gosub_sonar.Body.Delivery.{IsSound, due, view, any-count}

contains-insert :
    (k id : ℕ) (v : Subscriber) (subs : List (ℕ × Subscriber))
    → contains id (insert k v subs) ≡ (if k == id then true else contains id subs)
unfolding contains insert
contains-insert k id v subs = ground (arith, contains-remove k id subs)

module _ (Url : Type 0) (Chan : ChannelApi) (st : State Url Chan) (replay lossless : Bool) where
  -- What a stream starts with: the kept chunks, or nothing for a live subscriber.
  abbrev pub start : Option (List Text)
  start = if replay then st.replay else some []

  pub subscribe_late :
      start ≡ none
      → subscribe Url Chan st replay lossless ≡ (st, too_late (replay_overflow_error Url Chan))
  unfolding subscribe
  subscribe_late e = rw (e, subscribe) refl

  pub subscribe_ended :
      (k : List Text)
      → start ≡ some k
      → st.closed ≡ true
      → subscribe Url Chan st replay lossless ≡ (st, ended k st.error)
  unfolding subscribe
  subscribe_ended k e c = rw (e, subscribe) (rw (c, subscribe) refl)

  pub subscribe_live :
      (k : List Text)
      → start ≡ some k
      → st.closed ≡ false
      → subscribe Url Chan st replay lossless ≡ register Url Chan st lossless k
  unfolding subscribe
  subscribe_live k e c = rw (e, subscribe) (ground (arith, c))

abbrev pub new_reader :
    (Url : Type 0) (Chan : ChannelApi) → List Text → Joined Url Chan → Reader Url Chan
new_reader Url Chan kept place = record {
  stream = record { prefix = kept; done = false };
  joined = place;
  passed = [];
  outcome = none;
}

module _ (Url : Type 0) (Chan : ChannelApi) (w : World Url Chan) where
  -- The world with one more stream.
  abbrev pub joined_by : ℕ → Bool → List Text → Joined Url Chan → World Url Chan
  joined_by capacity lossless kept place = record w {
    body = (register Url Chan w.body lossless kept).0;
    store = record {
      channels = set_at w.store.channels w.body.next_id (Chan.channel capacity);
      lagged = set_at w.store.lagged w.body.next_id false;
    };
    readers = set_at w.readers w.body.next_id (some (new_reader Url Chan kept place));
  }

  pub attach_late :
      (capacity : ℕ) (replay lossless : Bool)
      → start Url Chan w.body replay lossless ≡ none
      → attach Url Chan capacity replay lossless w ≡ w
  unfolding attach
  attach_late capacity replay lossless e =
      ap (joins Url Chan capacity (if replay then from_start else from_then_on w.pushed) w)
        (subscribe_late Url Chan w.body replay lossless e)

  pub attach_ended :
      (capacity : ℕ) (replay lossless : Bool) (k : List Text)
      → start Url Chan w.body replay lossless ≡ some k
      → w.body.closed ≡ true
      → attach Url Chan capacity replay lossless w ≡ w
  unfolding attach
  attach_ended capacity replay lossless k e c =
      ap (joins Url Chan capacity (if replay then from_start else from_then_on w.pushed) w)
        (subscribe_ended Url Chan w.body replay lossless k e c)

  pub attach_live :
      (capacity : ℕ) (replay lossless : Bool) (k : List Text)
      → start Url Chan w.body replay lossless ≡ some k
      → w.body.closed ≡ false
      → attach Url Chan capacity replay lossless w
        ≡ joined_by capacity lossless k (if replay then from_start else from_then_on w.pushed)
  unfolding register attach
  attach_live capacity replay lossless k e c =
      ap (joins Url Chan capacity (if replay then from_start else from_then_on w.pushed) w)
        (subscribe_live Url Chan w.body replay lossless k e c)

module _ (Url : Type 0) (Chan : ChannelApi) (w : World Url Chan) (h : IsSound Url Chan w) where
  open Chan use {Channel, channel, drop_receiver}

  module _ (capacity : ℕ) (lossless : Bool) (kept : List Text) (place : Joined Url Chan) where
    abbrev new_id : ℕ
    new_id = w.body.next_id

    abbrev newcomer : Reader Url Chan
    newcomer = new_reader Url Chan kept place

    abbrev joined : World Url Chan
    joined = joined_by Url Chan w capacity lossless kept place

    newcomer-IsServed :
        missed Url Chan place ++ flat kept ≡ w.pushed
        → (id : ℕ) → id ≡ new_id
        → IsServed Url Chan (view Url Chan joined id) newcomer
    unfolding register
    newcomer-IsServed p id e =
        let g = h.fresh_ids id (omega (arith, e)) in
        attached-IsServed Url Chan (view Url Chan joined id) capacity kept place (ground (arith, e))
          (ground (arith, e)) g.not_due g.not_doomed
          (contains-insert new_id id _ w.body.subs ∙ ground (arith, e)) p

    joined-served :
        missed Url Chan place ++ flat kept ≡ w.pushed
        → w.abandoned ≡ false
        → (id : ℕ) (c : Reader Url Chan) → joined.readers id ≡ some c
        → IsServed Url Chan (view Url Chan joined id) c
    unfolding register
    joined-served p a id c e = elim (Bool-cases (id == new_id)) [
      | inl same ↦
          subst (IsServed Url Chan (view Url Chan joined id)) (ground arith)
            (newcomer-IsServed p id ((==_iff id new_id).0 same))
      | inr differs ↦
          IsServed-same Url Chan (view Url Chan w id) c _ _ _ _ _
            (contains-insert new_id id _ w.body.subs ∙ ground arith) (ground arith) (ground arith)
            refl refl (h.served a id c (ground arith))
    ]

    joined-IsSound :
        w.body.closed ≡ false
        → missed Url Chan place ++ flat kept ≡ w.pushed
        → IsSound Url Chan joined
    unfolding register
    joined-IsSound live p = record {
      emptied = λ c. absurd (cc (c, live));
      is_map = insert-IsMap new_id _ w.body.subs h.is_map;
      once = h.once;
      fresh_ids = λ id f.
          let g = h.fresh_ids id (omega (arith, f)) in
          record {
            unlisted = contains-insert new_id id _ w.body.subs ∙ ground (arith, f, g.unlisted);
            not_due = g.not_due;
            not_doomed = g.not_doomed;
            unread = ground (arith, f, g.unread);
          };
      idle = h.idle;
      kept = h.kept;
      served = joined-served p;
    }

  start-flat :
      (replay lossless : Bool) (k : List Text)
      → start Url Chan w.body replay lossless ≡ some k
      → missed Url Chan (if replay then from_start else from_then_on w.pushed) ++ flat k ≡ w.pushed
  start-flat true lossless k e = h.kept k e
  start-flat false lossless k e = ground (arith, append-nil w.pushed)

  pub attach-IsSound :
      (capacity : ℕ) (replay lossless : Bool)
      → IsSound Url Chan (attach Url Chan capacity replay lossless w)
  attach-IsSound capacity replay lossless =
      elim (Option-cases (start Url Chan w.body replay lossless)) [
        | inl e ↦ rw (attach_late Url Chan w capacity replay lossless e) h
        | inr (k, e) ↦ elim (Bool-cases w.body.closed) [
          | inl over ↦ rw (attach_ended Url Chan w capacity replay lossless k e over) h
          | inr live ↦
              rw (attach_live Url Chan w capacity replay lossless k e live)
                (joined-IsSound capacity lossless k _ live (start-flat replay lossless k e))
        ]
      ]

  pub drop_stream-IsSound : (id : ℕ) → IsSound Url Chan (drop_stream Url Chan id w)
  unfolding remove
  drop_stream-IsSound id = record {
    emptied = λ c. rw (h.emptied c) refl;
    is_map = remove-IsMap id w.body.subs h.is_map;
    once = h.once;
    fresh_ids = λ k f.
        let g = h.fresh_ids k f in
        record {
          unlisted = contains-remove id k w.body.subs ∙ ground (arith, g.unlisted);
          not_due = g.not_due;
          not_doomed = g.not_doomed;
          unread = ground (arith, g.unread);
        };
    idle = h.idle;
    kept = h.kept;
    served = λ a k c r. elim (Bool-cases (k == id)) [
      | inl same ↦ absurd (ground arith)
      | inr differs ↦
          IsServed-same Url Chan (view Url Chan w k) c _ _ _ _ _
            (contains-remove id k w.body.subs ∙ ground arith) refl (ground arith) refl refl
            (h.served a k c (ground arith))
    ];
  }

  senders :
      (id : ℕ)
      → has_sender Url Chan w id ≡ (contains id w.body.subs || not (due Url Chan w.push id == 0))
  senders id = rw (any-count id w.push.targets, any-count id w.push.waiting) (ground arith)

  polled-IsServed :
      (id : ℕ) (c : Reader Url Chan)
      → w.abandoned ≡ false
      → w.readers id ≡ some c
      → (d : Reader Url Chan) → (poll Url Chan id c w).readers id ≡ some d
      → IsServed Url Chan (view Url Chan (poll Url Chan id c w) id) d
  polled-IsServed id c a e d r =
      subst (IsServed Url Chan (view Url Chan (poll Url Chan id c w) id)) (ground arith) (
        IsServed-same Url Chan _ _ _ _ _ _ _ refl refl (ground arith) refl refl (
          poll-IsServed Url Chan (view Url Chan w id) c (has_sender Url Chan w id) (senders id)
            (h.served a id c e)))

  pub poll-IsSound :
      (id : ℕ) (c : Reader Url Chan)
      → w.readers id ≡ some c
      → IsSound Url Chan (poll Url Chan id c w)
  poll-IsSound id c e = record {
    emptied = h.emptied;
    is_map = h.is_map;
    once = h.once;
    fresh_ids = λ k f.
        let g = h.fresh_ids k f in
        record {
          unlisted = g.unlisted;
          not_due = g.not_due;
          not_doomed = g.not_doomed;
          unread = ground (arith, g.unread, ap w.readers);
        };
    idle = h.idle;
    kept = h.kept;
    served = λ a k d r. elim (Bool-cases (k == id)) [
      | inl same ↦
          subst (λ j. IsServed Url Chan (view Url Chan (poll Url Chan id c w) j) d)
            (sym ((==_iff k id).0 same)) (polled-IsServed id c a e d (ground arith))
      | inr differs ↦
          IsServed-same Url Chan (view Url Chan w k) d _ _ _ _ _ refl refl (ground arith) refl refl
            (h.served a k d (ground arith))
    ];
  }
