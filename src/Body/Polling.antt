-- ===== src/Body/Polling.antt =====
-- A reader of a shared body that polls its stream, and one that has just attached.
use gosub_sonar.Prelude.{
  ℕ, ◌≡◌, ◌≢◌, refl, sym, ap, ◌∙◌, inl, inr, Bool, true, false, not, ◌||◌, List, [], ◌∷◌, ◌++◌,
  Option, none, some, Text, if◌then◌else◌, ◌==◌, arith, Bool-cases, Option-cases,
}
use mathlib.Core.List.{append-nil, append_assoc}
use gosub_sonar.Web.Errors.{NetError}
use gosub_sonar.Web.Channels.{ChannelApi}
use gosub_sonar.Body.{failed, finished, poll_next, lag_error}
use gosub_sonar.Body.World.{Reader, Joined, missed, seen, after_poll}
use gosub_sonar.Body.Standing.{View, follows, cut_off, IsServed, carried, owed, flat}

module _ (Url : Type 0) (Chan : ChannelApi) where
  open Chan use {
    Channel, queued, has_receiver, recv, recv-some, recv-none, has_receiver-recv, queued-channel,
    has_receiver-channel,
  }

  -- What a reader has passed and still has ready is unchanged by a step that only moves a chunk.
  moved-IsServed :
      (v : View Url Chan) (c d : Reader Url Chan) (ch : Channel)
      → has_receiver ch ≡ has_receiver v.channel
      → carried Url Chan ch d ≡ carried Url Chan v.channel c
      → d.outcome ≢ some none
      → IsServed Url Chan v c
      → IsServed Url Chan (record v { channel = ch }) d
  moved-IsServed v c d ch alive same going h = record {
    standing = elim h.standing [
      | follows l f s m ↦ follows l (ap (λ t. t ++ owed Url Chan v) same ∙ f) s m
      | cut_off rest f z s r ↦ cut_off rest (ap (λ t. t ++ rest) same ∙ f) z s r
    ];
    alive = alive ∙ h.alive;
    ended = λ o. absurd (going o);
  }

  module _ (v : View Url Chan) (c : Reader Url Chan) (h : IsServed Url Chan v c) where
    -- The stream takes a chunk of its prefix.
    prefix-IsServed :
        (chunk : Text) (chunks : List Text)
        → c.stream.prefix ≡ chunk ∷ chunks
        → IsServed Url Chan v
            (record c { stream = record c.stream { prefix = chunks }; passed = c.passed ++ chunk })
    prefix-IsServed chunk chunks e =
        moved-IsServed v c _ v.channel refl (simp (e, append_assoc)) (λ o. cc ((h.ended o).1, e)) h

    recv-IsServed :
        (chunk : Text) (d : Channel)
        → c.stream.prefix ≡ []
        → c.stream.done ≡ false
        → recv v.channel ≡ some (chunk, d)
        → IsServed Url Chan (record v { channel = d }) (record c { passed = c.passed ++ chunk })
    recv-IsServed chunk d e going r =
        moved-IsServed v c _ d (has_receiver-recv _ _ _ r)
          (simp (e, append_assoc, recv-some _ _ _ r)) (λ o. cc ((h.ended o).0, going)) h

    carried-drained :
        c.stream.prefix ≡ []
        → recv v.channel ≡ none
        → carried Url Chan v.channel c ≡ seen Url Chan c
    carried-drained e r = simp (e, recv-none _ r, append-nil)

    -- The queue is drained and no sender is left.
    finished-seen :
        c.stream.prefix ≡ []
        → recv v.channel ≡ none
        → v.listed ≡ false
        → v.due ≡ 0
        → v.lagged ≡ false
        → v.error ≡ none
        → (v.closed ≡ true) × (seen Url Chan c ≡ v.pushed)
    finished-seen e r l z a x = elim h.standing [
      | follows b f s m ↦ (
        ground arith,
        sym (append-nil (seen Url Chan c)) ∙ ground (arith, f, carried-drained e r),
      )
      | cut_off rest f y s b ↦ ground (arith, x)
    ]

    -- The stream reports its end: an error if it was cut off, and a clean end otherwise.
    end-IsServed :
        (o : Option (NetError Url))
        → c.stream.prefix ≡ []
        → (o ≡ none → (v.closed ≡ true) × (seen Url Chan c ≡ v.pushed))
        → IsServed Url Chan v
            (record c { stream = record c.stream { done = true }; outcome = some o })
    end-IsServed o e clean = record {
      standing = elim h.standing [
        | follows l f s m ↦ follows l f s m
        | cut_off rest f z s r ↦ cut_off rest f z s r
      ];
      alive = h.alive;
      ended = λ p. let k = clean (ground (arith, p)) in (refl, e, k.0, k.1);
    }

  abbrev reader :
      List Text → Bool → Joined Url Chan → Text → Option (Option (NetError Url)) → Reader Url Chan
  reader prefix done joined passed outcome = record {
    stream = record { prefix = prefix; done = done };
    joined = joined;
    passed = passed;
    outcome = outcome;
  }

  -- The queue is drained and no sender is left: an error if the reader was cut off or the body
  -- failed, and a clean end otherwise.
  quit-IsServed :
      (v : View Url Chan) (joined : Joined Url Chan) (passed : Text)
      (outcome : Option (Option (NetError Url)))
      → IsServed Url Chan v (reader [] false joined passed outcome)
      → recv v.channel ≡ none
      → v.listed ≡ false
      → v.due ≡ 0
      → (lagged : Bool) (error : Option (NetError Url)) → v.lagged ≡ lagged
      → v.error ≡ error
      → IsServed Url Chan v (
          after_poll Url Chan
            (reader [] false joined passed outcome)
            (record { prefix = []; done = true })
            (if lagged
              then failed (lag_error Url Chan)
              else (elim error [ none ↦ finished | some e ↦ failed e ])))
  quit-IsServed v joined passed outcome h r l z true error a e =
      end-IsServed v _ h (some (lag_error Url Chan)) refl (λ o. absurd (cc o))
  quit-IsServed v joined passed outcome h r l z false (some x) a e =
      end-IsServed v _ h (some x) refl (λ o. absurd (cc o))
  quit-IsServed v joined passed outcome h r l z false none a e =
      end-IsServed v _ h none refl (λ o. finished-seen v _ h refl r l z a e)

  -- However the poll turns out, the reader is still served.
  poll_parts-IsServed :
      (v : View Url Chan) (prefix : List Text) (done : Bool) (joined : Joined Url Chan)
      (passed : Text) (outcome : Option (Option (NetError Url))) (has_sender : Bool)
      → has_sender ≡ (v.listed || not (v.due == 0))
      → IsServed Url Chan v (reader prefix done joined passed outcome)
      → let c = reader prefix done joined passed outcome in
        let r = poll_next Url Chan v.error v.lagged has_sender c.stream v.channel in
        IsServed Url Chan (record v { channel = r.2 }) (after_poll Url Chan c r.1 r.0)
  unfolding poll_next
  poll_parts-IsServed v (chunk ∷ chunks) done joined passed outcome b q h =
      prefix-IsServed v _ h chunk chunks refl
  poll_parts-IsServed v [] true joined passed outcome b q h = h
  poll_parts-IsServed v [] false joined passed outcome b q h =
      elim (Option-cases (recv v.channel)) [
        | inr ((chunk, d), r) ↦ rw (r, poll_next) (recv-IsServed v _ h chunk d refl refl r)
        | inl r ↦ elim (Bool-cases b) [
          | inl waits ↦ rw (r, poll_next) (rw (waits, poll_next) h)
          | inr over ↦
              rw (r, poll_next)
                (rw (over, poll_next)
                  (quit-IsServed v joined passed outcome h r (ground (arith, q, over))
                    (ground (arith, q, over)) v.lagged v.error refl refl))
        ]
      ]

  pub poll-IsServed :
      (v : View Url Chan) (c : Reader Url Chan) (has_sender : Bool)
      → has_sender ≡ (v.listed || not (v.due == 0))
      → IsServed Url Chan v c
      → let r = poll_next Url Chan v.error v.lagged has_sender c.stream v.channel in
        IsServed Url Chan (record v { channel = r.2 }) (after_poll Url Chan c r.1 r.0)
  poll-IsServed v c b q h =
      poll_parts-IsServed v c.stream.prefix c.stream.done c.joined c.passed c.outcome b q h

  -- A stream that has just been registered stands on all that was pushed: in its prefix, or passed.
  pub attached-IsServed :
      (v : View Url Chan) (n : ℕ) (kept : List Text) (joined : Joined Url Chan)
      → v.channel ≡ Chan.channel n
      → v.lagged ≡ false
      → v.due ≡ 0
      → v.doomed ≡ false
      → v.listed ≡ true
      → missed Url Chan joined ++ flat kept ≡ v.pushed
      → IsServed Url Chan v (reader kept false joined [] none)
  attached-IsServed v n kept joined e l z m s p = record {
    standing = follows l (simp (e, queued-channel n, append-nil, z) p) (inl s) m;
    alive = rw e (has_receiver-channel n);
    ended = λ o. absurd (cc o);
  }
