-- ===== src/Body/Reachable.antt =====
-- Every reachable state of a shared body serves its readers: the remaining steps, and what follows.
use gosub_sonar.Prelude.{
  ℕ, Bool, ◌≡◌, ◌≢◌, refl, sym, ◌∙◌, inl, inr, true, false, List, [], ◌∷◌, ◌++◌, Option, none, some,
  Text, if◌then◌else◌, arith, Bool-cases, subst, contains, IsMap, remove, contains-remove,
  remove-IsMap,
}
use gosub_sonar.Web.Errors.{NetError}
use gosub_sonar.Web.Channels.{ChannelApi}
use gosub_sonar.Body.{Subscriber, id_key, remove_all, remove_ids, error, finish, pending, poll_next}
use gosub_sonar.Body.World.{
  World, Reader, end_push, abandon, missed, no_push, give_up, has_sender, Step, Reach, fresh,
  begins, delivers, sends, ends_push, gives_up, abandons, errors, finishes, attaches, polls, drops,
  here, next,
}
use gosub_sonar.Body.Standing.{
  follows, cut_off, carried-seen, IsServed-same, over-IsServed, given_up-IsServed, closed-IsServed,
}
use gosub_sonar.Body.Delivery.{IsSound, due, member, view, fresh-IsSound, begin-IsSound}
use gosub_sonar.Body.Handing.{deliver-IsSound, send-IsSound}
use gosub_sonar.Body.Attaching.{attach-IsSound, poll-IsSound, drop_stream-IsSound}

contains-remove_all :
    (id : ℕ) (ids : List ℕ) (subs : List (ℕ × Subscriber))
    → contains id (remove_all ids subs) ≡ (if member id ids then false else contains id subs)
unfolding remove_all
contains-remove_all id [] subs = refl
contains-remove_all id (k ∷ ids) subs =
    ground (arith, contains-remove_all id ids (remove k subs), contains-remove k id subs)

remove_all-IsMap :
    (ids : List ℕ) (subs : List (ℕ × Subscriber)) → IsMap subs → IsMap (remove_all ids subs)
unfolding remove_all
remove_all-IsMap [] subs h = h
remove_all-IsMap (k ∷ ids) subs h = remove_all-IsMap ids (remove k subs) (remove-IsMap k subs h)

remove_all-nil : (ids : List ℕ) → remove_all ids [] ≡ []
unfolding remove_all remove
remove_all-nil [] = refl
remove_all-nil (k ∷ ids) = remove_all-nil ids

module _ (Url : Type 0) (Chan : ChannelApi) (w : World Url Chan) (h : IsSound Url Chan w) where
  end_push-IsSound :
      w.push.targets ≡ [] → w.push.waiting ≡ [] → IsSound Url Chan (end_push Url Chan w)
  unfolding remove_ids
  end_push-IsSound e f =
      let nothing : (id : ℕ) → due Url Chan w.push id ≡ 0 = λ id. rw (e, f) refl in
      record {
        emptied = λ c. rw (h.emptied c) (remove_all-nil w.push.to_remove);
        is_map = remove_all-IsMap w.push.to_remove w.body.subs h.is_map;
        once = λ id. omega arith;
        fresh_ids = λ id f.
            let g = h.fresh_ids id f in
            record {
              unlisted =
                  ground (arith, contains-remove_all id w.push.to_remove w.body.subs, g.unlisted);
              not_due = refl;
              not_doomed = refl;
              unread = g.unread;
            };
        idle = λ e. refl;
        kept = h.kept;
        served = λ a id c r.
            IsServed-same Url Chan _ c _ _ _ _ _
              (contains-remove_all id w.push.to_remove w.body.subs) refl refl (sym (nothing id))
              refl (over-IsServed Url Chan (view Url Chan w id) c (nothing id) (h.served a id c r));
      }

  abbrev stopped : Option (NetError Url) → World Url Chan
  stopped e = record w { body = record w.body { closed = true; error = e; subs = [] } }

  stopped-IsSound :
      (e : Option (NetError Url)) → w.body.closed ≡ false → IsSound Url Chan (stopped e)
  unfolding contains
  stopped-IsSound e live = record {
    emptied = λ c. refl;
    is_map = tt;
    once = h.once;
    fresh_ids = λ id f.
        let g = h.fresh_ids id f in
        record {
          unlisted = refl;
          not_due = g.not_due;
          not_doomed = g.not_doomed;
          unread = g.unread;
        };
    idle = h.idle;
    kept = h.kept;
    served = λ a id c r. closed-IsServed Url Chan (view Url Chan w id) c e live (h.served a id c r);
  }

  error-IsSound :
      (e : NetError Url) → IsSound Url Chan (record w { body = error Url Chan w.body e })
  unfolding error
  error-IsSound e = elim (Bool-cases w.body.closed) [
    | inl over ↦ subst (λ b. IsSound Url Chan (record w { body = b })) (ground arith) h
    | inr live ↦
        subst (λ b. IsSound Url Chan (record w { body = b })) (ground arith)
          (stopped-IsSound (some e) live)
  ]

  finish-IsSound : IsSound Url Chan (record w { body = finish Url Chan w.body })
  unfolding finish
  finish-IsSound = elim (Bool-cases w.body.closed) [
    | inl over ↦ subst (λ b. IsSound Url Chan (record w { body = b })) (ground arith) h
    | inr live ↦
        subst (λ b. IsSound Url Chan (record w { body = b })) (ground arith)
          (stopped-IsSound w.body.error live)
  ]

  -- The push is dropped.
  abandon-IsSound : IsSound Url Chan (abandon Url Chan w)
  abandon-IsSound = record {
    emptied = h.emptied;
    is_map = h.is_map;
    once = λ id. omega arith;
    fresh_ids = λ id f.
        let g = h.fresh_ids id f in
        record { unlisted = g.unlisted; not_due = refl; not_doomed = refl; unread = g.unread };
    idle = λ e. refl;
    kept = h.kept;
    served = λ a. absurd (cc a);
  }

  -- The push is dropped, and the body ends with an error.
  abbrev failed_now : NetError Url → Bool → World Url Chan
  failed_now e abandoned = record w {
    body = record w.body { delivering = false; closed = true; error = some e; subs = [] };
    producing = false;
    push = no_push;
    abandoned = abandoned;
  }

  failed_now-IsSound :
      (e : NetError Url) → w.body.closed ≡ false → IsSound Url Chan (failed_now e w.abandoned)
  unfolding contains
  failed_now-IsSound e open_yet = record {
    emptied = λ c. refl;
    is_map = tt;
    once = λ id. omega arith;
    fresh_ids = λ id f.
        let g = h.fresh_ids id f in
        record { unlisted = refl; not_due = refl; not_doomed = refl; unread = g.unread };
    idle = λ e. refl;
    kept = h.kept;
    served = λ a id c r.
        given_up-IsServed Url Chan (view Url Chan w id) c e open_yet (h.served a id c r);
  }

  give_up_closed :
      (e : NetError Url) → w.body.closed ≡ true → give_up Url Chan e w ≡ abandon Url Chan w
  unfolding error
  give_up_closed e over = ground (arith, over)

  give_up_open :
      (e : NetError Url) → w.body.closed ≡ false → give_up Url Chan e w ≡ failed_now e w.abandoned
  unfolding error
  give_up_open e open_yet = ground (arith, open_yet)

  give_up-IsSound : (e : NetError Url) → IsSound Url Chan (give_up Url Chan e w)
  give_up-IsSound e = elim (Bool-cases w.body.closed) [
    | inl over ↦ subst (IsSound Url Chan) (sym (give_up_closed e over)) abandon-IsSound
    | inr open_yet ↦
        subst (IsSound Url Chan) (sym (give_up_open e open_yet)) (failed_now-IsSound e open_yet)
  ]

module _ (Url : Type 0) (Chan : ChannelApi) where
  pub Step-IsSound :
      {v w : World Url Chan} → Step Url Chan v w → IsSound Url Chan v → IsSound Url Chan w
  Step-IsSound {v} (begins wait chunk e) h = begin-IsSound Url Chan v h wait chunk e
  Step-IsSound {v} (delivers t ts e) h = deliver-IsSound Url Chan v h t ts e
  Step-IsSound {v} (sends t ts e f room) h = send-IsSound Url Chan v h t ts e f
  Step-IsSound {v} (ends_push e f) h = end_push-IsSound Url Chan v h e f
  Step-IsSound {v} (gives_up e busy) h = give_up-IsSound Url Chan v h e
  Step-IsSound {v} (abandons busy) h = abandon-IsSound Url Chan v h
  Step-IsSound {v} (errors e) h = error-IsSound Url Chan v h e
  Step-IsSound {v} finishes h = finish-IsSound Url Chan v h
  Step-IsSound {v} (attaches n replay lossless) h = attach-IsSound Url Chan v h n replay lossless
  Step-IsSound {v} (polls id c e) h = poll-IsSound Url Chan v h id c e
  Step-IsSound {v} (drops id c e) h = drop_stream-IsSound Url Chan v h id

  pub Reach-IsSound :
      (max_queue replay_limit : ℕ) {w : World Url Chan}
      → Reach Url Chan (fresh Url Chan max_queue replay_limit) w
      → IsSound Url Chan w
  Reach-IsSound max_queue replay_limit here = fresh-IsSound Url Chan max_queue replay_limit
  Reach-IsSound max_queue replay_limit (next r s) =
      Step-IsSound s (Reach-IsSound max_queue replay_limit r)

  -- However pushes, ends, subscribers and polls are interleaved, provided that a dropped `push_wait`
  -- is followed by an error at once, on a body that is still open: the body of a stream that has
  -- ended cleanly is closed, and the stream has passed every byte that was pushed, or, as a live
  -- subscriber, every byte that was pushed since it began.
  pub Reach-clean_end :
      (max_queue replay_limit : ℕ) {w : World Url Chan} (id : ℕ) (c : Reader Url Chan)
      → Reach Url Chan (fresh Url Chan max_queue replay_limit) w
      → w.abandoned ≡ false
      → w.readers id ≡ some c
      → c.outcome ≡ some none
      → (w.body.closed ≡ true) × (missed Url Chan c.joined ++ c.passed ≡ w.pushed)
  Reach-clean_end max_queue replay_limit id c r a e o =
      let k = ((Reach-IsSound max_queue replay_limit r).served a id c e).ended o in (k.2, k.3)

  -- At any time, provided that a dropped `push_wait` is followed by an error at once, on a body that is
  -- still open: what a stream has passed is a prefix of the bytes that were pushed, or, for a live
  -- subscriber, of those pushed since it began. No stream, one that ends with an error included,
  -- skips, repeats or reorders any of them.
  pub Reach-prefix :
      (max_queue replay_limit : ℕ) {w : World Url Chan} (id : ℕ) (c : Reader Url Chan)
      → Reach Url Chan (fresh Url Chan max_queue replay_limit) w
      → w.abandoned ≡ false
      → w.readers id ≡ some c
      → (rest : Text) × (missed Url Chan c.joined ++ c.passed ++ rest ≡ w.pushed)
  Reach-prefix max_queue replay_limit {w} id c r a e =
      elim ((Reach-IsSound max_queue replay_limit r).served a id c e).standing [
        | follows l f s m ↦ (_, sym (carried-seen Url Chan _ c _) ∙ f)
        | cut_off rest f z s b ↦ (_, sym (carried-seen Url Chan _ c rest) ∙ f)
      ]

  no_sender :
      {w : World Url Chan} (id : ℕ)
      → IsSound Url Chan w
      → w.body.closed ≡ true
      → w.producing ≡ false
      → has_sender Url Chan w id ≡ false
  unfolding contains
  no_sender {w} id h over free = rw (h.emptied over, h.idle free) refl

  -- Once the body is closed and no push is under way, no poll of any stream is left waiting: it
  -- gives a chunk, an error or the end.
  pub Reach-poll_ready :
      (max_queue replay_limit : ℕ) {w : World Url Chan} (id : ℕ) (c : Reader Url Chan)
      → Reach Url Chan (fresh Url Chan max_queue replay_limit) w
      → w.readers id ≡ some c
      → w.body.closed ≡ true
      → w.producing ≡ false
      → (poll_next Url Chan w.body.error
          (w.store.lagged id)
          (has_sender Url Chan w id)
          c.stream
          (w.store.channels id)).0
        ≢ pending
  unfolding poll_next
  Reach-poll_ready max_queue replay_limit {w} id c r e over free =
      rw (no_sender id (Reach-IsSound max_queue replay_limit r) over free) (λ p. ground arith)
