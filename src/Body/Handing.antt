-- ===== src/Body/Handing.antt =====
-- A push under way of a shared body: each target served keeps the readers served.
use gosub_sonar.Prelude.{
  ℕ, suc, ◌+◌, ◌≡◌, refl, ap, ◌∙◌, inl, inr, true, false, List, [], ◌∷◌, some, if◌then◌else◌, ◌==◌,
  arith, Bool-cases, ==_iff, subst,
}
use gosub_sonar.Web.Channels.{ChannelApi, TrySend, sent, full, closed}
use gosub_sonar.Body.{Target, try_deliver, Store}
use gosub_sonar.Body.World.{World, Reader, deliver, send}
use gosub_sonar.Body.Standing.{IsServed, IsServed-same, sent-IsServed, full-IsServed, not_closed}
use gosub_sonar.Body.Delivery.{IsSound, count, due, member, member-append, view}

module _ (Url : Type 0) (Chan : ChannelApi) (w : World Url Chan) (h : IsSound Url Chan w)
    (t : Target) (ts ws : List Target) where
  open Chan use {Channel, try_send}

  abbrev handed : World Url Chan
  handed =
      let r = try_deliver Url Chan w.store t w.push.chunk w.push.to_remove in
      record w { store = r.0; push = record w.push { targets = ts; waiting = ws; to_remove = r.1 } }

  abbrev outcome : Store Url Chan × List ℕ
  outcome = try_deliver Url Chan w.store t w.push.chunk w.push.to_remove

  -- Another subscriber than the target is not touched.
  other :
      (id : ℕ)
      → (t.id == id) ≡ false
      → (outcome.0.channels id ≡ w.store.channels id)
        × (outcome.0.lagged id ≡ w.store.lagged id)
        × (member id outcome.1 ≡ member id w.push.to_remove)
  unfolding try_deliver
  other id e = ground (arith, member-append id t.id w.push.to_remove)

  -- What the target's queue answered.
  abbrev answer : TrySend Channel
  answer = try_send (w.store.channels t.id) w.push.chunk

  sent-outcome :
      (d : Channel)
      → answer ≡ sent d
      → (outcome.0.channels t.id ≡ d)
        × (outcome.0.lagged t.id ≡ w.store.lagged t.id)
        × (outcome.1 ≡ w.push.to_remove)
  unfolding try_deliver
  sent-outcome d e = ground arith

  full-outcome :
      answer ≡ full
      → (outcome.0.channels t.id ≡ w.store.channels t.id)
        × (outcome.0.lagged t.id ≡ true)
        × (member t.id outcome.1 ≡ true)
  unfolding try_deliver
  full-outcome e = ground (arith, member-append t.id t.id w.push.to_remove)

  module _
      (split : (id : ℕ)
        → due Url Chan w.push id ≡ (
            if t.id == id
            then suc (count id ts + count id ws)
            else count id ts + count id ws)) where
    zero_left : (due Url Chan w.push t.id ≡ 1) × (count t.id ts + count t.id ws ≡ 0)
    zero_left = ground (arith, split t.id, h.once t.id)

    target-IsServed :
        (c : Reader Url Chan)
        → IsServed Url Chan (view Url Chan w t.id) c
        → (a : TrySend Channel) → answer ≡ a
        → IsServed Url Chan (view Url Chan handed t.id) c
    target-IsServed c s (sent d) e =
        let o = sent-outcome d e in
        IsServed-same Url Chan (record (view Url Chan w t.id) { channel = d; due = 0 }) c _ _ _ _ _
          refl o.1 o.0 zero_left.1 (ap (member t.id) o.2)
          (sent-IsServed Url Chan (view Url Chan w t.id) c d e zero_left.0 s)
    target-IsServed c s full e =
        let o = full-outcome e in
        IsServed-same Url Chan
          (record (view Url Chan w t.id) { lagged = true; doomed = true; due = 0 }) c _ _ _ _ _ refl
          o.1 o.0 zero_left.1 o.2 (full-IsServed Url Chan (view Url Chan w t.id) c zero_left.0 s)
    target-IsServed c s closed e = absurd (not_closed Url Chan (view Url Chan w t.id) c e s)

    other-IsServed :
        (id : ℕ) (c : Reader Url Chan)
        → (t.id == id) ≡ false
        → IsServed Url Chan (view Url Chan w id) c
        → IsServed Url Chan (view Url Chan handed id) c
    other-IsServed id c e s =
        let o = other id e in
        IsServed-same Url Chan (view Url Chan w id) c _ _ _ _ _ refl o.1 o.0
          (ground (arith, split id)) o.2 s

    handed-IsServed :
        w.abandoned ≡ false
        → (id : ℕ) (c : Reader Url Chan) → w.readers id ≡ some c
        → IsServed Url Chan (view Url Chan handed id) c
    handed-IsServed a id c e = elim (Bool-cases (t.id == id)) [
      | inl same ↦
          subst (λ k. IsServed Url Chan (view Url Chan handed k) c) ((==_iff t.id id).0 same)
            (target-IsServed c (h.served a t.id c (ap w.readers ((==_iff t.id id).0 same) ∙ e))
              answer refl)
      | inr differs ↦ other-IsServed id c differs (h.served a id c e)
    ]

    pub handed-IsSound : IsSound Url Chan handed
    handed-IsSound = record {
      emptied = h.emptied;
      is_map = h.is_map;
      once = λ id. ground (arith, split id, h.once id);
      fresh_ids = λ id f.
          let g = h.fresh_ids id f in
          record {
            unlisted = g.unlisted;
            not_due = ground (arith, split id, g.not_due);
            not_doomed = ground (arith, split id, g.not_due, other id, g.not_doomed);
            unread = g.unread;
          };
      idle = λ e. absurd (ground (arith, split t.id, ap (λ p. due Url Chan p t.id) (h.idle e)));
      kept = h.kept;
      served = handed-IsServed;
    }

deliver-due :
    (Url : Type 0) (Chan : ChannelApi) (w : World Url Chan) (t : Target) (ts ws : List Target)
    → w.push.targets ≡ t ∷ ts
    → w.push.waiting ≡ ws
    → (id : ℕ)
    → due Url Chan w.push id
      ≡ (if t.id == id then suc (count id ts + count id ws) else count id ts + count id ws)
deliver-due Url Chan w t ts ws e f id = rw (e, f) (ground arith)

send-due :
    (Url : Type 0) (Chan : ChannelApi) (w : World Url Chan) (t : Target) (ts : List Target)
    → w.push.targets ≡ []
    → w.push.waiting ≡ t ∷ ts
    → (id : ℕ)
    → due Url Chan w.push id ≡ (
        if t.id == id
        then suc (count id w.push.targets + count id ts)
        else count id w.push.targets + count id ts)
send-due Url Chan w t ts e f id = rw (e, f) (ground arith)

module _ (Url : Type 0) (Chan : ChannelApi) (w : World Url Chan) (h : IsSound Url Chan w) where
  pub deliver-IsSound :
      (t : Target) (ts : List Target)
      → w.push.targets ≡ t ∷ ts
      → IsSound Url Chan (deliver Url Chan t ts w)
  deliver-IsSound t ts e =
      handed-IsSound Url Chan w h t ts w.push.waiting
        (deliver-due Url Chan w t ts w.push.waiting e refl)

  pub send-IsSound :
      (t : Target) (ts : List Target)
      → w.push.targets ≡ []
      → w.push.waiting ≡ t ∷ ts
      → IsSound Url Chan (send Url Chan t ts w)
  send-IsSound t ts e f =
      handed-IsSound Url Chan w h t w.push.targets ts (send-due Url Chan w t ts e f)
