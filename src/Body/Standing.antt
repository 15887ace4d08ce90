-- ===== src/Body/Standing.antt =====
-- One reader of a shared body, as everything that the body and the push under way hold about it:
-- the reader has all that was pushed, or is owed the chunk under way, or has been cut off.
use gosub_sonar.Prelude.{
  ℕ, ◌≡◌, refl, sym, ap, ◌∙◌, ◌⊎◌, inl, inr, Bool, true, false, List, [], ◌∷◌, ◌++◌, Option, none,
  some, Text, if◌then◌else◌, ◌==◌, arith, is_some,
}
use mathlib.Core.List.{append-nil, append_assoc}
use gosub_sonar.Web.Errors.{NetError}
use gosub_sonar.Web.Channels.{ChannelApi, sent, closed}
use gosub_sonar.Body.World.{Reader, seen}

abbrev pub flat : List Text → Text
flat [] = []
flat (c ∷ cs) = c ++ flat cs

pub flat-append : (xs : List Text) (c : Text) → flat (xs ++ c ∷ []) ≡ flat xs ++ c
flat-append [] c = append-nil c
flat-append (x ∷ xs) c = ap (λ r. x ++ r) (flat-append xs c) ∙ sym (append_assoc x (flat xs) c)

module _ (Url : Type 0) (Chan : ChannelApi) where
  open Chan use {
    Channel, queued, has_receiver, recv, queued-sent, has_receiver-sent, closed_without_receiver,
  }

  pub record View : Type 0 where
    pub listed : Bool
    pub closed : Bool
    pub error : Option (NetError Url)
    pub lagged : Bool
    pub channel : Channel
    pub due : ℕ
    pub doomed : Bool
    pub chunk : Text
    pub pushed : Text

  -- What the reader has passed and what still lies ready for it.
  abbrev pub carried : Channel → Reader Url Chan → Text
  carried ch c = seen Url Chan c ++ flat c.stream.prefix ++ flat (queued ch)

  pub carried-seen :
      (ch : Channel) (c : Reader Url Chan) (rest : Text)
      → carried ch c ++ rest
        ≡ seen Url Chan c ++ (flat c.stream.prefix ++ (flat (queued ch) ++ rest))
  carried-seen ch c rest = simp append_assoc

  carried-sent :
      (c : Reader Url Chan) (ch d : Channel) (x : Text)
      → Chan.try_send ch x ≡ sent d
      → carried d c ≡ carried ch c ++ x
  carried-sent c ch d x e = simp (queued-sent ch d x e, flat-append, append_assoc)

  abbrev pub owed : View → Text
  owed v = if v.due == 0 then [] else v.chunk

  pub data Standing (v : View) (c : Reader Url Chan) : Type 0 where
    follows :
        v.lagged ≡ false
        → carried v.channel c ++ owed v ≡ v.pushed
        → (v.listed ≡ true) ⊎ (v.closed ≡ true)
        → v.doomed ≡ false
        → Standing v c
    cut_off :
        (rest : Text)
        → carried v.channel c ++ rest ≡ v.pushed
        → v.due ≡ 0
        → (v.listed ≡ false) ⊎ (v.doomed ≡ true)
        → (v.lagged ≡ true) ⊎ ((v.closed ≡ true) × (is_some v.error ≡ true))
        → Standing v c

  pub record IsServed (v : View) (c : Reader Url Chan) : Type 0 where
    pub standing : Standing v c
    pub alive : has_receiver v.channel ≡ true
    pub ended :
        c.outcome ≡ some none
        → (c.stream.done ≡ true)
          × (c.stream.prefix ≡ [])
          × (v.closed ≡ true)
          × (seen Url Chan c ≡ v.pushed)

  pub IsServed-same :
      (v : View) (c : Reader Url Chan) (l a : Bool) (ch : Channel) (n : ℕ) (m : Bool)
      → l ≡ v.listed
      → a ≡ v.lagged
      → ch ≡ v.channel
      → n ≡ v.due
      → m ≡ v.doomed
      → IsServed v c
      → IsServed (record v { listed = l; lagged = a; channel = ch; due = n; doomed = m }) c
  IsServed-same v c l a ch n m el ea ec en em h = rw (el, ea, ec, en, em) h

  -- A new chunk is due for every reader that is listed.
  abbrev pub view_begun : View → Text → View
  view_begun v chunk = record v {
    due = if v.listed then 1 else 0;
    doomed = false;
    chunk = chunk;
    pushed = v.pushed ++ chunk;
  }

  module _ (v : View) (c : Reader Url Chan) where
    begun-Standing :
        (chunk : Text)
        → v.closed ≡ false
        → v.due ≡ 0
        → v.doomed ≡ false
        → Standing v c
        → Standing (view_begun v chunk) c
    begun-Standing chunk live due doomed (follows l e s d) =
        follows l (ground (arith, append-nil (carried v.channel c))) s refl
    begun-Standing chunk live due doomed (cut_off rest e z s r) =
        cut_off (rest ++ chunk)
          (sym (append_assoc (carried v.channel c) rest chunk) ∙ ap (λ t. t ++ chunk) e)
          (ground arith) (ground arith) r

    pub begun-IsServed :
        (chunk : Text)
        → v.closed ≡ false
        → v.due ≡ 0
        → v.doomed ≡ false
        → IsServed v c
        → IsServed (view_begun v chunk) c
    begun-IsServed chunk live due doomed h = record {
      standing = begun-Standing chunk live due doomed h.standing;
      alive = h.alive;
      ended = λ o. ground (arith, h.ended o);
    }

    -- The chunk is in the queue.
    pub sent-IsServed :
        (d : Channel)
        → Chan.try_send v.channel v.chunk ≡ sent d
        → v.due ≡ 1
        → IsServed v c
        → IsServed (record v { channel = d; due = 0 }) c
    sent-IsServed d e one h = record {
      standing = elim h.standing [
        | follows l f s m ↦
            follows l
              (append-nil (carried d c) ∙ carried-sent c v.channel d v.chunk e ∙ ground (arith, f))
              s m
        | cut_off rest f z s r ↦ absurd (omega (arith, z))
      ];
      alive = has_receiver-sent _ _ _ e ∙ h.alive;
      ended = h.ended;
    }

    -- The queue is full: the reader is marked, and will be removed.
    pub full-IsServed :
        v.due ≡ 1 → IsServed v c → IsServed (record v { lagged = true; doomed = true; due = 0 }) c
    full-IsServed one h = record {
      standing = elim h.standing [
        | follows l f s m ↦ cut_off (owed v) f refl (inr refl) (inl refl)
        | cut_off rest f z s r ↦ absurd (omega (arith, z))
      ];
      alive = h.alive;
      ended = h.ended;
    }

    pub not_closed : Chan.try_send v.channel v.chunk ≡ closed → IsServed v c → ⊥
    not_closed e h = cc (closed_without_receiver _ _ e, h.alive)

    -- The push is over, and the marked subscribers are removed.
    pub over-IsServed :
        v.due ≡ 0
        → IsServed v c
        → IsServed
            (record v { listed = if v.doomed then false else v.listed; doomed = false; chunk = [] })
            c
    over-IsServed none_due h = record {
      standing = elim h.standing [
        | follows l f s m ↦ follows l (ground arith) (ground arith) refl
        | cut_off rest f z s r ↦ cut_off rest f z (ground arith) r
      ];
      alive = h.alive;
      ended = h.ended;
    }

    pub given_up-IsServed :
        (e : NetError Url)
        → v.closed ≡ false
        → IsServed v c
        → IsServed
            (record v {
              closed = true;
              error = some e;
              listed = false;
              due = 0;
              doomed = false;
              chunk = [];
            })
            c
    given_up-IsServed e live h = record {
      standing = elim h.standing [
        | follows l f s m ↦ cut_off (owed v) f refl (inl refl) (inr (refl, refl))
        | cut_off rest f z s r ↦ cut_off rest f refl (inl refl) (inr (refl, refl))
      ];
      alive = h.alive;
      ended = λ o. ground (arith, h.ended o);
    }

    -- The body ends, while a push may be under way.
    pub closed-IsServed :
        (e : Option (NetError Url))
        → v.closed ≡ false
        → IsServed v c
        → IsServed (record v { closed = true; error = e; listed = false }) c
    closed-IsServed e live h = record {
      standing = elim h.standing [
        | follows l f s m ↦ follows l f (inr refl) m
        | cut_off rest f z s r ↦ cut_off rest f z (inl refl) (ground arith)
      ];
      alive = h.alive;
      ended = λ o. ground (arith, h.ended o);
    }
