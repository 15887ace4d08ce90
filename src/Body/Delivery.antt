-- ===== src/Body/Delivery.antt =====
-- What every reachable state of a shared body has in common: each reader is served.
use gosub_sonar.Prelude.{
  ℕ, suc, ◌+◌, ◌≤◌, ◌≡◌, refl, ◌∙◌, inl, inr, Bool, true, false, not, ◌||◌, List, [], ◌∷◌, ◌++◌,
  Option, none, some, Text, if◌then◌else◌, ◌==◌, arith, any, retain, map, contains, IsMap,
  Bool-cases,
}
use mathlib.Core.List.{append-nil}
use gosub_sonar.Web.Channels.{ChannelApi}
use gosub_sonar.Body.{
  Subscriber, Target, State, id_key, with_replay_limit, keep, kept_with, record_chunk,
}
use gosub_sonar.Body.World.{World, begin, begun, Reader, Push, no_push, fresh}
use gosub_sonar.Body.Standing.{
  begun-IsServed, view_begun, flat-append, IsServed-same, View, IsServed, flat,
}

abbrev pub count : ℕ → List Target → ℕ
count id [] = 0
count id (t ∷ ts) = if t.id == id then suc (count id ts) else count id ts

pub count-retain :
    (id : ℕ) (p : Target → Bool) (ts : List Target)
    → count id (retain (λ t. not (p t)) ts) + count id (retain p ts) ≡ count id ts
count-retain id p [] = refl
count-retain id p (t ∷ ts) = ground (arith, count-retain id p ts)

pub any-count :
    (id : ℕ) (ts : List Target) → any (λ (t : Target). t.id == id) ts ≡ not (count id ts == 0)
any-count id [] = refl
any-count id (t ∷ ts) = ground (arith, any-count id ts)

abbrev pub member : ℕ → List ℕ → Bool
member id = any (λ k. k == id)

pub member-append : (id k : ℕ) (ks : List ℕ) → member id (ks ++ k ∷ []) ≡ (member id ks || k == id)
member-append id k [] = ground arith
member-append id k (j ∷ ks) = ground (arith, member-append id k ks)

abbrev pub targets_of : List (ℕ × Subscriber) → List Target
targets_of = map (λ (p : ℕ × Subscriber). record { id = p.0; lossless = p.1.lossless })

-- A map has each subscriber once.
pub count-targets_of :
    (id : ℕ) (subs : List (ℕ × Subscriber))
    → IsMap subs
    → count id (targets_of subs) ≡ (if contains id subs then 1 else 0)
unfolding contains
count-targets_of id [] h = refl
count-targets_of id ((k, v) ∷ subs) h = ground (arith, count-targets_of id subs h.1)

module _ (Url : Type 0) (Chan : ChannelApi) where
  abbrev pub due : Push → ℕ → ℕ
  due p id = count id p.targets + count id p.waiting

  abbrev pub view : World Url Chan → ℕ → View Url Chan
  view w id = record {
    listed = contains id w.body.subs;
    closed = w.body.closed;
    error = w.body.error;
    lagged = w.store.lagged id;
    channel = w.store.channels id;
    due = due w.push id;
    doomed = member id w.push.to_remove;
    chunk = w.push.chunk;
    pushed = w.pushed;
  }

  pub record IsFresh (w : World Url Chan) (id : ℕ) : Type 0 where
    pub unlisted : contains id w.body.subs ≡ false
    pub not_due : due w.push id ≡ 0
    pub not_doomed : member id w.push.to_remove ≡ false
    pub unread : w.readers id ≡ none

  pub record IsSound (w : World Url Chan) : Type 0 where
    pub emptied : w.body.closed ≡ true → w.body.subs ≡ []
    pub is_map : IsMap w.body.subs
    pub once : (id : ℕ) → due w.push id ≤ 1
    pub fresh_ids : (id : ℕ) → w.body.next_id ≤ id → IsFresh w id
    pub idle : w.producing ≡ false → w.push ≡ no_push
    pub kept : (k : List Text) → w.body.replay ≡ some k → flat k ≡ w.pushed
    pub served :
        w.abandoned ≡ false
        → (id : ℕ) (c : Reader Url Chan) → w.readers id ≡ some c
        → IsServed Url Chan (view w id) c

  pub fresh-IsSound : (max_queue replay_limit : ℕ) → IsSound (fresh Url Chan max_queue replay_limit)
  unfolding with_replay_limit contains
  fresh-IsSound max_queue replay_limit = record {
    emptied = λ e. refl;
    is_map = tt;
    once = λ id. omega arith;
    fresh_ids =
        λ id h. record { unlisted = refl; not_due = refl; not_doomed = refl; unread = refl };
    idle = λ e. refl;
    kept = λ k e. ground arith;
    served = λ a id c e. absurd (cc e);
  }

  keep-kept :
      (fits : Bool) (replay : Option (List Text)) (chunk pushed : Text)
      → ((k : List Text) → replay ≡ some k → flat k ≡ pushed)
      → (k : List Text) → kept_with Url Chan fits replay chunk ≡ some k
      → flat k ≡ pushed ++ chunk
  keep-kept true (some kept) [] pushed h k e = ground (arith, h kept refl, append-nil pushed)
  keep-kept true (some kept) (b ∷ chunk) pushed h k e =
      ground (arith, h kept refl, flat-append kept (b ∷ chunk))
  keep-kept true none chunk pushed h k e = absurd (cc e)
  keep-kept false replay chunk pushed h k e = absurd (cc e)

  record_chunk-closed :
      (st : State Url Chan) (chunk : Text) (wait : Bool)
      → st.closed ≡ true
      → record_chunk Url Chan st chunk wait ≡ none
  unfolding record_chunk
  record_chunk-closed st chunk wait e = rw e refl

  abbrev pub kept_by : State Url Chan → Text → Bool → State Url Chan
  kept_by st chunk wait = keep Url Chan (record st { delivering = wait }) chunk

  record_chunk-live :
      (st : State Url Chan) (chunk : Text) (wait : Bool)
      → st.closed ≡ false
      → record_chunk Url Chan st chunk wait ≡ some (kept_by st chunk wait, targets_of st.subs)
  unfolding record_chunk
  record_chunk-live st chunk wait e = ground arith

  abbrev pub live_begun : World Url Chan → Bool → Text → World Url Chan
  live_begun w wait chunk =
      begun Url Chan wait chunk (kept_by w.body chunk wait) (targets_of w.body.subs) w

  pub begin_closed :
      (w : World Url Chan) (wait : Bool) (chunk : Text)
      → w.body.closed ≡ true
      → begin Url Chan wait chunk w ≡ w
  unfolding begin
  begin_closed w wait chunk e = rw (record_chunk-closed w.body chunk wait e, begin) refl

  pub begin_live :
      (w : World Url Chan) (wait : Bool) (chunk : Text)
      → w.body.closed ≡ false
      → begin Url Chan wait chunk w ≡ live_begun w wait chunk
  unfolding begin
  begin_live w wait chunk e = rw (record_chunk-live w.body chunk wait e, begin) refl

  module _ (w : World Url Chan) (h : IsSound w) where
    begun-due :
        (wait : Bool) (chunk : Text) (id : ℕ)
        → due (live_begun w wait chunk).push id ≡ (if contains id w.body.subs then 1 else 0)
    begun-due true chunk id =
        count-retain id (λ t. t.lossless) (targets_of w.body.subs)
        ∙ count-targets_of id w.body.subs h.is_map
    begun-due false chunk id = omega (arith, count-targets_of id w.body.subs h.is_map)

    live_begun-IsSound :
        (wait : Bool) (chunk : Text)
        → w.producing ≡ false
        → w.body.closed ≡ false
        → IsSound (live_begun w wait chunk)
    unfolding keep
    live_begun-IsSound wait chunk free live =
        let quiet : (id : ℕ) → due w.push id ≡ 0 = λ id. rw (h.idle free) refl in
        let spared : (id : ℕ) → member id w.push.to_remove ≡ false = λ id. rw (h.idle free) refl in
        record {
          emptied = λ e. absurd (cc (e, live));
          is_map = h.is_map;
          once = λ id. ground (arith, begun-due wait chunk id);
          fresh_ids = λ id f.
              let g = h.fresh_ids id f in
              record {
                unlisted = g.unlisted;
                not_due = ground (arith, begun-due wait chunk id, g.unlisted);
                not_doomed = refl;
                unread = g.unread;
              };
          idle = λ e. absurd (cc e);
          kept = keep-kept _ w.body.replay chunk w.pushed h.kept;
          served = λ a id c e.
              IsServed-same Url Chan (view_begun Url Chan (view w id) chunk) c _ _ _ _ _ refl refl
                refl (begun-due wait chunk id) refl
                (begun-IsServed Url Chan (view w id) c chunk live (quiet id) (spared id)
                  (h.served a id c e));
        }

    pub begin-IsSound :
        (wait : Bool) (chunk : Text) → w.producing ≡ false → IsSound (begin Url Chan wait chunk w)
    begin-IsSound wait chunk free = elim (Bool-cases w.body.closed) [
      | inl over ↦ rw (begin_closed w wait chunk over) h
      | inr live ↦ rw (begin_live w wait chunk live) (live_begun-IsSound wait chunk free live)
    ]
