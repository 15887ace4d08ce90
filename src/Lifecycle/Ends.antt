-- ===== src/Lifecycle/Ends.antt =====
-- What one request's observer is told, over any events.
use gosub_sonar.Prelude.{
  ◌≡◌, refl, sym, ap, ◌∙◌, inl, inr, Bool, true, false, List, [], ◌∷◌, ◌++◌, Option, codes, map,
  arith, All, All-append, Bool-cases, subst,
}
use mathlib.Core.List.{append_assoc, map-append, append-nil}
use gosub_sonar.Web.Events.{NetEvent, is_terminal, accepted, cancelled}
use gosub_sonar.Lifecycle.{Lifecycle, Report, event, activates, finishes, accept, on_event, dropped}

module _ (Url HeaderMap Ref : Type 0) where
  abbrev pub opened : Url → Bool → Option Ref → List (Report Url HeaderMap Ref)
  opened url joined work = activates Url HeaderMap Ref work ++ event (accepted url joined) ∷ []

  -- The work is begun, then `Accepted`, then events that are no end.
  pub record IsOpen (work : Option Ref) (told : List (Report Url HeaderMap Ref)) : Type 0 where
    pub url : Url
    pub joined : Bool
    pub events : List (NetEvent Url HeaderMap)
    pub no_end : All (λ e. is_terminal e ≡ false) events
    pub told_as : told ≡ opened url joined work ++ map event events

  -- The same, and then one end, with which the work is done.
  pub record IsClosed (work : Option Ref) (told : List (Report Url HeaderMap Ref)) : Type 0 where
    pub before : List (Report Url HeaderMap Ref)
    pub open_before : IsOpen work before
    pub the_end : NetEvent Url HeaderMap
    pub terminal : is_terminal the_end ≡ true
    pub told_as : told ≡ (before ++ event the_end ∷ []) ++ finishes Url HeaderMap Ref work

  pub record IsInOrder (l : Lifecycle Url HeaderMap Ref) : Type 0 where
    pub if_open : l.ended ≡ false → IsOpen l.work l.told
    pub if_ended : l.ended ≡ true → IsClosed l.work l.told
    pub signalled : l.ended_signal ≡ l.ended

  pub accept-IsInOrder :
      (url : Url) (joined : Bool) (work : Option Ref)
      → IsInOrder (accept Url HeaderMap Ref url joined work)
  unfolding accept
  accept-IsInOrder url joined work = record {
    if_open = λ e. record {
      url = url;
      joined = joined;
      events = [];
      no_end = tt;
      told_as = sym (append-nil _);
    };
    if_ended = λ e. absurd (cc e);
    signalled = refl;
  }

  more-IsOpen :
      (work : Option Ref) (told : List (Report Url HeaderMap Ref)) (ev : NetEvent Url HeaderMap)
      → is_terminal ev ≡ false
      → IsOpen work told
      → IsOpen work (told ++ event ev ∷ [])
  more-IsOpen work told ev e h = record {
    url = h.url;
    joined = h.joined;
    events = h.events ++ ev ∷ [];
    no_end = All-append (λ d. is_terminal d ≡ false) h.events (ev ∷ []) h.no_end (e, tt);
    told_as =
        ap (λ t. t ++ event ev ∷ []) h.told_as
        ∙ append_assoc (opened h.url h.joined work) (map event h.events) (event ev ∷ [])
        ∙ ap (λ t. opened h.url h.joined work ++ t) (sym (map-append event h.events (ev ∷ [])));
  }

  pub on_event-IsInOrder :
      (l : Lifecycle Url HeaderMap Ref) (ev : NetEvent Url HeaderMap)
      → IsInOrder l
      → IsInOrder (on_event Url HeaderMap Ref l ev)
  unfolding on_event
  on_event-IsInOrder l ev h = elim (Bool-cases l.ended) [
    | inl over ↦ subst IsInOrder (ground arith) h
    | inr live ↦ elim (Bool-cases (is_terminal ev)) [
      | inl e ↦
          let closed : IsInOrder (record l {
            ended = true;
            ended_signal = true;
            told = (l.told ++ event ev ∷ []) ++ finishes Url HeaderMap Ref l.work;
          }) =
            record {
              if_open = λ o. absurd (cc o);
              if_ended = λ o. record {
                before = l.told;
                open_before = h.if_open live;
                the_end = ev;
                terminal = e;
                told_as = refl;
              };
              signalled = refl;
            } in
          subst IsInOrder (ground arith) closed
      | inr e ↦
          let still : IsInOrder (record l { told = l.told ++ event ev ∷ [] }) = record {
            if_open = λ o. more-IsOpen l.work l.told ev e (h.if_open live);
            if_ended = λ o. absurd (cc (o, live));
            signalled = h.signalled;
          } in
          subst IsInOrder (ground arith) still
    ]
  ]

  unfoldable pub on_events :
      Lifecycle Url HeaderMap Ref → List (NetEvent Url HeaderMap) → Lifecycle Url HeaderMap Ref
  on_events l [] = l
  on_events l (ev ∷ evs) = on_events (on_event Url HeaderMap Ref l ev) evs

  on_events-IsInOrder :
      (l : Lifecycle Url HeaderMap Ref) (evs : List (NetEvent Url HeaderMap))
      → IsInOrder l
      → IsInOrder (on_events l evs)
  unfolding on_events
  on_events-IsInOrder l [] h = h
  on_events-IsInOrder l (ev ∷ evs) h =
      on_events-IsInOrder (on_event Url HeaderMap Ref l ev) evs (on_event-IsInOrder l ev h)

  pub dropped-IsClosed :
      (l : Lifecycle Url HeaderMap Ref)
      → IsInOrder l
      → IsClosed l.work (dropped Url HeaderMap Ref l)
  unfolding dropped is_terminal
  dropped-IsClosed l h = elim (Bool-cases l.ended) [
    | inl over ↦ subst (IsClosed l.work) (ground arith) (h.if_ended over)
    | inr live ↦ subst (IsClosed l.work) (ground arith) (record {
      before = l.told;
      open_before = h.if_open live;
      the_end = cancelled l.url (codes "request dropped before it ended");
      terminal = refl;
      told_as = refl;
    })
  ]

  on_event-work :
      (l : Lifecycle Url HeaderMap Ref) (ev : NetEvent Url HeaderMap)
      → (on_event Url HeaderMap Ref l ev).work ≡ l.work
  unfolding on_event
  on_event-work l ev = ground arith

  on_events-work :
      (l : Lifecycle Url HeaderMap Ref) (evs : List (NetEvent Url HeaderMap))
      → (on_events l evs).work ≡ l.work
  unfolding on_events
  on_events-work l [] = refl
  on_events-work l (ev ∷ evs) =
      on_events-work (on_event Url HeaderMap Ref l ev) evs ∙ on_event-work l ev

  -- Whatever events a request is given, one after the other, until it is let go of: its context is
  -- told of the work, its observer then of `Accepted`, of events that are no end, and of exactly one
  -- end, and the context last that the work is done.
  pub accept-IsClosed :
      (url : Url) (joined : Bool) (work : Option Ref) (evs : List (NetEvent Url HeaderMap))
      → IsClosed work
          (dropped Url HeaderMap Ref (on_events (accept Url HeaderMap Ref url joined work) evs))
  unfolding accept
  accept-IsClosed url joined work evs =
      let l = accept Url HeaderMap Ref url joined work in
      subst (λ w. IsClosed w (dropped Url HeaderMap Ref (on_events l evs))) (on_events-work l evs)
        (dropped-IsClosed _ (on_events-IsInOrder l evs (accept-IsInOrder url joined work)))
