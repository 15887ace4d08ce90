-- ===== src/Lifecycle/Fetch.antt =====
-- A fetch that several requests share: all that wait on it are told its end, whenever they join.
use gosub_sonar.Prelude.{
  ℕ, ◌≡◌, Bool, true, false, not, List, [], ◌∷◌, Option, none, some, any, ◌==◌, if◌then◌else◌,
  retain,
}
use gosub_sonar.Web.Events.{NetEvent}
use gosub_sonar.Lifecycle.{
  Lifecycle, Shared, Requests, accept, new_shared, tell, attach, detach, shared_on_event,
}

abbrev pub member : ℕ → List ℕ → Bool
member id = any (λ k. k == id)

module _ (Url HeaderMap Ref : Type 0) where
  -- `waiting` are the requests that wait on the fetch: those that joined it and did not leave.
  pub record World : Type 0 where
    pub shared : Shared Url HeaderMap Ref
    pub requests : Requests Url HeaderMap Ref
    pub waiting : List ℕ

  abbrev pub add :
      ℕ → Lifecycle Url HeaderMap Ref → Requests Url HeaderMap Ref → Requests Url HeaderMap Ref
  add id l requests k = if k == id then some l else requests k

  -- A request is accepted and joins the fetch.
  abbrev pub join : ℕ → Url → Option Ref → World → World
  join id url work w =
      let r =
        attach Url HeaderMap Ref id
          (w.shared, add id (accept Url HeaderMap Ref url true work) w.requests) in
      record { shared = r.0; requests = r.1; waiting = id ∷ w.waiting }

  abbrev pub report : NetEvent Url HeaderMap → World → World
  report ev w =
      let r = shared_on_event Url HeaderMap Ref ev (w.shared, w.requests) in
      record w { shared = r.0; requests = r.1 }

  abbrev pub leave : ℕ → World → World
  leave id w = record w {
    shared = detach Url HeaderMap Ref id w.shared;
    waiting = retain (λ k. not (k == id)) w.waiting;
  }

  -- Requests join and leave, the fetch reports to the shared observer, and anyone may tell a request
  -- an event of its own.
  pub data Step (w : World) : World → Type 0 where
    joins :
        (id : ℕ) (url : Url) (work : Option Ref)
        → w.requests id ≡ none
        → Step w (join id url work w)
    reports : (ev : NetEvent Url HeaderMap) → Step w (report ev w)
    tells :
        (id : ℕ) (ev : NetEvent Url HeaderMap)
        → Step w (record w { requests = tell Url HeaderMap Ref id ev w.requests })
    leaves : (id : ℕ) → Step w (leave id w)

  pub data Reach (start : World) : World → Type 0 where
    here : Reach start start
    next : {v w : World} → Reach start v → Step v w → Reach start w

  -- A fetch that its leader has just started.
  abbrev pub started : Url → Option Ref → World
  started url work = record {
    shared = new_shared Url HeaderMap Ref 0;
    requests = add 0 (accept Url HeaderMap Ref url false work) (λ k. none);
    waiting = 0 ∷ [];
  }
