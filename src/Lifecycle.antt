-- ===== src/Lifecycle.antt =====
-- src/net/lifecycle.rs: the observer of one request, from `Accepted` to its end, and the observer of
-- a fetch that several requests share. A call of an observer is one step.
pub mod Ends
pub mod Fetch
pub mod Settled
pub mod Told
use gosub_sonar.Prelude.{
  ℕ, Bool, true, false, not, ◌||◌, List, [], ◌∷◌, ◌++◌, Option, none, some, Text, codes,
  if◌then◌else◌, ◌==◌, retain,
}
use mathlib.Core.Option
use gosub_sonar.Web.Events.{NetEvent, is_terminal, accepted, cancelled, progress, finished, failed}

module _ (Url HeaderMap Ref : Type 0) where
  -- What a request's observer and its fetcher context are told: an event, and that its work is
  -- outstanding (`on_ref_active`) or done (`on_ref_done`).
  pub data Report : Type 0 where
    event : NetEvent Url HeaderMap → Report
    active : Ref → Report
    done : Ref → Report

  -- `ended_signal` is whether the token is cancelled, `told` what the observers were told so far.
  pub record Lifecycle : Type 0 where
    pub url : Url
    pub ended : Bool
    pub ended_signal : Bool
    pub work : Option Ref
    pub told : List Report

  abbrev pub activates : Option Ref → List Report
  activates none = []
  activates (some reference) = active reference ∷ []

  abbrev pub finishes : Option Ref → List Report
  finishes none = []
  finishes (some reference) = done reference ∷ []

  unfoldable pub accept : Url → Bool → Option Ref → Lifecycle
  accept url joined work = record {
    url = url;
    ended = false;
    ended_signal = false;
    work = work;
    told = activates work ++ event (accepted url joined) ∷ [];
  }

  unfoldable pub on_event : Lifecycle → NetEvent Url HeaderMap → Lifecycle
  on_event l ev =
      if l.ended
      then l
      else if is_terminal ev
      then record l {
        ended = true;
        ended_signal = true;
        told = (l.told ++ event ev ∷ []) ++ finishes l.work;
      }
      else record l { told = l.told ++ event ev ∷ [] }

  -- What was told in all once the request is let go of.
  unfoldable pub dropped : Lifecycle → List Report
  dropped l =
      if l.ended
      then l.told
      else (l.told ++ event (cancelled l.url (codes "request dropped before it ended")) ∷ [])
        ++ finishes l.work

  -- The requests are named by number, as their `Arc`s are told apart by pointer.
  pub record Shared : Type 0 where
    pub leader : ℕ
    pub attached : List ℕ
    pub end_of : Option (NetEvent Url HeaderMap)

  abbrev pub new_shared : ℕ → Shared
  new_shared leader = record { leader = leader; attached = leader ∷ []; end_of = none }

  unfoldable pub copy : NetEvent Url HeaderMap → Option (NetEvent Url HeaderMap)
  copy (progress received expected elapsed) = some (progress received expected elapsed)
  copy (finished received elapsed url) = some (finished received elapsed url)
  copy (cancelled url reason) = some (cancelled url reason)
  copy (failed url error) = some (failed url error)
  copy _ = none

  unfoldable pub is_progress : NetEvent Url HeaderMap → Bool
  is_progress (progress received expected elapsed) = true
  is_progress _ = false

  -- The requests in memory.
  abbrev pub Requests : Type 0
  Requests = ℕ → Option Lifecycle

  abbrev pub tell : ℕ → NetEvent Url HeaderMap → Requests → Requests
  tell id ev requests k =
      if k == id then Option.map (λ l. on_event l ev) (requests k) else requests k

  -- The event itself goes to the last request, a copy to the others.
  unfoldable pub tell_all : NetEvent Url HeaderMap → List ℕ → Requests → Requests
  tell_all ev [] requests = requests
  tell_all ev (id ∷ []) requests = tell id ev requests
  tell_all ev (id ∷ next ∷ ids) requests =
      tell_all ev (next ∷ ids)
        (elim (copy ev) [ none ↦ requests | some this ↦ tell id this requests ])

  unfoldable pub attach : ℕ → Shared × Requests → Shared × Requests
  attach id (shared, requests) = elim shared.end_of [
    | some ev ↦ (shared, elim (copy ev) [ none ↦ requests | some this ↦ tell id this requests ])
    | none ↦ (record shared { attached = shared.attached ++ id ∷ [] }, requests)
  ]

  unfoldable pub detach : ℕ → Shared → Shared
  detach id shared = record shared { attached = retain (λ r. not (r == id)) shared.attached }

  unfoldable pub shared_on_event : NetEvent Url HeaderMap → Shared × Requests → Shared × Requests
  unfolding tell_all copy
  shared_on_event ev (shared, requests) =
      if is_terminal ev
      then (record shared { attached = []; end_of = copy ev }, tell_all ev shared.attached requests)
      else if is_progress ev
      then (shared, tell_all ev shared.attached requests)
      else (shared, tell shared.leader ev requests)
