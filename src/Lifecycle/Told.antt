-- ===== src/Lifecycle/Told.antt =====
-- Requests of a shared fetch that are told an end, one or all of them.
use gosub_sonar.Prelude.{
  ℕ, ◌≡◌, inl, inr, true, ◌||◌, List, [], ◌∷◌, Option, none, some, arith, ◌==◌, ==_iff, Bool-cases,
  Option-cases, subst,
}
use gosub_sonar.Web.Events.{NetEvent, is_terminal}
use gosub_sonar.Lifecycle.{Lifecycle, Requests, on_event, copy, tell, tell_all, is_progress}
use gosub_sonar.Lifecycle.Fetch.{member}

module _ (Url HeaderMap Ref : Type 0) where
  abbrev pub HasEnded : Requests Url HeaderMap Ref → ℕ → Type 0
  HasEnded requests id = (l : Lifecycle Url HeaderMap Ref) → requests id ≡ some l → l.ended ≡ true

  on_event-ended :
      (l : Lifecycle Url HeaderMap Ref) (ev : NetEvent Url HeaderMap)
      → (on_event Url HeaderMap Ref l ev).ended ≡ (l.ended || is_terminal ev)
  unfolding on_event
  on_event-ended l ev = ground arith

  pub tell-HasEnded :
      (k id : ℕ) (ev : NetEvent Url HeaderMap) (requests : Requests Url HeaderMap Ref)
      → HasEnded requests id
      → HasEnded (tell Url HeaderMap Ref k ev requests) id
  tell-HasEnded k id ev requests h l e = elim (Option-cases (requests id)) [
    | inl n ↦ absurd (ground arith)
    | inr (m, s) ↦ ground (arith, on_event-ended m ev, h m s)
  ]

  pub tell_end :
      (id : ℕ) (ev : NetEvent Url HeaderMap) (requests : Requests Url HeaderMap Ref)
      → is_terminal ev ≡ true
      → HasEnded (tell Url HeaderMap Ref id ev requests) id
  tell_end id ev requests t l e = elim (Option-cases (requests id)) [
    | inl n ↦ absurd (ground arith)
    | inr (m, s) ↦ ground (arith, on_event-ended m ev)
  ]

  pub copy_end :
      (ev : NetEvent Url HeaderMap)
      → (is_terminal ev || is_progress Url HeaderMap Ref ev) ≡ true
      → copy Url HeaderMap Ref ev ≡ some ev
  unfolding copy is_terminal is_progress
  copy_end ev e = ground arith

  tell_copy-HasEnded :
      (k id : ℕ) (c : Option (NetEvent Url HeaderMap)) (requests : Requests Url HeaderMap Ref)
      → HasEnded requests id
      → HasEnded
          (elim c [ none ↦ requests | some this ↦ tell Url HeaderMap Ref k this requests ])
          id
  tell_copy-HasEnded k id none requests h = h
  tell_copy-HasEnded k id (some this) requests h = tell-HasEnded k id this requests h

  pub tell_all-HasEnded :
      (ev : NetEvent Url HeaderMap) (ids : List ℕ) (requests : Requests Url HeaderMap Ref) (id : ℕ)
      → HasEnded requests id
      → HasEnded (tell_all Url HeaderMap Ref ev ids requests) id
  unfolding tell_all
  tell_all-HasEnded ev [] requests id h = h
  tell_all-HasEnded ev (k ∷ []) requests id h = tell-HasEnded k id ev requests h
  tell_all-HasEnded ev (k ∷ j ∷ ids) requests id h =
      tell_all-HasEnded ev (j ∷ ids) _ id
        (tell_copy-HasEnded k id (copy Url HeaderMap Ref ev) requests h)

  -- The end reaches every request of the list.
  pub tell_all_ends :
      (ev : NetEvent Url HeaderMap) (ids : List ℕ) (requests : Requests Url HeaderMap Ref) (id : ℕ)
      → is_terminal ev ≡ true
      → member id ids ≡ true
      → HasEnded (tell_all Url HeaderMap Ref ev ids requests) id
  unfolding tell_all
  tell_all_ends ev [] requests id t m = absurd (cc m)
  tell_all_ends ev (k ∷ []) requests id t m =
      subst (HasEnded (tell Url HeaderMap Ref k ev requests)) (ground (arith, m))
        (tell_end k ev requests t)
  tell_all_ends ev (k ∷ j ∷ ids) requests id t m = elim (Bool-cases (k == id)) [
    | inl same ↦
        rw (copy_end ev (ground (arith, t)), tell_all)
          (tell_all-HasEnded ev (j ∷ ids) (tell Url HeaderMap Ref k ev requests) id (
            subst (HasEnded (tell Url HeaderMap Ref k ev requests)) ((==_iff k id).0 same)
              (tell_end k ev requests t)))
    | inr differs ↦ tell_all_ends ev (j ∷ ids) _ id t (ground (arith, m))
  ]
