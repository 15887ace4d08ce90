-- ===== src/Lifecycle/Settled.antt =====
-- A fetch that several requests share: in every reachable state, all that wait on it are told its
-- end.
use gosub_sonar.Prelude.{
  ℕ, ◌≡◌, refl, sym, ap, ◌∙◌, ◌⊎◌, inl, inr, true, false, not, ◌||◌, List, [], ◌∷◌, ◌++◌, Option,
  none, some, arith, ◌==◌, ==_iff, Bool-cases, Option-cases, subst, if◌then◌else◌, retain,
}
use gosub_sonar.Web.Events.{NetEvent, is_terminal}
use gosub_sonar.Lifecycle.{
  Lifecycle, Shared, Requests, accept, tell, tell_all, attach, detach, is_progress, shared_on_event,
}
use gosub_sonar.Lifecycle.Fetch.{
  World, Step, joins, reports, tells, leaves, Reach, here, next, add, join, report, leave, started,
  member,
}
use gosub_sonar.Lifecycle.Told.{
  HasEnded, tell-HasEnded, tell_end, copy_end, tell_all-HasEnded, tell_all_ends,
}

member-append : (id k : ℕ) (ks : List ℕ) → member id (ks ++ k ∷ []) ≡ (member id ks || k == id)
member-append id k [] = ground arith
member-append id k (j ∷ ks) = ground (arith, member-append id k ks)

member-retain :
    (id k : ℕ) (ks : List ℕ)
    → member id (retain (λ r. not (r == k)) ks) ≡ (if id == k then false else member id ks)
member-retain id k [] = ground arith
member-retain id k (j ∷ ks) = ground (arith, member-retain id k ks)

module _ (Url HeaderMap Ref : Type 0) where
  -- While the fetch goes on every waiting request is attached; once it has ended, each of them has.
  pub record IsSound (w : World Url HeaderMap Ref) : Type 0 where
    pub going :
        w.shared.end_of ≡ none
        → (id : ℕ) → member id w.waiting ≡ true
        → member id w.shared.attached ≡ true
    pub over :
        (ev : NetEvent Url HeaderMap)
        → w.shared.end_of ≡ some ev
        → (is_terminal ev ≡ true)
          × ((id : ℕ) → member id w.waiting ≡ true → HasEnded Url HeaderMap Ref w.requests id)

  started-IsSound : (url : Url) (work : Option Ref) → IsSound (started Url HeaderMap Ref url work)
  started-IsSound url work = record { going = λ e id m. m; over = λ ev e. absurd (cc e) }

  abbrev with_waiting :
      List ℕ → Shared Url HeaderMap Ref × Requests Url HeaderMap Ref → World Url HeaderMap Ref
  with_waiting waiting r = record { shared = r.0; requests = r.1; waiting = waiting }

  module _ (shared : Shared Url HeaderMap Ref) (requests : Requests Url HeaderMap Ref) where
    attach_going :
        (id : ℕ)
        → shared.end_of ≡ none
        → attach Url HeaderMap Ref id (shared, requests)
          ≡ (record shared { attached = shared.attached ++ id ∷ [] }, requests)
    unfolding attach
    attach_going id e = ground arith

    attach_over :
        (id : ℕ) (ev : NetEvent Url HeaderMap)
        → shared.end_of ≡ some ev
        → is_terminal ev ≡ true
        → attach Url HeaderMap Ref id (shared, requests)
          ≡ (shared, tell Url HeaderMap Ref id ev requests)
    unfolding attach
    attach_over id ev e t =
        let c = copy_end Url HeaderMap Ref ev (ground (arith, t)) in ground (arith, c)

    report_end :
        (ev : NetEvent Url HeaderMap)
        → is_terminal ev ≡ true
        → shared_on_event Url HeaderMap Ref ev (shared, requests) ≡ (
          record shared { attached = []; end_of = some ev },
          tell_all Url HeaderMap Ref ev shared.attached requests,
        )
    unfolding shared_on_event
    report_end ev t =
        rw (t, shared_on_event)
          (rw (copy_end Url HeaderMap Ref ev (ground (arith, t)), shared_on_event) refl)

    -- Any other event leaves the shared state, and no request that has ended comes back.
    report_other :
        (ev : NetEvent Url HeaderMap)
        → is_terminal ev ≡ false
        → let r = shared_on_event Url HeaderMap Ref ev (shared, requests) in
          (r.0 ≡ shared)
          × ((id : ℕ) → HasEnded Url HeaderMap Ref requests id → HasEnded Url HeaderMap Ref r.1 id)
    unfolding shared_on_event
    report_other ev t = elim (Bool-cases (is_progress Url HeaderMap Ref ev)) [
      | inl p ↦
          rw (t, shared_on_event)
            (rw (p, shared_on_event)
              (refl, λ id e. tell_all-HasEnded Url HeaderMap Ref ev shared.attached requests id e))
      | inr p ↦
          rw (t, shared_on_event)
            (rw (p, shared_on_event)
              (refl, λ id e. tell-HasEnded Url HeaderMap Ref shared.leader id ev requests e))
    ]

  module _ (w : World Url HeaderMap Ref) (h : IsSound w) where
    join-IsSound :
        (id : ℕ) (url : Url) (work : Option Ref)
        → w.requests id ≡ none
        → IsSound (join Url HeaderMap Ref id url work w)
    join-IsSound id url work new =
        let requests =
          add Url HeaderMap Ref id (accept Url HeaderMap Ref url true work) w.requests in
        elim (Option-cases w.shared.end_of) [
          | inl e ↦
              let joined : IsSound (
                  with_waiting (id ∷ w.waiting)
                    (record w.shared { attached = w.shared.attached ++ id ∷ [] }, requests)) =
                record {
                  going =
                      λ n k m. ground (arith, member-append k id w.shared.attached, h.going e k, m);
                  over = λ ev s. absurd (cc (s, e));
                } in
              subst (λ r. IsSound (with_waiting (id ∷ w.waiting) r))
                (sym (attach_going w.shared requests id e)) joined
          | inr (ev, e) ↦
              let t = (h.over ev e).0 in
              let told : IsSound (
                  with_waiting (id ∷ w.waiting) (w.shared, tell Url HeaderMap Ref id ev requests)) =
                record {
                  going = λ n. absurd (cc (n, e));
                  over = λ last s. (
                    ground (arith, t),
                    λ k m. elim (Bool-cases (id == k)) [
                      | inl same ↦
                          subst (HasEnded Url HeaderMap Ref (tell Url HeaderMap Ref id ev requests))
                            ((==_iff id k).0 same) (tell_end Url HeaderMap Ref id ev requests t)
                      | inr differs ↦ tell-HasEnded Url HeaderMap Ref id k ev requests (λ l f.
                          (h.over ev e).1 k (ground (arith, m, differs)) l
                            (ground (arith, f, differs)))
                    ],
                  );
                } in
              subst (λ r. IsSound (with_waiting (id ∷ w.waiting) r))
                (sym (attach_over w.shared requests id ev e t)) told
        ]

    tells-IsSound :
        (id : ℕ) (ev : NetEvent Url HeaderMap)
        → IsSound (record w { requests = tell Url HeaderMap Ref id ev w.requests })
    tells-IsSound id ev = record {
      going = h.going;
      over = λ last e. (
        (h.over last e).0,
        λ k m. tell-HasEnded Url HeaderMap Ref id k ev w.requests ((h.over last e).1 k m),
      );
    }

    leave-IsSound : (id : ℕ) → IsSound (leave Url HeaderMap Ref id w)
    unfolding detach
    leave-IsSound id = record {
      going = λ e k m.
          ground (
            arith,
            member-retain k id w.waiting,
            member-retain k id w.shared.attached,
            h.going e k,
          );
      over = λ ev e. (
        (h.over ev e).0,
        λ k m. (h.over ev e).1 k (ground (arith, member-retain k id w.waiting)),
      );
    }

    report-IsSound : (ev : NetEvent Url HeaderMap) → IsSound (report Url HeaderMap Ref ev w)
    report-IsSound ev = elim (Bool-cases (is_terminal ev)) [
      | inl t ↦
          let ended : IsSound (
              with_waiting w.waiting (
                record w.shared { attached = []; end_of = some ev },
                tell_all Url HeaderMap Ref ev w.shared.attached w.requests,
              )) =
            record {
              going = λ n. absurd (cc n);
              over = λ last s.
                  (ground (arith, t), λ k m. reported k m (Option-cases w.shared.end_of) t);
            } in
          subst (λ r. IsSound (with_waiting w.waiting r))
            (sym (report_end w.shared w.requests ev t)) ended
      | inr t ↦
          let r = report_other w.shared w.requests ev t in
          record {
            going = λ n k m.
                subst (λ s. member k s.attached ≡ true) (sym r.0)
                  (h.going (sym (ap (λ s. s.end_of) r.0) ∙ n) k m);
            over = λ last n.
                let o = h.over last (sym (ap (λ s. s.end_of) r.0) ∙ n) in
                (o.0, λ k m. r.1 k (o.1 k m));
          }
    ]
      where
        reported :
            (k : ℕ)
            → member k w.waiting ≡ true
            → (w.shared.end_of ≡ none) ⊎ ((e : NetEvent Url HeaderMap) × (w.shared.end_of ≡ some e))
            → is_terminal ev ≡ true
            → HasEnded Url HeaderMap Ref
                (tell_all Url HeaderMap Ref ev w.shared.attached w.requests)
                k
        reported k m (inl e) t =
            tell_all_ends Url HeaderMap Ref ev w.shared.attached w.requests k t (h.going e k m)
        reported k m (inr (last, e)) t =
            tell_all-HasEnded Url HeaderMap Ref ev w.shared.attached w.requests k
              ((h.over last e).1 k m)

  Step-IsSound :
      {v w : World Url HeaderMap Ref} → Step Url HeaderMap Ref v w → IsSound v → IsSound w
  Step-IsSound {v} (joins id url work new) h = join-IsSound v h id url work new
  Step-IsSound {v} (reports ev) h = report-IsSound v h ev
  Step-IsSound {v} (tells id ev) h = tells-IsSound v h id ev
  Step-IsSound {v} (leaves id) h = leave-IsSound v h id

  Reach-IsSound :
      (url : Url) (work : Option Ref) {w : World Url HeaderMap Ref}
      → Reach Url HeaderMap Ref (started Url HeaderMap Ref url work) w
      → IsSound w
  Reach-IsSound url work here = started-IsSound url work
  Reach-IsSound url work (next r s) = Step-IsSound s (Reach-IsSound url work r)

  -- However requests join and leave a shared fetch and events arrive: once the fetch has had an end,
  -- every request that waits on it has had one too, also one that joined after the end; and while it has not,
  -- every such request is attached, to be told the end.
  pub Reach-ends :
      (url : Url) (work : Option Ref) {w : World Url HeaderMap Ref} (id : ℕ)
      (l : Lifecycle Url HeaderMap Ref)
      → Reach Url HeaderMap Ref (started Url HeaderMap Ref url work) w
      → member id w.waiting ≡ true
      → w.requests id ≡ some l
      → (l.ended ≡ true) ⊎ ((w.shared.end_of ≡ none) × (member id w.shared.attached ≡ true))
  Reach-ends url work {w} id l r m e = elim (Option-cases w.shared.end_of) [
    | inl going ↦ inr (going, (Reach-IsSound url work r).going going id m)
    | inr (ev, over) ↦ inl (((Reach-IsSound url work r).over ev over).1 id m l e)
  ]
