-- ===== src/Body/Limits.antt =====
-- The pump of a shared body: it pushes the reader's bytes in order, all of them before a clean end
-- and never more than the size limit.
use gosub_sonar.Prelude.{
  ℕ, suc, ◌+◌, ◌≤◌, ◌<◌, ◌≡◌, refl, sym, ap, ◌∙◌, inl, inr, true, false, List, [], ◌∷◌, ◌++◌,
  Option, some, Text, ◌==◌, arith, min, length, length-append, Bool-cases, subst,
}
use mathlib.Core.List.{append-nil, append_assoc}
use gosub_sonar.Web.Errors.{NetError}
use gosub_sonar.Body.Standing.{flat}
use gosub_sonar.Body.Pump.{
  ReaderOptions, ReadTurn, PushTurn, End, finished, failed, reads, read_fails, abandoned,
  read_cancelled, read_idle, read_late, pushed, pushed_late, nobody_left, push_cancelled, push_late,
  read_cap, after_push, pump, take, drop, u64_max,
}
use gosub_sonar.Body.Reading.{
  take-drop, length-take, empty_of_length, IsUpTo, read_cap_lem, saturating, still_up,
}

module _ (Url : Type 0) where
  -- What the pump did is right so far for `source`.
  pub record IsFaithful (opts : ReaderOptions) (total : ℕ) (source : Text) (r : List Text × End Url)
      : Type 0 where
    pub rest : Text
    pub in_order : flat r.0 ++ rest ≡ source
    pub complete : r.1 ≡ finished → rest ≡ []
    pub bounded : IsUpTo opts.max_size (total + length (flat r.0))

  nothing-IsFaithful :
      (opts : ReaderOptions) (total : ℕ) (source : Text) (e : End Url)
      → IsUpTo opts.max_size total
      → (e ≡ finished → source ≡ [])
      → IsFaithful opts total source ([], e)
  nothing-IsFaithful opts total source e b f = record {
    rest = source;
    in_order = refl;
    complete = f;
    bounded = subst (IsUpTo opts.max_size) (omega arith) b;
  }

  one-IsFaithful :
      (opts : ReaderOptions) (total : ℕ) (chunk tail : Text) (e : NetError Url)
      → IsUpTo opts.max_size (total + length chunk)
      → IsFaithful opts total (chunk ++ tail) (chunk ∷ [], failed e)
  one-IsFaithful opts total chunk tail e b = record {
    rest = tail;
    in_order = ap (λ c. c ++ tail) (append-nil chunk);
    complete = λ f. absurd (cc f);
    bounded = rw (append-nil chunk) b;
  }

  after-IsFaithful :
      (opts : ReaderOptions) (total next : ℕ) (chunk tail : Text) (p : PushTurn Url)
      (r : List Text × End Url)
      → IsUpTo opts.max_size total
      → ((k : ℕ)
          → IsUpTo opts.max_size (next + k)
          → IsUpTo opts.max_size (total + (length chunk + k)))
      → IsUpTo opts.max_size (total + length chunk)
      → IsFaithful opts next tail r
      → IsFaithful opts total (chunk ++ tail) (after_push Url p chunk r)
  after-IsFaithful opts total next chunk tail pushed r a up b h = record {
    rest = h.rest;
    in_order = append_assoc chunk (flat r.0) h.rest ∙ ap (λ t. chunk ++ t) h.in_order;
    complete = h.complete;
    bounded =
        subst (λ n. IsUpTo opts.max_size (total + n)) (sym (length-append chunk (flat r.0)))
          (up _ h.bounded);
  }
  after-IsFaithful opts total next chunk tail pushed_late r a up b h =
      one-IsFaithful opts total chunk tail _ b
  after-IsFaithful opts total next chunk tail nobody_left r a up b h =
      nothing-IsFaithful opts total (chunk ++ tail) _ a (λ f. absurd (cc f))
  after-IsFaithful opts total next chunk tail (push_cancelled true) r a up b h =
      one-IsFaithful opts total chunk tail _ b
  after-IsFaithful opts total next chunk tail (push_cancelled false) r a up b h =
      nothing-IsFaithful opts total (chunk ++ tail) _ a (λ f. absurd (cc f))
  after-IsFaithful opts total next chunk tail (push_late true) r a up b h =
      one-IsFaithful opts total chunk tail _ b
  after-IsFaithful opts total next chunk tail (push_late false) r a up b h =
      nothing-IsFaithful opts total (chunk ++ tail) _ a (λ f. absurd (cc f))

  module _ (buf : ℕ) (max : Option ℕ) (pos : 0 < buf)
      (fits : (m : ℕ) → max ≡ some m → m ≤ u64_max) where
    abbrev options : ReaderOptions
    options = record { buf_size = buf; max_size = max }

    -- With a buffer of at least one byte, and a size limit, if there is one, of 64 bits that is not
    -- passed yet, whatever the reader, its errors, cancels and timeouts do: the chunks pushed are the
    -- first bytes of the reader, they end cleanly only when those are all of them, and they stay
    -- within the size limit.
    pub pump-IsFaithful :
        (total : ℕ) (source : Text) (turns : List (ReadTurn Url × PushTurn Url))
        → IsUpTo max total
        → IsFaithful options total source (pump Url options total source turns)
    unfolding pump
    pump-IsFaithful total source [] u =
        nothing-IsFaithful options total source _ u (λ f. absurd (cc f))
    pump-IsFaithful total source ((read_fails e, p) ∷ turns) u =
        nothing-IsFaithful options total source _ u (λ f. absurd (cc f))
    pump-IsFaithful total source ((abandoned, p) ∷ turns) u =
        nothing-IsFaithful options total source _ u (λ f. absurd (cc f))
    pump-IsFaithful total source ((read_cancelled, p) ∷ turns) u =
        nothing-IsFaithful options total source _ u (λ f. absurd (cc f))
    pump-IsFaithful total source ((read_idle, p) ∷ turns) u =
        nothing-IsFaithful options total source _ u (λ f. absurd (cc f))
    pump-IsFaithful total source ((read_late, p) ∷ turns) u =
        nothing-IsFaithful options total source _ u (λ f. absurd (cc f))
    pump-IsFaithful total source ((reads more, p) ∷ turns) u =
        let c = read_cap options total in
        let m = min (suc more) c.0 in
        let lem = read_cap_lem buf max total pos in
        let size = length-take m source in
        elim (Bool-cases (length (take m source) == 0)) [
          | inl empty ↦
              rw (empty, pump)
                (nothing-IsFaithful options total source _ u
                  (λ f. empty_of_length source (ground (arith, size, lem.0, empty))))
          | inr some_bytes ↦ elim (Bool-cases c.1) [
            | inl probing ↦
                rw (some_bytes, pump)
                  (rw (probing, pump)
                    (nothing-IsFaithful options total source _ u (λ f. absurd (cc f))))
            | inr within ↦
                let up : IsUpTo max (total + length (take m source)) =
                  lem.1 within u _ (omega (arith, size)) in
                rw (some_bytes, pump)
                  (rw (within, pump)
                    (subst
                      (λ t. IsFaithful options total t (
                        after_push Url p (take m source) (
                          pump Url options (min (total + length (take m source)) u64_max)
                            (drop m source) turns)))
                      (take-drop m source)
                      (after-IsFaithful options total _ (take m source) (drop m source) p _ u
                        (saturating max total _ fits up) up
                        (pump-IsFaithful (min (total + length (take m source)) u64_max)
                          (drop m source) turns (still_up max total _ up)))))
          ]
        ]
