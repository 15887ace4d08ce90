-- ===== src/Body/Draining.antt =====
-- The pump of a shared body comes to its end, in however small pieces the reader gives its bytes.
use gosub_sonar.Prelude.{
  ℕ, suc, ◌+◌, ◌≤◌, ◌<◌, ◌≡◌, refl, sym, ap, ◌∙◌, inl, inr, true, false, List, [], ◌∷◌, Option,
  none, some, Text, if◌then◌else◌, ◌==◌, arith, min, length, Bool-cases, subst, ltb, map,
}
use gosub_sonar.Body.Pump.{
  ReaderOptions, ReadTurn, PushTurn, End, finished, failed, reads, pushed, read_cap, pump, take,
  drop, u64_max, max_size_error,
}
use gosub_sonar.Body.Reading.{length-take, length-drop, IsUpTo, exceeds, read_cap_lem, still_up}

module _ (Url : Type 0) where
  -- Turns of a reader that gives its bytes in pieces, with nothing else happening.
  abbrev pub undisturbed : List ℕ → List (ReadTurn Url × PushTurn Url)
  undisturbed = map (λ k. (reads k, pushed))

  -- The end that a body of `n` bytes in all comes to.
  abbrev pub end_of : Option ℕ → ℕ → End Url
  end_of max n = if exceeds max n then failed (max_size_error Url) else finished

  exceeds-IsUpTo : (max : Option ℕ) (n : ℕ) → IsUpTo max n → exceeds max n ≡ false
  exceeds-IsUpTo none n u = refl
  exceeds-IsUpTo (some m) n u = ground (arith, u)

  probing-exceeds :
      (buf : ℕ) (max : Option ℕ) (total n : ℕ)
      → (read_cap (record { buf_size = buf; max_size = max }) total).1 ≡ true
      → 0 < n
      → exceeds max (total + n) ≡ true
  unfolding read_cap
  probing-exceeds buf none total n p pos = cc
  probing-exceeds buf (some m) total n p pos = ground (arith, p)

  exceeds-saturated :
      (max : Option ℕ) (total n k all_of : ℕ)
      → ((m : ℕ) → max ≡ some m → m ≤ u64_max)
      → IsUpTo max (total + n)
      → n + k ≡ all_of
      → exceeds max (min (total + n) u64_max + k) ≡ exceeds max (total + all_of)
  exceeds-saturated none total n k all_of f u e = refl
  exceeds-saturated (some m) total n k all_of f u e = ap (ltb m) (omega (arith, f m refl, u, e))

  module _ (buf : ℕ) (max : Option ℕ) (pos : 0 < buf)
      (fits : (m : ℕ) → max ≡ some m → m ≤ u64_max) where
    abbrev options : ReaderOptions
    options = record { buf_size = buf; max_size = max }

    end_of_empty :
        (total : ℕ) (source : Text)
        → IsUpTo max total
        → length source ≡ 0
        → end_of max (total + length source) ≡ finished
    end_of_empty total source u e =
        rw (e, exceeds-IsUpTo max (total + 0) (subst (IsUpTo max) (omega arith) u)) refl

    -- With a buffer of at least one byte, and a size limit, if there is one, of 64 bits that is not
    -- passed yet: when nothing disturbs the pump, more turns than the body has bytes bring it to its
    -- end, in whatever pieces the bytes come: a clean one, or the size error if the body is longer
    -- than the limit.
    pub pump-ends :
        (total : ℕ) (source : Text) (pieces : List ℕ)
        → IsUpTo max total
        → length source < length pieces
        → (pump Url options total source (undisturbed pieces)).1
          ≡ end_of max (total + length source)
    unfolding pump
    pump-ends total source [] u l = absurd (omega (arith, l))
    pump-ends total source (more ∷ pieces) u l =
        let c = read_cap options total in
        let m = min (suc more) c.0 in
        let lem = read_cap_lem buf max total pos in
        let size = length-take m source in
        elim (Bool-cases (length (take m source) == 0)) [
          | inl empty ↦
              rw (empty, pump)
                (sym (end_of_empty total source u (ground (arith, size, lem.0, empty))))
          | inr some_bytes ↦ elim (Bool-cases c.1) [
            | inl probing ↦
                rw (some_bytes, pump)
                  (rw (probing, pump)
                    (rw
                      (probing-exceeds buf max total (length source) probing
                        (ground (arith, size, some_bytes)))
                      refl))
            | inr within ↦
                let up : IsUpTo max (total + length (take m source)) =
                  lem.1 within u _ (omega (arith, size)) in
                let pieces_left : 0 < length (take m source) = ground (arith, some_bytes) in
                rw (some_bytes, pump)
                  (rw (within, pump)
                    (pump-ends (min (total + length (take m source)) u64_max) (drop m source) pieces
                        (still_up max total _ up)
                        (omega (arith, l, length-drop m source, size, pieces_left))
                      ∙ ap (λ b. if b then failed (max_size_error Url) else finished)
                          (exceeds-saturated max total (length (take m source))
                            (length (drop m source)) (length source) fits up
                            (omega (arith, size, length-drop m source)))))
          ]
        ]
