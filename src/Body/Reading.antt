-- ===== src/Body/Reading.antt =====
-- How much of its reader the pump of a shared body takes, and that this keeps the size limit.
use gosub_sonar.Prelude.{
  ℕ, zero, suc, ◌+◌, ◌-◌, ◌≤◌, ◌<◌, ◌≡◌, refl, ap, Bool, false, [], ◌∷◌, ◌++◌, Option, none, some,
  Text, arith, min, length, ltb,
}
use gosub_sonar.Body.Pump.{read_cap, take, drop, u64_max}

pub take-drop : (n : ℕ) (t : Text) → take n t ++ drop n t ≡ t
take-drop zero t = refl
take-drop (suc n) [] = refl
take-drop (suc n) (b ∷ t) = ap (λ r. b ∷ r) (take-drop n t)

pub length-take : (n : ℕ) (t : Text) → length (take n t) ≡ min n (length t)
length-take zero t = omega arith
length-take (suc n) [] = omega arith
length-take (suc n) (b ∷ t) = omega (arith, length-take n t)

pub length-drop : (n : ℕ) (t : Text) → length (drop n t) ≡ length t - n
length-drop zero t = omega arith
length-drop (suc n) [] = omega arith
length-drop (suc n) (b ∷ t) = omega (arith, length-drop n t)

pub empty_of_length : (t : Text) → length t ≡ 0 → t ≡ []
empty_of_length [] h = refl
empty_of_length (b ∷ t) h = absurd (omega (arith, h))

-- The limit that the options set, if they set one, holds a number of bytes.
abbrev pub IsUpTo : Option ℕ → ℕ → Type 0
IsUpTo none n = Unit
IsUpTo (some m) n = n ≤ m

-- Whether a body of `n` bytes is longer than the limit.
abbrev pub exceeds : Option ℕ → ℕ → Bool
exceeds none n = false
exceeds (some m) n = ltb m n

pub read_cap_lem :
    (buf : ℕ) (max : Option ℕ) (total : ℕ)
    → 0 < buf
    → let c = read_cap (record { buf_size = buf; max_size = max }) total in
      (0 < c.0) × (c.1 ≡ false → IsUpTo max total → (n : ℕ) → n ≤ c.0 → IsUpTo max (total + n))
unfolding read_cap
read_cap_lem buf none total pos = (pos, λ _ _ n _. tt)
read_cap_lem buf (some m) total pos = (ground arith, λ p u n l. ground arith)

pub saturating :
    (max : Option ℕ) (total n : ℕ)
    → ((m : ℕ) → max ≡ some m → m ≤ u64_max)
    → IsUpTo max (total + n)
    → (k : ℕ) → IsUpTo max (min (total + n) u64_max + k)
    → IsUpTo max (total + (n + k))
saturating none total n f u k h = tt
saturating (some m) total n f u k h = omega (arith, f m refl)

pub still_up :
    (max : Option ℕ) (total n : ℕ) → IsUpTo max (total + n) → IsUpTo max (min (total + n) u64_max)
still_up none total n u = tt
still_up (some m) total n u = omega (arith, u)
