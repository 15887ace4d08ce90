-- ===== src/Hsts/Fuel.antt =====
-- The loop of `directives` of src/net/hsts.rs consumes its input, so its fuel is enough.
use gosub_sonar.Prelude.{
  ℕ, zero, suc, ◌+◌, ◌<◌, ◌≤◌, ◌≡◌, refl, subst, sym, Bool, false, inl, inr, List, [], ◌∷◌, Option,
  none, some, Text, if◌then◌else◌, ◌==◌, length, arith, ◌>>=◌, is_empty, Bool-cases,
  trim_start_matches,
}
use gosub_sonar.Hsts.Grammar.{
  Directive, Round, finished, invalid, blank, found, last, is_blank, skip_ws, split_token,
  read_quoted, read_value, close, read_rest, read_directive, start_round, round, directives_from,
  directives, push,
}

trim_start_matches-le : (p : ℕ → Bool) (s : Text) → length (trim_start_matches p s) ≤ length s
unfolding trim_start_matches
trim_start_matches-le p [] = omega arith
trim_start_matches-le p (c ∷ s) = ground (arith, trim_start_matches-le p s)

skip_ws-le : (s : Text) → length (skip_ws s) ≤ length s
unfolding skip_ws
skip_ws-le s = trim_start_matches-le is_blank s

split_token-length : (s : Text) → length (split_token s).0 + length (split_token s).1 ≡ length s
unfolding split_token
split_token-length [] = refl
split_token-length (c ∷ s) = ground (arith, split_token-length s)

-- What a fallible reader leaves is no longer than what it was given.
abbrev Shrinks : Text → Option (Text × Text) → Type 0
Shrinks s none = Unit
Shrinks s (some r) = length r.1 ≤ length s

Shrinks-bind :
    (s t : Text) (d : ℕ) (o : Option (Text × Text))
    → length s ≤ length t
    → Shrinks s o
    → Shrinks t (o >>= λ r. some (d ∷ r.0, r.1))
Shrinks-bind s t d none h k = tt
Shrinks-bind s t d (some r) h k = omega arith

read_quoted-Shrinks : (s : Text) → Shrinks s (read_quoted s)
unfolding read_quoted
read_quoted-Shrinks [] = tt
read_quoted-Shrinks (c ∷ []) = ground arith
read_quoted-Shrinks (c ∷ d ∷ s) =
    let escaped = Shrinks-bind s (c ∷ d ∷ s) d _ (omega arith) (read_quoted-Shrinks s) in
    let plain = Shrinks-bind (d ∷ s) (c ∷ d ∷ s) c _ (omega arith) (read_quoted-Shrinks (d ∷ s)) in
    elim (Bool-cases (c == b'"')) [
      | inl closed ↦ rw closed (omega arith)
      | inr more ↦ elim (Bool-cases (c == b'\\')) [
        | inl special ↦ rw (more, special) escaped
        | inr other ↦ rw (more, other) plain
      ]
    ]

Shrinks-mono :
    (s t : Text) (o : Option (Text × Text)) → length s ≤ length t → Shrinks s o → Shrinks t o
Shrinks-mono s t none h k = tt
Shrinks-mono s t (some r) h k = omega arith

token_value-Shrinks :
    (s : Text)
    → Shrinks s
        (if is_empty (split_token s).0 then none else some ((split_token s).0, (split_token s).1))
token_value-Shrinks s = elim (Bool-cases (is_empty (split_token s).0)) [
  | inl e ↦ rw e tt
  | inr e ↦ rw e (omega (arith, split_token-length s))
]

read_value-Shrinks : (s : Text) → Shrinks s (read_value s)
unfolding read_value
read_value-Shrinks [] = tt
read_value-Shrinks (c ∷ s) = elim (Bool-cases (c == b'"')) [
  | inl quoted ↦ rw quoted (Shrinks-mono s (c ∷ s) _ (omega arith) (read_quoted-Shrinks s))
  | inr other ↦ rw other (token_value-Shrinks (c ∷ s))
]

-- A round that goes on leaves a text shorter than `n`.
abbrev Consumes : ℕ → Round → Type 0
Consumes n (blank rest) = length rest < n
Consumes n (found d rest) = length rest < n
Consumes n finished = Unit
Consumes n invalid = Unit
Consumes n (last d) = Unit

close-Consumes : (n : ℕ) (d : Directive) (s : Text) → length s ≤ n → Consumes n (close d s)
unfolding close
close-Consumes n d [] h = tt
close-Consumes n d (c ∷ s) h = ground arith

value-Consumes :
    (n : ℕ) (name s : Text) (o : Option (Text × Text))
    → length s ≤ n
    → Shrinks s o
    → Consumes n (elim o [ none ↦ invalid | some r ↦ close (name, some r.0) (skip_ws r.1) ])
value-Consumes n name s none h k = tt
value-Consumes n name s (some r) h k =
    close-Consumes n _ (skip_ws r.1) (omega (arith, skip_ws-le r.1))

read_rest-Consumes : (n : ℕ) (name s : Text) → length s ≤ n → Consumes n (read_rest name s)
unfolding read_rest
read_rest-Consumes n name [] h = close-Consumes n (name, none) [] (omega arith)
read_rest-Consumes n name (c ∷ s) h = elim (Bool-cases (c == b'=')) [
  | inl valued ↦ rw valued (
      value-Consumes n name (skip_ws s) _ (omega (arith, skip_ws-le s))
        (read_value-Shrinks (skip_ws s)))
  | inr bare ↦ rw bare (close-Consumes n _ (c ∷ s) h)
]

nonempty_length : (s : Text) → is_empty s ≡ false → 0 < length s
nonempty_length [] h = absurd (cc)
nonempty_length (c ∷ s) h = omega arith

read_directive-Consumes : (s : Text) → Consumes (length s) (read_directive s)
unfolding read_directive
read_directive-Consumes s = elim (Bool-cases (is_empty (split_token s).0)) [
  | inl nameless ↦ rw nameless tt
  | inr named ↦ rw named (
      read_rest-Consumes (length s) _ (skip_ws (split_token s).1)
        (omega (arith, skip_ws-le (split_token s).1, split_token-length s)))
]

start_round-Consumes : (s : Text) → Consumes (length s) (start_round s)
unfolding start_round
start_round-Consumes [] = tt
start_round-Consumes (c ∷ s) = elim (Bool-cases (c == b';')) [
  | inl empty ↦ rw empty (omega arith)
  | inr other ↦ rw other (read_directive-Consumes (c ∷ s))
]

Consumes-mono : (m n : ℕ) (r : Round) → m ≤ n → Consumes m r → Consumes n r
Consumes-mono m n (blank rest) h k = omega arith
Consumes-mono m n (found d rest) h k = omega arith
Consumes-mono m n finished h k = tt
Consumes-mono m n invalid h k = tt
Consumes-mono m n (last d) h k = tt

round-Consumes : (s : Text) → Consumes (length s) (round s)
unfolding round
round-Consumes s = Consumes-mono _ (length s) _ (skip_ws-le s) (start_round-Consumes (skip_ws s))

-- What the loop makes of a round.
after_round : ℕ → Round → Option (List Directive)
after_round f finished = some []
after_round f invalid = none
after_round f (blank rest) = directives_from f rest
after_round f (found d rest) = push d (directives_from f rest)
after_round f (last d) = some (d ∷ [])

directives_from-suc : (f : ℕ) (s : Text) → directives_from (suc f) s ≡ after_round f (round s)
unfolding directives_from after_round
directives_from-suc f s = ground arith

-- A terminating run of the loop of the source, which has no bound, on a text: its rounds, up to the
-- one that returns, and what it returns.
pub data Runs : Text → Option (List Directive) → Type 0 where
  ends : {s : Text} → round s ≡ finished → Runs s (some [])
  fails : {s : Text} → round s ≡ invalid → Runs s none
  skips :
      {s rest : Text} {r : Option (List Directive)} → round s ≡ blank rest → Runs rest r → Runs s r
  goes_on :
      {s rest : Text} {d : Directive} {r : Option (List Directive)}
      → round s ≡ found d rest
      → Runs rest r
      → Runs s (push d r)
  stops : {s : Text} {d : Directive} → round s ≡ last d → Runs s (some (d ∷ []))

-- Rounds that go on, on top of runs of what they leave.
after_round-Runs :
    (f : ℕ) (s : Text) (r : Round)
    → round s ≡ r
    → Consumes (length s) r
    → ((t : Text) → length t < length s → Runs t (directives_from f t))
    → Runs s (after_round f r)
unfolding after_round
after_round-Runs f s finished e c ih = ends e
after_round-Runs f s invalid e c ih = fails e
after_round-Runs f s (blank rest) e c ih = skips e (ih rest c)
after_round-Runs f s (found d rest) e c ih = goes_on e (ih rest c)
after_round-Runs f s (last d) e c ih = stops e

directives_from-Runs : (f : ℕ) (s : Text) → length s < f → Runs s (directives_from f s)
directives_from-Runs zero s h = absurd (omega arith)
directives_from-Runs (suc f) s h = subst (Runs s) (sym (directives_from-suc f s)) (
    after_round-Runs f s (round s) refl (round-Consumes s)
      (λ t lt. directives_from-Runs f t (omega arith)))

-- On every text the loop of the source, which has no bound, comes to its end, and returns what
-- `directives` gives.
pub directives-Runs : (s : Text) → Runs s (directives s)
unfolding directives
directives-Runs s = directives_from-Runs (suc (length s)) s (omega arith)
