-- ===== src/Hsts/RoundTrip.antt =====
-- `directives` against a printer of directive lists: what is printed is read back.
use mathlib.Core.List.{append_assoc, append-nil}
use gosub_sonar.Prelude.{
  ℕ, zero, suc, ◌<◌, ◌≡◌, ◌≢◌, refl, ap, sym, ◌∙◌, true, false, ◌||◌, ◌⊎◌, inl, inr, List, [], ◌∷◌,
  ◌++◌, none, some, Text, if◌then◌else◌, ◌==◌, length, length-append, All, arith, ◌>>=◌, Bool-cases,
}
use gosub_sonar.Hsts.Grammar.{
  Directive, found, last, is_tchar, is_blank, skip_ws, split_token, read_quoted, read_value, close,
  read_rest, read_directive, start_round, round, directives_from, directives,
}

-- A quoted-string's contents: quotes and backslashes are escaped.
unfoldable pub escape : Text → Text
escape [] = []
escape (c ∷ s) = if c == b'"' || c == b'\\' then b'\\' ∷ c ∷ escape s else c ∷ escape s

unfoldable pub render_directive : Directive → Text
render_directive (name, none) = name
render_directive (name, some v) = name ++ b'=' ∷ b'"' ∷ (escape v ++ b'"' ∷ [])

-- Directives joined by `; `.
unfoldable pub render : List Directive → Text
render [] = []
render (d ∷ []) = render_directive d
render (d ∷ e ∷ ds) = render_directive d ++ b';' ∷ b' ' ∷ render (e ∷ ds)

-- A token: one or more `tchar`s.
abbrev pub IsToken : Text → Type 0
IsToken [] = ⊥
IsToken (c ∷ s) = (is_tchar c ≡ true) × All (λ b. is_tchar b ≡ true) s

read_quoted-plain :
    (c : ℕ) (s : Text)
    → c ≢ b'"'
    → c ≢ b'\\'
    → read_quoted (c ∷ s) ≡ (read_quoted s >>= λ r. some (c ∷ r.0, r.1))
unfolding read_quoted
read_quoted-plain c [] h k = ground arith
read_quoted-plain c (d ∷ s) h k = ground arith

read_quoted-escaped :
    (d : ℕ) (s : Text) → read_quoted (b'\\' ∷ d ∷ s) ≡ (read_quoted s >>= λ r. some (d ∷ r.0, r.1))
unfolding read_quoted
read_quoted-escaped d s = refl

read_quoted-escape : (v rest : Text) → read_quoted (escape v ++ b'"' ∷ rest) ≡ some (v, rest)
unfolding escape
read_quoted-escape [] [] = unfold read_quoted in refl
read_quoted-escape [] (d ∷ rest) = unfold read_quoted in refl
read_quoted-escape (c ∷ v) rest = elim (Bool-cases (c == b'"' || c == b'\\')) [
  | inl special ↦ rw special (read_quoted-escaped c _ ∙ rw (read_quoted-escape v rest))
  | inr plain ↦
      rw plain
        (read_quoted-plain c _ (ground arith) (ground arith) ∙ rw (read_quoted-escape v rest))
]

-- What may follow a token: nothing, or a byte that is no `tchar`.
abbrev Ends : Text → Type 0
Ends [] = Unit
Ends (c ∷ s) = is_tchar c ≡ false

split_token-append :
    (name rest : Text)
    → All (λ b. is_tchar b ≡ true) name
    → Ends rest
    → split_token (name ++ rest) ≡ (name, rest)
unfolding split_token
split_token-append [] [] h e = refl
split_token-append [] (c ∷ rest) h e = rw e
split_token-append (c ∷ name) rest h e = rw (split_token-append name rest h.1 e, h.0)

tchar_of_blank : (c : ℕ) → is_blank c ≡ true → is_tchar c ≡ false
unfolding is_blank is_tchar
tchar_of_blank c h =
    let which : (c ≡ b' ') ⊎ (c ≡ 9) = ground arith in
    elim which [ inl e ↦ rw e refl | inr e ↦ rw e refl ]

not-blank_of_tchar : (c : ℕ) → is_tchar c ≡ true → is_blank c ≡ false
not-blank_of_tchar c h = elim (Bool-cases (is_blank c)) [
  | inr fine ↦ fine
  | inl space ↦ absurd (cc (h, tchar_of_blank c space))
]

skip_ws_lem : (c : ℕ) (s : Text) → is_blank c ≡ false → skip_ws (c ∷ s) ≡ c ∷ s
unfolding skip_ws
skip_ws_lem c s h = rw h

skip_ws_blank : (c : ℕ) (s : Text) → is_blank c ≡ true → skip_ws (c ∷ s) ≡ skip_ws s
unfolding skip_ws
skip_ws_blank c s h = rw h

-- What may follow a directive in a rendered list, and what the round then comes to.
abbrev IsClosed : Text → Type 0
IsClosed [] = Unit
IsClosed (c ∷ s) = c ≡ b';'

read_rest-none : (name rest : Text) → IsClosed rest → read_rest name rest ≡ close (name, none) rest
unfolding read_rest
read_rest-none name [] h = refl
read_rest-none name (c ∷ rest) h = rw h refl

skip_ws-IsClosed : (rest : Text) → IsClosed rest → skip_ws rest ≡ rest
unfolding skip_ws is_blank
skip_ws-IsClosed [] h = refl
skip_ws-IsClosed (c ∷ rest) h = rw h refl

read_rest-some :
    (name v rest : Text)
    → IsClosed rest
    → read_rest name (b'=' ∷ b'"' ∷ (escape v ++ b'"' ∷ rest)) ≡ close (name, some v) rest
unfolding read_rest read_value skip_ws is_blank
read_rest-some name v rest h = rw (read_quoted-escape v rest, skip_ws-IsClosed rest h)

Ends-of_IsClosed : (rest : Text) → IsClosed rest → Ends rest
unfolding is_tchar
Ends-of_IsClosed [] h = tt
Ends-of_IsClosed (c ∷ rest) h = rw h refl

abbrev pub IsWritable : Directive → Type 0
IsWritable d = IsToken d.0

tchar_semicolon : is_tchar b';' ≡ false
unfolding is_tchar
tchar_semicolon = refl

same_byte : (c d : ℕ) → (c == d) ≡ true → c ≡ d
same_byte c d h = ground arith

round_of_tchar : (c : ℕ) (s : Text) → is_tchar c ≡ true → round (c ∷ s) ≡ read_directive (c ∷ s)
unfolding round
round_of_tchar c s h =
    rw (skip_ws_lem c s (not-blank_of_tchar c h)) (elim (Bool-cases (c == b';')) [
      | inr other ↦ rw (other, start_round) refl
      | inl semi ↦ absurd (cc (h, tchar_semicolon, ap is_tchar (same_byte c b';' semi)))
    ])

render_some-append :
    (name v rest : Text)
    → render_directive (name, some v) ++ rest ≡ name ++ b'=' ∷ b'"' ∷ (escape v ++ b'"' ∷ rest)
unfolding render_directive
render_some-append name v rest =
    append_assoc name _ rest ∙ ap (λ t. name ++ b'=' ∷ b'"' ∷ t) (append_assoc (escape v) _ rest)

Ends-equals : (s : Text) → Ends (b'=' ∷ s)
unfolding is_tchar
Ends-equals s = refl

skip_equals : (s : Text) → skip_ws (b'=' ∷ s) ≡ b'=' ∷ s
unfolding skip_ws is_blank
skip_equals s = refl

-- One rendered directive is read as a whole, whatever closes it.
round-render :
    (d : Directive) (rest : Text)
    → IsWritable d
    → IsClosed rest
    → round (render_directive d ++ rest) ≡ close d rest
unfolding render_directive read_directive
round-render (c ∷ name, none) rest (t, ts) h =
    round_of_tchar c _ t
    ∙ rw
        (
          split_token-append (c ∷ name) rest (t, ts) (Ends-of_IsClosed rest h),
          skip_ws-IsClosed rest h,
        )
        (read_rest-none (c ∷ name) rest h)
round-render (c ∷ name, some v) rest (t, ts) h =
    let quoted = b'"' ∷ (escape v ++ b'"' ∷ rest) in
    ap round (render_some-append (c ∷ name) v rest)
    ∙ round_of_tchar c _ t
    ∙ rw
        (
          split_token-append (c ∷ name) (b'=' ∷ quoted) (t, ts) (Ends-equals quoted),
          skip_equals quoted,
        )
        (read_rest-some (c ∷ name) v rest h)
round-render ([], v) rest h k = absurd h

round_blank : (s : Text) → round (b' ' ∷ s) ≡ round s
unfolding round skip_ws is_blank
round_blank s = refl

directives_from_blank : (f : ℕ) (s : Text) → directives_from f (b' ' ∷ s) ≡ directives_from f s
unfolding directives_from
directives_from_blank zero s = refl
directives_from_blank (suc f) s = rw (round_blank s, directives_from)

directives_from_found :
    (f : ℕ) (s rest : Text) (d : Directive) (ds : List Directive)
    → round s ≡ found d rest
    → directives_from f rest ≡ some ds
    → directives_from (suc f) s ≡ some (d ∷ ds)
unfolding directives_from
directives_from_found f s rest d ds e h = rw (e, directives_from, h)

directives_from_last :
    (f : ℕ) (s : Text) (d : Directive)
    → round s ≡ last d
    → directives_from (suc f) s ≡ some (d ∷ [])
unfolding directives_from
directives_from_last f s d e = rw (e, directives_from)

directives_from-render :
    (f : ℕ) (ds : List Directive)
    → length (render ds) < f
    → All IsWritable ds
    → directives_from f (render ds) ≡ some ds
unfolding render close
directives_from-render zero ds h w = absurd (omega arith)
directives_from-render (suc f) [] h w = unfold directives_from round skip_ws in refl
directives_from-render (suc f) (d ∷ []) h w =
    directives_from_last f _ d (ap round (sym (append-nil _)) ∙ round-render d [] w.0 tt)
directives_from-render (suc f) (d ∷ e ∷ ds) h w =
    directives_from_found f _ _ d (e ∷ ds) (round-render d _ w.0 refl) (
      directives_from_blank f _
      ∙ directives_from-render f (e ∷ ds)
          (omega (arith, length-append (render_directive d) (b';' ∷ b' ' ∷ render (e ∷ ds)))) w.1)

-- A list of directives, each with a token for a name and with any text or none for a value, is read
-- back from its rendering, where values are quoted and escaped.
pub directives-render : (ds : List Directive) → All IsWritable ds → directives (render ds) ≡ some ds
unfolding directives
directives-render ds w = directives_from-render (suc (length (render ds))) ds (omega arith) w
