-- ===== src/Cache/Dates.antt =====
-- `parse_http_date` of src/net/cache.rs. An instant is its nanoseconds since the least instant of
-- `chrono::DateTime<Utc>`.
use gosub_sonar.Prelude.{
  ℕ, zero, suc, ◌*◌, ◌-◌, ◌^◌, List, [], ◌∷◌, ◌++◌, Option, none, some, Text, codes,
  eq_ignore_ascii_case, if◌then◌else◌, leb, length, trim,
}

-- `chrono`: `NaiveDateTime::parse_from_str` by a format, `format` by one, and the product of the
-- seconds of an age as `f64` and `HEURISTIC_FRACTION`, as an `i64`.
pub record Chrono : Type 0 where
  pub parse_from_str : (value format : Text) → Option ℕ
  pub format : (time : ℕ) (format : Text) → Text
  pub heuristic_fraction : ℕ → ℕ

abbrev pub seconds : ℕ → ℕ
seconds s = s * 10 ^ 9

unfoldable pub skip : ℕ → Text → Text
skip zero s = s
skip (suc n) [] = []
skip (suc n) (c ∷ s) = skip n s

unfoldable pub take : ℕ → Text → Text
take zero s = []
take (suc n) [] = []
take (suc n) (c ∷ s) = c ∷ take n s

abbrev imf_fixdate : Text
imf_fixdate = codes "%a, %d %b %Y %H:%M:%S GMT"

-- The value with its zone in upper case.
unfoldable pub upper_zone : Text → Text
unfolding skip take eq_ignore_ascii_case
upper_zone value =
    let start = length value - 3 in
    if leb 3 (length value)
    then (if eq_ignore_ascii_case (skip start value) (codes "gmt")
        then take start value ++ codes "GMT"
        else value)
    else value

module _ (C : Chrono) where
  open C use {parse_from_str, format}

  unfoldable pub first_format : Text → List Text → Option ℕ
  first_format value [] = none
  first_format value (form ∷ forms) = elim (parse_from_str value form) [
    | some time ↦ some time
    | none ↦ first_format value forms
  ]

  unfoldable pub parse_http_date : Text → Option ℕ
  unfolding upper_zone first_format trim
  parse_http_date value =
      first_format (upper_zone (trim value))
        (imf_fixdate ∷ codes "%A, %d-%b-%y %H:%M:%S GMT" ∷ codes "%a %b %e %H:%M:%S %Y" ∷ [])

  unfoldable pub format_http_date : ℕ → Text
  format_http_date time = format time imf_fixdate
