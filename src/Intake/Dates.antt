-- ===== src/Intake/Dates.antt =====
-- Dates in drafts (internal/intake/resolve.go: parseDate, optionalDate). `time.Parse` of package
-- time is written out for the two layouts in use, as its documentation and source describe it:
-- a year of four digits, then months and days of exactly two.
pub mod RoundTrip
use role_model.Prelude.{
  ℕ, ◌+◌, ◌-◌, ◌*◌, ◌%◌, Bool, not, ◌&&◌, ◌||◌, [], ◌∷◌, Option, none, some, leb, ◌==◌,
  if◌then◌else◌,
}
use role_model.Prelude.Results.{Result, ok, err}
use role_model.GoText.{Str, is_empty, Unicode, trim_space}

-- A year, a month and a day.
pub record Date : Type 0 where
  pub year : ℕ
  pub month : ℕ
  pub day : ℕ

abbrev pub is_ascii_digit : ℕ → Bool
is_ascii_digit c = leb b'0' c && leb c b'9'

-- The value of some digits, `none` if one of them is no digit.
unfoldable pub digits_from : ℕ → Str → Option ℕ
digits_from n [] = some n
digits_from n (c ∷ s) = if is_ascii_digit c then digits_from (n * 10 + (c - b'0')) s else none

unfoldable pub is_leap : ℕ → Bool
is_leap y = (y % 4 == 0) && (not (y % 100 == 0) || (y % 400 == 0))

-- The days of a month.
unfoldable pub days_in : ℕ → ℕ → ℕ
days_in month year =
    if month == 2
    then (if is_leap year then 29 else 28)
    else if (month == 4) || (month == 6) || (month == 9) || (month == 11)
    then 30
    else 31

-- The range checks of time.Parse.
unfoldable pub check_date : ℕ → ℕ → ℕ → Option Date
check_date y m d =
    if leb 1 m && leb m 12 && leb 1 d && leb d (days_in m y)
    then some (record { year = y; month = m; day = d })
    else none

abbrev pub date_of : Option ℕ → Option ℕ → Option ℕ → Option Date
date_of (some y) (some m) (some d) = check_date y m d
date_of (some y) (some m) none = none
date_of (some y) none d = none
date_of none m d = none

-- time.Parse("2006-01-02", s)
unfoldable pub parse_day : Str → Option Date
parse_day (y1 ∷ y2 ∷ y3 ∷ y4 ∷ h1 ∷ m1 ∷ m2 ∷ h2 ∷ d1 ∷ d2 ∷ []) =
    if (h1 == b'-') && (h2 == b'-')
    then date_of (digits_from 0 (y1 ∷ y2 ∷ y3 ∷ y4 ∷ [])) (digits_from 0 (m1 ∷ m2 ∷ []))
        (digits_from 0 (d1 ∷ d2 ∷ []))
    else none
parse_day _ = none

-- time.Parse("2006-01", s): the day is 1.
unfoldable pub parse_month : Str → Option Date
parse_month (y1 ∷ y2 ∷ y3 ∷ y4 ∷ h1 ∷ m1 ∷ m2 ∷ []) =
    if h1 == b'-'
    then date_of (digits_from 0 (y1 ∷ y2 ∷ y3 ∷ y4 ∷ [])) (digits_from 0 (m1 ∷ m2 ∷ [])) (some 1)
    else none
parse_month _ = none

module _ ⦃u : Unicode⦄ where
  -- The layouts are tried in order; the error holds the text that none of them reads.
  unfoldable pub parse_date : Str → Result Str Date
  parse_date s =
      let t = trim_space s in
      elim (parse_day t) [
        | some d ↦ ok d
        | none ↦ elim (parse_month t) [ some d ↦ ok d | none ↦ err t ]
      ]

  unfoldable pub optional_date : Option Str → Result Str (Option Date)
  optional_date none = ok none
  optional_date (some s) =
      if is_empty (trim_space s)
      then ok none
      else elim (parse_date s) [ ok d ↦ ok (some d) | err t ↦ err t ]
