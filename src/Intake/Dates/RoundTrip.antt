-- ===== src/Intake/Dates/RoundTrip.antt =====
-- Writing dates out and reading them (internal/intake/resolve.go: parseDate).
use role_model.Prelude.{
  ℕ, ◌≡◌, refl, ap, ◌∙◌, ◌+◌, ◌*◌, ◌/◌, ◌%◌, ◌<◌, ◌≤◌, true, false, [], ◌∷◌, some, arith, All,
}
use role_model.Prelude.Results.{ok}
use role_model.GoText.{Str, Unicode, trim_left, trim_right, trim_space}
use role_model.Intake.Dates.{
  Date, is_ascii_digit, digits_from, days_in, check_date, parse_day, parse_date,
}

-- A digit of a number.
abbrev pub digit : ℕ → ℕ
digit n = b'0' + n % 10

digits_from-digit :
    (n d : ℕ) (s : Str) → digits_from n (digit d ∷ s) ≡ digits_from (n * 10 + d % 10) s
unfolding digits_from
digits_from-digit n d s = ground arith

four_digits :
    (y : ℕ)
    → y < 10000
    → digits_from 0 (digit (y / 1000) ∷ digit (y / 100) ∷ digit (y / 10) ∷ digit y ∷ []) ≡ some y
unfolding digits_from
four_digits y h =
    let sum : (((0 * 10 + (y / 1000) % 10) * 10 + (y / 100) % 10) * 10 + (y / 10) % 10) * 10
          + y % 10
        ≡ y =
      omega arith in
    digits_from-digit 0 (y / 1000) (digit (y / 100) ∷ digit (y / 10) ∷ digit y ∷ [])
    ∙ digits_from-digit (0 * 10 + (y / 1000) % 10) (y / 100) (digit (y / 10) ∷ digit y ∷ [])
    ∙ digits_from-digit ((0 * 10 + (y / 1000) % 10) * 10 + (y / 100) % 10) (y / 10) (digit y ∷ [])
    ∙ digits_from-digit (((0 * 10 + (y / 1000) % 10) * 10 + (y / 100) % 10) * 10 + (y / 10) % 10) y
        []
    ∙ ap some sum

two_digits : (n : ℕ) → n < 100 → digits_from 0 (digit (n / 10) ∷ digit n ∷ []) ≡ some n
unfolding digits_from
two_digits n h =
    let sum : (0 * 10 + (n / 10) % 10) * 10 + n % 10 ≡ n = omega arith in
    digits_from-digit 0 (n / 10) (digit n ∷ [])
    ∙ digits_from-digit (0 * 10 + (n / 10) % 10) n []
    ∙ ap some sum

-- A date as YYYY-MM-DD.
unfoldable pub print_date : Date → Str
print_date d =
    digit (d.year / 1000)
    ∷ digit (d.year / 100)
    ∷ digit (d.year / 10)
    ∷ digit d.year
    ∷ b'-'
    ∷ digit (d.month / 10)
    ∷ digit d.month
    ∷ b'-'
    ∷ digit (d.day / 10)
    ∷ digit d.day
    ∷ []

pub record IsDate (d : Date) : Type 0 where
  pub year : d.year < 10000
  pub month : (1 ≤ d.month) × (d.month ≤ 12)
  pub day : (1 ≤ d.day) × (d.day ≤ days_in d.month d.year)

days_in-le : (m y : ℕ) → days_in m y ≤ 31
unfolding days_in
days_in-le m y = ground arith

check_date-IsDate : (d : Date) → IsDate d → check_date d.year d.month d.day ≡ some d
unfolding check_date
check_date-IsDate d v = ground arith

parse_day-print : (d : Date) → IsDate d → parse_day (print_date d) ≡ some d
unfolding parse_day print_date
parse_day-print d v =
    let y = four_digits d.year v.year in
    let m = two_digits d.month (omega arith) in
    let l = days_in-le d.month d.year in
    let e = two_digits d.day (omega arith) in rw (y, m, e) (check_date-IsDate d v)

module _ ⦃u : Unicode⦄ where
  abbrev IsPlain : ℕ → Type 0
  IsPlain c = u.is_space c ≡ false

  trim_right-plain : (s : Str) → All IsPlain s → trim_right s ≡ s
  unfolding trim_right
  trim_right-plain [] a = refl
  trim_right-plain (c ∷ s) a = rw (a.0, trim_right-plain s a.1) refl

  trim_space-plain : (c : ℕ) (s : Str) → All IsPlain (c ∷ s) → trim_space (c ∷ s) ≡ c ∷ s
  unfolding trim_space trim_left
  trim_space-plain c s a = rw a.0 (trim_right-plain (c ∷ s) a)

  parse_date-day :
      (s t : Str) (d : Date) → trim_space s ≡ t → parse_day t ≡ some d → parse_date s ≡ ok d
  unfolding parse_date
  parse_date-day s t d e f = rw (parse_date, e, f) refl

  -- Reading a date that was written out gives the date back, for a calendar date of the years 0 to
  -- 9999, when neither a digit nor the hyphen is a space.
  pub parse_date-print :
      ((c : ℕ) → is_ascii_digit c ≡ true → u.is_space c ≡ false)
      → u.is_space b'-' ≡ false
      → (d : Date) → IsDate d
      → parse_date (print_date d) ≡ ok d
  unfolding print_date
  parse_date-print digits dash d v =
      let plain : (n : ℕ) → u.is_space (digit n) ≡ false = λ n. digits (digit n) (ground arith) in
      parse_date-day (print_date d) (print_date d) d
        (trim_space-plain _ _ (
          plain _,
          (
            plain _,
            (plain _, (plain _, (dash, (plain _, (plain _, (dash, (plain _, (plain _, tt)))))))),
          ),
        ))
        (parse_day-print d v)
