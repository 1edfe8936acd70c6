-- ===== src/Tools/Dates.antt =====
-- `date_diff` of cpa_first/solver/tools.py. The parser of dates and the number of a day are those of the standard
-- library, parameters here.
use xeno_pre_test.Prelude.{
  ℕ, suc, ◌+◌, ◌-◌, ◌*◌, ◌/◌, ◌≤◌, ◌<◌, ◌≡◌, refl, ◌⊎◌, Bool, false, ◌&&◌, ◌||◌, ◌==◌, ltb,
  if◌then◌else◌, Option, none, some, String, str_eq, arith,
}
use xeno_pre_test.Tools.Floats.{Result, ok, invalid, value_error}

pub record Date : Type 0 where
  pub year : ℕ
  pub month : ℕ
  pub day : ℕ

-- `(a.month, a.day) < (b.month, b.day)`
unfoldable pub before_in_year : Date → Date → Bool
before_in_year a b = ltb a.month b.month || ((a.month == b.month) && ltb a.day b.day)

-- `a < b`
unfoldable pub is_before : Date → Date → Bool
unfolding before_in_year
is_before a b = ltb a.year b.year || ((a.year == b.year) && before_in_year a b)

unfoldable pub months_between : Date → Date → ℕ
months_between start end =
    let months = ((end.year - start.year) * 12 + end.month) - start.month in
    if ltb end.day start.day then months - 1 else months

unfoldable pub years_between : Date → Date → ℕ
unfolding before_in_year
years_between start end =
    let years = end.year - start.year in if before_in_year end start then years - 1 else years

module _ (parse_date : String → Option Date) (day_number : Date → ℕ) where
  -- `result` and `days`
  unfoldable pub between : Date → Date → String → Result (ℕ × ℕ)
  unfolding is_before months_between years_between
  between start end unit =
      let days = day_number end - day_number start in
      if is_before end start
      then value_error "end before start"
      else if str_eq unit "days"
      then ok (days, days)
      else if str_eq unit "months"
      then ok (months_between start end, days)
      else ok (years_between start end, days)

  unfoldable pub date_diff : String → String → String → Result (ℕ × ℕ)
  unfolding between
  date_diff start end unit =
      if str_eq unit "days" || str_eq unit "months" || str_eq unit "years"
      then (elim (parse_date start) [
        | none ↦ value_error start
        | some s ↦ elim (parse_date end) [ none ↦ value_error end | some e ↦ between s e unit ]
      ])
      else invalid

-- The months since year 0.
abbrev pub month_number : Date → ℕ
month_number d = d.year * 12 + d.month

-- `months` after `start`, on its day, is not behind `end`, and a month more is.
pub record Covers (start end : Date) (months : ℕ) : Type 0 where
  pub reached :
      (month_number start + months < month_number end)
      ⊎ (month_number start + months ≡ month_number end) × (start.day ≤ end.day)
  pub not_more :
      (month_number end < month_number start + suc months)
      ⊎ (month_number end ≡ month_number start + suc months) × (end.day < start.day)

months_between-Covers :
    (start end : Date)
    → 1 ≤ start.month
    → start.month ≤ 12
    → 1 ≤ end.month
    → end.month ≤ 12
    → is_before end start ≡ false
    → Covers start end (months_between start end)
unfolding months_between is_before before_in_year
months_between-Covers start end a b c d h = record {
  reached = ground arith;
  not_more = ground arith;
}

years_lem :
    (start end : Date)
    → 1 ≤ start.month
    → start.month ≤ 12
    → 1 ≤ end.month
    → end.month ≤ 12
    → is_before end start ≡ false
    → years_between start end ≡ months_between start end / 12
unfolding months_between years_between is_before before_in_year
years_lem start end a b c d h = ground arith

-- Of dates with months of 1 to 12, the second not before the first, the answer in months is the number that
-- lies between them by days, and the answer in years is that number divided by 12, both with the days.
pub date_diff_lem :
    (parse_date : String → Option Date) (day_number : Date → ℕ) (start end : String) (s e : Date)
    → parse_date start ≡ some s
    → parse_date end ≡ some e
    → 1 ≤ s.month
    → s.month ≤ 12
    → 1 ≤ e.month
    → e.month ≤ 12
    → is_before e s ≡ false
    → (months : ℕ) × Covers s e months
      × (date_diff parse_date day_number start end "months"
          ≡ ok (months, day_number e - day_number s))
      × (date_diff parse_date day_number start end "years"
          ≡ ok (months / 12, day_number e - day_number s))
unfolding date_diff between
date_diff_lem parse_date day_number start end s e ps pe a b c d h = (
  months_between s e,
  months_between-Covers s e a b c d h,
  rw (ps, pe, h) refl,
  rw (ps, pe, h, years_lem s e a b c d h) refl,
)
