-- ===== src/Tools/Tests.antt =====
-- Two dates under `date_diff` of cpa_first/solver/tools.py.
use xeno_pre_test.Prelude.{
  ℕ, ◌-◌, ◌/◌, ◌≡◌, refl, Option, some, String, if◌then◌else◌, str_eq, arith,
}
use xeno_pre_test.Tools.Floats.{ok}
use xeno_pre_test.Tools.Dates.{Date, Covers, date_diff, date_diff_lem, is_before, before_in_year}

abbrev start : Date
start = record { year = 2024; month = 11; day = 30 }

abbrev end : Date
end = record { year = 2026; month = 2; day = 28 }

abbrev parse_date : String → Option Date
parse_date s = if str_eq s "2024-11-30" then some start else some end

abbrev day_number : Date → ℕ
day_number d = d.day

date_diff_lem_example :
    (months : ℕ) × Covers start end months
    × (date_diff parse_date day_number "2024-11-30" "2026-02-28" "months"
        ≡ ok (months, day_number end - day_number start))
    × (date_diff parse_date day_number "2024-11-30" "2026-02-28" "years"
        ≡ ok (months / 12, day_number end - day_number start))
unfolding is_before before_in_year
date_diff_lem_example =
    date_diff_lem parse_date day_number "2024-11-30" "2026-02-28" start end refl refl (omega arith)
      (omega arith) (omega arith) (omega arith) refl
