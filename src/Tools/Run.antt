-- ===== src/Tools/Run.antt =====
-- `run_tool` of cpa_first/solver/tools.py.
use xeno_pre_test.Prelude.{ℕ, if◌then◌else◌, Option, List, String, str_eq}
use xeno_pre_test.Tools.Floats.{
  Result, ok, invalid, value_error, FloatOps, calculator, Bond, Row, amortization_table,
}
use xeno_pre_test.Tools.Dates.{Date, date_diff}

module _ (F : FloatOps) (parse_date : String → Option Date) (day_number : Date → ℕ) where
  -- A payload with the fields of one of the tools' models, or another one.
  pub data Payload : Type 0 where
    calculation : String → List F.Float → Payload
    bond : Bond F → Payload
    dates : String → String → String → Payload
    malformed : Payload

  pub data Output : Type 0 where
    result : F.Float → Output
    table : List (Row F) → F.Float → Output
    difference : ℕ → ℕ → Output

  abbrev output {ℓ} : {A : Type ℓ} → (A → Output) → Result A → Result Output
  output f (ok a) = ok (f a)
  output f invalid = invalid
  output f (value_error e) = value_error e

  -- Each tool on a payload: one that is not its own is refused by its model.
  unfoldable pub run_calculator : Payload → Result Output
  unfolding calculator
  run_calculator (calculation op nums) = output result (calculator F op nums)
  run_calculator _ = invalid

  unfoldable pub run_amortization_table : (Bond F → Result (Bond F)) → Payload → Result Output
  unfolding amortization_table
  run_amortization_table check (bond b) =
      output (λ c. (let (rows, final) = amortization_table F c in table rows final)) (check b)
  run_amortization_table check _ = invalid

  unfoldable pub run_date_diff : Payload → Result Output
  unfolding date_diff
  run_date_diff (dates start end unit) =
      output (λ (r, days). difference r days) (date_diff parse_date day_number start end unit)
  run_date_diff _ = invalid

  -- `check` is the model of a bond's fields.
  unfoldable pub run_tool : (Bond F → Result (Bond F)) → String → Payload → Result Output
  unfolding run_calculator run_amortization_table run_date_diff
  run_tool check name payload =
      if str_eq name "calculator"
      then run_calculator payload
      else if str_eq name "amortization_table"
      then run_amortization_table check payload
      else if str_eq name "date_diff"
      then run_date_diff payload
      else value_error "unknown tool"
