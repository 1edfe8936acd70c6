-- ===== src/Api/Model.antt =====
-- The application of cpa_first/api/main.py: what it loads at its start, the tables its endpoints write, and
-- their answers.
use xeno_pre_test.Prelude.{ℕ, Bool, true, false, Option, List, String, str_eq, first}
use xeno_pre_test.Records.Logs.{MistakeLog, AttemptDiagnosis}
use xeno_pre_test.Records.Overrides.{ReviewOverride}
use xeno_pre_test.Diagnosis.Attempt.{ProblemMap}

-- A question of the seed or of a real exam, with the fields that `diagnose_problem_attempt` reads and those
-- that only the endpoints read. A missing text is "".
pub record Question : Type 0 where
  pub problem : ProblemMap
  pub exam : Option String
  pub applicable_year : Option ℕ
  pub concept_tags : List String
  pub stem : String
  pub source : Option String
  pub explanation : String
  pub explanation_kind : Option String
  pub table_lossy : Bool
  pub math_lossy : Bool

abbrev pub id_of : Question → String
id_of m = m.problem.question_id

-- `problem_maps_by_id.get(question_id)`. The seed's questions, whose ids are distinct, stand before those of real
-- exams, so the first of an id is the one that `setdefault` keeps.
unfoldable pub question_by_id : String → List Question → Option Question
question_by_id i = first (λ m. str_eq (id_of m) i)

pub data Answer (A : Type 0) : Type 0 where
  ok : A → Answer A
  -- An `HTTPException` with its status.
  http_error : ℕ → Answer A

-- The tables of attempts, logs and overrides.
pub record Store : Type 0 where
  pub attempts : List AttemptDiagnosis
  pub logs : List MistakeLog
  pub overrides : List ReviewOverride

-- Whether an endpoint answers without an error.
abbrev pub is_ok : {A : Type 0} → Answer A × Store → Bool
is_ok (ok _, _) = true
is_ok (http_error _, _) = false
