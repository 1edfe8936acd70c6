-- ===== src/Api/Attempts.antt =====
-- The endpoints of cpa_first/api/main.py about a user's attempts and logs, each with the user that
-- `get_current_user` gives. An endpoint that raises leaves the store as it is.
use xeno_pre_test.Prelude.{
  ℕ, if◌then◌else◌, Option, none, some, List, map, String, str_eq, mem_str, length,
}
use xeno_pre_test.Records.Logs.{
  Log, MistakeLog, AttemptDiagnosis, add_mistake_log, list_mistake_logs, count_mistake_logs,
  delete_mistake_logs, add_attempt_diagnosis, list_attempt_diagnoses, delete_attempt_diagnoses,
}
use xeno_pre_test.Diagnosis.Attempt.{
  ℤ, pos, Diagnosis, Outcome, choice_out_of_range, negative_time, no_time_limit, index_error,
  diagnosed, diagnose_problem_attempt,
}
use xeno_pre_test.Api.Model.{Question, question_by_id, Answer, ok, http_error, Store}

abbrev question_of : AttemptDiagnosis → String
question_of a = a.question_id

-- `_attempted_ids`
unfoldable pub attempted_ids : Store → ℕ → List String
unfolding list_attempt_diagnoses
attempted_ids s user = map question_of (list_attempt_diagnoses user s.attempts)

pub record AttemptRequest : Type 0 where
  pub question_id : String
  pub selected_choice : ℕ
  pub time_seconds : Option ℕ
  pub time_limit_seconds : ℕ

pub record Attempted : Type 0 where
  pub attempt : AttemptDiagnosis
  pub diagnosis : Diagnosis
  pub explanation : String
  pub explanation_kind : String

abbrev time_of : Option ℕ → Option ℤ
time_of none = none
time_of (some t) = some (pos t)

abbrev given_kind : String → Option String → String
given_kind k none = k
given_kind k (some j) = if str_eq j "" then k else j

-- `problem_map.get("explanation_kind") or ("seed_solution_map" if explanation else "none")`
unfoldable pub stated_kind : Question → String
stated_kind m =
    given_kind (if str_eq m.explanation "" then "none" else "seed_solution_map") m.explanation_kind

-- The kind that an attempt's answer names.
unfoldable pub kind_of : Question → String
unfolding stated_kind
kind_of m = if str_eq m.explanation "" then "none" else stated_kind m

-- Times and the id of the attempt are given; `dump` is the JSON of a diagnosis.
module _ (dump : Diagnosis → String) (questions : List Question) where
  -- The row that is added.
  abbrev pub attempt_row : ℕ → ℕ → String → AttemptRequest → Diagnosis → AttemptDiagnosis
  attempt_row user now drawn req d = record {
    attempt_id = drawn;
    user_id = user;
    question_id = req.question_id;
    selected_choice = req.selected_choice;
    time_seconds = req.time_seconds;
    time_limit_seconds = req.time_limit_seconds;
    created_at = now;
    diagnosis = dump d;
  }

  -- The answer to an attempt with this outcome. `choices[correct_choice]` out of range, and an id that is
  -- stored, are errors that no handler expects.
  unfoldable pub answer_attempt :
      ℕ → ℕ → String → AttemptRequest → Question → Outcome → Store → Answer Attempted × Store
  unfolding add_attempt_diagnosis kind_of
  answer_attempt user now drawn req m choice_out_of_range s = (http_error 422, s)
  answer_attempt user now drawn req m negative_time s = (http_error 422, s)
  answer_attempt user now drawn req m no_time_limit s = (http_error 422, s)
  answer_attempt user now drawn req m index_error s = (http_error 500, s)
  answer_attempt user now drawn req m (diagnosed d) s =
      let row = attempt_row user now drawn req d in
      elim (add_attempt_diagnosis row s.attempts) [
        | none ↦ (http_error 500, s)
        | some rows ↦ (
          ok record {
            attempt = row;
            diagnosis = d;
            explanation = m.explanation;
            explanation_kind = kind_of m;
          },
          record s { attempts = rows },
        )
      ]

  unfoldable pub diagnose_attempt :
      ℕ → ℕ → String → AttemptRequest → Store → Answer Attempted × Store
  unfolding question_by_id answer_attempt diagnose_problem_attempt
  diagnose_attempt user now drawn req s = elim (question_by_id req.question_id questions) [
    | none ↦ (http_error 404, s)
    | some m ↦
        answer_attempt user now drawn req m
          (diagnose_problem_attempt m.problem (pos req.selected_choice) (time_of req.time_seconds)
            (pos req.time_limit_seconds))
          s
  ]

unfoldable pub list_attempts : ℕ → Store → List AttemptDiagnosis
unfolding list_attempt_diagnoses
list_attempts user s = list_attempt_diagnoses user s.attempts

unfoldable pub clear_attempts : ℕ → Store → Store
unfolding delete_attempt_diagnoses
clear_attempts user s = record s { attempts = delete_attempt_diagnoses user s.attempts }

-- A log of a problem that is known; the user's number of logs after it.
unfoldable pub add_log : List String → ℕ → ℕ → Log → Store → Answer ℕ × Store
unfolding add_mistake_log count_mistake_logs
add_log problem_ids user now log s =
    let rows = (add_mistake_log now user log s.logs).1 in
    if mem_str log.problem_id problem_ids
    then (ok (count_mistake_logs user rows), record s { logs = rows })
    else (http_error 400, s)

unfoldable pub list_logs : ℕ → Store → ℕ × List MistakeLog
unfolding list_mistake_logs
list_logs user s = let logs = list_mistake_logs user s.logs in (length logs, logs)

unfoldable pub clear_logs : ℕ → Store → Store
unfolding delete_mistake_logs
clear_logs user s = record s { logs = delete_mistake_logs user s.logs }
