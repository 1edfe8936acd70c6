-- ===== src/Api/Tests.antt =====
-- The endpoints of cpa_first/api/main.py on two questions and two users.
use text.Mathlib.TextEquality.{eq_iff}
use xeno_pre_test.Prelude.{
  suc, ◌≡◌, refl, true, false, none, some, List, [], ◌∷◌, map, String, keep, length, arith,
}
use mathlib.Core.Bool.{false≢true}
use xeno_pre_test.Diagnosis.Attempt.{Diagnosis, diagnose_problem_attempt, diagnosis_of}
use xeno_pre_test.Records.Logs.{AttemptDiagnosis, add_attempt_diagnosis}
use xeno_pre_test.Records.Overrides.{upsert_review_override, put_override, get_review_override}
use xeno_pre_test.Api.Model.{Question, question_by_id, ok, http_error, Store}
use xeno_pre_test.Api.Practice.{Filters, passes, practice_brief}
use xeno_pre_test.Api.Pages.{pages, pages_lem}
use xeno_pre_test.Api.Attempts.{
  AttemptRequest, Attempted, diagnose_attempt, answer_attempt, clear_attempts, kind_of, stated_kind,
}
use xeno_pre_test.Api.Gate.{get_solution_map_evidence}
use xeno_pre_test.Api.Opens.{diagnose_attempt_opens}
use xeno_pre_test.Api.Review.{Seed, get_evidence, update_review, seed_by_id, reviewable}
use xeno_pre_test.Api.Reviewed.{update_review_shown}

abbrev made : String → String → Question
made i subject = record {
  problem = record {
    question_id = i;
    subject = subject;
    unit = "u";
    choices = "A" ∷ "B" ∷ [];
    correct_choice = 1;
    solution_paths = [];
    tutorial_id = none;
  };
  exam = none;
  applicable_year = some 2025;
  concept_tags = [];
  stem = "?";
  source = none;
  explanation = "B";
  explanation_kind = none;
  table_lossy = false;
  math_lossy = false;
}

abbrev questions : List Question
questions = made "q1" "tax" ∷ made "q2" "tax" ∷ made "q3" "audit" ∷ []

abbrev of_tax : Filters
of_tax = record { subject = "tax"; unit = ""; source = ""; year = 0 }

pages_lem_example :
    pages (suc (length questions)) questions of_tax 1 ""
    ≡ map practice_brief (keep (passes of_tax) questions)
pages_lem_example = pages_lem questions of_tax 1 (
  λ e. false≢true ((eq_iff "q1" "").1 e),
  ((refl, refl), ((refl, refl), tt)),
  (
    λ e. false≢true ((eq_iff "q2" "").1 e),
    ((refl, refl), tt),
    (λ e. false≢true ((eq_iff "q3" "").1 e), tt, tt),
  ),
)

abbrev dump : Diagnosis → String
dump d = "{}"

abbrev request : AttemptRequest
request = record {
  question_id = "q2";
  selected_choice = 0;
  time_seconds = none;
  time_limit_seconds = 120;
}

abbrev empty : Store
empty = record { attempts = []; logs = []; overrides = [] }

abbrev seeds : List Seed
seeds = record { ref_id = "r1"; review_status = none; document = "{}" } ∷ []

abbrev reviewed : Store
reviewed = record {
  attempts = [];
  logs = [];
  overrides =
      record {
        ref_type = "decision_rule";
        ref_id = "r1";
        review_status = "approved";
        reviewer = none;
      }
      ∷ [];
}

update_review_shown_example :
    ((x : Seed) × (get_evidence seeds [] reviewed "decision_rule" "r1" ≡ ok x)
      × (x.ref_id ≡ "r1")
      × (x.review_status ≡ some "approved"))
    × (get_evidence seeds [] reviewed "decision_rule" "r2"
        ≡ get_evidence seeds [] empty "decision_rule" "r2")
unfolding update_review upsert_review_override put_override get_review_override seed_by_id
    reviewable
update_review_shown_example =
    update_review_shown seeds [] (λ i. true) "decision_rule" "r1" "approved" "decision_rule" "r2"
      none none empty reviewed refl refl

abbrev diagnosis : Diagnosis
unfolding diagnosis_of
diagnosis = diagnosis_of (made "q2" "tax").problem 0 "A" "B" false

abbrev row : AttemptDiagnosis
row = record {
  attempt_id = "a1";
  user_id = 7;
  question_id = "q2";
  selected_choice = 0;
  time_seconds = none;
  time_limit_seconds = 120;
  created_at = 1;
  diagnosis = "{}";
}

abbrev attempted : Attempted
attempted = record {
  attempt = row;
  diagnosis = diagnosis;
  explanation = "B";
  explanation_kind = "seed_solution_map";
}

abbrev after_attempt : Store
after_attempt = record { attempts = row ∷ []; logs = []; overrides = [] }

diagnose_attempt_opens_example :
    (get_solution_map_evidence questions after_attempt 7 "q2" ≡ ok (made "q2" "tax"))
    × (get_solution_map_evidence questions (clear_attempts 7 after_attempt) 7 "q2" ≡ http_error 403)
    × (get_solution_map_evidence questions after_attempt 8 "q2"
        ≡ get_solution_map_evidence questions empty 8 "q2")
unfolding diagnose_attempt answer_attempt add_attempt_diagnosis question_by_id
    diagnose_problem_attempt kind_of stated_kind
diagnose_attempt_opens_example =
    diagnose_attempt_opens dump questions 7 8 1 "a1" "q2" request (made "q2" "tax") empty
      after_attempt attempted refl refl (omega arith)
