-- ===== src/Api/StudyTests.antt =====
-- A user without logs is diagnosed (cpa_first/api/main.py).
use xeno_pre_test.Prelude.{◌≡◌, ◌⊎◌, refl, true, Option, none, some, List, [], ◌∷◌, String}
use xeno_pre_test.Records.Prescriptions.{Payload}
use xeno_pre_test.Records.Logs.{MistakeLog, list_mistake_logs}
use xeno_pre_test.Records.States.{State}
use xeno_pre_test.Prescribe.Rules.{SubjectState}
use xeno_pre_test.Api.Model.{http_error}
use xeno_pre_test.Api.Study.{
  StudyStore, DiagnoseRequest, RefreshContext, Draw, diagnose, refresh_state,
}
use xeno_pre_test.Api.Kept.{IsKept, diagnose-get_prescription}

-- Another user has a prescription.
abbrev stored : StudyStore
stored = record {
  store = record { attempts = []; logs = []; overrides = [] };
  states = [];
  prescriptions =
      record {
        id = "rx-2";
        user_id = 2;
        payload = record { prescription_id = some "rx-2"; document = "old" };
        generated_at = 5;
        is_active = true;
      }
      ∷ [];
}

abbrev prescribed : State → List String → Payload
prescribed s attempted = record { prescription_id = some "rx-1"; document = s.target_exam }

abbrev aggregated : List MistakeLog → Option String → String × List SubjectState
aggregated logs stage = ("intro", [])

abbrev draw : Draw
draw = record { now = 9; drawn = "rx-7"; again = "rx-8" }

abbrev request : DiagnoseRequest
request = record {
  target_exam = "CPA_1";
  days_until_exam = 60;
  available_hours_per_day = 400;
  current_stage = "final";
  subject_states = [];
}

abbrev context : RefreshContext
context = record {
  target_exam = "CPA_1";
  days_until_exam = 60;
  available_hours_per_day = 400;
  current_stage = none;
}

diagnose-get_prescription_example :
    IsKept (λ n. "u1") 1 stored (diagnose (λ n. "u1") prescribed aggregated draw request 1 stored)
    × (((list_mistake_logs 1 stored.store.logs ≡ [])
          × (refresh_state (λ n. "u1") prescribed aggregated draw context 1 stored
              ≡ (http_error 400, stored)))
        ⊎ IsKept
            (λ n. "u1")
            1
            stored
            (refresh_state (λ n. "u1") prescribed aggregated draw context 1 stored))
diagnose-get_prescription_example =
    diagnose-get_prescription (λ n. "u1") prescribed aggregated draw request context 1 stored
      (refl, tt) refl
