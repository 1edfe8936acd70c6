-- ===== src/Api/Study.antt =====
-- The endpoints of cpa_first/api/main.py that store a user's state with a prescription, and that show them. The making of
-- a prescription, with the problems already attempted, and of the states of subjects from logs are parameters here: the
-- modules Prescribe and Aggregate have them on their own rows. Times and the two ids that are drawn are arguments.
use xeno_pre_test.Prelude.{ℕ, if◌then◌else◌, Option, none, some, List, [], ◌∷◌, String, str_eq}
use xeno_pre_test.Records.Prescriptions.{
  Payload, Prescription, save_prescription, get_active_prescription,
}
use xeno_pre_test.Records.Logs.{MistakeLog, list_mistake_logs}
use xeno_pre_test.Records.States.{State, UserState, upsert_user_state, get_user_state}
use xeno_pre_test.Prescribe.Rules.{SubjectState}
use xeno_pre_test.Api.Model.{Answer, ok, http_error, Store}
use xeno_pre_test.Api.Attempts.{attempted_ids}

-- The tables of states and prescriptions, and those that the other endpoints write.
pub record StudyStore : Type 0 where
  pub store : Store
  pub states : List UserState
  pub prescriptions : List Prescription

pub record DiagnoseRequest : Type 0 where
  pub target_exam : String
  pub days_until_exam : ℕ
  pub available_hours_per_day : ℕ
  pub current_stage : String
  pub subject_states : List SubjectState

pub record RefreshContext : Type 0 where
  pub target_exam : String
  pub days_until_exam : ℕ
  pub available_hours_per_day : ℕ
  pub current_stage : Option String

pub record DiagnoseResponse : Type 0 where
  pub user_state : State
  pub prescription : Payload

pub record Draw : Type 0 where
  pub now : ℕ
  pub drawn : String
  pub again : String

module _ (id_text : ℕ → String) where
  unfoldable pub user_state_from_request : DiagnoseRequest → ℕ → State
  user_state_from_request req user = record {
    user_id = id_text user;
    target_exam = req.target_exam;
    days_until_exam = req.days_until_exam;
    available_hours_per_day = req.available_hours_per_day;
    current_stage = some req.current_stage;
    subject_states = req.subject_states;
  }

  unfoldable pub state_row_to_dict : UserState → ℕ → State
  state_row_to_dict row user = record {
    user_id = id_text user;
    target_exam = row.target_exam;
    days_until_exam = row.days_until_exam;
    available_hours_per_day = row.available_hours_per_day;
    current_stage = row.current_stage;
    subject_states = row.subject_states;
  }

  abbrev pub shown_of : Option Prescription → Option UserState → ℕ → Answer DiagnoseResponse
  unfolding state_row_to_dict
  shown_of none row user = http_error 404
  shown_of (some rx) none user = http_error 404
  shown_of (some rx) (some row) user =
      ok record { user_state = state_row_to_dict row user; prescription = rx.payload }

  unfoldable pub get_prescription : ℕ → StudyStore → Answer DiagnoseResponse
  unfolding state_row_to_dict get_active_prescription get_user_state
  get_prescription user s =
      shown_of (get_active_prescription user s.prescriptions) (get_user_state user s.states) user

  unfoldable pub get_user_state_evidence : String → ℕ → StudyStore → Answer State
  unfolding state_row_to_dict get_user_state
  get_user_state_evidence ref user s =
      if str_eq ref (id_text user)
      then elim (get_user_state user s.states) [
        | none ↦ http_error 404
        | some row ↦ ok (state_row_to_dict row user)
      ]
      else http_error 403

-- The state and the prescription are stored and the session commits; where an id clashes nothing is.
unfoldable pub keep_state :
    Draw → ℕ → State → Payload → StudyStore → Answer DiagnoseResponse × StudyStore
unfolding upsert_user_state save_prescription
keep_state d user state rx s =
    elim (save_prescription d.now d.drawn d.again user rx s.prescriptions) [
      | none ↦ (http_error 500, s)
      | some (row, prescriptions) ↦ (
        ok record { user_state = state; prescription = rx },
        record {
          store = s.store;
          states = upsert_user_state user state s.states;
          prescriptions = prescriptions;
        },
      )
    ]

module _ (id_text : ℕ → String) (prescribe : State → List String → Payload)
    (aggregate : List MistakeLog → Option String → String × List SubjectState) where
  unfoldable pub diagnose :
      Draw → DiagnoseRequest → ℕ → StudyStore → Answer DiagnoseResponse × StudyStore
  unfolding keep_state user_state_from_request attempted_ids
  diagnose d req user s =
      let state = user_state_from_request id_text req user in
      keep_state d user state (prescribe state (attempted_ids s.store user)) s

  abbrev pub state_of_logs : RefreshContext → ℕ → List MistakeLog → State
  state_of_logs ctx user logs =
      let (stage, subject_states) = aggregate logs ctx.current_stage in
      record {
        user_id = id_text user;
        target_exam = ctx.target_exam;
        days_until_exam = ctx.days_until_exam;
        available_hours_per_day = ctx.available_hours_per_day;
        current_stage = some stage;
        subject_states = subject_states;
      }

  unfoldable pub refresh_state :
      Draw → RefreshContext → ℕ → StudyStore → Answer DiagnoseResponse × StudyStore
  unfolding keep_state list_mistake_logs attempted_ids
  refresh_state d ctx user s = elim (list_mistake_logs user s.store.logs) [
    | [] ↦ (http_error 400, s)
    | l ∷ ls ↦
        let state = state_of_logs ctx user (l ∷ ls) in
        keep_state d user state (prescribe state (attempted_ids s.store user)) s
  ]
