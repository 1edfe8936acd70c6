-- ===== src/Api/Kept.antt =====
-- What POST /diagnose and POST /user-state/refresh of cpa_first/api/main.py store is what GET /prescription then shows.
use xeno_pre_test.Prelude.{
  ℕ, ◌≡◌, ◌≢◌, ◌⊎◌, refl, sym, ap, ◌∙◌, false, any, Option, none, some, List, [], ◌∷◌, String, inl,
  inr,
}
use xeno_pre_test.Records.Prescriptions.{
  Payload, Prescription, has_id, save_prescription, get_active_prescription,
}
use xeno_pre_test.Records.Rows.{UniqueIds}
use xeno_pre_test.Records.Active.{save_prescription-get_active, save_prescription_others}
use xeno_pre_test.Records.Logs.{MistakeLog, list_mistake_logs}
use xeno_pre_test.Records.States.{
  State, state_row, get_user_state-upsert_user_state, get_user_state_others,
}
use xeno_pre_test.Prescribe.Rules.{SubjectState}
use xeno_pre_test.Api.Model.{Answer, ok, http_error}
use xeno_pre_test.Api.Attempts.{attempted_ids}
use xeno_pre_test.Api.Study.{
  StudyStore, DiagnoseRequest, RefreshContext, DiagnoseResponse, Draw, user_state_from_request,
  state_row_to_dict, shown_of, get_prescription, keep_state, diagnose, state_of_logs, refresh_state,
}

-- The endpoint answers with the state and its prescription; GET /prescription then shows the same to the user, and to
-- others what it did before; ids stay distinct and the other tables stay as they are.
pub record IsKept (id_text : ℕ → String) (user : ℕ) (s : StudyStore)
    (result : Answer DiagnoseResponse × StudyStore) : Type 0 where
  pub response : DiagnoseResponse
  pub answered : result.0 ≡ ok response
  pub shown : get_prescription id_text user result.1 ≡ ok response
  pub others :
      (v : ℕ) → user ≢ v → get_prescription id_text v result.1 ≡ get_prescription id_text v s
  pub unique : UniqueIds result.1.prescriptions
  pub same_store : result.1.store ≡ s.store

shown_again :
    (id_text : ℕ → String) (user : ℕ) (state : State) (row : Prescription) (rx : Payload)
    → state.user_id ≡ id_text user
    → row.payload ≡ rx
    → shown_of id_text (some row) (some (state_row user state)) user
      ≡ ok record { user_state = state; prescription = rx }
unfolding state_row_to_dict
shown_again id_text user state row rx named written =
    ap
      (λ i. ok record {
        user_state = record {
          user_id = i;
          target_exam = state.target_exam;
          days_until_exam = state.days_until_exam;
          available_hours_per_day = state.available_hours_per_day;
          current_stage = state.current_stage;
          subject_states = state.subject_states;
        };
        prescription = row.payload;
      })
      (sym named)
    ∙ ap (λ p. ok record { user_state = state; prescription = p }) written

-- What a save that succeeds leaves of another user's active prescription.
saved_others :
    (d : Draw) (user v : ℕ) (rx : Payload) (rows after : List Prescription) (row : Prescription)
    → user ≢ v
    → UniqueIds rows
    → any (has_id d.again) rows ≡ false
    → save_prescription d.now d.drawn d.again user rx rows ≡ some (row, after)
    → get_active_prescription v after ≡ get_active_prescription v rows
saved_others d user v rx rows after row apart unique free saved =
    let (other, after2, saved2, same) =
      save_prescription_others d.now user v d.drawn d.again rx rows apart unique free in
    ap (λ o. get_active_prescription v (elim o [ none ↦ rows | some (r, l) ↦ l ]))
      (sym saved ∙ saved2)
    ∙ same

keep_state-IsKept :
    (id_text : ℕ → String) (d : Draw) (user : ℕ) (state : State) (rx : Payload) (s : StudyStore)
    → state.user_id ≡ id_text user
    → UniqueIds s.prescriptions
    → any (has_id d.again) s.prescriptions ≡ false
    → IsKept id_text user s (keep_state d user state rx s)
unfolding keep_state get_prescription
keep_state-IsKept id_text d user state rx s named unique free =
    let (row, after, saved, written, active, only, still) =
      save_prescription-get_active d.now user d.drawn d.again rx s.prescriptions unique free in
    rw (saved, keep_state)
      record {
        response = record { user_state = state; prescription = rx };
        answered = refl;
        shown =
            rw (active, get_user_state-upsert_user_state user state s.states)
              (shown_again id_text user state row rx named written);
        others = λ v apart.
            rw
              (
                saved_others d user v rx s.prescriptions after row apart unique free saved,
                get_user_state_others user v state s.states apart,
              )
              refl;
        unique = still;
        same_store = refl;
      }

-- Where the ids stored are distinct and the second id drawn is not stored: POST /diagnose succeeds, and GET
-- /prescription then shows the user its answer and every other user what it did before. POST /user-state/refresh
-- does so too, or the user has no log and it answers 400 and stores nothing.
pub diagnose-get_prescription :
    (id_text : ℕ → String) (prescribe : State → List String → Payload)
    (aggregate : List MistakeLog → Option String → String × List SubjectState) (d : Draw)
    (req : DiagnoseRequest) (ctx : RefreshContext) (user : ℕ) (s : StudyStore)
    → UniqueIds s.prescriptions
    → any (has_id d.again) s.prescriptions ≡ false
    → IsKept id_text user s (diagnose id_text prescribe aggregate d req user s)
      × (((list_mistake_logs user s.store.logs ≡ [])
            × (refresh_state id_text prescribe aggregate d ctx user s ≡ (http_error 400, s)))
          ⊎ IsKept id_text user s (refresh_state id_text prescribe aggregate d ctx user s))
unfolding diagnose refresh_state user_state_from_request
diagnose-get_prescription id_text prescribe aggregate d req ctx user s unique free = (
  (let state = user_state_from_request id_text req user in
      keep_state-IsKept id_text d user state (prescribe state (attempted_ids s.store user)) s refl
        unique free),
  by_logs (list_mistake_logs user s.store.logs),
)
  where
    by_logs :
        (logs : List MistakeLog)
        → let result : Answer DiagnoseResponse × StudyStore = elim logs [
          | [] ↦ (http_error 400, s)
          | l ∷ ls ↦
              let state = state_of_logs id_text prescribe aggregate ctx user (l ∷ ls) in
              keep_state d user state (prescribe state (attempted_ids s.store user)) s
        ] in
          ((logs ≡ []) × (result ≡ (http_error 400, s))) ⊎ IsKept id_text user s result
    by_logs [] = inl (refl, refl)
    by_logs (l ∷ ls) =
        let state = state_of_logs id_text prescribe aggregate ctx user (l ∷ ls) in
        inr (
          keep_state-IsKept id_text d user state (prescribe state (attempted_ids s.store user)) s
            refl unique free)
