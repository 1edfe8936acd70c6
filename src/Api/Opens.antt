-- ===== src/Api/Opens.antt =====
-- What an attempt opens, of the endpoints of cpa_first/api/main.py that show answers.
use xeno_pre_test.Prelude.{
  ℕ, ◌≡◌, ◌≢◌, refl, sym, ap, ◌∙◌, Bool, true, false, ◌&&◌, ◌||◌, ◌==◌, if◌then◌else◌, Option, none,
  some, List, [], ◌∷◌, map, String, str_eq, eq_refl, mem_str, any, keep, sorted, insort, arith,
  Bool-cases, Option-cases, inl, inr,
}
use mathlib.Core.Bool.{false≢true}
use xeno_pre_test.Records.Logs.{
  AttemptDiagnosis, add_attempt_diagnosis, list_attempt_diagnoses, delete_attempt_diagnoses,
}
use xeno_pre_test.Diagnosis.Attempt.{
  Diagnosis, Outcome, choice_out_of_range, negative_time, no_time_limit, index_error, diagnosed,
}
use xeno_pre_test.Api.Model.{Question, question_by_id, ok, http_error, is_ok, Store}
use xeno_pre_test.Api.Attempts.{
  attempted_ids, AttemptRequest, Attempted, attempt_row, answer_attempt, diagnose_attempt,
  clear_attempts,
}
use xeno_pre_test.Api.Gate.{require_attempted, get_solution_map_evidence}

abbrev of_question : ℕ → String → AttemptDiagnosis → Bool
of_question user i r = (r.user_id == user) && str_eq i r.question_id

abbrev question_of : AttemptDiagnosis → String
question_of a = a.question_id

mem_str-insort :
    (before : AttemptDiagnosis → AttemptDiagnosis → Bool) (i : String) (a : AttemptDiagnosis)
    (rows : List AttemptDiagnosis)
    → mem_str i (map question_of (insort before a rows))
      ≡ (str_eq i a.question_id || mem_str i (map question_of rows))
unfolding insort
mem_str-insort before i a [] = refl
mem_str-insort before i a (r ∷ rows) = elim (Bool-cases (before a r)) [
  | inl e ↦ rw e refl
  | inr e ↦ rw (e, mem_str-insort before i a rows) (ground arith)
]

mem_str-sorted :
    (before : AttemptDiagnosis → AttemptDiagnosis → Bool) (user : ℕ) (i : String)
    (rows : List AttemptDiagnosis)
    → mem_str i (map question_of (sorted before (keep (λ r. r.user_id == user) rows)))
      ≡ any (of_question user i) rows
unfolding sorted
mem_str-sorted before user i [] = refl
mem_str-sorted before user i (r ∷ rows) = elim (Bool-cases (r.user_id == user)) [
  | inl e ↦ rw (e, mem_str-insort before i r _, mem_str-sorted before user i rows) refl
  | inr e ↦ rw (e, mem_str-sorted before user i rows) refl
]

mem_str-attempted_ids :
    (s : Store) (user : ℕ) (i : String)
    → mem_str i (attempted_ids s user) ≡ any (of_question user i) s.attempts
unfolding attempted_ids list_attempt_diagnoses
mem_str-attempted_ids s user i = mem_str-sorted _ user i s.attempts

any-delete :
    (user : ℕ) (i : String) (rows : List AttemptDiagnosis)
    → any (of_question user i) (delete_attempt_diagnoses user rows) ≡ false
unfolding delete_attempt_diagnoses
any-delete user i [] = refl
any-delete user i (r ∷ rows) = elim (Bool-cases (r.user_id == user)) [
  | inl e ↦ rw e (any-delete user i rows)
  | inr e ↦ rw e (ground (arith, any-delete user i rows))
]

add_attempt_diagnosis-cons :
    (a : AttemptDiagnosis) (rows after : List AttemptDiagnosis)
    → add_attempt_diagnosis a rows ≡ some after
    → after ≡ a ∷ rows
unfolding add_attempt_diagnosis
add_attempt_diagnosis-cons a rows after e =
    elim (Bool-cases (any (λ r. str_eq r.attempt_id a.attempt_id) rows)) [
      | inl t ↦ absurd (none_some (rw t at e))
      | inr t ↦ sym (ap (λ o. elim o [ none ↦ after | some l ↦ l ]) (rw t at e))
    ]
  where
    none_some : none ≡ some after → ⊥
    none_some h = false≢true (ap (λ o. elim o [ none ↦ false | some l ↦ true ]) h)

-- An ok answer to an attempt has added a row of the user and the question.
answer_attempt-ok :
    (dump : Diagnosis → String) (questions : List Question) (user now : ℕ) (drawn : String)
    (req : AttemptRequest) (m : Question) (o : Outcome) (s after : Store) (r : Attempted)
    → answer_attempt dump questions user now drawn req m o s ≡ (ok r, after)
    → (a : AttemptDiagnosis) × (a.user_id ≡ user)
      × (a.question_id ≡ req.question_id)
      × (after.attempts ≡ a ∷ s.attempts)
unfolding answer_attempt add_attempt_diagnosis
answer_attempt-ok dump questions user now drawn req m choice_out_of_range s after r e =
    absurd (false≢true (ap is_ok e))
answer_attempt-ok dump questions user now drawn req m negative_time s after r e =
    absurd (false≢true (ap is_ok e))
answer_attempt-ok dump questions user now drawn req m no_time_limit s after r e =
    absurd (false≢true (ap is_ok e))
answer_attempt-ok dump questions user now drawn req m index_error s after r e =
    absurd (false≢true (ap is_ok e))
answer_attempt-ok dump questions user now drawn req m (diagnosed d) s after r e =
    let row = attempt_row dump questions user now drawn req d in
    elim (Option-cases (add_attempt_diagnosis row s.attempts)) [
      | inl n ↦ absurd (false≢true (ap is_ok (rw (n, answer_attempt) at e)))
      | inr (rows, n) ↦
          let stored : record s { attempts = rows } ≡ after =
            ap (λ x. x.1) (rw (n, answer_attempt) at e) in
          let added : rows ≡ row ∷ s.attempts = add_attempt_diagnosis-cons row s.attempts rows n in
          (row, refl, refl, sym (ap (λ x. x.attempts) stored) ∙ added)
    ]

require_attempted-any :
    {A : Type 0} (s : Store) (user : ℕ) (i : String) (a : A) (b : Bool)
    → any (of_question user i) s.attempts ≡ b
    → require_attempted s user i a ≡ (if b then ok a else http_error 403)
unfolding require_attempted
require_attempted-any s user i a b e = rw (mem_str-attempted_ids s user i, e) refl

-- After an ok answer to a user's attempt at a known question, its solution map is shown to the user; after the
-- user has cleared the attempts it is refused with 403; and what another user is shown or refused,
-- of any question, is as before the attempt.
pub diagnose_attempt_opens :
    (dump : Diagnosis → String) (questions : List Question) (user other now : ℕ) (drawn i : String)
    (req : AttemptRequest) (m : Question) (s after : Store) (r : Attempted)
    → question_by_id req.question_id questions ≡ some m
    → diagnose_attempt dump questions user now drawn req s ≡ (ok r, after)
    → user ≢ other
    → (get_solution_map_evidence questions after user req.question_id ≡ ok m)
      × (get_solution_map_evidence questions (clear_attempts user after) user req.question_id
          ≡ http_error 403)
      × (get_solution_map_evidence questions after other i
          ≡ get_solution_map_evidence questions s other i)
unfolding diagnose_attempt get_solution_map_evidence clear_attempts
diagnose_attempt_opens dump questions user other now drawn i req m s after r found e differ =
    let (a, owner, about, rows) =
      answer_attempt-ok dump questions user now drawn req m _ s after r
        (rw (found, diagnose_attempt) at e) in
    let own : any (of_question user req.question_id) after.attempts ≡ true =
      rw rows (rw (about, owner) (ground (arith, eq_refl req.question_id))) in
    let others : any (of_question other i) after.attempts ≡ any (of_question other i) s.attempts =
      rw rows (ground (arith, owner, differ)) in
    (
      rw (found, get_solution_map_evidence)
          (require_attempted-any after user req.question_id m true own),
      rw (found, get_solution_map_evidence)
          (require_attempted-any (clear_attempts user after) user req.question_id m false
            (any-delete user req.question_id after.attempts)),
      elsewhere (question_by_id i questions) others,
    )
  where
    elsewhere :
        (o : Option Question)
        → any (of_question other i) after.attempts ≡ any (of_question other i) s.attempts
        → (elim o [ none ↦ http_error 404 | some x ↦ require_attempted after other i x ])
          ≡ (elim o [ none ↦ http_error 404 | some x ↦ require_attempted s other i x ])
    elsewhere none h = refl
    elsewhere (some x) h =
        require_attempted-any after other i x (any (of_question other i) s.attempts) h
        ∙ sym (require_attempted-any s other i x (any (of_question other i) s.attempts) refl)
