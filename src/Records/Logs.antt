-- ===== src/Records/Logs.antt =====
-- The mistake logs and the attempts of cpa_first/db/repositories.py. A log comes in with its optional fields,
-- and a row adds its user and the time of its insertion; what `diagnosis` holds is a text.
use xeno_pre_test.Prelude.{
  ℕ, ◌+◌, ◌≡◌, ◌≢◌, refl, ap, Bool, true, false, not, ◌&&◌, ◌==◌, leb, if◌then◌else◌, Option, none,
  some, List, [], ◌∷◌, String, str_eq, eq_refl, any, keep, tally, sorted, arith, Bool-cases, inl,
  inr,
}
use mathlib.Core.Option.{get_or}

pub record Log : Type 0 where
  pub log_id : String
  pub problem_id : String
  pub attempt_at : String
  pub correct : Bool
  pub time_seconds : ℕ
  pub skipped : Option Bool
  pub mistake_categories : Option (List String)
  pub self_note : Option String
  pub session_id : Option String

pub record MistakeLog : Type 0 where
  pub user_id : ℕ
  pub log_id : String
  pub problem_id : String
  pub attempt_at : String
  pub correct : Bool
  pub time_seconds : ℕ
  pub skipped : Option Bool
  pub mistake_categories : List String
  pub self_note : Option String
  pub session_id : Option String
  pub created_at : ℕ

-- The key `(user_id, log_id)`.
abbrev pub has_key : ℕ → String → MistakeLog → Bool
has_key user i r = (r.user_id == user) && str_eq r.log_id i

abbrev pub of_user : ℕ → MistakeLog → Bool
of_user user r = r.user_id == user

-- Whether the log is new, and the rows after.
unfoldable pub add_mistake_log : ℕ → ℕ → Log → List MistakeLog → Bool × List MistakeLog
add_mistake_log now user log rows = if any (has_key user log.log_id) rows then (false, rows) else (
  true,
  record {
    user_id = user;
    log_id = log.log_id;
    problem_id = log.problem_id;
    attempt_at = log.attempt_at;
    correct = log.correct;
    time_seconds = log.time_seconds;
    skipped = log.skipped;
    mistake_categories = get_or log.mistake_categories [];
    self_note = log.self_note;
    session_id = log.session_id;
    created_at = now;
  }
      ∷ rows,
)

-- `order_by(MistakeLog.created_at.asc())`
abbrev pub older : MistakeLog → MistakeLog → Bool
older a b = leb a.created_at b.created_at

unfoldable pub list_mistake_logs : ℕ → List MistakeLog → List MistakeLog
list_mistake_logs user rows = sorted older (keep (of_user user) rows)

unfoldable pub count_mistake_logs : ℕ → List MistakeLog → ℕ
count_mistake_logs user rows = tally (of_user user) rows

unfoldable pub delete_mistake_logs : ℕ → List MistakeLog → List MistakeLog
delete_mistake_logs user rows = keep (λ r. not (of_user user r)) rows

-- Adding a log again, at any time and with any content under its id, changes nothing and says so; the first
-- time adds one to the user's count where the answer is that it is new, and nothing otherwise.
pub add_mistake_log_once :
    (now later user : ℕ) (log again : Log) (rows : List MistakeLog)
    → again.log_id ≡ log.log_id
    → let (fresh, after) = add_mistake_log now user log rows in
      (add_mistake_log later user again after ≡ (false, after))
      × (count_mistake_logs user after ≡ count_mistake_logs user rows + (if fresh then 1 else 0))
unfolding add_mistake_log count_mistake_logs
add_mistake_log_once now later user log again rows e =
    elim (Bool-cases (any (has_key user log.log_id) rows)) [
      | inl h ↦ rw h (rw (e, h) refl, omega arith)
      | inr h ↦ rw h (ground (arith, eq_refl log.log_id, e), ground arith)
    ]

tally-keep-not :
    (u : ℕ) (rows : List MistakeLog) → tally (of_user u) (keep (λ r. not (of_user u r)) rows) ≡ 0
tally-keep-not u [] = refl
tally-keep-not u (r ∷ rows) = ground (arith, tally-keep-not u rows)

keep-keep-not :
    (u v : ℕ) (rows : List MistakeLog)
    → u ≢ v
    → keep (of_user v) (keep (λ r. not (of_user u r)) rows) ≡ keep (of_user v) rows
keep-keep-not u v [] h = refl
keep-keep-not u v (r ∷ rows) h = ground (arith, h, keep-keep-not u v rows h)

-- Deleting a user's logs leaves none of that user, and another user's list as it is.
pub delete_mistake_logs_lem :
    (u v : ℕ) (rows : List MistakeLog)
    → u ≢ v
    → (count_mistake_logs u (delete_mistake_logs u rows) ≡ 0)
      × (list_mistake_logs v (delete_mistake_logs u rows) ≡ list_mistake_logs v rows)
unfolding count_mistake_logs delete_mistake_logs list_mistake_logs
delete_mistake_logs_lem u v rows h =
    (tally-keep-not u rows, ap (sorted older) (keep-keep-not u v rows h))

-- An attempt under the id that the server draws.
pub record AttemptDiagnosis : Type 0 where
  pub attempt_id : String
  pub user_id : ℕ
  pub question_id : String
  pub selected_choice : ℕ
  pub time_seconds : Option ℕ
  pub time_limit_seconds : ℕ
  pub created_at : ℕ
  pub diagnosis : String

-- `none` where the id drawn is stored, an `IntegrityError`.
unfoldable pub add_attempt_diagnosis :
    AttemptDiagnosis → List AttemptDiagnosis → Option (List AttemptDiagnosis)
add_attempt_diagnosis a rows =
    if any (λ r. str_eq r.attempt_id a.attempt_id) rows then none else some (a ∷ rows)

unfoldable pub list_attempt_diagnoses : ℕ → List AttemptDiagnosis → List AttemptDiagnosis
list_attempt_diagnoses user rows =
    sorted (λ a b. leb a.created_at b.created_at) (keep (λ r. r.user_id == user) rows)

unfoldable pub delete_attempt_diagnoses : ℕ → List AttemptDiagnosis → List AttemptDiagnosis
delete_attempt_diagnoses user rows = keep (λ r. not (r.user_id == user)) rows
