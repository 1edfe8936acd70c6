-- ===== src/Records/States.antt =====
-- The user states of cpa_first/db/repositories.py: one row for each user. A state of a request or of the logs has every
-- field; hours are in hundredths.
use xeno_pre_test.Prelude.{
  ℕ, ◌≡◌, ◌≢◌, refl, ◌==◌, ==_iff, if◌then◌else◌, Option, none, some, List, [], ◌∷◌, String,
  Bool-cases, inl, inr,
}
use xeno_pre_test.Prescribe.Rules.{SubjectState}

pub record State : Type 0 where
  pub user_id : String
  pub target_exam : String
  pub days_until_exam : ℕ
  pub available_hours_per_day : ℕ
  pub current_stage : Option String
  pub subject_states : List SubjectState

pub record UserState : Type 0 where
  pub user_id : ℕ
  pub target_exam : String
  pub days_until_exam : ℕ
  pub available_hours_per_day : ℕ
  pub current_stage : Option String
  pub subject_states : List SubjectState

abbrev pub state_row : ℕ → State → UserState
state_row user s = record {
  user_id = user;
  target_exam = s.target_exam;
  days_until_exam = s.days_until_exam;
  available_hours_per_day = s.available_hours_per_day;
  current_stage = s.current_stage;
  subject_states = s.subject_states;
}

unfoldable pub upsert_user_state : ℕ → State → List UserState → List UserState
upsert_user_state user s [] = state_row user s ∷ []
upsert_user_state user s (r ∷ rows) =
    if r.user_id == user then state_row user s ∷ rows else r ∷ upsert_user_state user s rows

-- `db.get(UserState, user_id)`
unfoldable pub get_user_state : ℕ → List UserState → Option UserState
get_user_state user [] = none
get_user_state user (r ∷ rows) = if r.user_id == user then some r else get_user_state user rows

pub get_user_state-upsert_user_state :
    (user : ℕ) (s : State) (rows : List UserState)
    → get_user_state user (upsert_user_state user s rows) ≡ some (state_row user s)
unfolding get_user_state upsert_user_state
get_user_state-upsert_user_state user s [] = rw ((==_iff user user).1 refl) refl
get_user_state-upsert_user_state user s (r ∷ rows) = elim (Bool-cases (r.user_id == user)) [
  | inl e ↦ rw (e, (==_iff user user).1 refl) refl
  | inr e ↦ rw (e, e) (get_user_state-upsert_user_state user s rows)
]

pub get_user_state_others :
    (user v : ℕ) (s : State) (rows : List UserState)
    → user ≢ v
    → get_user_state v (upsert_user_state user s rows) ≡ get_user_state v rows
unfolding get_user_state upsert_user_state
get_user_state_others user v s [] n = elim (Bool-cases (user == v)) [
  | inl k ↦ absurd (n ((==_iff user v).0 k))
  | inr k ↦ rw k refl
]
get_user_state_others user v s (r ∷ rows) n = elim (Bool-cases (r.user_id == user)) [
  | inl e ↦ elim (Bool-cases (user == v)) [
    | inl k ↦ absurd (n ((==_iff user v).0 k))
    | inr k ↦ rw (e, k) (rw (((==_iff r.user_id user).0 e), k) refl)
  ]
  | inr e ↦ elim (Bool-cases (r.user_id == v)) [
    | inl k ↦ rw (e, k) refl
    | inr k ↦ rw (e, k) (get_user_state_others user v s rows n)
  ]
]
