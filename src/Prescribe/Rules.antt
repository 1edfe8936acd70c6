-- ===== src/Prescribe/Rules.antt =====
-- Which decision rules apply to a user: `_matches` and its parts in cpa_first/engine/prescribe.py. Rates and
-- confidences are in ten-thousandths.
use xeno_pre_test.Prelude.{
  ℕ, Bool, true, false, ◌&&◌, ◌||◌, leb, if◌then◌else◌, List, [], ◌∷◌, ◌++◌, String, mem_str, any,
}
use xeno_pre_test.Prescribe.Subjects.{matches_rule_subject, primary_subject}

pub record Rule : Type 0 where
  pub rule_key : String
  pub rule_name : String
  pub applicable_stages : List String
  pub applicable_subjects : List String
  pub required_risk_tags : List String
  pub source_signal_count : ℕ
  pub confidence : ℕ
  pub action_text : String

pub record SubjectState : Type 0 where
  pub subject : String
  pub accuracy : ℕ
  pub time_overrun_rate : ℕ
  pub concept_mastery : List (String × ℕ)
  pub risk_tags : List String

pub record UserState : Type 0 where
  pub user_id : String
  pub current_stage : String
  pub days_until_exam : ℕ
  pub subject_states : List SubjectState

unfoldable pub user_subjects : List SubjectState → List String
user_subjects [] = []
user_subjects (s ∷ states) = s.subject ∷ user_subjects states

unfoldable pub user_risk_tags : List SubjectState → List String
user_risk_tags [] = []
user_risk_tags (s ∷ states) = s.risk_tags ++ user_risk_tags states

abbrev pub is_empty : List String → Bool
is_empty [] = true
is_empty (x ∷ xs) = false

unfoldable pub matches_stage : Rule → UserState → Bool
matches_stage r u = is_empty r.applicable_stages || mem_str u.current_stage r.applicable_stages

unfoldable pub matches_subjects : Rule → UserState → Bool
matches_subjects r u =
    is_empty r.applicable_subjects
    || any (λ s. matches_rule_subject s (user_subjects u.subject_states)) r.applicable_subjects

unfoldable pub matches_risk_tags : Rule → UserState → Bool
matches_risk_tags r u =
    is_empty r.required_risk_tags
    || any (λ t. mem_str t (user_risk_tags u.subject_states)) r.required_risk_tags

unfoldable pub matches : Rule → UserState → Bool
unfolding matches_stage matches_subjects matches_risk_tags
matches r u = matches_stage r u && matches_subjects r u && matches_risk_tags r u

-- `_task_subject`
unfoldable pub task_subject : Rule → UserState → String
task_subject r u = primary_subject r.applicable_subjects (user_subjects u.subject_states)

-- `_estimated_minutes`
unfoldable pub estimated_minutes : Rule → ℕ
estimated_minutes r =
    if leb 10 r.source_signal_count then 60 else if leb 3 r.source_signal_count then 45 else 30
