-- ===== src/StudyPlan/Stage.antt =====
-- The stages of cpa_first/engine/study_plan.py and their tables.
use xeno_pre_test.Prelude.{
  ℕ, ◌<◌, arith, Bool, true, false, List, [], ◌∷◌, String, if◌then◌else◌, str_eq, drop,
}

pub data Stage : Type 0 where
  intro post_lecture objective_entry past_exam_rotation mock_exam final : Stage

-- STAGE_ORDER
abbrev pub stage_order : List Stage
stage_order = intro ∷ post_lecture ∷ objective_entry ∷ past_exam_rotation ∷ mock_exam ∷ final ∷ []

-- STAGE_WEEK_WEIGHTS; the source's floats are whole numbers.
unfoldable pub stage_week_weight : Stage → ℕ
stage_week_weight intro = 1
stage_week_weight post_lecture = 2
stage_week_weight objective_entry = 3
stage_week_weight past_exam_rotation = 4
stage_week_weight mock_exam = 2
stage_week_weight final = 1

-- `STAGE_ORDER.index(current_stage)`, and 0 for a text that names no stage.
unfoldable pub stage_index : String → ℕ
stage_index current =
    if str_eq current "post_lecture"
    then 1
    else if str_eq current "objective_entry"
    then 2
    else if str_eq current "past_exam_rotation"
    then 3
    else if str_eq current "mock_exam"
    then 4
    else if str_eq current "final"
    then 5
    else 0

pub stage_index-lt : (current : String) → stage_index current < 6
unfolding stage_index
stage_index-lt current = ground arith

-- `_remaining_stages`
unfoldable pub remaining_stages : String → List Stage
unfolding stage_index
remaining_stages current = drop (stage_index current) stage_order

-- TEACHING_STAGES
unfoldable pub is_teaching : Stage → Bool
is_teaching intro = true
is_teaching post_lecture = true
is_teaching objective_entry = true
is_teaching _ = false
