-- ===== src/StudyPlan/Weeks.antt =====
-- The weeks of `build_study_plan` (cpa_first/engine/study_plan.py), for a user with at least one subject. The
-- texts of a stage's theme, milestone and metric are fixed by the stage, so a week keeps the stage and
-- which of its weeks it is; the hours of the subjects are left out.
use xeno_pre_test.Prelude.{ℕ, zero, suc, ◌+◌, List, [], ◌∷◌, ◌++◌, String}
use xeno_pre_test.StudyPlan.Stage.{Stage, remaining_stages}
use xeno_pre_test.StudyPlan.Schedule.{total_weeks, days_range, distribute_stage_weeks}

pub data Milestone : Type 0 where
  -- "{STAGE_MILESTONES[stage]} ({i}/{count}주차)"
  stage_milestone : (i count : ℕ) → Milestone
  -- FINAL_WEEK_MILESTONE, with FINAL_WEEK_METRIC
  final_week : Milestone

pub record Week : Type 0 where
  pub week_no : ℕ
  pub days : ℕ × ℕ
  pub stage : Stage
  pub milestone : Milestone

-- The weeks of one stage, `left` of them to come, behind `done` weeks of the plan.
unfoldable pub stage_weeks : ℕ → Stage → ℕ → ℕ → ℕ → ℕ → List Week
stage_weeks days stage count i done zero = []
stage_weeks days stage count i done (suc left) =
    record {
      week_no = done + 1;
      days = days_range days (done + 1);
      stage = stage;
      milestone = stage_milestone i count;
    }
    ∷ stage_weeks days stage count (i + 1) (done + 1) left

unfoldable pub all_weeks : ℕ → ℕ → List (Stage × ℕ) → List Week
unfolding stage_weeks
all_weeks days done [] = []
all_weeks days done ((stage, count) ∷ rest) =
    stage_weeks days stage count 1 done count ++ all_weeks days (done + count) rest

-- `weeks[-1]["milestone"] = FINAL_WEEK_MILESTONE`
unfoldable pub mark_last : List Week → List Week
mark_last [] = []
mark_last (w ∷ []) = record w { milestone = final_week } ∷ []
mark_last (w ∷ v ∷ ws) = w ∷ mark_last (v ∷ ws)

unfoldable pub plan_weeks : ℕ → ℕ → String → List Week
unfolding all_weeks mark_last
plan_weeks days max_weeks current_stage =
    let weeks = total_weeks days max_weeks in
    mark_last (all_weeks days 0 (distribute_stage_weeks (remaining_stages current_stage) weeks))
