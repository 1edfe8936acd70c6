-- ===== src/StudyPlan/Tests.antt =====
-- The study plan of cpa_first/engine/study_plan.py for some users, and the theorems at them.
use xeno_pre_test.Prelude.{◌≡◌, refl, ◌*◌, ◌≤◌, ◌↔◌, none, some, List, [], ◌∷◌, map, length, arith}
use xeno_pre_test.StudyPlan.Stage.{
  intro, post_lecture, objective_entry, past_exam_rotation, mock_exam, final, is_teaching,
}
use xeno_pre_test.StudyPlan.Schedule.{distribute_stage_weeks, total_weeks, days_range}
use xeno_pre_test.StudyPlan.Distribution.{Distributes, distribute-Distributes}
use xeno_pre_test.StudyPlan.Weeks.{plan_weeks}
use xeno_pre_test.StudyPlan.Calendar.{
  Numbered, EndsFinal, last_week, plan_weeks_lem, plan_reaches_eve,
}
use xeno_pre_test.StudyPlan.Content.{
  Tutorial, tutorial, practice_set, Slot, ceil_div, tutorials_of, teach_subject, teaching_count,
}
use xeno_pre_test.StudyPlan.Teaching.{taught}
use xeno_pre_test.StudyPlan.Spread.{Spread, taught-teach_subject}

distribute-Distributes_example :
    Distributes
      (objective_entry ∷ past_exam_rotation ∷ mock_exam ∷ final ∷ [])
      10
      (distribute_stage_weeks (objective_entry ∷ past_exam_rotation ∷ mock_exam ∷ final ∷ []) 10)
distribute-Distributes_example =
    distribute-Distributes objective_entry (past_exam_rotation ∷ mock_exam ∷ final ∷ []) 10

plan_weeks_lem_example :
    (length (plan_weeks 60 52 "mock_exam") ≡ total_weeks 60 52)
    × Numbered 60 0 (plan_weeks 60 52 "mock_exam")
    × EndsFinal (last_week (plan_weeks 60 52 "mock_exam"))
plan_weeks_lem_example = plan_weeks_lem 60 52 "mock_exam"

plan_reaches_eve_example : ((days_range 365 (total_weeks 365 52)).1 ≤ 1) ↔ (365 ≤ 7 * 52)
plan_reaches_eve_example = plan_reaches_eve 365 52 (omega arith)

abbrev costs : Tutorial
costs = record {
  tutorial_id = "t2";
  subject = "accounting";
  level = none;
  ontology_node = none;
  priority = some 2;
}

abbrev basics : Tutorial
basics = record costs { tutorial_id = "t1"; level = some "intro_low" }

abbrev slots : List Slot
slots =
    record { stage = intro; content = practice_set "accounting" 3 ∷ [] }
    ∷ record { stage = final; content = [] }
    ∷ record { stage = post_lecture; content = [] }
    ∷ []

two_weeks_teach : 1 ≤ teaching_count slots
unfolding teaching_count is_teaching
two_weeks_teach = omega arith

taught-teach_subject_example :
    let ts = costs ∷ basics ∷ [] in
    (taught "accounting" (teach_subject ts "accounting" slots)
      ≡ map tutorial (tutorials_of "accounting" ts))
    × Spread "accounting"
        (ceil_div (length (tutorials_of "accounting" ts)) (teaching_count slots))
        slots
        (teach_subject ts "accounting" slots)
taught-teach_subject_example =
    taught-teach_subject "accounting" (costs ∷ basics ∷ []) slots two_weeks_teach
      (refl, (refl, (refl, tt)))
