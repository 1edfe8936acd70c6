-- ===== src/Aggregate/Level.antt =====
-- The stage that cpa_first/engine/aggregate.py infers from the number and the accuracy of the logs.
use xeno_pre_test.Prelude.{ℕ, ◌*◌, ◌≡◌, min, leb, if◌then◌else◌, List, length, tally, arith}
use xeno_pre_test.StudyPlan.Stage.{
  Stage, intro, post_lecture, objective_entry, past_exam_rotation, mock_exam, final,
}
use xeno_pre_test.Aggregate.Signals.{Log, stage_for, infer_current_stage}

-- The place of a stage in the order of the stages.
abbrev pub place : Stage → ℕ
place intro = 0
place post_lecture = 1
place objective_entry = 2
place past_exam_rotation = 3
place mock_exam = 4
place final = 5

-- The stage that so many logs reach.
abbrev pub place_of_count : ℕ → ℕ
place_of_count n =
    if leb 400 n
    then 5
    else if leb 200 n
    then 4
    else if leb 80 n
    then 3
    else if leb 30 n
    then 2
    else if leb 1 n
    then 1
    else 0

-- The stage that an accuracy of `correct / n` allows.
abbrev pub place_of_accuracy : ℕ → ℕ → ℕ
place_of_accuracy n correct =
    if leb (72 * n) (100 * correct)
    then 5
    else if leb (62 * n) (100 * correct)
    then 4
    else if leb (50 * n) (100 * correct)
    then 3
    else 2

stage_for_place :
    (n correct : ℕ)
    → place (stage_for n correct) ≡ min (place_of_count n) (place_of_accuracy n correct)
unfolding stage_for
stage_for_place n correct = ground arith

-- The stage inferred stands at the lower of two places: the one that the number of logs reaches and the one
-- that the share of correct logs allows.
pub infer_current_stage_lem :
    (logs : List Log)
    → place (infer_current_stage logs)
      ≡ min
          (place_of_count (length logs))
          (place_of_accuracy (length logs) (tally (λ l. l.correct) logs))
unfolding infer_current_stage
infer_current_stage_lem logs = stage_for_place (length logs) (tally (λ l. l.correct) logs)
