-- ===== src/Explain/Batches.antt =====
-- The batches of cpa_first/explain_gen: `run_batch` of generator.py, `run_judge_batch` of judge.py and
-- `run_tutorial_judge_batch` of tutorial_judge.py, each one the shared loop around its own work. A call of a
-- model or a solver that raises is `none`; `n` is the number of the call in the batch.
use xeno_pre_test.Prelude.{ℕ, Bool, Option, none, some, List, String}
use xeno_pre_test.Explain.Dict.{Dict}
use xeno_pre_test.Explain.Extract.{extract_json_object}
use xeno_pre_test.Explain.Batch.{Batch, run_batch}
use xeno_pre_test.Explain.Generate.{
  Status, verified_answer_match, answer_mismatch, answer_parse_failed, backend_error, SolveResult,
  Explanation, generate_explanation, Json, Judgment, judge_explanation,
}
use xeno_pre_test.Explain.Tutorial.{TutorialReply, TutorialJudgment, judge_tutorial}

abbrev status_text : Status → String
status_text verified_answer_match = "verified_answer_match"
status_text answer_mismatch = "answer_mismatch"
status_text answer_parse_failed = "answer_parse_failed"
status_text backend_error = "backend_error"

-- A record to be stored, where the backend gave one.
abbrev stored : Explanation → Option Explanation
stored e = elim e.status [
  | verified_answer_match ↦ some e
  | answer_mismatch ↦ some e
  | answer_parse_failed ↦ some e
  | backend_error ↦ none
]

-- Each question with its key; the solver may answer each call in its own way.
unfoldable pub run_explanation_batch :
    (ℕ × Dict → String)
    → Bool
    → ℕ
    → (ℕ → Dict → ℕ → Option SolveResult)
    → List (ℕ × Dict)
    → List (String × Explanation)
    → Batch Explanation
unfolding run_batch generate_explanation
run_explanation_batch explanation_path skip_existing max_attempts solve =
    run_batch explanation_path (λ e. status_text e.status) skip_existing
      (λ n (correct, question).
        stored (generate_explanation (solve n) max_attempts correct question))

-- `path` is `judgment_path`, and `label` the text of a verdict as a key of the counts.
unfoldable pub run_judge_batch :
    (Explanation → String)
    → (Judgment → String)
    → (String → Option Json)
    → (String → Option String)
    → Bool
    → (ℕ → Explanation → Option String)
    → List Explanation
    → List (String × Judgment)
    → Batch Judgment
unfolding run_batch extract_json_object judge_explanation
run_judge_batch path label loads code_block skip_existing invoke =
    run_batch path label skip_existing (λ n e. elim (invoke n e) [
      | none ↦ none
      | some raw ↦ some (judge_explanation e (extract_json_object loads code_block raw))
    ])

-- `reply_of` is the reading of the JSON in a reply.
unfoldable pub run_tutorial_judge_batch :
    (String → String)
    → (String → Option TutorialReply)
    → Bool
    → (ℕ → String × Option String → Option String)
    → List (String × Option String)
    → List (String × TutorialJudgment)
    → Batch TutorialJudgment
unfolding run_batch judge_tutorial
run_tutorial_judge_batch path reply_of skip_existing invoke =
    run_batch (λ (i, _). path i) (λ j. j.overall_verdict) skip_existing
      (λ n (i, subject). elim (invoke n (i, subject)) [
        | none ↦ none
        | some raw ↦ some (judge_tutorial i subject (reply_of raw))
      ])
