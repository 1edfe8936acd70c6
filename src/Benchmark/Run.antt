-- ===== src/Benchmark/Run.antt =====
-- `run_benchmark` of cpa_first/benchmark/runner.py, on the questions loaded. A solve that raises is its text. The
-- progress report, the times and the file of the run are left out.
use Prim.Native.String.{◌++◌ as str_append}
use xeno_pre_test.Prelude.{
  ℕ, Bool, ◌⊎◌, inl, inr, not, if◌then◌else◌, Option, none, some, List, [], ◌∷◌, map, String,
  str_eq, mem_str, str_leb, keep, tally, length, sorted,
}
use xeno_pre_test.Benchmark.Grade.{TextTests, Question, SolveResult, QuestionScore, grade}
use xeno_pre_test.Benchmark.Groups.{
  Accuracy, is_correct, group_accuracy, PassStatus, pass_status, Quality, quality_metrics, round4,
}

pub record BenchmarkResult : Type 0 where
  pub total : ℕ
  pub correct : ℕ
  pub overall_accuracy : ℕ
  pub per_subject : List Accuracy
  pub per_difficulty : List Accuracy
  pub per_bloom : List Accuracy
  pub per_unit : List Accuracy
  pub pass_status : PassStatus
  pub quality : Option Quality
  pub flagged_excluded : ℕ
  pub flagged_reasons : List String
  pub questions : List QuestionScore

pub data Outcome : Type 0 where
  no_questions all_flagged : Outcome
  graded : BenchmarkResult → Outcome

-- The result of a solver that raised, with the text of its exception.
abbrev pub solver_error : String → SolveResult
solver_error e = record {
  chosen_index = none;
  rationale = str_append "[SOLVER ERROR] " e;
  raw_response = "";
}

abbrev or_error : String ⊎ SolveResult → SolveResult
or_error (inl e) = solver_error e
or_error (inr r) = r

abbrev reason_of : QuestionScore → String
reason_of s = elim s.questionable_reason [
  | none ↦ "unspecified"
  | some r ↦ if str_eq r "" then "unspecified" else r
]

-- `set(xs)`
abbrev distinct : List String → List String
distinct [] = []
distinct (x ∷ xs) = if mem_str x xs then distinct xs else x ∷ distinct xs

abbrev pub is_flagged : QuestionScore → Bool
is_flagged s = s.flagged_questionable

abbrev pub subject_of : QuestionScore → Option String
subject_of s = some s.subject

-- The report on these scores, of which `graded_scores` are not flagged.
unfoldable pub report : List QuestionScore → List QuestionScore → BenchmarkResult
unfolding group_accuracy pass_status quality_metrics round4
report scores graded_scores =
    let correct = tally is_correct graded_scores in
    let flagged = keep is_flagged scores in
    let per_subject = group_accuracy subject_of graded_scores in
    record {
      total = length graded_scores;
      correct = correct;
      overall_accuracy = round4 correct (length graded_scores);
      per_subject = per_subject;
      per_difficulty = group_accuracy (λ s. s.difficulty) graded_scores;
      per_bloom = group_accuracy (λ s. s.bloom_level) graded_scores;
      per_unit =
          group_accuracy (λ s. some (str_append s.subject (str_append "/" s.unit))) graded_scores;
      pass_status = pass_status per_subject correct (length graded_scores);
      quality = quality_metrics graded_scores;
      flagged_excluded = length flagged;
      flagged_reasons = sorted str_leb (distinct (map reason_of flagged));
      questions = scores;
    }

module _ (T : TextTests) (solve : Question → String ⊎ SolveResult) where
  unfoldable pub score_all : List Question → List QuestionScore
  unfolding grade
  score_all [] = []
  score_all (q ∷ qs) = grade T q (or_error (solve q)) ∷ score_all qs

  unfoldable pub run_benchmark : List Question → Outcome
  unfolding score_all report
  run_benchmark [] = no_questions
  run_benchmark (q ∷ qs) =
      let scores = score_all (q ∷ qs) in
      let graded_scores = keep (λ s. not (is_flagged s)) scores in
      elim graded_scores [ [] ↦ all_flagged | g ∷ gs ↦ graded (report scores (g ∷ gs)) ]
