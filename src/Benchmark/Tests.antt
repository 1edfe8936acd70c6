-- ===== src/Benchmark/Tests.antt =====
-- A run of `run_benchmark` (cpa_first/benchmark/runner.py) on two questions, one of them flagged.
use xeno_pre_test.Prelude.{
  if◌then◌else◌, not, keep, ◌≡◌, ◌⊎◌, inl, inr, true, false, Bool, none, some, List, [], ◌∷◌,
  String, str_eq, arith,
}
use xeno_pre_test.Benchmark.Grade.{TextTests, Question, SolveResult, grade, attractor_hit}
use xeno_pre_test.Benchmark.Run.{BenchmarkResult, is_flagged, graded, score_all, run_benchmark}
use xeno_pre_test.Benchmark.Report.{Adds, run_benchmark_lem}

abbrev text_tests : TextTests
text_tests = record {
  count_citations = λ s. 0;
  is_insufficient = λ s. false;
  has_answer_line = λ s. true;
  len = λ s. 4;
  tokens = λ s. s ∷ [];
  is_in = str_eq;
}

abbrev asked : String → Bool → Question
asked i flagged = record {
  question_id = i;
  subject = "tax";
  unit = "u";
  choices = "A" ∷ "B" ∷ [];
  correct_choice = 1;
  difficulty = none;
  bloom_level = none;
  attractor_traps = some "A" ∷ [];
  flagged_questionable = flagged;
  questionable_reason = none;
}

abbrev solve : Question → String ⊎ SolveResult
solve q =
    if◌then◌else◌ (str_eq q.question_id "q1") (inl "Timeout")
      (inr record { chosen_index = some 1; rationale = "B"; raw_response = "" })

abbrev questions : List Question
questions = asked "q1" false ∷ asked "q2" true ∷ asked "q3" false ∷ []

run_benchmark_lem_example :
    (r : BenchmarkResult) × (run_benchmark text_tests solve questions ≡ graded r)
    × Adds questions (keep (λ s. not (is_flagged s)) (score_all text_tests solve questions)) r
unfolding score_all grade attractor_hit
run_benchmark_lem_example = run_benchmark_lem text_tests solve questions (omega arith)
