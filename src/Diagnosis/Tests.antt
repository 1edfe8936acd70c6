-- ===== src/Diagnosis/Tests.antt =====
-- Attempts at a problem with two choices (cpa_first/engine/problem_diagnosis.py).
use xeno_pre_test.Prelude.{
  ◌≡◌, refl, ◌↔◌, ◌≤◌, true, false, not, none, some, [], ◌∷◌, mem_str, length, arith,
}
use xeno_pre_test.Diagnosis.Attempt.{
  pos, negsuc, SolutionPath, ProblemMap, Diagnosis, choice_out_of_range, diagnosed, is_slow,
  diagnose_problem_attempt,
}
use xeno_pre_test.Diagnosis.Verdict.{
  PathOf, ActionOf, in_range, diagnose_problem_attempt_lem, diagnose_problem_attempt_range,
}

abbrev structure : SolutionPath
structure = record {
  path_id = "s1";
  path_type = "structure";
  label = "table";
  why_this_path = "speed";
  ordered_steps = [];
  concept_links = record { concept_label = some "bonds"; detail = "" } ∷ [];
  choice_eliminations = [];
}

abbrev problem : ProblemMap
problem = record {
  question_id = "q1";
  subject = "accounting";
  unit = "bonds";
  choices = "yes" ∷ "no" ∷ [];
  correct_choice = 1;
  solution_paths = structure ∷ [];
  tutorial_id = none;
}

diagnose_problem_attempt_lem_example :
    (d : Diagnosis) × (diagnose_problem_attempt problem (pos 1) (some (pos 130)) (pos 120)
      ≡ diagnosed d)
    × ((d.correct ≡ true) ↔ (1 ≡ problem.correct_choice))
    × (mem_str "time_pressure" d.mistake_tags ≡ is_slow (some (pos 130)) (pos 120))
    × (mem_str "concept_gap" d.mistake_tags ≡ not d.correct)
    × (mem_str "distractor_trap" d.mistake_tags ≡ not d.correct)
    × ActionOf d.correct (is_slow (some (pos 130)) (pos 120)) d.action
    × PathOf d.correct
        (is_slow (some (pos 130)) (pos 120))
        problem.solution_paths
        d.recommended_path
    × (length d.focus_concepts ≤ 3)
diagnose_problem_attempt_lem_example =
    diagnose_problem_attempt_lem problem 1 (some (pos 130)) (pos 120) (omega arith) (omega arith)
      refl refl

diagnose_problem_attempt_range_example :
    (diagnose_problem_attempt problem (negsuc 0) none (pos 120) ≡ choice_out_of_range)
    ↔ (in_range (negsuc 0) (length problem.choices) ≡ false)
diagnose_problem_attempt_range_example =
    diagnose_problem_attempt_range problem (negsuc 0) none (pos 120)
