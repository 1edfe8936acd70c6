-- ===== src/Api/Gate.antt =====
-- The answers and solutions of cpa_first/api/main.py that only a user who has attempted the question sees:
-- `_require_attempted`, the two evidence endpoints behind it, and `ai_explain`.
use xeno_pre_test.Prelude.{
  ℕ, Bool, not, if◌then◌else◌, Option, none, some, List, [], ◌∷◌, String, str_eq, mem_str,
}
use xeno_pre_test.Diagnosis.Attempt.{ProblemMap, SolutionPath}
use xeno_pre_test.Explain.Generate.{SolveResult, is_choice}
use xeno_pre_test.Api.Model.{Question, id_of, question_by_id, Answer, ok, http_error, Store}
use xeno_pre_test.Api.Attempts.{attempted_ids, stated_kind}

-- `_require_attempted` before an answer.
unfoldable pub require_attempted : {A : Type 0} → Store → ℕ → String → A → Answer A
unfolding attempted_ids
require_attempted s user i a = if mem_str i (attempted_ids s user) then ok a else http_error 403

unfoldable pub get_solution_map_evidence : List Question → Store → ℕ → String → Answer Question
unfolding question_by_id require_attempted
get_solution_map_evidence questions s user i = elim (question_by_id i questions) [
  | none ↦ http_error 404
  | some m ↦ require_attempted s user i m
]

-- The solution paths of a seed's questions, each with its question: of equal ids the last one counts.
abbrev later_path :
    Option (String × SolutionPath) → Option (String × SolutionPath) → Option (String × SolutionPath)
later_path o none = o
later_path o (some p) = some p

abbrev path_in : String → String → List SolutionPath → Option (String × SolutionPath)
path_in i question [] = none
path_in i question (p ∷ ps) =
    later_path (if str_eq p.path_id i then some (question, p) else none) (path_in i question ps)

unfoldable pub path_by_id : String → List ProblemMap → Option (String × SolutionPath)
path_by_id i [] = none
path_by_id i (m ∷ ms) = later_path (path_in i m.question_id m.solution_paths) (path_by_id i ms)

unfoldable pub get_solution_path_evidence :
    List ProblemMap → Store → ℕ → String → Answer SolutionPath
unfolding path_by_id require_attempted
get_solution_path_evidence maps s user i = elim (path_by_id i maps) [
  | none ↦ http_error 404
  | some (question, p) ↦ require_attempted s user question p
]

-- What a solver is given: the fields of `_SOLVER_INPUT_FIELDS`.
pub record BlindQuestion : Type 0 where
  pub question_id : String
  pub subject : String
  pub unit : String
  pub exam : Option String
  pub applicable_year : Option ℕ
  pub stem : String
  pub choices : List String
  pub concept_tags : List String

unfoldable pub blind_of : Question → BlindQuestion
blind_of m = record {
  question_id = id_of m;
  subject = m.problem.subject;
  unit = m.problem.unit;
  exam = m.exam;
  applicable_year = m.applicable_year;
  stem = m.stem;
  choices = m.problem.choices;
  concept_tags = m.concept_tags;
}

pub record AiExplanation : Type 0 where
  pub result : SolveResult
  pub ai_matches_key : Bool
  pub official_explanation : String
  pub official_explanation_kind : String

-- `ai_explain`, with the solver if there is one; a solve that raises is `none`.
unfoldable pub ai_explain :
    Option (BlindQuestion → Option SolveResult)
    → List Question
    → Store
    → ℕ
    → String
    → Answer AiExplanation
unfolding question_by_id attempted_ids blind_of stated_kind
ai_explain solver questions s user i = elim (question_by_id i questions) [
  | none ↦ http_error 404
  | some m ↦ if not (mem_str i (attempted_ids s user)) then http_error 403 else (elim solver [
    | none ↦ http_error 503
    | some solve ↦ elim (solve (blind_of m)) [
      | none ↦ http_error 502
      | some r ↦ ok record {
        result = r;
        ai_matches_key = is_choice m.problem.correct_choice r.chosen_index;
        official_explanation = m.explanation;
        official_explanation_kind = stated_kind m;
      }
    ]
  ])
]
