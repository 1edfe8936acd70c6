-- ===== src/Explain/Generate.antt =====
-- `generate_explanation` of cpa_first/explain_gen/generator.py and `judge_explanation` of judge.py: a blind solve
-- held against the key, and the verdict on its reasoning. The solver and the model are parameters; times are
-- left out, and so are fields that are only passed on. An index that is negative is `none`.
use xeno_pre_test.Prelude.{
  ℕ, zero, suc, Bool, true, false, ◌==◌, if◌then◌else◌, Option, none, some, [], String,
}
use xeno_pre_test.Explain.Dict.{get, Value, text, texts, is_true, Dict, build_blind_question}

pub data Status : Type 0 where
  verified_answer_match : Status
  answer_mismatch : Status
  answer_parse_failed : Status
  backend_error : Status

pub record SolveResult : Type 0 where
  pub chosen_index : Option ℕ
  pub rationale : String
  pub model : Option String

pub record Explanation : Type 0 where
  pub question_id : Option Value
  pub model : Option String
  pub chosen_index : Option ℕ
  pub correct_choice : ℕ
  pub status : Status
  pub walkthrough : String
  pub attempts : ℕ

-- `chosen == correct`
abbrev pub is_choice : ℕ → Option ℕ → Bool
is_choice correct none = false
is_choice correct (some c) = c == correct

abbrev status_of : Option ℕ → Status
status_of none = answer_parse_failed
status_of (some c) = answer_mismatch

-- The record after an attempt that fails, and after one with this result.
abbrev pub retried : Explanation → Explanation
retried e = record {
  question_id = e.question_id;
  model = e.model;
  chosen_index = e.chosen_index;
  correct_choice = e.correct_choice;
  status = e.status;
  walkthrough = e.walkthrough;
  attempts = suc e.attempts;
}

abbrev pub solved : SolveResult → Explanation → Explanation
solved r e = record {
  question_id = e.question_id;
  model = r.model;
  chosen_index = r.chosen_index;
  correct_choice = e.correct_choice;
  status =
      if is_choice e.correct_choice r.chosen_index
      then verified_answer_match
      else status_of r.chosen_index;
  walkthrough = r.rationale;
  attempts = suc e.attempts;
}

module _ (solve : Dict → ℕ → Option SolveResult) where
  -- So many attempts more on this blind question; the call `n` of the solver is its attempt `n`.
  unfoldable pub try_solve : ℕ → Dict → Explanation → Explanation
  try_solve zero blind e = e
  try_solve (suc n) blind e = elim (solve blind (suc e.attempts)) [
    | none ↦ try_solve n blind (retried e)
    | some r ↦ elim (is_choice e.correct_choice r.chosen_index) [
      | true ↦ solved r e
      | false ↦ try_solve n blind (solved r e)
    ]
  ]

  -- Of a question with this key, in `max_attempts` attempts.
  unfoldable pub generate_explanation : ℕ → ℕ → Dict → Explanation
  unfolding try_solve build_blind_question
  generate_explanation max_attempts correct question =
      try_solve max_attempts (build_blind_question question) record {
        question_id = get "question_id" question;
        model = none;
        chosen_index = none;
        correct_choice = correct;
        status = backend_error;
        walkthrough = "";
        attempts = 0;
      }

-- What `json.loads` gives: an object, or another value.
pub data Json : Type 0 where
  object : Dict → Json
  no_object : Json

pub record Judgment : Type 0 where
  pub question_id : Option Value
  pub verdict : Value
  pub errors : Value
  pub one_line : Value

-- `isinstance(parsed, dict) and "verdict" in parsed`
unfoldable pub verdict_in : Option Json → Option Value
verdict_in none = none
verdict_in (some no_object) = none
verdict_in (some (object d)) = get "verdict" d

-- `v or []`
abbrev pub or_empty : Option Value → Value
or_empty none = texts []
or_empty (some v) = if is_true v then v else texts []

abbrev pub fields_of : Option Json → Dict
fields_of none = []
fields_of (some no_object) = []
fields_of (some (object d)) = d

abbrev pub value_or : Value → Option Value → Value
value_or v none = v
value_or v (some w) = w

-- The judgment of an explanation by the JSON in the model's reply, if there is one.
unfoldable pub judge_explanation : Explanation → Option Json → Judgment
unfolding verdict_in
judge_explanation e parsed = elim (verdict_in parsed) [
  | none ↦ record {
    question_id = e.question_id;
    verdict = text "judge_parse_failed";
    errors = texts [];
    one_line = text "judge 출력 JSON 파싱 실패";
  }
  | some v ↦ record {
    question_id = e.question_id;
    verdict = v;
    errors = or_empty (get "errors" (fields_of parsed));
    one_line = value_or (text "") (get "one_line" (fields_of parsed));
  }
]
