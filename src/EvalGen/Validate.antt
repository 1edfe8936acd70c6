-- ===== src/EvalGen/Validate.antt =====
-- `validate_question` and `flag_if_questionable` of cpa_first/eval_gen/validator.py. The model's calls and the
-- regular expression of an answer's line are parameters; a negative index is `none`. A verdict that cannot
-- be hashed, a list or an object, raises in the source and is one more unknown verdict here.
use xeno_pre_test.Prelude.{
  ℕ, Bool, true, false, not, ◌&&◌, ◌==◌, ltb, if◌then◌else◌, Option, none, some, List, [], ◌∷◌,
  ◌++◌, length, String, str_eq,
}
use xeno_pre_test.Explain.Dict.{get, put, Value, text, number, texts, other, Dict, restrict}

-- The object in a reply, by what it gives under each key; `verdict` is none where the key is missing.
pub record Reply : Type 0 where
  pub verdict : Option String
  pub issues : List String
  pub attractor_traps : List String
  pub revised : Option Dict

pub record ValidationResult : Type 0 where
  pub verdict : String
  pub issues : List String
  pub attractor_traps : List String
  pub revised : Option Dict
  -- `cross_check_chosen`, none where there was no cross check.
  pub cross_check_chosen : Option (Option ℕ)
  pub cross_check_passed : Option Bool

abbrev pub rejected : String → ValidationResult
rejected issue = record {
  verdict = "reject";
  issues = issue ∷ [];
  attractor_traps = [];
  revised = none;
  cross_check_chosen = none;
  cross_check_passed = none;
}

abbrev pub accepted : String → Option Dict → Reply → ValidationResult
accepted v revised r = record {
  verdict = v;
  issues = r.issues;
  attractor_traps = r.attractor_traps;
  revised = revised;
  cross_check_chosen = none;
  cross_check_passed = none;
}

-- The result of the first call, with this verdict.
unfoldable pub by_verdict : String → Reply → ValidationResult
by_verdict v r =
    if str_eq v "revise"
    then (elim r.revised [
      | none ↦ rejected "verdict=revise but no revised body"
      | some d ↦ accepted "revise" (some d) r
    ])
    else if str_eq v "approve"
    then accepted "approve" none r
    else if str_eq v "reject"
    then accepted "reject" none r
    else rejected "unknown verdict"

unfoldable pub first_result : Option Reply → ValidationResult
unfolding by_verdict
first_result none = rejected "JSON parse failed"
first_result (some r) = elim r.verdict [
  | none ↦ rejected "JSON parse failed"
  | some v ↦ by_verdict v r
]

-- `{**question, **revised} if revised else question`
abbrev merge : Dict → Dict → Dict
unfolding put
merge d [] = d
merge d ((k, v) ∷ patch) = merge (put k v d) patch

unfoldable pub target_of : Dict → Option Dict → Dict
unfolding put
target_of question none = question
target_of question (some patch) = merge question patch

-- What the prompt of the cross check shows.
abbrev pub cross_check_fields : List String
cross_check_fields = "subject" ∷ "unit" ∷ "applicable_year" ∷ "stem" ∷ "choices" ∷ []

abbrev pub choices_in : Option Value → Option (List String)
choices_in (some (texts ts)) = some ts
choices_in _ = none

-- `chosen == expected` for an index that was found.
abbrev pub agrees : Option ℕ → Option Value → Bool
agrees (some c) (some (number k)) = c == k
agrees _ _ = false

pub data Outcome : Type 0 where
  validated : ValidationResult → Outcome
  -- `question["choices"]` or `question["stem"]` is missing.
  key_error : Outcome

module _ (cross_invoke : Dict → String) (answer_line : String → Option ℕ) where
  -- `_extract_answer_index`
  unfoldable pub extract_answer_index : String → ℕ → Option ℕ
  extract_answer_index raw max_choices = elim (answer_line raw) [
    | none ↦ none
    | some i ↦ if ltb i max_choices then some i else none
  ]

  -- The index that the model chooses when the key is hidden; none where the choices are missing.
  unfoldable pub cross_check_question : Dict → Option (Option ℕ)
  unfolding extract_answer_index restrict
  cross_check_question question = elim (choices_in (get "choices" question)) [
    | none ↦ none
    | some choices ↦ some (
        extract_answer_index (cross_invoke (restrict cross_check_fields question)) (length choices))
  ]

  -- The result with the choice of the cross check, held against the key.
  abbrev pub compared : ValidationResult → Option Value → Option ℕ → ValidationResult
  compared r expected chosen =
      if agrees chosen expected
      then record r { cross_check_chosen = some chosen; cross_check_passed = some true }
      else record r {
        cross_check_chosen = some chosen;
        cross_check_passed = some false;
        issues = r.issues ++ "cross_check_failed" ∷ [];
      }

  unfoldable pub validate_question : Bool → Dict → Option Reply → Outcome
  unfolding first_result target_of cross_check_question
  validate_question cross_check question reply =
      let r = first_result reply in
      if cross_check && not (str_eq r.verdict "reject")
      then (let target = target_of question r.revised in
          elim (cross_check_question target) [
            | none ↦ key_error
            | some chosen ↦ validated (compared r (get "correct_choice" target) chosen)
          ])
      else validated r

abbrev pub last_or : String → List String → String
last_or s [] = s
last_or s (x ∷ xs) = last_or x xs

-- The question, flagged where the cross check has failed, and whether it was.
unfoldable pub flag_if_questionable : Dict → ValidationResult → Dict × Bool
unfolding put
flag_if_questionable question r = elim r.cross_check_passed [
  | none ↦ (question, false)
  | some true ↦ (question, false)
  | some false ↦ (
    put "questionable_reason" (text (last_or "cross_check disagreement" r.issues))
        (put "flagged_questionable" (other "true") question),
    true,
  )
]
