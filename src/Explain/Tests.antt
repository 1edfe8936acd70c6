-- ===== src/Explain/Tests.antt =====
-- Batches and explanations on small data (cpa_first/explain_gen and real_exams.py).
use xeno_pre_test.Prelude.{
  ℕ, zero, suc, ◌≡◌, refl, true, Option, none, some, List, [], ◌∷◌, All, length, String,
}
use xeno_pre_test.Explain.Dict.{get, has, text, number, Dict, build_blind_question, restrict}
use xeno_pre_test.Explain.Extract.{extract_json_object, braces, from_brace, to_brace}
use xeno_pre_test.Explain.Batch.{count_of, run_items, bump, run_batch}
use xeno_pre_test.Explain.Checkpoint.{run_batch-again, run_batch_keeps}
use xeno_pre_test.Explain.Generate.{SolveResult, Json, object}

abbrev same_path : String → String
same_path q = q

abbrev same_label : ℕ → String
same_label n = "pass"

abbrev always : ℕ → String → Option ℕ
always n q = some n

abbrev never : ℕ → String → Option ℕ
never n q = none

abbrev items : List String
items = "a" ∷ "b" ∷ "c" ∷ "d" ∷ "e" ∷ "f" ∷ []

stops : (run_batch same_path same_label true never items []).calls ≡ 5
unfolding run_batch run_items bump
stops = refl

abbrev stored : List (String × ℕ)
stored = ("b", 7) ∷ []

run_batch-again_example :
    let done = (run_batch same_path same_label true always items stored).files in
    let again = run_batch same_path same_label true never items done in
    All (λ q. has q done ≡ true) items
    × (again.files ≡ done)
    × (again.calls ≡ 0)
    × (count_of "skipped_existing" again.counts ≡ length items)
run_batch-again_example =
    run_batch-again same_path same_label always never items stored (λ n q. (n, refl))

run_batch_keeps_example :
    get "b" (run_batch same_path same_label true always items stored).files ≡ some 7
run_batch_keeps_example = run_batch_keeps same_path same_label always items stored "b" 7 refl

abbrev question : Dict
question = ("question_id", text "q1") ∷ ("correct_choice", number 2) ∷ ("stem", text "?") ∷ []

blind : build_blind_question question ≡ ("question_id", text "q1") ∷ ("stem", text "?") ∷ []
unfolding build_blind_question restrict
blind = refl

-- A solver that fails once and then finds the key.
abbrev second_try : Dict → ℕ → Option SolveResult
second_try d zero = none
second_try d (suc zero) = none
second_try d (suc (suc n)) =
    some record { chosen_index = some 2; rationale = "because"; model = none }

abbrev reply : Option Json
reply = some (object (("verdict", text "pass") ∷ []))

-- The whole of the text is the JSON between its outer braces.
abbrev loads : String → Option String
loads s = some s

between : extract_json_object loads (λ s. none) "a {b} c" ≡ some "{b}"
unfolding extract_json_object braces from_brace to_brace
between = refl
