-- ===== src/EvalGen/Tests.antt =====
-- A batch of two questions, and one that is cross checked (cpa_first/eval_gen).
use xeno_pre_test.Prelude.{ℕ, true, Option, none, some, List, [], ◌∷◌, String, All}
use xeno_pre_test.Explain.Dict.{Value, text, number, texts, null, other, Dict}
use xeno_pre_test.EvalGen.Generate.{BatchSpec, generate_batch}
use xeno_pre_test.EvalGen.Key.{AnswerKeyed}
use xeno_pre_test.EvalGen.Batch.{generate_batch-AnswerKeyed}
use xeno_pre_test.EvalGen.Validate.{Reply, ValidationResult}

abbrev question : ℕ → Dict
question key =
    ("choices", texts ("A" ∷ "B" ∷ []))
    ∷ ("correct_choice", number key)
    ∷ ("correct_answer", text "B")
    ∷ []

abbrev spec : BatchSpec
spec = record { subject = "tax"; unit = "u"; difficulty = "hard" }

abbrev text_of : Value → String
text_of v = elim v [ text t ↦ t | number n ↦ "" | texts ts ↦ "" | null ↦ "" | other t ↦ t ]

abbrev same_text : String → String
same_text s = s

-- The first reply has no question with a key; the second has one with a wrong key.
abbrev reply : ℕ → Option (List Dict)
reply n = elim n [ ℕ.zero ↦ some [] | ℕ.suc k ↦ some (question 0 ∷ question 1 ∷ []) ]

generate_batch-AnswerKeyed_example :
    All (AnswerKeyed same_text text_of) (generate_batch same_text text_of spec reply 2 0)
generate_batch-AnswerKeyed_example = generate_batch-AnswerKeyed same_text text_of spec reply 2 0

abbrev approves : Option Reply
approves =
    some record { verdict = some "approve"; issues = []; attractor_traps = []; revised = none }

abbrev checked : ValidationResult
checked = record {
  verdict = "approve";
  issues = [];
  attractor_traps = [];
  revised = none;
  cross_check_chosen = some (some 1);
  cross_check_passed = some true;
}
