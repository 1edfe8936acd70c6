-- ===== src/Explain/Verified.antt =====
-- What a shown explanation rests on (cpa_first/explain_gen and real_exams.py).
use xeno_pre_test.Prelude.{
  ℕ, ◌≡◌, refl, Bool, false, Option, none, some, List, [], ◌∷◌, String, str_neq_sym, str_eq, eq_iff,
  mem_str, arith, Bool-cases, Option-cases, inl, inr,
}
use xeno_pre_test.Explain.Dict.{
  get, put, Value, is_text, Dict, solver_input_fields, restrict, build_blind_question,
}
use xeno_pre_test.Explain.Generate.{Explanation, SolveResult, is_choice, generate_explanation}
use xeno_pre_test.Explain.Gate.{is_verified_status}

pub get-put_other :
    {A : Type 0} (j k : String) (v : A) (d : List (String × A))
    → str_eq j k ≡ false
    → get j (put k v d) ≡ get j d
unfolding put
get-put_other j k v [] h = rw h refl
get-put_other j k v ((i, a) ∷ d) h = elim (Bool-cases (str_eq k i)) [
  | inl s ↦ let same : k ≡ i = (eq_iff k i).0 s in rw s (rw (← same, h) refl)
  | inr s ↦ rw s (ground (arith, get-put_other j k v d h))
]

restrict-put :
    {A : Type 0} (ks : List String) (k : String) (v : A) (d : List (String × A))
    → mem_str k ks ≡ false
    → restrict ks (put k v d) ≡ restrict ks d
unfolding restrict
restrict-put [] k v d h = refl
restrict-put (j ∷ ks) k v d h =
    let other_key : str_eq j k ≡ false = str_neq_sym k j (ground (arith, h)) in
    let same = get-put_other j k v d other_key in
    let rest = restrict-put ks k v d (ground (arith, h)) in
    elim (Option-cases (get j d)) [
      | inl e ↦ rw (same, e, restrict) rest
      | inr (a, e) ↦ rw (same, e, restrict, rest) refl
    ]

-- An entry of the question outside the fields of the solver, like the key or an explanation, has no part in the
-- explanation that is generated, whatever the solver is.
pub generate_explanation-put :
    (solve : Dict → ℕ → Option SolveResult) (attempts correct : ℕ) (question : Dict) (k : String)
    (v : Value)
    → mem_str k solver_input_fields ≡ false
    → generate_explanation solve attempts correct (put k v question)
      ≡ generate_explanation solve attempts correct question
unfolding generate_explanation build_blind_question
generate_explanation-put solve attempts correct question k v h =
    let named =
      get-put_other "question_id" k v question (str_neq_sym k "question_id" (ground (arith, h))) in
    rw (named, restrict-put solver_input_fields k v question h) refl

-- The status says whether the answer is the key.
abbrev Honest : ℕ → Explanation → Type 0
Honest c e = (e.correct_choice ≡ c) × (is_verified_status e.status ≡ is_choice c e.chosen_index)

abbrev has_text : String → Option Value → Bool
has_text s none = false
has_text s (some v) = is_text s v

-- Fields that give the answer away.
abbrev pub hidden_fields : List String
hidden_fields =
    "correct_choice" ∷ "correct_answer" ∷ "explanation" ∷ "solution_paths" ∷ "attractor_traps" ∷ []
