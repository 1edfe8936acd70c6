-- ===== src/EvalGen/Generate.antt =====
-- `reconcile_correct_choice`, `_hydrate` and `generate_batch` of cpa_first/eval_gen/generator.py. The model's calls
-- and the normalisation of a choice's text are parameters. The choices of a question are read where they are
-- a list of texts; any other value has none here, where the source takes `str` of each item. An answer that
-- is false or an empty object counts as none.
use xeno_pre_test.Prelude.{
  ℕ, zero, suc, Bool, false, ◌&&◌, ◌==◌, if◌then◌else◌, Option, none, some, List, [], ◌∷◌, map,
  String, str_eq,
}
use xeno_pre_test.Explain.Dict.{get, has, put, Value, text, number, texts, null, is_true, Dict}

pub record BatchSpec : Type 0 where
  pub subject : String
  pub unit : String
  pub difficulty : String

abbrev pub by_difficulty : {A : Type 0} → A → A → A → String → A
by_difficulty easy mid hard d =
    if str_eq d "easy" then easy else if str_eq d "hard" then hard else mid

-- `q.setdefault(k, v)`
unfoldable pub set_default : String → Value → Dict → Dict
set_default k v q = if has k q then q else put k v q

unfoldable pub hydrate : BatchSpec → Dict → Dict
unfolding set_default put
hydrate spec q =
    let d = spec.difficulty in
    let filled = set_default "concept_tags" (texts []) (
      set_default "bloom_level" (text (by_difficulty "understand" "apply" "analyze" d)) (
        set_default "difficulty_score" (number (by_difficulty 2 3 4 d)) (
          set_default "expected_seconds" (number (by_difficulty 60 90 120 d)) (
            set_default "applicable_year" (number 2026) (
              set_default "difficulty" (text d) (
                set_default "unit" (text spec.unit) (
                  set_default "subject" (text spec.subject)
                    (set_default "exam" (text "CPA_1") q)))))))) in
    put "review_status" (text "ai_draft") (put "rights_status" (text "synthetic_seed") filled)

-- `choices.index(target)`, where it is there.
unfoldable pub index_of : String → List String → Option ℕ
index_of t [] = none
index_of t (c ∷ cs) =
    if str_eq c t then some 0 else (elim (index_of t cs) [ none ↦ none | some i ↦ some (suc i) ])

abbrev pub is_number : ℕ → Option Value → Bool
is_number n (some (number k)) = n == k
is_number n _ = false

-- `q.get("choices") or []`
abbrev pub choices_of : Option Value → List String
choices_of (some (texts ts)) = ts
choices_of _ = []

pub data Reconciled : Type 0 where
  matched unverified repaired : Dict → Reconciled
  dropped : Reconciled

-- `norm` is `_norm_choice`, on a text and on the text of another value.
module _ (norm : String → String) (norm_value : Value → String) where
  -- Of a question whose answer is given by this text.
  unfoldable pub reconcile_with : Value → Dict → Reconciled
  unfolding index_of put
  reconcile_with answer q =
      elim (index_of (norm_value answer) (map norm (choices_of (get "choices" q)))) [
        | none ↦ dropped
        | some i ↦
            if is_number i (get "correct_choice" q)
            then matched q
            else repaired
                (put "key_repair_note" (text "repaired") (put "correct_choice" (number i) q))
      ]

  unfoldable pub reconcile_correct_choice : Dict → Reconciled
  unfolding reconcile_with
  reconcile_correct_choice q = elim (get "correct_answer" q) [
    | none ↦ unverified q
    | some null ↦ unverified q
    | some answer ↦ reconcile_with answer q
  ]

  -- The questions of a reply that are kept.
  unfoldable pub keep_questions : BatchSpec → List Dict → List Dict
  unfolding reconcile_correct_choice hydrate
  keep_questions spec [] = []
  keep_questions spec (q ∷ qs) =
      let rest = keep_questions spec qs in
      if (elim (get "choices" q) [ none ↦ false | some v ↦ is_true v ]) && has "correct_choice" q
      then (elim (reconcile_correct_choice q) [
        | matched r ↦ hydrate spec r ∷ rest
        | unverified r ↦ hydrate spec r ∷ rest
        | repaired r ↦ hydrate spec r ∷ rest
        | dropped ↦ rest
      ])
      else rest

  -- So many attempts from this one on; a reply is the objects of its list of questions, where it has one.
  unfoldable pub generate_batch : BatchSpec → (ℕ → Option (List Dict)) → ℕ → ℕ → List Dict
  unfolding keep_questions
  generate_batch spec reply zero n = []
  generate_batch spec reply (suc attempts) n =
      let rest = generate_batch spec reply attempts (suc n) in
      elim (reply n) [
        | none ↦ rest
        | some qs ↦ elim (keep_questions spec qs) [ [] ↦ rest | k ∷ ks ↦ k ∷ ks ]
      ]
