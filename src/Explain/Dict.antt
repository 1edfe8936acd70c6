-- ===== src/Explain/Dict.antt =====
-- The dicts that JSON gives and the records that are made of them, and a question as one, for cpa_first/explain_gen.
use xeno_pre_test.Prelude.{
  ℕ, Bool, true, false, not, ◌||◌, ◌==◌, if◌then◌else◌, Option, none, some, List, [], ◌∷◌, String,
  str_eq,
}

module _ {ℓ} {A : Type ℓ} where
  -- `d.get(key)`
  abbrev pub get : String → List (String × A) → Option A
  get key [] = none
  get key ((k, a) ∷ d) = if str_eq key k then some a else get key d

  -- `key in d`
  abbrev pub has : String → List (String × A) → Bool
  has key [] = false
  has key ((k, _) ∷ d) = str_eq key k || has key d

  -- `d[key] = a`
  unfoldable pub put : String → A → List (String × A) → List (String × A)
  put key a [] = (key, a) ∷ []
  put key a ((k, b) ∷ d) = if str_eq key k then (k, a) ∷ d else (k, b) ∷ put key a d

-- The values that the code looks at. Any other one is `other`, with its text, or, where Python counts it as
-- false, `null`.
pub data Value : Type 0 where
  text : String → Value
  number : ℕ → Value
  texts : List String → Value
  null : Value
  other : String → Value

abbrev pub Dict : Type 0
Dict = List (String × Value)

-- `v == s`
abbrev pub is_text : String → Value → Bool
is_text s (text t) = str_eq t s
is_text s (number _) = false
is_text s (texts _) = false
is_text s null = false
is_text s (other _) = false

-- `bool(v)`
abbrev pub is_true : Value → Bool
is_true (text s) = not (str_eq s "")
is_true (number n) = not (n == 0)
is_true (texts []) = false
is_true (texts (_ ∷ _)) = true
is_true null = false
is_true (other _) = true

abbrev pub solver_input_fields : List String
solver_input_fields =
    "question_id" ∷ "subject" ∷ "unit" ∷ "exam" ∷ "applicable_year" ∷ "stem" ∷ "choices"
    ∷ "concept_tags" ∷ []

-- `{k: d[k] for k in keys if k in d}`
unfoldable pub restrict {ℓ} : {A : Type ℓ} → List String → List (String × A) → List (String × A)
restrict [] d = []
restrict (k ∷ ks) d = elim (get k d) [ none ↦ restrict ks d | some a ↦ (k, a) ∷ restrict ks d ]

unfoldable pub build_blind_question : Dict → Dict
unfolding restrict
build_blind_question question = restrict solver_input_fields question
