-- ===== src/Diagnosis/Attempt.antt =====
-- `diagnose_problem_attempt` of cpa_first/engine/problem_diagnosis.py, for a problem map with its required keys
-- and a correct choice that is not negative. The rows that the diagnosis passes through are
-- texts; the texts of its actions are fixed by their type.
use xeno_pre_test.Prelude.{
  ℕ, suc, Bool, true, false, not, ◌&&◌, ◌==◌, ltb, if◌then◌else◌, Option, none, some, List, [], ◌∷◌,
  ◌++◌, String, str_eq, first, get_elem?, take,
}

pub data ℤ : Type 0 where
  pos negsuc : ℕ → ℤ

pub record Link : Type 0 where
  pub concept_label : Option String
  pub detail : String

pub record Elimination : Type 0 where
  pub choice_index : ℕ
  pub detail : String

pub record SolutionPath : Type 0 where
  pub path_id : String
  pub path_type : String
  pub label : String
  pub why_this_path : String
  pub ordered_steps : List String
  pub concept_links : List Link
  pub choice_eliminations : List Elimination

pub record ProblemMap : Type 0 where
  pub question_id : String
  pub subject : String
  pub unit : String
  pub choices : List String
  pub correct_choice : ℕ
  pub solution_paths : List SolutionPath
  pub tutorial_id : Option String

-- `_path_by_type`
abbrev pub path_by_type : ProblemMap → String → Option SolutionPath
path_by_type m t = first (λ p. str_eq p.path_type t) m.solution_paths

-- `_choice_elimination`
abbrev pub choice_elimination : ProblemMap → ℕ → Option Elimination
choice_elimination m k = elim (path_by_type m "choice_elimination") [
  | none ↦ none
  | some p ↦ first (λ e. e.choice_index == k) p.choice_eliminations
]

pub data Action : Type 0 where
  concept_rebuild speed_rebuild advance_to_variant : Action

-- `_next_action`
abbrev pub next_action : Bool → Bool → Action
next_action false slow = concept_rebuild
next_action true true = speed_rebuild
next_action true false = advance_to_variant

pub record Diagnosis : Type 0 where
  pub correct : Bool
  pub selected_choice_text : String
  pub correct_choice_text : String
  pub time_over_limit : Bool
  pub mistake_tags : List String
  pub selected_choice_elimination : Option Elimination
  pub recommended_path : Option SolutionPath
  pub missing_concept_links : List Link
  pub focus_concepts : List String
  pub action : Action

pub data Outcome : Type 0 where
  -- The `ValueError` of each guard, in order.
  choice_out_of_range negative_time no_time_limit : Outcome
  -- `choices[correct_choice]` is out of range.
  index_error : Outcome
  diagnosed : Diagnosis → Outcome

-- The list's item at `selected_choice`, where the first guard lets it pass.
abbrev pub chosen_at : ℤ → List String → Option (ℕ × String)
chosen_at (negsuc k) choices = none
chosen_at (pos k) choices = elim (get_elem? choices k) [ none ↦ none | some c ↦ some (k, c) ]

abbrev pub is_negative : Option ℤ → Bool
is_negative (some (negsuc k)) = true
is_negative _ = false

abbrev pub is_positive : ℤ → Bool
is_positive (pos (suc k)) = true
is_positive _ = false

-- `time_seconds is not None and time_seconds > time_limit_seconds`, for times that are not negative.
abbrev pub is_slow : Option ℤ → ℤ → Bool
is_slow (some (pos t)) (pos limit) = ltb limit t
is_slow _ _ = false

-- The type of the path that is recommended.
abbrev pub path_type_for : Bool → Bool → String
path_type_for false slow = "choice_elimination"
path_type_for true true = "structure"
path_type_for true false = "reverse_check"

unfoldable pub links_of : Option SolutionPath → List Link
links_of none = []
links_of (some p) = p.concept_links

-- `[link["concept_label"] for link in links if link.get("concept_label")]`
unfoldable pub labels : List Link → List String
labels [] = []
labels (l ∷ ls) = elim l.concept_label [
  | none ↦ labels ls
  | some c ↦ if str_eq c "" then labels ls else c ∷ labels ls
]

abbrev pub tags_for : Bool → Bool → List String
tags_for correct slow =
    (if correct then [] else "concept_gap" ∷ "distractor_trap" ∷ [])
    ++ (if slow then "time_pressure" ∷ [] else [])

-- The diagnosis behind the guards.
unfoldable pub diagnosis_of : ProblemMap → ℕ → String → String → Bool → Diagnosis
unfolding links_of labels
diagnosis_of m k chosen right slow =
    let correct = k == m.correct_choice in
    let path = path_by_type m (path_type_for correct slow) in
    let missing = if correct && not slow then [] else links_of path in
    record {
      correct = correct;
      selected_choice_text = chosen;
      correct_choice_text = right;
      time_over_limit = slow;
      mistake_tags = tags_for correct slow;
      selected_choice_elimination = choice_elimination m k;
      recommended_path = path;
      missing_concept_links = missing;
      focus_concepts = labels (take 3 missing);
      action = next_action correct slow;
    }

unfoldable pub diagnose_problem_attempt : ProblemMap → ℤ → Option ℤ → ℤ → Outcome
unfolding diagnosis_of
diagnose_problem_attempt m selected time limit = elim (chosen_at selected m.choices) [
  | none ↦ choice_out_of_range
  | some (k, chosen) ↦
      if is_negative time
      then negative_time
      else if not (is_positive limit)
      then no_time_limit
      else (elim (get_elem? m.choices m.correct_choice) [
        | none ↦ index_error
        | some right ↦ diagnosed (diagnosis_of m k chosen right (is_slow time limit))
      ])
]
