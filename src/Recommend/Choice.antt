-- ===== src/Recommend/Choice.antt =====
-- `recommend_problems` of cpa_first/engine/recommend.py for a user with at least one subject, and its
-- `_skip_entries`. An entry is its item with its score; reasons and evidence are texts.
use xeno_pre_test.Prelude.{
  ℕ, Bool, true, false, not, ◌&&◌, ◌||◌, ltb, leb, ◌==◌, if◌then◌else◌, Option, none, some, List,
  [], ◌∷◌, map, String, str_eq, str_leb, mem_str, keep, take, sorted,
}
use xeno_pre_test.Recommend.Score.{Item, SubjectState, Score, score_item, lower, not_higher}

-- `_unique_items`: the first item of each id, past those seen.
unfoldable pub unique_items : List String → List Item → List Item
unique_items seen [] = []
unique_items seen (i ∷ items) =
    let rest = unique_items (i.question_id ∷ seen) items in
    if mem_str i.question_id seen then unique_items seen items else i ∷ rest

-- `states_by_subject.get(subject)`: of equal subjects, the last state.
unfoldable pub state_of : String → List SubjectState → Option SubjectState
state_of s [] = none
state_of s (x ∷ states) = elim (state_of s states) [
  | some y ↦ some y
  | none ↦ if str_eq x.subject s then some x else none
]

-- The key `(-score, question_id)`.
abbrev pub ranks_before : Score × Item → Score × Item → Bool
ranks_before (a, i) (b, j) =
    lower b a || (not_higher a b && not_higher b a && str_leb i.question_id j.question_id)

abbrev pub scored : List SubjectState → List String → List Item → List (Score × Item)
scored states attempted = map (λ i. (score_item i (state_of i.subject states) attempted, i))

abbrev pub items_of : List (Score × Item) → List Item
items_of = map (λ e. e.1)

abbrev pub ids_of : List Item → List String
ids_of = map (λ i. i.question_id)

-- At least STABLE_ACCURACY, 0.75.
abbrev pub stable_accuracy : List SubjectState → Item → Option ℕ
stable_accuracy states i = elim (state_of i.subject states) [
  | none ↦ none
  | some s ↦ if leb 7500 s.accuracy then some s.accuracy else none
]

abbrev pub is_stable : List SubjectState → Item → Bool
is_stable states i = elim (stable_accuracy states i) [ none ↦ false | some a ↦ true ]

abbrev pub or_zero : Option ℕ → ℕ
or_zero none = 0
or_zero (some a) = a

-- The key `(-stable_accuracy[subject], question_id)`.
abbrev pub steadier : List SubjectState → Item → Item → Bool
steadier states i j =
    let a = or_zero (stable_accuracy states i) in
    let b = or_zero (stable_accuracy states j) in
    ltb b a || ((a == b) && str_leb i.question_id j.question_id)

-- `_skip_entries`
unfoldable pub skip_entries : List Item → List SubjectState → List String → ℕ → List Item
skip_entries items states solved n_skip = take n_skip (
    sorted (steadier states)
      (keep (λ i. is_stable states i && not (mem_str i.question_id solved)) items))

pub record Recommendation : Type 0 where
  pub problems_to_solve : List (Score × Item)
  pub problems_to_skip : List Item

unfoldable pub recommend_problems :
    List SubjectState → List Item → List String → ℕ → ℕ → Recommendation
unfolding unique_items skip_entries
recommend_problems states maps attempted n_solve n_skip =
    let items = unique_items [] maps in
    let entries = take n_solve (sorted ranks_before (scored states attempted items)) in
    record {
      problems_to_solve = entries;
      problems_to_skip = skip_entries items states (ids_of (items_of entries)) n_skip;
    }
