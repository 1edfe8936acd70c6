-- ===== src/Recommend/Tests.antt =====
-- Recommendations for a user with one subject at risk and one stable (cpa_first/engine/recommend.py).
use xeno_pre_test.Prelude.{
  ◌≡◌, refl, some, List, [], ◌∷◌, String, length, map, Option, none, ◌++◌, Perm, ℕ, sorted, insort,
}
use xeno_pre_test.Recommend.Score.{Item, SubjectState}
use xeno_pre_test.Recommend.Balanced.{
  Groups, subject_groups, group_items, append_item, turn, turns, balanced_solve_entries,
}
use xeno_pre_test.Recommend.Fair.{all_items, Served}
use xeno_pre_test.Recommend.Turns.{balanced_solve_entries_lem}

abbrev item : String → String → Item
item i s = record {
  question_id = i;
  subject = s;
  unit = "u";
  concept_tags = "bonds" ∷ [];
  expected_seconds = some 60;
}

abbrev risky : SubjectState
risky = record { subject = "tax"; accuracy = 3999; concept_mastery = []; risk_tags = [] }

abbrev steady : SubjectState
steady = record {
  subject = "law";
  accuracy = 8000;
  concept_mastery = ("bond", 1000) ∷ [];
  risk_tags = "time_pressure" ∷ [];
}

abbrev items : List Item
items = item "q1" "law" ∷ item "q2" "tax" ∷ item "q3" "law" ∷ []

abbrev to_list : Option (List Item × Groups) → List (List Item × Groups)
to_list none = []
to_list (some e) = e ∷ []

alternately :
    map (λ e. map (λ i. i.question_id) e.0) (to_list (balanced_solve_entries items 2))
    ≡ ("q1" ∷ "q2" ∷ []) ∷ []
unfolding balanced_solve_entries turns turn subject_groups group_items append_item sorted insort
alternately = refl

balanced_solve_entries_lem_example :
    (entries : List Item) × (left : Groups) × (balanced_solve_entries items 2
      ≡ some (entries, left))
    × (length entries ≡ 2)
    × Perm (entries ++ all_items left) items
    × ((k : ℕ) × Served k (subject_groups items) left)
balanced_solve_entries_lem_example = balanced_solve_entries_lem items 2
