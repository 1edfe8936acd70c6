-- ===== src/Recommend/Skips.antt =====
-- What `recommend_problems` (cpa_first/engine/recommend.py) gives to solve and to skip.
use xeno_pre_test.Prelude.{
  ◌≤◌, ◌≡◌, false, Option, some, List, [], ◌∷◌, String, str_eq, mem_str, first,
}
use xeno_pre_test.Recommend.Score.{Item, SubjectState}
use xeno_pre_test.Recommend.Choice.{state_of, ids_of}

-- The first item of an id.
abbrev pub item_of : String → List Item → Option Item
item_of q = first (λ i. str_eq i.question_id q)

-- No id stands twice.
abbrev pub DistinctIds : List Item → Type 0
DistinctIds [] = Unit
DistinctIds (i ∷ items) = (mem_str i.question_id (ids_of items) ≡ false) × DistinctIds items

-- The subject has a state with an accuracy of at least 7500 ten-thousandths.
abbrev pub HasStable : List SubjectState → Item → Type 0
HasStable states i = (s : SubjectState) × (state_of i.subject states ≡ some s) × (7500 ≤ s.accuracy)
