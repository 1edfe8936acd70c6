-- ===== src/Recommend/Balanced.antt =====
-- `_balanced_solve_entries` of cpa_first/engine/recommend.py, for a user without any subject, and the whole of
-- `recommend_problems`. The neutral score, which all of these entries have, and the reasons are left out.
use xeno_pre_test.Prelude.{
  ℕ, zero, suc, ◌-◌, Bool, true, false, ◌||◌, not, ◌==◌, if◌then◌else◌, Option, none, some, List,
  [], ◌∷◌, ◌++◌, String, str_eq, str_leb, any, length, sorted,
}
use xeno_pre_test.Recommend.Score.{Item, SubjectState}
use xeno_pre_test.Recommend.Choice.{unique_items, recommend_problems, items_of}

-- `by_subject`, each subject with its items.
abbrev pub Groups : Type 0
Groups = List (String × List Item)

-- `by_subject.setdefault(str(item["subject"]), []).append(item)`
unfoldable pub append_item : Item → Groups → Groups
append_item i [] = (i.subject, i ∷ []) ∷ []
append_item i ((s, items) ∷ groups) =
    if str_eq i.subject s then (s, items ++ i ∷ []) ∷ groups else (s, items) ∷ append_item i groups

unfoldable pub group_items : List Item → Groups → Groups
unfolding append_item
group_items [] groups = groups
group_items (i ∷ items) groups = group_items items (append_item i groups)

abbrev pub by_id : Item → Item → Bool
by_id i j = str_leb i.question_id j.question_id

abbrev pub by_subject_name : String × List Item → String × List Item → Bool
by_subject_name g h = str_leb g.0 h.0

-- The groups in the order of their subjects.
unfoldable pub subject_groups : List Item → Groups
unfolding group_items
subject_groups items = sorted by_subject_name (group_items (sorted by_id items) [])

abbrev pub is_left : String × List Item → Bool
is_left (s, []) = false
is_left (s, i ∷ items) = true

-- `for subject in subjects`, with room for so many entries: the entries, and what is left.
unfoldable pub turn : ℕ → Groups → List Item × Groups
turn room [] = ([], [])
turn zero (g ∷ groups) = ([], g ∷ groups)
turn (suc room) ((s, []) ∷ groups) = let rest = turn (suc room) groups in (rest.0, (s, []) ∷ rest.1)
turn (suc room) ((s, i ∷ items) ∷ groups) =
    let rest = turn room groups in (i ∷ rest.0, (s, items) ∷ rest.1)

abbrev pub before_rest : List Item → Option (List Item × Groups) → Option (List Item × Groups)
before_rest entries none = none
before_rest entries (some (later, groups)) = some (entries ++ later, groups)

-- The `while` loop; `none` where the fuel runs out.
unfoldable pub turns : ℕ → ℕ → Groups → Option (List Item × Groups)
unfolding turn
turns zero room groups = none
turns (suc fuel) room groups =
    let now = turn room groups in
    let later = turns fuel (room - length now.0) now.1 in
    if (room == 0) || not (any is_left groups) then some ([], groups) else before_rest now.0 later

-- Each turn gives an entry at least, so a turn for each entry and the last test are enough fuel.
unfoldable pub balanced_solve_entries : List Item → ℕ → Option (List Item × Groups)
unfolding turns subject_groups
balanced_solve_entries items n_solve = turns (suc n_solve) n_solve (subject_groups items)

-- `recommend_problems`, as the items to solve and those to skip.
unfoldable pub recommend :
    List SubjectState → List Item → List String → ℕ → ℕ → Option (List Item × List Item)
unfolding balanced_solve_entries unique_items recommend_problems
recommend [] maps attempted n_solve n_skip =
    elim (balanced_solve_entries (unique_items [] maps) n_solve) [
      | none ↦ none
      | some (entries, left) ↦ some (entries, [])
    ]
recommend (s ∷ states) maps attempted n_solve n_skip =
    let r = recommend_problems (s ∷ states) maps attempted n_solve n_skip in
    some (items_of r.problems_to_solve, r.problems_to_skip)
