-- ===== src/StudyPlan/Content.antt =====
-- `_catalog_tutorials_by_subject` and `_assign_week_content` of cpa_first/engine/study_plan.py: what each week
-- of a plan studies. The texts of an item (`note`, `api_query`) follow from its other fields.
use xeno_pre_test.Prelude.{
  ℕ, zero, suc, ◌+◌, ◌-◌, ◌/◌, ◌%◌, Bool, ◌&&◌, ◌||◌, ltb, ◌==◌, Option, none, some, List, [], ◌∷◌,
  ◌++◌, map, length, take, drop, keep, get_elem?, if◌then◌else◌, sorted, String, str_eq, str_leb,
}
use xeno_pre_test.StudyPlan.Stage.{
  Stage, objective_entry, past_exam_rotation, mock_exam, final, is_teaching,
}
use mathlib.Core.Option.{get_or}

pub record Tutorial : Type 0 where
  pub tutorial_id : String
  pub subject : String
  pub level : Option String
  pub ontology_node : Option String
  pub priority : Option ℕ

-- `content_catalog`: years with their question counts for each subject, and the synthetic counts.
pub record Catalog : Type 0 where
  pub tutorials : List Tutorial
  pub real_exam_years : List (String × List (ℕ × ℕ))
  pub synthetic_counts : List (String × ℕ)

pub data Item : Type 0 where
  tutorial : Tutorial → Item
  practice_set : (subject : String) (available : ℕ) → Item
  real_exam_set : (subject : String) (year available : ℕ) → Item
  mock_exam_item : (year : ℕ) → Item
  wrong_answer_review : Item

-- A week of the plan with its `focus_content`.
pub record Slot : Type 0 where
  pub stage : Stage
  pub content : List Item

abbrev pub level_rank : Tutorial → ℕ
level_rank t = elim t.level [ none ↦ 1 | some l ↦ if str_eq l "intro_low" then 0 else 1 ]

-- The order of (level, priority, tutorial_id).
abbrev pub tutorial_before : Tutorial → Tutorial → Bool
tutorial_before a b =
    ltb (level_rank a) (level_rank b)
    || ((level_rank a == level_rank b)
        && (ltb (get_or a.priority 9) (get_or b.priority 9)
            || ((get_or a.priority 9 == get_or b.priority 9)
                && str_leb a.tutorial_id b.tutorial_id)))

unfoldable pub tutorials_of : String → List Tutorial → List Tutorial
tutorials_of subject ts = sorted tutorial_before (keep (λ t. str_eq t.subject subject) ts)

abbrev pub ceil_div : ℕ → ℕ → ℕ
ceil_div m n = (m + n - 1) / n

-- `tuts[start : start + per]` for each start; as many rounds as items are enough.
unfoldable pub chunks {ℓ} : {A : Type ℓ} → ℕ → ℕ → List A → List (List A)
chunks zero per xs = []
chunks (suc rounds) per [] = []
chunks (suc rounds) per (x ∷ xs) = take per (x ∷ xs) ∷ chunks rounds per (drop per (x ∷ xs))

unfoldable pub teaching_count : List Slot → ℕ
teaching_count [] = 0
teaching_count (w ∷ ws) = (if is_teaching w.stage then 1 else 0) + teaching_count ws

-- The chunks go to the teaching weeks in turn, the first to the first.
unfoldable pub hand_out : List (List Item) → List Slot → List Slot
hand_out cs [] = []
hand_out [] (w ∷ ws) = w ∷ ws
hand_out (c ∷ cs) (w ∷ ws) =
    if is_teaching w.stage
    then record w { content = w.content ++ c } ∷ hand_out cs ws
    else w ∷ hand_out (c ∷ cs) ws

-- With no tutorials or no teaching weeks nothing is given.
unfoldable pub teach_with : List Tutorial → List Slot → List Slot
unfolding chunks teaching_count hand_out
teach_with tuts ws =
    let per_week = ceil_div (length tuts) (teaching_count ws) in
    if (length tuts == 0) || (teaching_count ws == 0)
    then ws
    else hand_out (chunks (length tuts) per_week (map tutorial tuts)) ws

-- The round of one subject.
unfoldable pub teach_subject : List Tutorial → String → List Slot → List Slot
unfolding tutorials_of
teach_subject ts subject ws = teach_with (tutorials_of subject ts) ws

unfoldable pub teach_all : List Tutorial → List String → List Slot → List Slot
unfolding teach_with teach_subject
teach_all ts [] ws = ws
teach_all ts (s ∷ ss) ws = teach_all ts ss (teach_subject ts s ws)

-- `synthetic_counts.get(subject, 0)`
unfoldable pub count_of : String → List (String × ℕ) → ℕ
count_of s [] = 0
count_of s ((k, n) ∷ m) = if str_eq k s then n else count_of s m

unfoldable pub year_count : ℕ → List (ℕ × ℕ) → ℕ
year_count y [] = 0
year_count y ((k, n) ∷ m) = if k == y then n else year_count y m

unfoldable pub years_of : String → List (String × List (ℕ × ℕ)) → List (ℕ × ℕ)
years_of s [] = []
years_of s ((k, ys) ∷ m) = if str_eq k s then ys else years_of s m

unfoldable pub practice_items : List (String × ℕ) → List String → List Item
unfolding count_of
practice_items counts [] = []
practice_items counts (s ∷ ss) =
    (if count_of s counts == 0 then [] else practice_set s (count_of s counts) ∷ [])
    ++ practice_items counts ss

unfoldable pub exam_items : List (String × List (ℕ × ℕ)) → ℕ → List String → List Item
unfolding year_count years_of
exam_items years year [] = []
exam_items years year (s ∷ ss) =
    let n = year_count year (years_of s years) in
    (if n == 0 then [] else real_exam_set s year n ∷ []) ++ exam_items years year ss

-- `sorted({...})`: each year once, in order.
unfoldable pub insert_year : ℕ → List ℕ → List ℕ
insert_year y [] = y ∷ []
insert_year y (x ∷ xs) =
    if y == x then x ∷ xs else if ltb y x then y ∷ x ∷ xs else x ∷ insert_year y xs

unfoldable pub insert_years : List (ℕ × ℕ) → List ℕ → List ℕ
unfolding insert_year
insert_years [] acc = acc
insert_years ((y, n) ∷ ys) acc = insert_year y (insert_years ys acc)

unfoldable pub all_years : List (String × List (ℕ × ℕ)) → List ℕ
unfolding insert_years
all_years [] = []
all_years ((s, ys) ∷ m) = insert_years ys (all_years m)

-- `all_years[-1]`, where there is a year.
abbrev pub last_year : List ℕ → ℕ
last_year [] = 0
last_year (y ∷ []) = y
last_year (y ∷ z ∷ ys) = last_year (z ∷ ys)

abbrev pub nth_year : ℕ → List ℕ → ℕ
nth_year i ys = get_or (get_elem? ys i) 0

module _ (catalog : Catalog) (subjects : List String) where
  -- What the stage of a week adds, `slot` rotation weeks in.
  unfoldable pub stage_items : List ℕ → ℕ → Stage → List Item
  unfolding practice_items exam_items
  stage_items years slot objective_entry = practice_items catalog.synthetic_counts subjects
  stage_items years slot past_exam_rotation =
      if length years == 0
      then []
      else exam_items catalog.real_exam_years (nth_year (slot % length years) years) subjects
  stage_items years slot mock_exam =
      if length years == 0 then [] else mock_exam_item (last_year years) ∷ []
  stage_items years slot final = wrong_answer_review ∷ []
  stage_items years slot other = []

  -- `rotation_slot` goes on at a rotation week, if there is a year.
  abbrev pub next_slot : List ℕ → ℕ → Stage → ℕ
  next_slot years slot past_exam_rotation = if length years == 0 then slot else slot + 1
  next_slot years slot other = slot

  unfoldable pub add_stage_items : List ℕ → ℕ → List Slot → List Slot
  unfolding stage_items
  add_stage_items years slot [] = []
  add_stage_items years slot (w ∷ ws) =
      record w { content = w.content ++ stage_items years slot w.stage }
      ∷ add_stage_items years (next_slot years slot w.stage) ws

  -- `_assign_week_content`, for a catalog that is there.
  unfoldable pub assign_week_content : List Stage → List Slot
  unfolding teach_all all_years add_stage_items
  assign_week_content stages =
      let blank : List Slot = map (λ s. record { stage = s; content = [] }) stages in
      add_stage_items (all_years catalog.real_exam_years) 0
        (teach_all catalog.tutorials subjects blank)
