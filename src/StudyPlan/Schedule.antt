-- ===== src/StudyPlan/Schedule.antt =====
-- How many weeks, and how many for each stage: `_total_weeks`, `_days_range` and
-- `_distribute_stage_weeks` of cpa_first/engine/study_plan.py. A negative number of days counts as 0
-- in both places that read it. The source's quotients extra * w / total_weight are compared here by
-- their integer parts and remainders.
use xeno_pre_test.Prelude.{
  ℕ, zero, suc, ◌+◌, ◌-◌, ◌*◌, ◌/◌, ◌%◌, min, max, Bool, ◌&&◌, ◌||◌, ltb, leb, ◌==◌, List, [], ◌∷◌,
  map, length, take, drop, if◌then◌else◌, sorted,
}
use xeno_pre_test.StudyPlan.Stage.{Stage, stage_week_weight}

-- DEFAULT_MAX_WEEKS
abbrev pub default_max_weeks : ℕ
default_max_weeks = 52

unfoldable pub total_weeks : ℕ → ℕ → ℕ
total_weeks days max_weeks = max 1 (min max_weeks ((days + 6) / 7))

-- The first and the last day of a week, counted down to the exam.
unfoldable pub days_range : ℕ → ℕ → ℕ × ℕ
days_range days week_no = let start = days - 7 * (week_no - 1) in (start, start - 6)

unfoldable pub sum : List ℕ → ℕ
sum [] = 0
sum (x ∷ xs) = x + sum xs

-- A place in the list of stages, with extra * w / total_weight as its remainder.
pub record Share : Type 0 where
  pub place : ℕ
  pub rest : ℕ

-- The larger fraction first, and of equal ones the later stage.
abbrev pub share_before : Share → Share → Bool
share_before a b = ltb b.rest a.rest || ((a.rest == b.rest) && leb b.place a.place)

module _ (extra total_weight : ℕ) where
  unfoldable pub base_counts : List ℕ → List ℕ
  base_counts [] = []
  base_counts (w ∷ ws) = (1 + extra * w / total_weight) ∷ base_counts ws

  unfoldable pub shares : ℕ → List ℕ → List Share
  shares i [] = []
  shares i (w ∷ ws) = record { place = i; rest = extra * w % total_weight } ∷ shares (suc i) ws

-- `counts[i] += 1`
unfoldable pub bump : ℕ → List ℕ → List ℕ
bump i [] = []
bump zero (c ∷ cs) = suc c ∷ cs
bump (suc i) (c ∷ cs) = c ∷ bump i cs

-- `for i in order[:remainder]`
unfoldable pub bump_all : List Share → List ℕ → List ℕ
unfolding bump
bump_all [] cs = cs
bump_all (s ∷ ss) cs = bump_all ss (bump s.place cs)

-- The counts where there are more weeks than stages.
unfoldable pub proportional_counts : List ℕ → ℕ → List ℕ
unfolding sum base_counts shares bump_all
proportional_counts weights weeks =
    let extra = weeks - length weights in
    let total_weight = sum weights in
    let counts = base_counts extra total_weight weights in
    let order = sorted share_before (shares extra total_weight 0 weights) in
    bump_all (take (weeks - sum counts) order) counts

abbrev pub zip_counts : List Stage → List ℕ → List (Stage × ℕ)
zip_counts [] cs = []
zip_counts (s ∷ ss) [] = []
zip_counts (s ∷ ss) (c ∷ cs) = (s, c) ∷ zip_counts ss cs

unfoldable pub distribute_stage_weeks : List Stage → ℕ → List (Stage × ℕ)
unfolding proportional_counts
distribute_stage_weeks stages weeks =
    if leb weeks (length stages)
    then map (λ s. (s, 1)) (drop (length stages - weeks) stages)
    else zip_counts stages (proportional_counts (map stage_week_weight stages) weeks)
