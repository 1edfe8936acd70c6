-- ===== src/Aggregate/Signals.antt =====
-- The rates of one subject, the risk tags and the stage of cpa_first/engine/aggregate.py. A rate is a quotient of
-- counts, compared by products; a concept's mastery, which is rounded to four places, is in ten-thousandths.
use xeno_pre_test.Prelude.{
  ℕ, suc, ◌*◌, Bool, true, false, ◌&&◌, ◌||◌, ◌==◌, ltb, leb, if◌then◌else◌, Option, none, some,
  List, [], ◌∷◌, ◌++◌, String, str_eq, str_leb, mem_str, any, take, tally, length, sorted,
}
use mathlib.Core.Option.{get_or}
use xeno_pre_test.StudyPlan.Stage.{
  Stage, intro, post_lecture, objective_entry, past_exam_rotation, mock_exam, final,
}

pub record Log : Type 0 where
  pub problem_id : String
  pub correct : Bool
  pub time_seconds : Option ℕ
  pub mistake_categories : List String

-- `skip_threshold_seconds` of the problem's `time_strategy`, where it has one; a missing subject is "".
pub record Problem : Type 0 where
  pub problem_id : String
  pub subject : String
  pub concept_tags : List String
  pub skip_threshold_seconds : Option ℕ

-- `_problems_by_id`: of equal ids, the last problem.
unfoldable pub problem_by_id : String → List Problem → Option Problem
problem_by_id i [] = none
problem_by_id i (p ∷ ps) = elim (problem_by_id i ps) [
  | some q ↦ some q
  | none ↦ if str_eq p.problem_id i then some p else none
]

-- The threshold that a log is compared with.
abbrev pub threshold_of : List Problem → Log → Option ℕ
threshold_of ps l = elim (problem_by_id l.problem_id ps) [
  | none ↦ none
  | some p ↦ p.skip_threshold_seconds
]

-- `explicit_counts[cat] = explicit_counts.get(cat, 0) + 1`
unfoldable pub count_category : String → List (String × ℕ) → List (String × ℕ)
count_category c [] = (c, 1) ∷ []
count_category c ((k, n) ∷ counts) =
    if str_eq k c then (k, suc n) ∷ counts else (k, n) ∷ count_category c counts

unfoldable pub count_categories : List String → List (String × ℕ) → List (String × ℕ)
unfolding count_category
count_categories [] counts = counts
count_categories (c ∷ cs) counts = count_categories cs (count_category c counts)

-- The loop over a subject's logs.
unfoldable pub explicit_counts : List Log → List (String × ℕ) → List (String × ℕ)
unfolding count_categories
explicit_counts [] counts = counts
explicit_counts (l ∷ ls) counts = explicit_counts ls (count_categories l.mistake_categories counts)

abbrev pub has_threshold : List Problem → Log → Bool
has_threshold ps l = elim (threshold_of ps l) [ none ↦ false | some t ↦ true ]

abbrev pub is_overrun : List Problem → Log → Bool
is_overrun ps l = elim (threshold_of ps l) [
  | none ↦ false
  | some t ↦ ltb t (get_or l.time_seconds 0)
]

-- `time_overrun_rate >= TIME_OVERRUN_RISK_THRESHOLD`, 0.30; the rate is 0 where no problem has a threshold.
unfoldable pub is_pressed : ℕ → ℕ → Bool
is_pressed overruns with_threshold =
    if with_threshold == 0 then false else leb (30 * with_threshold) (100 * overruns)

-- The key `(-explicit_counts[k], k)`.
abbrev pub more_frequent : String × ℕ → String × ℕ → Bool
more_frequent (a, m) (b, n) = ltb n m || ((m == n) && str_leb a b)

abbrev pub keys : List (String × ℕ) → List String
keys [] = []
keys ((k, n) ∷ counts) = k ∷ keys counts

-- `sorted(explicit_counts, ...)[:RISK_TAG_LIMIT]`
abbrev pub explicit_tags : List (String × ℕ) → List String
explicit_tags counts = take 3 (keys (sorted more_frequent counts))

-- The loop over the inferred tags.
unfoldable pub fill : List String → List String → List String
fill [] selected = selected
fill (t ∷ ts) selected =
    if leb 3 (length selected)
    then selected
    else fill ts (if mem_str t selected then selected else selected ++ t ∷ [])

-- `inferred`: LOW_MASTERY_THRESHOLD is 0.40.
abbrev pub inferred_tags : Bool → List (String × ℕ) → List String
inferred_tags pressed mastery =
    (if pressed then "time_pressure" ∷ [] else [])
    ++ (if any (λ m. ltb m.1 4000) mastery then "concept_gap" ∷ [] else [])

unfoldable pub combine_risk_tags : List (String × ℕ) → Bool → List (String × ℕ) → List String
unfolding fill
combine_risk_tags counts pressed mastery =
    fill (inferred_tags pressed mastery) (explicit_tags counts)

-- The risk tags that `aggregate_subject_state` gives, of the mastery of the subject's concepts.
unfoldable pub subject_risk_tags : List Log → List Problem → List (String × ℕ) → List String
unfolding explicit_counts is_pressed combine_risk_tags
subject_risk_tags logs ps mastery =
    combine_risk_tags (explicit_counts logs [])
      (is_pressed (tally (is_overrun ps) logs) (tally (has_threshold ps) logs)) mastery

-- `infer_current_stage`, of the number of logs and of those that are correct.
unfoldable pub stage_for : ℕ → ℕ → Stage
stage_for n correct =
    if n == 0
    then intro
    else if ltb n 30
    then post_lecture
    else if ltb n 80 || ltb (100 * correct) (50 * n)
    then objective_entry
    else if ltb n 200 || ltb (100 * correct) (62 * n)
    then past_exam_rotation
    else if ltb n 400 || ltb (100 * correct) (72 * n)
    then mock_exam
    else final

unfoldable pub infer_current_stage : List Log → Stage
unfolding stage_for
infer_current_stage logs = stage_for (length logs) (tally (λ l. l.correct) logs)
