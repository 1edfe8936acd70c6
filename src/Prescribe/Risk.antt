-- ===== src/Prescribe/Risk.antt =====
-- `_risk_score` of cpa_first/engine/prescribe.py, and the level that `_diagnosis` gives it. A driver's text is
-- fixed by its kind and what it names.
use xeno_pre_test.Prelude.{
  ℕ, ◌+◌, ◌*◌, min, Bool, true, false, ltb, leb, if◌then◌else◌, List, [], ◌∷◌, ◌++◌, String, length,
}
use xeno_pre_test.Prescribe.Rules.{Rule, SubjectState, UserState}

pub data Driver : Type 0 where
  fail_risk time_overrun concept_gap : String → Driver
  tight_deadline near_deadline : ℕ → Driver
  many_rules several_rules : Driver

abbrev pub mastery_sum : List (String × ℕ) → ℕ
mastery_sum [] = 0
mastery_sum ((c, m) ∷ cs) = m + mastery_sum cs

-- The average mastery is below CONCEPT_GAP_THRESHOLD, 0.50; there is none without a concept.
abbrev pub has_gap : List (String × ℕ) → Bool
has_gap [] = false
has_gap (c ∷ cs) = ltb (mastery_sum (c ∷ cs)) (5000 * length (c ∷ cs))

-- A score with its drivers.
abbrev pub Weighed : Type 0
Weighed = ℕ × List Driver

-- `score += points` and `drivers.append(driver)`, under a condition.
abbrev pub add_if : Bool → ℕ → Driver → Weighed → Weighed
add_if c points d (score, drivers) =
    if c then (score + points, drivers ++ d ∷ []) else (score, drivers)

abbrev pub weigh_subject : SubjectState → Weighed → Weighed
weigh_subject s w = add_if (has_gap s.concept_mastery) 15 (concept_gap s.subject) (
    add_if (ltb 3000 s.time_overrun_rate) 15 (time_overrun s.subject)
      (add_if (ltb s.accuracy 4000) 20 (fail_risk s.subject) w))

-- The loop over the subjects.
unfoldable pub weigh_subjects : List SubjectState → Weighed → Weighed
weigh_subjects [] w = w
weigh_subjects (s ∷ states) w = weigh_subjects states (weigh_subject s w)

abbrev pub weigh_days : ℕ → Weighed → Weighed
weigh_days days w =
    if ltb days 30
    then add_if true 25 (tight_deadline days) w
    else add_if (ltb days 60) 10 (near_deadline days) w

abbrev pub weigh_rules : ℕ → Weighed → Weighed
weigh_rules matched w =
    if leb 5 matched then add_if true 20 many_rules w else add_if (leb 3 matched) 10 several_rules w

unfoldable pub risk_score : UserState → List Rule → Weighed
unfolding weigh_subjects
risk_score u matched =
    let (score, drivers) =
      weigh_rules (length matched)
        (weigh_days u.days_until_exam (weigh_subjects u.subject_states (0, []))) in
    (min score 100, drivers)

pub data Level : Type 0 where
  low moderate high : Level

unfoldable pub risk_level : ℕ → Level
risk_level score = if leb 50 score then high else if leb 25 score then moderate else low
