-- ===== src/Prescribe/Tests.antt =====
-- The risk and the rules of a user two weeks before the exam (cpa_first/engine/prescribe.py).
use xeno_pre_test.Prelude.{
  ◌-◌, List, map, keep, Perm, IsSorted, ◌*◌, ◌≤◌, ◌≡◌, refl, min, true, [], ◌∷◌, String, length,
}
use xeno_pre_test.Prescribe.Subjects.{matches_rule_subject}
use xeno_pre_test.Prescribe.Rules.{
  Rule, SubjectState, UserState, matches, matches_stage, matches_subjects, matches_risk_tags,
  user_subjects, user_risk_tags,
}
use xeno_pre_test.Prescribe.Risk.{Driver, risk_score}
use xeno_pre_test.Prescribe.Whole.{goes_first, prescribe}
use xeno_pre_test.Prescribe.Contents.{Once, TasksOf, prescribe_lem}
use xeno_pre_test.Prescribe.Bounds.{risk_score_lem}

abbrev state : String → SubjectState
state s = record {
  subject = s;
  accuracy = 3000;
  time_overrun_rate = 4000;
  concept_mastery = ("a:b", 2000) ∷ [];
  risk_tags = "concept_gap" ∷ [];
}

abbrev user : UserState
user = record {
  user_id = "u1";
  current_stage = "final";
  days_until_exam = 14;
  subject_states = state "tax" ∷ [];
}

abbrev rule : Rule
rule = record {
  rule_key = "r1";
  rule_name = "gaps first";
  applicable_stages = "final" ∷ [];
  applicable_subjects = "accounting_tax" ∷ "tax" ∷ [];
  required_risk_tags = "concept_gap" ∷ [];
  source_signal_count = 4;
  confidence = 9000;
  action_text = "review";
}

rule-matches : matches rule user ≡ true
unfolding matches matches_stage matches_subjects matches_risk_tags user_subjects user_risk_tags
    matches_rule_subject
rule-matches = refl

risk_score_lem_example :
    ((risk_score user (rule ∷ [])).0 ≤ 100)
    × (min (10 * length (risk_score user (rule ∷ [])).1) 100 ≤ (risk_score user (rule ∷ [])).0)
    × ((risk_score user (rule ∷ [])).0 ≤ 25 * length (risk_score user (rule ∷ [])).1)
risk_score_lem_example = risk_score_lem user (rule ∷ [])

abbrev text_of : Driver → String
text_of d = "risk"

prescribe_lem_example :
    let p =
      prescribe text_of (λ m f g. 10000 - m) (λ i s ks. i) user (rule ∷ []) 7 (("a:b" ∷ []) ∷ []) in
    ((matched : List Rule) × (p.triggered_rule_keys ≡ map (λ r. r.rule_key) matched)
      × Perm matched (keep (λ r. matches r user) (rule ∷ []))
      × IsSorted goes_first matched
      × TasksOf user matched p.daily_tasks)
    × (length p.concepts_to_review ≤ 3)
    × Once p.concepts_to_review
    × Once p.diagnosis.risk_drivers
prescribe_lem_example =
    prescribe_lem text_of (λ m f g. 10000 - m) (λ i s ks. i) user (rule ∷ []) 7 (("a:b" ∷ []) ∷ [])
