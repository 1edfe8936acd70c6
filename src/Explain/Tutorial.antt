-- ===== src/Explain/Tutorial.antt =====
-- `judge_tutorial` of cpa_first/explain_gen/tutorial_judge.py. Times are left out. Verdicts, subjects and categories
-- are texts.
use xeno_pre_test.Prelude.{ℕ, if◌then◌else◌, Option, none, some, List, [], ◌∷◌, String, mem_str}
use xeno_pre_test.Explain.Batch.{Counts, bump}

abbrev pub severities : List String
severities = "critical" ∷ "major" ∷ "minor" ∷ "uncertain" ∷ []

pub record Finding : Type 0 where
  pub severity : Option String
  pub category : String
  pub detail : String

-- `{s: 0 for s in SEVERITIES}`
abbrev pub zeros : List String → Counts
zeros [] = []
zeros (s ∷ ss) = (s, 0) ∷ zeros ss

-- `counts[sev] += 1` where `sev` is a key.
abbrev pub count_severity : Option String → Counts → Counts
unfolding bump
count_severity none counts = counts
count_severity (some s) counts = if mem_str s severities then bump s counts else counts

unfoldable pub severity_counts : List Finding → Counts → Counts
unfolding bump
severity_counts [] counts = counts
severity_counts (f ∷ findings) counts = severity_counts findings (count_severity f.severity counts)

-- The object in the model's reply, with what it gives under each key.
pub record TutorialReply : Type 0 where
  pub overall_verdict : Option String
  pub step_findings : Option (List Finding)
  pub expert_review_priority : Option ℕ
  pub summary : Option String

pub record TutorialJudgment : Type 0 where
  pub tutorial_id : String
  pub subject_id : Option String
  pub overall_verdict : String
  pub step_findings : List Finding
  pub counts : Counts
  pub expert_review_priority : ℕ
  pub summary : String

abbrev pub given {ℓ} : {A : Type ℓ} → A → Option A → A
given a none = a
given a (some b) = b

abbrev parse_failed : String → Option String → TutorialJudgment
parse_failed i subject = record {
  tutorial_id = i;
  subject_id = subject;
  overall_verdict = "judge_parse_failed";
  step_findings = [];
  counts = zeros severities;
  expert_review_priority = 1;
  summary = "judge 출력 JSON 파싱 실패 — 수동 검토 필요";
}

-- The judgment on a tutorial by the object in the reply, if there is one; without a verdict it has failed.
unfoldable pub judge_tutorial : String → Option String → Option TutorialReply → TutorialJudgment
unfolding severity_counts
judge_tutorial i subject none = parse_failed i subject
judge_tutorial i subject (some r) = elim r.overall_verdict [
  | none ↦ parse_failed i subject
  | some v ↦ record {
    tutorial_id = i;
    subject_id = subject;
    overall_verdict = v;
    step_findings = given [] r.step_findings;
    counts = severity_counts (given [] r.step_findings) (zeros severities);
    expert_review_priority = given 3 r.expert_review_priority;
    summary = given "" r.summary;
  }
]
