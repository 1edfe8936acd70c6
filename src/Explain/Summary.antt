-- ===== src/Explain/Summary.antt =====
-- `summarize_tutorial_judgments` of cpa_first/explain_gen/tutorial_judge.py and `summarize_judgments` of judge.py. The
-- records are those of the files, in the order of their paths. Rates are given by the two numbers divided.
use xeno_pre_test.Prelude.{
  true, false, ℕ, suc, ◌+◌, ◌++◌, ◌==◌, ltb, Bool, false, ◌&&◌, ◌||◌, if◌then◌else◌, Option, none,
  some, List, [], ◌∷◌, map, String, str_eq, str_leb, keep, take, length, sorted,
}
use xeno_pre_test.Explain.Batch.{Counts, count_of, bump}
use xeno_pre_test.Explain.Tutorial.{severities, Finding, zeros, TutorialJudgment}

-- One of equal keys before the next key is asked.
abbrev then_by : ℕ → ℕ → Bool → Bool
then_by a b rest = ltb a b || ((a == b) && rest)

-- The order of the review queue: by priority, then the more critical and major findings, then by id.
unfoldable pub reviewed_before : TutorialJudgment → TutorialJudgment → Bool
reviewed_before a b = then_by a.expert_review_priority b.expert_review_priority (
    then_by (count_of "critical" b.counts) (count_of "critical" a.counts) (
      then_by (count_of "major" b.counts) (count_of "major" a.counts)
        (str_leb a.tutorial_id b.tutorial_id)))

-- `sum` of the counts of each key.
abbrev pub count_all : (TutorialJudgment → String) → List TutorialJudgment → Counts → Counts
unfolding bump
count_all key [] counts = counts
count_all key (r ∷ rs) counts = count_all key rs (bump (key r) counts)

-- `total[k] = total.get(k, 0) + n`
unfoldable pub add_count : String → ℕ → Counts → Counts
add_count k n [] = (k, n) ∷ []
add_count k n ((j, x) ∷ c) = if str_eq k j then (j, x + n) ∷ c else (j, x) ∷ add_count k n c

abbrev pub add_counts : Counts → Counts → Counts
unfolding add_count
add_counts [] total = total
add_counts ((k, n) ∷ c) total = add_counts c (add_count k n total)

unfoldable pub severity_total : List TutorialJudgment → Counts → Counts
unfolding add_count
severity_total [] total = total
severity_total (r ∷ rs) total = severity_total rs (add_counts r.counts total)

abbrev pub count_categories : List Finding → Counts → Counts
unfolding bump
count_categories [] total = total
count_categories (f ∷ fs) total = count_categories fs (bump f.category total)

unfoldable pub category_total : List TutorialJudgment → Counts → Counts
unfolding bump
category_total [] total = total
category_total (r ∷ rs) total = category_total rs (count_categories r.step_findings total)

abbrev is_serious : Finding → Bool
is_serious f = elim f.severity [ none ↦ false | some s ↦ str_eq s "critical" || str_eq s "major" ]

abbrev pub SubjectCounts : Type 0
SubjectCounts = List (Option String × Counts)

-- Two keys, of which one may be `None`.
abbrev same_subject : Option String → Option String → Bool
same_subject none none = true
same_subject none (some t) = false
same_subject (some s) none = false
same_subject (some s) (some t) = str_eq s t

-- `by_subject.setdefault(subj, {})[v] += 1`
unfoldable pub bump_in : Option String → String → SubjectCounts → SubjectCounts
unfolding bump
bump_in subject v [] = (subject, (v, 1) ∷ []) ∷ []
bump_in subject v ((j, counts) ∷ rest) =
    if same_subject subject j
    then (j, bump v counts) ∷ rest
    else (j, counts) ∷ bump_in subject v rest

-- The subject, which each record of `judge_tutorial` has, with the verdict, of each record.
abbrev pub count_subjects : List TutorialJudgment → SubjectCounts → SubjectCounts
unfolding bump_in
count_subjects [] c = c
count_subjects (r ∷ rs) c = count_subjects rs (bump_in r.subject_id r.overall_verdict c)

pub record TutorialSummary : Type 0 where
  pub total_judged : ℕ
  pub by_verdict : Counts
  pub severities : Counts
  pub categories : Counts
  pub by_subject : SubjectCounts
  -- The clean rate is `clean / total_judged`.
  pub clean : ℕ
  -- Each tutorial with its critical and major findings.
  pub review_queue : List (TutorialJudgment × List Finding)

unfoldable pub summarize_tutorial_judgments : List TutorialJudgment → TutorialSummary
unfolding reviewed_before severity_total category_total bump bump_in
summarize_tutorial_judgments records = record {
  total_judged = length records;
  by_verdict = count_all (λ r. r.overall_verdict) records [];
  severities = severity_total records (zeros severities);
  categories = category_total records [];
  by_subject = count_subjects records [];
  clean = count_of "clean" (count_all (λ r. r.overall_verdict) records []);
  review_queue = map (λ r. (r, keep is_serious r.step_findings)) (sorted reviewed_before records);
}

-- A stored judgment of an explanation: its verdict, its subject and the texts of its errors.
pub record StoredJudgment : Type 0 where
  pub question_id : String
  pub verdict : String
  pub subject : Option String
  pub errors : List String
  pub one_line : String

pub record JudgmentSummary : Type 0 where
  pub total : ℕ
  pub by_verdict : Counts
  pub by_subject : SubjectCounts
  pub fail_samples : List StoredJudgment

-- The summary with one judgment more.
unfoldable pub add_judgment : JudgmentSummary → StoredJudgment → JudgmentSummary
unfolding bump bump_in
add_judgment s j =
    let subject : String = elim j.subject [
      | none ↦ "unknown"
      | some t ↦ if str_eq t "" then "unknown" else t
    ] in
    let sampled = str_eq j.verdict "fail" && ltb (length s.fail_samples) 20 in
    record {
      total = suc s.total;
      by_verdict = bump j.verdict s.by_verdict;
      by_subject = bump_in (some subject) j.verdict s.by_subject;
      fail_samples =
          if sampled
          then s.fail_samples ++ record j { errors = take 3 j.errors } ∷ []
          else s.fail_samples;
    }

abbrev pub add_judgments : List StoredJudgment → JudgmentSummary → JudgmentSummary
unfolding add_judgment
add_judgments [] s = s
add_judgments (j ∷ js) s = add_judgments js (add_judgment s j)

-- The summary, and the rate of passes as `passed / judged`, where any was judged.
unfoldable pub summarize_judgments : List StoredJudgment → JudgmentSummary × Option (ℕ × ℕ)
unfolding add_judgment
summarize_judgments js =
    let s =
      add_judgments js record { total = 0; by_verdict = []; by_subject = []; fail_samples = [] } in
    let passed = count_of "pass" s.by_verdict in
    let judged = passed + count_of "fail" s.by_verdict in
    (s, if judged == 0 then none else some (passed, judged))
