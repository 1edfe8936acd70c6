-- ===== src/Benchmark/Report.antt =====
-- What a report of `run_benchmark` (cpa_first/benchmark/runner.py) says in sum.
use Prim.Native.String.{◌++◌ as str_append}
use xeno_pre_test.Prelude.{
  ℕ, suc, ◌+◌, ◌*◌, ◌≤◌, ◌<◌, ◌≡◌, ◌⊎◌, ◌↔◌, refl, ◌∙◌, subst, true, not, List, [], ◌∷◌, String,
  str_eq, keep, tally, tally-le-length, length, all, All, arith,
}
use xeno_pre_test.Benchmark.Grade.{TextTests, Question, SolveResult, QuestionScore}
use xeno_pre_test.Benchmark.Groups.{
  Accuracy, is_correct, group_accuracy, passes_subject, pass_status, all_or_none, all_or_none,
}
use xeno_pre_test.Benchmark.Run.{
  BenchmarkResult, all_flagged, graded, is_flagged, subject_of, report, score_all, run_benchmark,
}
use xeno_pre_test.Benchmark.PerGroup.{sum_at, total_at, correct_at}
use xeno_pre_test.Benchmark.Rounded.{IsAccuracy, group_accuracy-IsAccuracy}
use xeno_pre_test.Benchmark.Totals.{
  sum_groups, length-group_accuracy_total, tally-group_accuracy_correct, length-keep_flagged,
  length-score_all, all_iff,
}

-- The numbers of a report on questions and on their scores that are not flagged.
pub record Adds (questions : List Question) (scores : List QuestionScore) (r : BenchmarkResult)
    : Type 0 where
  pub all_counted : r.total + r.flagged_excluded ≡ length questions
  pub counted : r.total ≡ length scores
  pub right : r.correct ≡ tally is_correct scores
  pub own_totals :
      (k : String)
      → sum_at k (λ a. a.total) r.per_subject ≡ length (keep (λ s. str_eq s.subject k) scores)
  pub own_corrects :
      (k : String)
      → sum_at k (λ a. a.correct) r.per_subject
        ≡ tally is_correct (keep (λ s. str_eq s.subject k) scores)
  pub subject_totals : sum_groups (λ a. a.total) r.per_subject ≡ r.total
  pub subject_corrects : sum_groups (λ a. a.correct) r.per_subject ≡ r.correct
  pub unit_totals : sum_groups (λ a. a.total) r.per_unit ≡ r.total
  pub in_range : r.correct ≤ r.total
  pub accuracies : All IsAccuracy r.per_subject
  pub pass :
      (r.pass_status.would_pass ≡ true)
      ↔ (3 * r.total ≤ 5 * r.correct) × All (λ a. 4000 ≤ a.accuracy) r.per_subject

nonempty :
    (groups : List Accuracy) (n : ℕ)
    → sum_groups (λ a. a.total) groups ≡ suc n
    → all_or_none groups ≡ all passes_subject groups
nonempty [] n e = absurd (omega (arith, e))
nonempty (a ∷ groups) n e = refl

pass_status_iff :
    (groups : List Accuracy) (correct n : ℕ)
    → sum_groups (λ a. a.total) groups ≡ suc n
    → ((pass_status groups correct (suc n)).would_pass ≡ true)
      ↔ (3 * suc n ≤ 5 * correct) × All (λ a. 4000 ≤ a.accuracy) groups
unfolding pass_status
pass_status_iff groups correct n e =
    let (forth, back) = all_iff groups in
    let same = nonempty groups n e in
    (
      λ h. (ground (arith, h), forth (ground (arith, h, same))),
      λ h. (let b = back h.1 in let c = h.0 in ground (arith, b, same)),
    )

report-Adds :
    (questions : List Question) (scores : List QuestionScore) (g : QuestionScore)
    (gs : List QuestionScore)
    → length scores ≡ length questions
    → keep (λ s. not (is_flagged s)) scores ≡ g ∷ gs
    → Adds questions (g ∷ gs) (report scores (g ∷ gs))
unfolding report
report-Adds questions scores g gs counted kept =
    let totals = length-group_accuracy_total (λ s. s.subject) (g ∷ gs) in
    let split : length (g ∷ gs) + length (keep is_flagged scores) ≡ length scores =
      subst (λ l. length l + length (keep is_flagged scores) ≡ length scores) kept
        (length-keep_flagged scores) in
    record {
      all_counted = split ∙ counted;
      counted = refl;
      right = refl;
      own_totals = λ k. total_at k (λ s. s.subject) (g ∷ gs);
      own_corrects = λ k. correct_at k (λ s. s.subject) (g ∷ gs);
      subject_totals = totals;
      subject_corrects = tally-group_accuracy_correct (λ s. s.subject) (g ∷ gs);
      unit_totals =
          length-group_accuracy_total (λ s. str_append s.subject (str_append "/" s.unit)) (g ∷ gs);
      accuracies = group_accuracy-IsAccuracy (λ s. s.subject) (g ∷ gs);
      in_range = tally-le-length is_correct (g ∷ gs);
      pass =
          pass_status_iff (group_accuracy subject_of (g ∷ gs)) (tally is_correct (g ∷ gs))
            (length gs) totals;
    }

-- Of at least one question of which not all are flagged, the run gives a report, whether the solver raises or
-- not: each question is graded or excluded as flagged, and the total and the correct answers are those of the
-- scores that are not flagged; under the name of each subject stand the number and the correct answers of
-- its own scores; over subjects, and over units, the totals add up to the total, and over subjects the
-- correct answers to those; each subject has at least one answer, and its accuracy is its correct answers over its
-- total to the nearest ten-thousandth; and the set would be passed exactly when three fifths of the
-- answers are correct and each subject has an accuracy of at least 4000 ten-thousandths.
pub run_benchmark_lem :
    (T : TextTests) (solve : Question → String ⊎ SolveResult) (questions : List Question)
    → 0 < length (keep (λ s. not (is_flagged s)) (score_all T solve questions))
    → (r : BenchmarkResult) × (run_benchmark T solve questions ≡ graded r)
      × Adds questions (keep (λ s. not (is_flagged s)) (score_all T solve questions)) r
unfolding run_benchmark score_all
run_benchmark_lem T solve [] h = absurd (omega arith)
run_benchmark_lem T solve (q ∷ qs) h =
    graded_by (keep (λ s. not (is_flagged s)) (score_all T solve (q ∷ qs))) refl h
  where
    graded_by :
        (kept : List QuestionScore)
        → keep (λ s. not (is_flagged s)) (score_all T solve (q ∷ qs)) ≡ kept
        → 0 < length kept
        → (r : BenchmarkResult) × ((elim kept [
          | [] ↦ all_flagged
          | g ∷ gs ↦ graded (report (score_all T solve (q ∷ qs)) (g ∷ gs))
        ])
            ≡ graded r)
          × Adds (q ∷ qs) kept r
    graded_by [] e l = absurd (omega arith)
    graded_by (g ∷ gs) e l = (
      report (score_all T solve (q ∷ qs)) (g ∷ gs),
      refl,
      report-Adds (q ∷ qs) (score_all T solve (q ∷ qs)) g gs (length-score_all T solve (q ∷ qs)) e,
    )
