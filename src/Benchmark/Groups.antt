-- ===== src/Benchmark/Groups.antt =====
-- The accuracy by groups, the lines to pass and the measures of quality of cpa_first/benchmark/runner.py.
-- Rates are in ten-thousandths, quotients rounded half to even, where `round(..., 4)` rounds the nearest float.
use xeno_pre_test.Prelude.{
  ℕ, suc, ◌+◌, ◌*◌, ◌/◌, ◌%◌, min, max, Bool, false, not, ◌&&◌, ◌||◌, ◌==◌, ltb, leb, if◌then◌else◌,
  Option, none, some, List, [], ◌∷◌, ◌++◌, map, String, str_eq, str_leb, all, keep, tally, length,
  sorted,
}
use xeno_pre_test.Benchmark.Grade.{QuestionScore, is_some}

abbrev pub Bucket : Type 0
Bucket = String × List QuestionScore

-- `round(part / whole, 4)`
unfoldable pub round4 : ℕ → ℕ → ℕ
round4 part whole =
    let q = (10000 * part) / whole in
    let r = (10000 * part) % whole in
    if ltb whole (2 * r) || ((2 * r == whole) && (q % 2 == 1)) then suc q else q

-- `buckets.setdefault(k, []).append(s)`
unfoldable pub put_in : String → QuestionScore → List Bucket → List Bucket
put_in k s [] = (k, s ∷ []) ∷ []
put_in k s ((j, items) ∷ buckets) =
    if str_eq k j then (j, items ++ s ∷ []) ∷ buckets else (j, items) ∷ put_in k s buckets

abbrev pub put_under : Option String → QuestionScore → List Bucket → List Bucket
unfolding put_in
put_under none s buckets = buckets
put_under (some k) s buckets = put_in k s buckets

unfoldable pub fill :
    (QuestionScore → Option String) → List QuestionScore → List Bucket → List Bucket
unfolding put_in
fill key [] buckets = buckets
fill key (s ∷ scores) buckets = fill key scores (put_under (key s) s buckets)

pub record Accuracy : Type 0 where
  pub group : String
  pub total : ℕ
  pub correct : ℕ
  pub accuracy : ℕ

abbrev pub is_correct : QuestionScore → Bool
is_correct s = s.correct

unfoldable pub accuracy_of : Bucket → Accuracy
unfolding round4
accuracy_of (k, items) = record {
  group = k;
  total = length items;
  correct = tally is_correct items;
  accuracy = round4 (tally is_correct items) (length items);
}

abbrev pub key_leb : Bucket → Bucket → Bool
key_leb (j, _) (k, _) = str_leb j k

unfoldable pub group_accuracy : (QuestionScore → Option String) → List QuestionScore → List Accuracy
unfolding fill accuracy_of
group_accuracy key scores = map accuracy_of (sorted key_leb (fill key scores []))

pub record PassStatus : Type 0 where
  pub per_subject_pass : List (String × Bool)
  pub overall_pass : Bool
  pub would_pass : Bool

-- `stats["accuracy"] >= 0.40`
abbrev pub passes_subject : Accuracy → Bool
passes_subject a = leb 4000 a.accuracy

abbrev pub all_or_none : List Accuracy → Bool
all_or_none [] = false
all_or_none (a ∷ rest) = all passes_subject (a ∷ rest)

-- The overall accuracy is `correct / total`, held against 0.60.
unfoldable pub pass_status : List Accuracy → ℕ → ℕ → PassStatus
pass_status per_subject correct total =
    let overall = leb (3 * total) (5 * correct) in
    record {
      per_subject_pass = map (λ a. (a.group, passes_subject a)) per_subject;
      overall_pass = overall;
      would_pass = overall && all_or_none per_subject;
    }

abbrev sum_of : (QuestionScore → ℕ) → List QuestionScore → ℕ
sum_of f [] = 0
sum_of f (s ∷ scores) = f s + sum_of f scores

abbrev least_of : (QuestionScore → ℕ) → QuestionScore → List QuestionScore → ℕ
least_of f s [] = f s
least_of f s (t ∷ scores) = min (f s) (least_of f t scores)

abbrev greatest_of : (QuestionScore → ℕ) → QuestionScore → List QuestionScore → ℕ
greatest_of f s [] = f s
greatest_of f s (t ∷ scores) = max (f s) (greatest_of f t scores)

abbrev is_hit : QuestionScore → Bool
is_hit s = elim s.attractor_hit [ none ↦ false | some b ↦ b ]

unfoldable pub hit_rate : List QuestionScore → Option ℕ
unfolding round4
hit_rate [] = none
hit_rate (s ∷ wrong) = some (round4 (tally is_hit (s ∷ wrong)) (length (s ∷ wrong)))

-- The measures of quality of at least one score; averages are sums with the number of scores.
pub record Quality : Type 0 where
  pub answer_parse_rate : ℕ
  pub insufficient_evidence_rate : ℕ
  pub sum_rationale_chars : ℕ
  pub min_rationale_chars : ℕ
  pub max_rationale_chars : ℕ
  pub sum_citation_count : ℕ
  pub answered_with_citation_rate : ℕ
  pub attractor_traps_evaluated : ℕ
  pub attractor_hit_rate_among_wrong : Option ℕ

unfoldable pub quality_metrics : List QuestionScore → Option Quality
unfolding round4 hit_rate
quality_metrics [] = none
quality_metrics (s ∷ rest) =
    let scores = s ∷ rest in
    let n = length scores in
    let wrong = keep (λ x. not x.correct && is_some x.attractor_hit) scores in
    some record {
      answer_parse_rate = round4 (tally (λ x. x.answer_parse_ok) scores) n;
      insufficient_evidence_rate = round4 (tally (λ x. x.insufficient_evidence) scores) n;
      sum_rationale_chars = sum_of (λ x. x.rationale_chars) scores;
      min_rationale_chars = least_of (λ x. x.rationale_chars) s rest;
      max_rationale_chars = greatest_of (λ x. x.rationale_chars) s rest;
      sum_citation_count = sum_of (λ x. x.citation_count) scores;
      answered_with_citation_rate = round4 (tally (λ x. ltb 0 x.citation_count) scores) n;
      attractor_traps_evaluated = length wrong;
      attractor_hit_rate_among_wrong = hit_rate wrong;
    }
