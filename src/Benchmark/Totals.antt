-- ===== src/Benchmark/Totals.antt =====
-- How the numbers of `run_benchmark` (cpa_first/benchmark/runner.py) add up.
use xeno_pre_test.Prelude.{
  ℕ, suc, ◌+◌, ◌≤◌, ◌≡◌, ◌⊎◌, ◌↔◌, refl, ap, true, not, some, List, [], ◌∷◌, ◌++◌, map, String,
  str_eq, keep, tally, length, length-append, sorted, insort, all, All, arith, Bool-cases, inl, inr,
}
use xeno_pre_test.Benchmark.Grade.{TextTests, Question, SolveResult, QuestionScore}
use xeno_pre_test.Benchmark.Groups.{
  Bucket, put_in, fill, Accuracy, is_correct, accuracy_of, key_leb, group_accuracy, passes_subject,
}
use xeno_pre_test.Benchmark.Run.{is_flagged, score_all}

-- The sum of a number of each group.
abbrev pub sum_groups : (Accuracy → ℕ) → List Accuracy → ℕ
sum_groups g [] = 0
sum_groups g (a ∷ groups) = g a + sum_groups g groups

module _ (f : List QuestionScore → ℕ) (f_empty : f [] ≡ 0)
    (f_snoc : (items : List QuestionScore) (s : QuestionScore)
      → f (items ++ s ∷ []) ≡ f (s ∷ []) + f items)
    (f_cons : (s : QuestionScore) (items : List QuestionScore)
      → f (s ∷ items) ≡ f (s ∷ []) + f items) where
  abbrev sum_buckets : List Bucket → ℕ
  sum_buckets [] = 0
  sum_buckets ((k, items) ∷ buckets) = f items + sum_buckets buckets

  sum_buckets-put_in :
      (k : String) (s : QuestionScore) (buckets : List Bucket)
      → sum_buckets (put_in k s buckets) ≡ f (s ∷ []) + sum_buckets buckets
  unfolding put_in
  sum_buckets-put_in k s [] = refl
  sum_buckets-put_in k s ((j, items) ∷ buckets) = elim (Bool-cases (str_eq k j)) [
    | inl e ↦ rw e (omega (arith, f_snoc items s))
    | inr e ↦ rw e (omega (arith, sum_buckets-put_in k s buckets))
  ]

  sum_buckets-fill :
      (key : QuestionScore → String) (scores : List QuestionScore) (buckets : List Bucket)
      → sum_buckets (fill (λ s. some (key s)) scores buckets) ≡ f scores + sum_buckets buckets
  unfolding fill
  sum_buckets-fill key [] buckets = omega (arith, f_empty)
  sum_buckets-fill key (s ∷ scores) buckets =
      let rest = sum_buckets-fill key scores (put_in (key s) s buckets) in
      omega (arith, rest, sum_buckets-put_in (key s) s buckets, f_cons s scores)

  sum_buckets-insort :
      (b : Bucket) (buckets : List Bucket)
      → sum_buckets (insort key_leb b buckets) ≡ sum_buckets (b ∷ buckets)
  unfolding insort
  sum_buckets-insort b [] = refl
  sum_buckets-insort b (c ∷ buckets) = elim (Bool-cases (key_leb b c)) [
    | inl e ↦ rw e refl
    | inr e ↦ rw e (omega (arith, sum_buckets-insort b buckets))
  ]

  sum_buckets-sorted :
      (buckets : List Bucket) → sum_buckets (sorted key_leb buckets) ≡ sum_buckets buckets
  unfolding sorted
  sum_buckets-sorted [] = refl
  sum_buckets-sorted (b ∷ buckets) =
      omega (arith, sum_buckets-insort b (sorted key_leb buckets), sum_buckets-sorted buckets)

  sum_groups-map :
      (g : Accuracy → ℕ)
      → ((b : Bucket) → g (accuracy_of b) ≡ f b.1)
      → (buckets : List Bucket) → sum_groups g (map accuracy_of buckets) ≡ sum_buckets buckets
  sum_groups-map g h [] = refl
  sum_groups-map g h (b ∷ buckets) = omega (arith, h b, sum_groups-map g h buckets)

  sum_groups-group_accuracy :
      (g : Accuracy → ℕ)
      → ((b : Bucket) → g (accuracy_of b) ≡ f b.1)
      → (key : QuestionScore → String) (scores : List QuestionScore)
      → sum_groups g (group_accuracy (λ s. some (key s)) scores) ≡ f scores
  unfolding group_accuracy
  sum_groups-group_accuracy g h key scores =
      let buckets = fill (λ s. some (key s)) scores [] in
      omega (
        arith,
        sum_groups-map g h (sorted key_leb buckets),
        sum_buckets-sorted buckets,
        sum_buckets-fill key scores [],
      )

pub tally_snoc :
    (items : List QuestionScore) (s : QuestionScore)
    → tally is_correct (items ++ s ∷ []) ≡ tally is_correct (s ∷ []) + tally is_correct items
tally_snoc [] s = omega arith
tally_snoc (i ∷ items) s = omega (arith, tally_snoc items s)

pub length-group_accuracy_total :
    (key : QuestionScore → String) (scores : List QuestionScore)
    → sum_groups (λ a. a.total) (group_accuracy (λ s. some (key s)) scores) ≡ length scores
unfolding accuracy_of
length-group_accuracy_total =
    sum_groups-group_accuracy (λ l. length l) refl
      (λ items s. omega (arith, length-append items (s ∷ []))) (λ s items. omega arith)
      (λ a. a.total) (λ b. refl)

pub tally-group_accuracy_correct :
    (key : QuestionScore → String) (scores : List QuestionScore)
    → sum_groups (λ a. a.correct) (group_accuracy (λ s. some (key s)) scores)
      ≡ tally is_correct scores
unfolding accuracy_of
tally-group_accuracy_correct =
    sum_groups-group_accuracy (λ l. tally is_correct l) refl tally_snoc (λ s items. omega arith)
      (λ a. a.correct) (λ b. refl)

pub length-keep_flagged :
    (scores : List QuestionScore)
    → length (keep (λ s. not (is_flagged s)) scores) + length (keep is_flagged scores)
      ≡ length scores
length-keep_flagged [] = refl
length-keep_flagged (s ∷ scores) = ground (arith, length-keep_flagged scores)

pub length-score_all :
    (T : TextTests) (solve : Question → String ⊎ SolveResult) (qs : List Question)
    → length (score_all T solve qs) ≡ length qs
unfolding score_all
length-score_all T solve [] = refl
length-score_all T solve (q ∷ qs) = ap suc (length-score_all T solve qs)

pub all_iff :
    (groups : List Accuracy)
    → (all passes_subject groups ≡ true) ↔ All (λ a. 4000 ≤ a.accuracy) groups
all_iff [] = (λ e. tt, λ h. refl)
all_iff (a ∷ groups) =
    let rest = all_iff groups in
    (
      λ e. (ground arith, rest.0 (ground arith)),
      λ h. (let e = rest.1 h.1 in let x = h.0 in ground arith),
    )
