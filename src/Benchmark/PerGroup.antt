-- ===== src/Benchmark/PerGroup.antt =====
-- The counts of each group (`_group_accuracy` of cpa_first/benchmark/runner.py) against the scores of its key.
use xeno_pre_test.Prelude.{
  ℕ, ◌+◌, ◌≡◌, refl, if◌then◌else◌, some, List, [], ◌∷◌, ◌++◌, map, String, str_eq, eq_iff, keep,
  tally, length, length-append, sorted, insort, arith, Bool-cases, inl, inr,
}
use xeno_pre_test.Benchmark.Grade.{QuestionScore}
use xeno_pre_test.Benchmark.Groups.{
  Bucket, put_in, fill, Accuracy, is_correct, accuracy_of, key_leb, group_accuracy,
}
use xeno_pre_test.Benchmark.Totals.{tally_snoc}

-- The sum of a number of the groups of this name.
abbrev pub sum_at : String → (Accuracy → ℕ) → List Accuracy → ℕ
sum_at k g [] = 0
sum_at k g (a ∷ groups) = (if str_eq a.group k then g a else 0) + sum_at k g groups

module _ (k : String) (f : List QuestionScore → ℕ) (f_empty : f [] ≡ 0)
    (f_snoc : (items : List QuestionScore) (s : QuestionScore)
      → f (items ++ s ∷ []) ≡ f (s ∷ []) + f items)
    (f_cons : (s : QuestionScore) (items : List QuestionScore)
      → f (s ∷ items) ≡ f (s ∷ []) + f items) where
  abbrev at_buckets : List Bucket → ℕ
  at_buckets [] = 0
  at_buckets ((j, items) ∷ buckets) = (if str_eq j k then f items else 0) + at_buckets buckets

  at_buckets-put_in :
      (i : String) (s : QuestionScore) (buckets : List Bucket)
      → at_buckets (put_in i s buckets)
        ≡ (if str_eq i k then f (s ∷ []) else 0) + at_buckets buckets
  unfolding put_in
  at_buckets-put_in i s [] = refl
  at_buckets-put_in i s ((j, items) ∷ buckets) = elim (Bool-cases (str_eq i j)) [
    | inl e ↦
        rw (e, (eq_iff i j).0 e)
          (elim (Bool-cases (str_eq j k)) [
            | inl q ↦ rw q (omega (arith, f_snoc items s))
            | inr q ↦ rw q (omega arith)
          ])
    | inr e ↦ rw e (omega (arith, at_buckets-put_in i s buckets))
  ]

  at_buckets-fill :
      (key : QuestionScore → String) (scores : List QuestionScore) (buckets : List Bucket)
      → at_buckets (fill (λ s. some (key s)) scores buckets)
        ≡ f (keep (λ s. str_eq (key s) k) scores) + at_buckets buckets
  unfolding fill
  at_buckets-fill key [] buckets = omega (arith, f_empty)
  at_buckets-fill key (s ∷ scores) buckets =
      let rest = at_buckets-fill key scores (put_in (key s) s buckets) in
      let put = at_buckets-put_in (key s) s buckets in
      elim (Bool-cases (str_eq (key s) k)) [
        | inl q ↦
            let mine = f_cons s (keep (λ t. str_eq (key t) k) scores) in
            rw q (omega (arith, rest, rw q at put, mine))
        | inr q ↦ rw q (omega (arith, rest, rw q at put))
      ]

  at_buckets-insort :
      (b : Bucket) (buckets : List Bucket)
      → at_buckets (insort key_leb b buckets) ≡ at_buckets (b ∷ buckets)
  unfolding insort
  at_buckets-insort b [] = refl
  at_buckets-insort b (c ∷ buckets) = elim (Bool-cases (key_leb b c)) [
    | inl e ↦ rw e refl
    | inr e ↦ rw e (omega (arith, at_buckets-insort b buckets))
  ]

  at_buckets-sorted :
      (buckets : List Bucket) → at_buckets (sorted key_leb buckets) ≡ at_buckets buckets
  unfolding sorted
  at_buckets-sorted [] = refl
  at_buckets-sorted (b ∷ buckets) =
      omega (arith, at_buckets-insort b (sorted key_leb buckets), at_buckets-sorted buckets)

  sum_at-map :
      (g : Accuracy → ℕ)
      → ((b : Bucket) → g (accuracy_of b) ≡ f b.1)
      → (buckets : List Bucket) → sum_at k g (map accuracy_of buckets) ≡ at_buckets buckets
  unfolding accuracy_of
  sum_at-map g h [] = refl
  sum_at-map g h ((j, items) ∷ buckets) = rw (h (j, items)) (omega (arith, sum_at-map g h buckets))

  sum_at-group_accuracy :
      (g : Accuracy → ℕ)
      → ((b : Bucket) → g (accuracy_of b) ≡ f b.1)
      → (key : QuestionScore → String) (scores : List QuestionScore)
      → sum_at k g (group_accuracy (λ s. some (key s)) scores)
        ≡ f (keep (λ s. str_eq (key s) k) scores)
  unfolding group_accuracy
  sum_at-group_accuracy g h key scores =
      let buckets = fill (λ s. some (key s)) scores [] in
      omega (
        arith,
        sum_at-map g h (sorted key_leb buckets),
        at_buckets-sorted buckets,
        at_buckets-fill key scores [],
      )

pub total_at :
    (k : String) (key : QuestionScore → String) (scores : List QuestionScore)
    → sum_at k (λ a. a.total) (group_accuracy (λ s. some (key s)) scores)
      ≡ length (keep (λ s. str_eq (key s) k) scores)
unfolding accuracy_of
total_at k =
    sum_at-group_accuracy k (λ l. length l) refl
      (λ items s. omega (arith, length-append items (s ∷ []))) (λ s items. omega arith)
      (λ a. a.total) (λ b. refl)

pub correct_at :
    (k : String) (key : QuestionScore → String) (scores : List QuestionScore)
    → sum_at k (λ a. a.correct) (group_accuracy (λ s. some (key s)) scores)
      ≡ tally is_correct (keep (λ s. str_eq (key s) k) scores)
unfolding accuracy_of
correct_at k =
    sum_at-group_accuracy k (λ l. tally is_correct l) refl tally_snoc (λ s items. omega arith)
      (λ a. a.correct) (λ b. refl)
