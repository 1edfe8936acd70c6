-- ===== src/Benchmark/Rounded.antt =====
-- The accuracy of a group (`_group_accuracy` of cpa_first/benchmark/runner.py) against its counts.
use native.Mathlib.Nat.{div-add-mod', mod-lt, suc-mul}
use xeno_pre_test.Prelude.{
  ℕ, ◌+◌, ◌*◌, ◌/◌, ◌%◌, ◌≤◌, ◌&&◌, ◌||◌, ◌==◌, ltb, List, [], ◌∷◌, map, String, str_eq, some,
  tally, tally-le-length, length, length-append, All, sorted-All, arith, Bool-cases, inl, inr,
}
use xeno_pre_test.Benchmark.Grade.{QuestionScore}
use xeno_pre_test.Benchmark.Groups.{
  Bucket, round4, put_in, fill, Accuracy, is_correct, accuracy_of, key_leb, group_accuracy,
}

-- The accuracy of a group, which is not empty, is its correct answers over its total, to the nearest
-- ten-thousandth.
abbrev pub IsAccuracy : Accuracy → Type 0
IsAccuracy a =
    (1 ≤ a.total)
    × (a.correct ≤ a.total)
    × (2 * (10000 * a.correct) ≤ 2 * (a.accuracy * a.total) + a.total)
    × (2 * (a.accuracy * a.total) ≤ 2 * (10000 * a.correct) + a.total)

round4_lem :
    (part whole : ℕ)
    → 1 ≤ whole
    → (2 * (10000 * part) ≤ 2 * (round4 part whole * whole) + whole)
      × (2 * (round4 part whole * whole) ≤ 2 * (10000 * part) + whole)
unfolding round4
round4_lem part whole h =
    let x = 10000 * part in
    let q = x / whole in
    let r = x % whole in
    let split = div-add-mod' x whole in
    let below = mod-lt x h in
    elim (Bool-cases (ltb whole (2 * r) || ((2 * r == whole) && (q % 2 == 1)))) [
      | inl up ↦
          let half : whole ≤ 2 * r = ground arith in
          rw up (
            omega (arith, split, below, half, suc-mul q whole),
            omega (arith, split, below, half, suc-mul q whole),
          )
      | inr down ↦
          let half : 2 * r ≤ whole = ground arith in
          rw down (omega (arith, split, below, half), omega (arith, split, below, half))
    ]

abbrev Filled : Bucket → Type 0
Filled b = 1 ≤ length b.1

put_in-Filled :
    (k : String) (s : QuestionScore) (buckets : List Bucket)
    → All Filled buckets
    → All Filled (put_in k s buckets)
unfolding put_in
put_in-Filled k s [] h = (omega arith, tt)
put_in-Filled k s ((j, items) ∷ buckets) h = elim (Bool-cases (str_eq k j)) [
  | inl e ↦ rw e (omega (arith, length-append items (s ∷ [])), h.1)
  | inr e ↦ rw e (h.0, put_in-Filled k s buckets h.1)
]

fill-Filled :
    (key : QuestionScore → String) (scores : List QuestionScore) (buckets : List Bucket)
    → All Filled buckets
    → All Filled (fill (λ s. some (key s)) scores buckets)
unfolding fill
fill-Filled key [] buckets h = h
fill-Filled key (s ∷ scores) buckets h =
    fill-Filled key scores (put_in (key s) s buckets) (put_in-Filled (key s) s buckets h)

map-IsAccuracy :
    (buckets : List Bucket) → All Filled buckets → All IsAccuracy (map accuracy_of buckets)
unfolding accuracy_of
map-IsAccuracy [] h = tt
map-IsAccuracy ((k, items) ∷ buckets) h =
    let (above, below) = round4_lem (tally is_correct items) (length items) h.0 in
    ((h.0, tally-le-length is_correct items, above, below), map-IsAccuracy buckets h.1)

pub group_accuracy-IsAccuracy :
    (key : QuestionScore → String) (scores : List QuestionScore)
    → All IsAccuracy (group_accuracy (λ s. some (key s)) scores)
unfolding group_accuracy
group_accuracy-IsAccuracy key scores =
    map-IsAccuracy _ (sorted-All key_leb Filled _ (fill-Filled key scores [] tt))
