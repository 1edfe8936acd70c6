-- ===== src/Recommend/Ranked.antt =====
-- The orders by which `recommend_problems` (cpa_first/engine/recommend.py) takes the first problems.
use xeno_pre_test.Prelude.{
  ℕ, ◌+◌, ◌≡◌, refl, sym, ap, ◌∙◌, subst, min, Bool, true, false, ◌&&◌, ◌||◌, ltb, leb, List, ◌++◌,
  str_leb, take, drop, length, take-append-drop, length-take, length-sorted, sorted, sorted-perm,
  IsSorted, sorted-IsSorted, Perm, arith, str_leb-total, str_leb_trans, higher_first-total,
  higher_first_trans,
}
use xeno_pre_test.Recommend.Score.{Item, SubjectState, Score}
use xeno_pre_test.Recommend.Choice.{ranks_before, stable_accuracy, or_zero, steadier}

-- The first `n` of a pool in an order: with the rest they are the pool, and they stand before the rest.
pub record Selects {ℓ} {A : Type ℓ} (before : A → A → Bool) (n : ℕ) (pool chosen : List A)
    : Type ℓ where
  pub rest : List A
  pub all_of : Perm (chosen ++ rest) pool
  pub in_order : IsSorted before (chosen ++ rest)
  pub count : length chosen ≡ min n (length pool)

take-Selects {ℓ} :
    {A : Type ℓ} (before : A → A → Bool)
    (total : (x y : A) → before x y ≡ false → before y x ≡ true)
    (trans : (x y z : A) → before x y ≡ true → before y z ≡ true → before x z ≡ true) (n : ℕ)
    (pool : List A)
    → Selects before n pool (take n (sorted before pool))
take-Selects before total trans n pool =
    let whole = take-append-drop n (sorted before pool) in
    record {
      rest = drop n (sorted before pool);
      all_of = subst (λ l. Perm l pool) (sym whole) (sorted-perm before pool);
      in_order =
          subst (λ l. IsSorted before l) (sym whole) (sorted-IsSorted before total trans pool);
      count = length-take n (sorted before pool) ∙ ap (λ k. min n k) (length-sorted before pool);
    }

ranks_before-total : (x y : Score × Item) → ranks_before x y ≡ false → ranks_before y x ≡ true
ranks_before-total (a, i) (b, j) h =
    by_id (str_leb i.question_id j.question_id) (str_leb j.question_id i.question_id)
      (str_leb-total i.question_id j.question_id) h
  where
    by_id :
        (x y : Bool)
        → (x ≡ false → y ≡ true)
        → (ltb (b.added + a.taken) (a.added + b.taken)
            || (leb (a.added + b.taken) (b.added + a.taken)
                && leb (b.added + a.taken) (a.added + b.taken)
                && x))
          ≡ false
        → (ltb (a.added + b.taken) (b.added + a.taken)
            || (leb (b.added + a.taken) (a.added + b.taken)
                && leb (a.added + b.taken) (b.added + a.taken)
                && y))
          ≡ true
    by_id true y f e = ground arith
    by_id false y f e = ground (arith, f refl)

ranks_before_trans :
    (x y z : Score × Item)
    → ranks_before x y ≡ true
    → ranks_before y z ≡ true
    → ranks_before x z ≡ true
ranks_before_trans (a, i) (b, j) (c, k) h g =
    by_ids (str_leb i.question_id j.question_id) (str_leb j.question_id k.question_id)
      (str_leb i.question_id k.question_id)
      (str_leb_trans i.question_id j.question_id k.question_id) h g
  where
    by_ids :
        (x y z : Bool)
        → (x ≡ true → y ≡ true → z ≡ true)
        → (ltb (b.added + a.taken) (a.added + b.taken)
            || (leb (a.added + b.taken) (b.added + a.taken)
                && leb (b.added + a.taken) (a.added + b.taken)
                && x))
          ≡ true
        → (ltb (c.added + b.taken) (b.added + c.taken)
            || (leb (b.added + c.taken) (c.added + b.taken)
                && leb (c.added + b.taken) (b.added + c.taken)
                && y))
          ≡ true
        → (ltb (c.added + a.taken) (a.added + c.taken)
            || (leb (a.added + c.taken) (c.added + a.taken)
                && leb (c.added + a.taken) (a.added + c.taken)
                && z))
          ≡ true
    by_ids true true z f u v = ground (arith, f refl refl)
    by_ids true false z f u v = ground arith
    by_ids false y z f u v = ground arith

pub take-ranks_before :
    (n : ℕ) (pool : List (Score × Item))
    → Selects ranks_before n pool (take n (sorted ranks_before pool))
take-ranks_before = take-Selects ranks_before ranks_before-total ranks_before_trans

pub take-steadier :
    (states : List SubjectState) (n : ℕ) (pool : List Item)
    → Selects (steadier states) n pool (take n (sorted (steadier states) pool))
take-steadier states =
    let steadiness : Item → ℕ = λ i. or_zero (stable_accuracy states i) in
    take-Selects (steadier states)
      (λ i j. higher_first-total (steadiness i) (steadiness j) i.question_id j.question_id)
      (λ i j k.
        higher_first_trans (steadiness i) (steadiness j) (steadiness k) i.question_id j.question_id
          k.question_id)
