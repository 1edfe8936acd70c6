-- ===== src/StudyPlan/Distribution.antt =====
-- The weeks that `_distribute_stage_weeks` of cpa_first/engine/study_plan.py gives out.
use xeno_pre_test.Prelude.{
  ℕ, ◌-◌, ◌≤◌, ◌<◌, ◌≡◌, refl, ◌∙◌, sym, ap, subst, length-map, inl, inr, leb, List, [], ◌∷◌, map,
  length, take, drop, sorted, All, arith, length-take, length-drop, Bool-cases, leb→le, All-take,
  sorted-All, length-sorted,
}
use xeno_pre_test.StudyPlan.Stage.{Stage, stage_week_weight}
use xeno_pre_test.StudyPlan.Schedule.{
  sum, Share, share_before, base_counts, shares, proportional_counts, zip_counts,
  distribute_stage_weeks,
}
use xeno_pre_test.StudyPlan.Counts.{
  length-base_counts, length-shares, shares-place-lt, base_counts-pos, length-bump_all,
  sum-bump_all, bump_all-pos, left_over,
}

-- The shares that get a further week.
abbrev chosen : List ℕ → ℕ → List Share
chosen ws weeks =
    let extra = weeks - length ws in
    take (weeks - sum (base_counts extra (sum ws) ws))
      (sorted share_before (shares extra (sum ws) 0 ws))

module _ (ws : List ℕ) (weeks : ℕ) (pos : 0 < sum ws) (long : length ws ≤ weeks) where
  proportional_counts-length : length (proportional_counts ws weeks) ≡ length ws
  unfolding proportional_counts
  proportional_counts-length =
      length-bump_all (chosen ws weeks) (base_counts (weeks - length ws) (sum ws) ws)
      ∙ length-base_counts (weeks - length ws) (sum ws) ws

  proportional_counts-pos : All (λ c. 1 ≤ c) (proportional_counts ws weeks)
  unfolding proportional_counts
  proportional_counts-pos =
      bump_all-pos (chosen ws weeks) (base_counts (weeks - length ws) (sum ws) ws)
        (base_counts-pos (weeks - length ws) (sum ws) ws)

  sum-proportional_counts : sum (proportional_counts ws weeks) ≡ weeks
  unfolding proportional_counts
  sum-proportional_counts =
      let extra = weeks - length ws in
      let total = sum ws in
      let counts = base_counts extra total ws in
      let order = sorted share_before (shares extra total 0 ws) in
      let (low, high) = left_over ws weeks pos long in
      let places : All (λ s. s.place < length counts) order =
        sorted-All share_before (λ s. s.place < length counts) (shares extra total 0 ws)
          (shares-place-lt extra total 0 (length counts) ws
            (omega (arith, length-base_counts extra total ws))) in
      let inside =
        sum-bump_all (take (weeks - sum counts) order) counts
          (All-take (λ s. s.place < length counts) (weeks - sum counts) order places) in
      omega (
        arith,
        inside,
        length-take (weeks - sum counts) order,
        length-sorted share_before (shares extra total 0 ws),
        length-shares extra total 0 ws,
      )

abbrev pub counts_of : List (Stage × ℕ) → List ℕ
counts_of = map (λ p. p.1)

abbrev pub stages_of : List (Stage × ℕ) → List Stage
stages_of = map (λ p. p.0)

counts_of-zip :
    (ss : List Stage) (cs : List ℕ) → length cs ≡ length ss → counts_of (zip_counts ss cs) ≡ cs
counts_of-zip [] [] h = refl
counts_of-zip [] (c ∷ cs) h = absurd (omega arith)
counts_of-zip (s ∷ ss) [] h = absurd (omega arith)
counts_of-zip (s ∷ ss) (c ∷ cs) h = ap (λ l. c ∷ l) (counts_of-zip ss cs (omega arith))

stages_of-zip :
    (ss : List Stage) (cs : List ℕ) → length cs ≡ length ss → stages_of (zip_counts ss cs) ≡ ss
stages_of-zip [] [] h = refl
stages_of-zip [] (c ∷ cs) h = refl
stages_of-zip (s ∷ ss) [] h = absurd (omega arith)
stages_of-zip (s ∷ ss) (c ∷ cs) h = ap (λ l. s ∷ l) (stages_of-zip ss cs (omega arith))

stages_of-ones : (ss : List Stage) → stages_of (map (λ s. (s, 1)) ss) ≡ ss
stages_of-ones [] = refl
stages_of-ones (s ∷ ss) = ap (λ l. s ∷ l) (stages_of-ones ss)

ones_counts :
    (ss : List Stage)
    → (sum (counts_of (map (λ s. (s, 1)) ss)) ≡ length ss)
      × All (λ c. 1 ≤ c) (counts_of (map (λ s. (s, 1)) ss))
unfolding sum
ones_counts [] = (refl, tt)
ones_counts (s ∷ ss) = let (e, p) = ones_counts ss in (omega arith, (omega arith, p))

weights_pos : (s : Stage) (ss : List Stage) → 0 < sum (map stage_week_weight (s ∷ ss))
unfolding sum stage_week_weight
weights_pos Stage.intro ss = omega arith
weights_pos Stage.post_lecture ss = omega arith
weights_pos Stage.objective_entry ss = omega arith
weights_pos Stage.past_exam_rotation ss = omega arith
weights_pos Stage.mock_exam ss = omega arith
weights_pos Stage.final ss = omega arith

-- What a distribution of `weeks` over `stages` promises: it gives out exactly the weeks there are, each
-- stage that it keeps has a week at least, and it keeps the stages nearest the exam, in order.
pub record Distributes (stages : List Stage) (weeks : ℕ) (plan : List (Stage × ℕ)) : Type 0 where
  pub exact : sum (counts_of plan) ≡ weeks
  pub each : All (λ c. 1 ≤ c) (counts_of plan)
  pub latest : stages_of plan ≡ drop (length stages - weeks) stages

drop_nothing {ℓ} : {A : Type ℓ} (n m : ℕ) (xs : List A) → n ≤ m → drop (n - m) xs ≡ xs
drop_nothing n m xs h = ap (λ k. drop k xs) (let e : n - m ≡ 0 = omega arith in e)

-- `_distribute_stage_weeks` of a list of stages that is not empty gives out exactly `weeks` weeks; each stage
-- that gets weeks gets at least one, and these stages are the list's last ones, in its order: all of
-- them, or as many as there are weeks.
pub distribute-Distributes :
    (s : Stage) (ss : List Stage) (weeks : ℕ)
    → Distributes (s ∷ ss) weeks (distribute_stage_weeks (s ∷ ss) weeks)
unfolding distribute_stage_weeks
distribute-Distributes s ss weeks =
    let stages = s ∷ ss in
    elim (Bool-cases (leb weeks (length stages))) [
      | inl few ↦
          let kept = drop (length stages - weeks) stages in
          rw few (record {
            exact =
                (ones_counts kept).0
                ∙ omega (
                  arith,
                  leb→le weeks (length stages) few,
                  length-drop (length stages - weeks) stages,
                );
            each = (ones_counts kept).1;
            latest = stages_of-ones kept;
          })
      | inr many ↦
          let ws = map stage_week_weight stages in
          let cs = proportional_counts ws weeks in
          let same : length ws ≡ length stages = length-map stages stage_week_weight in
          let more : length stages ≤ weeks = ground arith in
          let pos = weights_pos s ss in
          let long : length ws ≤ weeks = omega (arith, same, more) in
          let sized = proportional_counts-length ws weeks pos long ∙ same in
          rw many (record {
            exact =
                ap sum (counts_of-zip stages cs sized) ∙ sum-proportional_counts ws weeks pos long;
            each =
                subst (All (λ c. 1 ≤ c)) (sym (counts_of-zip stages cs sized))
                  (proportional_counts-pos ws weeks pos long);
            latest =
                stages_of-zip stages cs sized
                ∙ sym (drop_nothing (length stages) weeks stages more);
          })
    ]
