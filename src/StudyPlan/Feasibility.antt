-- ===== src/StudyPlan/Feasibility.antt =====
-- `_feasibility` of cpa_first/engine/study_plan.py: the hours that are planned against those that the stages to
-- come are estimated to need. Planned hours are whole, as `round` makes them; the ratio is compared by
-- products.
use xeno_pre_test.Prelude.{
  ℕ, zero, suc, drop, subst, ◌-◌, ◌+◌, ◌*◌, ◌/◌, ◌%◌, ◌≤◌, ◌<◌, ◌≡◌, refl, ltb, leb, ◌==◌, map,
  if◌then◌else◌, String, arith,
}
use xeno_pre_test.StudyPlan.Stage.{
  stage_order, stage_week_weight, stage_index, stage_index-lt, remaining_stages,
}
use native.Mathlib.Nat.{le_refl, le_trans}
use xeno_pre_test.StudyPlan.Schedule.{sum}

-- `round` of a quotient of whole numbers: to the nearest, and to the even one of two.
unfoldable pub round_div : ℕ → ℕ → ℕ
round_div a b =
    let q = a / b in
    let r = a % b in
    if ltb (2 * r) b then q else if ltb b (2 * r) then q + 1 else if q % 2 == 0 then q else q + 1

-- TOTAL_REQUIRED_HOURS
abbrev pub total_required_hours : ℕ
total_required_hours = 3500

unfoldable pub required_hours : String → ℕ
unfolding round_div sum stage_week_weight
required_hours current_stage =
    round_div (total_required_hours * sum (map stage_week_weight (remaining_stages current_stage)))
      (sum (map stage_week_weight stage_order))

pub data Verdict : Type 0 where
  sufficient tight insufficient : Verdict

-- FEASIBILITY_TIGHT_RATIO is 0.70; the ratio is 0 where nothing is required.
unfoldable pub verdict : ℕ → ℕ → Verdict
verdict planned required =
    if required == 0
    then insufficient
    else if leb required planned
    then sufficient
    else if leb (70 * required) (100 * planned)
    then tight
    else insufficient

unfoldable pub feasibility : String → ℕ → Verdict
unfolding required_hours verdict
feasibility current_stage planned = verdict planned (required_hours current_stage)

-- How good a verdict is.
abbrev pub rank : Verdict → ℕ
rank insufficient = 0
rank tight = 1
rank sufficient = 2

unfoldable required_at : ℕ → ℕ
unfolding required_hours
required_at i =
    round_div (total_required_hours * sum (map stage_week_weight (drop i stage_order)))
      (sum (map stage_week_weight stage_order))

required_at-suc : (i : ℕ) → i < 5 → required_at (suc i) ≤ required_at i
unfolding required_at
required_at-suc zero h = omega arith
required_at-suc (suc zero) h = omega arith
required_at-suc (suc (suc zero)) h = omega arith
required_at-suc (suc (suc (suc zero))) h = omega arith
required_at-suc (suc (suc (suc (suc zero)))) h = omega arith
required_at-suc (suc (suc (suc (suc (suc i))))) h = absurd (omega arith)

required_at-add : (k i : ℕ) → i + k < 6 → required_at (i + k) ≤ required_at i
required_at-add zero i h =
    subst (λ n. required_at n ≤ required_at i) (let e : i ≡ i + 0 = omega arith in e) (le_refl _)
required_at-add (suc k) i h =
    subst (λ n. required_at n ≤ required_at i) (let e : suc (i + k) ≡ i + suc k = omega arith in e)
      (le_trans (required_at-suc (i + k) (omega arith)) (required_at-add k i (omega arith)))

required_at-pos : (i : ℕ) → i < 6 → 1 ≤ required_at i
unfolding required_at
required_at-pos zero h = omega arith
required_at-pos (suc zero) h = omega arith
required_at-pos (suc (suc zero)) h = omega arith
required_at-pos (suc (suc (suc zero))) h = omega arith
required_at-pos (suc (suc (suc (suc zero)))) h = omega arith
required_at-pos (suc (suc (suc (suc (suc zero))))) h = omega arith
required_at-pos (suc (suc (suc (suc (suc (suc i)))))) h = absurd (omega arith)

required_hours-at : (s : String) → required_hours s ≡ required_at (stage_index s)
unfolding required_hours remaining_stages required_at
required_hours-at s = refl

required_hours-le :
    (s t : String) → stage_index s ≤ stage_index t → required_hours t ≤ required_hours s
required_hours-le s t h =
    rw (required_hours-at s, required_hours-at t)
      (subst (λ n. required_at n ≤ required_at (stage_index s))
        (let e : stage_index s + (stage_index t - stage_index s) ≡ stage_index t = omega arith in e)
        (required_at-add (stage_index t - stage_index s) (stage_index s)
          (omega (arith, stage_index-lt t))))

pub required_hours-pos : (s : String) → 1 ≤ required_hours s
required_hours-pos s = rw (required_hours-at s) (required_at-pos (stage_index s) (stage_index-lt s))

rank-verdict : (p q r r' : ℕ) → p ≤ q → r' ≤ r → 1 ≤ r' → rank (verdict p r) ≤ rank (verdict q r')
unfolding verdict
rank-verdict p q r r' h k pos = ground arith

-- At a stage that is not earlier and with planned hours that are not fewer, the verdict is not worse.
pub feasibility_monotone :
    (s t : String) (p q : ℕ)
    → stage_index s ≤ stage_index t
    → p ≤ q
    → rank (feasibility s p) ≤ rank (feasibility t q)
unfolding feasibility
feasibility_monotone s t p q later more =
    rank-verdict p q (required_hours s) (required_hours t) more (required_hours-le s t later)
      (required_hours-pos t)
