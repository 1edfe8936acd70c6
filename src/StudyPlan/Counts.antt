-- ===== src/StudyPlan/Counts.antt =====
-- The arithmetic of the proportional weeks of `_distribute_stage_weeks` (cpa_first/engine/study_plan.py):
-- integer parts, remainders and the weeks that are left over.
use xeno_pre_test.Prelude.{
  ℕ, zero, suc, ◌+◌, ◌-◌, ◌*◌, ◌%◌, ◌≤◌, ◌<◌, ◌≡◌, refl, ◌∙◌, ap, List, [], ◌∷◌, length, All, arith,
}
use native.Mathlib.Nat.{div-add-mod, mod-lt, le_of_mul-le-mul_left}
use xeno_pre_test.StudyPlan.Schedule.{sum, Share, base_counts, shares, bump, bump_all}

module _ (extra total : ℕ) where
  pub rests : List ℕ → ℕ
  rests [] = 0
  rests (w ∷ ws) = extra * w % total + rests ws

  -- Integer parts and remainders make up the whole.
  pub sum-base_counts :
      (ws : List ℕ)
      → total * sum (base_counts extra total ws) + rests ws ≡ total * length ws + extra * sum ws
  unfolding base_counts rests sum
  sum-base_counts [] = grind arith
  sum-base_counts (w ∷ ws) = omega (arith, sum-base_counts ws, div-add-mod (extra * w) total)

  pub rests-lt : (ws : List ℕ) → 0 < total → rests ws + length ws ≤ total * length ws
  unfolding rests
  rests-lt [] h = omega arith
  rests-lt (w ∷ ws) h = omega (arith, rests-lt ws h, mod-lt (extra * w) h)

  pub length-base_counts : (ws : List ℕ) → length (base_counts extra total ws) ≡ length ws
  unfolding base_counts
  length-base_counts [] = refl
  length-base_counts (w ∷ ws) = ap suc (length-base_counts ws)

  pub length-shares : (i : ℕ) (ws : List ℕ) → length (shares extra total i ws) ≡ length ws
  unfolding shares
  length-shares i [] = refl
  length-shares i (w ∷ ws) = ap suc (length-shares (suc i) ws)

  pub shares-place-lt :
      (i n : ℕ) (ws : List ℕ) → i + length ws ≤ n → All (λ s. s.place < n) (shares extra total i ws)
  unfolding shares
  shares-place-lt i n [] h = tt
  shares-place-lt i n (w ∷ ws) h = (omega arith, shares-place-lt (suc i) n ws (omega arith))

  pub base_counts-pos : (ws : List ℕ) → All (λ c. 1 ≤ c) (base_counts extra total ws)
  unfolding base_counts
  base_counts-pos [] = tt
  base_counts-pos (w ∷ ws) = (omega arith, base_counts-pos ws)

pub length-bump : (i : ℕ) (cs : List ℕ) → length (bump i cs) ≡ length cs
unfolding bump
length-bump i [] = refl
length-bump zero (c ∷ cs) = refl
length-bump (suc i) (c ∷ cs) = ap suc (length-bump i cs)

pub sum-bump : (i : ℕ) (cs : List ℕ) → i < length cs → sum (bump i cs) ≡ suc (sum cs)
unfolding bump sum
sum-bump i [] h = elim h [ ]
sum-bump zero (c ∷ cs) h = omega arith
sum-bump (suc i) (c ∷ cs) h = omega (arith, sum-bump i cs (omega arith))

pub bump-pos : (i : ℕ) (cs : List ℕ) → All (λ c. 1 ≤ c) cs → All (λ c. 1 ≤ c) (bump i cs)
unfolding bump
bump-pos i [] h = tt
bump-pos zero (c ∷ cs) h = (omega arith, h.1)
bump-pos (suc i) (c ∷ cs) h = (h.0, bump-pos i cs h.1)

pub length-bump_all : (ss : List Share) (cs : List ℕ) → length (bump_all ss cs) ≡ length cs
unfolding bump_all
length-bump_all [] cs = refl
length-bump_all (s ∷ ss) cs = length-bump_all ss (bump s.place cs) ∙ length-bump s.place cs

pub sum-bump_all :
    (ss : List Share) (cs : List ℕ)
    → All (λ s. s.place < length cs) ss
    → sum (bump_all ss cs) ≡ sum cs + length ss
unfolding bump_all
sum-bump_all [] cs h = omega arith
sum-bump_all (s ∷ ss) cs h =
    let rest = sum-bump_all ss (bump s.place cs) (rw (length-bump s.place cs) h.1) in
    omega (arith, rest, sum-bump s.place cs h.0)

pub bump_all-pos :
    (ss : List Share) (cs : List ℕ) → All (λ c. 1 ≤ c) cs → All (λ c. 1 ≤ c) (bump_all ss cs)
unfolding bump_all
bump_all-pos [] cs h = h
bump_all-pos (s ∷ ss) cs h = bump_all-pos ss (bump s.place cs) (bump-pos s.place cs h)

pub weeks_product : (t n w : ℕ) → n ≤ w → t * n + (w - n) * t ≡ t * w
weeks_product t n w h = grind arith

pub quotient_bounds :
    (t b r n w : ℕ)
    → 0 < t
    → n ≤ w
    → t * b + r ≡ t * n + (w - n) * t
    → r + n ≤ t * n
    → (b ≤ w) × (w ≤ b + n)
quotient_bounds t b r n w pos long whole small =
    let e : t * b + r ≡ t * w = whole ∙ weeks_product t n w long in
    (le_of_mul-le-mul_left (omega arith) pos, le_of_mul-le-mul_left (omega arith) pos)

-- What is left over after the integer parts is at most one week for each stage.
pub left_over :
    (ws : List ℕ) (weeks : ℕ)
    → 0 < sum ws
    → length ws ≤ weeks
    → (sum (base_counts (weeks - length ws) (sum ws) ws) ≤ weeks)
      × (weeks - sum (base_counts (weeks - length ws) (sum ws) ws) ≤ length ws)
left_over ws weeks pos long =
    let extra = weeks - length ws in
    let total = sum ws in
    let parts = sum-base_counts extra total ws in
    let bound = rests-lt extra total ws pos in
    let (low, high) = quotient_bounds total _ _ (length ws) weeks pos long parts bound in
    (low, omega arith)
