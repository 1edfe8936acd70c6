-- ===== src/Solver/Closest.antt =====
-- The choice that is the closest to a value that was computed, and the tax on a base, of cpa_first/solver/reasoned.py.
-- A choice's distance from the value, where a number can be read in it, is a parameter. A tax is in
-- hundredths, so that the rates are whole.
use xeno_pre_test.Prelude.{
  ℕ, suc, ◌+◌, ◌-◌, ◌*◌, ◌≤◌, min, ltb, if◌then◌else◌, Option, none, some, List, [], ◌∷◌, arith,
}

module _ {ℓ} {A : Type ℓ} (distance : A → Option ℕ) where
  -- `min(indexed, key=...)`, past the best index so far with its distance.
  unfoldable pub closest_from : List A → ℕ → ℕ × ℕ → ℕ × ℕ
  closest_from [] i best = best
  closest_from (c ∷ cs) i best =
      let next : ℕ × ℕ = elim (distance c) [
        | none ↦ best
        | some d ↦ if ltb d best.1 then (i, d) else best
      ] in
      closest_from cs (suc i) next

  -- From the index `i` on, where no choice before it has a number.
  unfoldable pub closest_after : List A → ℕ → Option ℕ
  unfolding closest_from
  closest_after [] i = none
  closest_after (c ∷ cs) i =
      let later = closest_after cs (suc i) in
      elim (distance c) [ none ↦ later | some d ↦ some (closest_from cs (suc i) (i, d)).0 ]

  -- `_closest_index`, and so `_choose_closest_money` and `_choose_closest_pct`; `none` is -1.
  unfoldable pub closest_index : List A → Option ℕ
  unfolding closest_after
  closest_index choices = closest_after choices 0

-- `_corporate_tax_2026`, of a base that is not negative.
unfoldable pub corporate_tax_2026 : ℕ → ℕ
corporate_tax_2026 base =
    9 * min base 200_000_000
    + (if ltb 200_000_000 base then 19 * (min base 20_000_000_000 - 200_000_000) else 0)
    + (if ltb 20_000_000_000 base then 21 * (min base 300_000_000_000 - 20_000_000_000) else 0)
    + (if ltb 300_000_000_000 base then 24 * (base - 300_000_000_000) else 0)

-- A base that is greater by `d` is taxed by at least 9 and at most 24 per cent of `d` more: no bracket makes the rest
-- after the tax smaller.
pub corporate_tax_2026_marginal :
    (base d : ℕ)
    → (corporate_tax_2026 base + 9 * d ≤ corporate_tax_2026 (base + d))
      × (corporate_tax_2026 (base + d) ≤ corporate_tax_2026 base + 24 * d)
unfolding corporate_tax_2026
corporate_tax_2026_marginal base d = ground arith
