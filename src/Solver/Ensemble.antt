-- ===== src/Solver/Ensemble.antt =====
-- `EnsembleSolver.solve` of cpa_first/solver/ensemble.py: the majority of the solvers' answers, and of equal
-- counts the one that the first solver, the strongest, gives. A negative `chosen_index` is no answer.
-- The solvers themselves are parameters: here stand their answers, in the order of priority.
use xeno_pre_test.Prelude.{
  ℕ, max, Bool, false, ◌&&◌, ◌==◌, Option, none, some, List, [], ◌∷◌, length, all, first, tally,
}

-- `[r.chosen_index for r in results if r.chosen_index >= 0]`
unfoldable pub votes : List (Option ℕ) → List ℕ
votes [] = []
votes (none ∷ rs) = votes rs
votes (some v ∷ rs) = v ∷ votes rs

-- `Counter(votes)[v]`
abbrev pub count : ℕ → List ℕ → ℕ
count v = tally (λ w. w == v)

-- `Counter(votes).most_common(1)[0][1]`: the greatest count among `ws`.
unfoldable pub top_among : List ℕ → List ℕ → ℕ
top_among vs [] = 0
top_among vs (w ∷ ws) = max (count w vs) (top_among vs ws)

unfoldable pub top_count : List ℕ → ℕ
unfolding top_among
top_count vs = top_among vs vs

pub record Consensus : Type 0 where
  pub chosen : Option ℕ
  -- The agreement is `agreeing / voting`.
  pub agreeing : ℕ
  pub voting : ℕ
  pub unanimous : Bool

-- `len(set(votes)) == 1`
abbrev pub all_same : List ℕ → Bool
all_same [] = false
all_same (v ∷ vs) = all (λ w. w == v) vs

-- The result for these votes of so many solvers.
unfoldable pub decide_votes : ℕ → List ℕ → Consensus
unfolding top_count
decide_votes solvers [] = record { chosen = none; agreeing = 0; voting = 0; unanimous = false }
decide_votes solvers (v ∷ vs) =
    let top = top_count (v ∷ vs) in
    record {
      chosen = first (λ w. count w (v ∷ vs) == top) (v ∷ vs);
      agreeing = top;
      voting = length (v ∷ vs);
      unanimous = all_same (v ∷ vs) && (length (v ∷ vs) == solvers);
    }

unfoldable pub solve : List (Option ℕ) → Consensus
unfolding decide_votes votes
solve results = decide_votes (length results) (votes results)
