-- ===== src/Solver/Tests.antt =====
-- Votes of some solvers under `EnsembleSolver.solve` (cpa_first/solver/ensemble.py).
use xeno_pre_test.Prelude.{ℕ, ◌≡◌, refl, ◌⊎◌, Option, none, some, List, [], ◌∷◌}
use xeno_pre_test.Solver.Ensemble.{votes, solve, decide_votes, top_count, top_among}
use xeno_pre_test.Solver.Majority.{IsChoice, solve-IsChoice}

abbrev split : List (Option ℕ)
split = some 2 ∷ none ∷ some 1 ∷ some 1 ∷ some 2 ∷ []

first_of_two : (solve split).chosen ≡ some 2
unfolding solve decide_votes votes top_count top_among
first_of_two = refl

solve-IsChoice_example :
    (votes split ≡ []) × ((solve split).chosen ≡ none)
    ⊎ ((v : ℕ) × ((solve split).chosen ≡ some v) × IsChoice (votes split) v)
solve-IsChoice_example = solve-IsChoice split
