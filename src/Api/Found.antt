-- ===== src/Api/Found.antt =====
-- The terms that GET /terms/search of cpa_first/api/main.py finds.
use xeno_pre_test.Prelude.{
  ℕ, ◌≤◌, ◌≡◌, max, true, str_eq, List, String, All, All-keep, All-take, sorted, sorted-All, length,
  length-take, keep, arith, Bool-cases, inl, inr,
}
use xeno_pre_test.Api.Terms.{FullTerm, TermTests, is_hit, shown_before, search_terms}

module _ (T : TermTests) where
  -- Each term found has the query in one of its names, and there are as many as the limit says at most, one at least
  -- being allowed.
  pub search_terms_lem :
      (q : String) (limit : ℕ) (terms : List FullTerm)
      → All (λ t. is_hit T (T.strip q) t ≡ true) (search_terms T q limit terms)
        × (length (search_terms T q limit terms) ≤ max 1 limit)
  unfolding search_terms
  search_terms_lem q limit terms = elim (Bool-cases (str_eq (T.strip q) "")) [
    | inl e ↦ rw e (tt, omega arith)
    | inr e ↦
        let found = sorted (shown_before T (T.strip q)) (keep (is_hit T (T.strip q)) terms) in
        rw e (
          All-take _ (max 1 limit) found
              (sorted-All (shown_before T (T.strip q)) _ _ (All-keep (is_hit T (T.strip q)) terms)),
          omega (arith, length-take (max 1 limit) found),
        )
  ]
