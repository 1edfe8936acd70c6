-- ===== src/Api/Review.antt =====
-- The reviews of cpa_first/api/main.py: `update_review`, and the rules and problems that the endpoints show with
-- the status of their review over that of the seed.
use xeno_pre_test.Prelude.{
  Bool, true, false, not, if◌then◌else◌, Option, none, some, List, [], ◌∷◌, String, str_eq, mem_str,
}
use xeno_pre_test.Records.Overrides.{get_review_override, upsert_review_override}
use xeno_pre_test.Api.Model.{Answer, ok, http_error, Store}

-- A rule or a problem of the seed: its key, its status and the rest.
pub record Seed : Type 0 where
  pub ref_id : String
  pub review_status : Option String
  pub document : String

-- `{p[key]: p for p in seeds}.get(i)`: of equal keys the last one counts.
unfoldable pub seed_by_id : String → List Seed → Option Seed
seed_by_id i [] = none
seed_by_id i (x ∷ seeds) = elim (seed_by_id i seeds) [
  | some y ↦ some y
  | none ↦ if str_eq x.ref_id i then some x else none
]

-- `_with_review_override`
unfoldable pub with_review_override : Store → String → String → Seed → Seed
unfolding get_review_override
with_review_override s t i seed = elim (get_review_override t i s.overrides) [
  | none ↦ seed
  | some o ↦ record seed { review_status = some o.review_status }
]

abbrev review_statuses_rule : List String
review_statuses_rule =
    "machine_draft" ∷ "machine_extracted" ∷ "human_reviewed" ∷ "approved" ∷ "rejected" ∷ []

abbrev review_statuses_problem : List String
review_statuses_problem = "ai_draft" ∷ "expert_reviewed" ∷ "approved" ∷ "rejected" ∷ []

-- A seed by its key with the status of its review, or 404.
abbrev pub shown : Store → String → String → Option Seed → Answer Seed
shown s t i none = http_error 404
shown s t i (some seed) = ok (with_review_override s t i seed)

module _ (rules problems : List Seed) where
  unfoldable pub get_problem : Store → String → Answer Seed
  unfolding seed_by_id with_review_override
  get_problem s i = shown s "problem_intelligence" i (seed_by_id i problems)

  unfoldable pub get_evidence : Store → String → String → Answer Seed
  unfolding seed_by_id with_review_override
  get_evidence s t i =
      if str_eq t "decision_rule"
      then shown s t i (seed_by_id i rules)
      else if str_eq t "problem_intelligence"
      then shown s t i (seed_by_id i problems)
      else http_error 501

  -- The statuses that a kind of reference may have, and the seeds of that kind, where it is reviewable.
  unfoldable pub reviewable : String → Option (List String × List Seed)
  reviewable t =
      if str_eq t "decision_rule"
      then some (review_statuses_rule, rules)
      else if str_eq t "problem_intelligence"
      then some (review_statuses_problem, problems)
      else none

  abbrev is_found : Option Seed → Bool
  is_found none = false
  is_found (some _) = true

  -- The previous status. `is_ref_id` is the match with the pattern of ids.
  unfoldable pub update_review :
      (String → Bool)
      → String
      → String
      → String
      → Option String
      → Store
      → Answer (Option String) × Store
  unfolding seed_by_id reviewable upsert_review_override
  update_review is_ref_id t i status reviewer s =
      if not (is_ref_id i) then (http_error 422, s) else (elim (reviewable t) [
        | none ↦ (http_error 400, s)
        | some (allowed, seeds) ↦
            if not (mem_str status allowed)
            then (http_error 422, s)
            else if not (is_found (seed_by_id i seeds))
            then (http_error 404, s)
            else (let (previous, row, rows) =
                  upsert_review_override t i status reviewer s.overrides in
                (ok previous, record s { overrides = rows }))
      ])
