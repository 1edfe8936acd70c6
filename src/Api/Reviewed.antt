-- ===== src/Api/Reviewed.antt =====
-- What `update_review` of cpa_first/api/main.py changes of what `get_evidence` shows.
use xeno_pre_test.Prelude.{
  ◌≡◌, refl, sym, ap, ◌∙◌, Bool, true, false, ◌&&◌, Option, none, some, List, [], ◌∷◌, String,
  str_eq, eq_iff, mem_str, arith, Bool-cases, Option-cases, inl, inr,
}
use mathlib.Core.Bool.{false≢true}
use xeno_pre_test.Records.Overrides.{
  ReviewOverride, get_review_override, upsert_review_override, upsert_review_override_lem,
}
use xeno_pre_test.Api.Model.{ok, is_ok, Store}
use xeno_pre_test.Api.Review.{
  Seed, seed_by_id, with_review_override, shown, get_evidence, reviewable, update_review,
}

seed_by_id-ref_id :
    (i : String) (seeds : List Seed) (x : Seed) → seed_by_id i seeds ≡ some x → x.ref_id ≡ i
unfolding seed_by_id
seed_by_id-ref_id i [] x e = absurd (ground arith)
seed_by_id-ref_id i (y ∷ seeds) x e = elim (Option-cases (seed_by_id i seeds)) [
  | inr (z, h) ↦ seed_by_id-ref_id i seeds x (h ∙ (rw (h, seed_by_id) at e))
  | inl h ↦ elim (Bool-cases (str_eq y.ref_id i)) [
    | inl t ↦
        let same : y ≡ x =
          ap (λ o. elim o [ none ↦ y | some z ↦ z ]) (rw (h, t, seed_by_id) at e) in
        ap (λ z. z.ref_id) (sym same) ∙ (eq_iff y.ref_id i).0 t
    | inr t ↦ absurd (false≢true (ap is_seed (rw (h, t, seed_by_id) at e)))
  ]
]
  where
    is_seed : Option Seed → Bool
    is_seed none = false
    is_seed (some _) = true

with_review_override-some :
    (s : Store) (t i : String) (x : Seed) (o : ReviewOverride)
    → get_review_override t i s.overrides ≡ some o
    → with_review_override s t i x ≡ record x { review_status = some o.review_status }
unfolding with_review_override
with_review_override-some s t i x o e = rw (e, with_review_override) refl

shown_same :
    (s after : Store) (t i : String) (o : Option Seed)
    → get_review_override t i after.overrides ≡ get_review_override t i s.overrides
    → shown after t i o ≡ shown s t i o
unfolding with_review_override
shown_same s after t i none e = refl
shown_same s after t i (some x) e = rw (e, with_review_override) refl

module _ (rules problems : List Seed) where
  abbrev seeds_of : Option (List String × List Seed) → List Seed
  seeds_of none = rules
  seeds_of (some (allowed, seeds)) = seeds

  abbrev is_kind : Option (List String × List Seed) → Bool
  is_kind none = false
  is_kind (some _) = true

  get_evidence-shown :
      (s : Store) (t i : String) (allowed : List String) (seeds : List Seed)
      → reviewable rules problems t ≡ some (allowed, seeds)
      → get_evidence rules problems s t i ≡ shown s t i (seed_by_id i seeds)
  unfolding reviewable get_evidence
  get_evidence-shown s t i allowed seeds e = elim (Bool-cases (str_eq t "decision_rule")) [
    | inl d ↦
        let same : rules ≡ seeds = ap seeds_of (rw (d, reviewable) at e) in
        rw (d, get_evidence) (ap (λ xs. shown s t i (seed_by_id i xs)) same)
    | inr d ↦ elim (Bool-cases (str_eq t "problem_intelligence")) [
      | inl p ↦
          let same : problems ≡ seeds = ap seeds_of (rw (d, p, reviewable) at e) in
          rw (d, p, get_evidence) (ap (λ xs. shown s t i (seed_by_id i xs)) same)
      | inr p ↦ absurd (false≢true (ap is_kind (rw (d, p, reviewable) at e)))
    ]
  ]

  -- What an ok answer to a review has found and written.
  update_review-ok :
      (is_ref_id : String → Bool) (t i status : String) (reviewer previous : Option String)
      (s after : Store)
      → update_review rules problems is_ref_id t i status reviewer s ≡ (ok previous, after)
      → (allowed : List String) × (seeds : List Seed) × (x : Seed) × (reviewable rules problems t
          ≡ some (allowed, seeds))
        × (seed_by_id i seeds ≡ some x)
        × (after.overrides ≡ (upsert_review_override t i status reviewer s.overrides).2)
  unfolding update_review
  update_review-ok is_ref_id t i status reviewer previous s after e =
      elim (Bool-cases (is_ref_id i)) [
        | inr r ↦ absurd (false≢true (ap is_ok (rw (r, update_review) at e)))
        | inl r ↦ elim (Option-cases (reviewable rules problems t)) [
          | inl n ↦ absurd (false≢true (ap is_ok (rw (r, n, update_review) at e)))
          | inr ((allowed, seeds), n) ↦ elim (Bool-cases (mem_str status allowed)) [
            | inr a ↦ absurd (false≢true (ap is_ok (rw (r, n, a, update_review) at e)))
            | inl a ↦ elim (Option-cases (seed_by_id i seeds)) [
              | inl f ↦ absurd (false≢true (ap is_ok (rw (r, n, a, f, update_review) at e)))
              | inr (x, f) ↦ (
                allowed,
                seeds,
                x,
                n,
                f,
                sym (ap (λ y. y.1.overrides) (rw (r, n, a, f, update_review) at e)),
              )
            ]
          ]
        ]
      ]

  get_evidence_same :
      (s after : Store) (t i : String)
      → get_review_override t i after.overrides ≡ get_review_override t i s.overrides
      → get_evidence rules problems after t i ≡ get_evidence rules problems s t i
  unfolding get_evidence
  get_evidence_same s after t i e = elim (Bool-cases (str_eq t "decision_rule")) [
    | inl d ↦ rw (d, get_evidence) (shown_same s after t i (seed_by_id i rules) e)
    | inr d ↦ elim (Bool-cases (str_eq t "problem_intelligence")) [
      | inl p ↦ rw (d, p, get_evidence) (shown_same s after t i (seed_by_id i problems) e)
      | inr p ↦ rw (d, p, get_evidence) refl
    ]
  ]

  -- After an ok review of a rule or a problem, it is shown with the status given, and each other reference is
  -- shown as it was.
  pub update_review_shown :
      (is_ref_id : String → Bool) (t i status t' i' : String) (reviewer previous : Option String)
      (s after : Store)
      → update_review rules problems is_ref_id t i status reviewer s ≡ (ok previous, after)
      → (str_eq t t' && str_eq i i') ≡ false
      → ((x : Seed) × (get_evidence rules problems after t i ≡ ok x)
          × (x.ref_id ≡ i)
          × (x.review_status ≡ some status))
        × (get_evidence rules problems after t' i' ≡ get_evidence rules problems s t' i')
  unfolding with_review_override
  update_review_shown is_ref_id t i status t' i' reviewer previous s after e differ =
      let (allowed, seeds, x, kind, found, rows) =
        update_review-ok is_ref_id t i status reviewer previous s after e in
      let (now, written, again, others) =
        upsert_review_override_lem t i status status reviewer t' i' s.overrides differ in
      let shown_now : with_review_override after t i x ≡ record x { review_status = some status } =
        with_review_override-some after t i x _ (ap (get_review_override t i) rows ∙ now)
        ∙ ap (λ r. record x { review_status = some r }) written in
      (
        (
          record x { review_status = some status },
          get_evidence-shown after t i allowed seeds kind
              ∙ ap (shown after t i) found
              ∙ ap ok shown_now,
          seed_by_id-ref_id i seeds x found,
          refl,
        ),
        get_evidence_same s after t' i' (ap (get_review_override t' i') rows ∙ others),
      )
