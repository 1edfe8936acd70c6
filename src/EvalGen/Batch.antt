-- ===== src/EvalGen/Batch.antt =====
-- What `generate_batch` of cpa_first/eval_gen/generator.py gives.
use xeno_pre_test.Prelude.{
  ℕ, zero, suc, ◌≡◌, refl, Bool, true, false, if◌then◌else◌, Option, none, some, List, [], ◌∷◌,
  String, All,
}
use xeno_pre_test.Explain.Dict.{Value, Dict}
use xeno_pre_test.EvalGen.Generate.{
  BatchSpec, Reconciled, matched, unverified, repaired, dropped, reconcile_correct_choice, hydrate,
  keep_questions, generate_batch,
}
use xeno_pre_test.EvalGen.Key.{
  AnswerKeyed, kept, reconcile_correct_choice-AnswerKeyed, hydrate-AnswerKeyed,
}

module _ (norm : String → String) (norm_value : Value → String) where
  abbrev Keyed : Dict → Type 0
  Keyed = AnswerKeyed norm norm_value

  kept_or_not :
      (spec : BatchSpec) (x : Reconciled) (rest : List Dict)
      → ((r : Dict) → kept norm norm_value x ≡ some r → Keyed r)
      → All Keyed rest
      → All Keyed (elim x [
        | matched r ↦ hydrate spec r ∷ rest
        | unverified r ↦ hydrate spec r ∷ rest
        | repaired r ↦ hydrate spec r ∷ rest
        | dropped ↦ rest
      ])
  kept_or_not spec (matched r) rest h k = (hydrate-AnswerKeyed norm norm_value spec r (h r refl), k)
  kept_or_not spec (unverified r) rest h k =
      (hydrate-AnswerKeyed norm norm_value spec r (h r refl), k)
  kept_or_not spec (repaired r) rest h k =
      (hydrate-AnswerKeyed norm norm_value spec r (h r refl), k)
  kept_or_not spec dropped rest h k = k

  if_kept :
      (b : Bool) (xs ys : List Dict)
      → All Keyed xs
      → All Keyed ys
      → All Keyed (if b then xs else ys)
  if_kept true xs ys h k = h
  if_kept false xs ys h k = k

  keep_questions-Keyed :
      (spec : BatchSpec) (qs : List Dict) → All Keyed (keep_questions norm norm_value spec qs)
  unfolding keep_questions
  keep_questions-Keyed spec [] = tt
  keep_questions-Keyed spec (q ∷ qs) =
      let rest = keep_questions-Keyed spec qs in
      if_kept _ _ _
        (kept_or_not spec (reconcile_correct_choice norm norm_value q) _
          (reconcile_correct_choice-AnswerKeyed norm norm_value q) rest)
        rest

  -- Each question of a batch that has an answer that is not null has as its key the index of a choice whose
  -- text is that of the answer, whatever the model replies in any attempt.
  pub generate_batch-AnswerKeyed :
      (spec : BatchSpec) (reply : ℕ → Option (List Dict)) (attempts n : ℕ)
      → All (AnswerKeyed norm norm_value) (generate_batch norm norm_value spec reply attempts n)
  unfolding generate_batch
  generate_batch-AnswerKeyed spec reply zero n = tt
  generate_batch-AnswerKeyed spec reply (suc attempts) n =
      let rest = generate_batch-AnswerKeyed spec reply attempts (suc n) in by_reply (reply n) rest
    where
      or_rest :
          (ks rest : List Dict)
          → All Keyed ks
          → All Keyed rest
          → All Keyed (elim ks [ [] ↦ rest | k ∷ others ↦ k ∷ others ])
      or_rest [] rest h k = k
      or_rest (x ∷ xs) rest h k = h

      by_reply :
          (o : Option (List Dict))
          → All Keyed (generate_batch norm norm_value spec reply attempts (suc n))
          → All Keyed (elim o [
            | none ↦ generate_batch norm norm_value spec reply attempts (suc n)
            | some qs ↦ elim (keep_questions norm norm_value spec qs) [
              | [] ↦ generate_batch norm norm_value spec reply attempts (suc n)
              | k ∷ ks ↦ k ∷ ks
            ]
          ])
      by_reply none h = h
      by_reply (some qs) h =
          or_rest (keep_questions norm norm_value spec qs) _ (keep_questions-Keyed spec qs) h
