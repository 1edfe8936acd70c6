-- ===== src/Explain/Checkpoint.antt =====
-- What a batch of cpa_first/explain_gen leaves behind for the next one.
use xeno_pre_test.Prelude.{
  ℕ, suc, ◌+◌, ◌≡◌, refl, sym, ◌∙◌, subst, true, false, Option, some, inl, inr, List, [], ◌∷◌,
  String, str_eq, eq_iff, eq_refl, leb, length, All, arith, Bool-cases, Option-cases,
}
use mathlib.Core.Bool.{false≢true}
use xeno_pre_test.Explain.Dict.{get, has}
use xeno_pre_test.Explain.Batch.{
  Counts, count_of, bump, Batch, skipped, failed, saved, run_items, run_batch,
}

module _ {ℓ} {A : Type ℓ} where
  has-get :
      (p : String) (a : A) (files : List (String × A)) → get p files ≡ some a → has p files ≡ true
  has-get p a [] e = absurd (ground arith)
  has-get p a ((u, c) ∷ files) e = ground (arith, has-get p a files)

  get_new :
      (p q : String) (a b : A) (files : List (String × A))
      → get p files ≡ some a
      → has q files ≡ false
      → get p ((q, b) ∷ files) ≡ some a
  get_new p q a b files e h = elim (Bool-cases (str_eq p q)) [
    | inl s ↦
        let same : p ≡ q = (eq_iff p q).0 s in
        let stored : has q files ≡ true =
          subst (λ x. has x files ≡ true) same (has-get p a files e) in
        absurd (false≢true (sym h ∙ stored))
    | inr s ↦ rw s e
  ]

count_of-bump : (k : String) (c : Counts) → count_of k (bump k c) ≡ suc (count_of k c)
unfolding bump
count_of-bump k [] = rw (eq_refl k) refl
count_of-bump k ((j, n) ∷ c) = ground (arith, count_of-bump k c)

module _ {ℓ κ} {Q : Type ℓ} {R : Type κ} (path_of : Q → String) (label : R → String) where
  run_items_keeps :
      (work : ℕ → Q → Option R) (qs : List Q) (s : Batch R) (p : String) (r : R)
      → get p s.files ≡ some r
      → get p (run_items path_of label true work qs s).files ≡ some r
  unfolding run_items
  run_items_keeps work [] s p r e = e
  run_items_keeps work (q ∷ qs) s p r e = elim (Bool-cases (has (path_of q) s.files)) [
    | inl h ↦ rw (h, run_items) (run_items_keeps work qs (skipped s) p r e)
    | inr h ↦ elim (Option-cases (work s.calls q)) [
      | inl w ↦ elim (Bool-cases (leb 5 (suc s.failures))) [
        | inl five ↦ rw (h, run_items, w, five) e
        | inr five ↦ rw (h, run_items, w, five) (run_items_keeps work qs (failed s) p r e)
      ]
      | inr (b, w) ↦
          rw (h, run_items, w)
            (run_items_keeps work qs (saved (path_of q) (label b) b s) p r
              (get_new p (path_of q) r b s.files e h))
    ]
  ]

  abbrev AllExist : List Q → List (String × R) → Type 0
  AllExist qs files = All (λ q. has (path_of q) files ≡ true) qs

  run_items-has :
      (work : ℕ → Q → Option R) (qs : List Q) (s : Batch R) (p : String)
      → has p s.files ≡ true
      → has p (run_items path_of label true work qs s).files ≡ true
  unfolding run_items
  run_items-has work [] s p e = e
  run_items-has work (q ∷ qs) s p e = elim (Bool-cases (has (path_of q) s.files)) [
    | inl h ↦ rw (h, run_items) (run_items-has work qs (skipped s) p e)
    | inr h ↦ elim (Option-cases (work s.calls q)) [
      | inl w ↦ elim (Bool-cases (leb 5 (suc s.failures))) [
        | inl five ↦ rw (h, run_items, w, five) e
        | inr five ↦ rw (h, run_items, w, five) (run_items-has work qs (failed s) p e)
      ]
      | inr (b, w) ↦
          rw (h, run_items, w)
            (run_items-has work qs (saved (path_of q) (label b) b s) p (ground (arith, e)))
    ]
  ]

  run_items-AllExist :
      (work : ℕ → Q → Option R) (qs : List Q) (s : Batch R)
      → ((n : ℕ) (q : Q) → (r : R) × (work n q ≡ some r))
      → AllExist qs (run_items path_of label true work qs s).files
  unfolding run_items
  run_items-AllExist work [] s up = tt
  run_items-AllExist work (q ∷ qs) s up = elim (Bool-cases (has (path_of q) s.files)) [
    | inl h ↦
        let step : run_items path_of label true work (q ∷ qs) s
            ≡ run_items path_of label true work qs (skipped s) =
          rw (h, run_items) refl in
        subst (λ b. AllExist (q ∷ qs) b.files) (sym step)
          (
            run_items-has work qs (skipped s) (path_of q) h,
            run_items-AllExist work qs (skipped s) up,
          )
    | inr h ↦
        let (r, w) = up s.calls q in
        let next = saved (path_of q) (label r) r s in
        let step : run_items path_of label true work (q ∷ qs) s
            ≡ run_items path_of label true work qs next =
          rw (h, run_items, w) refl in
        subst (λ b. AllExist (q ∷ qs) b.files) (sym step)
          (
            run_items-has work qs next (path_of q) (ground (arith, eq_refl (path_of q))),
            run_items-AllExist work qs next up,
          )
  ]

  run_items_done :
      (work : ℕ → Q → Option R) (qs : List Q) (s : Batch R)
      → AllExist qs s.files
      → let after = run_items path_of label true work qs s in
        (after.files ≡ s.files)
        × (after.calls ≡ s.calls)
        × (count_of "skipped_existing" after.counts
            ≡ count_of "skipped_existing" s.counts + length qs)
  unfolding run_items
  run_items_done work [] s h = (refl, refl, omega arith)
  run_items_done work (q ∷ qs) s (here, h) =
      let (f, c, n) = run_items_done work qs (skipped s) h in
      rw (here, run_items) (f, c, omega (arith, n, count_of-bump "skipped_existing" s.counts))

  -- A batch on a backend that answers every call leaves a record of each item, whatever was there. After it,
  -- another batch of the items, on any backend, makes no call, writes no file and counts each item as skipped.
  pub run_batch-again :
      (work next : ℕ → Q → Option R) (qs : List Q) (files : List (String × R))
      → ((n : ℕ) (q : Q) → (r : R) × (work n q ≡ some r))
      → let done = (run_batch path_of label true work qs files).files in
        let again = run_batch path_of label true next qs done in
        All (λ q. has (path_of q) done ≡ true) qs
        × (again.files ≡ done)
        × (again.calls ≡ 0)
        × (count_of "skipped_existing" again.counts ≡ length qs)
  unfolding run_batch
  run_batch-again work next qs files up =
      let start : List (String × R) → Batch R = λ fs. record {
        files = fs;
        counts = ("skipped_existing", 0) ∷ [];
        failures = 0;
        calls = 0;
      } in
      let done = run_items-AllExist work qs (start files) up in
      let (same, calls, counted) =
        run_items_done next qs (start (run_items path_of label true work qs (start files)).files)
          done in
      (done, same, calls, counted ∙ omega arith)

  -- A file that a batch finds is as it was after the batch, whatever the backend does.
  pub run_batch_keeps :
      (work : ℕ → Q → Option R) (qs : List Q) (files : List (String × R)) (p : String) (r : R)
      → get p files ≡ some r
      → get p (run_batch path_of label true work qs files).files ≡ some r
  unfolding run_batch
  run_batch_keeps work qs files p r e = run_items_keeps work qs _ p r e
