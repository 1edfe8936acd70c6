-- ===== src/Explain/Batch.antt =====
-- The loop that `run_batch` of cpa_first/explain_gen/generator.py, `run_judge_batch` of judge.py and
-- `run_tutorial_judge_batch` of tutorial_judge.py share: one record is written for each item, a file that
-- exists is a checkpoint, and five failures of the backend in a row stop the batch.
-- The files are a list of paths and records, the newest first. `work n` is the work of the batch's n-th call;
-- it gives no record where the backend fails.
use xeno_pre_test.Prelude.{
  ℕ, suc, Bool, true, false, ◌&&◌, Option, none, some, List, [], ◌∷◌, String, leb, if◌then◌else◌,
  str_eq,
}
use xeno_pre_test.Explain.Dict.{has}

-- `counts`: a dict of numbers.
abbrev pub Counts : Type 0
Counts = List (String × ℕ)

-- `counts.get(k, 0)`
abbrev pub count_of : String → Counts → ℕ
count_of k [] = 0
count_of k ((j, n) ∷ c) = if str_eq k j then n else count_of k c

-- `counts[k] = counts.get(k, 0) + 1`
unfoldable pub bump : String → Counts → Counts
bump k [] = (k, 1) ∷ []
bump k ((j, n) ∷ c) = if str_eq k j then (j, suc n) ∷ c else (j, n) ∷ bump k c

pub record Batch {ℓ} (R : Type ℓ) : Type ℓ where
  pub files : List (String × R)
  pub counts : Counts
  pub failures : ℕ
  pub calls : ℕ

module _ {κ} {R : Type κ} where
  abbrev pub skipped : Batch R → Batch R
  unfolding bump
  skipped s = record {
    files = s.files;
    counts = bump "skipped_existing" s.counts;
    failures = s.failures;
    calls = s.calls;
  }

  abbrev pub failed : Batch R → Batch R
  unfolding bump
  failed s = record {
    files = s.files;
    counts = bump "backend_error" s.counts;
    failures = suc s.failures;
    calls = suc s.calls;
  }

  abbrev pub saved : String → String → R → Batch R → Batch R
  unfolding bump
  saved path label r s = record {
    files = (path, r) ∷ s.files;
    counts = bump label s.counts;
    failures = 0;
    calls = suc s.calls;
  }

module _ {ℓ κ} {Q : Type ℓ} {R : Type κ} (path_of : Q → String) (label : R → String)
    (skip_existing : Bool) (work : ℕ → Q → Option R) where
  unfoldable pub run_items : List Q → Batch R → Batch R
  unfolding bump
  run_items [] s = s
  run_items (q ∷ qs) s = elim (skip_existing && has (path_of q) s.files) [
    | true ↦ run_items qs (skipped s)
    | false ↦ elim (work s.calls q) [
      | none ↦ elim (leb 5 (suc s.failures)) [ true ↦ failed s | false ↦ run_items qs (failed s) ]
      | some r ↦ run_items qs (saved (path_of q) (label r) r s)
    ]
  ]

  -- The batch on the files there are: the files after, and the counts that it returns.
  unfoldable pub run_batch : List Q → List (String × R) → Batch R
  unfolding run_items
  run_batch qs files =
      run_items qs
        record { files = files; counts = ("skipped_existing", 0) ∷ []; failures = 0; calls = 0 }
