-- ===== src/Solver/Retry.antt =====
-- The attempts of `_call_anthropic` in cpa_first/solver/solver.py.
use xeno_pre_test.Prelude.{
  ℕ, zero, suc, ◌+◌, ◌≤◌, ◌<◌, ◌≡◌, refl, sym, ap, ◌∙◌, subst, List, String, Option, arith,
  Bool-cases, ◌==◌, ==_iff, inl, inr,
}
use xeno_pre_test.Solver.Modes.{
  Attempt, responded, retriable, failed, Reply, replied, raised, text_parts, LiveTexts, attempt,
  attempts_from, call_anthropic,
}

-- How the loop ends at the attempt `i`: with its texts, with its error where another attempt would not mend it, or with
-- that of the last attempt.
pub data Ending (L : LiveTexts) (last i : ℕ) : Attempt → Reply → Type 0 where
  with_texts :
      (blocks : List (Option String))
      → Ending L last i (responded blocks) (replied (L.join (text_parts blocks)))
  with_failure : (e : String) → Ending L last i (failed e) (raised e)
  with_last : (e : String) → i ≡ last → Ending L last i (retriable e) (raised e)

-- An attempt that failed in a way that another one may mend.
abbrev pub IsRetried : Attempt → Type 0
IsRetried (responded blocks) = ⊥
IsRetried (retriable e) = Unit
IsRetried (failed e) = ⊥

module _ (L : LiveTexts) (client : ℕ → Attempt) where
  -- The loop from `first` ends at some attempt, and those before it were retried.
  pub record Ends (first last : ℕ) (r : Reply) : Type 0 where
    pub at : ℕ
    pub not_before : first ≤ at
    pub not_after : at ≤ last
    pub ending : Ending L last at (client at) r
    pub retried : (j : ℕ) → first ≤ j → j < at → IsRetried (client j)

  last-Ending : (last : ℕ) (a : Attempt) → Ending L last last a (attempt L a (λ e. raised e))
  last-Ending last (responded blocks) = with_texts blocks
  last-Ending last (retriable e) = with_last e refl
  last-Ending last (failed e) = with_failure e

  attempts_from-Ends :
      (first behind last : ℕ)
      → first + behind ≡ last
      → Ends first last (attempts_from L client first behind)
  unfolding attempts_from
  attempts_from-Ends first zero last h = record {
    at = first;
    not_before = omega arith;
    not_after = omega (arith, h);
    ending =
        subst (λ n. Ending L n first (client first) (attempt L (client first) (λ e. raised e)))
          (omega (arith, h)) (last-Ending first (client first));
    retried = λ j lower upper. absurd (omega (arith, lower, upper));
  }
  attempts_from-Ends first (suc behind) last h =
      by_attempt (client first) refl (attempts_from-Ends (suc first) behind last (omega (arith, h)))
    where
      now :
          (a : Attempt) (r : Reply) → client first ≡ a → Ending L last first a r → Ends first last r
      now a r e ending = record {
        at = first;
        not_before = omega arith;
        not_after = omega (arith, h);
        ending = subst (λ x. Ending L last first x r) (sym e) ending;
        retried = λ j lower upper. absurd (omega (arith, lower, upper));
      }

      by_attempt :
          (a : Attempt)
          → client first ≡ a
          → Ends (suc first) last (attempts_from L client (suc first) behind)
          → Ends first last (attempt L a (λ e. attempts_from L client (suc first) behind))
      by_attempt (responded blocks) e later = now (responded blocks) _ e (with_texts blocks)
      by_attempt (failed f) e later = now (failed f) _ e (with_failure f)
      by_attempt (retriable f) e later = record {
        at = later.at;
        not_before = omega (arith, later.not_before);
        not_after = later.not_after;
        ending = later.ending;
        retried = λ j lower upper. elim (Bool-cases (j == first)) [
          | inl same ↦ subst IsRetried (sym (ap client ((==_iff j first).0 same) ∙ e)) tt
          | inr other ↦ later.retried j (ground (arith, other, lower)) upper
        ];
      }

  -- Of three attempts at most, the call ends at the first that answers, with its texts, or that fails in a way that
  -- no other attempt mends, with its error; after three that another might mend it raises the error of the last.
  pub call_anthropic-Ends : Ends 0 2 (call_anthropic L client)
  unfolding call_anthropic
  call_anthropic-Ends = attempts_from-Ends 0 2 2 refl
