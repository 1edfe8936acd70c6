-- ===== src/EvalGen/Checked.antt =====
-- What the cross check of `validate_question` (cpa_first/eval_gen/validator.py) decides.
use xeno_pre_test.Prelude.{
  ℕ, ◌≡◌, refl, sym, ap, subst, ◌∙◌, ◌↔◌, inl, inr, Bool, true, false, ==_iff, Option, none, some,
  [], ◌∷◌, ◌++◌, String, str_eq, Bool-cases, Option-cases,
}
use mathlib.Core.Bool.{false≢true}
use xeno_pre_test.Explain.Dict.{get, Value, text, number, texts, null, other, Dict}
use xeno_pre_test.EvalGen.Validate.{
  Reply, ValidationResult, first_result, target_of, agrees, Outcome, validated, key_error,
  cross_check_question, compared, validate_question, flag_if_questionable,
}

agrees_iff :
    (chosen : Option ℕ) (expected : Option Value)
    → (agrees chosen expected ≡ true) ↔ ((c : ℕ) × (chosen ≡ some c) × (expected ≡ some (number c)))
agrees_iff chosen expected =
    (forth chosen expected, λ (c, a, b). rw (a, b, agrees) ((==_iff c c).1 refl))
  where
    forth :
        (chosen : Option ℕ) (expected : Option Value)
        → agrees chosen expected ≡ true
        → (c : ℕ) × (chosen ≡ some c) × (expected ≡ some (number c))
    forth (some c) (some (number k)) e =
        (c, refl, ap (λ n. some (number n)) (sym ((==_iff c k).0 e)))
    forth none v e = absurd (false≢true e)
    forth (some c) none e = absurd (false≢true e)
    forth (some c) (some (text t)) e = absurd (false≢true e)
    forth (some c) (some (texts t)) e = absurd (false≢true e)
    forth (some c) (some null) e = absurd (false≢true e)
    forth (some c) (some (other t)) e = absurd (false≢true e)

-- The question is not flagged exactly when the model chose the key of the text that is adopted.
abbrev KeyConfirmed : Dict → ValidationResult → Type 0
KeyConfirmed question r = ((flag_if_questionable question r).1 ≡ false) ↔ (
    (c : ℕ) × (r.cross_check_chosen ≡ some (some c))
    × (get "correct_choice" (target_of question r.revised) ≡ some (number c)))

compared-KeyConfirmed :
    (cross_invoke : Dict → String) (answer_line : String → Option ℕ) (question : Dict)
    (r : ValidationResult) (chosen : Option ℕ)
    → KeyConfirmed question (
        compared cross_invoke answer_line r
          (get "correct_choice" (target_of question r.revised))
          chosen)
unfolding flag_if_questionable
compared-KeyConfirmed cross_invoke answer_line question r chosen =
    let key = get "correct_choice" (target_of question r.revised) in
    let (forth, back) = agrees_iff chosen key in
    elim (Bool-cases (agrees chosen key)) [
      | inl e ↦
          let step : compared cross_invoke answer_line r key chosen
              ≡ record r { cross_check_chosen = some chosen; cross_check_passed = some true } =
            rw (e, compared) refl in
          subst (KeyConfirmed question) (sym step)
            (λ f. (let (c, a, b) = forth e in (c, ap some a, b)), λ f. refl)
      | inr e ↦
          let step : compared cross_invoke answer_line r key chosen ≡ record r {
            cross_check_chosen = some chosen;
            cross_check_passed = some false;
            issues = r.issues ++ "cross_check_failed" ∷ [];
          } =
            rw (e, compared) refl in
          subst (KeyConfirmed question) (sym step) (
            λ f. absurd (false≢true (sym f)),
            λ (c, a, b). absurd (false≢true (sym e ∙ back (c, some_eq chosen (some c) a, b))),
          )
    ]
  where
    some_eq : (x y : Option ℕ) → some x ≡ some y → x ≡ y
    some_eq x y h = ap (λ o. elim o [ none ↦ x | some z ↦ z ]) h

validated_eq : (r t : ValidationResult) → validated r ≡ validated t → r ≡ t
validated_eq r t e = ap (λ o. elim o [ key_error ↦ r | validated x ↦ x ]) e

-- A question that was cross checked and not rejected stays without a flag exactly when the model, which did not
-- see the key, chose it: the key of the question with the revision, where there is one.
pub validate_question_lem :
    (cross_invoke : Dict → String) (answer_line : String → Option ℕ) (question : Dict)
    (reply : Option Reply) (r : ValidationResult)
    → validate_question cross_invoke answer_line true question reply ≡ validated r
    → str_eq r.verdict "reject" ≡ false
    → ((flag_if_questionable question r).1 ≡ false) ↔ (
        (c : ℕ) × (r.cross_check_chosen ≡ some (some c))
        × (get "correct_choice" (target_of question r.revised) ≡ some (number c)))
unfolding validate_question
validate_question_lem cross_invoke answer_line question reply r e v =
    let first = first_result reply in
    elim (Bool-cases (str_eq first.verdict "reject")) [
      | inl h ↦
          let same : first ≡ r = validated_eq first r (rw (h, validate_question) at e) in
          absurd (false≢true (sym v ∙ (subst (λ x. str_eq x.verdict "reject" ≡ true) same h)))
      | inr h ↦
          elim (Option-cases
            (cross_check_question cross_invoke answer_line (target_of question first.revised))) [
              | inl n ↦ absurd (false≢true (ap is_validated (rw (h, n, validate_question) at e)))
              | inr (chosen, n) ↦
                  subst (KeyConfirmed question)
                    (validated_eq _ r (rw (h, n, validate_question) at e))
                    (compared-KeyConfirmed cross_invoke answer_line question first chosen)
            ]
    ]
  where
    is_validated : Outcome → Bool
    is_validated (validated x) = true
    is_validated key_error = false
