-- ===== src/Solver/Range.antt =====
-- The choices that `Solver.solve` of cpa_first/solver/solver.py gives, and the attempts at a model's answer.
use xeno_pre_test.Prelude.{
  ℕ, ◌<◌, ◌≡◌, ◌⊎◌, sym, ap, ◌∙◌, subst, true, false, eq_iff, ◌++◌, ltb, ltb→lt, if◌then◌else◌,
  Option, none, some, List, [], ◌∷◌, All, String, str_eq, length, arith, Bool-cases, inl, inr,
}
use mathlib.Core.Bool.{false≢true}
use xeno_pre_test.Rag.Index.{TextTests}
use xeno_pre_test.Solver.Reasoned.{Question, ReasonedTrace, Texts, solve_reasoned}
use xeno_pre_test.Solver.Answers.{InRange, Known-InRange, solve_reasoned_lem}
use xeno_pre_test.Solver.Modes.{
  Attempt, Reply, replied, raised, Answered, solved, call_error, value_error, zero_division, Solver,
  LiveTexts, extract_answer_index, mock_of, solve_mock, reply_of, live_result, solve_live,
  solve_by_mode,
}

abbrev pub modes : List String
modes = "reasoned" ∷ "mock" ∷ "live" ∷ "stub" ∷ []

-- Of a solver's mode: an answer's index is that of a choice, if it has one; only a request, in the mode "live", may fail; and a
-- mode is refused only if it is none of the four.
abbrev pub AnswerInRange : String → List String → Answered → Type 0
AnswerInRange mode choices (solved r) = InRange choices r.chosen_index
AnswerInRange mode choices (call_error e) = mode ≡ "live"
AnswerInRange mode choices value_error = All (λ m. str_eq mode m ≡ false) modes
AnswerInRange mode choices zero_division = ⊥

module _ (L : LiveTexts) where
  extract_answer_index-InRange :
      (raw : String) (choices : List String)
      → InRange choices (extract_answer_index L raw (length choices))
  unfolding extract_answer_index
  extract_answer_index-InRange raw choices = by_found (L.find_answer raw)
    where
      by_found :
          (o : Option ℕ)
          → InRange choices
              (elim o [ none ↦ none | some i ↦ if ltb i (length choices) then some i else none ])
      by_found none = tt
      by_found (some i) = elim (Bool-cases (ltb i (length choices))) [
        | inl e ↦ rw e (ltb→lt _ _ e)
        | inr e ↦ rw e tt
      ]

  mock_of-InRange :
      (mode : String) (q : Question) (choices : List String)
      → 0 < length choices
      → AnswerInRange mode choices (mock_of L q choices)
  mock_of-InRange mode q [] h = omega (arith, h)
  mock_of-InRange mode q (c ∷ cs) h = omega arith

  module _ (R : TextTests) (client : String → String → ℕ → Attempt) where
    live_result-InRange :
        (s : Solver) (q : Question) (r : Reply)
        → s.mode ≡ "live"
        → AnswerInRange s.mode q.choices (live_result L R s q r)
    unfolding extract_answer_index
    live_result-InRange s q (raised e) h = h
    live_result-InRange s q (replied raw) h = extract_answer_index-InRange raw q.choices

    reasoned-InRange :
        (T : Texts) (rules : List (Question → Option ReasonedTrace)) (q : Question) (mode : String)
        → str_eq mode "reasoned" ≡ true
        → (str_eq mode "reasoned" ≡ false) ⊎ All (λ rule. rule q ≡ none) rules
        → InRange q.choices (solve_reasoned T rules q).chosen_index
    reasoned-InRange T rules q mode e (inl other) = absurd (false≢true (sym other ∙ e))
    reasoned-InRange T rules q mode e (inr n) = elim (solve_reasoned_lem T rules q) [
      | inl a ↦ absurd (
          no_rule a.before a.rule a.behind a.trace (subst (All (λ rule. rule q ≡ none)) a.split n)
            a.applied)
      | inr (m, known) ↦ Known-InRange q _ known
    ]
      where
        no_rule :
            (before : List (Question → Option ReasonedTrace))
            (rule : Question → Option ReasonedTrace)
            (behind : List (Question → Option ReasonedTrace)) (t : ReasonedTrace)
            → All (λ r. r q ≡ none) (before ++ rule ∷ behind)
            → rule q ≡ some t
            → ⊥
        no_rule [] rule behind t h applied =
            false≢true (ap (λ o. elim o [ none ↦ false | some _ ↦ true ]) (sym h.0 ∙ applied))
        no_rule (b ∷ before) rule behind t h applied = no_rule before rule behind t h.1 applied

    -- Of a question with a choice, where the mode is not "reasoned" or no rule applies to the question: a solver answers by
    -- the index of a choice, if at all; only a request, in the mode "live", may fail; and a mode is refused only if it
    -- is none of the four.
    pub solve_by_mode-InRange :
        (T : Texts) (rules : List (Question → Option ReasonedTrace)) (s : Solver) (q : Question)
        → (str_eq s.mode "reasoned" ≡ false) ⊎ All (λ rule. rule q ≡ none) rules
        → 0 < length q.choices
        → AnswerInRange s.mode q.choices (solve_by_mode L R T rules client s q)
    unfolding solve_by_mode solve_mock solve_live
    solve_by_mode-InRange T rules s q h some_choice = elim (Bool-cases (str_eq s.mode "reasoned")) [
      | inl e ↦ rw e (reasoned-InRange T rules q s.mode e h)
      | inr e ↦ elim (Bool-cases (str_eq s.mode "mock")) [
        | inl m ↦ rw (e, m) (mock_of-InRange s.mode q q.choices some_choice)
        | inr m ↦ elim (Bool-cases (str_eq s.mode "live")) [
          | inl l ↦
              rw (e, m)
                (rw l
                  (live_result-InRange s q (reply_of L R client s q) ((eq_iff s.mode "live").0 l)))
          | inr l ↦ elim (Bool-cases (str_eq s.mode "stub")) [
            | inl b ↦ rw (e, m) (rw (l, b) some_choice)
            | inr b ↦ rw (e, m) (rw (l, b) (e, (m, (l, (b, tt)))))
          ]
        ]
      ]
    ]
