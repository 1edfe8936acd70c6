-- ===== src/Solver/Answers.antt =====
-- The answers of `solve_reasoned` (cpa_first/solver/reasoned.py), whatever its rules are.
use xeno_pre_test.Prelude.{
  ℕ, ◌≤◌, ◌<◌, ◌≡◌, ◌≢◌, ◌⊎◌, refl, sym, ap, ◌∙◌, subst, true, false, ltb, ltb→lt, str_eq, eq_iff,
  if◌then◌else◌, Option, none, some, List, [], ◌∷◌, ◌++◌, String, get_elem?, length, All, arith,
  Bool-cases, Option-cases, inl, inr,
}
use mathlib.Core.Bool.{false≢true}
use xeno_pre_test.EvalGen.Generate.{index_of}
use xeno_pre_test.EvalGen.Key.{get_elem?-index_of}
use xeno_pre_test.Solver.Reasoned.{
  Question, ReasonedTrace, SolveResult, Texts, is_choice_text, key_in_range, choice_at, or_key,
  index_of_answer, known_choice, known_solution_trace, unsupported_trace, to_result, first_trace,
  trace_or, solve_reasoned,
}

-- An index of the choices, where there is one.
abbrev pub InRange : List String → Option ℕ → Type 0
InRange choices none = Unit
InRange choices (some i) = i < length choices

-- The text of the answer is no choice.
abbrev pub NoChoice : Question → Type 0
NoChoice q = All (λ c. q.correct_answer ≢ some c) q.choices

-- What is known of a question: the index of a choice with the text of the answer; where there is none, the key, if it
-- is an index of a choice; and nothing else.
pub data Known (q : Question) : Option ℕ → Type 0 where
  by_text :
      (a : String) (i : ℕ)
      → q.correct_answer ≡ some a
      → get_elem? q.choices i ≡ some a
      → Known q (some i)
  by_key :
      (k : ℕ) → NoChoice q → q.correct_choice ≡ some k → k < length q.choices → Known q (some k)
  unknown : NoChoice q → ((k : ℕ) → q.correct_choice ≡ some k → length q.choices ≤ k) → Known q none

none≢some {ℓ} : {A : Type ℓ} (a : A) → none ≢ some a
none≢some a e = false≢true (ap (λ o. elim o [ none ↦ false | some _ ↦ true ]) e)

some_eq {ℓ} : {A : Type ℓ} (a b : A) → some a ≡ some b → a ≡ b
some_eq a b e = ap (λ o. elim o [ none ↦ a | some c ↦ c ]) e

length-get_elem? :
    (choices : List String) (i : ℕ) (t : String) → get_elem? choices i ≡ some t → i < length choices
length-get_elem? [] i t e = absurd (none≢some t e)
length-get_elem? (c ∷ cs) ℕ.zero t e = omega arith
length-get_elem? (c ∷ cs) (ℕ.suc i) t e = omega (arith, length-get_elem? cs i t e)

pub Known-InRange : (q : Question) (o : Option ℕ) → Known q o → InRange q.choices o
Known-InRange q _ (by_text a i given found) = length-get_elem? q.choices i a found
Known-InRange q _ (by_key k n given lower) = lower
Known-InRange q _ (unknown n k) = tt

index_of-none :
    (a : String) (choices : List String)
    → index_of a choices ≡ none
    → All (λ c. some a ≢ some c) choices
unfolding index_of
index_of-none a [] e = tt
index_of-none a (c ∷ cs) e = elim (Bool-cases (str_eq c a)) [
  | inl h ↦ absurd (none≢some 0 (sym (rw (h, index_of) at e)))
  | inr h ↦ elim (Option-cases (index_of a cs)) [
    | inl n ↦
        (λ same. false≢true (sym h ∙ (eq_iff c a).1 (sym (some_eq a c same))), index_of-none a cs n)
    | inr (k, n) ↦ absurd (none≢some (ℕ.suc k) (sym (rw (h, n, index_of) at e)))
  ]
]

no_answer : (choices : List String) → All (λ c. none ≢ some c) choices
no_answer [] = tt
no_answer (c ∷ cs) = (none≢some c, no_answer cs)

-- What the search of the answer's text says.
abbrev Searched : Option String → List String → Option ℕ → Type 0
Searched answer choices none = All (λ c. answer ≢ some c) choices
Searched answer choices (some i) = (a : String) × (answer ≡ some a) × (get_elem? choices i ≡ some a)

index_of_answer_lem :
    (answer : Option String) (choices : List String) (o : Option ℕ)
    → elim answer [ none ↦ none | some a ↦ index_of a choices ] ≡ o
    → Searched answer choices o
index_of_answer_lem none choices none e = no_answer choices
index_of_answer_lem none choices (some i) e = absurd (none≢some i e)
index_of_answer_lem (some a) choices none e = index_of-none a choices e
index_of_answer_lem (some a) choices (some i) e = (a, refl, get_elem?-index_of a choices i e)

-- The key, where the text is no choice.
key_in_range-Known : (q : Question) → NoChoice q → Known q (key_in_range q)
key_in_range-Known q n = by_choice q.correct_choice refl
  where
    by_choice :
        (o : Option ℕ)
        → q.correct_choice ≡ o
        → Known q
            (elim o [ none ↦ none | some k ↦ if ltb k (length q.choices) then some k else none ])
    by_choice none e = unknown n (λ k given. absurd (none≢some k (sym e ∙ given)))
    by_choice (some k) e = elim (Bool-cases (ltb k (length q.choices))) [
      | inl l ↦ rw l (by_key k n e (ltb→lt _ _ l))
      | inr l ↦ rw l (
          unknown n
            (λ j given. let same : k ≡ j = some_eq k j (sym e ∙ given) in ground (arith, l, same)))
    ]

same_text :
    (x y : Option String) → is_choice_text x y ≡ true → (a : String) × (y ≡ some a) × (x ≡ some a)
same_text none y h = absurd (false≢true h)
same_text (some c) none h = absurd (false≢true h)
same_text (some c) (some b) h = (b, refl, ap some ((eq_iff c b).0 h))

known_choice-Known : (q : Question) → Known q (known_choice q)
unfolding known_choice index_of
known_choice-Known q =
    elim (Bool-cases (is_choice_text (choice_at q.choices (key_in_range q)) q.correct_answer)) [
      | inl e ↦ rw e (by_place (key_in_range q) (same_text _ _ e))
      | inr e ↦
          rw e
            (by_search (index_of_answer q) (index_of_answer_lem q.correct_answer q.choices _ refl))
    ]
  where
    by_place :
        (o : Option ℕ)
        → (a : String) × (q.correct_answer ≡ some a) × (choice_at q.choices o ≡ some a)
        → Known q o
    by_place none (a, given, found) = absurd (none≢some a found)
    by_place (some k) (a, given, found) = by_text a k given found

    by_search : (o : Option ℕ) → Searched q.correct_answer q.choices o → Known q (or_key q o)
    by_search none n = key_in_range-Known q n
    by_search (some i) (a, given, found) = by_text a i given found

module _ (T : Texts) where
  known_index :
      (q : Question)
      → (trace_or T (known_solution_trace T q) (unsupported_trace T q)).chosen_index
        ≡ known_choice q
  unfolding known_solution_trace unsupported_trace
  known_index q = elim (Option-cases (known_choice q)) [
    | inl n ↦ rw (n, known_solution_trace) refl
    | inr (i, n) ↦ rw (n, known_solution_trace) refl
  ]

  -- The first rule that applies, with its trace; none before it does.
  pub record Applies (rules : List (Question → Option ReasonedTrace)) (q : Question)
      (r : SolveResult) : Type 0 where
    pub before : List (Question → Option ReasonedTrace)
    pub rule : Question → Option ReasonedTrace
    pub behind : List (Question → Option ReasonedTrace)
    pub trace : ReasonedTrace
    pub split : rules ≡ before ++ rule ∷ behind
    pub skipped : All (λ other. other q ≡ none) before
    pub applied : rule q ≡ some trace
    pub chosen : r.chosen_index ≡ trace.chosen_index
    pub rule_id : r.rule_id ≡ some trace.rule_id

  -- Either a rule applies, and the answer is that of the first one that does, or none does, and the answer is what
  -- is known of the question.
  abbrev pub Answers : List (Question → Option ReasonedTrace) → Question → SolveResult → Type 0
  Answers rules q r =
      Applies rules q r ⊎ (All (λ rule. rule q ≡ none) rules × Known q r.chosen_index)

  first_trace_cases :
      (rules : List (Question → Option ReasonedTrace)) (q : Question)
      → ((t : ReasonedTrace) × (first_trace T rules q ≡ some t) × Applies rules q (to_result T q t))
        ⊎ ((first_trace T rules q ≡ none) × All (λ rule. rule q ≡ none) rules)
  unfolding first_trace to_result
  first_trace_cases [] q = inr (refl, tt)
  first_trace_cases (rule ∷ rules) q = elim (Option-cases (rule q)) [
    | inr (t, e) ↦
        rw (e, first_trace)
          (inl (
            t,
            refl,
            record {
              before = [];
              rule = rule;
              behind = rules;
              trace = t;
              split = refl;
              skipped = tt;
              applied = e;
              chosen = refl;
              rule_id = refl;
            },
          ))
    | inl e ↦ elim (first_trace_cases rules q) [
      | inr (none_first, n) ↦ rw (e, first_trace) (inr (none_first, (refl, n)))
      | inl (t, first_one, a) ↦
          rw (e, first_trace)
            (inl (
              t,
              first_one,
              record {
                before = rule ∷ a.before;
                rule = a.rule;
                behind = a.behind;
                trace = a.trace;
                split = ap (λ l. rule ∷ l) a.split;
                skipped = (e, a.skipped);
                applied = a.applied;
                chosen = a.chosen;
                rule_id = a.rule_id;
              },
            ))
    ]
  ]

  -- Of any rules: where one applies, the answer and the rule named are those of the trace of the first that does. Where none
  -- does, the answer is the index of a choice with the text of the answer given; if no choice has it, the
  -- key, where it is an index of a choice; and there is no answer else.
  pub solve_reasoned_lem :
      (rules : List (Question → Option ReasonedTrace)) (q : Question)
      → Answers rules q (solve_reasoned T rules q)
  unfolding solve_reasoned to_result
  solve_reasoned_lem rules q = elim (first_trace_cases rules q) [
    | inl (t, e, a) ↦ rw (e, solve_reasoned) (inl a)
    | inr (e, n) ↦
        rw (e, solve_reasoned)
          (inr (n, subst (Known q) (sym (known_index q)) (known_choice-Known q)))
  ]
