-- ===== src/Diagnosis/Verdict.antt =====
-- What `diagnose_problem_attempt` (cpa_first/engine/problem_diagnosis.py) answers.
use xeno_pre_test.Prelude.{
  ℕ, zero, suc, ◌≤◌, ◌<◌, ◌≡◌, ◌≢◌, refl, ◌↔◌, Bool, true, false, not, ◌==◌, ==_iff, ltb, ltb→lt,
  Option, none, some, List, [], ◌∷◌, String, str_eq, eq_iff, mem_str, first, get_elem?, take,
  length, length-take, arith, ap, ◌⊎◌, ◌++◌, All, Bool-cases, Option-cases, inl, inr,
}
use xeno_pre_test.Diagnosis.Attempt.{
  ℤ, pos, negsuc, Link, SolutionPath, ProblemMap, Action, concept_rebuild, speed_rebuild,
  advance_to_variant, next_action, Diagnosis, choice_out_of_range, diagnosed, is_negative,
  is_positive, is_slow, path_type_for, labels, tags_for, diagnosis_of, diagnose_problem_attempt,
}

in_range_item :
    (xs : List String) (k : ℕ) → k < length xs → (c : String) × (get_elem? xs k ≡ some c)
in_range_item [] k h = absurd (omega arith)
in_range_item (x ∷ xs) zero h = (x, refl)
in_range_item (x ∷ xs) (suc k) h = in_range_item xs k (omega arith)

out_of_range_item : (xs : List String) (k : ℕ) → length xs ≤ k → get_elem? xs k ≡ none
out_of_range_item [] k h = refl
out_of_range_item (x ∷ xs) zero h = absurd (omega arith)
out_of_range_item (x ∷ xs) (suc k) h = out_of_range_item xs k (omega arith)

length-labels : (ls : List Link) → length (labels ls) ≤ length ls
unfolding labels
length-labels [] = omega arith
length-labels (l ∷ ls) = elim (Option-cases l.concept_label) [
  | inl e ↦ rw e (omega (arith, length-labels ls))
  | inr (c, e) ↦ rw e (ground (arith, length-labels ls))
]

-- The first path of this type, or none where no path has it.
abbrev pub IsFirst : String → List SolutionPath → Option SolutionPath → Type 0
IsFirst t ps none = All (λ p. str_eq p.path_type t ≡ false) ps
IsFirst t ps (some p) =
    (p.path_type ≡ t)
    × ((before : List SolutionPath) × (behind : List SolutionPath) × (ps ≡ before ++ p ∷ behind)
        × All (λ q. str_eq q.path_type t ≡ false) before)

first-IsFirst :
    (t : String) (ps : List SolutionPath) → IsFirst t ps (first (λ p. str_eq p.path_type t) ps)
first-IsFirst t [] = tt
first-IsFirst t (p ∷ ps) = elim (Bool-cases (str_eq p.path_type t)) [
  | inl e ↦ rw e ((eq_iff p.path_type t).0 e, ([], ps, refl, tt))
  | inr e ↦ rw e (behind (first (λ q. str_eq q.path_type t) ps) e (first-IsFirst t ps))
]
  where
    behind :
        (found : Option SolutionPath)
        → str_eq p.path_type t ≡ false
        → IsFirst t ps found
        → IsFirst t (p ∷ ps) found
    behind none e h = (e, h)
    behind (some q) e (same, (before, rest, split, others)) =
        (same, (p ∷ before, rest, ap (λ l. p ∷ l) split, (e, others)))

-- Which result and time have which path.
abbrev pub PathOf : Bool → Bool → List SolutionPath → Option SolutionPath → Type 0
PathOf correct slow ps p =
    ((correct ≡ false) × IsFirst "choice_elimination" ps p)
    ⊎ (((correct ≡ true) × (slow ≡ true) × IsFirst "structure" ps p)
        ⊎ ((correct ≡ true) × (slow ≡ false) × IsFirst "reverse_check" ps p))

first-PathOf :
    (correct slow : Bool) (ps : List SolutionPath)
    → PathOf correct slow ps (first (λ p. str_eq p.path_type (path_type_for correct slow)) ps)
first-PathOf false slow ps = inl (refl, first-IsFirst "choice_elimination" ps)
first-PathOf true true ps = inr (inl (refl, refl, first-IsFirst "structure" ps))
first-PathOf true false ps = inr (inr (refl, refl, first-IsFirst "reverse_check" ps))

-- What the tags and the action say of a correct or wrong, slow or timely answer.
tags_lem :
    (correct slow : Bool)
    → (mem_str "time_pressure" (tags_for correct slow) ≡ slow)
      × (mem_str "concept_gap" (tags_for correct slow) ≡ not correct)
      × (mem_str "distractor_trap" (tags_for correct slow) ≡ not correct)
tags_lem true true = (refl, refl, refl)
tags_lem true false = (refl, refl, refl)
tags_lem false true = (refl, refl, refl)
tags_lem false false = (refl, refl, refl)

-- Which result and time have which action.
abbrev pub ActionOf : Bool → Bool → Action → Type 0
ActionOf correct slow a =
    ((a ≡ concept_rebuild) ↔ (correct ≡ false))
    × ((a ≡ speed_rebuild) ↔ (correct ≡ true) × (slow ≡ true))
    × ((a ≡ advance_to_variant) ↔ (correct ≡ true) × (slow ≡ false))

next_action-ActionOf : (correct slow : Bool) → ActionOf correct slow (next_action correct slow)
next_action-ActionOf true true = (
  (λ e. absurd (ground arith), λ e. absurd (ground arith)),
  (λ e. (refl, refl), λ e. refl),
  (λ e. absurd (ground arith), λ e. absurd (ground arith)),
)
next_action-ActionOf true false = (
  (λ e. absurd (ground arith), λ e. absurd (ground arith)),
  (λ e. absurd (ground arith), λ e. absurd (ground arith)),
  (λ e. (refl, refl), λ e. refl),
)
next_action-ActionOf false slow = (
  (λ e. refl, λ e. refl),
  (λ e. absurd (ground arith), λ e. absurd (ground arith)),
  (λ e. absurd (ground arith), λ e. absurd (ground arith)),
)

-- Where the selected and the correct choice are in range, the time, if there is one, is not negative and the
-- limit is positive, an attempt is diagnosed: it is correct exactly when the choices agree; it is tagged
-- with time pressure exactly when it took longer than the limit, and with a concept gap and with a
-- distractor trap exactly when it is wrong; the next action rebuilds the concept exactly when it is wrong,
-- rebuilds the speed exactly when it is correct and took longer than the limit, and is a variant exactly
-- when it is correct and did not; the path recommended is the first of the
-- map that eliminates choices where it is wrong, that gives the structure where it is correct and took longer,
-- that checks backwards else, and none exactly where the map has no such path; and at most three concepts are
-- named.
pub diagnose_problem_attempt_lem :
    (m : ProblemMap) (k : ℕ) (time : Option ℤ) (limit : ℤ)
    → k < length m.choices
    → m.correct_choice < length m.choices
    → is_negative time ≡ false
    → is_positive limit ≡ true
    → (d : Diagnosis) × (diagnose_problem_attempt m (pos k) time limit ≡ diagnosed d)
      × ((d.correct ≡ true) ↔ (k ≡ m.correct_choice))
      × (mem_str "time_pressure" d.mistake_tags ≡ is_slow time limit)
      × (mem_str "concept_gap" d.mistake_tags ≡ not d.correct)
      × (mem_str "distractor_trap" d.mistake_tags ≡ not d.correct)
      × ActionOf d.correct (is_slow time limit) d.action
      × PathOf d.correct (is_slow time limit) m.solution_paths d.recommended_path
      × (length d.focus_concepts ≤ 3)
unfolding diagnose_problem_attempt diagnosis_of
diagnose_problem_attempt_lem m k time limit h h' t l =
    let (c, e) = in_range_item m.choices k h in
    let (r, e') = in_range_item m.choices m.correct_choice h' in
    let slow = is_slow time limit in
    let correct = k == m.correct_choice in
    let d = diagnosis_of m k c r slow in
    let (pressed, gap, trap) = tags_lem correct slow in
    let short = length-labels (take 3 d.missing_concept_links) in
    (
      d,
      rw (diagnose_problem_attempt, e, t, l, e') refl,
      ==_iff k m.correct_choice,
      pressed,
      gap,
      trap,
      next_action-ActionOf correct slow,
      first-PathOf correct slow m.solution_paths,
      omega (arith, short, length-take 3 d.missing_concept_links),
    )

-- `0 <= selected < n`
abbrev pub in_range : ℤ → ℕ → Bool
in_range (negsuc j) n = false
in_range (pos k) n = ltb k n

-- An attempt is refused for its choice exactly when the choice is negative or not below the number of choices,
-- whatever the times are.
pub diagnose_problem_attempt_range :
    (m : ProblemMap) (selected : ℤ) (time : Option ℤ) (limit : ℤ)
    → (diagnose_problem_attempt m selected time limit ≡ choice_out_of_range)
      ↔ (in_range selected (length m.choices) ≡ false)
unfolding diagnose_problem_attempt
diagnose_problem_attempt_range m (negsuc j) time limit = (λ e. refl, λ h. refl)
diagnose_problem_attempt_range m (pos k) time limit = elim (Bool-cases (ltb k (length m.choices))) [
  | inl h ↦
      let (c, e) = in_range_item m.choices k (ltb→lt k (length m.choices) h) in
      (λ f. absurd (passed c e f), λ f. absurd (ground arith))
  | inr h ↦
      let e = out_of_range_item m.choices k (ground arith) in
      (λ f. h, λ f. rw (diagnose_problem_attempt, e) refl)
]
  where
    passed :
        (c : String)
        → get_elem? m.choices k ≡ some c
        → diagnose_problem_attempt m (pos k) time limit ≢ choice_out_of_range
    passed c e f = elim (Option-cases (get_elem? m.choices m.correct_choice)) [
      | inl r ↦ ground (arith, e, r, f)
      | inr (x, r) ↦ ground (arith, e, r, f)
    ]
