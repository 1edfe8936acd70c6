-- ===== src/Prescribe/Contents.antt =====
-- What the prescription of cpa_first/engine/prescribe.py holds.
use mathlib.Core.Bool.{false≢true}
use xeno_pre_test.Prelude.{
  ◌⊎◌, ◌<◌, leb, leb→le, ℕ, zero, suc, ◌≤◌, ◌≡◌, refl, sym, ap, ◌∙◌, true, false, List, [], ◌∷◌,
  map, Perm, String, str_eq, eq_iff, mem_str, keep, take, length, length-take, sorted, sorted-perm,
  IsSorted, sorted-IsSorted, higher_first-total, higher_first_trans, arith, Bool-cases, inl, inr,
}
use xeno_pre_test.Prescribe.Rules.{
  Rule, UserState, user_subjects, matches, task_subject, estimated_minutes,
}
use xeno_pre_test.Prescribe.Subjects.{primary_subject}
use xeno_pre_test.Prescribe.Risk.{Driver}
use xeno_pre_test.Prescribe.Whole.{
  goes_first, matched_rules, Task, task_of, daily_tasks, unique, diagnosis, concepts_to_review,
  prescribe, more_important, review_candidates, concept_frequency,
}

-- No text stands twice.
abbrev pub Once : List String → Type 0
Once [] = Unit
Once (x ∷ xs) = (mem_str x xs ≡ false) × Once xs

unique_skips :
    (y : String) (seen xs : List String)
    → mem_str y seen ≡ true
    → mem_str y (unique seen xs) ≡ false
unfolding unique
unique_skips y seen [] h = refl
unique_skips y seen (x ∷ xs) h = elim (Bool-cases (mem_str x seen)) [
  | inl e ↦ rw e (unique_skips y seen xs h)
  | inr e ↦ elim (Bool-cases (str_eq y x)) [
    | inl k ↦ absurd (false≢true (sym e ∙ ap (λ s. mem_str s seen) (sym ((eq_iff y x).0 k)) ∙ h))
    | inr k ↦ rw (e, k) (unique_skips y (x ∷ seen) xs (rw (k, h) refl))
  ]
]

unique-Once : (seen xs : List String) → Once (unique seen xs)
unfolding unique
unique-Once seen [] = tt
unique-Once seen (x ∷ xs) = elim (Bool-cases (mem_str x seen)) [
  | inl e ↦ rw e (unique-Once seen xs)
  | inr e ↦
      rw e (unique_skips x (x ∷ seen) xs (rw ((eq_iff x x).1 refl) refl), unique-Once (x ∷ seen) xs)
]

take_skips :
    (y : String) (n : ℕ) (xs : List String) → mem_str y xs ≡ false → mem_str y (take n xs) ≡ false
take_skips y zero xs h = refl
take_skips y (suc n) [] h = refl
take_skips y (suc n) (x ∷ xs) h = elim (Bool-cases (str_eq y x)) [
  | inl e ↦ absurd (false≢true (sym (rw e at h)))
  | inr e ↦ rw e (take_skips y n xs (rw e at h))
]

take-Once : (n : ℕ) (xs : List String) → Once xs → Once (take n xs)
take-Once zero xs h = tt
take-Once (suc n) [] h = tt
take-Once (suc n) (x ∷ xs) h = (take_skips x n xs h.0, take-Once n xs h.1)

-- The minutes for so many signals.
abbrev pub Minutes : ℕ → ℕ → Type 0
Minutes n m = ((10 ≤ n) × (m ≡ 60)) ⊎ (((3 ≤ n) × (n < 10) × (m ≡ 45)) ⊎ ((n < 3) × (m ≡ 30)))

-- Each task has the minutes of its rule.
abbrev pub MinutesOf : List Rule → List Task → Type 0
MinutesOf [] [] = Unit
MinutesOf [] (t ∷ ts) = ⊥
MinutesOf (r ∷ rs) [] = ⊥
MinutesOf (r ∷ rs) (t ∷ ts) = Minutes r.source_signal_count t.estimated_minutes × MinutesOf rs ts

estimated_minutes-Minutes : (r : Rule) → Minutes r.source_signal_count (estimated_minutes r)
unfolding estimated_minutes
estimated_minutes-Minutes r = elim (Bool-cases (leb 10 r.source_signal_count)) [
  | inl e ↦ rw e (inl (leb→le 10 _ e, refl))
  | inr e ↦ elim (Bool-cases (leb 3 r.source_signal_count)) [
    | inl h ↦ rw (e, h) (inr (inl (leb→le 3 _ h, ground (arith, e), refl)))
    | inr h ↦ rw (e, h) (inr (inr (ground (arith, h), refl)))
  ]
]

map-MinutesOf : (u : UserState) (rs : List Rule) → MinutesOf rs (map (task_of u) rs)
unfolding task_of
map-MinutesOf u [] = tt
map-MinutesOf u (r ∷ rs) = (estimated_minutes-Minutes r, map-MinutesOf u rs)

-- The tasks of the rules, one for each in order, or one general task of an hour where there is no rule.
abbrev pub TasksOf : UserState → List Rule → List Task → Type 0
TasksOf u [] ts =
    (map (λ t. t.task_text) ts ≡ "오늘은 풀이 로그를 30건 이상 남기고, 각 풀이의 오답 원인을 분류한다." ∷ [])
    × (map (λ t. t.subject) ts ≡ "mixed" ∷ [])
    × (map (λ t. t.estimated_minutes) ts ≡ 60 ∷ [])
TasksOf u (r ∷ rs) ts =
    (map (λ t. t.task_text) ts ≡ map (λ q. q.action_text) (r ∷ rs))
    × (map (λ t. t.subject) ts
        ≡ map (λ q. primary_subject q.applicable_subjects (user_subjects u.subject_states))
            (r ∷ rs))
    × MinutesOf (r ∷ rs) ts

map-map {ℓ} :
    {A B C : Type ℓ} (f : A → B) (g : B → C) (xs : List A)
    → map g (map f xs) ≡ map (λ x. g (f x)) xs
map-map f g [] = refl
map-map f g (x ∷ xs) = ap (λ l. g (f x) ∷ l) (map-map f g xs)

daily_tasks-TasksOf : (rs : List Rule) (u : UserState) → TasksOf u rs (daily_tasks rs u)
unfolding daily_tasks task_of task_subject
daily_tasks-TasksOf [] u = (refl, refl, refl)
daily_tasks-TasksOf (r ∷ rs) u = (
  map-map (task_of u) (λ t. t.task_text) (r ∷ rs),
  map-map (task_of u) (λ t. t.subject) (r ∷ rs),
  map-MinutesOf u (r ∷ rs),
)

module _ (driver_text : Driver → String) (importance : ℕ → ℕ → ℕ → ℕ)
    (digest : String → String → List String → String) where
  -- A prescription is triggered by exactly the rules that match, the most confident first; its tasks are, rule
  -- by rule, the text of the rule, the subject of the rule that the user has, and 60 minutes for a rule of at least 10 signals, 45
  -- for at least 3 and 30 for fewer, or
  -- where no rule matches the general text, mixed subjects and 60 minutes; it has at most three concepts to review; and neither a concept nor a risk's text stands twice.
  pub prescribe_lem :
      (u : UserState) (rules : List Rule) (now : ℕ) (problems : List (List String))
      → let p = prescribe driver_text importance digest u rules now problems in
        ((matched : List Rule) × (p.triggered_rule_keys ≡ map (λ r. r.rule_key) matched)
          × Perm matched (keep (λ r. matches r u) rules)
          × IsSorted goes_first matched
          × TasksOf u matched p.daily_tasks)
        × (length p.concepts_to_review ≤ 3)
        × Once p.concepts_to_review
        × Once p.diagnosis.risk_drivers
  unfolding prescribe matched_rules concepts_to_review diagnosis
  prescribe_lem u rules now problems =
      let matching = keep (λ r. matches r u) rules in
      let concepts = unique [] (
        map (λ c. c.concept)
          (sorted more_important (
            review_candidates driver_text importance digest (concept_frequency problems [])
              u.subject_states))) in
      (
        (
          sorted goes_first matching,
          refl,
          sorted-perm goes_first matching,
          sorted-IsSorted goes_first
              (λ r q. higher_first-total r.confidence q.confidence r.rule_key q.rule_key)
              (λ r q p.
                higher_first_trans r.confidence q.confidence p.confidence r.rule_key q.rule_key
                  p.rule_key)
              matching,
          daily_tasks-TasksOf (sorted goes_first matching) u,
        ),
        omega (arith, length-take 3 concepts),
        take-Once 3 concepts (unique-Once [] _),
        unique-Once [] _,
      )
