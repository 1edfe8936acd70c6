-- ===== src/Prescribe/Bounds.antt =====
-- The risk score and the matching of rules (cpa_first/engine/prescribe.py): the range of the one, and what the
-- other does for a user with one subject more.
use xeno_pre_test.Prelude.{
  ℕ, ◌*◌, ◌≤◌, ◌≡◌, refl, min, Bool, true, false, ltb, leb, List, [], ◌∷◌, ◌++◌, String, mem_str,
  any, length, length-append, arith, Bool-cases, inl, inr,
}
use xeno_pre_test.Prescribe.Subjects.{matches_rule_subject}
use xeno_pre_test.Prescribe.Rules.{
  Rule, SubjectState, UserState, user_subjects, user_risk_tags, matches, matches_stage,
  matches_subjects, matches_risk_tags, is_empty,
}
use xeno_pre_test.Prescribe.Risk.{
  Driver, Weighed, add_if, weigh_subject, weigh_subjects, weigh_days, weigh_rules, has_gap,
  fail_risk, time_overrun, concept_gap, tight_deadline, near_deadline, many_rules, several_rules,
  risk_score,
}

-- Each driver stands for ten points at least, and for twenty-five at most.
abbrev Balanced : Weighed → Type 0
Balanced (score, drivers) = (10 * length drivers ≤ score) × (score ≤ 25 * length drivers)

add_if-Balanced :
    (c : Bool) (points : ℕ) (d : Driver) (w : Weighed)
    → 10 ≤ points
    → points ≤ 25
    → Balanced w
    → Balanced (add_if c points d w)
add_if-Balanced true points d (score, drivers) h k b =
    let l = length-append drivers (d ∷ []) in (omega (arith, b.0, l), omega (arith, b.1, l))
add_if-Balanced false points d (score, drivers) h k b = b

weigh_subjects-Balanced :
    (states : List SubjectState) (w : Weighed) → Balanced w → Balanced (weigh_subjects states w)
unfolding weigh_subjects
weigh_subjects-Balanced [] w b = b
weigh_subjects-Balanced (s ∷ states) w b =
    let fail =
      add_if-Balanced (ltb s.accuracy 4000) 20 (fail_risk s.subject) w (omega arith) (omega arith)
        b in
    let late =
      add_if-Balanced (ltb 3000 s.time_overrun_rate) 15 (time_overrun s.subject) _ (omega arith)
        (omega arith) fail in
    weigh_subjects-Balanced states (weigh_subject s w) (
      add_if-Balanced (has_gap s.concept_mastery) 15 (concept_gap s.subject) _ (omega arith)
        (omega arith) late)

weigh_days-Balanced : (days : ℕ) (w : Weighed) → Balanced w → Balanced (weigh_days days w)
weigh_days-Balanced days w b = elim (Bool-cases (ltb days 30)) [
  | inl e ↦ rw e (add_if-Balanced true 25 (tight_deadline days) w (omega arith) (omega arith) b)
  | inr e ↦
      rw e (add_if-Balanced (ltb days 60) 10 (near_deadline days) w (omega arith) (omega arith) b)
]

weigh_rules-Balanced : (n : ℕ) (w : Weighed) → Balanced w → Balanced (weigh_rules n w)
weigh_rules-Balanced n w b = elim (Bool-cases (leb 5 n)) [
  | inl e ↦ rw e (add_if-Balanced true 20 many_rules w (omega arith) (omega arith) b)
  | inr e ↦ rw e (add_if-Balanced (leb 3 n) 10 several_rules w (omega arith) (omega arith) b)
]

-- The risk score is at most 100. Each driver reported stands for at least ten points, up to the cap, and for at
-- most twenty-five: so the score is 0 only without a driver.
pub risk_score_lem :
    (u : UserState) (matched : List Rule)
    → ((risk_score u matched).0 ≤ 100)
      × (min (10 * length (risk_score u matched).1) 100 ≤ (risk_score u matched).0)
      × ((risk_score u matched).0 ≤ 25 * length (risk_score u matched).1)
unfolding risk_score
risk_score_lem u matched =
    let w = weigh_days u.days_until_exam (weigh_subjects u.subject_states (0, [])) in
    let b = weigh_rules-Balanced (length matched) w (
      weigh_days-Balanced u.days_until_exam _
        (weigh_subjects-Balanced u.subject_states (0, []) (omega arith, omega arith))) in
    (omega arith, omega (arith, b.0), omega (arith, b.1))

any_mono :
    (p q : String → Bool) (xs : List String)
    → ((x : String) → p x ≡ true → q x ≡ true)
    → any p xs ≡ true
    → any q xs ≡ true
any_mono p q [] h e = absurd (ground arith)
any_mono p q (x ∷ xs) h e = elim (Bool-cases (p x)) [
  | inl t ↦ rw (h x t) refl
  | inr t ↦ let rest = any_mono p q xs h (rw t at e) in ground (arith, rest)
]

matches_rule_subject-cons :
    (x s : String) (user : List String)
    → matches_rule_subject s user ≡ true
    → matches_rule_subject s (x ∷ user) ≡ true
unfolding matches_rule_subject
matches_rule_subject-cons x s user h = ground (arith, h)

mem_str-append :
    (t : String) (xs ys : List String) → mem_str t ys ≡ true → mem_str t (xs ++ ys) ≡ true
mem_str-append t [] ys h = h
mem_str-append t (x ∷ xs) ys h = ground (arith, mem_str-append t xs ys h)

matches_subjects-cons :
    (r : Rule) (u : UserState) (s : SubjectState)
    → matches_subjects r u ≡ true
    → matches_subjects r (record u { subject_states = s ∷ u.subject_states }) ≡ true
unfolding matches_subjects user_subjects
matches_subjects-cons r u s h = elim (Bool-cases (is_empty r.applicable_subjects)) [
  | inl e ↦ rw e refl
  | inr e ↦ rw e (
      any_mono _ _ r.applicable_subjects
        (λ x. matches_rule_subject-cons s.subject x (user_subjects u.subject_states)) (rw e at h))
]

matches_risk_tags-cons :
    (r : Rule) (u : UserState) (s : SubjectState)
    → matches_risk_tags r u ≡ true
    → matches_risk_tags r (record u { subject_states = s ∷ u.subject_states }) ≡ true
unfolding matches_risk_tags user_risk_tags
matches_risk_tags-cons r u s h = elim (Bool-cases (is_empty r.required_risk_tags)) [
  | inl e ↦ rw e refl
  | inr e ↦ rw e (
      any_mono _ _ r.required_risk_tags
        (λ t. mem_str-append t s.risk_tags (user_risk_tags u.subject_states)) (rw e at h))
]

-- A rule that matches a user still matches when the user has one subject more.
pub matches-cons :
    (r : Rule) (u : UserState) (s : SubjectState)
    → matches r u ≡ true
    → matches r (record u { subject_states = s ∷ u.subject_states }) ≡ true
unfolding matches matches_stage
matches-cons r u s h =
    let subjects : matches_subjects r u ≡ true = ground (arith, h) in
    let tags : matches_risk_tags r u ≡ true = ground (arith, h) in
    ground (arith, h, matches_subjects-cons r u s subjects, matches_risk_tags-cons r u s tags)
