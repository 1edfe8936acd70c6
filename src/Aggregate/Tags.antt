-- ===== src/Aggregate/Tags.antt =====
-- The risk tags of cpa_first/engine/aggregate.py: how many, and which come first.
use xeno_pre_test.Prelude.{
  ℕ, ◌≤◌, ◌≡◌, sym, ◌∙◌, leb, List, [], ◌∷◌, ◌++◌, String, mem_str, tally, sorted, length,
  length-take, length-append, arith, Bool-cases, inl, inr,
}
use mathlib.Core.List.{append_assoc, append-nil}
use xeno_pre_test.Aggregate.Signals.{
  Log, Problem, keys, more_frequent, explicit_tags, explicit_counts, fill, inferred_tags,
  combine_risk_tags, subject_risk_tags, is_pressed, is_overrun, has_threshold,
}

length-fill : (ts ss : List String) → length ss ≤ 3 → length (fill ts ss) ≤ 3
unfolding fill
length-fill [] ss h = h
length-fill (t ∷ ts) ss h = elim (Bool-cases (leb 3 (length ss))) [
  | inl e ↦ rw e h
  | inr e ↦ elim (Bool-cases (mem_str t ss)) [
    | inl m ↦ rw (e, m) (length-fill ts ss h)
    | inr m ↦
        rw (e, m) (length-fill ts (ss ++ t ∷ []) (ground (arith, e, length-append ss (t ∷ []))))
  ]
]

-- What `fill` adds stands behind what was selected.
fill_behind : (ts ss : List String) → (rest : List String) × (fill ts ss ≡ ss ++ rest)
unfolding fill
fill_behind [] ss = ([], sym (append-nil ss))
fill_behind (t ∷ ts) ss = elim (Bool-cases (leb 3 (length ss))) [
  | inl e ↦ rw e ([], sym (append-nil ss))
  | inr e ↦ elim (Bool-cases (mem_str t ss)) [
    | inl m ↦ rw (e, m) (fill_behind ts ss)
    | inr m ↦
        let (rest, f) = fill_behind ts (ss ++ t ∷ []) in
        rw (e, m) (t ∷ rest, f ∙ append_assoc ss (t ∷ []) rest)
  ]
]

-- A subject has at most three risk tags. They begin with the user's own categories, the most frequent three of
-- them; the tags inferred from times and mastery only follow these.
pub subject_risk_tags_lem :
    (logs : List Log) (ps : List Problem) (mastery : List (String × ℕ))
    → (length (subject_risk_tags logs ps mastery) ≤ 3)
      × ((rest : List String) × (subject_risk_tags logs ps mastery
            ≡ explicit_tags (explicit_counts logs []) ++ rest))
unfolding subject_risk_tags combine_risk_tags
subject_risk_tags_lem logs ps mastery =
    let own = explicit_tags (explicit_counts logs []) in
    let pressed = is_pressed (tally (is_overrun ps) logs) (tally (has_threshold ps) logs) in
    let all_keys = keys (sorted more_frequent (explicit_counts logs [])) in
    (
      length-fill (inferred_tags pressed mastery) own (omega (arith, length-take 3 all_keys)),
      fill_behind (inferred_tags pressed mastery) own,
    )
